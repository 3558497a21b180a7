-- ===== src/LoginSvc/Service/Answers.antt =====
-- Every waiting call of the LoginService is answered, where logins return.
use pje_headless.Base.{ℕ, ◌≡◌, inl, inr, Option, Text, Result}
use pje_headless.Clock.{Time, Duration}
use pje_headless.Browser.Polling.Rules.{Returns}
use pje_headless.LoginSvc.Manager.{publish}
use pje_headless.LoginSvc.System.{waiting, woken, published}
use pje_headless.LoginSvc.System.Invariant.{Reach-Inv}
use pje_headless.LoginSvc.System.Coalescing.{Served, wake-Served, after_publish}
use pje_headless.LoginSvc.Service.{Service, Step, finish, wake, Runs, Runs-Reach}

module _ {W : Type 0} (parse : Text → Option Time) (run : W → Option (Result Text × W)) where
  -- Further steps of the service.
  pub data Steps (s : Service W) : Service W → Type 0 where
    stay : Steps s s
    next : {t u : Service W} → Steps s t → Step parse run t u → Steps s u

  pub waiting-Answered :
      ((w : W) → Returns (run w))
      → {margin : Duration} {s : Service W} → Runs parse run margin s
      → (i f : ℕ) (now : Time) → s.system.pc i ≡ waiting f
      → (t : Service W) × Steps s t × Served i f t.system
  waiting-Answered returns {margin} {s} runs i f now h =
      let reach = Runs-Reach parse run runs in
      let sys = s.system in
      elim (((Reach-Inv reach).wait i f h).1) [
        | inr d ↦ (
          record s { system = woken i f sys },
          Steps.next Steps.stay (wake i f h d),
          wake-Served reach sys i f h d,
        )
        | inl flying ↦
            let (j, k) = (Reach-Inv reach).run_live f flying in
            let (res, w, e) = returns s.world in
            let (h', d) = after_publish reach i j f now res h k in
            let done = published j f (publish parse now res sys.mgr (sys.heap f)) sys in
            (
              record { system = woken i f done; world = w },
              Steps.next (Steps.next Steps.stay (finish j f now res w k e)) (wake i f h' d),
              wake-Served reach done i f h' d,
            )
      ]
