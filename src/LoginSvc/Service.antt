-- ===== src/LoginSvc/Service.antt =====
-- The LoginManager with the logins it runs, as runLoginService of cmd/pjeheadless/main.go joins them: the
-- system of interleaved calls, in which a call that runs loginFn ends with what `run` gives in the
-- world at that moment. Only loginFn touches the world, and one call at most runs it.
pub mod Provenance
pub mod History
pub mod Answers
use pje_headless.Base.{ℕ, ◌≡◌, Option, some, Bool, true, Text, Result, Error}
use pje_headless.Clock.{Time, Duration}
use pje_headless.LoginSvc.Manager.{enter, publish}
use pje_headless.LoginSvc.System as System
use pje_headless.LoginSvc.System.{
  System, idle, running, waiting, init, entered, published, woken, gave_up, Reach,
}

pub record Service (W : Type 0) : Type 0 where
  pub system : System
  pub world : W

module _ {W : Type 0} (parse : Text → Option Time) (run : W → Option (Result Text × W)) where
  pub data Step (s : Service W) : Service W → Type 0 where
    call :
        (i : ℕ) (now : Time) (force : Bool)
        → s.system.pc i ≡ idle
        → Step s
            (record s { system = entered i (enter now force s.system.next s.system.mgr) s.system })
    finish :
        (i f : ℕ) (now : Time) (r : Result Text) (w : W)
        → s.system.pc i ≡ running f
        → run s.world ≡ some (r, w)
        → Step s (record {
          system = published i f (publish parse now r s.system.mgr (s.system.heap f)) s.system;
          world = w;
        })
    wake :
        (i f : ℕ)
        → s.system.pc i ≡ waiting f
        → (s.system.heap f).done ≡ true
        → Step s (record s { system = woken i f s.system })
    cancel :
        (i f : ℕ) (e : Error)
        → s.system.pc i ≡ waiting f
        → Step s (record s { system = gave_up i e s.system })

  pub data Runs (margin : Duration) : Service W → Type 0 where
    start : (w : W) → Runs margin (record { system = init margin; world = w })
    later : {s t : Service W} → Runs margin s → Step s t → Runs margin t

  -- Its calls are calls of the system.
  system_step : {s t : Service W} → Step s t → System.Step parse s.system t.system
  system_step (call i now force h) = System.Step.call i now force h
  system_step (finish i f now r w h e) = System.Step.finish i f now r h
  system_step (wake i f h d) = System.Step.wake i f h d
  system_step (cancel i f e h) = System.Step.cancel i f e h

  pub Runs-Reach : {margin : Duration} {s : Service W} → Runs margin s → Reach parse margin s.system
  Runs-Reach (start w) = Reach.start
  Runs-Reach (later r st) = Reach.later (Runs-Reach r) (system_step st)
