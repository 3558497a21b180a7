-- ===== src/LoginSvc/Service/History.antt =====
-- The bearers that callers are given come from logins of the same run of the service.
use pje_headless.Base.{ℕ, ◌≡◌, refl, subst, ◌⊎◌, inl, inr, Option, some, Text, Result, ok, err}
use pje_headless.Clock.{Time, Duration}
use pje_headless.LoginSvc.Manager.{Reply}
use pje_headless.LoginSvc.System.{returned}
use pje_headless.LoginSvc.Service.{Service, Step, call, finish, wake, cancel, Runs, start, later}
use pje_headless.LoginSvc.Service.Provenance.{
  Honest, Told, Fresh, Answered, init-Honest, Step-Honest, Honest-mono, answer,
}
use pje_headless.GrpcLogin.{BearerReply, bearer_reply}

module _ {W : Type 0} (parse : Text → Option Time) (run : W → Option (Result Text × W)) where
  -- The step ends a login that took the world from `v` to `u` with the result `r`.
  abbrev Ended : {s t : Service W} → Step parse run s t → W → W → Result Text → Type 0
  Ended (call i now force h) v u r = ⊥
  Ended {s} (finish i f now r' w h e) v u r = (v ≡ s.world) × (u ≡ w) × (r ≡ r')
  Ended (wake i f h d) v u r = ⊥
  Ended (cancel i f e h) v u r = ⊥

  Ended-run :
      {s t : Service W} (st : Step parse run s t) (v u : W) (r : Result Text)
      → Ended st v u r
      → run v ≡ some (r, u)
  Ended-run (call i now force h) v u r x = absurd x
  Ended-run (finish i f now r' w h e) v u r (a, b, c) = rw (a, b, c) e
  Ended-run (wake i f h d) v u r x = absurd x
  Ended-run (cancel i f e h) v u r x = absurd x

module _ {W : Type 0} (parse : Text → Option Time) (run : W → Option (Result Text × W))
    {margin : Duration} where
  -- One of the steps of the run of the service does.
  abbrev pub LoggedIn : {s : Service W} → Runs parse run margin s → W → W → Result Text → Type 0
  LoggedIn (start w) v u r = ⊥
  LoggedIn (later runs st) v u r = LoggedIn runs v u r ⊎ Ended parse run st v u r

  -- A login of this run of the service succeeded with `b`.
  abbrev pub Delivered : {s : Service W} → Runs parse run margin s → Text → Type 0
  Delivered runs b = (v : W) × (u : W) × LoggedIn runs v u (ok b)

  pub LoggedIn-run :
      {s : Service W} (runs : Runs parse run margin s) (v u : W) (r : Result Text)
      → LoggedIn runs v u r
      → run v ≡ some (r, u)
  LoggedIn-run (start w) v u r x = absurd x
  LoggedIn-run (later runs st) v u r (inl x) = LoggedIn-run runs v u r x
  LoggedIn-run (later runs st) v u r (inr x) = Ended-run parse run st v u r x

  delivered :
      {s t : Service W} (runs : Runs parse run margin s) (st : Step parse run s t)
      → Fresh (Delivered (later runs st)) parse run st
  delivered runs (call i now force h) = tt
  delivered {s} runs (finish i f now (ok b) w h e) = (s.world, w, inr (refl, refl, refl))
  delivered runs (finish i f now (err x) w h e) = tt
  delivered runs (wake i f h d) = tt
  delivered runs (cancel i f e h) = tt

  Runs-Honest :
      {s : Service W} (runs : Runs parse run margin s) → Honest (Delivered runs) parse s.system
  Runs-Honest (start w) = init-Honest (Delivered (start w)) parse margin
  Runs-Honest {s} (later {s = u} runs st) =
      Step-Honest (Delivered (later runs st)) parse run st (delivered runs st) (
        Honest-mono (Delivered runs) (Delivered (later runs st)) (λ b (v, w, x). (v, w, inl x))
          parse u.system (Runs-Honest runs))

  -- However the calls are interleaved: a bearer that the GetBearer RPC answers a call with, cached or
  -- shared or new, is one that a login of this run of the service succeeded with, and the expiry in the
  -- answer is the one that belongs to that bearer, parsed from it or counted from some time.
  pub answer-Issued :
      {s : Service W} (runs : Runs parse run margin s) (i : ℕ) (o : Option ℕ) (r : Reply)
      (a : BearerReply)
      → s.system.pc i ≡ returned o r
      → bearer_reply r ≡ ok a
      → Answered (Delivered runs) parse a
  answer-Issued runs i o r a at h =
      answer (Delivered runs) parse r a h
        (subst (Told (Delivered runs) parse) at ((Runs-Honest runs).in_reply i))
