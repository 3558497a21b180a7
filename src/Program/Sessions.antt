-- ===== src/Program/Sessions.antt =====
-- The LoginService of runLoginService, with the login of the browser behind it.
use pje_headless.Base.{
  ℕ, ◌≡◌, ap, sym, subst, arith, Option, none, some, List, [], Text, Result, ok, err,
}
use pje_headless.Clock.{Time, Duration}
use pje_headless.Config.{Config, Env, Built, build_signer}
use pje_headless.Signer.Defs.{Signer}
use pje_headless.Browser.Capture.{Event}
use pje_headless.Browser.Session.{Chromedp}
use pje_headless.Browser.Polling.Rules.{Ensures}
use pje_headless.Browser.Flow.{Tab}
use pje_headless.Browser.Flow.Beside.{beside, beside_cdp, logged_tab}
use pje_headless.Browser.Enroll.Attempts.{Codec}
use pje_headless.Browser.Chrome.{config_from_env, new_browser}
use pje_headless.Browser.Login as Login
use pje_headless.Browser.Login.{Fuel, Launch, Run}
use pje_headless.Browser.Login.Beside.{beside_launch}
use pje_headless.Browser.Login.Keeping.{deferred-Ensures}
use pje_headless.Browser.Login.Origin.{Genuine, login-Genuine}
use pje_headless.LoginSvc.Manager.{Reply}
use pje_headless.LoginSvc.System.{returned}
use pje_headless.LoginSvc.Service.{Service, Runs}
use pje_headless.LoginSvc.Service.Provenance.{Answered}
use pje_headless.LoginSvc.Service.History.{LoggedIn, Delivered, LoggedIn-run, answer-Issued}
use pje_headless.GrpcLogin.{BearerReply, bearer_reply}
use pje_headless.Program.{login_timeout, login_fn}

-- The log is that of one login.
abbrev forget : {V : Type 0} → Option (Result Text × (V × List Event)) → Option (Result Text × V)
forget none = none
forget (some (r, (v, log))) = some (r, v)

module _ {V : Type 0} (signer : Built → Signer (V × List Event))
    (with_timeout : Duration → V → ℕ × V) (cancel : ℕ → V → V)
    (launch : Launch (Signer (V × List Event)) V) (tab : Tab V) (cdp : Chromedp V) (codec : Codec)
    (fuel : Fuel) (cfg : Config) (env : Env) where
  -- loginFn of runLoginService, over libraries that log the network events of the login.
  abbrev pub logged_login : Run (V × List Event) Text
  logged_login =
      login_fn signer (λ d. beside (with_timeout d)) (λ c (v, log). (cancel c v, log))
        (λ b. Login.login (beside_launch launch) (logged_tab tab) (beside_cdp cdp) codec fuel b) cfg
        env

  abbrev pub run : V → Option (Result Text × V)
  run v = forget (logged_login (v, []))

  abbrev Said : Result Text → V × List Event → Type 0
  Said r u = Genuine r u.1

  logged_login-Genuine : (v : V) → Ensures Said (logged_login (v, []))
  unfolding login_fn
  logged_login-Genuine v =
      let bcfg = config_from_env env in
      let (ctx, w) = with_timeout (login_timeout bcfg) v in
      deferred-Ensures Said Said (λ u. (cancel ctx u.0, u.1)) (λ r u h. h) _
        (login-Genuine tab cdp launch codec fuel
          (new_browser (some (signer (build_signer cfg))) bcfg env) ctx w)

  from_login :
      (o : Option (Result Text × (V × List Event))) (u : V) (b : Text)
      → Ensures Said o
      → forget o ≡ some (ok b, u)
      → (x : V × List Event) × (x.0 ≡ u) × (o ≡ some (ok b, x)) × Genuine (ok b) x.1
  from_login none u b h e = cc
  from_login (some (err x, w)) u b h e = cc
  from_login (some (ok c, w)) u b h e =
      let same : c ≡ b = ground arith in
      let there : w.0 ≡ u = ground arith in
      (w, there, ap (λ d. some (ok d, w)) same, subst (λ d. Genuine (ok d) w.1) same h)

  module _ (parse : Text → Option Time) {margin : Duration} {s : Service V} where
    -- A bearer that a login of this run of the service gave: it took the world from `v` to `u`, and the
    -- bearer is the Authorization value of an extra-info event that the browser delivered during it, of a
    -- request of the API.
    abbrev pub FromLogin : Runs parse run margin s → Text → Type 0
    FromLogin runs b =
        (v : V) × (u : V × List Event) × LoggedIn parse run runs v u.0 (ok b)
        × (logged_login (v, []) ≡ some (ok b, u))
        × Genuine (ok b) u.1

    delivered-FromLogin :
        (runs : Runs parse run margin s) (b : Text) → Delivered parse run runs b → FromLogin runs b
    delivered-FromLogin runs b (v, w, x) =
        let (u, there, ended, genuine) =
          from_login (logged_login (v, [])) w b (logged_login-Genuine v)
            (LoggedIn-run parse run runs v w (ok b) x) in
        (v, u, subst (λ z. LoggedIn parse run runs v z (ok b)) (sym there) x, ended, genuine)

    -- In the login service, however its calls are interleaved and whatever the page, the network and the
    -- backends do: a bearer that the GetBearer RPC answers with, cached or shared or new, is the
    -- trimmed Authorization value of an extra-info event that the browser delivered during a login that
    -- this run of the service ended, of a request whose URL is one of the API, and that login returned
    -- it; the expiry in the answer is the one parsed from this bearer, or counted from some time.
    pub service-Genuine :
        (runs : Runs parse run margin s) (i : ℕ) (o : Option ℕ) (r : Reply) (a : BearerReply)
        → s.system.pc i ≡ returned o r
        → bearer_reply r ≡ ok a
        → Answered (FromLogin runs) parse a
    service-Genuine runs i o r a at h =
        let (delivered, now, exp) = answer-Issued parse run runs i o r a at h in
        (delivered-FromLogin runs a.bearer delivered, now, exp)
