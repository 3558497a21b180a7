-- ===== src/Program.antt =====
-- cmd/pjeheadless/main.go: the run functions of the modes, over the world `W`. The choice of the mode and
-- of the backends is in Config. os.Exit is the end of a run with its code; the logging is left out.
pub mod Masking
pub mod Startup
pub mod Sessions
pub mod Answers
use pje_headless.Base.{
  ℕ, ◌+◌, ◌-◌, ◌++◌, ltb, ◌===◌, not, Bool, true, false, if◌then◌else◌, Option, none, some, List,
  [], ◌∷◌, take, drop, length, Text, codes, is_empty, utf8, Result, ok, err, Error, Act, branch,
}
use pje_headless.Base.Int.{ℤ, pos, leb_ℤ}
use pje_headless.Clock.{Time, Duration, unix}
use pje_headless.Net.{Net}
use pje_headless.Config.{Config, Env, Built, Mode, build_signer, dispatch}
use pje_headless.Signer.Defs.{Signer}
use pje_headless.GrpcLogin as GrpcLogin
use pje_headless.GrpcSigner as GrpcSigner
use pje_headless.PjeOffice.Start.{HttpServer, Server, new_server, start}
use pje_headless.Browser.Flow.{seconds}
use pje_headless.Browser.Chrome as Chrome
use pje_headless.Browser.Chrome.{Browser, config_from_env, new_browser}
use pje_headless.Browser.Login.{Run, deferred}
use pje_headless.Browser.Totp.{totp_now}
use pje_headless.LoginSvc.Manager.{Manager, new_manager}

-- How main ends: by returning, or with an exit code.
pub data Ending : Type 0 where
  returned : Ending
  exited : ℕ → Ending

-- A server that stops with an error ends the program with code 1.
abbrev pub ended : {W : Type 0} → Result (Unit {0}) × W → Ending × W
ended (ok _, w) = (returned, w)
ended (err e, w) = (exited 1, w)

module _ {W : Type 0} (net : Net W) (signer : Built → Signer W) where
  unfoldable pub run_full :
      (HttpServer → Server (Signer W) → ℕ → Act W (Unit {0})) → Config → W → Ending × W
  unfolding build_signer new_server start
  run_full serve_http cfg w = ended (
      start net serve_http
        (new_server (signer (build_signer cfg)) cfg.pje_office_port cfg.bind_addr) w)

  unfoldable pub run_signer_only : (Signer W → ℕ → Act W (Unit {0})) → Config → W → Ending × W
  unfolding build_signer GrpcSigner.listen_and_serve
  run_signer_only serve cfg w =
      let s = signer (build_signer cfg) in
      branch (s.login w) (λ _ v. ended (GrpcSigner.listen_and_serve net (serve s) cfg.grpc_addr v))
        (λ e v. (exited 1, v))

-- What Login leaves of a bearer for the log.
unfoldable pub mask : List ℕ → List ℕ
mask bearer =
    if ltb 28 (length bearer)
    then take 20 bearer ++ (codes "..." ++ drop (length bearer - 6) bearer)
    else bearer

-- What runLogin prints: the masked bearer, and its length in bytes.
pub record Printed : Type 0 where
  pub bearer_masked : List ℕ
  pub bearer_len : ℕ

abbrev pub five_minutes : Duration
five_minutes = seconds 300

-- The bound of a login of the service.
abbrev pub login_timeout : Chrome.Config → Duration
login_timeout cfg = if leb_ℤ cfg.login_timeout (pos 0) then five_minutes else cfg.login_timeout

-- `login` is that of the browser, which gives nothing where the fuel of a loop runs out.
module _ {W : Type 0} (signer : Built → Signer W) (with_timeout : Duration → W → ℕ × W)
    (cancel : ℕ → W → W) (login : Browser (Signer W) → ℕ → Run W Text) where
  abbrev pub logged_in : ℕ → Option (Result Text × W) → Option ((Ending × Option Printed) × W)
  logged_in ctx none = none
  logged_in ctx (some (err e, w)) = some ((exited 1, none), w)
  logged_in ctx (some (ok bearer, w)) = some (
    (
      returned,
      some (record { bearer_masked = mask (utf8 bearer); bearer_len = length (utf8 bearer) }),
    ),
    cancel ctx w,
  )

  -- os.Exit runs no deferred call.
  unfoldable pub run_login : Config → Env → W → Option ((Ending × Option Printed) × W)
  unfolding mask build_signer config_from_env new_browser
  run_login cfg env w =
      let b = new_browser (some (signer (build_signer cfg))) (config_from_env env) env in
      let (ctx, v) = with_timeout five_minutes w in logged_in ctx (login b ctx v)

  -- loginFn of runLoginService.
  unfoldable pub login_fn : Config → Env → Run W Text
  unfolding build_signer config_from_env new_browser
  login_fn cfg env w =
      let bcfg = config_from_env env in
      let (ctx, v) = with_timeout (login_timeout bcfg) w in
      deferred (cancel ctx) (login (new_browser (some (signer (build_signer cfg))) bcfg env) ctx v)

  -- `serve` is the gRPC server with the LoginService over the manager registered, whose calls run loginFn.
  unfoldable pub run_login_service :
      Net W → (Run W Text → Manager → ℕ → Act W (Unit {0})) → Config → Env → W → Ending × W
  unfolding login_fn new_manager GrpcLogin.listen_and_serve
  run_login_service net serve cfg env w = ended (
      GrpcLogin.listen_and_serve net (serve (login_fn cfg env) (new_manager (pos 0)))
        cfg.login_grpc_addr w)

-- A line of runTotp.
pub record Line : Type 0 where
  pub code : Text
  pub expires_in : ℕ
  pub is_new : Bool

module _ (decode : Text → Option (List ℕ)) (hmac : List ℕ → List ℕ → List ℕ) (secret : Text) where
  -- A round. A panic of totpAt ends the program with code 2.
  abbrev pub printed :
      Text → Option (Result (Text × ℕ)) → (Text → List Line × Ending) → List Line × Ending
  printed last none rest = ([], exited 2)
  printed last (some (err e)) rest = ([], exited 1)
  printed last (some (ok (code, left))) rest =
      let (lines, e) = rest code in
      (record { code = code; expires_in = left; is_new = not (code === last) } ∷ lines, e)

  -- The loop of runTotp, as far as these readings of the clock go.
  unfoldable pub totp_lines : Text → List Time → List Line × Ending
  unfolding totp_now
  totp_lines last [] = ([], returned)
  totp_lines last (now ∷ times) =
      printed last (totp_now decode hmac secret (unix now)) (λ code. totp_lines code times)

  -- The check before the loop.
  abbrev pub checked : Option (Result (Text × ℕ)) → List Line × Ending → List Line × Ending
  checked none loop = ([], exited 2)
  checked (some (err e)) loop = ([], exited 1)
  checked (some (ok _)) loop = loop

  -- `first` is the time of the check.
  unfoldable pub run_totp : Time → List Time → List Line × Ending
  unfolding totp_lines
  run_totp first times =
      let running = checked (totp_now decode hmac secret (unix first)) (totp_lines [] times) in
      let missing : List Line × Ending = ([], exited 1) in
      if is_empty secret then missing else running
