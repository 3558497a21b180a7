-- ===== src/Browser/Chrome.antt =====
-- Config, New and the Chrome options of browser.go, and config.go. The logger is left out.
use pje_headless.Base.{
  ℕ, ◌++◌, Bool, not, if◌then◌else◌, Option, List, [], ◌∷◌, Text, codes, is_empty,
}
use pje_headless.Base.Int.{pos}
use pje_headless.Clock.{Duration, is_zero}
use pje_headless.Config.{Env}
use pje_headless.Browser.Flow.{seconds}

pub record Config : Type 0 where
  pub pje_office_bind_addr : Text
  pub pje_office_port : Text
  pub totp_secret : Text
  pub chrome_path : Text
  pub login_timeout : Duration

unfoldable pub config_from_env : Env → Config
config_from_env env = record {
  pje_office_bind_addr = env (codes "PJE_BIND_ADDR");
  pje_office_port = env (codes "PJE_PJEOFFICE_PORT");
  totp_secret = env (codes "PJE_2FA_TOTP_SECRET");
  chrome_path = env (codes "PJE_CHROME_PATH");
  login_timeout = pos 0;
}

-- A nil signer is `none`.
pub record Browser (Signer : Type 0) : Type 0 where
  pub signer : Option Signer
  pub cfg : Config
  pub debug : Bool

abbrev or_default : Text → Text → Text
or_default t fallback = if is_empty t then fallback else t

unfoldable pub new_browser : {Signer : Type 0} → Option Signer → Config → Env → Browser Signer
unfolding is_zero
new_browser s cfg env = record {
  signer = s;
  cfg = record cfg {
    pje_office_bind_addr = or_default cfg.pje_office_bind_addr (codes "127.0.0.1");
    pje_office_port = or_default cfg.pje_office_port (codes "8800");
    login_timeout = if is_zero cfg.login_timeout then seconds 240 else cfg.login_timeout;
  };
  debug = not (is_empty (env (codes "PJE_CHROMEDP_DEBUG")));
}

-- The options that chromedp gets.
pub data AllocatorOption : Type 0 where
  no_first_run no_default_browser_check no_sandbox disable_gpu : AllocatorOption
  flag : (name value : Text) → AllocatorOption
  enabled : (name : Text) → AllocatorOption
  window_size : (width height : ℕ) → AllocatorOption
  user_agent exec_path : Text → AllocatorOption

abbrev pub user_agent_text : Text
user_agent_text =
    codes
      "Mozilla/5.0 (Windows NT 10.0; Win64; x64) AppleWebKit/537.36 (KHTML, like Gecko) Chrome/120.0.0.0 Safari/537.36"

abbrev pub fixed_options : List AllocatorOption
fixed_options =
    AllocatorOption.no_first_run
    ∷ AllocatorOption.no_default_browser_check
    ∷ AllocatorOption.flag (codes "headless") (codes "new")
    ∷ AllocatorOption.no_sandbox
    ∷ AllocatorOption.enabled (codes "disable-dev-shm-usage")
    ∷ AllocatorOption.disable_gpu
    ∷ AllocatorOption.window_size 1920 1080
    ∷ AllocatorOption.user_agent user_agent_text
    ∷ AllocatorOption.flag (codes "disable-features") (
        codes
          "BlockInsecurePrivateNetworkRequests,PrivateNetworkAccessSendPreflights,PrivateNetworkAccessRespectPreflightResults,LocalNetworkAccessChecks")
    ∷ AllocatorOption.enabled (codes "allow-running-insecure-content")
    ∷ []

pub data ContextOption : Type 0 where
  with_debugf with_errorf : ContextOption

module _ {Signer : Type 0} (b : Browser Signer) where
  unfoldable pub allocator_options : List AllocatorOption
  allocator_options =
      if not (is_empty b.cfg.chrome_path)
      then fixed_options ++ (AllocatorOption.exec_path b.cfg.chrome_path ∷ [])
      else fixed_options

  unfoldable pub context_options : List ContextOption
  context_options =
      if not b.debug then [] else ContextOption.with_debugf ∷ ContextOption.with_errorf ∷ []
