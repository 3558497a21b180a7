-- ===== src/Program/Answers.antt =====
-- The LoginService of runLoginService answers.
use pje_headless.Base.{ℕ, Text}
use pje_headless.Clock.{Duration}
use pje_headless.Config.{Config, Env, Built}
use pje_headless.Signer.Defs.{Signer}
use pje_headless.Browser.Session.{Chromedp}
use pje_headless.Browser.Flow.{Tab}
use pje_headless.Browser.Enroll.Attempts.{Codec}
use pje_headless.Browser.Await.Ticking.{Ticking}
use pje_headless.Browser.Login as Login
use pje_headless.Browser.Login.{Launch, Run}
use pje_headless.Browser.Login.Ends.{enough_fuel}
use pje_headless.LoginSvc.Service.{Service}
use pje_headless.Program.{login_fn}

module _ {V : Type 0} (signer : Built → Signer V) (with_timeout : Duration → V → ℕ × V)
    (cancel : ℕ → V → V) (launch : Launch (Signer V) V) (tab : Tab V) (cdp : Chromedp V)
    (codec : Codec) (n : ℕ) (cfg : Config) (env : Env) where
  -- loginFn of runLoginService.
  abbrev pub fueled_login : Run V Text
  fueled_login =
      login_fn signer with_timeout cancel (λ b. Login.login launch tab cdp codec (enough_fuel n) b)
        cfg env
