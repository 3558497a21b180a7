-- ===== src/Browser/Flow/Steady.antt =====
-- A property of the flow that every step of it keeps.
use pje_headless.Base.{ℕ, true, Text}
use pje_headless.Browser.Session.{Chromedp}
use pje_headless.Browser.Flow.{Tab, Flow, world_of, with_world, observe, rebind_flow}
use pje_headless.Browser.Flow.Respect.{Order, KeepsQuiet}

-- The steps of the world keep `R`, and what keeps `R` keeps `I`.
pub record Steady {V : Type 0} (R : V → V → Type 0) (I : Flow V → Type 0) (tab : Tab V)
    (cdp : Chromedp V) : Type 0 where
  pub order : Order R
  pub quiet : KeepsQuiet R tab
  pub submit_two_fa : (c : ℕ) (code : Text) (v : V) → R v (tab.submit_two_fa c code v).1
  pub click_cert : (c : ℕ) (v : V) → R v (tab.click_cert c v).1
  pub submit_enrollment :
      (c : ℕ) (code label : Text) (v : V) → R v (tab.submit_enrollment c code label v).1
  pub step : (f : Flow V) (v : V) → R (world_of f) v → I f → I (with_world f v)
  pub noted : (f : Flow V) → I f → I (record f { totp_enrolled = true })
  pub observed : (f : Flow V) → I f → I (observe tab f)
  pub rebound : (f : Flow V) → I f → I (rebind_flow cdp f).1

-- Nothing at all.
pub trivial-Steady :
    {V : Type 0} (tab : Tab V) (cdp : Chromedp V) → Steady (λ _ _. Unit {0}) (λ _. Unit {0}) tab cdp
trivial-Steady tab cdp = record {
  order = record { stay = λ v. tt; trans = λ p q. tt };
  quiet = record {
    wait = λ c d v. tt;
    start = λ c v. tt;
    enable = λ c v. tt;
    goto = λ c url v. tt;
    autenticar_ready = λ c v. tt;
    click_link = λ c v. tt;
    consulta_ready = λ c v. tt;
    search = λ c num v. tt;
    navigate = λ c url v. tt;
    two_fa_present = λ c v. tt;
    two_fa_visible = λ c v. tt;
    wait_ready = λ c sel v. tt;
    read_secret = λ c v. tt;
  };
  submit_two_fa = λ c code v. tt;
  click_cert = λ c v. tt;
  submit_enrollment = λ c code label v. tt;
  step = λ f v e h. tt;
  noted = λ f h. tt;
  observed = λ f h. tt;
  rebound = λ f h. tt;
}
