-- ===== src/Browser/Await/Tallying.antt =====
-- What a run of awaitAuthenticated keeps of the tally, and the steps of the flow that keep it.
use pje_headless.Base.{
  ℕ, ◌+◌, ◌≡◌, refl, sym, subst, ap, ◌∙◌, Bool, true, false, if◌then◌else◌, Option, Text, Result,
  ok, err,
}
use pje_headless.Browser.Session.{Chromedp}
use pje_headless.Browser.Prompts.{Loop}
use pje_headless.Browser.Prompts.Bounds.{Tally, count_code, count_click, Counts, IsBounded, Bounded}
use pje_headless.Browser.Prompts.Keeping.{PageKeeps}
use pje_headless.Browser.Polling.{Round}
use pje_headless.Browser.Polling.Rules as Rules
use pje_headless.Browser.Polling.Rules.{Ensures, until-Ensures}
use pje_headless.Browser.Flow.{Tab, Flow, world_of, page_at}
use pje_headless.Browser.Enroll.Attempts.{Codec}
use pje_headless.Browser.Enroll.Once.{tab', cdp', tally, One}

-- One enrollment was submitted where the flag says so, else none.
abbrev pub Flagged : {V : Type 0} → Tab V → Chromedp V → Codec → Flow (V × Tally) → Type 0
Flagged tab cdp codec f = (tally tab cdp codec f).enrollments ≡ (if f.totp_enrolled then 1 else 0)

module _ {V : Type 0} (tab : Tab V) (cdp : Chromedp V) (codec : Codec) (secret : Text)
    (root : ℕ) where
  abbrev pub S : Type 0
  S = Loop (Flow (V × Tally))

  abbrev pub IsKept : S → Type 0
  IsKept s = IsBounded (tally tab cdp codec) s × Flagged tab cdp codec s.world

  abbrev pub Round-IsKept : Option (Round (Unit {0}) × S) → Type 0
  Round-IsKept o = Rules.Keeps IsKept (λ _. IsKept) o

  pub page-Counts :
      (ctx : ℕ)
      → Counts (tally tab cdp codec) (page_at (tab' tab cdp codec) (cdp' tab cdp codec) ctx)
  page-Counts ctx = record {
    present = λ w. refl;
    visible = λ w. refl;
    submit = λ code w. refl;
    click = λ w. refl;
  }

  -- Codes and clicks are no enrollments.
  code_enrollments : (r : Result Bool) (t : Tally) → (count_code r t).enrollments ≡ t.enrollments
  code_enrollments (ok true) t = refl
  code_enrollments (ok false) t = refl
  code_enrollments (err e) t = refl

  click_enrollments : (r : Result Bool) (t : Tally) → (count_click r t).enrollments ≡ t.enrollments
  click_enrollments (ok true) t = refl
  click_enrollments (ok false) t = refl
  click_enrollments (err e) t = refl

  pub page-Flagged :
      (ctx : ℕ)
      → PageKeeps (Flagged tab cdp codec) (page_at (tab' tab cdp codec) (cdp' tab cdp codec) ctx)
  page-Flagged ctx = record {
    present = λ w k. k;
    visible = λ w k. k;
    submit = λ code w k.
        code_enrollments (tab.submit_two_fa ctx code (world_of w).0).0 (tally tab cdp codec w) ∙ k;
    click =
        λ w k. click_enrollments (tab.click_cert ctx (world_of w).0).0 (tally tab cdp codec w) ∙ k;
  }

  -- A step of the flow that leaves the tally and the flag as they were.
  pub same-IsKept :
      (s : S) (f : Flow (V × Tally))
      → tally tab cdp codec f ≡ tally tab cdp codec s.world
      → f.totp_enrolled ≡ s.world.totp_enrolled
      → IsKept s
      → IsKept (record s { world = f })
  same-IsKept s f e flag b = (
    subst (λ t. Bounded t s.two_fa_submitted s.cert_retries) (sym e) b.0,
    ap (λ (t : Tally). t.enrollments) e ∙ b.1 ∙ ap (λ (x : Bool). if x then 1 else 0) (sym flag),
  )

  -- The bounds of the tally that enrollTOTPRobust leaves, with the flag `on` and one enrollment more.
  tallied :
      (t u : Tally) (on submitted : Bool) (retries : ℕ)
      → u ≡ (if on then record t { enrollments = t.enrollments + 1 } else t)
      → t.enrollments ≡ 0
      → Bounded t submitted retries
      → Bounded u submitted retries × (u.enrollments ≡ (if on then 1 else 0))
  tallied t u true submitted retries e none_yet b = (
    subst (λ x. Bounded x submitted retries) (sym e) b,
    ap (λ (x : Tally). x.enrollments) e ∙ ap (λ n. n + 1) none_yet,
  )
  tallied t u false submitted retries e none_yet b = (
    subst (λ x. Bounded x submitted retries) (sym e) b,
    ap (λ (x : Tally). x.enrollments) e ∙ none_yet,
  )

  -- What enrollTOTPRobust leaves, where it begins without the flag.
  pub enrolled-IsKept :
      (s : S) (f : Flow (V × Tally))
      → s.world.totp_enrolled ≡ false
      → One tab cdp codec (tally tab cdp codec s.world) f
      → IsKept s
      → IsKept (record s { world = f })
  enrolled-IsKept s f new u b =
      tallied (tally tab cdp codec s.world) (tally tab cdp codec f) f.totp_enrolled
        s.two_fa_submitted s.cert_retries u (b.1 ∙ ap (λ (x : Bool). if x then 1 else 0) new) b.0
