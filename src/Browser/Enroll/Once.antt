-- ===== src/Browser/Enroll/Once.antt =====
-- A run of enrollTOTPRobust submits at most one enrollment, which the flag notes, and no code.
use pje_headless.Base.{
  ℕ, ◌+◌, ◌≡◌, refl, sym, ap, ◌∙◌, Bool, true, false, not, if◌then◌else◌, if_cases, branch_cases,
  Option, none, some, Text, contains, Result, ok, err,
}
use pje_headless.Clock.{unix}
use pje_headless.Browser.Url.{configure_totp_marker}
use pje_headless.Browser.Session.{Chromedp}
use pje_headless.Browser.Totp.{totp_at}
use pje_headless.Browser.Prompts.Bounds.{Tally}
use pje_headless.Browser.Polling.{Round, resume}
use pje_headless.Browser.Polling.Rules as Rules
use pje_headless.Browser.Polling.Rules.{Ensures, until-Ensures}
use pje_headless.Browser.Flow.{
  Tab, Flow, seconds, world_of, with_world, in_world, sleep_ctx, rebind_flow,
}
use pje_headless.Browser.Flow.Respect.{rebind_flow-R, sleep_ctx-R}
use pje_headless.Browser.Flow.Tallied.{
  count_enrollment, tallied_tab, tally_of, tallied_tab-KeepsQuiet,
}
use pje_headless.Browser.Flow.Beside.{beside_cdp, Same, Same-Order, beside_cdp-Keeps}
use pje_headless.Browser.Enroll.{choose_totp_secret}
use pje_headless.Browser.Enroll.Respect.{wait_totp_secret_ready-R}
use pje_headless.Browser.Enroll.Attempts.{
  Codec, wait_totp_secret_ready, totp_device_label, enroll_submitted, enroll_code, enroll_secret,
  enroll_read, enroll_on, attempt, maybe_enroll_totp, enroll_again, enroll_tried,
  enroll_totp_robust,
}

module _ {V : Type 0} (tab : Tab V) (cdp : Chromedp V) (codec : Codec) where
  abbrev pub tab' : Tab (V × Tally)
  tab' = tallied_tab tab

  abbrev pub cdp' : Chromedp (V × Tally)
  cdp' = beside_cdp cdp

  abbrev pub tally : Flow (V × Tally) → Tally
  tally f = tally_of (world_of f)

  -- What an attempt to enroll keeps: the tally, but for one enrollment that the flag notes.
  abbrev pub One : Tally → Flow (V × Tally) → Type 0
  One t f = tally f ≡ (if f.totp_enrolled then record t { enrollments = t.enrollments + 1 } else t)

  pub rebind_flag : (f : Flow (V × Tally)) → (rebind_flow cdp' f).1.totp_enrolled ≡ f.totp_enrolled
  unfolding rebind_flow
  rebind_flag f = refl

  pub rebind-tally : (f : Flow (V × Tally)) → tally (rebind_flow cdp' f).1 ≡ tally f
  rebind-tally f = rebind_flow-R Same cdp' (beside_cdp-Keeps cdp) f

  ready-tally :
      (ctx : ℕ) (v : V × Tally)
      → tally_of (wait_totp_secret_ready tab' cdp' codec ctx v).1 ≡ tally_of v
  ready-tally ctx v =
      wait_totp_secret_ready-R Same Same-Order tab' (tallied_tab-KeepsQuiet tab) cdp' codec ctx v

  -- Neither a code nor the flag before.
  abbrev Fresh : Tally → Flow (V × Tally) → Type 0
  Fresh t f = (f.totp_enrolled ≡ false) × (tally f ≡ t)

  Fresh-One : (t : Tally) (f : Flow (V × Tally)) → Fresh t f → One t f
  Fresh-One t f u = rw u.0 u.1

  enroll_submitted-One :
      (t : Tally) (r : Result Bool) (f : Flow (V × Tally))
      → f.totp_enrolled ≡ false
      → tally f ≡ count_enrollment r t
      → One t (enroll_submitted tab' cdp' codec (r, f)).1
  enroll_submitted-One t (err e) f new c = Fresh-One t f (new, c)
  enroll_submitted-One t (ok false) f new c = Fresh-One t f (new, c)
  enroll_submitted-One t (ok true) f new c = c

  enroll_code-One :
      (t : Tally) (ctx : ℕ) (code : Option (Result Text)) (f : Flow (V × Tally))
      → Fresh t f
      → One t (enroll_code tab' cdp' codec ctx code f).1
  enroll_code-One t ctx none f u = Fresh-One t f u
  enroll_code-One t ctx (some (err e)) f u = Fresh-One t f u
  enroll_code-One t ctx (some (ok code)) f u =
      let r = tab.submit_enrollment ctx code totp_device_label (world_of f).0 in
      enroll_submitted-One t r.0 _ u.0 (ap (count_enrollment r.0) u.1)

  enroll_secret-One :
      (t : Tally) (ctx : ℕ) (secret : Result Text) (f : Flow (V × Tally))
      → Fresh t f
      → One t (enroll_secret tab' cdp' codec ctx secret f).1
  enroll_secret-One t ctx (err e) f u = Fresh-One t f u
  enroll_secret-One t ctx (ok secret) f u =
      enroll_code-One t ctx (totp_at codec.decode codec.hmac secret (unix (tab.now (world_of f).0)))
        f u

  enroll_read-One :
      (t : Tally) (ctx : ℕ) (r : Result (Text × Text)) (f : Flow (V × Tally))
      → Fresh t f
      → One t (enroll_read tab' cdp' codec ctx (r, f)).1
  enroll_read-One t ctx (err e) f u = Fresh-One t f u
  enroll_read-One t ctx (ok (span, hidden)) f u =
      enroll_secret-One t ctx (choose_totp_secret codec.decode codec.encode span hidden) f u

  enroll_on-One :
      (t : Tally) (ctx : ℕ) (f : Flow (V × Tally))
      → Fresh t f
      → One t (enroll_on tab' cdp' codec ctx f).1
  enroll_on-One t ctx f u =
      let ready = wait_totp_secret_ready tab' cdp' codec ctx (world_of f) in
      let g = with_world f ready.1 in
      let still : Fresh t g = (u.0, ready-tally ctx (world_of f) ∙ u.1) in
      branch_cases (λ (x : Result Bool × Flow (V × Tally)). One t x.1) (ready.0, g) _ _
        (λ _ _. enroll_read-One t ctx (tab.read_secret ctx ready.1.0).0 _ still)
        (λ _ _. Fresh-One t g still)

  attempt-One : (t : Tally) (f : Flow (V × Tally)) → Fresh t f → One t (attempt tab' cdp' codec f).1
  attempt-One t f u =
      let r = rebind_flow cdp' f in
      let still : Fresh t r.1 = (rebind_flag f ∙ u.0, rebind-tally f ∙ u.1) in
      branch_cases (λ (x : Result Bool × Flow (V × Tally)). One t x.1) r _ _
        (λ _ _. enroll_on-One t r.1.session.ctx r.1 still) (λ _ _. Fresh-One t r.1 still)

  maybe_enroll-One :
      (t : Tally) (cur : Text) (f : Flow (V × Tally))
      → One t f
      → One t (maybe_enroll_totp tab' cdp' codec cur f).1
  unfolding maybe_enroll_totp
  maybe_enroll-One t cur f u =
      if_cases (λ (x : Result Bool × Flow (V × Tally)). One t x.1) f.totp_enrolled _ _ (λ _. u)
        (λ new.
          if_cases (λ (x : Result Bool × Flow (V × Tally)). One t x.1)
            (not (contains cur configure_totp_marker)) _ _ (λ _. u)
            (λ _. attempt-One t f (new, u ∙ rw new refl)))

  pub sleep-tally :
      (root n : ℕ) (f : Flow (V × Tally))
      → tally (in_world (sleep_ctx tab' root (seconds n)) f).1 ≡ tally f
  sleep-tally root n f =
      sleep_ctx-R Same tab' (tallied_tab-KeepsQuiet tab) root (seconds n) (world_of f)

  -- The flag of the flow stays where the world alone changes.
  One-in_world :
      (t : Tally) (f : Flow (V × Tally)) (v : V × Tally)
      → tally_of v ≡ tally f
      → One t f
      → One t (with_world f v)
  One-in_world t f v e u = e ∙ u

  enroll_resumed-One :
      (t : Tally) (r : Result (Unit {0})) (f : Flow (V × Tally))
      → One t f
      → Rules.Keeps (One t) (λ (_ : Result Bool). One t) (some (resume (r, f)))
  enroll_resumed-One t (ok _) f u = u
  enroll_resumed-One t (err e) f u = u

  enroll_again-One :
      (t : Tally) (root : ℕ) (f : Flow (V × Tally))
      → One t f
      → Rules.Keeps (One t) (λ _. One t) (some (enroll_again tab' cdp' codec root f))
  enroll_again-One t root f u =
      let r = rebind_flow cdp' f in
      let still : One t r.1 =
        rebind-tally f
        ∙ u
        ∙ ap (λ b. if b then record t { enrollments = t.enrollments + 1 } else t)
            (sym (rebind_flag f)) in
      let slept = sleep_ctx tab' root (seconds 1) (world_of r.1) in
      branch_cases
        (λ (x : Round Bool × Flow (V × Tally)). Rules.Keeps (One t) (λ _. One t) (some x)) r _ _
        (λ _ _.
          enroll_resumed-One t slept.0 _
            (One-in_world t r.1 slept.1 (sleep-tally root 1 r.1) still))
        (λ _ _. still)

  enroll_tried-One :
      (t : Tally) (root : ℕ) (r : Result Bool) (f : Flow (V × Tally))
      → One t f
      → Rules.Keeps (One t) (λ _. One t) (some (enroll_tried tab' cdp' codec root (r, f)))
  enroll_tried-One t root (err e) f u = u
  enroll_tried-One t root (ok true) f u = u
  enroll_tried-One t root (ok false) f u = enroll_again-One t root f u

  pub enroll_totp_robust-One :
      (t : Tally) (fuel root : ℕ) (cur : Text) (f : Flow (V × Tally))
      → One t f
      → Ensures (λ _. One t) (enroll_totp_robust tab' cdp' codec fuel root cur f)
  unfolding enroll_totp_robust
  enroll_totp_robust-One t fuel root cur f u =
      until-Ensures _ _ _ _ (One t) (λ _. One t)
        (λ g v.
          enroll_tried-One t root (maybe_enroll_totp tab' cdp' codec cur g).0 _
            (maybe_enroll-One t cur g v))
        (λ g v. v) fuel f u
