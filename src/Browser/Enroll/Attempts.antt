-- ===== src/Browser/Enroll/Attempts.antt =====
-- maybeEnrollTOTP and its helpers of totp_enroll.go, and enrollTOTPRobust of browser.go. The attempts
-- stand over the Flow, whose `totp_enrolled` is the flag that the loop shares.
use pje_headless.Base.{
  ℕ, Bool, true, false, not, if◌then◌else◌, Option, none, some, List, [], ◌∷◌, Text, String, codes,
  contains, Result, ok, err, Error, Act, branch,
}
use pje_headless.Base.Int.{◌+ℤ◌}
use pje_headless.Clock.{unix}
use pje_headless.Browser.Url.{configure_totp_marker}
use pje_headless.Browser.Session.{Chromedp, is_invalid_context}
use pje_headless.Browser.Totp.{totp_at}
use pje_headless.Browser.Polling.{Round, done, resume, until}
use pje_headless.Browser.Flow.{Tab, Flow, seconds, world_of, in_world, sleep_ctx, rebind_flow}
use pje_headless.Browser.Enroll.{choose_totp_secret}

abbrev pub totp_device_label : Text
totp_device_label = codes "pje-headless-robot"

abbrev pub totp_secret_wait_selectors : List Text
totp_secret_wait_selectors =
    codes "#totpSecret, [name=totpSecret]" ∷ codes "#kc-totp-secret-key" ∷ []

abbrev pub no_selector : Error
no_selector = Error.msg "browser: no CONFIGURE_TOTP secret selector to wait on"

-- base32 and HMAC-SHA1, as in Totp.
pub record Codec : Type 0 where
  pub decode : Text → Option (List ℕ)
  pub encode : List ℕ → Text
  pub hmac : List ℕ → List ℕ → List ℕ

module _ {V : Type 0} (tab : Tab V) (cdp : Chromedp V) (codec : Codec) where
  -- The loop of waitTOTPSecretReady over the selectors, with lastErr.
  unfoldable pub wait_selectors : ℕ → Error → List Text → Act V (Unit {0})
  wait_selectors ctx last [] v = (err last, v)
  wait_selectors ctx last (sel ∷ sels) v =
      branch (tab.wait_ready ctx sel v) (λ _ w. (ok tt, w))
        (λ e w.
          let rest = wait_selectors ctx e sels w in
          if is_invalid_context cdp.invalid_context e then (err e, w) else rest)

  unfoldable pub wait_totp_secret_ready : ℕ → Act V (Unit {0})
  unfolding wait_selectors
  wait_totp_secret_ready ctx v =
      branch (tab.wait_ready ctx (codes "body") v)
        (λ _ w. wait_selectors ctx no_selector totp_secret_wait_selectors w) (λ e w. (err e, w))

  -- An error of the page: one more attempt where the target was swapped, else the end.
  abbrev pub transient : String → Error → Result Bool
  transient text e =
      if is_invalid_context cdp.invalid_context e then ok false else err (Error.wrap text e)

  abbrev pub enroll_submitted : Result Bool × Flow V → Result Bool × Flow V
  enroll_submitted (err e, s) = (transient "browser: submit CONFIGURE_TOTP" e, s)
  enroll_submitted (ok false, s) = (ok false, s)
  enroll_submitted (ok true, s) = (ok true, record s { totp_enrolled = true })

  -- A panic of totpAt stands as an error of its own.
  abbrev pub enroll_code : ℕ → Option (Result Text) → Flow V → Result Bool × Flow V
  enroll_code ctx none s = (err (Error.foreign 1), s)
  enroll_code ctx (some (err e)) s = (err (Error.wrap "browser: generate TOTP for enrollment" e), s)
  enroll_code ctx (some (ok code)) s =
      enroll_submitted (in_world (tab.submit_enrollment ctx code totp_device_label) s)

  abbrev pub enroll_secret : ℕ → Result Text → Flow V → Result Bool × Flow V
  enroll_secret ctx (err e) s = (err e, s)
  enroll_secret ctx (ok secret) s =
      enroll_code ctx (totp_at codec.decode codec.hmac secret (unix (tab.now (world_of s)))) s

  abbrev pub enroll_read : ℕ → Result (Text × Text) × Flow V → Result Bool × Flow V
  enroll_read ctx (err e, s) = (transient "browser: read CONFIGURE_TOTP secret" e, s)
  enroll_read ctx (ok (span, hidden), s) =
      enroll_secret ctx (choose_totp_secret codec.decode codec.encode span hidden) s

  -- The context after the renewal is read once.
  abbrev pub enroll_on : ℕ → Flow V → Result Bool × Flow V
  enroll_on ctx s =
      branch (in_world (wait_totp_secret_ready ctx) s)
        (λ _ t. enroll_read ctx (in_world (tab.read_secret ctx) t)) (λ e t. (ok false, t))

  abbrev pub attempt : Flow V → Result Bool × Flow V
  attempt s = branch (rebind_flow cdp s) (λ _ t. enroll_on t.session.ctx t) (λ e t. (err e, t))

  unfoldable pub maybe_enroll_totp : Text → Act (Flow V) Bool
  unfolding rebind_flow wait_totp_secret_ready
  maybe_enroll_totp cur s =
      let tried = attempt s in
      let left : Result Bool × Flow V = (ok false, s) in
      if s.totp_enrolled
      then left
      else if not (contains cur configure_totp_marker)
      then left
      else tried

  -- A round of enrollTOTPRobust, after the attempt.
  abbrev pub enroll_again : ℕ → Flow V → Round Bool × Flow V
  enroll_again root s =
      branch (rebind_flow cdp s) (λ _ t. resume (in_world (sleep_ctx tab root (seconds 1)) t))
        (λ e t. (done (err e), t))

  abbrev pub enroll_tried : ℕ → Result Bool × Flow V → Round Bool × Flow V
  enroll_tried root (err e, s) = (done (err e), s)
  enroll_tried root (ok true, s) = (done (ok true), s)
  enroll_tried root (ok false, s) = enroll_again root s

  abbrev pub enroll_late : Error
  enroll_late =
      Error.msg
        "browser: CONFIGURE_TOTP detected but enrollment did not complete within (secret/form never became readable)"

  unfoldable pub enroll_totp_robust : ℕ → ℕ → Text → Flow V → Option (Result Bool × Flow V)
  unfolding maybe_enroll_totp rebind_flow sleep_ctx until
  enroll_totp_robust fuel root cur s =
      until fuel (λ (t : Flow V). tab.now (world_of t)) (tab.now (world_of s) +ℤ seconds 60)
        (λ t. some (enroll_tried root (maybe_enroll_totp cur t))) enroll_late s
