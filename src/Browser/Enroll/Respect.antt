-- ===== src/Browser/Enroll/Respect.antt =====
-- The steps of an enrollment keep a relation between worlds that those of the libraries keep.
use pje_headless.Base.{
  ℕ, Bool, true, false, not, if_cases, Option, none, some, List, [], ◌∷◌, Text, codes, contains,
  Result, ok, err, Error, branch_cases,
}
use pje_headless.Clock.{unix}
use pje_headless.Browser.Url.{configure_totp_marker}
use pje_headless.Browser.Session.{Chromedp, is_invalid_context}
use pje_headless.Browser.Totp.{totp_at}
use pje_headless.Browser.Polling.{Round, resume}
use pje_headless.Browser.Polling.Rules as Rules
use pje_headless.Browser.Polling.Rules.{Ensures, until-Ensures}
use pje_headless.Browser.Flow.{Tab, Flow, seconds, world_of, with_world, sleep_ctx, rebind_flow}
use pje_headless.Browser.Flow.Respect.{Order, KeepsQuiet, sleep_ctx-R}
use pje_headless.Browser.Flow.Steady.{Steady}
use pje_headless.Browser.Enroll.{choose_totp_secret}
use pje_headless.Browser.Enroll.Attempts.{
  Codec, wait_selectors, wait_totp_secret_ready, totp_secret_wait_selectors, no_selector,
  totp_device_label, enroll_submitted, enroll_code, enroll_secret, enroll_read, enroll_on, attempt,
  maybe_enroll_totp, enroll_tried, enroll_totp_robust,
}

module _ {V : Type 0} (R : V → V → Type 0) (k : Order R) (tab : Tab V) (q : KeepsQuiet R tab)
    (cdp : Chromedp V) (codec : Codec) where
  abbrev Ends : V → Result (Unit {0}) × V → Type 0
  Ends v x = R v x.1

  wait_selectors-R :
      (ctx : ℕ) (last : Error) (sels : List Text) (v : V)
      → R v (wait_selectors tab cdp codec ctx last sels v).1
  unfolding wait_selectors
  wait_selectors-R ctx last [] v = k.stay v
  wait_selectors-R ctx last (sel ∷ sels) v =
      let ready = tab.wait_ready ctx sel v in
      branch_cases (Ends v) ready _ _ (λ _ _. q.wait_ready ctx sel v)
        (λ e _.
          if_cases (Ends v) (is_invalid_context cdp.invalid_context e) _ _
            (λ _. q.wait_ready ctx sel v)
            (λ _. k.trans (q.wait_ready ctx sel v) (wait_selectors-R ctx e sels ready.1)))

  pub wait_totp_secret_ready-R :
      (ctx : ℕ) (v : V) → R v (wait_totp_secret_ready tab cdp codec ctx v).1
  unfolding wait_totp_secret_ready
  wait_totp_secret_ready-R ctx v =
      let ready = tab.wait_ready ctx (codes "body") v in
      branch_cases (Ends v) ready _ _
        (λ _ _.
          k.trans (q.wait_ready ctx _ v)
            (wait_selectors-R ctx no_selector totp_secret_wait_selectors ready.1))
        (λ _ _. q.wait_ready ctx _ v)

module _ {V : Type 0} (R : V → V → Type 0) (I : Flow V → Type 0) (tab : Tab V) (cdp : Chromedp V)
    (k : Steady R I tab cdp) (codec : Codec) where
  abbrev Holds : Result Bool × Flow V → Type 0
  Holds x = I x.1

  enroll_submitted-I :
      (r : Result Bool) (f : Flow V) → I f → Holds (enroll_submitted tab cdp codec (r, f))
  enroll_submitted-I (err e) f h = h
  enroll_submitted-I (ok false) f h = h
  enroll_submitted-I (ok true) f h = k.noted f h

  enroll_code-I :
      (ctx : ℕ) (code : Option (Result Text)) (f : Flow V)
      → I f
      → Holds (enroll_code tab cdp codec ctx code f)
  enroll_code-I ctx none f h = h
  enroll_code-I ctx (some (err e)) f h = h
  enroll_code-I ctx (some (ok code)) f h =
      enroll_submitted-I (tab.submit_enrollment ctx code totp_device_label (world_of f)).0 _
        (k.step f _ (k.submit_enrollment ctx code totp_device_label (world_of f)) h)

  enroll_secret-I :
      (ctx : ℕ) (secret : Result Text) (f : Flow V)
      → I f
      → Holds (enroll_secret tab cdp codec ctx secret f)
  enroll_secret-I ctx (err e) f h = h
  enroll_secret-I ctx (ok secret) f h =
      enroll_code-I ctx (totp_at codec.decode codec.hmac secret (unix (tab.now (world_of f)))) f h

  enroll_read-I :
      (ctx : ℕ) (r : Result (Text × Text)) (f : Flow V)
      → I f
      → Holds (enroll_read tab cdp codec ctx (r, f))
  enroll_read-I ctx (err e) f h = h
  enroll_read-I ctx (ok (span, hidden)) f h =
      enroll_secret-I ctx (choose_totp_secret codec.decode codec.encode span hidden) f h

  enroll_on-I : (ctx : ℕ) (f : Flow V) → I f → Holds (enroll_on tab cdp codec ctx f)
  enroll_on-I ctx f h =
      let ready = wait_totp_secret_ready tab cdp codec ctx (world_of f) in
      let g = with_world f ready.1 in
      let waited =
        k.step f _ (wait_totp_secret_ready-R R k.order tab k.quiet cdp codec ctx (world_of f)) h in
      branch_cases Holds (ready.0, g) _ _
        (λ _ _.
          enroll_read-I ctx (tab.read_secret ctx ready.1).0 _
            (k.step g _ (k.quiet.read_secret ctx ready.1) waited))
        (λ _ _. waited)

  attempt-I : (f : Flow V) → I f → Holds (attempt tab cdp codec f)
  attempt-I f h =
      let r = rebind_flow cdp f in
      branch_cases Holds r _ _ (λ _ _. enroll_on-I r.1.session.ctx r.1 (k.rebound f h))
        (λ _ _. k.rebound f h)

  pub maybe_enroll_totp-I :
      (cur : Text) (f : Flow V) → I f → Holds (maybe_enroll_totp tab cdp codec cur f)
  unfolding maybe_enroll_totp
  maybe_enroll_totp-I cur f h =
      if_cases Holds f.totp_enrolled _ _ (λ _. h)
        (λ _.
          if_cases Holds (not (contains cur configure_totp_marker)) _ _ (λ _. h)
            (λ _. attempt-I f h))

  abbrev Onward : Option (Round Bool × Flow V) → Type 0
  Onward o = Rules.Keeps I (λ _. I) o

  resumed-I : (r : Result (Unit {0})) (f : Flow V) → I f → Onward (some (resume (r, f)))
  resumed-I (ok _) f h = h
  resumed-I (err e) f h = h

  enroll_tried-I :
      (root : ℕ) (r : Result Bool) (f : Flow V)
      → I f
      → Onward (some (enroll_tried tab cdp codec root (r, f)))
  enroll_tried-I root (err e) f h = h
  enroll_tried-I root (ok true) f h = h
  enroll_tried-I root (ok false) f h =
      let r = rebind_flow cdp f in
      branch_cases (λ (x : Round Bool × Flow V). Onward (some x)) r _ _
        (λ _ _. resumed-I (sleep_ctx tab root (seconds 1) (world_of r.1)).0 _ (
          k.step r.1 _ (sleep_ctx-R R tab k.quiet root (seconds 1) (world_of r.1)) (k.rebound f h)))
        (λ _ _. k.rebound f h)

  pub enroll_totp_robust-I :
      (fuel root : ℕ) (cur : Text) (f : Flow V)
      → I f
      → Ensures (λ _. I) (enroll_totp_robust tab cdp codec fuel root cur f)
  unfolding enroll_totp_robust
  enroll_totp_robust-I fuel root cur f h =
      until-Ensures _ _ _ _ I (λ _. I)
        (λ g i.
          enroll_tried-I root (maybe_enroll_totp tab cdp codec cur g).0 _
            (maybe_enroll_totp-I cur g i))
        (λ g i. i) fuel f h
