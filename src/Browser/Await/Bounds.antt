-- ===== src/Browser/Await/Bounds.antt =====
-- What a whole run of awaitAuthenticated submits and clicks, counted beside the world.
use pje_headless.Base.{
  ℕ, ◌≡◌, refl, Bool, true, false, if_cases, Option, none, some, Text, Result, ok, err, Error,
  branch_cases, arith,
}
use pje_headless.Browser.Url.{is_authenticated_url, is_gov_br_url, should_attempt_totp_enroll}
use pje_headless.Browser.Session.{Chromedp, is_invalid_context}
use pje_headless.Browser.Prompts.{Loop}
use pje_headless.Browser.Prompts.Bounds.{Tally, no_tally, two_fa-IsBounded, retry_cert-IsBounded}
use pje_headless.Browser.Prompts.Keeping.{two_fa-K, retry_cert-K}
use pje_headless.Browser.Polling.{Round, resume}
use pje_headless.Browser.Polling.Rules.{Ensures, until-Ensures}
use pje_headless.Browser.Flow.{
  Tab, Flow, seconds, world_of, in_world, observe, sleep_ctx, rebind_flow,
}
use pje_headless.Browser.Flow.Respect.{observe-R, take_all-flag}
use pje_headless.Browser.Flow.Beside.{Same}
use pje_headless.Browser.Scripts.{login_url}
use pje_headless.Browser.Enroll.Attempts.{Codec}
use pje_headless.Browser.Enroll.Once.{
  tab', cdp', tally, One, rebind_flag, rebind-tally, sleep-tally, enroll_totp_robust-One,
}
use pje_headless.Browser.Await.{
  in_flow, nap, after_cert, after_two_fa, prompts, after_enroll, restart, seen, looked, revived,
  checked, alive, round, await_authenticated,
}
use pje_headless.Browser.Await.Tallying.{
  Flagged, IsKept, Round-IsKept, page-Counts, page-Flagged, same-IsKept, enrolled-IsKept,
}

module _ {V : Type 0} (tab : Tab V) (cdp : Chromedp V) (codec : Codec) (secret : Text)
    (root : ℕ) where
  resumed-IsKept :
      (r : Result (Unit {0})) (s : Loop (Flow (V × Tally)))
      → IsKept tab cdp codec secret root s
      → Round-IsKept tab cdp codec secret root (some (resume (r, s)))
  resumed-IsKept (ok _) s b = b
  resumed-IsKept (err e) s b = b

  nap-IsKept :
      (n : ℕ) (s : Loop (Flow (V × Tally)))
      → IsKept tab cdp codec secret root s
      → Round-IsKept tab cdp codec secret root
          (some (nap (tab' tab cdp codec) (cdp' tab cdp codec) codec secret root n s))
  nap-IsKept n s b =
      let slept = in_world (sleep_ctx (tab' tab cdp codec) root (seconds n)) s.world in
      resumed-IsKept slept.0 _ (
        same-IsKept tab cdp codec secret root s slept.1 (sleep-tally tab cdp codec root n s.world)
          refl b)

  after_cert-IsKept :
      (r : Result Bool) (s : Loop (Flow (V × Tally)))
      → IsKept tab cdp codec secret root s
      → Round-IsKept tab cdp codec secret root
          (some (after_cert (tab' tab cdp codec) (cdp' tab cdp codec) codec secret root (r, s)))
  after_cert-IsKept (err e) s b = b
  after_cert-IsKept (ok true) s b = nap-IsKept 5 s b
  after_cert-IsKept (ok false) s b = nap-IsKept 1 s b

  after_two_fa-IsKept :
      (ctx : ℕ) (r : Result Bool) (s : Loop (Flow (V × Tally)))
      → IsKept tab cdp codec secret root s
      → Round-IsKept tab cdp codec secret root (
          some
            (after_two_fa (tab' tab cdp codec) (cdp' tab cdp codec) codec secret root ctx (r, s)))
  after_two_fa-IsKept ctx (err e) s b = b
  after_two_fa-IsKept ctx (ok true) s b = nap-IsKept 5 s b
  after_two_fa-IsKept ctx (ok false) s b = after_cert-IsKept _ _ (
    retry_cert-IsBounded (tally tab cdp codec) _ (page-Counts tab cdp codec secret root ctx)
        codec.decode codec.hmac secret s b.0,
    retry_cert-K (Flagged tab cdp codec) _ (page-Flagged tab cdp codec secret root ctx) codec.decode
        codec.hmac secret s b.1,
  )

  prompts-IsKept :
      (ctx : ℕ) (cur : Text) (s : Loop (Flow (V × Tally)))
      → IsKept tab cdp codec secret root s
      → Round-IsKept tab cdp codec secret root
          (some (prompts (tab' tab cdp codec) (cdp' tab cdp codec) codec secret root ctx cur s))
  prompts-IsKept ctx cur s b = after_two_fa-IsKept ctx _ _ (
    two_fa-IsBounded (tally tab cdp codec) _ (page-Counts tab cdp codec secret root ctx)
        codec.decode codec.hmac secret cur s b.0,
    two_fa-K (Flagged tab cdp codec) _ (page-Flagged tab cdp codec secret root ctx) codec.decode
        codec.hmac secret cur s b.1,
  )

  after_enroll-IsKept :
      (ctx : ℕ) (cur : Text) (s : Loop (Flow (V × Tally)))
      (o : Option (Result Bool × Flow (V × Tally)))
      → s.world.totp_enrolled ≡ false
      → Ensures (λ _. One tab cdp codec (tally tab cdp codec s.world)) o
      → IsKept tab cdp codec secret root s
      → Round-IsKept tab cdp codec secret root
          (after_enroll (tab' tab cdp codec) (cdp' tab cdp codec) codec secret root ctx cur s o)
  after_enroll-IsKept ctx cur s none new u b = tt
  after_enroll-IsKept ctx cur s (some (err e, f)) new u b =
      enrolled-IsKept tab cdp codec secret root s f new u b
  after_enroll-IsKept ctx cur s (some (ok true, f)) new u b =
      nap-IsKept 5 _ (enrolled-IsKept tab cdp codec secret root s f new u b)
  after_enroll-IsKept ctx cur s (some (ok false, f)) new u b =
      prompts-IsKept ctx cur _ (enrolled-IsKept tab cdp codec secret root s f new u b)

  restart-IsKept :
      (ctx : ℕ) (s : Loop (Flow (V × Tally)))
      → IsKept tab cdp codec secret root s
      → Round-IsKept tab cdp codec secret root
          (some (restart (tab' tab cdp codec) (cdp' tab cdp codec) codec secret root ctx s))
  restart-IsKept ctx s b =
      let went =
        in_flow (tab' tab cdp codec) (cdp' tab cdp codec) codec secret root
          (in_world ((tab' tab cdp codec).navigate ctx login_url)) s in
      branch_cases
        (λ (x : Round (Unit {0}) × (Loop (Flow (V × Tally)))).
          Round-IsKept tab cdp codec secret root (some x))
        went _ _
        (λ _ _.
          nap-IsKept 3 went.1 (same-IsKept tab cdp codec secret root s went.1.world refl refl b))
        (λ e _.
          if_cases
            (λ (x : Round (Unit {0})). Round-IsKept tab cdp codec secret root (some (x, went.1)))
            (is_invalid_context cdp.invalid_context e) _ _ (λ _. b) (λ _. b))

  unflagged : (cur : Text) (flag : Bool) → should_attempt_totp_enroll cur flag ≡ true → flag ≡ false
  unfolding should_attempt_totp_enroll
  unflagged cur flag h = ground (arith, h)

  seen-IsKept :
      (fuel : ℕ) (s : Loop (Flow (V × Tally)))
      → IsKept tab cdp codec secret root s
      → Round-IsKept tab cdp codec secret root
          (seen (tab' tab cdp codec) (cdp' tab cdp codec) codec secret root fuel s)
  seen-IsKept fuel s b =
      let ctx = s.world.session.ctx in
      let cur = s.world.last_url in
      if_cases (Round-IsKept tab cdp codec secret root) (is_authenticated_url cur) _ _ (λ _. b)
        (λ _.
          if_cases (Round-IsKept tab cdp codec secret root) (is_gov_br_url cur) _ _
            (λ _. restart-IsKept ctx s b)
            (λ _.
              if_cases (Round-IsKept tab cdp codec secret root)
                (should_attempt_totp_enroll cur s.world.totp_enrolled) _ _
                (λ on_page.
                  let new = unflagged cur s.world.totp_enrolled on_page in
                  after_enroll-IsKept ctx cur s _ new
                    (enroll_totp_robust-One tab cdp codec (tally tab cdp codec s.world) fuel root
                      cur s.world (rw new refl))
                    b)
                (λ _. prompts-IsKept ctx cur s b)))

  looked-IsKept :
      (s : Loop (Flow (V × Tally)))
      → IsKept tab cdp codec secret root s
      → IsKept tab cdp codec secret root
          (looked (tab' tab cdp codec) (cdp' tab cdp codec) codec secret root s)
  unfolding observe
  looked-IsKept s b =
      same-IsKept tab cdp codec secret root s (observe (tab' tab cdp codec) s.world)
        (observe-R Same (tab' tab cdp codec) s.world refl)
        (take_all-flag ((tab' tab cdp codec).events (world_of s.world)).0 _) b

  checked-IsKept :
      (fuel : ℕ) (ended : Option Error) (s : Loop (Flow (V × Tally)))
      → IsKept tab cdp codec secret root s
      → Round-IsKept tab cdp codec secret root
          (checked (tab' tab cdp codec) (cdp' tab cdp codec) codec secret root fuel ended s)
  checked-IsKept fuel none s b = seen-IsKept fuel _ (looked-IsKept s b)
  checked-IsKept fuel (some e) s b =
      let r = rebind_flow (cdp' tab cdp codec) s.world in
      go r.0 (record s { world = r.1 })
        (same-IsKept tab cdp codec secret root s r.1 (rebind-tally tab cdp codec s.world)
          (rebind_flag tab cdp codec s.world) b)
    where
      go :
          (r : Result Bool) (s : Loop (Flow (V × Tally)))
          → IsKept tab cdp codec secret root s
          → Round-IsKept tab cdp codec secret root
              (revived (tab' tab cdp codec) (cdp' tab cdp codec) codec secret root fuel (r, s))
      go (err e) s b = b
      go (ok _) s b = seen-IsKept fuel _ (looked-IsKept s b)

  alive-IsKept :
      (fuel : ℕ) (ended : Option Error) (s : Loop (Flow (V × Tally)))
      → IsKept tab cdp codec secret root s
      → Round-IsKept tab cdp codec secret root
          (alive (tab' tab cdp codec) (cdp' tab cdp codec) codec secret root fuel ended s)
  alive-IsKept fuel (some e) s b = b
  alive-IsKept fuel none s b = checked-IsKept fuel _ s b

  round-IsKept :
      (fuel : ℕ) (s : Loop (Flow (V × Tally)))
      → IsKept tab cdp codec secret root s
      → Round-IsKept tab cdp codec secret root
          (round (tab' tab cdp codec) (cdp' tab cdp codec) codec secret root fuel s)
  unfolding round
  round-IsKept fuel s b = alive-IsKept fuel _ s b

  -- A whole run of awaitAuthenticated on libraries that count, from a tally of nothing and without the
  -- flag totpEnrolled, however it ends: one code of a second factor was submitted with success where the
  -- loop notes it, else none; the certificate link was clicked again as often as the loop counts, five
  -- times at most; and one enrollment was submitted with success where the flag is set, else none.
  pub await_authenticated-IsKept :
      (fuel inner : ℕ) (f : Flow (V × Tally))
      → tally tab cdp codec f ≡ no_tally
      → f.totp_enrolled ≡ false
      → Ensures
          (λ _. (IsKept tab cdp codec secret root))
          (await_authenticated
            (tab' tab cdp codec)
            (cdp' tab cdp codec)
            codec
            secret
            root
            fuel
            inner
            f)
  unfolding await_authenticated
  await_authenticated-IsKept fuel inner f e new =
      until-Ensures _ _ _ _ (IsKept tab cdp codec secret root)
        (λ _. (IsKept tab cdp codec secret root)) (round-IsKept inner) (λ s b. b) fuel _
        (rw e ((refl, refl, omega arith), rw new refl))
