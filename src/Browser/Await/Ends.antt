-- ===== src/Browser/Await/Ends.antt =====
-- awaitAuthenticated returns.
use pje_headless.Base.{
  ℕ, suc, ◌*◌, ◌≤◌, ◌≡◌, refl, Bool, true, false, if_cases, Option, none, some, Text, Result, ok,
  err, Error, branch_cases, arith,
}
use pje_headless.Base.Int.{pos, ◌+ℤ◌}
use pje_headless.Clock.{Time}
use pje_headless.Browser.Url.{is_authenticated_url, is_gov_br_url, should_attempt_totp_enroll}
use pje_headless.Browser.Session.{Chromedp, is_invalid_context}
use pje_headless.Browser.Prompts.{Loop, maybe_handle_two_fa, maybe_retry_cert}
use pje_headless.Browser.Prompts.Keeping.{PageKeeps, two_fa-K, retry_cert-K}
use pje_headless.Browser.Polling.{Round, resume}
use pje_headless.Browser.Polling.Rules.{Passes, Ensures, Advances, Returns, until-Returns}
use pje_headless.Browser.Flow.{
  Tab, Flow, seconds, world_of, in_world, sleep_ctx, waited, rebind_flow, page_at,
}
use pje_headless.Browser.Scripts.{login_url}
use pje_headless.Browser.Scripts.Ends.{NotBefore, Always, deadline_left, later-Passes}
use pje_headless.Browser.Enroll.Attempts.{Codec}
use pje_headless.Browser.Enroll.Respect.{enroll_totp_robust-I}
use pje_headless.Browser.Await.{
  in_flow, nap, after_cert, after_two_fa, prompts, after_enroll, restart, seen, looked, revived,
  checked, alive, round, loop_now, await_late, await_authenticated,
}
use pje_headless.Browser.Await.Ticking.{
  Ticking, shorter, flow_now, clock-Steady, enroll_totp_robust-Returns,
}

module _ {V : Type 0} (tab : Tab V) (cdp : Chromedp V) (codec : Codec) (secret : Text)
    (root tick : ℕ) (ticking : Ticking tab cdp tick) where
  -- The rounds of awaitAuthenticated: `t` is the time at their beginning.
  abbrev Ahead : Time → Option (Round (Unit {0}) × Loop (Flow V)) → Type 0
  Ahead t o = Advances (loop_now tab cdp codec secret root) tick Always t o

  abbrev Since : Time → Loop (Flow V) → Type 0
  Since t s = Passes 0 t (flow_now tab cdp codec secret root tick ticking s.world)

  slept-Ahead :
      (t : Time) (o : Option Error) (s : Loop (Flow V)) (w : V)
      → (o ≡ none → Passes tick t (tab.now w))
      → Ahead t
          (some (resume (in_flow tab cdp codec secret root (in_world (λ _. waited (o, w))) s)))
  slept-Ahead t none s w h = (tt, h refl)
  slept-Ahead t (some e) s w h = tt

  nap-Ahead :
      (t : Time) (n : ℕ) (s : Loop (Flow V))
      → Since t s
      → Ahead t (some (nap tab cdp codec secret root (suc n) s))
  unfolding sleep_ctx
  nap-Ahead t n s p =
      let v = world_of s.world in
      let d = suc n * 1_000_000_000 in
      slept-Ahead t (tab.wait root (pos d) v).0 s _ (λ fired. later-Passes tick t (tab.now v) _ p (
        shorter tick d (tab.now v) _ (omega (arith, ticking.short))
          (ticking.timers.fires root d v fired)))

  page_on :
      (t : Time) (ctx : ℕ)
      → PageKeeps
          (λ (f : Flow V). Passes 0 t (flow_now tab cdp codec secret root tick ticking f))
          (page_at tab cdp ctx)
  page_on t ctx = record {
    present = λ w p.
        later-Passes 0 t (flow_now tab cdp codec secret root tick ticking w) _ p
          (ticking.quiet.two_fa_present ctx (world_of w));
    visible = λ w p.
        later-Passes 0 t (flow_now tab cdp codec secret root tick ticking w) _ p
          (ticking.quiet.two_fa_visible ctx (world_of w));
    submit = λ code w p.
        later-Passes 0 t (flow_now tab cdp codec secret root tick ticking w) _ p
          (ticking.submit_two_fa ctx code (world_of w));
    click = λ w p.
        later-Passes 0 t (flow_now tab cdp codec secret root tick ticking w) _ p
          (ticking.click_cert ctx (world_of w));
  }

  after_cert-Ahead :
      (t : Time) (r : Result Bool) (s : Loop (Flow V))
      → Since t s
      → Ahead t (some (after_cert tab cdp codec secret root (r, s)))
  after_cert-Ahead t (err e) s p = tt
  after_cert-Ahead t (ok true) s p = nap-Ahead t 4 s p
  after_cert-Ahead t (ok false) s p = nap-Ahead t 0 s p

  after_two_fa-Ahead :
      (t : Time) (ctx : ℕ) (r : Result Bool) (s : Loop (Flow V))
      → Since t s
      → Ahead t (some (after_two_fa tab cdp codec secret root ctx (r, s)))
  after_two_fa-Ahead t ctx (err e) s p = tt
  after_two_fa-Ahead t ctx (ok true) s p = nap-Ahead t 4 s p
  after_two_fa-Ahead t ctx (ok false) s p =
      after_cert-Ahead t (maybe_retry_cert (page_at tab cdp ctx) codec.decode codec.hmac secret s).0
        _ (retry_cert-K _ _ (page_on t ctx) codec.decode codec.hmac secret s p)

  prompts-Ahead :
      (t : Time) (ctx : ℕ) (cur : Text) (s : Loop (Flow V))
      → Since t s
      → Ahead t (some (prompts tab cdp codec secret root ctx cur s))
  prompts-Ahead t ctx cur s p =
      after_two_fa-Ahead t ctx
        (maybe_handle_two_fa (page_at tab cdp ctx) codec.decode codec.hmac secret cur s).0 _
        (two_fa-K _ _ (page_on t ctx) codec.decode codec.hmac secret cur s p)

  after_enroll-Ahead :
      (t : Time) (ctx : ℕ) (cur : Text) (s : Loop (Flow V)) (o : Option (Result Bool × Flow V))
      → Returns o
      → Ensures (λ _ (g : Flow V). Passes 0 t (flow_now tab cdp codec secret root tick ticking g)) o
      → Ahead t (after_enroll tab cdp codec secret root ctx cur s o)
  after_enroll-Ahead t ctx cur s none h p = ground (arith, h.2)
  after_enroll-Ahead t ctx cur s (some (err e, f)) h p = tt
  after_enroll-Ahead t ctx cur s (some (ok true, f)) h p = nap-Ahead t 4 (record s { world = f }) p
  after_enroll-Ahead t ctx cur s (some (ok false, f)) h p =
      prompts-Ahead t ctx cur (record s { world = f }) p

  restart-Ahead :
      (t : Time) (ctx : ℕ) (s : Loop (Flow V))
      → Since t s
      → Ahead t (some (restart tab cdp codec secret root ctx s))
  restart-Ahead t ctx s p =
      let went = in_flow tab cdp codec secret root (in_world (tab.navigate ctx login_url)) s in
      let v = world_of s.world in
      branch_cases (λ (x : Round (Unit {0}) × Loop (Flow V)). Ahead t (some x)) went _ _
        (λ _ _.
          nap-Ahead t 2 went.1
            (later-Passes 0 t (tab.now v) _ p (ticking.quiet.navigate ctx login_url v)))
        (λ e failed.
          if_cases (λ (x : Round (Unit {0})). Ahead t (some (x, went.1)))
            (is_invalid_context cdp.invalid_context e) _ _
            (λ _.
              (tt, later-Passes tick t (tab.now v) _ p (ticking.fails ctx login_url v e failed)))
            (λ _. tt))

  seen-Ahead :
      (t : Time) (s : Loop (Flow V)) → Since t s → Ahead t (seen tab cdp codec secret root 61 s)
  seen-Ahead t s p =
      let ctx = s.world.session.ctx in
      let cur = s.world.last_url in
      if_cases (Ahead t) (is_authenticated_url cur) _ _ (λ _. tt)
        (λ _.
          if_cases (Ahead t) (is_gov_br_url cur) _ _ (λ _. restart-Ahead t ctx s p)
            (λ _.
              if_cases (Ahead t) (should_attempt_totp_enroll cur s.world.totp_enrolled) _ _
                (λ _.
                  after_enroll-Ahead t ctx cur s _
                    (enroll_totp_robust-Returns tab cdp codec secret root tick ticking cur s.world)
                    (enroll_totp_robust-I (NotBefore tab) _ tab cdp
                      (clock-Steady tab cdp codec secret root tick ticking t) codec 61 root cur
                      s.world p))
                (λ _. prompts-Ahead t ctx cur s p)))

  looked-Since :
      (t : Time) (s : Loop (Flow V)) → Since t s → Since t (looked tab cdp codec secret root s)
  looked-Since t s p = (clock-Steady tab cdp codec secret root tick ticking t).observed s.world p

  revived-Ahead :
      (t : Time) (r : Result Bool) (s : Loop (Flow V))
      → Since t s
      → Ahead t (revived tab cdp codec secret root 61 (r, s))
  revived-Ahead t (err e) s p = tt
  revived-Ahead t (ok b) s p = seen-Ahead t _ (looked-Since t s p)

  checked-Ahead :
      (t : Time) (ended : Option Error) (s : Loop (Flow V))
      → Since t s
      → Ahead t (checked tab cdp codec secret root 61 ended s)
  checked-Ahead t none s p = seen-Ahead t _ (looked-Since t s p)
  checked-Ahead t (some e) s p =
      revived-Ahead t (rebind_flow cdp s.world).0 _
        ((clock-Steady tab cdp codec secret root tick ticking t).rebound s.world p)

  alive-Ahead :
      (t : Time) (ended : Option Error) (s : Loop (Flow V))
      → Since t s
      → Ahead t (alive tab cdp codec secret root 61 ended s)
  alive-Ahead t (some e) s p = tt
  alive-Ahead t none s p =
      checked-Ahead t (tab.context_error s.world.session.ctx (world_of s.world)) s p

  round-Ahead :
      (s : Loop (Flow V))
      → Ahead
          (flow_now tab cdp codec secret root tick ticking s.world)
          (round tab cdp codec secret root 61 s)
  unfolding round
  round-Ahead s =
      alive-Ahead (flow_now tab cdp codec secret root tick ticking s.world)
        (tab.context_error root (world_of s.world)) s
        (ticking.renewals.order.stay (world_of s.world))

  -- Where the clock goes on, timers take their time, and a navigation that fails takes `tick` nanoseconds,
  -- a second at most, awaitAuthenticated returns whatever the page does: 61 rounds are enough for the
  -- loop of enrollTOTPRobust, and one more than the ticks that make up the 180 s are enough for its own.
  pub await_authenticated-Returns :
      (n : ℕ) (f : Flow V)
      → 180_000_000_000 ≤ n * tick
      → Returns (await_authenticated tab cdp codec secret root (suc n) 61 f)
  unfolding await_authenticated
  await_authenticated-Returns n f enough =
      until-Returns (loop_now tab cdp codec secret root)
        (flow_now tab cdp codec secret root tick ticking f +ℤ seconds 180)
        (round tab cdp codec secret root 61) (await_late tab cdp codec secret root) tick Always
        (λ s _ _. round-Ahead s) n _ tt
        (omega (
          arith,
          deadline_left (flow_now tab cdp codec secret root tick ticking f) 180_000_000_000,
          enough,
        ))
