-- ===== src/Browser/Await/Ticking.antt =====
-- What the loops need of time to return, and enrollTOTPRobust, which then does.
use pje_headless.Base.{
  ℕ, ◌≤◌, ◌≡◌, refl, Bool, true, false, Option, none, some, Text, Result, ok, err, Error,
  branch_cases, arith,
}
use pje_headless.Base.Int.{◌+ℤ◌}
use pje_headless.Clock.{Time}
use pje_headless.Browser.Session.{Chromedp}
use pje_headless.Browser.Polling.{Round, resume}
use pje_headless.Browser.Polling.Rules.{Passes, Advances, Returns, until-Returns}
use pje_headless.Browser.Flow.{
  Tab, Flow, seconds, world_of, in_world, sleep_ctx, waited, rebind_flow,
}
use pje_headless.Browser.Flow.Respect.{Keeps, KeepsQuiet, rebind_flow-R, observe-R}
use pje_headless.Browser.Flow.Steady.{Steady}
use pje_headless.Browser.Scripts.Ends.{NotBefore, Timers, Always, deadline_left, later-Passes}
use pje_headless.Browser.Enroll.Attempts.{
  Codec, maybe_enroll_totp, enroll_tried, enroll_late, enroll_totp_robust,
}
use pje_headless.Browser.Enroll.Respect.{maybe_enroll_totp-I}

-- The clock goes on, timers take their time, and a navigation that fails takes `tick` nanoseconds.
pub record Ticking {V : Type 0} (tab : Tab V) (cdp : Chromedp V) (tick : ℕ) : Type 0 where
  pub timers : Timers tab
  pub quiet : KeepsQuiet (NotBefore tab) tab
  pub renewals : Keeps (NotBefore tab) cdp
  pub events : (v : V) → NotBefore tab v (tab.events v).1
  pub submit_two_fa : (c : ℕ) (code : Text) (v : V) → NotBefore tab v (tab.submit_two_fa c code v).1
  pub click_cert : (c : ℕ) (v : V) → NotBefore tab v (tab.click_cert c v).1
  pub submit_enrollment :
      (c : ℕ) (code label : Text) (v : V) → NotBefore tab v (tab.submit_enrollment c code label v).1
  pub fails :
      (c : ℕ) (url : Text) (v : V) (e : Error)
      → (tab.navigate c url v).0 ≡ err e
      → Passes tick (tab.now v) (tab.now (tab.navigate c url v).1)
  pub short : tick ≤ 1_000_000_000

pub shorter : (m n : ℕ) (t u : Time) → m ≤ n → Passes n t u → Passes m t u
shorter m n t u l p = omega arith

module _ {V : Type 0} (tab : Tab V) (cdp : Chromedp V) (codec : Codec) (secret : Text)
    (root tick : ℕ) (ticking : Ticking tab cdp tick) where
  abbrev pub flow_now : Flow V → Time
  flow_now f = tab.now (world_of f)

  -- Since the time `t`.
  pub clock-Steady :
      (t : Time) → Steady (NotBefore tab) (λ (f : Flow V). Passes 0 t (flow_now f)) tab cdp
  clock-Steady t = record {
    order = ticking.renewals.order;
    quiet = ticking.quiet;
    submit_two_fa = ticking.submit_two_fa;
    click_cert = ticking.click_cert;
    submit_enrollment = ticking.submit_enrollment;
    step = λ f v p q. later-Passes 0 t (flow_now f) (tab.now v) q p;
    noted = λ f q. q;
    observed = λ f q.
        later-Passes 0 t (flow_now f) _ q
          (observe-R (NotBefore tab) tab f (ticking.events (world_of f)));
    rebound = λ f q.
        later-Passes 0 t (flow_now f) _ q (rebind_flow-R (NotBefore tab) cdp ticking.renewals f);
  }

  -- enrollTOTPRobust
  enroll_slept :
      (t : Time) (o : Option Error) (f : Flow V) (w : V)
      → (o ≡ none → Passes 1_000_000_000 t (tab.now w))
      → Advances {A = Bool} flow_now 1_000_000_000 Always t
          (some (resume (in_world (λ _. waited (o, w)) f)))
  enroll_slept t none f w h = (tt, h refl)
  enroll_slept t (some e) f w h = tt

  enroll_tried-Advances :
      (t : Time) (r : Result Bool) (f : Flow V)
      → Passes 0 t (flow_now f)
      → Advances flow_now 1_000_000_000 Always t (some (enroll_tried tab cdp codec root (r, f)))
  unfolding sleep_ctx
  enroll_tried-Advances t (err e) f p = tt
  enroll_tried-Advances t (ok true) f p = tt
  enroll_tried-Advances t (ok false) f p =
      let r = rebind_flow cdp f in
      let v = world_of r.1 in
      branch_cases (λ (x : Round Bool × Flow V). Advances flow_now 1_000_000_000 Always t (some x))
        r _ _
        (λ _ _. enroll_slept t (tab.wait root (seconds 1) v).0 r.1 _ (λ fired.
          later-Passes 1_000_000_000 t (tab.now v) _ ((clock-Steady t).rebound f p)
            (ticking.timers.fires root 1_000_000_000 v fired)))
        (λ _ _. tt)

  -- 61 rounds are enough for the window of 60 s.
  pub enroll_totp_robust-Returns :
      (cur : Text) (f : Flow V) → Returns (enroll_totp_robust tab cdp codec 61 root cur f)
  unfolding enroll_totp_robust
  enroll_totp_robust-Returns cur f =
      until-Returns flow_now (flow_now f +ℤ seconds 60)
        (λ g. some (enroll_tried tab cdp codec root (maybe_enroll_totp tab cdp codec cur g)))
        (enroll_late tab cdp codec) 1_000_000_000 Always
        (λ g _ _. enroll_tried-Advances (flow_now g) (maybe_enroll_totp tab cdp codec cur g).0 _ (
          maybe_enroll_totp-I (NotBefore tab) _ tab cdp (clock-Steady (flow_now g)) codec cur g
            (ticking.renewals.order.stay (world_of g))))
        60 f tt (deadline_left (flow_now f) 60_000_000_000)
