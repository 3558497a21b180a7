-- ===== src/Browser/Login/Ends.antt =====
-- captureBearer and Login return.
use pje_headless.Base.{
  ℕ, suc, ◌*◌, ◌≤◌, ◌≡◌, refl, Option, none, some, Text, Result, ok, err, Error, branch_cases,
  if_cases, arith,
}
use pje_headless.Base.Int.{◌+ℤ◌}
use pje_headless.Clock.{Time}
use pje_headless.Browser.Capture.{bearer}
use pje_headless.Browser.Session.{Chromedp, is_invalid_context}
use pje_headless.Browser.Prompts.{Loop}
use pje_headless.Browser.Polling.{resume}
use pje_headless.Browser.Polling.Rules.{Passes, Advances, Returns, until-Returns}
use pje_headless.Browser.Flow.{
  Tab, Flow, seconds, milliseconds, world_of, with_world, in_world, observe, sleep_ctx, waited,
  rebind_flow,
}
use pje_headless.Browser.Flow.Respect.{observe-R}
use pje_headless.Browser.Scripts.{consulta_url, login_url, and_then}
use pje_headless.Browser.Scripts.Ends.{
  NotBefore, Always, deadline_left, later-Passes, wait_autenticar_ready-Returns,
  wait_consulta_form-Returns,
}
use pje_headless.Browser.Enroll.Attempts.{Codec}
use pje_headless.Browser.Await.Ticking.{Ticking}
use pje_headless.Browser.Await.Ends.{await_authenticated-Returns}
use pje_headless.Browser.Chrome.{Browser}
use pje_headless.Browser.Login.{
  Fuel, placed, open_consulta, polled, poll_round, poll_late, poll_bearer, reopened, retried,
  opened, capture_bearer, first_run, Launch, deferred, authenticated, navigated, new_flow, closed,
  in_task, serving, signing_with, start_pje_office, login,
}

and_then-Returns :
    {V : Type 0} (o : Option (Result (Unit {0}) × V)) (next : V → Option (Result (Unit {0}) × V))
    → Returns o
    → ((v : V) → Returns (next v))
    → Returns (and_then o next)
and_then-Returns none next h on = ground (arith, h.2)
and_then-Returns (some (ok _, v)) next h on = on v
and_then-Returns (some (err e, v)) next h on = (err e, v, refl)

placed-Returns :
    {V A : Type 0} (f : Flow V) (o : Option (Result A × V)) → Returns o → Returns (placed f o)
placed-Returns f none h = ground (arith, h.2)
placed-Returns f (some (r, v)) h = (r, with_world f v, refl)

pub deferred-Returns :
    {V A : Type 0} (cleanup : V → V) (o : Option (Result A × V))
    → Returns o
    → Returns (deferred cleanup o)
deferred-Returns cleanup none h = ground (arith, h.2)
deferred-Returns cleanup (some (r, v)) h = (r, cleanup v, refl)

-- Fuel for the 60 s and the 30 s that the page scripts wait for, every 500 ms; for the 60 s of
-- enrollTOTPRobust, every second; and for the 60 s of captureBearer, every 250 ms.
abbrev pub enough_fuel : ℕ → Fuel
enough_fuel n = record { autenticar = 121; await = suc n; enroll = 61; consulta = 61; poll = 241 }

module _ {V : Type 0} (tab : Tab V) (cdp : Chromedp V) (tick : ℕ) (ticking : Ticking tab cdp tick)
    (n root : ℕ) where
  abbrev fuel : Fuel
  fuel = enough_fuel n

  open_consulta-Returns : (ctx : ℕ) (v : V) → Returns (open_consulta tab cdp fuel root ctx v)
  unfolding open_consulta
  open_consulta-Returns ctx v =
      and_then-Returns (some (tab.start ctx v)) _ (_, _, refl)
        (λ w.
          and_then-Returns (some (tab.goto ctx consulta_url w)) _ (_, _, refl)
            (λ x.
              and_then-Returns _ _
                (wait_consulta_form-Returns tab ticking.timers ticking.quiet ctx x)
                (λ y. (_, _, refl))))

  first_run-Returns : (ctx : ℕ) (v : V) → Returns (first_run tab cdp fuel root ctx v)
  unfolding first_run
  first_run-Returns ctx v =
      and_then-Returns (some (tab.start ctx v)) _ (_, _, refl)
        (λ w.
          and_then-Returns (some (tab.enable ctx w)) _ (_, _, refl)
            (λ x.
              and_then-Returns (some (tab.goto ctx login_url x)) _ (_, _, refl)
                (λ y.
                  and_then-Returns _ _
                    (wait_autenticar_ready-Returns tab ticking.timers ticking.quiet ctx y)
                    (λ z. (_, _, refl)))))

  abbrev flow_now : Flow V → Time
  flow_now f = tab.now (world_of f)

  slept-Advances :
      (t : Time) (o : Option Error) (f : Flow V) (w : V)
      → (o ≡ none → Passes 250_000_000 t (tab.now w))
      → Advances {A = Text} flow_now 250_000_000 Always t
          (some (resume (in_world (λ _. waited (o, w)) f)))
  slept-Advances t none f w h = (tt, h refl)
  slept-Advances t (some e) f w h = tt

  polled-Advances :
      (t : Time) (o : Option Text) (f : Flow V)
      → Passes 0 t (flow_now f)
      → Advances flow_now 250_000_000 Always t (some (polled tab cdp fuel root o f))
  unfolding sleep_ctx
  polled-Advances t (some tok) f p = tt
  polled-Advances t none f p =
      let v = world_of f in
      slept-Advances t (tab.wait root (milliseconds 250) v).0 f _ (λ fired.
        later-Passes 250_000_000 t (tab.now v) _ p (ticking.timers.fires root 250_000_000 v fired))

  poll_bearer-Returns : (f : Flow V) → Returns (poll_bearer tab cdp fuel root f)
  unfolding poll_bearer
  poll_bearer-Returns f =
      until-Returns flow_now (flow_now f +ℤ seconds 60) (poll_round tab cdp fuel root)
        (poll_late tab cdp fuel root) 250_000_000 Always
        (λ g _ _.
          polled-Advances (flow_now g) (bearer (observe tab g).capture) (observe tab g)
            (observe-R (NotBefore tab) tab g (ticking.events (world_of g))))
        240 f tt (deadline_left (flow_now f) 60_000_000_000)

  reopened-Returns :
      (o : Option (Result (Unit {0}) × Flow V)) → Returns o → Returns (reopened tab cdp fuel root o)
  reopened-Returns none h = ground (arith, h.2)
  reopened-Returns (some (ok _, f)) h = poll_bearer-Returns f
  reopened-Returns (some (err e, f)) h = (_, _, refl)

  retried-Returns : (f : Flow V) → Returns (retried tab cdp fuel root f)
  retried-Returns f =
      let r = rebind_flow cdp f in
      branch_cases Returns r _ _
        (λ _ _.
          reopened-Returns _
            (placed-Returns r.1 _ (open_consulta-Returns r.1.session.ctx (world_of r.1))))
        (λ e _. (err e, r.1, refl))

  opened-Returns :
      (o : Option (Result (Unit {0}) × Flow V)) → Returns o → Returns (opened tab cdp fuel root o)
  opened-Returns none h = ground (arith, h.2)
  opened-Returns (some (ok _, f)) h = poll_bearer-Returns f
  opened-Returns (some (err e, f)) h =
      if_cases Returns (is_invalid_context cdp.invalid_context e) _ _ (λ _. retried-Returns f)
        (λ _. (_, f, refl))

  capture_bearer-Returns : (f : Flow V) → Returns (capture_bearer tab cdp fuel root f)
  unfolding capture_bearer
  capture_bearer-Returns f =
      opened-Returns _ (placed-Returns f _ (open_consulta-Returns f.session.ctx (world_of f)))

module _ {Signer V : Type 0} (launch : Launch Signer V) (tab : Tab V) (cdp : Chromedp V)
    (codec : Codec) (b : Browser Signer) (tick : ℕ) (ticking : Ticking tab cdp tick) (n : ℕ)
    (enough : 180_000_000_000 ≤ n * tick) where
  authenticated-Returns :
      (task : ℕ) (o : Option (Result (Unit {0}) × Loop (Flow V)))
      → Returns o
      → Returns (authenticated launch tab cdp codec (enough_fuel n) b task o)
  authenticated-Returns task none h = ground (arith, h.2)
  authenticated-Returns task (some (err e, s)) h = (_, _, refl)
  authenticated-Returns task (some (ok _, s)) h =
      capture_bearer-Returns tab cdp tick ticking n task s.world

  navigated-Returns :
      (task : ℕ) (o : Option (Result (Unit {0}) × Flow V))
      → Returns o
      → Returns (navigated launch tab cdp codec (enough_fuel n) b task o)
  navigated-Returns task none h = ground (arith, h.2)
  navigated-Returns task (some (err e, f)) h = (_, _, refl)
  navigated-Returns task (some (ok _, f)) h =
      authenticated-Returns task _
        (await_authenticated-Returns tab cdp codec b.cfg.totp_secret task tick ticking n f enough)

  closed-Returns :
      (o : Option (Result Text × Flow V))
      → Returns o
      → Returns (closed launch tab cdp codec (enough_fuel n) b o)
  closed-Returns none h = ground (arith, h.2)
  closed-Returns (some (r, f)) h = (_, _, refl)

  in_task-Returns :
      (task : ℕ) (v : V) → Returns (in_task launch tab cdp codec (enough_fuel n) b task v)
  in_task-Returns task v = closed-Returns _ (
      navigated-Returns task _ (
        placed-Returns
          (new_flow launch tab cdp codec (enough_fuel n) b task
            (cdp.attach_frame_listener task (cdp.attach_bearer_listener task v)))
          _
          (first_run-Returns tab cdp tick ticking n task task
            (cdp.attach_frame_listener task (cdp.attach_bearer_listener task v)))))

  serving-Returns :
      (ctx : ℕ) (o : Result ℕ × V) → Returns (serving launch tab cdp codec (enough_fuel n) b ctx o)
  serving-Returns ctx (err e, v) = (_, _, refl)
  serving-Returns ctx (ok listener, v) =
      deferred-Returns _ _ (deferred-Returns _ _ (deferred-Returns _ _ (in_task-Returns _ _)))

  signing-Returns :
      (s : Option Signer) (parent : ℕ) (v : V)
      → Returns (signing_with launch tab cdp codec (enough_fuel n) b s parent v)
  signing-Returns none parent v = (_, _, refl)
  signing-Returns (some signer) parent v =
      deferred-Returns _ _
        (serving-Returns _ (start_pje_office launch tab cdp codec (enough_fuel n) b signer _))

  -- Where the clock goes on, timers take their time, and a navigation that fails takes `tick` nanoseconds,
  -- a second at most, Login returns whatever the network and the page do: the rounds of each loop that fit
  -- before its deadline, and one more, are enough fuel.
  pub login-Returns :
      (parent : ℕ) (v : V) → Returns (login launch tab cdp codec (enough_fuel n) b parent v)
  unfolding login
  login-Returns parent v = signing-Returns b.signer parent v
