-- ===== src/Browser/Login/Keeping.antt =====
-- What captureBearer and the rest of Login keep of the flow, and what a success of captureBearer says.
use pje_headless.Base.{
  ℕ, ◌≡◌, refl, Option, none, some, Text, Result, ok, err, branch_cases, if_cases,
}
use pje_headless.Browser.Capture.{bearer}
use pje_headless.Browser.Session.{Chromedp, is_invalid_context}
use pje_headless.Browser.Polling.{Round, resume}
use pje_headless.Browser.Polling.Rules as Rules
use pje_headless.Browser.Polling.Rules.{Ensures, until-Ensures}
use pje_headless.Browser.Prompts.{Loop}
use pje_headless.Browser.Flow.{Tab, Flow, milliseconds, world_of, observe, sleep_ctx, rebind_flow}
use pje_headless.Browser.Flow.Respect.{sleep_ctx-R}
use pje_headless.Browser.Flow.Steady.{Steady}
use pje_headless.Browser.Scripts.{consulta_url, login_url}
use pje_headless.Browser.Scripts.Keeping.{
  and_then-Ensures, wait_autenticar_ready-R, wait_consulta_form-R, click_cert_link-R, fire_search-R,
}
use pje_headless.Browser.Login.{
  Fuel, placed, on_flow, open_consulta, polled, poll_bearer, reopened, retried, opened,
  capture_bearer, first_run, Launch, deferred, authenticated, navigated,
}
use pje_headless.Browser.Chrome.{Browser}
use pje_headless.Browser.Enroll.Attempts.{Codec}
use pje_headless.Browser.Await.Left as Await
use pje_headless.Browser.Await.Left.{await_authenticated-Kept}

-- Of a success.
abbrev pub Captured : {V : Type 0} → Result Text → Flow V → Type 0
Captured (ok tok) f = bearer f.capture ≡ some tok
Captured (err e) f = Unit {0}

-- What holds after a deferred call.
pub deferred-Ensures :
    {V A : Type 0} (Q P : Result A → V → Type 0) (cleanup : V → V)
    → ((r : Result A) (v : V) → Q r v → P r (cleanup v))
    → (o : Option (Result A × V)) → Ensures Q o
    → Ensures P (deferred cleanup o)
deferred-Ensures Q P cleanup on none h = tt
deferred-Ensures Q P cleanup on (some (r, v)) h = on r v h

module _ {V : Type 0} (R : V → V → Type 0) (I : Flow V → Type 0) (tab : Tab V) (cdp : Chromedp V)
    (k : Steady R I tab cdp) (fuel : Fuel) (root : ℕ) where
  open_consulta-R : (ctx : ℕ) (v : V) → Ensures (λ _. R v) (open_consulta tab cdp fuel root ctx v)
  unfolding open_consulta
  open_consulta-R ctx v =
      and_then-Ensures (R v) (some (tab.start ctx v)) _ (k.quiet.start ctx v) (λ w h.
        and_then-Ensures (R v) (some (tab.goto ctx consulta_url w)) _
          (k.order.trans h (k.quiet.goto ctx consulta_url w))
          (λ x i.
            and_then-Ensures (R v) _ _
              (wait_consulta_form-R R k.order tab k.quiet ctx v fuel.consulta x i)
              (λ y j. fire_search-R R k.order tab k.quiet ctx v y j)))

  first_run-R : (ctx : ℕ) (v : V) → Ensures (λ _. R v) (first_run tab cdp fuel root ctx v)
  unfolding first_run
  first_run-R ctx v =
      and_then-Ensures (R v) (some (tab.start ctx v)) _ (k.quiet.start ctx v) (λ w h.
        and_then-Ensures (R v) (some (tab.enable ctx w)) _ (k.order.trans h (k.quiet.enable ctx w))
          (λ x i.
            and_then-Ensures (R v) (some (tab.goto ctx login_url x)) _
              (k.order.trans i (k.quiet.goto ctx login_url x))
              (λ y j.
                and_then-Ensures (R v) _ _
                  (wait_autenticar_ready-R R k.order tab k.quiet ctx v fuel.autenticar y j)
                  (λ z l. click_cert_link-R R k.order tab k.quiet ctx v z l))))

  -- An action of the world, on the flow.
  placed-I :
      (f : Flow V) (o : Option (Result (Unit {0}) × V))
      → I f
      → Ensures (λ _. R (world_of f)) o
      → Ensures (λ _. I) (placed f o)
  placed-I f none i h = tt
  placed-I f (some (r, v)) i h = k.step f v h i

  abbrev pub Kept : Result Text → Flow V → Type 0
  Kept r f = I f × Captured r f

  abbrev Onward : Option (Round Text × Flow V) → Type 0
  Onward o = Rules.Keeps I Kept o

  resumed-Kept : (r : Result (Unit {0})) (f : Flow V) → I f → Onward (some (resume (r, f)))
  resumed-Kept (ok _) f i = i
  resumed-Kept (err e) f i = (i, tt)

  polled-Kept :
      (o : Option Text) (f : Flow V)
      → bearer f.capture ≡ o
      → I f
      → Onward (some (polled tab cdp fuel root o f))
  polled-Kept (some tok) f e i = (i, e)
  polled-Kept none f e i =
      let slept = sleep_ctx tab root (milliseconds 250) (world_of f) in
      resumed-Kept slept.0 _
        (k.step f slept.1 (sleep_ctx-R R tab k.quiet root (milliseconds 250) (world_of f)) i)

  poll_bearer-Kept : (f : Flow V) → I f → Ensures Kept (poll_bearer tab cdp fuel root f)
  unfolding poll_bearer
  poll_bearer-Kept f i =
      until-Ensures _ _ _ _ I Kept
        (λ g j. polled-Kept (bearer (observe tab g).capture) (observe tab g) refl (k.observed g j))
        (λ g j. (j, tt)) fuel.poll f i

  reopened-Kept :
      (o : Option (Result (Unit {0}) × Flow V))
      → Ensures (λ _. I) o
      → Ensures Kept (reopened tab cdp fuel root o)
  reopened-Kept none h = tt
  reopened-Kept (some (ok _, f)) h = poll_bearer-Kept f h
  reopened-Kept (some (err e, f)) h = (h, tt)

  retried-Kept : (f : Flow V) → I f → Ensures Kept (retried tab cdp fuel root f)
  retried-Kept f i =
      let r = rebind_flow cdp f in
      let after = k.rebound f i in
      branch_cases (Ensures Kept) r _ _
        (λ _ _.
          reopened-Kept _ (placed-I r.1 _ after (open_consulta-R r.1.session.ctx (world_of r.1))))
        (λ _ _. (after, tt))

  opened-Kept :
      (o : Option (Result (Unit {0}) × Flow V))
      → Ensures (λ _. I) o
      → Ensures Kept (opened tab cdp fuel root o)
  opened-Kept none h = tt
  opened-Kept (some (ok _, f)) h = poll_bearer-Kept f h
  opened-Kept (some (err e, f)) h =
      if_cases (Ensures Kept) (is_invalid_context cdp.invalid_context e) _ _ (λ _. retried-Kept f h)
        (λ _. (h, tt))

  capture_bearer-Kept : (f : Flow V) → I f → Ensures Kept (capture_bearer tab cdp fuel root f)
  unfolding capture_bearer
  capture_bearer-Kept f i =
      opened-Kept _ (placed-I f _ i (open_consulta-R f.session.ctx (world_of f)))

  -- The part of Login from the initial chromedp.Run to captureBearer, on the session's flow.
  module _ {Signer : Type 0} (launch : Launch Signer V) (codec : Codec) (b : Browser Signer) where
    authenticated-Kept :
        (o : Option (Result (Unit {0}) × Loop (Flow V)))
        → Ensures (λ _ s. I s.world) o
        → Ensures Kept (authenticated launch tab cdp codec fuel b root o)
    authenticated-Kept none h = tt
    authenticated-Kept (some (err e, s)) h = (h, tt)
    authenticated-Kept (some (ok _, s)) h = capture_bearer-Kept s.world h

    navigated-Kept :
        (o : Option (Result (Unit {0}) × Flow V))
        → Ensures (λ _. I) o
        → Ensures Kept (navigated launch tab cdp codec fuel b root o)
    navigated-Kept none h = tt
    navigated-Kept (some (err e, f)) h = (h, tt)
    navigated-Kept (some (ok _, f)) h = authenticated-Kept _ (
        worlds _ (
          await_authenticated-Kept R I tab cdp k codec b.cfg.totp_secret root fuel.await fuel.enroll
            f h))
      where
        worlds :
            (o : Option (Result (Unit {0}) × Loop (Flow V)))
            → Ensures (Await.Kept R I tab cdp k codec b.cfg.totp_secret root) o
            → Ensures (λ _ s. I s.world) o
        worlds none h = tt
        worlds (some x) h = h.0

    pub driven-Kept :
        (f : Flow V)
        → I f
        → Ensures Kept (
            navigated launch tab cdp codec fuel b root
              (on_flow (first_run tab cdp fuel root root) f))
    driven-Kept f i = navigated-Kept _ (placed-I f _ i (first_run-R root (world_of f)))
