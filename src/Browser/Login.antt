-- ===== src/Browser/Login.antt =====
-- captureBearer, startPJeOffice and Login of browser.go. A loop gives nothing where its fuel runs out; a
-- deferred call runs after the code it follows, whatever that returns.
pub mod Keeping
pub mod Beside
pub mod Origin
pub mod Scripted
pub mod Resources
pub mod Released
pub mod Ends
use pje_headless.Base.{
  ℕ, Bool, true, false, if◌then◌else◌, Option, none, some, List, [], Text, codes, Result, ok, err,
  Error, Act, branch,
}
use pje_headless.Base.Int.{◌+ℤ◌}
use pje_headless.Clock.{Time, Duration}
use pje_headless.Net.{Net}
use pje_headless.PjeOffice.Start.{Server, new_server}
use pje_headless.Browser.Capture.{new_bearer_capture, bearer}
use pje_headless.Browser.Session.{Chromedp, Session, new_session, close, is_invalid_context}
use pje_headless.Browser.Prompts.{Loop}
use pje_headless.Browser.Polling.{Round, done, again, resume, until}
use pje_headless.Browser.Flow.{
  Tab, Flow, seconds, milliseconds, world_of, with_world, in_world, observe, sleep_ctx, rebind_flow,
}
use pje_headless.Browser.Scripts.{
  login_url, consulta_url, wait_autenticar_ready, click_cert_link, wait_consulta_form, fire_search,
  and_then,
}
use pje_headless.Browser.Enroll.Attempts.{Codec}
use pje_headless.Browser.Await.{await_authenticated}
use pje_headless.Browser.Chrome.{
  AllocatorOption, ContextOption, Browser, allocator_options, context_options,
}

-- How much fuel each loop gets.
pub record Fuel : Type 0 where
  pub autenticar : ℕ
  pub await : ℕ
  pub enroll : ℕ
  pub consulta : ℕ
  pub poll : ℕ

-- Actions that may run out of fuel.
abbrev pub Run : Type 0 → Type 0 → Type 0
Run V A = V → Option (Result A × V)

abbrev pub placed : {V A : Type 0} → Flow V → Option (Result A × V) → Option (Result A × Flow V)
placed f none = none
placed f (some (r, v)) = some (r, with_world f v)

abbrev pub on_flow : {V A : Type 0} → Run V A → Run (Flow V) A
on_flow op f = placed f (op (world_of f))

module _ {V : Type 0} (tab : Tab V) (cdp : Chromedp V) (fuel : Fuel) (root : ℕ) where
  -- The chromedp.Run of captureBearer.
  unfoldable pub open_consulta : ℕ → Run V (Unit {0})
  unfolding wait_consulta_form fire_search
  open_consulta ctx v = and_then (some (tab.start ctx v)) (λ w.
      and_then (some (tab.goto ctx consulta_url w)) (λ x.
        and_then (wait_consulta_form tab ctx fuel.consulta x) (λ y. some (fire_search tab ctx y))))

  -- A round of the last loop, after capture.bearer.
  abbrev pub polled : Option Text → Flow V → Round Text × Flow V
  polled (some tok) f = (done (ok tok), f)
  polled none f = resume (in_world (sleep_ctx tab root (milliseconds 250)) f)

  abbrev pub poll_round : Flow V → Option (Round Text × Flow V)
  poll_round f = let g = observe tab f in some (polled (bearer g.capture) g)

  abbrev pub poll_late : Error
  poll_late =
      Error.msg "browser: API call intercepted without an Authorization header (no bearer captured)"

  unfoldable pub poll_bearer : Run (Flow V) Text
  unfolding observe sleep_ctx until
  poll_bearer f =
      until fuel.poll (λ (g : Flow V). tab.now (world_of g)) (tab.now (world_of f) +ℤ seconds 60)
        poll_round poll_late f

  -- After the second chromedp.Run.
  abbrev pub reopened : Option (Result (Unit {0}) × Flow V) → Option (Result Text × Flow V)
  reopened none = none
  reopened (some (ok _, f)) = poll_bearer f
  reopened (some (err e, f)) =
      some (err (Error.wrap "browser: open consulta and search after rebind" e), f)

  abbrev pub retried : Run (Flow V) Text
  retried f =
      branch (rebind_flow cdp f) (λ _ g. reopened (on_flow (open_consulta g.session.ctx) g))
        (λ e g. some (err e, g))

  -- After the first chromedp.Run.
  abbrev pub opened : Option (Result (Unit {0}) × Flow V) → Option (Result Text × Flow V)
  opened none = none
  opened (some (ok _, f)) = poll_bearer f
  opened (some (err e, f)) =
      let left : Option (Result Text × Flow V) =
        some (err (Error.wrap "browser: open consulta and search" e), f) in
      let once_more = retried f in
      if is_invalid_context cdp.invalid_context e then once_more else left

  unfoldable pub capture_bearer : Run (Flow V) Text
  unfolding open_consulta poll_bearer rebind_flow
  capture_bearer f = opened (on_flow (open_consulta f.session.ctx) f)

  -- The initial chromedp.Run of Login.
  unfoldable pub first_run : ℕ → Run V (Unit {0})
  unfolding wait_autenticar_ready click_cert_link
  first_run ctx v = and_then (some (tab.start ctx v)) (λ w. and_then (some (tab.enable ctx w)) (λ x.
      and_then (some (tab.goto ctx login_url x)) (λ y.
        and_then (wait_autenticar_ready tab ctx fuel.autenticar y)
          (λ z. some (click_cert_link tab ctx z)))))

-- What Login sets up besides, over the world. The goroutine that serves goes on beside the login; the
-- requests it answers are events of the world.
pub record Launch (Signer V : Type 0) : Type 0 where
  pub net : Net V
  pub serve : Server Signer → ℕ → V → V
  pub with_timeout : ℕ → Duration → V → ℕ × V
  pub new_exec_allocator : ℕ → List AllocatorOption → V → ℕ × V
  pub new_context : ℕ → List ContextOption → V → ℕ × V
  pub cancel_timeout : ℕ → V → V
  pub cancel_allocator : ℕ → V → V
  pub cancel_task : ℕ → V → V

-- A deferred call.
abbrev pub deferred : {V A : Type 0} → (V → V) → Option (Result A × V) → Option (Result A × V)
deferred cleanup none = none
deferred cleanup (some (r, v)) = some (r, cleanup v)

module _ {Signer V : Type 0} (launch : Launch Signer V) (tab : Tab V) (cdp : Chromedp V)
    (codec : Codec) (fuel : Fuel) (b : Browser Signer) where
  -- The listener, whose Close is the function that startPJeOffice returns.
  unfoldable pub start_pje_office : Signer → Act V ℕ
  unfolding new_server
  start_pje_office signer v =
      let server = new_server signer b.cfg.pje_office_port b.cfg.pje_office_bind_addr in
      branch
        (launch.net.listen (codes "tcp")
          (launch.net.join_host_port b.cfg.pje_office_bind_addr b.cfg.pje_office_port) v)
        (λ listener w. (ok listener, launch.serve server listener w))
        (λ e w. (err (Error.wrap "listen" e), w))

  abbrev pub authenticated :
      ℕ → Option (Result (Unit {0}) × Loop (Flow V)) → Option (Result Text × Flow V)
  authenticated task none = none
  authenticated task (some (err e, s)) = some (err e, s.world)
  authenticated task (some (ok _, s)) = capture_bearer tab cdp fuel task s.world

  abbrev pub navigated : ℕ → Option (Result (Unit {0}) × Flow V) → Option (Result Text × Flow V)
  navigated task none = none
  navigated task (some (err e, f)) =
      some (err (Error.wrap "browser: initial login navigation" e), f)
  navigated task (some (ok _, f)) =
      authenticated task
        (await_authenticated tab cdp codec b.cfg.totp_secret task fuel.await fuel.enroll f)

  -- The session, on the world after attachNetworkListener.
  abbrev pub new_flow : ℕ → V → Flow V
  new_flow task v = record {
    session = new_session task true v;
    last_url = [];
    capture = new_bearer_capture;
    totp_enrolled = false;
  }

  -- sess.close
  abbrev pub closed : Option (Result Text × Flow V) → Option (Result Text × V)
  closed none = none
  closed (some (r, f)) = some (r, (close cdp f.session).world)

  abbrev pub in_task : ℕ → Run V Text
  in_task task v =
      let f = new_flow task (cdp.attach_bearer_listener task v) in
      closed (
        navigated task (
          on_flow (first_run tab cdp fuel task task)
            (with_world f (cdp.attach_frame_listener task (world_of f)))))

  abbrev pub in_allocator : ℕ → Run V Text
  in_allocator alloc v =
      let (task, w) = launch.new_context alloc (context_options b) v in
      deferred (launch.cancel_task task) (in_task task w)

  abbrev pub serving : ℕ → Result ℕ × V → Option (Result Text × V)
  serving ctx (err e, v) = some (err (Error.wrap "browser: start pjeoffice server" e), v)
  serving ctx (ok listener, v) =
      let (alloc, w) = launch.new_exec_allocator ctx (allocator_options b) v in
      deferred (launch.net.close listener)
        (deferred (launch.cancel_allocator alloc) (in_allocator alloc w))

  abbrev pub signing : Signer → ℕ → Run V Text
  signing signer parent v =
      let (ctx, w) = launch.with_timeout parent b.cfg.login_timeout v in
      deferred (launch.cancel_timeout ctx) (serving ctx (start_pje_office signer w))

  abbrev pub signing_with : Option Signer → ℕ → Run V Text
  signing_with none parent v = some (err (Error.msg "browser: nil signer"), v)
  signing_with (some signer) parent v = signing signer parent v

  unfoldable pub login : ℕ → Run V Text
  unfolding start_pje_office allocator_options context_options first_run capture_bearer
      await_authenticated close
  login parent v = signing_with b.signer parent v
