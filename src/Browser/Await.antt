-- ===== src/Browser/Await.antt =====
-- awaitAuthenticated of browser.go: a round of its polling loop, with the variables of `Loop` around the
-- Flow. The logging of URLs is left out.
pub mod Tallying
pub mod Bounds
pub mod Ticking
pub mod Ends
pub mod Left
use pje_headless.Base.{
  ℕ, Bool, true, false, if◌then◌else◌, Option, none, some, Text, Result, ok, err, Error, branch,
}
use pje_headless.Base.Int.{◌+ℤ◌}
use pje_headless.Clock.{Time}
use pje_headless.Browser.Url.{is_authenticated_url, is_gov_br_url, should_attempt_totp_enroll}
use pje_headless.Browser.Session.{Chromedp, is_invalid_context}
use pje_headless.Browser.Prompts.{Loop, maybe_handle_two_fa, maybe_retry_cert}
use pje_headless.Browser.Polling.{Round, done, again, resume, until}
use pje_headless.Browser.Flow.{
  Tab, Flow, seconds, world_of, in_world, observe, sleep_ctx, rebind_flow, page_at,
}
use pje_headless.Browser.Scripts.{login_url}
use pje_headless.Browser.Enroll.Attempts.{Codec, enroll_totp_robust}

module _ {V : Type 0} (tab : Tab V) (cdp : Chromedp V) (codec : Codec) (secret : Text)
    (root : ℕ) where
  -- A step of the flow within the loop.
  abbrev pub in_flow :
      {A : Type 0} → (Flow V → Result A × Flow V) → Loop (Flow V) → Result A × Loop (Flow V)
  in_flow op s = let (r, f) = op s.world in (r, record s { world = f })

  -- sleepCtx on the root context, at the end of a round.
  abbrev pub nap : ℕ → Loop (Flow V) → Round (Unit {0}) × Loop (Flow V)
  nap n s = resume (in_flow (in_world (sleep_ctx tab root (seconds n))) s)

  abbrev pub after_cert : Result Bool × Loop (Flow V) → Round (Unit {0}) × Loop (Flow V)
  after_cert (err e, s) = (done (err e), s)
  after_cert (ok true, s) = nap 5 s
  after_cert (ok false, s) = nap 1 s

  -- `ctx` is the context that the round began with.
  abbrev pub after_two_fa : ℕ → Result Bool × Loop (Flow V) → Round (Unit {0}) × Loop (Flow V)
  after_two_fa ctx (err e, s) = (done (err e), s)
  after_two_fa ctx (ok true, s) = nap 5 s
  after_two_fa ctx (ok false, s) =
      after_cert (maybe_retry_cert (page_at tab cdp ctx) codec.decode codec.hmac secret s)

  abbrev pub prompts : ℕ → Text → Loop (Flow V) → Round (Unit {0}) × Loop (Flow V)
  prompts ctx cur s =
      after_two_fa ctx
        (maybe_handle_two_fa (page_at tab cdp ctx) codec.decode codec.hmac secret cur s)

  abbrev pub after_enroll :
      ℕ
      → Text
      → Loop (Flow V)
      → Option (Result Bool × Flow V)
      → Option (Round (Unit {0}) × Loop (Flow V))
  after_enroll ctx cur s none = none
  after_enroll ctx cur s (some (err e, f)) = some (done (err e), record s { world = f })
  after_enroll ctx cur s (some (ok true, f)) = some (nap 5 (record s { world = f }))
  after_enroll ctx cur s (some (ok false, f)) = some (prompts ctx cur (record s { world = f }))

  -- The login starts over, after gov.br.
  abbrev pub restart : ℕ → Loop (Flow V) → Round (Unit {0}) × Loop (Flow V)
  restart ctx s =
      branch (in_flow (in_world (tab.navigate ctx login_url)) s) (λ _ t. nap 3 t)
        (λ e t. (
          if is_invalid_context cdp.invalid_context e
              then again
              else done (err (Error.wrap "browser: restart login after gov.br" e)),
          t,
        ))

  -- A round from the reading of the URL on.
  abbrev pub seen : ℕ → Loop (Flow V) → Option (Round (Unit {0}) × Loop (Flow V))
  seen fuel s =
      let ctx = s.world.session.ctx in
      let cur = s.world.last_url in
      let enrolled =
        after_enroll ctx cur s (enroll_totp_robust tab cdp codec fuel root cur s.world) in
      if is_authenticated_url cur
      then some (done (ok tt), s)
      else if is_gov_br_url cur
      then some (restart ctx s)
      else if should_attempt_totp_enroll cur s.world.totp_enrolled
      then enrolled
      else some (prompts ctx cur s)

  abbrev pub looked : Loop (Flow V) → Loop (Flow V)
  looked s = record s { world = observe tab s.world }

  abbrev pub revived : ℕ → Result Bool × Loop (Flow V) → Option (Round (Unit {0}) × Loop (Flow V))
  revived fuel (err e, s) = some (done (err e), s)
  revived fuel (ok b, s) = seen fuel (looked s)

  -- The renewal of the context, where the active one has ended.
  abbrev pub checked : ℕ → Option Error → Loop (Flow V) → Option (Round (Unit {0}) × Loop (Flow V))
  checked fuel none s = seen fuel (looked s)
  checked fuel (some e) s = revived fuel (in_flow (rebind_flow cdp) s)

  abbrev pub alive : ℕ → Option Error → Loop (Flow V) → Option (Round (Unit {0}) × Loop (Flow V))
  alive fuel (some e) s = some (done (err e), s)
  alive fuel none s = checked fuel (tab.context_error s.world.session.ctx (world_of s.world)) s

  unfoldable pub round : ℕ → Loop (Flow V) → Option (Round (Unit {0}) × Loop (Flow V))
  unfolding observe rebind_flow enroll_totp_robust sleep_ctx
  round fuel s = alive fuel (tab.context_error root (world_of s.world)) s

  abbrev pub loop_now : Loop (Flow V) → Time
  loop_now s = tab.now (world_of s.world)

  abbrev pub await_late : Error
  await_late = Error.msg "browser: timed out waiting for SSO redirect / 2FA completion"

  -- `fuel` is for this loop, `inner` for that of enrollTOTPRobust.
  unfoldable pub await_authenticated : ℕ → ℕ → Flow V → Option (Result (Unit {0}) × Loop (Flow V))
  unfolding round until
  await_authenticated fuel inner f =
      let start : Loop (Flow V) = record {
        two_fa_submitted = false;
        cert_retries = 0;
        cert_clicked_at = tab.now (world_of f);
        world = f;
      } in
      until fuel loop_now (loop_now start +ℤ seconds 180) (round inner) await_late start
