-- ===== src/Browser/Flow.antt =====
-- What the login drives: a session with the URL tracker and the capture that its listeners feed, and
-- the flag totpEnrolled. The events come at any time; the code reads what they leave behind, so they
-- are taken in (`observe`) where the code reads it.
pub mod Respect
pub mod Beside
pub mod Steady
pub mod Tallied
use pje_headless.Base.{
  ℕ, ◌*◌, Bool, true, false, Option, none, some, List, [], ◌∷◌, Text, Result, ok, err, Error, Act,
}
use pje_headless.Base.Int.{pos}
use pje_headless.Clock.{Time, Duration}
use pje_headless.Browser.Url.{Frame, on_frame_navigated}
use pje_headless.Browser.Capture.{BearerCapture, Event, listen}
use pje_headless.Browser.Session.{Chromedp, Session, rebind, is_invalid_context}
use pje_headless.Browser.Prompts.{Page}

-- What the listeners of attachBearerListener and attachFrameListener are called with.
pub data CdpEvent : Type 0 where
  network : Event → CdpEvent
  frame_navigated : Option (Option Frame) → CdpEvent

-- The rest of chromedp and the runtime, over the world `V`; a context is a number. `wait` is the select
-- of sleepCtx: nothing where the timer fires first, else the error of the context. `start` is what
-- chromedp.Run does before its first action. The others run the script or the action of their name:
-- those from `enable`, network.Enable with page.Enable, to `search` inside a Run, the rest in a Run of their
-- own. Js.Devtools says which scripts these are.
pub record Tab (V : Type 0) : Type 0 where
  pub now : V → Time
  pub wait : ℕ → Duration → V → Option Error × V
  pub context_error : ℕ → V → Option Error
  pub events : V → List CdpEvent × V
  pub start : ℕ → Act V (Unit {0})
  pub enable : ℕ → Act V (Unit {0})
  pub goto : ℕ → Text → Act V (Unit {0})
  pub autenticar_ready : ℕ → Act V Bool
  pub click_link : ℕ → Act V Bool
  pub consulta_ready : ℕ → Act V Bool
  pub search : ℕ → Text → Act V Bool
  pub navigate : ℕ → Text → Act V (Unit {0})
  pub two_fa_present : ℕ → Act V Bool
  pub two_fa_visible : ℕ → Act V Bool
  pub submit_two_fa : ℕ → Text → Act V Bool
  pub click_cert : ℕ → Act V Bool
  pub wait_ready : ℕ → Text → Act V (Unit {0})
  pub read_secret : ℕ → Act V (Text × Text)
  pub submit_enrollment : ℕ → Text → Text → Act V Bool

pub record Flow (V : Type 0) : Type 0 where
  pub session : Session V
  pub last_url : Text
  pub capture : BearerCapture
  pub totp_enrolled : Bool

abbrev pub seconds : ℕ → Duration
seconds n = pos (n * 1_000_000_000)

abbrev pub milliseconds : ℕ → Duration
milliseconds n = pos (n * 1_000_000)

module _ {V : Type 0} where
  abbrev pub world_of : Flow V → V
  world_of s = s.session.world

  abbrev pub with_world : Flow V → V → Flow V
  with_world s v = record s { session = record s.session { world = v } }

  -- An operation of the world.
  abbrev pub in_world : {A : Type 0} → Act V A → Act (Flow V) A
  in_world op s = let (r, v) = op (world_of s) in (r, with_world s v)

  abbrev pub take_in : CdpEvent → Flow V → Flow V
  take_in (network e) s = record s { capture = listen s.capture e }
  take_in (frame_navigated ev) s = record s { last_url = on_frame_navigated s.last_url ev }

  unfoldable pub take_all : List CdpEvent → Flow V → Flow V
  take_all [] s = s
  take_all (e ∷ es) s = take_all es (take_in e s)

  abbrev pub waited : Option Error × V → Result (Unit {0}) × V
  waited (none, v) = (ok tt, v)
  waited (some e, v) = (err e, v)

module _ {V : Type 0} (tab : Tab V) where
  -- The state when the code reads the tracker or the capture.
  unfoldable pub observe : Flow V → Flow V
  unfolding take_all
  observe s = let (es, v) = tab.events (world_of s) in take_all es (with_world s v)

  -- sleepCtx
  unfoldable pub sleep_ctx : ℕ → Duration → Act V (Unit {0})
  sleep_ctx ctx d v = waited (tab.wait ctx d v)

-- session.rebind, on the session of the flow.
unfoldable pub rebind_flow : {V : Type 0} → Chromedp V → Act (Flow V) Bool
unfolding rebind
rebind_flow cdp s = let (r, session) = rebind cdp s.session in (r, record s { session = session })

-- The page that maybeHandle2FA and maybeRetryCert see through the context `ctx`.
abbrev pub page_at : {V : Type 0} → Tab V → Chromedp V → ℕ → Page (Flow V)
page_at tab cdp ctx = record {
  two_fa_present = in_world (tab.two_fa_present ctx);
  two_fa_visible = in_world (tab.two_fa_visible ctx);
  submit_two_fa = λ code. in_world (tab.submit_two_fa ctx code);
  click_cert = in_world (tab.click_cert ctx);
  is_invalid_context = is_invalid_context cdp.invalid_context;
  now = λ s. tab.now (world_of s);
}
