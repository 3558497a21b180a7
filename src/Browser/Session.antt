-- ===== src/Browser/Session.antt =====
-- internal/browser/session.go: the page context that the login drives, and its renewal. chromedp is the
-- parameter `Chromedp` over the world `W`; a context is a number. The URL tracker of the session is in
-- Url, the choice of the target in Target.
pub mod Contexts
use pje_headless.Base.{
  ℕ, ◌==◌, ◌&&◌, ◌===◌, Bool, true, false, not, if◌then◌else◌, Option, none, some, List, [], Text,
  is_empty, Result, ok, err, Error, Act,
}
use pje_headless.Browser.Target.{Info, pick_active_target}

-- chromedp.Targets of the root context, chromedp.NewContext on a target, Run of the Enable actions,
-- the two listeners, and the CancelFunc of a context; `invalid_context` tells ErrInvalidContext apart from
-- the other errors of libraries.
pub record Chromedp (W : Type 0) : Type 0 where
  pub targets : Act W (List (Option Info))
  pub new_context : Text → W → ℕ × W
  pub enable : ℕ → Act W (Unit {0})
  pub attach_bearer_listener : ℕ → W → W
  pub attach_frame_listener : ℕ → W → W
  pub cancel : ℕ → W → W
  pub invalid_context : ℕ

-- isInvalidContext, for errors other than nil: errors.Is(err, chromedp.ErrInvalidContext).
unfoldable pub is_invalid_context : ℕ → Error → Bool
is_invalid_context invalid (Error.wrap s e) = is_invalid_context invalid e
is_invalid_context invalid (Error.foreign n) = n == invalid
is_invalid_context invalid (Error.msg s) = false
is_invalid_context invalid (Error.code c) = false
is_invalid_context invalid (Error.status c s) = false

-- `cancel` names the context of the last renewal; `captures` says that a capture was given.
pub record Session (W : Type 0) : Type 0 where
  pub ctx : ℕ
  pub cancel : Option ℕ
  pub captures : Bool
  pub bound_id : Text
  pub world : W

abbrev pub new_session : {W : Type 0} → ℕ → Bool → W → Session W
new_session initial captures w = record {
  ctx = initial;
  cancel = none;
  captures = captures;
  bound_id = [];
  world = w;
}

module _ {W : Type 0} (cdp : Chromedp W) where
  abbrev pub release : Option ℕ → W → W
  release none w = w
  release (some c) w = cdp.cancel c w

  abbrev pub listening : Session W → ℕ → W → W
  listening s c w =
      cdp.attach_frame_listener c (if s.captures then cdp.attach_bearer_listener c w else w)

  -- The session on the new context `c`, if its actions ran.
  abbrev pub adopted : Session W → Text → ℕ → Result (Unit {0}) × W → Result Bool × Session W
  adopted s id c (ok _, w) = (
    ok true,
    record s {
      ctx = c;
      cancel = some c;
      bound_id = id;
      world = release s.cancel (listening s c w);
    },
  )
  adopted s id c (err e, w) = (
    if is_invalid_context cdp.invalid_context e
        then ok false
        else err (Error.wrap "browser: attach to target" e),
    record s { world = cdp.cancel c w },
  )

  abbrev pub attached : Session W → Text → ℕ × W → Result Bool × Session W
  attached s id (c, w) = adopted s id c (cdp.enable c w)

  abbrev pub picked : Session W → Option Text → W → Result Bool × Session W
  picked s none w = (ok false, record s { world = w })
  picked s (some id) w =
      let bound : Result Bool × Session W = (ok false, record s { world = w }) in
      let fresh = attached s id (cdp.new_context id w) in
      if id === s.bound_id && not (is_empty s.bound_id) then bound else fresh

  abbrev pub listed : Session W → Result (List (Option Info)) × W → Result Bool × Session W
  listed s (err e, w) =
      (err (Error.wrap "browser: list targets for rebind" e), record s { world = w })
  listed s (ok infos, w) = picked s (pick_active_target infos) w

  unfoldable pub rebind : Act (Session W) Bool
  rebind s = listed s (cdp.targets s.world)

  unfoldable pub close : Session W → Session W
  close s = record s { cancel = none; world = release s.cancel s.world }
