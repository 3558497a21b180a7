-- ===== src/Browser/Flow/Respect.antt =====
-- A relation between worlds that every step of the libraries keeps.
use pje_headless.Base.{
  ℕ, ◌≡◌, refl, sym, subst, ◌&&◌, ◌===◌, not, Bool, if_cases, Option, none, some, List, [], ◌∷◌,
  Text, is_empty, Result, ok, err, Error,
}
use pje_headless.Clock.{Duration}
use pje_headless.Browser.Target.{Info, pick_active_target}
use pje_headless.Browser.Session.{
  Chromedp, Session, release, listening, adopted, picked, listed, rebind,
}
use pje_headless.Browser.Flow.{
  Tab, Flow, CdpEvent, world_of, with_world, take_in, take_all, observe, sleep_ctx, waited,
  rebind_flow,
}

pub record Order {V : Type 0} (R : V → V → Type 0) : Type 0 where
  pub stay : (v : V) → R v v
  pub trans : {u v w : V} → R u v → R v w → R u w

-- The steps of chromedp that a renewal takes keep `R`.
pub record Keeps {V : Type 0} (R : V → V → Type 0) (cdp : Chromedp V) : Type 0 where
  pub order : Order R
  pub targets : (v : V) → R v (cdp.targets v).1
  pub new_context : (id : Text) (v : V) → R v (cdp.new_context id v).1
  pub enable : (c : ℕ) (v : V) → R v (cdp.enable c v).1
  pub attach_bearer_listener : (c : ℕ) (v : V) → R v (cdp.attach_bearer_listener c v)
  pub attach_frame_listener : (c : ℕ) (v : V) → R v (cdp.attach_frame_listener c v)
  pub cancel : (c : ℕ) (v : V) → R v (cdp.cancel c v)

-- The steps of the tab that submit nothing keep `R`.
pub record KeepsQuiet {V : Type 0} (R : V → V → Type 0) (tab : Tab V) : Type 0 where
  pub wait : (c : ℕ) (d : Duration) (v : V) → R v (tab.wait c d v).1
  pub start : (c : ℕ) (v : V) → R v (tab.start c v).1
  pub enable : (c : ℕ) (v : V) → R v (tab.enable c v).1
  pub goto : (c : ℕ) (url : Text) (v : V) → R v (tab.goto c url v).1
  pub autenticar_ready : (c : ℕ) (v : V) → R v (tab.autenticar_ready c v).1
  pub click_link : (c : ℕ) (v : V) → R v (tab.click_link c v).1
  pub consulta_ready : (c : ℕ) (v : V) → R v (tab.consulta_ready c v).1
  pub search : (c : ℕ) (num : Text) (v : V) → R v (tab.search c num v).1
  pub navigate : (c : ℕ) (url : Text) (v : V) → R v (tab.navigate c url v).1
  pub two_fa_present : (c : ℕ) (v : V) → R v (tab.two_fa_present c v).1
  pub two_fa_visible : (c : ℕ) (v : V) → R v (tab.two_fa_visible c v).1
  pub wait_ready : (c : ℕ) (sel : Text) (v : V) → R v (tab.wait_ready c sel v).1
  pub read_secret : (c : ℕ) (v : V) → R v (tab.read_secret c v).1

-- Taking events in leaves the session as it was.
pub take_all-session :
    {V : Type 0} (es : List CdpEvent) (s : Flow V) → (take_all es s).session ≡ s.session
unfolding take_all
take_all-session [] s = refl
take_all-session (CdpEvent.network e ∷ es) s = take_all-session es (take_in (CdpEvent.network e) s)
take_all-session (CdpEvent.frame_navigated ev ∷ es) s =
    take_all-session es (take_in (CdpEvent.frame_navigated ev) s)

module _ {V : Type 0} (R : V → V → Type 0) (cdp : Chromedp V) (k : Keeps R cdp) where
  release-R : (old : Option ℕ) (v : V) → R v (release cdp old v)
  release-R none v = k.order.stay v
  release-R (some c) v = k.cancel c v

  listening-R : (s : Session V) (c : ℕ) (v : V) → R v (listening cdp s c v)
  listening-R s c v =
      if_cases (λ u. R v (cdp.attach_frame_listener c u)) s.captures _ _
        (λ _. k.order.trans (k.attach_bearer_listener c v) (k.attach_frame_listener c _))
        (λ _. k.attach_frame_listener c v)

  adopted-R :
      (s : Session V) (id : Text) (c : ℕ) (r : Result (Unit {0})) (v : V)
      → R v (adopted cdp s id c (r, v)).1.world
  adopted-R s id c (ok _) v = k.order.trans (listening-R s c v) (release-R s.cancel _)
  adopted-R s id c (err e) v = k.cancel c v

  picked-R : (s : Session V) (p : Option Text) (v : V) → R v (picked cdp s p v).1.world
  picked-R s none v = k.order.stay v
  picked-R s (some id) v =
      let (c, w) = cdp.new_context id v in
      if_cases (λ (x : Result Bool × Session V). R v x.1.world)
        (id === s.bound_id && not (is_empty s.bound_id)) _ _ (λ _. k.order.stay v)
        (λ _.
          k.order.trans (k.new_context id v)
            (k.order.trans (k.enable c w) (adopted-R s id c (cdp.enable c w).0 (cdp.enable c w).1)))

  listed-R :
      (s : Session V) (r : Result (List (Option Info))) (v : V) → R v (listed cdp s (r, v)).1.world
  listed-R s (err e) v = k.order.stay v
  listed-R s (ok infos) v = picked-R s (pick_active_target infos) v

  pub rebind_flow-R : (s : Flow V) → R (world_of s) (world_of (rebind_flow cdp s).1)
  unfolding rebind_flow rebind
  rebind_flow-R s =
      k.order.trans (k.targets (world_of s)) (listed-R s.session (cdp.targets (world_of s)).0 _)

-- Nor do they touch the flag.
pub take_all-flag :
    {V : Type 0} (es : List CdpEvent) (s : Flow V) → (take_all es s).totp_enrolled ≡ s.totp_enrolled
unfolding take_all
take_all-flag [] s = refl
take_all-flag (CdpEvent.network e ∷ es) s = take_all-flag es (take_in (CdpEvent.network e) s)
take_all-flag (CdpEvent.frame_navigated ev ∷ es) s =
    take_all-flag es (take_in (CdpEvent.frame_navigated ev) s)

module _ {V : Type 0} (R : V → V → Type 0) (tab : Tab V) where
  waited-R : (o : Option Error) (v w : V) → R v w → R v (waited (o, w)).1
  waited-R none v w h = h
  waited-R (some e) v w h = h

  pub sleep_ctx-R :
      (q : KeepsQuiet R tab) (c : ℕ) (d : Duration) (v : V) → R v (sleep_ctx tab c d v).1
  unfolding sleep_ctx
  sleep_ctx-R q c d v = waited-R (tab.wait c d v).0 v (tab.wait c d v).1 (q.wait c d v)

  pub observe-R :
      (s : Flow V)
      → R (world_of s) (tab.events (world_of s)).1
      → R (world_of s) (world_of (observe tab s))
  unfolding observe
  observe-R s h =
      let (es, v) = tab.events (world_of s) in
      subst (λ (x : Session V). R (world_of s) x.world) (sym (take_all-session es (with_world s v)))
        h
