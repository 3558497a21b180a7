-- ===== src/Browser/Session/Contexts.antt =====
-- The page contexts that a session opens are released.
use pje_headless.Base.{
  ℕ, zero, suc, ◌≡◌, ap, ◌∙◌, ◌&&◌, ◌===◌, Bool-cases, inl, inr, not, arith, Option, none, [], ◌∷◌,
  some, List, Text, is_empty, Result, ok, err,
}
use pje_headless.Handles.{Handles, all_of, acquired, given_back, given_back_last, given_back_first}
use pje_headless.Browser.Target.{Info, pick_active_target}
use pje_headless.Browser.Session.{
  Chromedp, Session, release, listening, adopted, picked, listed, rebind, close,
}

-- The contexts that are open, and how often one was cancelled that was not.
abbrev pub Open : Type 0
Open = Handles

abbrev pub counted : {W : Type 0} → Chromedp W → Chromedp (W × Open)
counted cdp = record {
  targets = λ (w, o). let (r, w') = cdp.targets w in (r, (w', o));
  new_context = λ id (w, o). let (c, w') = cdp.new_context id w in (c, (w', acquired c o));
  enable = λ c (w, o). let (r, w') = cdp.enable c w in (r, (w', o));
  attach_bearer_listener = λ c (w, o). (cdp.attach_bearer_listener c w, o);
  attach_frame_listener = λ c (w, o). (cdp.attach_frame_listener c w, o);
  cancel = λ c (w, o). (cdp.cancel c w, given_back c o);
  invalid_context = cdp.invalid_context;
}

abbrev pub owned : Option ℕ → List ℕ
owned none = []
owned (some c) = c ∷ []

-- The session holds the one context that it opened, or none, and has cancelled none that was not open.
abbrev pub Balanced : {W : Type 0} → Session (W × Open) → Type 0
Balanced s = s.world.1 ≡ all_of (owned s.cancel)

module _ {W : Type 0} (cdp : Chromedp W) where
  listening_open :
      (s : Session (W × Open)) (c : ℕ) (w : W × Open) → (listening (counted cdp) s c w).1 ≡ w.1
  listening_open s c w = ground arith

  release_open :
      (old : Option ℕ) (c : ℕ) (w : W × Open)
      → w.1 ≡ all_of (c ∷ owned old)
      → (release (counted cdp) old w).1 ≡ all_of (c ∷ [])
  release_open none c w e = e
  release_open (some b) c w e = ap (given_back b) e ∙ given_back_first b c

  adopted-Balanced :
      (s : Session (W × Open)) (id : Text) (c : ℕ) (r : Result (Unit {0})) (w : W × Open)
      → w.1 ≡ all_of (c ∷ owned s.cancel)
      → Balanced (adopted (counted cdp) s id c (r, w)).1
  adopted-Balanced s id c (ok _) w e = release_open s.cancel c _ (listening_open s c w ∙ e)
  adopted-Balanced s id c (err x) w e = ap (given_back c) e ∙ given_back_last c (owned s.cancel)

  picked-Balanced :
      (s : Session (W × Open)) (p : Option Text) (w : W × Open)
      → w.1 ≡ all_of (owned s.cancel)
      → Balanced (picked (counted cdp) s p w).1
  picked-Balanced s none w e = e
  picked-Balanced s (some id) w e =
      elim (Bool-cases (id === s.bound_id && not (is_empty s.bound_id))) [
        | inl same ↦ rw same e
        | inr other ↦
            let new = cdp.new_context id w.0 in
            rw other
              (adopted-Balanced s id new.0 (cdp.enable new.0 new.1).0 _ (ap (acquired new.0) e))
      ]

  listed-Balanced :
      (s : Session (W × Open)) (r : Result (List (Option Info))) (w : W × Open)
      → w.1 ≡ all_of (owned s.cancel)
      → Balanced (listed (counted cdp) s (r, w)).1
  listed-Balanced s (err x) w e = e
  listed-Balanced s (ok infos) w e = picked-Balanced s (pick_active_target infos) w e

  pub rebind-Balanced : (s : Session (W × Open)) → Balanced s → Balanced (rebind (counted cdp) s).1
  unfolding rebind
  rebind-Balanced s b = listed-Balanced s (cdp.targets s.world.0).0 _ b

  -- The session after `n` calls of rebind.
  unfoldable rebinds : ℕ → Session (W × Open) → Session (W × Open)
  rebinds zero s = s
  rebinds (suc n) s = rebinds n (rebind (counted cdp) s).1

  rebinds-Balanced : (n : ℕ) (s : Session (W × Open)) → Balanced s → Balanced (rebinds n s)
  unfolding rebinds
  rebinds-Balanced zero s b = b
  rebinds-Balanced (suc n) s b = rebinds-Balanced n (rebind (counted cdp) s).1 (rebind-Balanced s b)

  pub closed :
      (old : Option ℕ) (w : W × Open)
      → w.1 ≡ all_of (owned old)
      → (release (counted cdp) old w).1 ≡ all_of []
  closed none w e = e
  closed (some c) w e = ap (given_back c) e ∙ given_back_last c []

  -- From a session that holds just the context that it would cancel, or none, and however often it is
  -- bound anew and whatever the browser answers, the session again holds just that context, or none, and
  -- after close none: every other one was cancelled, and none was cancelled that was not open.
  rebinds-close :
      (n : ℕ) (s : Session (W × Open))
      → Balanced s
      → Balanced (rebinds n s) × ((close (counted cdp) (rebinds n s)).world.1 ≡ all_of [])
  unfolding close
  rebinds-close n s b =
      let after = rebinds-Balanced n s b in
      (after, closed (rebinds n s).cancel (rebinds n s).world after)
