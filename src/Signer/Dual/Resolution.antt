-- ===== src/Signer/Dual/Resolution.antt =====
-- Which backend a DualSigner uses.
use pje_headless.Base.{
  ◌≡◌, refl, inl, inr, true, false, Bool-cases, arith, List, [], ◌∷◌, ◌++◌, Result, ok, err, is_ok,
}
use pje_headless.Signer.Defs.{Signer}
use pje_headless.Signer.Dual.{DualState, track, resolve_active, available, no_backend}

module _ {W : Type 0} where
  -- Each backend of a list, asked in turn, is not available; the questions take the world from `w` to
  -- the last one.
  pub data Refuse : List (Signer W) → W → W → Type 0 where
    nobody : {w : W} → Refuse [] w w
    refused :
        {s : Signer W} {order : List (Signer W)} {w v : W}
        → (s.available w).0 ≡ false
        → Refuse order (s.available w).1 v
        → Refuse (s ∷ order) w v

  -- The choice of a backend: all refuse, and nothing but the world changes; or those before it refuse
  -- and it accepts, and its identity is tracked.
  pub record Chosen (order : List (Signer W)) (d : DualState W) (s : Signer W) (d' : DualState W)
      : Type 0 where
    pub before : List (Signer W)
    pub after : List (Signer W)
    pub seen : W
    pub split : order ≡ before ++ s ∷ after
    pub refusals : Refuse before d.world seen
    pub accepts : (s.available seen).0 ≡ true
    pub result :
        d' ≡ track (s.identity (s.available seen).1) (record d { world = (s.available seen).1 })

  abbrev pub Choice : List (Signer W) → DualState W → Result (Signer W) × DualState W → Type 0
  Choice order d (err e, d') =
      (e ≡ no_backend) × Refuse order d.world d'.world × (d' ≡ record d { world = d'.world })
  Choice order d (ok s, d') = Chosen order d s d'

  Choice-cons :
      (s : Signer W) (order : List (Signer W)) (d : DualState W) (r : Result (Signer W))
      (d' : DualState W)
      → (s.available d.world).0 ≡ false
      → Choice order (record d { world = (s.available d.world).1 }) (r, d')
      → Choice (s ∷ order) d (r, d')
  Choice-cons s order d (err e) d' no_s (why, all, same) = (why, refused no_s all, same)
  Choice-cons s order d (ok t) d' no_s c = record {
    before = s ∷ c.before;
    after = c.after;
    seen = c.seen;
    split = ground (arith, c.split);
    refusals = refused no_s c.refusals;
    accepts = c.accepts;
    result = c.result;
  }

  -- resolveActive returns the first backend that is available, asked in the order of priority, and
  -- tracks its identity; it fails exactly where every backend refuses.
  pub resolve_active-Choice :
      (order : List (Signer W)) (d : DualState W) → Choice order d (resolve_active order d)
  unfolding resolve_active
  resolve_active-Choice [] d = (refl, nobody, refl)
  resolve_active-Choice (s ∷ order) d = elim (Bool-cases (s.available d.world).0) [
    | inl up ↦ rw up (record {
      before = [];
      after = order;
      seen = d.world;
      split = refl;
      refusals = nobody;
      accepts = up;
      result = refl;
    })
    | inr down ↦ rw down (Choice-cons s order d _ _ down (resolve_active-Choice order _))
  ]

  -- Available reports true exactly where a delegated call would find a backend.
  available-resolve_active :
      (order : List (Signer W)) (d : DualState W)
      → (available order d.world).0 ≡ is_ok (resolve_active order d).0
  unfolding available resolve_active
  available-resolve_active [] d = refl
  available-resolve_active (s ∷ order) d =
      let d' : DualState W = record d { world = (s.available d.world).1 } in
      ground (arith, available-resolve_active order d')
