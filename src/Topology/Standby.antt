-- ===== src/Topology/Standby.antt =====
-- A RemoteSigner that is not connected, at the head of the backends of a DualSigner.
use pje_headless.Base.{
  ◌≡◌, refl, ap, ◌∙◌, Bool, false, Bool-cases, inl, inr, List, [], ◌∷◌, map, Text, Result, ok, err,
  Act, map_ok,
}
use pje_headless.Signer.Defs.{Signer, Identity}
use pje_headless.Signer.Dual.{
  DualState, track, resolve_active, on_active, delegate, new_dual, available,
}
use pje_headless.Signer.Remote.{Stub, RemoteSigner, remote_signer}

-- A backend over one half of a world of two parts.
module _ {R V : Type 0} where
  abbrev pub in_left : {A : Type 0} → Act R A → Act (R × V) A
  in_left op (r, v) = let (x, r') = op r in (x, (r', v))

  abbrev pub in_right : {A : Type 0} → Act V A → Act (R × V) A
  in_right op (r, v) = let (x, v') = op v in (x, (r, v'))

  abbrev pub on_left : Signer R → Signer (R × V)
  on_left s = record {
    login = in_left s.login;
    sign = λ phrase algorithm. in_left (s.sign phrase algorithm);
    cert_chain_pki_path = in_left s.cert_chain_pki_path;
    identity = in_left s.identity;
    available = λ (r, v). let (up, r') = s.available r in (up, (r', v));
  }

  abbrev pub on_right : Signer V → Signer (R × V)
  on_right s = record {
    login = in_right s.login;
    sign = λ phrase algorithm. in_right (s.sign phrase algorithm);
    cert_chain_pki_path = in_right s.cert_chain_pki_path;
    identity = in_right s.identity;
    available = λ (r, v). let (up, v') = s.available v in (up, (r, v'));
  }

  -- A DualSigner's state, with the other half of the world.
  abbrev pub beside : R → DualState V → DualState (R × V)
  beside r d = record { world = (r, d.world); last_subject = d.last_subject; switches = d.switches }

module _ {R V : Type 0} (r : R) where
  track_right :
      (res : Result Identity) (v : V) (d : DualState V)
      → track (res, (r, v)) (beside r d) ≡ beside r (track (res, v) d)
  unfolding track
  track_right (ok id) v d = refl
  track_right (err e) v d = refl

  resolve_right :
      (order : List (Signer V)) (d : DualState V)
      → resolve_active (map on_right order) (beside r d)
        ≡ (map_ok on_right (resolve_active order d).0, beside r (resolve_active order d).1)
  unfolding resolve_active
  resolve_right [] d = refl
  resolve_right (s ∷ order) d = elim (Bool-cases (s.available d.world).0) [
    | inl up ↦
        rw up (ap (λ e. (ok (on_right s), e)) (track_right (s.identity _).0 (s.identity _).1 _))
    | inr down ↦ rw down (resolve_right order (record d { world = (s.available d.world).1 }))
  ]

  -- A method of the DualSigner, on a backend that resolveActive returned or did not return.
  on_active_right :
      {A : Type 0} (op : Signer V → Act V A) (op' : Signer (R × V) → Act (R × V) A)
      → ((s : Signer V) (v : V) → op' (on_right s) (r, v) ≡ in_right (op s) (r, v))
      → (c : Result (Signer V)) (d : DualState V)
      → on_active op' (map_ok on_right c, beside r d)
        ≡ ((on_active op (c, d)).0, beside r (on_active op (c, d)).1)
  on_active_right op op' same (err e) d = refl
  on_active_right op op' same (ok s) d =
      ap
        (λ (x : Result _ × (R × V)).
          (x.0, record { world = x.1; last_subject = d.last_subject; switches = d.switches }))
        (same s d.world)

  delegate_right :
      {A : Type 0} (op : Signer V → Act V A) (op' : Signer (R × V) → Act (R × V) A)
      → ((s : Signer V) (v : V) → op' (on_right s) (r, v) ≡ in_right (op s) (r, v))
      → (order : List (Signer V)) (d : DualState V)
      → delegate (map on_right order) op' (beside r d)
        ≡ ((delegate order op d).0, beside r (delegate order op d).1)
  unfolding delegate
  delegate_right op op' same order d =
      ap (on_active op') (resolve_right order d)
      ∙ on_active_right op op' same (resolve_active order d).0 (resolve_active order d).1

  available_right :
      (order : List (Signer V)) (v : V)
      → available (map on_right order) (r, v) ≡ ((available order v).0, (r, (available order v).1))
  unfolding available
  available_right [] v = refl
  available_right (s ∷ order) v = elim (Bool-cases (s.available v).0) [
    | inl up ↦ rw up refl
    | inr down ↦ rw down (available_right order (s.available v).1)
  ]

-- The answer of the DualSigner over the other backends, with the RemoteSigner as it was.
abbrev pub Same :
    {R V A : Type 0} → R → Result A × DualState (R × V) → Result A × DualState V → Type 0
Same r both rest = both ≡ (rest.0, beside r rest.1)

module _ {N V : Type 0} (stub : Stub N) (n : N) (others : List (Signer V)) (d : DualState V) where
  abbrev pub standby : RemoteSigner N
  standby = record { connected = false; net = n }

  delegate-standby :
      {A : Type 0} (op : Signer V → Act V A)
      (op' : Signer (RemoteSigner N × V) → Act (RemoteSigner N × V) A)
      → ((s : Signer V) (v : V) → op' (on_right s) (standby, v) ≡ in_right (op s) (standby, v))
      → Same standby
          (delegate (on_left (remote_signer stub) ∷ map on_right others) op' (beside standby d))
          (delegate others op d)
  unfolding delegate resolve_active remote_signer
  delegate-standby op op' same = delegate_right standby op op' same others d

  available_standby :
      available (on_left (remote_signer stub) ∷ map on_right others) (standby, d.world)
      ≡ ((available others d.world).0, (standby, (available others d.world).1))
  unfolding available remote_signer
  available_standby = available_right standby others d.world

  -- A RemoteSigner that is not connected, first in the order of a DualSigner, takes no part: every
  -- method of the DualSigner, Login among them, does what it does without that backend, and leaves
  -- the RemoteSigner unconnected and the network untouched.
  pub remote_never_chosen :
      (phrase algorithm : Text)
      → let both = new_dual (on_left (remote_signer stub) ∷ map on_right others) in
        let rest = new_dual others in
        Same standby (both.login (beside standby d)) (rest.login d)
        × Same standby
            (both.sign phrase algorithm (beside standby d))
            (rest.sign phrase algorithm d)
        × Same standby (both.cert_chain_pki_path (beside standby d)) (rest.cert_chain_pki_path d)
        × Same standby (both.identity (beside standby d)) (rest.identity d)
        × (both.available (beside standby d)
            ≡ ((rest.available d).0, beside standby (rest.available d).1))
  unfolding new_dual
  remote_never_chosen phrase algorithm = (
    delegate-standby (λ s. s.login) (λ s. s.login) (λ s v. refl),
    delegate-standby (λ s. s.sign phrase algorithm) (λ s. s.sign phrase algorithm) (λ s v. refl),
    delegate-standby (λ s. s.cert_chain_pki_path) (λ s. s.cert_chain_pki_path) (λ s v. refl),
    delegate-standby (λ s. s.identity) (λ s. s.identity) (λ s v. refl),
    ap
        (λ (x : Bool × (RemoteSigner N × V)).
          (x.0, record { world = x.1; last_subject = d.last_subject; switches = d.switches }))
        available_standby,
  )
