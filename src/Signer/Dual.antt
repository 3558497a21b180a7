-- ===== src/Signer/Dual.antt =====
-- internal/signer/dual.go, with IdentitySwitch of internal/audit/audit.go. The state of a DualSigner
-- is the world of its backends, the last subject and the audit events so far, the oldest first.
-- The methods here do not overlap; `Overlapping` is about calls that do.
pub mod Resolution
pub mod Audit
pub mod Overlapping
use pje_headless.Base.{
  Bool, true, false, not, ◌&&◌, if◌then◌else◌, List, [], ◌∷◌, ◌++◌, Text, ◌===◌, is_empty, Result,
  ok, err, Error, Act,
}
use pje_headless.Signer.Defs.{Signer, Identity}

pub record DualState (W : Type 0) : Type 0 where
  pub world : W
  pub last_subject : Text
  pub switches : List (Text × Text)

-- The audit events after the subject `curr` was read: IdentitySwitch(prev, curr) where they differ.
unfoldable pub identity_switch : Text → Text → List (Text × Text) → List (Text × Text)
identity_switch prev curr log =
    if not (is_empty prev) && not (prev === curr) then log ++ (prev, curr) ∷ [] else log

abbrev pub no_backend : Error
no_backend = Error.msg "dual: nenhum backend de assinatura disponivel"

module _ {W : Type 0} where
  -- The tracking of resolveActive, with what Identity returned.
  unfoldable pub track : Result Identity × W → DualState W → DualState W
  unfolding identity_switch
  track (err e, w) d = record d { world = w }
  track (ok id, w) d = record d {
    world = w;
    last_subject = id.subject;
    switches = identity_switch d.last_subject id.subject d.switches;
  }

  unfoldable pub resolve_active : List (Signer W) → DualState W → Result (Signer W) × DualState W
  unfolding track
  resolve_active [] d = (err no_backend, d)
  resolve_active (s ∷ order) d =
      let (up, w) = s.available d.world in
      let rest = resolve_active order (record d { world = w }) in
      if up then (ok s, track (s.identity w) (record d { world = w })) else rest

  unfoldable pub available : List (Signer W) → W → Bool × W
  available [] w = (false, w)
  available (s ∷ order) w =
      let (up, w') = s.available w in
      let rest = available order w' in if up then (true, w') else rest

  -- A method of the backend that resolveActive returned.
  abbrev pub on_active :
      {A : Type 0} → (Signer W → Act W A) → Result (Signer W) × DualState W → Result A × DualState W
  on_active op (err e, d) = (err e, d)
  on_active op (ok s, d) = let (r, w) = op s d.world in (r, record d { world = w })

  unfoldable pub delegate :
      {A : Type 0} → List (Signer W) → (Signer W → Act W A) → Act (DualState W) A
  unfolding resolve_active
  delegate order op d = on_active op (resolve_active order d)

  -- NewDual
  unfoldable pub new_dual : List (Signer W) → Signer (DualState W)
  unfolding delegate available
  new_dual order = record {
    login = delegate order (λ s. s.login);
    sign = λ phrase algorithm. delegate order (λ s. s.sign phrase algorithm);
    cert_chain_pki_path = delegate order (λ s. s.cert_chain_pki_path);
    identity = delegate order (λ s. s.identity);
    available = λ d. let (up, w) = available order d.world in (up, record d { world = w });
  }

  abbrev pub initial : W → DualState W
  initial w = record { world = w; last_subject = []; switches = [] }
