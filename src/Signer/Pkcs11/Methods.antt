-- ===== src/Signer/Pkcs11/Methods.antt =====
-- CertChainPKIPath, Identity and Available of pkcs11.go.
use pje_headless.Base.{
  ℕ, Bool, true, false, if◌then◌else◌, Option, none, some, List, [], ◌∷◌, Text, is_empty,
  trim_blanks, Result, ok, err, Error, map_err,
}
use pje_headless.Signer.Defs.{Identity}
use pje_headless.Signer.Pkipath.{pki_path_b64}
use pje_headless.Signer.Pkcs11.Defs.{Module, Config, State, find_label}
use pje_headless.Signer.Pkcs11.Login.{unload}

module _ {W : Type 0} (marshal : List (List ℕ) → Result (List ℕ)) (base64 : List ℕ → Text) where
  unfoldable pub cert_chain_pki_path : State W → Result Text
  cert_chain_pki_path s = elim s.session [
    | none ↦ err (Error.msg "pkcs11 chain: not logged in")
    | some sess ↦ pki_path_b64 marshal base64 sess.leaf_der []
  ]

module _ {W : Type 0} (parse_certificate : Text → Result Identity) where
  unfoldable pub identity : State W → Result Identity
  identity s = elim s.session [
    | none ↦ err (Error.msg "pkcs11 identity: not logged in")
    | some sess ↦
        map_err (Error.wrap "pkcs11 identity: parse cert") (parse_certificate sess.leaf_der)
  ]

module _ {W : Type 0} (p11 : Module W) where
  abbrev any_label : Option ℕ × W → Bool × W
  any_label (none, w) = (false, unload p11 w)
  any_label (some slot, w) = (true, unload p11 w)

  abbrev pub with_slots : Config → Result (List ℕ) × W → Bool × W
  with_slots c (err e, w) = (false, unload p11 w)
  with_slots c (ok [], w) = (false, unload p11 w)
  with_slots c (ok (slot ∷ slots), w) =
      if is_empty c.label
      then (true, unload p11 w)
      else any_label (find_label p11 (trim_blanks c.label) (slot ∷ slots) w)

  abbrev pub probe_initialized : Config → Result (Unit {0}) × W → Bool × W
  probe_initialized c (err e, w) = (false, p11.destroy w)
  probe_initialized c (ok _, w) = with_slots c (p11.slot_list w)

  abbrev pub probe_loaded : Config → Bool × W → Bool × W
  probe_loaded c (false, w) = (false, w)
  probe_loaded c (true, w) = probe_initialized c (p11.initialize w)

  -- Available over the world: it neither reads nor writes the signer's session.
  unfoldable pub probe : Config → W → Bool × W
  probe c w = probe_loaded c (p11.new w)

  unfoldable pub available : Config → State W → Bool × State W
  unfolding probe
  available c s = let (up, w) = probe c s.world in (up, record s { world = w })
