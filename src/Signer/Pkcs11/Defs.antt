-- ===== src/Signer/Pkcs11/Defs.antt =====
-- The library's interface, the signer's state, and the helpers of pkcs11.go.
use pje_headless.Base.{
  ℕ, Bool, true, false, not, ◌||◌, ◌==◌, if◌then◌else◌, Option, none, some, List, [], ◌∷◌, ◌++◌,
  get_elem?, Text, codes, ◌===◌, is_empty, trim_blanks, Result, ok, err, Error, as_code, Act,
}
use pje_headless.Base.Int.{ℤ, pos, negsuc}

-- The functions of miekg/pkcs11 that the code calls. `new` gives nothing where the module cannot be
-- loaded; `attribute_value` gives the values of the attributes asked for.
pub record Module (W : Type 0) : Type 0 where
  pub new : W → Bool × W
  pub destroy : W → W
  pub initialize : Act W (Unit {0})
  pub finalize : W → W
  pub slot_list : Act W (List ℕ)
  pub token_label : ℕ → Act W Text
  pub open_session : ℕ → Act W ℕ
  pub close_session : ℕ → W → W
  pub login : ℕ → Text → Act W (Unit {0})
  pub find_objects_init : ℕ → ℕ → Act W (Unit {0})
  pub find_objects : ℕ → Act W (List ℕ)
  pub find_objects_final : ℕ → Act W (Unit {0})
  pub attribute_value : ℕ → ℕ → Act W (List Text)
  pub sign_init : ℕ → ℕ → ℕ → Act W (Unit {0})
  pub sign : ℕ → List ℕ → Act W (List ℕ)

-- The fields of PKCS11Signer that a login sets: `p` is not nil where there is a session.
pub record Session : Type 0 where
  pub handle : ℕ
  pub priv_key : ℕ
  pub leaf_der : Text

pub record Config : Type 0 where
  pub pin : Text
  pub slot_hint : Text
  pub label : Text

-- The signer within the world: the session that is open, if one is.
pub record State (W : Type 0) : Type 0 where
  pub session : Option Session
  pub world : W

abbrev pub cko_certificate : ℕ
cko_certificate = 1

abbrev pub cko_private_key : ℕ
cko_private_key = 3

abbrev pub ckm_rsa_pkcs : ℕ
ckm_rsa_pkcs = 0x1

abbrev pub ckm_sha1_rsa_pkcs : ℕ
ckm_sha1_rsa_pkcs = 0x6

abbrev pub ckm_sha256_rsa_pkcs : ℕ
ckm_sha256_rsa_pkcs = 0x40

-- The mechanism and whether the caller supplies the DigestInfo.
unfoldable pub algorithm_to_mechanism : Text → Result (ℕ × Bool)
algorithm_to_mechanism algorithm =
    if algorithm === codes "SHA256withRSA"
    then ok (ckm_sha256_rsa_pkcs, false)
    else if algorithm === codes "SHA1withRSA"
    then ok (ckm_sha1_rsa_pkcs, false)
    else if algorithm === codes "MD5withRSA"
    then ok (ckm_rsa_pkcs, true)
    else err (Error.msg "pkcs11: unsupported algorithm")

unfoldable pub md5_digest_info_prefix : List ℕ
md5_digest_info_prefix =
    0x30 ∷ 0x20 ∷ 0x30 ∷ 0x0c ∷ 0x06 ∷ 0x08 ∷ 0x2a ∷ 0x86 ∷ 0x48 ∷ 0x86 ∷ 0xf7 ∷ 0x0d ∷ 0x02 ∷ 0x05
    ∷ 0x05 ∷ 0x00 ∷ 0x04 ∷ 0x10 ∷ []

unfoldable pub md5_digest_info : (List ℕ → List ℕ) → List ℕ → List ℕ
unfolding md5_digest_info_prefix
md5_digest_info md5 bytes = md5_digest_info_prefix ++ md5 bytes

-- err.(p11.Error) == CKR_USER_ALREADY_LOGGED_IN, with no look behind a wrapping error.
unfoldable pub already_logged_in : Error → Bool
already_logged_in (Error.code e) = e == 0x100
already_logged_in _ = false

abbrev pub is_retryable_code : Option ℕ → Bool
is_retryable_code none = false
is_retryable_code (some e) =
    e == 0x30 || e == 0xb3 || e == 0xb0 || e == 0x101 || e == 0x32 || e == 0xe0 || e == 0x05

unfoldable pub is_retryable_pkcs11_err : Error → Bool
is_retryable_pkcs11_err e = is_retryable_code (as_code e)

module _ {W : Type 0} (p11 : Module W) where
  abbrev pub label_is : Text → Result Text → Bool
  label_is want (ok label) = trim_blanks label === want
  label_is want (err e) = false

  -- The first slot whose token bears the label; a slot that cannot be asked is passed over.
  unfoldable pub find_label : Text → List ℕ → W → Option ℕ × W
  find_label want [] w = (none, w)
  find_label want (slot ∷ slots) w =
      let (r, w') = p11.token_label slot w in
      let rest = find_label want slots w' in if label_is want r then (some slot, w') else rest

  abbrev labelled_slot : Option ℕ × W → Result ℕ × W
  labelled_slot (none, w) = (err (Error.msg "no slot found with token label"), w)
  labelled_slot (some slot, w) = (ok slot, w)

  -- The slot at the index that Sscanf reads from the hint, if it reads one in range.
  unfoldable pub hinted : ℕ → List ℕ → Option ℤ → ℕ
  hinted first slots none = first
  hinted first slots (some (negsuc n)) = first
  hinted first slots (some (pos n)) = elim (get_elem? slots n) [ none ↦ first | some slot ↦ slot ]

  -- findSlot, from the slot list on. `scan` is fmt.Sscanf(hint, "%d", &idx).
  unfoldable pub choose_slot : (Text → Option ℤ) → Config → Result (List ℕ) × W → Result ℕ × W
  unfolding find_label hinted
  choose_slot scan c (err e, w) = (err (Error.wrap "GetSlotList" e), w)
  choose_slot scan c (ok [], w) = (err (Error.msg "no slots with token present"), w)
  choose_slot scan c (ok (first ∷ slots), w) =
      if not (is_empty c.label)
      then labelled_slot (find_label (trim_blanks c.label) (first ∷ slots) w)
      else if not (is_empty c.slot_hint)
      then (ok (hinted first (first ∷ slots) (scan c.slot_hint)), w)
      else (ok first, w)

  unfoldable pub find_slot : (Text → Option ℤ) → Config → W → Result ℕ × W
  unfolding choose_slot
  find_slot scan c w = choose_slot scan c (p11.slot_list w)

  -- The results of FindObjects and FindObjectsFinal, of which the first error counts.
  abbrev found : Result (List ℕ) → Result (Unit {0}) → Result ℕ
  found (err e) fin = err (Error.wrap "FindObjects" e)
  found (ok objs) (err e) = err (Error.wrap "FindObjects" e)
  found (ok []) (ok _) = err (Error.msg "no object of class found in token")
  found (ok (obj ∷ objs)) (ok _) = ok obj

  abbrev finalized : Result (List ℕ) → Result (Unit {0}) × W → Result ℕ × W
  finalized objs (fin, w) = (found objs fin, w)

  unfoldable pub find_object_inited : ℕ → Result (Unit {0}) × W → Result ℕ × W
  find_object_inited sh (err e, w) = (err (Error.wrap "FindObjectsInit" e), w)
  find_object_inited sh (ok _, w) =
      let (objs, w') = p11.find_objects sh w in finalized objs (p11.find_objects_final sh w')

  unfoldable pub find_object : ℕ → ℕ → W → Result ℕ × W
  unfolding find_object_inited
  find_object sh cls w = find_object_inited sh (p11.find_objects_init sh cls w)
