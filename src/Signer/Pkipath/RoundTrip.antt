-- ===== src/Signer/Pkipath/RoundTrip.antt =====
-- PKIPathB64 with the encodings of the standard library, read back by a verifier.
use pje_headless.Base.{
  ℕ, zero, suc, ◌/◌, ◌%◌, ◌==◌, ltb, ◌≤◌, ◌≡◌, refl, ap, ◌∙◌, if_cases, Option, none, some, List,
  [], ◌∷◌, length, All, All-append, Text, ok, arith,
}
use pje_headless.Std.Sextets.{Byte}
use pje_headless.Std.Base64.{encode, decode, decode-encode}
use pje_headless.Std.Der.{
  big_endian, with_digits, length_bytes, tlv, raw_value, concat_raw, marshal_sequence,
  read_sequence,
}
use pje_headless.Std.Der.Reading.{IsValue, IsInt, length-big_endian, read_sequence-tlv}
use pje_headless.Signer.Pkipath.{pki_path_b64}

big_endian-Byte : (k n : ℕ) (rest : List ℕ) → All Byte rest → All Byte (big_endian k n rest)
unfolding big_endian
big_endian-Byte zero n rest h = h
big_endian-Byte (suc k) n rest h =
    if_cases (All Byte) (n == 0) _ _ (λ _. h)
      (λ _. big_endian-Byte k (n / 256) (n % 256 ∷ rest) (omega arith, h))

with_digits-Byte :
    (n : ℕ) (digits : List ℕ)
    → All Byte digits
    → length digits ≤ 8
    → All Byte (with_digits n digits)
with_digits-Byte n digits h few =
    if_cases (All Byte) (ltb n 128) _ _ (λ short. (ground (arith, short), tt))
      (λ _. (omega (arith, few), h))

tlv-Byte : (c : List ℕ) → All Byte c → All Byte (tlv 0x30 c)
unfolding tlv length_bytes
tlv-Byte c h =
    let digits = big_endian 8 (length c) [] in
    let few = length-big_endian 8 (length c) [] in
    (
      omega arith,
      All-append Byte (with_digits (length c) digits) c
          (with_digits-Byte (length c) digits (big_endian-Byte 8 (length c) [] tt)
            (omega (arith, few)))
          h,
    )

raw_value-Byte : (v : List ℕ) → All Byte v → All Byte (raw_value v)
unfolding raw_value
raw_value-Byte [] h = (omega arith, (omega arith, tt))
raw_value-Byte (b ∷ v) h = h

concat_raw-Byte : (vs : List (List ℕ)) → All (All Byte) vs → All Byte (concat_raw vs)
unfolding concat_raw
concat_raw-Byte [] h = tt
concat_raw-Byte (v ∷ vs) h =
    All-append Byte (raw_value v) (concat_raw vs) (raw_value-Byte v h.0) (concat_raw-Byte vs h.1)

-- What a verifier does with a PKIPath: the certificates, the leaf first.
abbrev values_of : Option (List ℕ) → Option (List (List ℕ))
values_of none = none
values_of (some der) = read_sequence der

abbrev pub certificates : Text → Option (List (List ℕ))
certificates path = values_of (decode path)

-- The path that PKIPathB64 gives, and what is read from it.
abbrev pub Readable : List ℕ → List (List ℕ) → Type 0
Readable leaf extra =
    (path : Text) × (pki_path_b64 marshal_sequence encode leaf extra ≡ ok path)
    × (certificates path ≡ some (leaf ∷ extra))

not_empty : (tag : ℕ) (c : List ℕ) → [] ≡ tlv tag c → ⊥
unfolding tlv
not_empty tag c h = cc

readable :
    (vs : List (List ℕ))
    → All IsValue vs
    → All (All Byte) vs
    → IsInt (length (concat_raw vs))
    → certificates (encode (tlv 0x30 (concat_raw vs))) ≡ some vs
readable vs values bytes small =
    ap values_of (decode-encode (tlv 0x30 (concat_raw vs)) (tlv-Byte _ (concat_raw-Byte vs bytes)))
    ∙ read_sequence-tlv vs values small

-- Where the leaf and the further certificates are DER values, and none of them nor all of them together
-- is longer than an int of Go says, PKIPathB64 succeeds, and whoever decodes its base64 and reads the
-- SEQUENCE finds exactly the leaf and then the further certificates, in their order.
pub pki_path_b64-Readable :
    (leaf : List ℕ) (extra : List (List ℕ))
    → All IsValue (leaf ∷ extra)
    → All (All Byte) (leaf ∷ extra)
    → IsInt (length (concat_raw (leaf ∷ extra)))
    → Readable leaf extra
unfolding pki_path_b64 marshal_sequence
pki_path_b64-Readable [] extra values bytes small =
    let (tag, c, e, n) = values.0 in absurd (not_empty tag c e)
pki_path_b64-Readable (b ∷ leaf) extra values bytes small = (
  encode (tlv 0x30 (concat_raw ((b ∷ leaf) ∷ extra))),
  refl,
  readable ((b ∷ leaf) ∷ extra) values bytes small,
)
