-- ===== src/Std/Der.antt =====
-- asn1.Marshal of a slice of raw values, as internal/signer/pkipath.go calls it: a SEQUENCE whose elements
-- are written verbatim. A length is an int of Go, so eight bytes hold it.
pub mod Reading
use pje_headless.Base.{
  ℕ, zero, suc, ◌+◌, ◌-◌, ◌*◌, ◌/◌, ◌%◌, ◌==◌, ltb, leb, Bool, if◌then◌else◌, Option, none, some,
  List, [], ◌∷◌, ◌++◌, length, take, drop, Result, ok,
}
use mathlib.Core.Option

-- The bytes of a length, the most significant first and none of them a leading zero, before `rest`.
unfoldable pub big_endian : ℕ → ℕ → List ℕ → List ℕ
big_endian zero n rest = rest
big_endian (suc k) n rest =
    let more = big_endian k (n / 256) (n % 256 ∷ rest) in if n == 0 then rest else more

-- The short form, or the long form with these digits.
abbrev pub with_digits : ℕ → List ℕ → List ℕ
with_digits n digits = if ltb n 128 then n ∷ [] else (128 + length digits) ∷ digits

unfoldable pub length_bytes : ℕ → List ℕ
unfolding big_endian
length_bytes n = with_digits n (big_endian 8 n [])

-- A tag, the length of the contents, and the contents.
unfoldable pub tlv : ℕ → List ℕ → List ℕ
unfolding length_bytes
tlv tag contents = tag ∷ (length_bytes (length contents) ++ contents)

-- A raw value with no FullBytes is written as one of tag 0 with no contents.
unfoldable pub raw_value : List ℕ → List ℕ
raw_value [] = 0 ∷ 0 ∷ []
raw_value (b ∷ bytes) = b ∷ bytes

unfoldable pub concat_raw : List (List ℕ) → List ℕ
unfolding raw_value
concat_raw [] = []
concat_raw (v ∷ vs) = raw_value v ++ concat_raw vs

unfoldable pub marshal_sequence : List (List ℕ) → Result (List ℕ)
unfolding tlv concat_raw
marshal_sequence vs = ok (tlv 0x30 (concat_raw vs))

-- The number that bytes stand for, behind those that stand for `n`.
unfoldable pub number : ℕ → List ℕ → ℕ
number n [] = n
number n (b ∷ bytes) = number (n * 256 + b) bytes

-- A length, and what stands behind it.
abbrev pub long_form : ℕ → List ℕ → Option (ℕ × List ℕ)
long_form k s = if ltb (length s) k then none else some (number 0 (take k s), drop k s)

unfoldable pub read_length : List ℕ → Option (ℕ × List ℕ)
unfolding number
read_length [] = none
read_length (b ∷ s) = let long = long_form (b - 128) s in if ltb b 128 then some (b, s) else long

abbrev pub contents_of : Option (ℕ × List ℕ) → Option (List ℕ × List ℕ)
contents_of none = none
contents_of (some (n, s)) = if ltb (length s) n then none else some (take n s, drop n s)

-- The contents of a value whatever its tag, and what stands behind it.
unfoldable pub read_value : List ℕ → Option (List ℕ × List ℕ)
unfolding read_length
read_value [] = none
read_value (tag ∷ s) = contents_of (read_length s)

-- Values up to the end, each with its tag and length.
abbrev pub and_values :
    List ℕ → (List ℕ → Option (List (List ℕ))) → Option (List ℕ × List ℕ) → Option (List (List ℕ))
and_values s rest none = none
and_values s rest (some (contents, s')) = Option.map (◌∷◌ (take (length s - length s') s)) (rest s')

unfoldable pub read_values : ℕ → List ℕ → Option (List (List ℕ))
unfolding read_value
read_values fuel [] = some []
read_values zero (b ∷ s) = none
read_values (suc fuel) (b ∷ s) = and_values (b ∷ s) (λ s'. read_values fuel s') (read_value (b ∷ s))

-- The values of a SEQUENCE with nothing behind it.
abbrev pub whole : Option (List ℕ × List ℕ) → Option (List (List ℕ))
whole none = none
whole (some (contents, [])) = read_values (length contents) contents
whole (some (contents, b ∷ s)) = none

unfoldable pub read_sequence : List ℕ → Option (List (List ℕ))
unfolding read_value read_values
read_sequence [] = none
read_sequence (tag ∷ s) = if tag == 0x30 then whole (read_value (tag ∷ s)) else none
