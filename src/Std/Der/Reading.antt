-- ===== src/Std/Der/Reading.antt =====
-- What `Der` writes is read back.
use mathlib.Core.Option
use mathlib.Core.List.{append_assoc, append-nil}
use pje_headless.Base.{
  ℕ, zero, suc, ◌+◌, ◌-◌, ◌*◌, ◌/◌, ◌%◌, ◌^◌, ◌<◌, ◌≤◌, ◌≡◌, refl, sym, ap, ◌∙◌, ◌==◌, ltb, true,
  false, Bool-cases, inl, inr, some, List, [], ◌∷◌, ◌++◌, length, take, drop-append, length-append,
  All, arith,
}
use pje_headless.Std.Der.{
  whole, big_endian, with_digits, length_bytes, long_form, tlv, raw_value, concat_raw, number,
  read_length, contents_of, read_value, and_values, read_values, read_sequence,
}

take-append : (p s : List ℕ) → take (length p) (p ++ s) ≡ p
take-append [] s = refl
take-append (c ∷ p) s = ap (◌∷◌ c) (take-append p s)

below_one : (n : ℕ) → n < 1 → 0 ≡ n
below_one n h = omega (arith, h)

is_zero : (n : ℕ) → (n == 0) ≡ true → 0 ≡ n
is_zero n h = ground arith

shifted : (n p : ℕ) → n < p * 256 → n / 256 < p
shifted n p h = omega (arith, h)

joined : (n : ℕ) → n / 256 * 256 + n % 256 ≡ n
joined n = omega arith

number-big_endian :
    (k n : ℕ) (rest : List ℕ) → n < 256 ^ k → number 0 (big_endian k n rest) ≡ number n rest
unfolding big_endian number
number-big_endian zero n rest h = ap (λ m. number m rest) (below_one n h)
number-big_endian (suc k) n rest h = elim (Bool-cases (n == 0)) [
  | inl z ↦ rw z (ap (λ m. number m rest) (is_zero n z))
  | inr nz ↦ rw nz (
      number-big_endian k (n / 256) (n % 256 ∷ rest) (shifted n (256 ^ k) (omega (arith, h)))
      ∙ ap (λ m. number m rest) (joined n))
]

pub length-big_endian : (k n : ℕ) (rest : List ℕ) → length (big_endian k n rest) ≤ k + length rest
unfolding big_endian
length-big_endian zero n rest = omega arith
length-big_endian (suc k) n rest = ground (arith, length-big_endian k (n / 256) (n % 256 ∷ rest))

fits : (d k : ℕ) → ltb (d + k) d ≡ false
fits d k = ground arith

high : (d : ℕ) → ltb (128 + d) 128 ≡ false
high d = ground arith

low : (d : ℕ) → 128 + d - 128 ≡ d
low d = omega arith

-- The length of a slice: an int of Go is below 2 ^ 63.
abbrev pub IsInt : ℕ → Type 0
IsInt n = n < 2 ^ 63

long_form-digits :
    (n : ℕ) (digits s : List ℕ)
    → number 0 digits ≡ n
    → long_form (length digits) (digits ++ s) ≡ some (n, s)
long_form-digits n digits s e = rw (
  length-append digits s,
  fits (length digits) (length s),
  take-append digits s,
  drop-append digits s,
  e,
)

read_length-with_digits :
    (n : ℕ) (digits s : List ℕ)
    → number 0 digits ≡ n
    → read_length (with_digits n digits ++ s) ≡ some (n, s)
unfolding read_length
read_length-with_digits n digits s e = elim (Bool-cases (ltb n 128)) [
  | inl short ↦ rw (short, short)
  | inr long ↦ rw (long, high (length digits), low (length digits)) (long_form-digits n digits s e)
]

read_length-length_bytes :
    (n : ℕ) (s : List ℕ) → IsInt n → read_length (length_bytes n ++ s) ≡ some (n, s)
unfolding length_bytes number
read_length-length_bytes n s h =
    read_length-with_digits n (big_endian 8 n []) s (number-big_endian 8 n [] (omega (arith, h)))

contents_of-append : (c s : List ℕ) → contents_of (some (length c, c ++ s)) ≡ some (c, s)
contents_of-append c s =
    rw (length-append c s, fits (length c) (length s), take-append c s, drop-append c s)

read_value-tlv :
    (tag : ℕ) (c s : List ℕ) → IsInt (length c) → read_value (tlv tag c ++ s) ≡ some (c, s)
unfolding read_value tlv
read_value-tlv tag c s h =
    ap (λ t. contents_of (read_length t)) (append_assoc (length_bytes (length c)) c s)
    ∙ ap contents_of (read_length-length_bytes (length c) (c ++ s) h)
    ∙ contents_of-append c s

no_values : (fuel : ℕ) → read_values fuel [] ≡ some []
unfolding read_values
no_values zero = refl
no_values (suc fuel) = refl

-- A DER value: a tag, the length of the contents, the contents.
abbrev pub IsValue : List ℕ → Type 0
IsValue v = (tag : ℕ) × (c : List ℕ) × (v ≡ tlv tag c) × IsInt (length c)

taken : (t s : List ℕ) → take (length (t ++ s) - length s) (t ++ s) ≡ t
taken t s =
    let n : length (t ++ s) - length s ≡ length t = omega (arith, length-append t s) in
    ap (λ k. take k (t ++ s)) n ∙ take-append t s

-- One value, at the head of a text.
head_value :
    (b : ℕ) (t c s : List ℕ) (fuel : ℕ)
    → read_value ((b ∷ t) ++ s) ≡ some (c, s)
    → read_values (suc fuel) ((b ∷ t) ++ s) ≡ Option.map (◌∷◌ (b ∷ t)) (read_values fuel s)
unfolding read_values
head_value b t c s fuel h =
    ap (and_values ((b ∷ t) ++ s) (λ s'. read_values fuel s')) h
    ∙ ap (λ x. Option.map (◌∷◌ x) (read_values fuel s)) (taken (b ∷ t) s)

head_tlv :
    (tag : ℕ) (c s : List ℕ) (fuel : ℕ)
    → IsInt (length c)
    → read_values (suc fuel) (raw_value (tlv tag c) ++ s)
      ≡ Option.map (◌∷◌ (tlv tag c)) (read_values fuel s)
unfolding tlv raw_value
head_tlv tag c s fuel h =
    head_value tag (length_bytes (length c) ++ c) c s fuel (read_value-tlv tag c s h)

read_values-concat_raw :
    (vs : List (List ℕ)) (fuel : ℕ)
    → All IsValue vs
    → length vs ≤ fuel
    → read_values fuel (concat_raw vs) ≡ some vs
unfolding concat_raw
read_values-concat_raw [] fuel h le = no_values fuel
read_values-concat_raw (v ∷ vs) zero h le = absurd (omega (arith, le))
read_values-concat_raw (v ∷ vs) (suc fuel) h le =
    let (tag, c, e, small) = h.0 in
    let rest = read_values-concat_raw vs fuel h.1 (omega (arith, le)) in
    rw e (head_tlv tag c (concat_raw vs) fuel small ∙ ap (Option.map (◌∷◌ (tlv tag c))) rest)

-- Every value has a byte at least.
length-concat_raw : (vs : List (List ℕ)) → length vs ≤ length (concat_raw vs)
unfolding concat_raw raw_value
length-concat_raw [] = omega arith
length-concat_raw ([] ∷ vs) = omega (arith, length-concat_raw vs)
length-concat_raw ((b ∷ v) ∷ vs) =
    omega (arith, length-append v (concat_raw vs), length-concat_raw vs)

whole_value : (tag : ℕ) (c : List ℕ) → IsInt (length c) → read_value (tlv tag c) ≡ some (c, [])
whole_value tag c h = ap read_value (sym (append-nil (tlv tag c))) ∙ read_value-tlv tag c [] h

-- The SEQUENCE that is written of values, where none is longer than an int can say, is read as those values.
pub read_sequence-tlv :
    (vs : List (List ℕ))
    → All IsValue vs
    → IsInt (length (concat_raw vs))
    → read_sequence (tlv 0x30 (concat_raw vs)) ≡ some vs
unfolding read_sequence tlv
read_sequence-tlv vs h small =
    ap whole (whole_value 0x30 (concat_raw vs) small)
    ∙ read_values-concat_raw vs (length (concat_raw vs)) h (length-concat_raw vs)
