-- ===== src/Browser/Totp/Codes.antt =====
-- The codes of totpAt and TOTPNow.
use pje_headless.Base.{
  ℕ, zero, suc, ◌-◌, ◌/◌, ◌%◌, ◌^◌, ◌≤◌, ◌<◌, ◌≡◌, refl, Option, none, some, arith, List, [], ◌∷◌,
  length, drop, get_elem?, All, Text, is_empty, Result, ok, err, Bool-cases, inl, inr,
}
use pje_headless.Base.Int.{ℤ}
use pje_headless.Browser.Totp.{
  totp_at, totp_with_key, truncate, truncate_from, uint32, six_digits, higher_digits, format_code,
  counter_at, normalize_base32_secret, put_uint64,
}

-- Six decimal digits.
abbrev pub IsCode : Text → Type 0
IsCode s = (length s ≡ 6) × All (λ c. (48 ≤ c) × (c ≤ 57)) s

small_digits : (n : ℕ) → n < 1_000_000 → IsCode (six_digits n)
unfolding six_digits higher_digits
small_digits n h = let small : n / 1_000_000 ≡ 0 = omega arith in rw small (omega arith)

format_code-IsCode : (t : ℕ) → IsCode (format_code t)
unfolding format_code
format_code-IsCode t = small_digits (t % 1_000_000) (omega arith)

-- What totpAt gives: an error or a code, and no panic.
abbrev pub CodeOrError : Option (Result Text) → Type 0
CodeOrError none = ⊥
CodeOrError (some (err e)) = Unit
CodeOrError (some (ok code)) = IsCode code

uint32_total : (bs : List ℕ) → 4 ≤ length bs → (n : ℕ) × (uint32 bs ≡ some n)
unfolding uint32
uint32_total (a ∷ b ∷ c ∷ d ∷ bs) h = (_, refl)
uint32_total [] h = absurd (omega arith)
uint32_total (a ∷ []) h = absurd (omega arith)
uint32_total (a ∷ b ∷ []) h = absurd (omega arith)
uint32_total (a ∷ b ∷ c ∷ []) h = absurd (omega arith)

get_elem?_total : (bs : List ℕ) (i : ℕ) → i < length bs → (b : ℕ) × (get_elem? bs i ≡ some b)
get_elem?_total [] i h = absurd (omega arith)
get_elem?_total (b ∷ bs) zero h = (b, refl)
get_elem?_total (b ∷ bs) (suc i) h = get_elem?_total bs i (omega arith)

length-drop : (n : ℕ) (bs : List ℕ) → length (drop n bs) ≡ length bs - n
length-drop zero bs = omega arith
length-drop (suc n) [] = omega arith
length-drop (suc n) (b ∷ bs) = omega (arith, length-drop n bs)

-- The truncation reads four bytes of a digest of 20, wherever the last byte points.
truncate_total : (sum : List ℕ) → length sum ≡ 20 → (t : ℕ) × (truncate sum ≡ some t)
unfolding truncate
truncate_total sum h =
    let (last, e) = get_elem?_total sum (length sum - 1) (omega arith) in
    let (n, f) = uint32_total (drop (last % 16) sum) (omega (arith, length-drop (last % 16) sum)) in
    (n % 2 ^ 31, rw (e, truncate_from, f) refl)

module _ (decode : Text → Option (List ℕ)) (hmac : List ℕ → List ℕ → List ℕ)
    (digest : (key message : List ℕ) → length (hmac key message) ≡ 20) where
  totp_with_key-CodeOrError :
      (key : Option (List ℕ)) (at_unix : ℤ) → CodeOrError (totp_with_key decode hmac key at_unix)
  unfolding totp_with_key
  totp_with_key-CodeOrError none at_unix = tt
  totp_with_key-CodeOrError (some []) at_unix = tt
  totp_with_key-CodeOrError (some (k ∷ key)) at_unix =
      let (t, e) = truncate_total _ (digest (k ∷ key) (put_uint64 (counter_at at_unix))) in
      rw e (format_code-IsCode t)

  -- With digests of 20 bytes totpAt never panics, and each code has exactly six decimal digits.
  pub totp_at-CodeOrError :
      (secret : Text) (at_unix : ℤ) → CodeOrError (totp_at decode hmac secret at_unix)
  unfolding totp_at
  totp_at-CodeOrError secret at_unix =
      elim (Bool-cases (is_empty (normalize_base32_secret secret))) [
        | inl e ↦ rw e tt
        | inr e ↦ rw e (totp_with_key-CodeOrError _ at_unix)
      ]
