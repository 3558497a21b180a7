-- ===== src/Std/Base32/Reading.antt =====
-- Bytes written in base32 are read back.
use pje_headless.Base.{
  ℕ, ◌+◌, ◌*◌, ◌/◌, ◌%◌, ◌<◌, ◌≡◌, refl, ◌==◌, false, some, List, [], ◌∷◌, All, arith,
}
use pje_headless.Std.Sextets.{Byte}
use pje_headless.Std.Base32.{symbol, value, encode, decode}

value-symbol : (v : ℕ) → v < 32 → value (symbol v) ≡ some v
unfolding value symbol
value-symbol v h = ground arith

symbol-digit : (v : ℕ) → v < 32 → (symbol v == b'=') ≡ false
unfolding symbol
symbol-digit v h = ground arith

-- The bytes of a quantum, from its values; `_last` where the next byte is missing.
octet_first_last : (a : ℕ) → Byte a → (a / 8) * 8 + (a % 8 * 4) / 4 ≡ a
octet_first_last a ha = omega (arith, ha)

octet_first : (a b : ℕ) → Byte a → Byte b → (a / 8) * 8 + (a % 8 * 4 + b / 64) / 4 ≡ a
octet_first a b ha hb = omega (arith, ha, hb)

octet_second_last :
    (a b : ℕ)
    → Byte a
    → Byte b
    → (a % 8 * 4 + b / 64) % 4 * 64 + (b / 2 % 32) * 2 + (b % 2 * 16) / 16 ≡ b
octet_second_last a b ha hb = omega (arith, ha, hb)

octet_second :
    (a b c : ℕ)
    → Byte a
    → Byte b
    → Byte c
    → (a % 8 * 4 + b / 64) % 4 * 64 + (b / 2 % 32) * 2 + (b % 2 * 16 + c / 16) / 16 ≡ b
octet_second a b c ha hb hc = omega (arith, ha, hb, hc)

octet_third_last :
    (b c : ℕ) → Byte b → Byte c → (b % 2 * 16 + c / 16) % 16 * 16 + (c % 16 * 2) / 2 ≡ c
octet_third_last b c hb hc = omega (arith, hb, hc)

octet_third :
    (b c d : ℕ)
    → Byte b
    → Byte c
    → Byte d
    → (b % 2 * 16 + c / 16) % 16 * 16 + (c % 16 * 2 + d / 128) / 2 ≡ c
octet_third b c d hb hc hd = omega (arith, hb, hc, hd)

octet_fourth_last :
    (c d : ℕ)
    → Byte c
    → Byte d
    → (c % 16 * 2 + d / 128) % 2 * 128 + (d / 4 % 32) * 4 + (d % 4 * 8) / 8 ≡ d
octet_fourth_last c d hc hd = omega (arith, hc, hd)

octet_fourth :
    (c d e : ℕ)
    → Byte c
    → Byte d
    → Byte e
    → (c % 16 * 2 + d / 128) % 2 * 128 + (d / 4 % 32) * 4 + (d % 4 * 8 + e / 32) / 8 ≡ d
octet_fourth c d e hc hd he = omega (arith, hc, hd, he)

octet_fifth : (d e : ℕ) → Byte d → Byte e → (d % 4 * 8 + e / 32) % 8 * 32 + (e % 32) ≡ e
octet_fifth d e hd he = omega (arith, hd, he)

-- Encoded bytes decode to themselves.
pub decode-encode : (s : List ℕ) → All Byte s → decode (encode s) ≡ some s
unfolding decode encode
decode-encode [] h = refl
decode-encode (a ∷ []) h = rw (
  value-symbol (a / 8) (omega (arith, h.0)),
  value-symbol (a % 8 * 4) (omega (arith, h.0)),
  octet_first_last a h.0,
)
decode-encode (a ∷ b ∷ []) h = rw (
  symbol-digit (b % 2 * 16) (omega (arith, h.0, h.1.0)),
  value-symbol (a / 8) (omega (arith, h.0, h.1.0)),
  value-symbol (a % 8 * 4 + b / 64) (omega (arith, h.0, h.1.0)),
  value-symbol (b / 2 % 32) (omega (arith, h.0, h.1.0)),
  value-symbol (b % 2 * 16) (omega (arith, h.0, h.1.0)),
  octet_first a b h.0 h.1.0,
  octet_second_last a b h.0 h.1.0,
)
decode-encode (a ∷ b ∷ c ∷ []) h = rw (
  symbol-digit (c % 16 * 2) (omega (arith, h.0, h.1.0, h.1.1.0)),
  value-symbol (a / 8) (omega (arith, h.0, h.1.0, h.1.1.0)),
  value-symbol (a % 8 * 4 + b / 64) (omega (arith, h.0, h.1.0, h.1.1.0)),
  value-symbol (b / 2 % 32) (omega (arith, h.0, h.1.0, h.1.1.0)),
  value-symbol (b % 2 * 16 + c / 16) (omega (arith, h.0, h.1.0, h.1.1.0)),
  value-symbol (c % 16 * 2) (omega (arith, h.0, h.1.0, h.1.1.0)),
  octet_first a b h.0 h.1.0,
  octet_second a b c h.0 h.1.0 h.1.1.0,
  octet_third_last b c h.1.0 h.1.1.0,
)
decode-encode (a ∷ b ∷ c ∷ d ∷ []) h = rw (
  symbol-digit (d % 4 * 8) (omega (arith, h.0, h.1.0, h.1.1.0, h.1.1.1.0)),
  value-symbol (a / 8) (omega (arith, h.0, h.1.0, h.1.1.0, h.1.1.1.0)),
  value-symbol (a % 8 * 4 + b / 64) (omega (arith, h.0, h.1.0, h.1.1.0, h.1.1.1.0)),
  value-symbol (b / 2 % 32) (omega (arith, h.0, h.1.0, h.1.1.0, h.1.1.1.0)),
  value-symbol (b % 2 * 16 + c / 16) (omega (arith, h.0, h.1.0, h.1.1.0, h.1.1.1.0)),
  value-symbol (c % 16 * 2 + d / 128) (omega (arith, h.0, h.1.0, h.1.1.0, h.1.1.1.0)),
  value-symbol (d / 4 % 32) (omega (arith, h.0, h.1.0, h.1.1.0, h.1.1.1.0)),
  value-symbol (d % 4 * 8) (omega (arith, h.0, h.1.0, h.1.1.0, h.1.1.1.0)),
  octet_first a b h.0 h.1.0,
  octet_second a b c h.0 h.1.0 h.1.1.0,
  octet_third b c d h.1.0 h.1.1.0 h.1.1.1.0,
  octet_fourth_last c d h.1.1.0 h.1.1.1.0,
)
decode-encode (a ∷ b ∷ c ∷ d ∷ e ∷ s) h = rw (
  symbol-digit (e % 32) (omega (arith, h.0, h.1.0, h.1.1.0, h.1.1.1.0, h.1.1.1.1.0)),
  value-symbol (a / 8) (omega (arith, h.0, h.1.0, h.1.1.0, h.1.1.1.0, h.1.1.1.1.0)),
  value-symbol (a % 8 * 4 + b / 64) (omega (arith, h.0, h.1.0, h.1.1.0, h.1.1.1.0, h.1.1.1.1.0)),
  value-symbol (b / 2 % 32) (omega (arith, h.0, h.1.0, h.1.1.0, h.1.1.1.0, h.1.1.1.1.0)),
  value-symbol (b % 2 * 16 + c / 16) (omega (arith, h.0, h.1.0, h.1.1.0, h.1.1.1.0, h.1.1.1.1.0)),
  value-symbol (c % 16 * 2 + d / 128) (omega (arith, h.0, h.1.0, h.1.1.0, h.1.1.1.0, h.1.1.1.1.0)),
  value-symbol (d / 4 % 32) (omega (arith, h.0, h.1.0, h.1.1.0, h.1.1.1.0, h.1.1.1.1.0)),
  value-symbol (d % 4 * 8 + e / 32) (omega (arith, h.0, h.1.0, h.1.1.0, h.1.1.1.0, h.1.1.1.1.0)),
  value-symbol (e % 32) (omega (arith, h.0, h.1.0, h.1.1.0, h.1.1.1.0, h.1.1.1.1.0)),
  decode-encode s h.1.1.1.1.1,
  octet_first a b h.0 h.1.0,
  octet_second a b c h.0 h.1.0 h.1.1.0,
  octet_third b c d h.1.0 h.1.1.0 h.1.1.1.0,
  octet_fourth c d e h.1.1.0 h.1.1.1.0 h.1.1.1.1.0,
  octet_fifth d e h.1.1.1.0 h.1.1.1.1.0,
)
