-- ===== src/Std/Sextets.antt =====
-- Three bytes as four values of six bits, which both base64 alphabets write.
use pje_headless.Base.{ℕ, ◌+◌, ◌*◌, ◌/◌, ◌%◌, ◌<◌, ◌≡◌, Option, none, some, List, [], ◌∷◌, arith}

abbrev pub Byte : ℕ → Type 0
Byte b = b < 256

-- The bytes of a quantum of two, three or four values.
abbrev pub two : Option ℕ → Option ℕ → Option (List ℕ)
two (some w) (some x) = some ((w * 4 + x / 16) ∷ [])
two _ _ = none

abbrev pub three : Option ℕ → Option ℕ → Option ℕ → Option (List ℕ)
three (some w) (some x) (some y) = some ((w * 4 + x / 16) ∷ (x % 16 * 16 + y / 4) ∷ [])
three _ _ _ = none

abbrev pub four : Option ℕ → Option ℕ → Option ℕ → Option ℕ → Option (List ℕ) → Option (List ℕ)
four (some w) (some x) (some y) (some z) (some rest) =
    some ((w * 4 + x / 16) ∷ (x % 16 * 16 + y / 4) ∷ (y % 4 * 64 + z) ∷ rest)
four _ _ _ _ _ = none

-- The values of a quantum, which are below 64, and the bytes that they hold.
pub first : (a : ℕ) → Byte a → a / 4 < 64
first a h = omega (arith, h)

pub second : (a b : ℕ) → Byte b → a % 4 * 16 + b / 16 < 64
second a b h = omega (arith, h)

pub third : (b c : ℕ) → Byte c → b % 16 * 4 + c / 64 < 64
third b c h = omega (arith, h)

pub last_of_two : (a : ℕ) → a % 4 * 16 < 64
last_of_two a = omega arith

pub last_of_three : (b : ℕ) → b % 16 * 4 < 64
last_of_three b = omega arith

pub fourth : (c : ℕ) → c % 64 < 64
fourth c = omega arith

pub octet_a : (a b : ℕ) → Byte b → a / 4 * 4 + (a % 4 * 16 + b / 16) / 16 ≡ a
octet_a a b h = omega (arith, h)

pub octet_b :
    (a b c : ℕ) → Byte b → Byte c → (a % 4 * 16 + b / 16) % 16 * 16 + (b % 16 * 4 + c / 64) / 4 ≡ b
octet_b a b c h i = omega (arith, h, i)

pub octet_c : (b c : ℕ) → Byte c → (b % 16 * 4 + c / 64) % 4 * 64 + c % 64 ≡ c
octet_c b c h = omega (arith, h)

pub octet_a_alone : (a : ℕ) → a / 4 * 4 + a % 4 * 16 / 16 ≡ a
octet_a_alone a = omega arith

pub octet_b_last : (a b : ℕ) → Byte b → (a % 4 * 16 + b / 16) % 16 * 16 + b % 16 * 4 / 4 ≡ b
octet_b_last a b h = omega (arith, h)
