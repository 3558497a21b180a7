-- ===== src/Std/Base64.antt =====
-- base64.StdEncoding, which internal/signer/pkipath.go writes the certificate path in: its encoder, and a
-- decoder that takes no line breaks.
use pje_headless.Base.{
  ℕ, ◌+◌, ◌-◌, ◌*◌, ◌/◌, ◌%◌, ◌<◌, ◌≡◌, refl, ◌&&◌, ltb, leb, ◌==◌, false, if◌then◌else◌, Option,
  none, some, List, [], ◌∷◌, Text, All, arith,
}
use pje_headless.Std.Sextets.{
  Byte, two, three, four, first, second, third, last_of_two, last_of_three, fourth, octet_a,
  octet_b, octet_c, octet_a_alone, octet_b_last,
}

-- The character of six bits.
unfoldable pub symbol : ℕ → ℕ
symbol v =
    if ltb v 26
    then b'A' + v
    else if ltb v 52
    then b'a' + (v - 26)
    else if ltb v 62
    then b'0' + (v - 52)
    else if v == 62
    then b'+'
    else b'/'

unfoldable pub encode : List ℕ → Text
unfolding symbol
encode [] = []
encode (a ∷ []) = symbol (a / 4) ∷ symbol (a % 4 * 16) ∷ b'=' ∷ b'=' ∷ []
encode (a ∷ b ∷ []) =
    symbol (a / 4) ∷ symbol (a % 4 * 16 + b / 16) ∷ symbol (b % 16 * 4) ∷ b'=' ∷ []
encode (a ∷ b ∷ c ∷ s) =
    symbol (a / 4)
    ∷ symbol (a % 4 * 16 + b / 16)
    ∷ symbol (b % 16 * 4 + c / 64)
    ∷ symbol (c % 64)
    ∷ encode s

unfoldable pub value : ℕ → Option ℕ
value c =
    if leb b'A' c && leb c b'Z'
    then some (c - b'A')
    else if leb b'a' c && leb c b'z'
    then some (c - b'a' + 26)
    else if leb b'0' c && leb c b'9'
    then some (c - b'0' + 52)
    else if c == b'+'
    then some 62
    else if c == b'/'
    then some 63
    else none

-- A quantum that may be padded.
abbrev padded : ℕ → ℕ → ℕ → ℕ → Option (List ℕ)
padded w x y z =
    if z == b'='
    then (if y == b'=' then two (value w) (value x) else three (value w) (value x) (value y))
    else four (value w) (value x) (value y) (value z) (some [])

unfoldable pub decode : Text → Option (List ℕ)
unfolding value
decode [] = some []
decode (w ∷ []) = none
decode (w ∷ x ∷ []) = none
decode (w ∷ x ∷ y ∷ []) = none
decode (w ∷ x ∷ y ∷ z ∷ []) = padded w x y z
decode (w ∷ x ∷ y ∷ z ∷ c ∷ s) = four (value w) (value x) (value y) (value z) (decode (c ∷ s))

value-symbol : (v : ℕ) → v < 64 → value (symbol v) ≡ some v
unfolding value symbol
value-symbol v h = ground arith

symbol-digit : (v : ℕ) → v < 64 → (symbol v == b'=') ≡ false
unfolding symbol
symbol-digit v h = ground arith

decode_quantum :
    (w x y z : ℕ) (s : Text)
    → (z == b'=') ≡ false
    → decode (w ∷ x ∷ y ∷ z ∷ s) ≡ four (value w) (value x) (value y) (value z) (decode s)
unfolding decode
decode_quantum w x y z [] h = rw h
decode_quantum w x y z (c ∷ s) h = refl

-- Encoded bytes decode to themselves.
pub decode-encode : (s : List ℕ) → All Byte s → decode (encode s) ≡ some s
unfolding decode encode
decode-encode [] h = refl
decode-encode (a ∷ []) h =
    rw (value-symbol _ (first a h.0), value-symbol _ (last_of_two a), octet_a_alone a)
decode-encode (a ∷ b ∷ []) h = rw (
  symbol-digit _ (last_of_three b),
  value-symbol _ (first a h.0),
  value-symbol _ (second a b h.1.0),
  value-symbol _ (last_of_three b),
  octet_a a b h.1.0,
  octet_b_last a b h.1.0,
)
decode-encode (a ∷ b ∷ c ∷ s) h = rw (
  decode_quantum _ _ _ _ (encode s) (symbol-digit _ (fourth c)),
  value-symbol _ (first a h.0),
  value-symbol _ (second a b h.1.0),
  value-symbol _ (third b c h.1.1.0),
  value-symbol _ (fourth c),
  decode-encode s h.1.1.1,
  octet_a a b h.1.0,
  octet_b a b c h.1.0 h.1.1.0,
  octet_c b c h.1.1.0,
)
