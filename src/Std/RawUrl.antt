-- ===== src/Std/RawUrl.antt =====
-- base64.RawURLEncoding, which internal/loginsvc/jwt.go decodes the payload of a JWT with: a decoder that
-- takes no line breaks, and the encoder that an issuer uses.
use pje_headless.Base.{
  ℕ, ◌+◌, ◌-◌, ◌*◌, ◌/◌, ◌%◌, ◌<◌, ◌≡◌, refl, ◌&&◌, ltb, leb, ◌==◌, false, if◌then◌else◌, Option,
  none, some, List, [], ◌∷◌, Text, All, arith, is_space, NoSpace, Lacks,
}
use pje_headless.Std.Sextets.{
  Byte, two, three, four, first, second, third, last_of_two, last_of_three, fourth, octet_a,
  octet_b, octet_c, octet_a_alone, octet_b_last,
}

-- The character of six bits.
unfoldable pub symbol : ℕ → ℕ
symbol v =
    if ltb v 26
    then b'A' + v
    else if ltb v 52
    then b'a' + (v - 26)
    else if ltb v 62
    then b'0' + (v - 52)
    else if v == 62
    then b'-'
    else b'_'

unfoldable pub encode : List ℕ → Text
unfolding symbol
encode [] = []
encode (a ∷ []) = symbol (a / 4) ∷ symbol (a % 4 * 16) ∷ []
encode (a ∷ b ∷ []) = symbol (a / 4) ∷ symbol (a % 4 * 16 + b / 16) ∷ symbol (b % 16 * 4) ∷ []
encode (a ∷ b ∷ c ∷ s) =
    symbol (a / 4)
    ∷ symbol (a % 4 * 16 + b / 16)
    ∷ symbol (b % 16 * 4 + c / 64)
    ∷ symbol (c % 64)
    ∷ encode s

unfoldable pub value : ℕ → Option ℕ
value c =
    if leb b'A' c && leb c b'Z'
    then some (c - b'A')
    else if leb b'a' c && leb c b'z'
    then some (c - b'a' + 26)
    else if leb b'0' c && leb c b'9'
    then some (c - b'0' + 52)
    else if c == b'-'
    then some 62
    else if c == b'_'
    then some 63
    else none

unfoldable pub decode : Text → Option (List ℕ)
unfolding value
decode [] = some []
decode (w ∷ []) = none
decode (w ∷ x ∷ []) = two (value w) (value x)
decode (w ∷ x ∷ y ∷ []) = three (value w) (value x) (value y)
decode (w ∷ x ∷ y ∷ z ∷ s) = four (value w) (value x) (value y) (value z) (decode s)

value-symbol : (v : ℕ) → v < 64 → value (symbol v) ≡ some v
unfolding value symbol
value-symbol v h = ground arith

-- Encoded bytes decode to themselves.
pub decode-encode : (s : List ℕ) → All Byte s → decode (encode s) ≡ some s
unfolding decode encode
decode-encode [] h = refl
decode-encode (a ∷ []) h =
    rw (value-symbol _ (first a h.0), value-symbol _ (last_of_two a), octet_a_alone a)
decode-encode (a ∷ b ∷ []) h = rw (
  value-symbol _ (first a h.0),
  value-symbol _ (second a b h.1.0),
  value-symbol _ (last_of_three b),
  octet_a a b h.1.0,
  octet_b_last a b h.1.0,
)
decode-encode (a ∷ b ∷ c ∷ s) h = rw (
  value-symbol _ (first a h.0),
  value-symbol _ (second a b h.1.0),
  value-symbol _ (third b c h.1.1.0),
  value-symbol _ (fourth c),
  decode-encode s h.1.1.1,
  octet_a a b h.1.0,
  octet_b a b c h.1.0 h.1.1.0,
  octet_c b c h.1.1.0,
)

symbol-plain : (v : ℕ) → v < 64 → (is_space (symbol v) ≡ false) × ((symbol v == b'.') ≡ false)
unfolding symbol is_space
symbol-plain v h = ground arith

-- A text with no white space and no dot.
abbrev Plain : Text → Type 0
Plain = All (λ c. (is_space c ≡ false) × ((c == b'.') ≡ false))

encode-Plain : (s : List ℕ) → All Byte s → Plain (encode s)
unfolding encode
encode-Plain [] h = tt
encode-Plain (a ∷ []) h = (symbol-plain _ (first a h.0), (symbol-plain _ (last_of_two a), tt))
encode-Plain (a ∷ b ∷ []) h = (
  symbol-plain _ (first a h.0),
  (symbol-plain _ (second a b h.1.0), (symbol-plain _ (last_of_three b), tt)),
)
encode-Plain (a ∷ b ∷ c ∷ s) h = (
  symbol-plain _ (first a h.0),
  (
    symbol-plain _ (second a b h.1.0),
    (symbol-plain _ (third b c h.1.1.0), (symbol-plain _ (fourth c), encode-Plain s h.1.1.1)),
  ),
)

plainly : (t : Text) → Plain t → NoSpace t × Lacks b'.' t
plainly [] h = (tt, tt)
plainly (c ∷ t) h = let (spaces, dots) = plainly t h.1 in ((h.0.0, spaces), (h.0.1, dots))

-- Encoded bytes hold no white space and no dot.
pub encode_parts : (s : List ℕ) → All Byte s → NoSpace (encode s) × Lacks b'.' (encode s)
encode_parts s h = plainly (encode s) (encode-Plain s h)
