-- ===== src/Std/Base32.antt =====
-- base32.StdEncoding, which internal/browser/totp_enroll.go makes the secret of an enrollment with and
-- internal/browser/totp.go takes it apart with. The decoder takes no line breaks.
pub mod Reading
use pje_headless.Base.{
  ℕ, ◌+◌, ◌-◌, ◌*◌, ◌/◌, ◌%◌, ◌<◌, ◌≡◌, refl, ◌&&◌, ltb, leb, ◌==◌, false, if◌then◌else◌, Option,
  none, some, List, [], ◌∷◌, Text, is_empty, All, arith,
}

-- The character of five bits.
unfoldable pub symbol : ℕ → ℕ
symbol v = if ltb v 26 then b'A' + v else b'2' + (v - 26)

unfoldable pub encode : List ℕ → Text
unfolding symbol
encode [] = []
encode (a ∷ []) = symbol (a / 8) ∷ symbol (a % 8 * 4) ∷ b'=' ∷ b'=' ∷ b'=' ∷ b'=' ∷ b'=' ∷ b'=' ∷ []
encode (a ∷ b ∷ []) =
    symbol (a / 8)
    ∷ symbol (a % 8 * 4 + b / 64)
    ∷ symbol (b / 2 % 32)
    ∷ symbol (b % 2 * 16)
    ∷ b'='
    ∷ b'='
    ∷ b'='
    ∷ b'='
    ∷ []
encode (a ∷ b ∷ c ∷ []) =
    symbol (a / 8)
    ∷ symbol (a % 8 * 4 + b / 64)
    ∷ symbol (b / 2 % 32)
    ∷ symbol (b % 2 * 16 + c / 16)
    ∷ symbol (c % 16 * 2)
    ∷ b'='
    ∷ b'='
    ∷ b'='
    ∷ []
encode (a ∷ b ∷ c ∷ d ∷ []) =
    symbol (a / 8)
    ∷ symbol (a % 8 * 4 + b / 64)
    ∷ symbol (b / 2 % 32)
    ∷ symbol (b % 2 * 16 + c / 16)
    ∷ symbol (c % 16 * 2 + d / 128)
    ∷ symbol (d / 4 % 32)
    ∷ symbol (d % 4 * 8)
    ∷ b'='
    ∷ []
encode (a ∷ b ∷ c ∷ d ∷ e ∷ s) =
    symbol (a / 8)
    ∷ symbol (a % 8 * 4 + b / 64)
    ∷ symbol (b / 2 % 32)
    ∷ symbol (b % 2 * 16 + c / 16)
    ∷ symbol (c % 16 * 2 + d / 128)
    ∷ symbol (d / 4 % 32)
    ∷ symbol (d % 4 * 8 + e / 32)
    ∷ symbol (e % 32)
    ∷ encode s

unfoldable pub value : ℕ → Option ℕ
value c =
    if leb b'A' c && leb c b'Z'
    then some (c - b'A')
    else if leb b'2' c && leb c b'7'
    then some (c - b'2' + 26)
    else none

abbrev one : Option ℕ → Option ℕ → Option (List ℕ)
one (some p) (some q) = some ((p * 8 + q / 4) ∷ [])
one _ _ = none

abbrev two : Option ℕ → Option ℕ → Option ℕ → Option ℕ → Option (List ℕ)
two (some p) (some q) (some r) (some t) =
    some ((p * 8 + q / 4) ∷ (q % 4 * 64 + r * 2 + t / 16) ∷ [])
two _ _ _ _ = none

abbrev three : Option ℕ → Option ℕ → Option ℕ → Option ℕ → Option ℕ → Option (List ℕ)
three (some p) (some q) (some r) (some t) (some u) =
    some ((p * 8 + q / 4) ∷ (q % 4 * 64 + r * 2 + t / 16) ∷ (t % 16 * 16 + u / 2) ∷ [])
three _ _ _ _ _ = none

abbrev four :
    Option ℕ → Option ℕ → Option ℕ → Option ℕ → Option ℕ → Option ℕ → Option ℕ → Option (List ℕ)
four (some p) (some q) (some r) (some t) (some u) (some v) (some w) = some (
    (p * 8 + q / 4)
    ∷ (q % 4 * 64 + r * 2 + t / 16)
    ∷ (t % 16 * 16 + u / 2)
    ∷ (u % 2 * 128 + v * 4 + w / 8)
    ∷ [])
four _ _ _ _ _ _ _ = none

abbrev five :
    Option ℕ
    → Option ℕ
    → Option ℕ
    → Option ℕ
    → Option ℕ
    → Option ℕ
    → Option ℕ
    → Option ℕ
    → Option (List ℕ)
    → Option (List ℕ)
five (some p) (some q) (some r) (some t) (some u) (some v) (some w) (some x) (some rest) = some (
    (p * 8 + q / 4)
    ∷ (q % 4 * 64 + r * 2 + t / 16)
    ∷ (t % 16 * 16 + u / 2)
    ∷ (u % 2 * 128 + v * 4 + w / 8)
    ∷ (w % 8 * 32 + x)
    ∷ rest)
five _ _ _ _ _ _ _ _ _ = none

-- A quantum that is padded.
abbrev padded : ℕ → ℕ → ℕ → ℕ → ℕ → ℕ → ℕ → Option (List ℕ)
padded p q r t u v w =
    if w == b'='
    then (if v == b'='
        then (if u == b'='
            then (if t == b'='
                then (if r == b'=' then one (value p) (value q) else none)
                else two (value p) (value q) (value r) (value t))
            else three (value p) (value q) (value r) (value t) (value u))
        else none)
    else four (value p) (value q) (value r) (value t) (value u) (value v) (value w)

abbrev quantum : ℕ → ℕ → ℕ → ℕ → ℕ → ℕ → ℕ → ℕ → Text → Option (List ℕ) → Option (List ℕ)
quantum p q r t u v w x s rest =
    let last = padded p q r t u v w in
    let full =
      five (value p) (value q) (value r) (value t) (value u) (value v) (value w) (value x) rest in
    if x == b'=' then (if is_empty s then last else none) else full

unfoldable pub decode : Text → Option (List ℕ)
unfolding value
decode [] = some []
decode (p ∷ q ∷ r ∷ t ∷ u ∷ v ∷ w ∷ x ∷ s) = quantum p q r t u v w x s (decode s)
decode _ = none
