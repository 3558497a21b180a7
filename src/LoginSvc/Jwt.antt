-- ===== src/LoginSvc/Jwt.antt =====
-- jwt.go. The base64url decoder and the JSON decoder are parameters: `decode` is
-- base64.RawURLEncoding.DecodeString, and `exp_claim` is the field Exp after json.Unmarshal into the
-- struct (0 where the document has no exp), or nothing on an error.
use pje_headless.Base.{
  Option, none, some, List, [], ◌∷◌, Bool, false, if◌then◌else◌, Text, codes, has_prefix, to_lower,
  trim_space, split, drop, ◌==◌,
}
use pje_headless.Base.Int.{ℤ, pos, negsuc}
use pje_headless.Clock.{Time, from_unix}

-- The text without its scheme and the white space around it.
unfoldable pub strip_scheme : Text → Text
strip_scheme bearer =
    trim_space (if has_prefix (to_lower bearer) (codes "bearer ") then drop 7 bearer else bearer)

-- The second of exactly three parts.
unfoldable pub payload_part : List Text → Option Text
payload_part (h ∷ p ∷ s ∷ []) = some p
payload_part _ = none

unfoldable pub is_zero_exp : ℤ → Bool
is_zero_exp (pos n) = n == 0
is_zero_exp (negsuc n) = false

module _ (decode : Text → Option Text) (exp_claim : Text → Option ℤ) where
  unfoldable pub parse_claims : Option ℤ → Option Time
  unfolding is_zero_exp
  parse_claims none = none
  parse_claims (some exp) = if is_zero_exp exp then none else some (from_unix exp)

  unfoldable pub parse_payload : Option Text → Option Time
  unfolding parse_claims
  parse_payload none = none
  parse_payload (some bytes) = parse_claims (exp_claim bytes)

  unfoldable pub parse_part : Option Text → Option Time
  unfolding parse_payload
  parse_part none = none
  parse_part (some part) = parse_payload (decode part)

  unfoldable pub parse_bearer_exp : Text → Option Time
  unfolding strip_scheme payload_part parse_part
  parse_bearer_exp bearer = parse_part (payload_part (split b'.' (strip_scheme bearer)))
