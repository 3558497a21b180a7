-- ===== src/GrpcLogin/Dated.antt =====
-- The expiry that clients of the LoginService read of a bearer that is a JWT.
use pje_headless.Base.{
  ℕ, ◌≡◌, ◌≢◌, ap, ◌∙◌, Option, some, List, ◌∷◌, ◌++◌, Text, codes, to_lower, All,
}
use pje_headless.Base.Int.{ℤ, pos}
use pje_headless.Clock.{Time, IsInt64}
use pje_headless.Std.Sextets.{Byte}
use pje_headless.Std.RawUrl.{encode, decode, decode-encode, encode_parts}
use pje_headless.LoginSvc.Jwt.{parse_bearer_exp}
use pje_headless.LoginSvc.Manager.{expiry}
use pje_headless.LoginSvc.Token.{parse_bearer_exp_jwt}
use pje_headless.GrpcLogin.{exp_unix}
use pje_headless.GrpcLogin.Reports.{zero_second, exp_unix-parse_payload}

-- A JWT in its compact form.
abbrev pub compact : List ℕ → List ℕ → List ℕ → Text
compact header payload sign = encode header ++ b'.' ∷ (encode payload ++ b'.' ∷ encode sign)

-- For a bearer that is a JWT behind the scheme, in any case, whose payload has an exp claim that is an
-- int64 other than 0 and the second of Go's zero time, the RPC reports exactly that claim, whatever
-- the time of the login.
pub exp_unix-compact :
    (exp_claim : Text → Option ℤ) (p : Text) (header payload sign : List ℕ) (exp : ℤ) (now : Time)
    → to_lower p ≡ codes "bearer "
    → All Byte header
    → All Byte payload
    → All Byte sign
    → exp_claim payload ≡ some exp
    → IsInt64 exp
    → exp ≢ pos 0
    → exp ≢ zero_second
    → exp_unix (
        expiry
          (parse_bearer_exp decode exp_claim)
          now
          (parse_bearer_exp decode exp_claim (p ++ compact header payload sign)))
      ≡ exp
exp_unix-compact exp_claim p header payload sign exp now scheme hh hp hs claim int nonzero dated =
    let (header_spaces, header_dots) = encode_parts header hh in
    let (payload_spaces, payload_dots) = encode_parts payload hp in
    let (sign_spaces, sign_dots) = encode_parts sign hs in
    let parsed =
      parse_bearer_exp_jwt decode exp_claim p (encode header) (encode payload) (encode sign) scheme
        header_dots payload_dots sign_dots header_spaces payload_spaces sign_spaces in
    let (t, read, reported) =
      exp_unix-parse_payload decode exp_claim (encode payload) payload exp
        (decode-encode payload hp) claim int nonzero dated in
    ap (λ o. exp_unix (expiry (parse_bearer_exp decode exp_claim) now o)) (parsed ∙ read) ∙ reported
