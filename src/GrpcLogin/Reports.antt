-- ===== src/GrpcLogin/Reports.antt =====
-- The expiry that clients of the LoginService read.
use pje_headless.Base.{
  ℕ, ◌+◌, ◌-◌, ◌^◌, ◌<◌, ◌≡◌, ◌≢◌, Option, none, some, Bool-cases, inl, inr, arith, Text,
}
use pje_headless.Base.Int.{ℤ, pos, negsuc, ◌+ℤ◌}
use pje_headless.Clock.{
  Time, IsInt64, is_zero, from_unix, unix, unix-from_unix, is_zero-from_unix, unix_to_internal,
  second,
}
use pje_headless.LoginSvc.Jwt.{parse_payload}
use pje_headless.LoginSvc.Manager.{expiry}
use pje_headless.GrpcLogin.{exp_unix}

-- The second before the Unix epoch at which Go's zero time stands.
abbrev pub zero_second : ℤ
zero_second = negsuc (unix_to_internal - 1)

exp_unix-from_unix : (exp : ℤ) → IsInt64 exp → exp ≢ zero_second → exp_unix (from_unix exp) ≡ exp
unfolding exp_unix
exp_unix-from_unix exp h ne = elim (Bool-cases (is_zero (from_unix exp))) [
  | inl z ↦ absurd (ne (is_zero-from_unix exp h z))
  | inr nz ↦ rw nz (unix-from_unix exp h)
]

-- A payload whose exp claim is an int64 other than 0 and the second of the zero time dates the
-- bearer, and the RPC reports exactly that claim.
pub exp_unix-parse_payload :
    (decode : Text → Option Text) (exp_claim : Text → Option ℤ) (part bytes : Text) (exp : ℤ)
    → decode part ≡ some bytes
    → exp_claim bytes ≡ some exp
    → IsInt64 exp
    → exp ≢ pos 0
    → exp ≢ zero_second
    → (t : Time) × (parse_payload decode exp_claim (decode part) ≡ some t) × (exp_unix t ≡ exp)
unfolding parse_payload
exp_unix-parse_payload decode exp_claim part bytes exp d c h nz ne =
    (from_unix exp, rw (d, c) (ground (arith, nz)), exp_unix-from_unix exp h ne)

-- For a bearer whose expiry cannot be parsed the RPC reports the second 300 s after that of
-- the login, and not the 0 that the contract has for an unknown expiry, at a login time from 1970 on, with
-- any number of nanoseconds.
pub exp_unix-undated :
    (parse : Text → Option Time) (b : Text) (sec ns : ℕ)
    → sec < 2 ^ 62
    → ns < second
    → parse b ≡ none
    → exp_unix (expiry parse (from_unix (pos sec) +ℤ pos ns) (parse b)) ≡ pos (sec + 300)
unfolding exp_unix is_zero unix from_unix ◌+ℤ◌
exp_unix-undated parse b sec ns h small bad = rw bad (ground arith)
