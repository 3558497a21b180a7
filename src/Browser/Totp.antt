-- ===== src/Browser/Totp.antt =====
-- totp.go. The base32 decoder and HMAC-SHA1 are parameters: `decode` is
-- base32.StdEncoding.DecodeString, nothing on an error, and `hmac` takes the key and the message.
-- The letters outside ASCII that ToUpper takes into ASCII are the two that `upper` names; the others
-- stay outside the base32 alphabet, whatever becomes of them.
pub mod Secret
pub mod Base32
pub mod Codes
use mathlib.Core.Option
use pje_headless.Base.{
  ℕ, zero, suc, ◌+◌, ◌-◌, ◌*◌, ◌/◌, ◌%◌, ◌^◌, Option, none, some, Bool, true, false, ◌||◌, ◌&&◌,
  ◌==◌, leb, ltb, if◌then◌else◌, List, [], ◌∷◌, ◌++◌, map, length, replicate, get_elem?, drop, Text,
  is_empty, Result, ok, err, Error,
}
use pje_headless.Base.Int.{ℤ, pos, negsuc}

abbrev pub totp_step : ℕ
totp_step = 30

-- The bytes of a character in UTF-8, and of a text: len(s).
unfoldable pub utf8_len : ℕ → ℕ
utf8_len c = if ltb c 0x80 then 1 else if ltb c 0x800 then 2 else if ltb c 0x1_0000 then 3 else 4

unfoldable pub byte_len : Text → ℕ
byte_len [] = 0
byte_len (c ∷ s) = utf8_len c + byte_len s

unfoldable pub is_blank : ℕ → Bool
is_blank c = c == 32 || c == 9 || c == 10 || c == 13

unfoldable pub drop_blanks : Text → Text
drop_blanks [] = []
drop_blanks (c ∷ s) = let rest = drop_blanks s in if is_blank c then rest else c ∷ rest

unfoldable pub upper : ℕ → ℕ
upper c =
    if leb b'a' c && leb c b'z'
    then c - 32
    else if c == 0x131
    then b'I'
    else if c == 0x17f
    then b'S'
    else c

-- Right-pad with `=` to a multiple of 8 bytes.
unfoldable pub pad : Text → Text
pad s = if byte_len s % 8 == 0 then s else s ++ replicate (8 - byte_len s % 8) b'='

unfoldable pub normalize_base32_secret : Text → Text
unfolding pad
normalize_base32_secret secret =
    let s = map upper (drop_blanks secret) in if is_empty s then [] else pad s

-- uint64(z) of an int64.
unfoldable pub to_uint64 : ℤ → ℕ
to_uint64 (pos n) = n
to_uint64 (negsuc n) = 2 ^ 64 - suc n

-- binary.BigEndian.PutUint64
unfoldable pub put_uint64 : ℕ → List ℕ
put_uint64 n =
    n / 2 ^ 56 % 256
    ∷ n / 2 ^ 48 % 256
    ∷ n / 2 ^ 40 % 256
    ∷ n / 2 ^ 32 % 256
    ∷ n / 2 ^ 24 % 256
    ∷ n / 2 ^ 16 % 256
    ∷ n / 2 ^ 8 % 256
    ∷ n % 256
    ∷ []

-- binary.BigEndian.Uint32 of the first four bytes; nothing where there are fewer, which panics.
unfoldable pub uint32 : List ℕ → Option ℕ
uint32 (a ∷ b ∷ c ∷ d ∷ bs) = some (a * 2 ^ 24 + b * 2 ^ 16 + c * 2 ^ 8 + d)
uint32 _ = none

-- The dynamic truncation: `& 0x0f` is `% 16`, and `& 0x7fffffff` is `% 2 ^ 31`.
unfoldable pub truncate_from : List ℕ → Option ℕ → Option ℕ
truncate_from sum none = none
truncate_from sum (some last) = Option.map (λ t. t % 2 ^ 31) (uint32 (drop (last % 16) sum))

unfoldable pub truncate : List ℕ → Option ℕ
unfolding truncate_from
truncate sum = truncate_from sum (get_elem? sum (length sum - 1))

-- The decimal digits of a number above the last six, on fuel, of which each digit takes one unit.
unfoldable pub higher_digits : ℕ → ℕ → Text
higher_digits zero n = []
higher_digits (suc fuel) n =
    let rest = higher_digits fuel (n / 10) in if n == 0 then [] else rest ++ (48 + n % 10) ∷ []

-- "%06d": at least six digits, and all that the number has. A number has no more digits than units.
unfoldable pub six_digits : ℕ → Text
unfolding higher_digits
six_digits n =
    higher_digits (n / 1_000_000) (n / 1_000_000)
    ++ (48 + n / 100_000 % 10)
      ∷ (48 + n / 10_000 % 10)
      ∷ (48 + n / 1_000 % 10)
      ∷ (48 + n / 100 % 10)
      ∷ (48 + n / 10 % 10)
      ∷ (48 + n % 10)
      ∷ []

unfoldable pub format_code : ℕ → Text
unfolding six_digits
format_code truncated = six_digits (truncated % 1_000_000)

unfoldable pub counter_at : ℤ → ℕ
unfolding to_uint64
counter_at at_unix = to_uint64 at_unix / totp_step

-- totpStep - int(now.Unix() % totpStep), where Go's % keeps the sign.
unfoldable pub remaining : ℤ → ℕ
remaining (pos n) = totp_step - n % totp_step
remaining (negsuc n) = totp_step + suc n % totp_step

abbrev with_remaining : ℤ → Result Text → Result (Text × ℕ)
with_remaining now (ok code) = ok (code, remaining now)
with_remaining now (err e) = err e

module _ (decode : Text → Option (List ℕ)) (hmac : List ℕ → List ℕ → List ℕ) where
  -- totpAt from the decoded key on; `none` is a panic.
  unfoldable pub totp_with_key : Option (List ℕ) → ℤ → Option (Result Text)
  unfolding format_code
  totp_with_key none at_unix =
      some (err (Error.wrap "totp: invalid base32 secret" (Error.foreign 0)))
  totp_with_key (some []) at_unix = some (err (Error.msg "totp: secret decoded to zero bytes"))
  totp_with_key (some (k ∷ key)) at_unix =
      Option.map (λ t. ok (format_code t))
        (truncate (hmac (k ∷ key) (put_uint64 (counter_at at_unix))))

  -- totpAt, at an instant given by its Unix seconds.
  unfoldable pub totp_at : Text → ℤ → Option (Result Text)
  unfolding totp_with_key
  totp_at secret at_unix =
      let normalized = normalize_base32_secret secret in
      if is_empty normalized
      then some (err (Error.msg "totp: empty secret"))
      else totp_with_key (decode normalized) at_unix

  -- TOTPNow
  unfoldable pub totp_now : Text → ℤ → Option (Result (Text × ℕ))
  unfolding remaining
  totp_now secret now = Option.map (with_remaining now) (totp_at secret now)
