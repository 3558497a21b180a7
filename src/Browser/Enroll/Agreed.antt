-- ===== src/Browser/Enroll/Agreed.antt =====
-- The enrollment with the base32 of the standard library: the key that both sides compute codes with.
use pje_headless.Base.{
  ℕ, ◌<◌, ◌≡◌, refl, ap, ◌∙◌, ltb, false, if_cases, some, List, [], ◌∷◌, ◌++◌, Text, is_empty,
  trim_space, utf8, utf8_char, ok, All, All-append, arith,
}
use pje_headless.Base.Int.{ℤ}
use pje_headless.Std.Sextets.{Byte}
use pje_headless.Std.Base32.{encode, decode}
use pje_headless.Std.Base32.Reading.{decode-encode}
use pje_headless.Browser.Totp.{normalize_base32_secret, totp_at, totp_with_key}
use pje_headless.Browser.Totp.Base32.{normalize-encode}
use pje_headless.Browser.Enroll.{choose_totp_secret}

-- A Unicode code point.
abbrev pub CodePoint : ℕ → Type 0
CodePoint c = c < 0x11_0000

utf8_char-Byte : (c : ℕ) → CodePoint c → All Byte (utf8_char c)
utf8_char-Byte c h =
    if_cases (All Byte) (ltb c 0x80) _ _ (λ small. (ground (arith, small), tt))
      (λ a.
        if_cases (All Byte) (ltb c 0x800) _ _ (λ b. (ground (arith, b), (omega arith, tt)))
          (λ b.
            if_cases (All Byte) (ltb c 0x1_0000) _ _
              (λ d. (ground (arith, d), (omega arith, (omega arith, tt))))
              (λ d. (omega (arith, h), (omega arith, (omega arith, (omega arith, tt)))))))

utf8-Byte : (s : Text) → All CodePoint s → All Byte (utf8 s)
unfolding utf8
utf8-Byte [] h = tt
utf8-Byte (c ∷ s) h =
    All-append Byte (utf8_char c) (utf8 s) (utf8_char-Byte c h.0) (utf8-Byte s h.1)

-- The secret is chosen, and the code of every time is the one of the key `key`.
abbrev pub KeyedBy : List ℕ → Text → Text → Type 0
KeyedBy key span_text hidden_value =
    (secret : Text) × (choose_totp_secret decode encode span_text hidden_value ≡ ok secret)
    × ((hmac : List ℕ → List ℕ → List ℕ) (at_unix : ℤ)
        → totp_at decode hmac secret at_unix ≡ totp_with_key decode hmac (some key) at_unix)

keyed :
    (bytes : List ℕ) → All Byte bytes → decode (normalize_base32_secret (encode bytes)) ≡ some bytes
keyed bytes h = ap decode (normalize-encode bytes h) ∙ decode-encode bytes h

not_empty :
    (s : Text) (key : List ℕ) → is_empty key ≡ false → decode s ≡ some key → is_empty s ≡ false
unfolding decode
not_empty [] [] full h = full
not_empty [] (b ∷ key) full h = cc
not_empty (c ∷ s) key full h = refl

full_utf8 : (s : Text) → is_empty s ≡ false → is_empty (utf8 s) ≡ false
unfolding utf8
full_utf8 [] h = h
full_utf8 (c ∷ s) h = full_char c (utf8 s)
  where
    full_char : (c : ℕ) (t : List ℕ) → is_empty (utf8_char c ++ t) ≡ false
    full_char c t = ground arith

-- The code of a secret whose normal form decodes to `key`.
totp_at-key :
    (hmac : List ℕ → List ℕ → List ℕ) (secret : Text) (key : List ℕ) (at_unix : ℤ)
    → is_empty key ≡ false
    → decode (normalize_base32_secret secret) ≡ some key
    → totp_at decode hmac secret at_unix ≡ totp_with_key decode hmac (some key) at_unix
unfolding totp_at
totp_at-key hmac secret key at_unix full h =
    rw (not_empty (normalize_base32_secret secret) key full h)
      (ap (λ k. totp_with_key decode hmac k at_unix) h)

-- Where the hidden field of the enrollment page is not blank, chooseTOTPSecret gives a secret, whatever the
-- visible span says, and at every time the code that totpAt computes from it, now and in later
-- logins, is the code of the key that the server has: the bytes of the trimmed field.
pub choose_totp_secret-KeyedBy :
    (span_text hidden_value : Text)
    → is_empty (trim_space hidden_value) ≡ false
    → All CodePoint (trim_space hidden_value)
    → KeyedBy (utf8 (trim_space hidden_value)) span_text hidden_value
unfolding choose_totp_secret
choose_totp_secret-KeyedBy span_text hidden_value full points =
    let bytes = utf8 (trim_space hidden_value) in
    (
      encode bytes,
      rw full,
      λ hmac at_unix.
          totp_at-key hmac (encode bytes) bytes at_unix (full_utf8 (trim_space hidden_value) full)
            (keyed bytes (utf8-Byte _ points)),
    )
