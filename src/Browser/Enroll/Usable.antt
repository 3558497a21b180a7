-- ===== src/Browser/Enroll/Usable.antt =====
-- The secret that an enrollment chooses is one that totpAt can use.
use pje_headless.Base.{
  ℕ, ◌≡◌, refl, ap, ◌∙◌, Bool-cases, inl, inr, Option, none, some, List, Text, is_empty, trim_space,
  utf8, Result, ok, err,
}
use pje_headless.Browser.Totp.{normalize_base32_secret}
use pje_headless.Browser.Totp.Secret.{normalize_idem}
use pje_headless.Browser.Enroll.{decoded_span, from_span, choose_totp_secret}

-- What RFC 4648 says of the encoder, at `bytes`: its output decodes to them, and is written in full
-- blocks of upper-case letters, digits and padding, which normalizing leaves as they are.
pub record IsBase32 (decode : Text → Option (List ℕ)) (encode : List ℕ → Text) (bytes : List ℕ)
    : Type 0 where
  pub back : decode (encode bytes) ≡ some bytes
  pub plain : normalize_base32_secret (encode bytes) ≡ encode bytes

module _ (decode : Text → Option (List ℕ)) (encode : List ℕ → Text) where
  -- The text is one whose normal form decodes.
  abbrev pub Usable : Result Text → Type 0
  Usable (err e) = Unit {0}
  Usable (ok secret) = (key : List ℕ) × (decode (normalize_base32_secret secret) ≡ some key)

  decoded_span-Usable :
      (span_text : Text) (o : Option (List ℕ))
      → decode (normalize_base32_secret span_text) ≡ o
      → Usable (decoded_span (normalize_base32_secret span_text) o)
  decoded_span-Usable span_text none e = tt
  decoded_span-Usable span_text (some key) e = (key, ap decode (normalize_idem span_text) ∙ e)

  from_span-Usable :
      (span_text : Text) → Usable (from_span decode (normalize_base32_secret span_text))
  from_span-Usable span_text = elim (Bool-cases (is_empty (normalize_base32_secret span_text))) [
    | inl blank ↦ rw blank tt
    | inr full ↦
        rw full (decoded_span-Usable span_text (decode (normalize_base32_secret span_text)) refl)
  ]

  -- Where chooseTOTPSecret gives a secret, the base32 decoding that totpAt makes of its normal form
  -- succeeds, if the encoding of the hidden value is as RFC 4648 has it.
  choose_totp_secret-Usable :
      (span_text hidden_value : Text)
      → IsBase32 decode encode (utf8 (trim_space hidden_value))
      → Usable (choose_totp_secret decode encode span_text hidden_value)
  unfolding choose_totp_secret
  choose_totp_secret-Usable span_text hidden_value b =
      elim (Bool-cases (is_empty (trim_space hidden_value))) [
        | inl blank ↦ rw blank (from_span-Usable span_text)
        | inr full ↦
            let bytes = utf8 (trim_space hidden_value) in
            rw full (bytes, ap decode b.plain ∙ b.back)
      ]
