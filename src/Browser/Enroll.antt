-- ===== src/Browser/Enroll.antt =====
-- chooseTOTPSecret of internal/browser/totp_enroll.go. base32.StdEncoding is the parameter `decode`,
-- with nothing for an error, and `encode`.
pub mod Usable
pub mod Agreed
pub mod Attempts
pub mod Once
pub mod Respect
use pje_headless.Base.{
  ℕ, Bool, true, false, if◌then◌else◌, Option, none, some, List, Text, is_empty, trim_space, utf8,
  Result, ok, err, Error,
}
use pje_headless.Browser.Totp.{normalize_base32_secret}

abbrev pub no_secret : Result Text
no_secret = err (Error.msg "browser: CONFIGURE_TOTP page has no usable secret")

-- The span's secret, by what decoding it gave.
abbrev pub decoded_span : Text → Option (List ℕ) → Result Text
decoded_span span none = no_secret
decoded_span span (some key) = ok span

abbrev pub from_span : (Text → Option (List ℕ)) → Text → Result Text
from_span decode span = if is_empty span then no_secret else decoded_span span (decode span)

unfoldable pub choose_totp_secret :
    (Text → Option (List ℕ)) → (List ℕ → Text) → Text → Text → Result Text
choose_totp_secret decode encode span_text hidden_value =
    let raw = trim_space hidden_value in
    let fallback = from_span decode (normalize_base32_secret span_text) in
    if is_empty raw then fallback else ok (encode (utf8 raw))
