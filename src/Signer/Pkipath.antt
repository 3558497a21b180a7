-- ===== src/Signer/Pkipath.antt =====
-- internal/signer/pkipath.go. `marshal` is asn1.Marshal of a slice of raw values, which writes the
-- elements verbatim into one SEQUENCE; `base64` is the standard encoding.
pub mod RoundTrip
use pje_headless.Base.{ℕ, List, [], ◌∷◌, Text, Result, err, Error, map_ok, map_err}

abbrev marshalled : (List ℕ → Text) → Result (List ℕ) → Result Text
marshalled base64 r =
    map_ok base64 (map_err (Error.wrap "pkipath: marshal SEQUENCE OF Certificate") r)

unfoldable pub pki_path_b64 :
    (List (List ℕ) → Result (List ℕ)) → (List ℕ → Text) → List ℕ → List (List ℕ) → Result Text
pki_path_b64 marshal base64 [] extra = err (Error.msg "pkipath: leafDER must not be empty")
pki_path_b64 marshal base64 (b ∷ leaf) extra = marshalled base64 (marshal ((b ∷ leaf) ∷ extra))
