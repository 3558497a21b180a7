-- ===== src/Signer/Pkcs11/Signing.antt =====
-- Sign and doSign of pkcs11.go.
use pje_headless.Base.{
  ℕ, Bool, if◌then◌else◌, Option, none, some, List, Text, utf8, Result, ok, err, Error, Act, map_ok,
  map_err,
}
use pje_headless.Base.Int.{ℤ}
use pje_headless.Signer.Pkcs11.Defs.{
  Module, Session, Config, State, algorithm_to_mechanism, md5_digest_info, is_retryable_pkcs11_err,
}
use pje_headless.Signer.Pkcs11.Login.{login_locked, teardown}

module _ {W : Type 0} (p11 : Module W) where
  abbrev pub signed : ℕ → List ℕ → Result (Unit {0}) × W → Result (List ℕ) × W
  signed sh bytes (err e, w) = (err e, w)
  signed sh bytes (ok _, w) = p11.sign sh bytes w

  unfoldable pub do_sign : ℕ → List ℕ → Session → W → Result (List ℕ) × W
  do_sign mech bytes s w = signed s.handle bytes (p11.sign_init s.handle mech s.priv_key w)

  -- The second doSign, if the login that goes before it gave a session. The message of a failed login
  -- also has the text of the first error, which is left out here.
  abbrev pub retried : ℕ → List ℕ → Result Session × W → Result (List ℕ) × State W
  retried mech bytes (err e, w) = (
    err (Error.wrap "pkcs11 sign: sessao-retry login falhou" e),
    record { session = none; world = w },
  )
  retried mech bytes (ok s, w) =
      let (sig, w') = do_sign mech bytes s w in
      (map_err (Error.wrap "pkcs11 sign") sig, record { session = some s; world = w' })

  -- The signature, or what the first doSign's error leads to.
  unfoldable pub first_try :
      (Text → Option ℤ)
      → Config
      → ℕ
      → List ℕ
      → Session
      → Result (List ℕ) × W
      → Result (List ℕ) × State W
  first_try scan c mech bytes s (ok sig, w) = (ok sig, record { session = some s; world = w })
  first_try scan c mech bytes s (err e, w) =
      let again = retried mech bytes (login_locked p11 scan c (teardown p11 (some s) w)) in
      let failed : Result (List ℕ) × State W =
        (err (Error.wrap "pkcs11 sign" e), record { session = some s; world = w }) in
      if is_retryable_pkcs11_err e then again else failed

  unfoldable pub sign_bytes : (Text → Option ℤ) → Config → ℕ → List ℕ → Act (State W) (List ℕ)
  unfolding do_sign first_try
  sign_bytes scan c mech bytes s = elim s.session [
    | none ↦ (err (Error.msg "pkcs11 sign: not logged in"), s)
    | some sess ↦ first_try scan c mech bytes sess (do_sign mech bytes sess s.world)
  ]

  abbrev encoded : (List ℕ → Text) → Result (List ℕ) × State W → Result Text × State W
  encoded base64 (r, s) = (map_ok base64 r, s)

  -- Sign, by what the algorithm's name gives: the mechanism, and whether the hash is made here.
  abbrev pub sign_as :
      (Text → Option ℤ)
      → (List ℕ → List ℕ)
      → (List ℕ → Text)
      → Config
      → Text
      → Result (ℕ × Bool)
      → Act (State W) Text
  sign_as scan md5 base64 c phrase (err e) s = (err e, s)
  sign_as scan md5 base64 c phrase (ok (mech, needs_digest_info)) s = encoded base64 (
      sign_bytes scan c mech
        (if needs_digest_info then md5_digest_info md5 (utf8 phrase) else utf8 phrase) s)

  -- Sign. `md5` and `base64` are the hash and the standard encoding of the library.
  unfoldable pub sign :
      (Text → Option ℤ)
      → (List ℕ → List ℕ)
      → (List ℕ → Text)
      → Config
      → Text
      → Text
      → Act (State W) Text
  unfolding sign_bytes
  sign scan md5 base64 c phrase algorithm =
      sign_as scan md5 base64 c phrase (algorithm_to_mechanism algorithm)
