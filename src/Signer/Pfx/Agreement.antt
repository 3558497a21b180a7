-- ===== src/Signer/Pfx/Agreement.antt =====
-- PFXSigner and PKCS11Signer over the same key give the same signatures; and a PFX file that logs in
-- is available.
use pje_headless.Base.{
  ℕ, ◌===◌, ===_iff, ◌⊎◌, ◌≡◌, refl, sym, ap, subst, ◌∙◌, inl, inr, true, arith, Option, some, List,
  [], ◌∷◌, ◌++◌, ◌+◌, ◌≤◌, length, Text, codes, utf8, Result, ok, err, Error, is_ok, map_ok,
  map_err,
}
use pje_headless.Base.Int.{ℤ}
use pje_headless.Signer.Pkcs11.Defs.{
  Module, Session, Config, algorithm_to_mechanism, md5_digest_info, md5_digest_info_prefix,
}
use pje_headless.Signer.Pkcs11.Signing.{do_sign, signed, first_try, sign_bytes, sign_as}
use pje_headless.Signer.Pkcs11.Signing as Token
use pje_headless.Signer.Pfx.{Hash, Libraries, Credential, PfxSigner, sign, sign_with, digest}

-- The DigestInfo of a hash, without the hash itself: RFC 8017, section 9.2.
abbrev pub digest_info_prefix : Hash → List ℕ
digest_info_prefix Hash.md5 =
    0x30 ∷ 0x20 ∷ 0x30 ∷ 0x0c ∷ 0x06 ∷ 0x08 ∷ 0x2a ∷ 0x86 ∷ 0x48 ∷ 0x86 ∷ 0xf7 ∷ 0x0d ∷ 0x02 ∷ 0x05
    ∷ 0x05 ∷ 0x00 ∷ 0x04 ∷ 0x10 ∷ []
digest_info_prefix Hash.sha1 =
    0x30 ∷ 0x21 ∷ 0x30 ∷ 0x09 ∷ 0x06 ∷ 0x05 ∷ 0x2b ∷ 0x0e ∷ 0x03 ∷ 0x02 ∷ 0x1a ∷ 0x05 ∷ 0x00 ∷ 0x04
    ∷ 0x14 ∷ []
digest_info_prefix Hash.sha256 =
    0x30 ∷ 0x31 ∷ 0x30 ∷ 0x0d ∷ 0x06 ∷ 0x09 ∷ 0x60 ∷ 0x86 ∷ 0x48 ∷ 0x01 ∷ 0x65 ∷ 0x03 ∷ 0x04 ∷ 0x02
    ∷ 0x01 ∷ 0x05 ∷ 0x00 ∷ 0x04 ∷ 0x20 ∷ []

-- The number of bytes of a hash.
abbrev pub size : Hash → ℕ
size Hash.md5 = 16
size Hash.sha1 = 20
size Hash.sha256 = 32

-- The DigestInfo of a hash `h`.
abbrev digest_info : Hash → List ℕ → List ℕ
digest_info hash h = digest_info_prefix hash ++ h

-- rsa.SignPKCS1v15 pads and signs the DigestInfo of a hash of the right size, where the modulus of the
-- key, of `bytes k` bytes, has room for it and the 11 bytes of padding: `pad_sign` is the signature of a
-- key on an encoded message. The hashes have their sizes.
pub record SignsDigestInfo {K W : Type 0} (libs : Libraries K W) (bytes : K → ℕ)
    (pad_sign : K → List ℕ → List ℕ) : Type 0 where
  pub sums : (hash : Hash) (m : List ℕ) → length (libs.sum hash m) ≡ size hash
  pub signs :
      (k : K) (hash : Hash) (h : List ℕ)
      → length h ≡ size hash
      → length (digest_info hash h) + 11 ≤ bytes k
      → libs.sign_pkcs1v15 k hash h ≡ ok (pad_sign k (digest_info hash h))

-- A token that in the world `w` is there, with the session `sh` open and logged in and the key `k` under
-- the handle `key`. C_SignInit takes the three mechanisms. CKM_RSA_PKCS (1) pads and signs data that the
-- modulus has room for; CKM_SHA1_RSA_PKCS (6) and CKM_SHA256_RSA_PKCS (0x40) hash the data first.
pub record HoldsKey {K V W : Type 0} (libs : Libraries K V) (bytes : K → ℕ)
    (pad_sign : K → List ℕ → List ℕ) (p11 : Module W) (sh key : ℕ) (k : K) (w : W) : Type 0 where
  pub takes_raw : (p11.sign_init sh 1 key w).0 ≡ ok tt
  pub takes_sha1 : (p11.sign_init sh 6 key w).0 ≡ ok tt
  pub takes_sha256 : (p11.sign_init sh 0x40 key w).0 ≡ ok tt
  pub raw :
      (m : List ℕ)
      → length m + 11 ≤ bytes k
      → (p11.sign sh m (p11.sign_init sh 1 key w).1).0 ≡ ok (pad_sign k m)
  pub sha1 :
      (m : List ℕ)
      → length (digest_info Hash.sha1 (libs.sum Hash.sha1 m)) + 11 ≤ bytes k
      → (p11.sign sh m (p11.sign_init sh 6 key w).1).0
        ≡ ok (pad_sign k (digest_info Hash.sha1 (libs.sum Hash.sha1 m)))
  pub sha256 :
      (m : List ℕ)
      → length (digest_info Hash.sha256 (libs.sum Hash.sha256 m)) + 11 ≤ bytes k
      → (p11.sign sh m (p11.sign_init sh 0x40 key w).1).0
        ≡ ok (pad_sign k (digest_info Hash.sha256 (libs.sum Hash.sha256 m)))

module _ {K V W : Type 0} (libs : Libraries K V) (bytes : K → ℕ) (pad_sign : K → List ℕ → List ℕ)
    (p11 : Module W) (scan : Text → Option ℤ) (c : Config) where
  signed_by :
      (sh : ℕ) (bytes sig : List ℕ) (r : Result (Unit {0})) (w : W)
      → r ≡ ok tt
      → (p11.sign sh bytes w).0 ≡ ok sig
      → (signed p11 sh bytes (r, w)).0 ≡ ok sig
  signed_by sh bytes sig (ok _) w i e = e
  signed_by sh bytes sig (err x) w i e = ground arith

  first_try_by :
      (mech : ℕ) (bytes sig : List ℕ) (sess : Session) (r : Result (List ℕ)) (w : W)
      → r ≡ ok sig
      → (first_try p11 scan c mech bytes sess (r, w)).0 ≡ ok sig
  unfolding first_try
  first_try_by mech bytes sig sess (ok x) w e = e
  first_try_by mech bytes sig sess (err x) w e = ground arith

  sign_bytes_by :
      (sess : Session) (mech : ℕ) (bytes sig : List ℕ) (w : W)
      → (p11.sign_init sess.handle mech sess.priv_key w).0 ≡ ok tt
      → (p11.sign sess.handle bytes (p11.sign_init sess.handle mech sess.priv_key w).1).0 ≡ ok sig
      → (sign_bytes p11 scan c mech bytes (record { session = some sess; world = w })).0 ≡ ok sig
  unfolding sign_bytes do_sign
  sign_bytes_by sess mech bytes sig w i e =
      first_try_by mech bytes sig sess (do_sign p11 mech bytes sess w).0 _
        (signed_by sess.handle bytes sig (p11.sign_init sess.handle mech sess.priv_key w).0 _ i e)

  same_encoding :
      (g : Error → Error) (r q : Result (List ℕ)) (sig : List ℕ)
      → r ≡ ok sig
      → q ≡ ok sig
      → map_ok libs.base64 r ≡ map_ok libs.base64 (map_err g q)
  same_encoding g r q sig e d = rw (e, d) refl

  known_algorithm :
      (algorithm : Text)
      → is_ok (algorithm_to_mechanism algorithm) ≡ true
      → (algorithm ≡ codes "SHA256withRSA")
        ⊎ ((algorithm ≡ codes "SHA1withRSA") ⊎ (algorithm ≡ codes "MD5withRSA"))
  unfolding algorithm_to_mechanism
  known_algorithm algorithm known = ground (
    arith,
    ===_iff algorithm (codes "SHA256withRSA"),
    ===_iff algorithm (codes "SHA1withRSA"),
    ===_iff algorithm (codes "MD5withRSA"),
  )

  module _ (sess : Session) (cred : Credential K) (w : W) (phrase : Text)
      (s : SignsDigestInfo libs bytes pad_sign)
      (h : HoldsKey libs bytes pad_sign p11 sess.handle sess.priv_key cred.key w)
      (room : 62 ≤ bytes cred.key) where
    -- A key of 62 bytes has room for the DigestInfo of each hash.
    fits :
        (hash : Hash) (m : List ℕ)
        → length (digest_info hash (libs.sum hash m)) + 11 ≤ bytes cred.key
    fits Hash.md5 m = omega (arith, s.sums Hash.md5 m, room)
    fits Hash.sha1 m = omega (arith, s.sums Hash.sha1 m, room)
    fits Hash.sha256 m = omega (arith, s.sums Hash.sha256 m, room)

    signs_sum :
        (hash : Hash)
        → libs.sign_pkcs1v15 cred.key hash (libs.sum hash (utf8 phrase))
          ≡ ok (pad_sign cred.key (digest_info hash (libs.sum hash (utf8 phrase))))
    signs_sum hash = s.signs cred.key hash _ (s.sums hash (utf8 phrase)) (fits hash (utf8 phrase))

    abbrev Agree : Text → Type 0
    Agree algorithm =
        (sign_as p11 scan (libs.sum Hash.md5) libs.base64 c phrase
          (algorithm_to_mechanism algorithm) (record { session = some sess; world = w })).0
        ≡ sign_with libs (some cred) phrase algorithm

    Agree-sha256 : Agree (codes "SHA256withRSA")
    unfolding algorithm_to_mechanism digest ◌===◌
    Agree-sha256 =
        same_encoding _ _ _ _
          (sign_bytes_by sess 0x40 (utf8 phrase) _ w h.takes_sha256
            (h.sha256 (utf8 phrase) (fits Hash.sha256 (utf8 phrase))))
          (signs_sum Hash.sha256)

    Agree-sha1 : Agree (codes "SHA1withRSA")
    unfolding algorithm_to_mechanism digest ◌===◌
    Agree-sha1 =
        same_encoding _ _ _ _
          (sign_bytes_by sess 6 (utf8 phrase) _ w h.takes_sha1
            (h.sha1 (utf8 phrase) (fits Hash.sha1 (utf8 phrase))))
          (signs_sum Hash.sha1)

    Agree-md5 : Agree (codes "MD5withRSA")
    unfolding algorithm_to_mechanism digest md5_digest_info md5_digest_info_prefix ◌===◌
    Agree-md5 =
        let info = digest_info_prefix Hash.md5 ++ libs.sum Hash.md5 (utf8 phrase) in
        same_encoding _ _ _ _
          (sign_bytes_by sess 1 info _ w h.takes_raw (h.raw info (fits Hash.md5 (utf8 phrase))))
          (signs_sum Hash.md5)

    agree : (algorithm : Text) → is_ok (algorithm_to_mechanism algorithm) ≡ true → Agree algorithm
    agree algorithm known = elim (known_algorithm algorithm known) [
      | inl e ↦ subst Agree (sym e) Agree-sha256
      | inr (inl e) ↦ subst Agree (sym e) Agree-sha1
      | inr (inr e) ↦ subst Agree (sym e) Agree-md5
    ]

-- A PFXSigner and a logged-in PKCS11Signer that hold the same RSA key return the same signature for
-- every phrase and each algorithm that the token signer knows, MD5withRSA, SHA1withRSA and
-- SHA256withRSA, where the modulus has at least 62 bytes, the library signs the DigestInfo of the hash
-- and the token, which is there and logged in, does what PKCS#11 says of its mechanisms.
pub pfx-pkcs11-agreement :
    {K V W : Type 0} (libs : Libraries K V) (bytes : K → ℕ) (pad_sign : K → List ℕ → List ℕ)
    (p11 : Module W) (scan : Text → Option ℤ) (c : Config) (s : PfxSigner K V) (cred : Credential K)
    (sess : Session) (w : W) (phrase algorithm : Text)
    → s.credential ≡ some cred
    → SignsDigestInfo libs bytes pad_sign
    → HoldsKey libs bytes pad_sign p11 sess.handle sess.priv_key cred.key w
    → 62 ≤ bytes cred.key
    → is_ok (algorithm_to_mechanism algorithm) ≡ true
    → (Token.sign p11 scan
        (libs.sum Hash.md5)
        libs.base64
        c
        phrase
        algorithm
        (record { session = some sess; world = w })).0
      ≡ (sign libs phrase algorithm s).0
unfolding sign Token.sign
pfx-pkcs11-agreement libs bytes pad_sign p11 scan c s cred sess w phrase algorithm e signs holds
      room known =
    agree libs bytes pad_sign p11 scan c sess cred w phrase signs holds room algorithm known
    ∙ ap (λ o. sign_with libs o phrase algorithm) (sym e)
