-- ===== src/Signer/Pfx.antt =====
-- internal/signer/pfx.go. The file system, PKCS#12, RSA, the hashes and base64 are parameters
-- (`Libraries`); what a file holds when it is read is a part of the world.
pub mod Agreement
use pje_headless.Base.{
  ℕ, ◌==◌, ◌===◌, Bool, true, false, if◌then◌else◌, Option, none, some, List, [], ◌∷◌, map, Text,
  codes, utf8, String, Result, ok, err, Error, Act, is_ok, map_ok, map_err, ◌>>=◌,
}
use pje_headless.Clock.{Time}
use pje_headless.Signer.Defs.{Identity, Signer}
use pje_headless.Signer.Pkipath.{pki_path_b64}

-- The values of crypto.Hash in use.
pub data Hash : Type 0 where
  md5 sha1 sha256 : Hash

pub record Certificate : Type 0 where
  pub raw : List ℕ
  pub identity : Identity

-- A private key: an RSA key, or one of another kind.
pub data PrivateKey (K : Type 0) : Type 0 where
  rsa : K → PrivateKey K
  other : PrivateKey K

-- The libraries that the signer calls, over the keys `K` and the world `W`: os.ReadFile,
-- pkcs12.DecodeChain, the hashes, rsa.SignPKCS1v15, asn1.Marshal and base64. PKCS #1 v1.5 signatures
-- do not depend on the random source, so `sign_pkcs1v15` leaves the world alone.
pub record Libraries (K W : Type 0) : Type 0 where
  pub read_file : W → Text → Result (List ℕ)
  pub decode_chain : List ℕ → Text → Result (PrivateKey K × Certificate × List Certificate)
  pub sum : Hash → List ℕ → List ℕ
  pub sign_pkcs1v15 : K → Hash → List ℕ → Result (List ℕ)
  pub marshal : List (List ℕ) → Result (List ℕ)
  pub base64 : List ℕ → Text

-- The fields that a login sets, which are nil together.
pub record Credential (K : Type 0) : Type 0 where
  pub key : K
  pub cert : Certificate
  pub chain : List Certificate

pub record PfxSigner (K W : Type 0) : Type 0 where
  pub path : Text
  pub pass : Text
  pub credential : Option (Credential K)
  pub world : W

module _ {K W : Type 0} (libs : Libraries K W) where
  abbrev rsa_only : PrivateKey K × Certificate × List Certificate → Result (Credential K)
  rsa_only (PrivateKey.rsa k, cert, chain) = ok (record { key = k; cert = cert; chain = chain })
  rsa_only (PrivateKey.other, cert, chain) = err (Error.msg "pfx login: private key is not RSA")

  abbrev pub retain : PfxSigner K W → Result (Credential K) → Result (Unit {0}) × PfxSigner K W
  retain s (err e) = (err e, s)
  retain s (ok c) = (ok tt, record s { credential = some c })

  -- The credential that Login reads.
  unfoldable pub read_credential : PfxSigner K W → Result (Credential K)
  read_credential s =
      map_err (Error.wrap "pfx login: read") (libs.read_file s.world s.path) >>= λ bytes.
      map_err (Error.wrap "pfx login: decode") (libs.decode_chain bytes s.pass) >>= rsa_only

  unfoldable pub login : Act (PfxSigner K W) (Unit {0})
  unfolding read_credential
  login s = retain s (read_credential s)

  unfoldable pub digest : Text → List ℕ → Result (List ℕ × Hash)
  digest algorithm bytes =
      if algorithm === codes "MD5withRSA"
      then ok (libs.sum Hash.md5 bytes, Hash.md5)
      else if algorithm === codes "SHA1withRSA"
      then ok (libs.sum Hash.sha1 bytes, Hash.sha1)
      else if algorithm === codes "SHA256withRSA"
      then ok (libs.sum Hash.sha256 bytes, Hash.sha256)
      else err (Error.msg "pfx digest: unsupported algorithm")

  abbrev pub sign_digest : K → List ℕ × Hash → Result Text
  sign_digest key (h, hash) =
      map_ok libs.base64 (map_err (Error.wrap "pfx sign") (libs.sign_pkcs1v15 key hash h))

  abbrev pub sign_with : Option (Credential K) → Text → Text → Result Text
  sign_with none phrase algorithm = err (Error.msg "pfx sign: not logged in")
  sign_with (some c) phrase algorithm = digest algorithm (utf8 phrase) >>= sign_digest c.key

  unfoldable pub sign : Text → Text → Act (PfxSigner K W) Text
  unfolding digest
  sign phrase algorithm s = (sign_with s.credential phrase algorithm, s)

  abbrev chain_of : Option (Credential K) → Result Text
  chain_of none = err (Error.msg "pfx chain: not logged in")
  chain_of (some c) = pki_path_b64 libs.marshal libs.base64 c.cert.raw (map (λ x. x.raw) c.chain)

  unfoldable pub cert_chain_pki_path : Act (PfxSigner K W) Text
  cert_chain_pki_path s = (chain_of s.credential, s)

  abbrev identity_of : Option (Credential K) → Result Identity
  identity_of none = err (Error.msg "pfx identity: not logged in")
  identity_of (some c) = ok c.cert.identity

  unfoldable pub identity : Act (PfxSigner K W) Identity
  identity s = (identity_of s.credential, s)

  -- Available only asks whether the file can be read and decoded.
  unfoldable pub available : PfxSigner K W → Bool × PfxSigner K W
  available s =
      (is_ok (libs.read_file s.world s.path >>= λ bytes. libs.decode_chain bytes s.pass), s)

  -- The signer as a backend.
  unfoldable pub pfx_signer : Signer (PfxSigner K W)
  unfolding login sign cert_chain_pki_path identity available
  pfx_signer = record {
    login = login;
    sign = sign;
    cert_chain_pki_path = cert_chain_pki_path;
    identity = identity;
    available = available;
  }
