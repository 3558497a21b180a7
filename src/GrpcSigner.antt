-- ===== src/GrpcSigner.antt =====
-- internal/grpcsigner/server.go: the SignerService over a local signer. An RPC is a function from the
-- request and the server's state to the reply or a status.
pub mod Logins
pub mod Overlapping
use pje_headless.Base.{
  Bool, true, false, not, if◌then◌else◌, Text, [], Result, ok, err, Error, StatusCode, map_err,
  map_ok, Act, ℕ, codes, branch,
}
use pje_headless.Clock.{unix}
use pje_headless.Net.{Net}
use pje_headless.Signer.Defs.{Signer, Identity}
use pje_headless.Signer.Remote.{HealthStatus, IdentityMsg}

pub record SignerServiceServer (W : Type 0) : Type 0 where
  pub local : W
  pub logged_in : Bool

abbrev pub new_signer_service_server : {W : Type 0} → W → SignerServiceServer W
new_signer_service_server w = record { local = w; logged_in = false }

abbrev pub identity_msg : Identity → IdentityMsg
identity_msg id = record {
  subject = id.subject;
  issuer = id.issuer;
  serial = id.serial;
  not_after_unix = unix id.not_after;
}

module _ {W : Type 0} (signer : Signer W) where
  -- ensureLogin after the call of Login.
  abbrev pub after_login : Result (Unit {0}) × W → Result (Unit {0}) × SignerServiceServer W
  after_login (err e, w) =
      (err (Error.wrap "grpcsigner: login" e), record { local = w; logged_in = false })
  after_login (ok _, w) = (ok tt, record { local = w; logged_in = true })

  unfoldable pub ensure_login : Act (SignerServiceServer W) (Unit {0})
  ensure_login s = if s.logged_in then (ok tt, s) else after_login (signer.login s.local)

  -- A method of the local signer, after ensureLogin.
  abbrev pub logged_in_call :
      {A : Type 0}
      → Act W A
      → Error
      → Result (Unit {0}) × SignerServiceServer W
      → Result A × SignerServiceServer W
  logged_in_call op failure (err e, s) = (err (Error.status StatusCode.unauthenticated ""), s)
  logged_in_call op failure (ok _, s) =
      let (r, w) = op s.local in (map_err (λ _. failure) r, record s { local = w })

  unfoldable pub rpc : {A : Type 0} → Act W A → Error → Act (SignerServiceServer W) A
  unfolding ensure_login
  rpc op failure s = logged_in_call op failure (ensure_login s)

  unfoldable pub sign_rpc : Text → Text → Act (SignerServiceServer W) Text
  unfolding rpc
  sign_rpc phrase algorithm =
      rpc (signer.sign phrase algorithm) (Error.status StatusCode.internal "sign")

  unfoldable pub cert_chain_rpc : Act (SignerServiceServer W) Text
  unfolding rpc
  cert_chain_rpc = rpc signer.cert_chain_pki_path (Error.status StatusCode.internal "certchain")

  abbrev msg_reply :
      Result Identity × SignerServiceServer W → Result IdentityMsg × SignerServiceServer W
  msg_reply (r, s) = (map_ok identity_msg r, s)

  unfoldable pub identity_rpc : Act (SignerServiceServer W) IdentityMsg
  unfolding rpc
  identity_rpc s = msg_reply (rpc signer.identity (Error.status StatusCode.internal "identity") s)

  abbrev probe : Result Identity × W → HealthStatus × W
  probe (err e, w) = (record { ready = false; identity_subject = [] }, w)
  probe (ok id, w) = (record { ready = true; identity_subject = id.subject }, w)

  -- Health, which logs in nowhere and never fails.
  unfoldable pub health_probe : W → HealthStatus × W
  health_probe w0 =
      let (up, w) = signer.available w0 in
      if not up
      then (record { ready = false; identity_subject = [] }, w)
      else probe (signer.identity w)

  unfoldable pub health_rpc : Act (SignerServiceServer W) HealthStatus
  unfolding health_probe
  health_rpc s = let (h, w) = health_probe s.local in (ok h, record s { local = w })

-- ListenAndServe, then Serve: `serve` is the gRPC server with the service registered.
unfoldable pub listen_and_serve :
    {W : Type 0} → Net W → (ℕ → Act W (Unit {0})) → Text → Act W (Unit {0})
listen_and_serve net serve addr w =
    branch (net.listen (codes "tcp") addr w) (λ listener v. serve listener v)
      (λ e v. (err (Error.wrap "grpcsigner: listen" e), v))
