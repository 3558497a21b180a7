-- ===== src/Signer/Remote.antt =====
-- internal/signer/remote.go. The generated gRPC client is the parameter `Stub`, over the network `N`:
-- `connect` is grpc.NewClient, and an RPC returns the reply or an error.
use pje_headless.Base.{
  Bool, true, false, if◌then◌else◌, Text, Result, ok, err, Error, map_err, map_ok, Act,
}
use pje_headless.Base.Int.{ℤ}
use pje_headless.Clock.{from_unix}
use pje_headless.Signer.Defs.{Signer, Identity}

-- The messages of proto/signer.proto.
pub record HealthStatus : Type 0 where
  pub ready : Bool
  pub identity_subject : Text

pub record IdentityMsg : Type 0 where
  pub subject : Text
  pub issuer : Text
  pub serial : Text
  pub not_after_unix : ℤ

pub record Stub (N : Type 0) : Type 0 where
  pub connect : Act N (Unit {0})
  pub close : N → N
  pub health : Act N HealthStatus
  pub sign : Text → Text → Act N Text
  pub cert_chain_pki_path : Act N Text
  pub identity : Act N IdentityMsg

-- `conn` and `client` are set together: `connected` says that they are not nil.
pub record RemoteSigner (N : Type 0) : Type 0 where
  pub connected : Bool
  pub net : N

abbrev pub new_remote_signer : {N : Type 0} → N → RemoteSigner N
new_remote_signer n = record { connected = false; net = n }

abbrev pub not_connected : Error
not_connected = Error.msg "remote signer: not connected (Login must be called first)"

abbrev pub identity_of : IdentityMsg → Identity
identity_of m = record {
  subject = m.subject;
  issuer = m.issuer;
  serial = m.serial;
  not_after = from_unix m.not_after_unix;
}

module _ {N : Type 0} (stub : Stub N) where
  -- Login after the Health RPC.
  unfoldable pub login_ready : Result HealthStatus × N → Result (Unit {0}) × RemoteSigner N
  login_ready (err e, n) = (
    err (Error.wrap "remote signer: health check" e),
    record { connected = false; net = stub.close n },
  )
  login_ready (ok hs, n) = if hs.ready then (ok tt, record { connected = true; net = n }) else (
    err (Error.msg "remote signer: server not ready (no credential loaded)"),
    record { connected = false; net = stub.close n },
  )

  -- Login after grpc.NewClient.
  unfoldable pub login_connected : Result (Unit {0}) × N → Result (Unit {0}) × RemoteSigner N
  unfolding login_ready
  login_connected (err e, n) =
      (err (Error.wrap "remote signer: connect" e), record { connected = false; net = n })
  login_connected (ok _, n) = login_ready (stub.health n)

  unfoldable pub login : Act (RemoteSigner N) (Unit {0})
  unfolding login_connected
  login r = if r.connected then (ok tt, r) else login_connected (stub.connect r.net)

  -- An RPC through getClient.
  unfoldable pub call : {A : Type 0} → Act N A → (Error → Error) → Act (RemoteSigner N) A
  call rpc in_context r =
      let (reply, n) = rpc r.net in
      if r.connected
      then (map_err in_context reply, record r { net = n })
      else (err not_connected, r)

  abbrev ready_of : Result HealthStatus → Bool
  ready_of (ok hs) = hs.ready
  ready_of (err e) = false

  unfoldable pub available : RemoteSigner N → Bool × RemoteSigner N
  available r =
      let (reply, n) = stub.health r.net in
      if r.connected then (ready_of reply, record r { net = n }) else (false, r)

  abbrev first_map :
      {A B : Type 0} → (A → B) → Result A × RemoteSigner N → Result B × RemoteSigner N
  first_map f (r, s) = (map_ok f r, s)

  -- RemoteSigner as a Signer.
  unfoldable pub remote_signer : Signer (RemoteSigner N)
  unfolding login call available
  remote_signer = record {
    login = login;
    sign = λ phrase algorithm. call (stub.sign phrase algorithm) (Error.wrap "remote signer: sign");
    cert_chain_pki_path = call stub.cert_chain_pki_path (Error.wrap "remote signer: certchain");
    identity =
        λ r. first_map identity_of (call stub.identity (Error.wrap "remote signer: identity") r);
    available = available;
  }
