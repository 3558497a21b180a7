-- ===== src/Topology.antt =====
-- The parts of the dual topology together: a RemoteSigner over the SignerService of another host, and
-- a RemoteSigner among the backends of a DualSigner.
pub mod Delegation
pub mod Standby
use pje_headless.Base.{Text, Result, ok, err, Act}
use pje_headless.Signer.Defs.{Signer}
use pje_headless.Signer.Remote.{Stub}
use pje_headless.GrpcSigner.{
  SignerServiceServer, sign_rpc, cert_chain_rpc, identity_rpc, health_rpc,
}

-- A network that takes every request to the server at its other end and every reply back.
abbrev pub loopback : {W : Type 0} → Signer W → Stub (SignerServiceServer W)
loopback signer = record {
  connect = λ s. (ok tt, s);
  close = λ s. s;
  health = health_rpc signer;
  sign = sign_rpc signer;
  cert_chain_pki_path = cert_chain_rpc signer;
  identity = identity_rpc signer;
}
