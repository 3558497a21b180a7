-- ===== src/Topology/Delegation.antt =====
-- A RemoteSigner signs as the local signer of the other host does.
use pje_headless.Base.{
  ◌≡◌, refl, sym, ap, ◌∙◌, Bool, true, Bool-cases, inl, inr, ◌⊎◌, ◌&&◌, false, is_ok, arith, Text,
  Result, ok, err, Error, StatusCode, map_err,
}
use pje_headless.Base.Int.{ℤ}
use pje_headless.Clock.{Time, IsInt64, from_unix, unix, unix-from_unix}
use pje_headless.Signer.Defs.{Signer, Identity}
use pje_headless.Signer.Remote.{
  RemoteSigner, remote_signer, new_remote_signer, login, login_connected, login_ready, call,
  not_connected,
}
use pje_headless.GrpcSigner.{
  SignerServiceServer, new_signer_service_server, sign_rpc, rpc, ensure_login, identity_rpc,
  health_rpc, health_probe,
}
use pje_headless.Topology.{loopback}

-- A RemoteSigner that is connected to a server that is logged in.
abbrev pub ready : {W : Type 0} → W → RemoteSigner (SignerServiceServer W)
ready w = record { connected = true; net = record { local = w; logged_in = true } }

module _ {W : Type 0} (signer : Signer W) where
  abbrev remote : Signer (RemoteSigner (SignerServiceServer W))
  remote = remote_signer (loopback signer)

  -- What the Health RPC asks of the local signer, what its Login then gives, and its Sign after that.
  abbrev named : W → Result Identity × W
  named w = signer.identity (signer.available w).1

  abbrev logged : W → Result (Unit {0}) × W
  logged w = signer.login (named w).1

  -- Whether the local signer is available and then names its identity.
  abbrev pub credential : W → Bool
  credential w = (signer.available w).0 && is_ok (named w).0

  -- The RemoteSigner and the server after Login on both of them new.
  abbrev pub joined : W → Result (Unit {0}) × RemoteSigner (SignerServiceServer W)
  joined w = remote.login (new_remote_signer (new_signer_service_server w))

  -- No credential: Login fails, and Sign after it fails without a request.
  abbrev pub Refused : Text → Text → W → Type 0
  Refused phrase algorithm w =
      (credential w ≡ false)
      × (is_ok (joined w).0 ≡ false)
      × (remote.sign phrase algorithm (joined w).1 ≡ (err not_connected, (joined w).1))

  -- A credential that does not log in: Login succeeds, and Sign fails as not authenticated.
  abbrev pub Locked : Text → Text → W → Type 0
  Locked phrase algorithm w =
      (credential w ≡ true)
      × ((joined w).0 ≡ ok tt)
      × (is_ok (logged w).0 ≡ false)
      × ((remote.sign phrase algorithm (joined w).1).0
          ≡ err (Error.wrap "remote signer: sign" (Error.status StatusCode.unauthenticated "")))

  -- Else Sign gives what the local signer's Sign gives after its Login, and leaves it the same world.
  abbrev pub Signs : Text → Text → W → Type 0
  Signs phrase algorithm w =
      let here = signer.sign phrase algorithm (logged w).1 in
      (credential w ≡ true)
      × ((joined w).0 ≡ ok tt)
      × (is_ok (logged w).0 ≡ true)
      × (remote.sign phrase algorithm (joined w).1 ≡ (
        map_err (λ _. Error.wrap "remote signer: sign" (Error.status StatusCode.internal "sign"))
            here.0,
        ready here.1,
      ))

  joined_refused :
      (w : W)
      → credential w ≡ false
      → (is_ok (joined w).0 ≡ false) × ((joined w).1.connected ≡ false)
  unfolding remote_signer login login_connected login_ready health_rpc health_probe
  joined_refused w h = (ground (arith, h), ground (arith, h))

  abbrev connected_to : W → Bool → RemoteSigner (SignerServiceServer W)
  connected_to w b = record { connected = true; net = record { local = w; logged_in = b } }

  joined_ready : (w : W) → credential w ≡ true → joined w ≡ (ok tt, connected_to (named w).1 false)
  unfolding remote_signer login login_connected login_ready health_rpc health_probe
  joined_ready w h = ground (arith, h)

  sign_unconnected :
      (phrase algorithm : Text) (r : RemoteSigner (SignerServiceServer W))
      → r.connected ≡ false
      → remote.sign phrase algorithm r ≡ (err not_connected, r)
  unfolding remote_signer call
  sign_unconnected phrase algorithm r h = rw h refl

  sign_locked :
      (phrase algorithm : Text) (w : W)
      → is_ok (signer.login w).0 ≡ false
      → (remote.sign phrase algorithm (connected_to w false)).0
        ≡ err (Error.wrap "remote signer: sign" (Error.status StatusCode.unauthenticated ""))
  unfolding remote_signer call sign_rpc rpc ensure_login
  sign_locked phrase algorithm w h = ground (arith, h)

  sign_open :
      (phrase algorithm : Text) (w : W)
      → is_ok (signer.login w).0 ≡ true
      → let here = signer.sign phrase algorithm (signer.login w).1 in
        remote.sign phrase algorithm (connected_to w false) ≡ (
          map_err
              (λ _. Error.wrap "remote signer: sign" (Error.status StatusCode.internal "sign"))
              here.0,
          ready here.1,
        )
  unfolding remote_signer call sign_rpc rpc ensure_login
  sign_open phrase algorithm w h = ground (arith, h)

  -- A new RemoteSigner that logs in to a new server, over a network that is up, and then signs: its Login
  -- fails exactly where the local signer is not available or does not name its identity, and then its
  -- Sign sends nothing and fails; else its Sign makes the server log in, and fails as not authenticated
  -- where that fails; else it gives the signature that the local signer gives after the same calls, in
  -- the same world, or an internal status for its error.
  pub remote-login-sign :
      (phrase algorithm : Text) (w : W)
      → Refused phrase algorithm w ⊎ (Locked phrase algorithm w ⊎ Signs phrase algorithm w)
  remote-login-sign phrase algorithm w = elim (Bool-cases (credential w)) [
    | inr h ↦
        let (failed, apart) = joined_refused w h in
        inl (h, failed, sign_unconnected phrase algorithm (joined w).1 apart)
    | inl h ↦
        let e = joined_ready w h in
        let on = ap (λ x. remote.sign phrase algorithm x.1) e in
        elim (Bool-cases (is_ok (logged w).0)) [
          | inr l ↦ inr (
              inl (
                h,
                ap (λ x. x.0) e,
                l,
                ap (λ x. x.0) on ∙ sign_locked phrase algorithm (named w).1 l,
              ))
          | inl l ↦ inr (inr (h, ap (λ x. x.0) e, l, on ∙ sign_open phrase algorithm (named w).1 l))
        ]
  ]

  -- Through a RemoteSigner that is connected to a server that is logged in, an identity whose end of
  -- validity is a whole int64 second of Unix time arrives unchanged.
  pub remote-identity :
      (w : W) (id : Identity) (sec : ℤ)
      → (signer.identity w).0 ≡ ok id
      → id.not_after ≡ from_unix sec
      → IsInt64 sec
      → (remote_signer (loopback signer)).identity (ready w) ≡ (ok id, ready (signer.identity w).1)
  unfolding remote_signer identity_rpc
  remote-identity w id sec e at h =
      rw e
        (ap (λ (t : Time). (ok (record id { not_after = t }), ready (signer.identity w).1)) whole)
    where
      whole : from_unix (unix id.not_after) ≡ id.not_after
      whole = ap (λ t. from_unix (unix t)) at ∙ ap from_unix (unix-from_unix sec h) ∙ sym at
