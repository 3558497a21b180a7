-- ===== src/GrpcLogin.antt =====
-- internal/grpclogin/server.go: the LoginService over a BearerProvider. The gRPC library and the
-- generated stubs are left out: an RPC is a function from the request to the reply or an error.
pub mod Reports
pub mod Dated
use pje_headless.Base.{
  ℕ, Option, none, some, Bool, if◌then◌else◌, Text, codes, Result, ok, err, Error, Act, branch,
}
use pje_headless.Base.Int.{ℤ, pos}
use pje_headless.Clock.{Time, is_zero, unix}
use pje_headless.Net.{Net}
use pje_headless.LoginSvc.Manager.{Reply}

-- BearerProvider, over the state `W` of the provider and what surrounds it.
pub record BearerProvider (W : Type 0) : Type 0 where
  pub get_bearer : Bool → W → Reply × W
  pub snapshot : W → Bool × Time

pub record BearerReply : Type 0 where
  pub bearer : Text
  pub expires_at_unix : ℤ
  pub from_cache : Bool

pub record HealthStatus : Type 0 where
  pub has_bearer : Bool
  pub expires_at_unix : ℤ

unfoldable pub exp_unix : Time → ℤ
unfolding is_zero unix
exp_unix t = if is_zero t then pos 0 else unix t

-- The reply of the GetBearer RPC to the results of the provider.
unfoldable pub bearer_reply : Reply → Result BearerReply
bearer_reply r = elim r.error [
  | some e ↦ err (Error.wrap "grpclogin: GetBearer" e)
  | none ↦ ok (record {
    bearer = r.bearer;
    expires_at_unix = exp_unix r.expires_at;
    from_cache = r.from_cache;
  })
]

module _ {W : Type 0} (provider : BearerProvider W) where
  unfoldable pub get_bearer_rpc : Bool → W → Result BearerReply × W
  unfolding bearer_reply
  get_bearer_rpc force w = let (r, w') = provider.get_bearer force w in (bearer_reply r, w')

  unfoldable pub health : W → HealthStatus
  health w =
      let (has, exp) = provider.snapshot w in
      record { has_bearer = has; expires_at_unix = exp_unix exp }

-- ListenAndServe, then Serve: `serve` is the gRPC server with the service registered.
unfoldable pub listen_and_serve :
    {W : Type 0} → Net W → (ℕ → Act W (Unit {0})) → Text → Act W (Unit {0})
listen_and_serve net serve addr w =
    branch (net.listen (codes "tcp") addr w) (λ listener v. serve listener v)
      (λ e v. (err (Error.wrap "grpclogin: listen" e), v))
