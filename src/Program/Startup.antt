-- ===== src/Program/Startup.antt =====
-- How runSignerOnly starts, over a network that logs what it is asked for.
use pje_headless.Base.{
  ℕ, ◌≡◌, refl, ◌∙◌, ap, [], ◌∷◌, Text, codes, Result, ok, err, Act, branch, branch_cases,
}
use pje_headless.Net.{Net}
use pje_headless.Config.{Config, Built, build_signer}
use pje_headless.Signer.Defs.{Signer}
use pje_headless.GrpcSigner.{listen_and_serve}
use pje_headless.PjeOffice.Listening.{Asked, logged_net}
use pje_headless.Program.{Ending, exited, ended, run_signer_only}

-- A backend, and a gRPC server, that ask the network for nothing.
pub record Quiet {W : Type 0} (signer : Built → Signer (W × Asked))
    (serve : Signer (W × Asked) → ℕ → Act (W × Asked) (Unit {0})) : Type 0 where
  pub login : (b : Built) (w : W × Asked) → ((signer b).login w).1.1 ≡ w.1
  pub serving : (s : Signer (W × Asked)) (n : ℕ) (w : W × Asked) → (serve s n w).1.1 ≡ w.1

-- With the result of Login at the start: what was asked for, and how the run ends where Login fails.
abbrev pub FailsFast : {W : Type 0} → Config → Result (Unit {0}) → Ending × (W × Asked) → Type 0
FailsFast cfg (ok _) x = x.1.1 ≡ (codes "tcp", cfg.grpc_addr) ∷ []
FailsFast cfg (err e) x = (x.0 ≡ exited 1) × (x.1.1 ≡ [])

module _ {W : Type 0} (net : Net W) (signer : Built → Signer (W × Asked))
    (serve : Signer (W × Asked) → ℕ → Act (W × Asked) (Unit {0})) (quiet : Quiet signer serve) where
  ended_log : (r : Result (Unit {0})) (w : W × Asked) → (ended (r, w)).1.1 ≡ w.1
  ended_log (ok _) w = refl
  ended_log (err e) w = refl

  served_log :
      (s : Signer (W × Asked)) (addr : Text) (w : W × Asked)
      → (ended (listen_and_serve (logged_net net) (serve s) addr w)).1.1 ≡ (codes "tcp", addr) ∷ w.1
  unfolding listen_and_serve
  served_log s addr w =
      let asked = (logged_net net).listen (codes "tcp") addr w in
      branch_cases
        (λ (x : Result (Unit {0}) × (W × Asked)). (ended x).1.1 ≡ (codes "tcp", addr) ∷ w.1) asked _
        _ (λ n _. ended_log (serve s n asked.1).0 _ ∙ quiet.serving s n asked.1) (λ e _. refl)

  started-FailsFast :
      (cfg : Config) (s : Signer (W × Asked)) (r : Result (Unit {0})) (w : W × Asked)
      → w.1 ≡ []
      → FailsFast cfg r (
          branch
            (r, w)
            (λ _ v. ended (listen_and_serve (logged_net net) (serve s) cfg.grpc_addr v))
            (λ e v. (exited 1, v)))
  started-FailsFast cfg s (ok _) w e =
      served_log s cfg.grpc_addr w ∙ ap (λ log. (codes "tcp", cfg.grpc_addr) ∷ log) e
  started-FailsFast cfg s (err x) w e = (refl, e)

  -- In the mode signer-only, with a backend and a gRPC server that ask the network for nothing: where the
  -- Login at the start succeeds, the program asks the network once, for the configured gRPC address;
  -- where it fails, the program asks for nothing and exits with code 1.
  pub run_signer_only-FailsFast :
      (cfg : Config) (w : W)
      → FailsFast cfg
          ((signer (build_signer cfg)).login (w, [])).0
          (run_signer_only (logged_net net) signer serve cfg (w, []))
  unfolding run_signer_only
  run_signer_only-FailsFast cfg w =
      let s = signer (build_signer cfg) in
      started-FailsFast cfg s (s.login (w, [])).0 _ (quiet.login (build_signer cfg) (w, []))
