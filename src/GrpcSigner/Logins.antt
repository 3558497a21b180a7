-- ===== src/GrpcSigner/Logins.antt =====
-- How often the SignerService logs in to the local signer.
use pje_headless.Base.{
  ℕ, suc, ◌≡◌, refl, ap, subst, ◌∙◌, Bool, true, false, Bool-cases, inl, inr, arith, if◌then◌else◌,
  List, [], ◌∷◌, Text, Result, ok, err, Error, Act,
}
use pje_headless.Signer.Defs.{Signer}
use pje_headless.GrpcSigner.{
  SignerServiceServer, new_signer_service_server, ensure_login, rpc, sign_rpc, cert_chain_rpc,
  identity_rpc, health_rpc, health_probe, logged_in_call, after_login,
}

abbrev pub count_login : Result (Unit {0}) → ℕ → ℕ
count_login (ok _) n = suc n
count_login (err e) n = n

-- The local signer with a count of the logins that succeeded.
module _ {W : Type 0} where
  abbrev pub passing : {A : Type 0} → Act W A → Act (W × ℕ) A
  passing op (w, n) = let (r, w') = op w in (r, (w', n))

  abbrev pub counted : Signer W → Signer (W × ℕ)
  counted s = record {
    login = λ (w, n). let (r, w') = s.login w in (r, (w', count_login r n));
    sign = λ phrase algorithm. passing (s.sign phrase algorithm);
    cert_chain_pki_path = passing s.cert_chain_pki_path;
    identity = passing s.identity;
    available = λ (w, n). let (up, w') = s.available w in (up, (w', n));
  }

pub data Request : Type 0 where
  sign_request : Text → Text → Request
  chain_request identity_request health_request : Request

module _ {W : Type 0} where
  abbrev pub serve : Signer W → SignerServiceServer W → Request → SignerServiceServer W
  serve signer s (sign_request phrase algorithm) = (sign_rpc signer phrase algorithm s).1
  serve signer s chain_request = (cert_chain_rpc signer s).1
  serve signer s identity_request = (identity_rpc signer s).1
  serve signer s health_request = (health_rpc signer s).1

  abbrev pub serve_all : Signer W → SignerServiceServer W → List Request → SignerServiceServer W
  serve_all signer s [] = s
  serve_all signer s (q ∷ qs) = serve_all signer (serve signer s q) qs

  -- One login, if the server believes to be logged in, and none else.
  abbrev pub Counted : SignerServiceServer (W × ℕ) → Type 0
  Counted s = s.local.1 ≡ (if s.logged_in then 1 else 0)

module _ {W : Type 0} (signer : Signer W) where
  after_login-Counted :
      (r : Result (Unit {0})) (w : W) (n : ℕ)
      → n ≡ 0
      → Counted (after_login (counted signer) (r, (w, count_login r n))).1
  after_login-Counted (ok _) w n e = ap suc e
  after_login-Counted (err x) w n e = e

  Counted-at :
      (s : SignerServiceServer (W × ℕ)) (b : Bool)
      → s.logged_in ≡ b
      → Counted s
      → s.local.1 ≡ (if b then 1 else 0)
  Counted-at s b e c = subst (λ x. s.local.1 ≡ (if x then 1 else 0)) e c

  pub ensure_login-Counted :
      (s : SignerServiceServer (W × ℕ)) → Counted s → Counted (ensure_login (counted signer) s).1
  unfolding ensure_login
  ensure_login-Counted s c = elim (Bool-cases s.logged_in) [
    | inl old ↦ rw old (Counted-at s true old c)
    | inr new ↦ rw new (after_login-Counted _ _ s.local.1 (Counted-at s false new c))
  ]

  logged_in_call-Counted :
      {A : Type 0} (op : Act W A) (failure : Error) (r : Result (Unit {0}))
      (s : SignerServiceServer (W × ℕ))
      → Counted s
      → Counted (logged_in_call (counted signer) (passing op) failure (r, s)).1
  logged_in_call-Counted op failure (err e) s c = c
  logged_in_call-Counted op failure (ok _) s c = c

  rpc-Counted :
      {A : Type 0} (op : Act W A) (failure : Error) (s : SignerServiceServer (W × ℕ))
      → Counted s
      → Counted (rpc (counted signer) (passing op) failure s).1
  unfolding rpc
  rpc-Counted op failure s c =
      logged_in_call-Counted op failure (ensure_login (counted signer) s).0
        (ensure_login (counted signer) s).1 (ensure_login-Counted s c)

  pub probe-count : (w : W) (n : ℕ) → (health_probe (counted signer) (w, n)).1.1 ≡ n
  unfolding health_probe
  probe-count w n = ground arith

  serve-Counted :
      (s : SignerServiceServer (W × ℕ)) (q : Request)
      → Counted s
      → Counted (serve (counted signer) s q)
  unfolding sign_rpc cert_chain_rpc identity_rpc health_rpc
  serve-Counted s (sign_request phrase algorithm) c =
      rpc-Counted (signer.sign phrase algorithm) _ s c
  serve-Counted s chain_request c = rpc-Counted signer.cert_chain_pki_path _ s c
  serve-Counted s identity_request c = rpc-Counted signer.identity _ s c
  serve-Counted s health_request c = probe-count s.local.0 s.local.1 ∙ c

  serve_all-Counted :
      (s : SignerServiceServer (W × ℕ)) (qs : List Request)
      → Counted s
      → Counted (serve_all (counted signer) s qs)
  serve_all-Counted s [] c = c
  serve_all-Counted s (q ∷ qs) c =
      serve_all-Counted (serve (counted signer) s q) qs (serve-Counted s q c)

  -- A new server logs in to the local signer with success at most once, whatever requests it serves:
  -- once where it is logged in, and never where it is not.
  one_login_served :
      (w : W) (qs : List Request)
      → let s = serve_all (counted signer) (new_signer_service_server (w, 0)) qs in
        s.local.1 ≡ (if s.logged_in then 1 else 0)
  one_login_served w qs = serve_all-Counted (new_signer_service_server (w, 0)) qs refl
