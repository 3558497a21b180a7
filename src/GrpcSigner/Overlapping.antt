-- ===== src/GrpcSigner/Overlapping.antt =====
-- RPCs of the SignerService that overlap. ensureLogin holds the mutex while it logs in, so it is one
-- step; the method of the signer that follows it is another, and other calls come between them.
use pje_headless.Base.{
  ℕ, ◌≡◌, refl, Bool, true, Bool-cases, inl, inr, if◌then◌else◌, update, update_cases, subst, ◌∙◌,
  ap, Result, ok, err, Act,
}
use pje_headless.Signer.Defs.{Signer}
use pje_headless.GrpcSigner.{
  SignerServiceServer, new_signer_service_server, ensure_login, after_login, health_probe,
}
use pje_headless.GrpcSigner.Logins.{counted, passing, Counted, ensure_login-Counted, probe-count}

-- Where a call stands: before ensureLogin, behind it, turned away by it, or behind the signer's method.
pub data Stage : Type 0 where
  arrived admitted refused answered : Stage

abbrev pub stage_of : Result (Unit {0}) → Stage
stage_of (ok _) = admitted
stage_of (err e) = refused

-- The server, with the count of logins beside the signer's world, and its calls.
pub record Serving (W : Type 0) : Type 0 where
  pub server : SignerServiceServer (W × ℕ)
  pub stage : ℕ → Stage

module _ {W : Type 0} (signer : Signer W) where
  pub data Step (s : Serving W) : Serving W → Type 1 where
    ensures :
        (i : ℕ)
        → s.stage i ≡ arrived
        → Step s (record {
          server = (ensure_login (counted signer) s.server).1;
          stage = update s.stage i (stage_of (ensure_login (counted signer) s.server).0);
        })
    calls :
        {A : Type 0} (i : ℕ) (op : Act W A)
        → s.stage i ≡ admitted
        → Step s (record {
          server = record s.server { local = (passing op s.server.local).1 };
          stage = update s.stage i answered;
        })
    probes : Step s (record s {
      server = record s.server { local = (health_probe (counted signer) s.server.local).1 };
    })

  pub data Reach : Serving W → Type 1 where
    start :
        (w : W) → Reach (record { server = new_signer_service_server (w, 0); stage = λ _. arrived })
    later : {s t : Serving W} → Reach s → Step s t → Reach t

  -- A call behind ensureLogin finds the server logged in.
  abbrev At : Bool → Stage → Type 0
  At b arrived = Unit {0}
  At b admitted = b ≡ true
  At b refused = Unit {0}
  At b answered = b ≡ true

  At-later : (b c : Bool) → (b ≡ true → c ≡ true) → (p : Stage) → At b p → At c p
  At-later b c f arrived h = tt
  At-later b c f admitted h = f h
  At-later b c f refused h = tt
  At-later b c f answered h = f h

  ensure_login-stays :
      (s : SignerServiceServer (W × ℕ))
      → s.logged_in ≡ true
      → (ensure_login (counted signer) s).1.logged_in ≡ true
  unfolding ensure_login
  ensure_login-stays s h = rw h

  after_login-At :
      (r : Result (Unit {0})) (w : W × ℕ)
      → let x = after_login (counted signer) (r, w) in At x.1.logged_in (stage_of x.0)
  after_login-At (ok _) w = refl
  after_login-At (err e) w = tt

  ensure_login-At :
      (s : SignerServiceServer (W × ℕ))
      → let x = ensure_login (counted signer) s in At x.1.logged_in (stage_of x.0)
  unfolding ensure_login
  ensure_login-At s = elim (Bool-cases s.logged_in) [
    | inl old ↦ rw old refl
    | inr new ↦ rw new (after_login-At _ _)
  ]

  abbrev Sound : Serving W → Type 0
  Sound s = Counted s.server × ((i : ℕ) → At s.server.logged_in (s.stage i))

  Step-Sound : {s t : Serving W} → Step s t → Sound s → Sound t
  Step-Sound {s} (ensures i h) (count, at) = (
    ensure_login-Counted signer s.server count,
    λ j.
        let x = ensure_login (counted signer) s.server in
        update_cases (At x.1.logged_in) s.stage i (stage_of x.0) j (ensure_login-At s.server) (
          At-later s.server.logged_in x.1.logged_in (ensure_login-stays s.server) (s.stage j)
            (at j)),
  )
  Step-Sound {s} (calls i op h) (count, at) = (
    count,
    λ j.
        update_cases (At s.server.logged_in) s.stage i answered j
          (subst (At s.server.logged_in) h (at i)) (at j),
  )
  Step-Sound {s} probes (count, at) =
      (probe-count signer s.server.local.0 s.server.local.1 ∙ count, at)

  Reach-Sound : {s : Serving W} → Reach s → Sound s
  Reach-Sound (start w) = (refl, λ i. tt)
  Reach-Sound (later r st) = Step-Sound st (Reach-Sound r)

  -- However the RPCs overlap: the server has logged in to the local signer with success once where it
  -- is logged in and never where it is not, and where a call is about to use the signer, once.
  pub overlap-Logins :
      {s : Serving W}
      → Reach s
      → (s.server.local.1 ≡ (if s.server.logged_in then 1 else 0))
        × ((i : ℕ) → s.stage i ≡ admitted → s.server.local.1 ≡ 1)
  overlap-Logins {s} r =
      let (count, at) = Reach-Sound r in
      (
        count,
        λ i h.
            count ∙ ap (λ (b : Bool). if b then 1 else 0) (subst (At s.server.logged_in) h (at i)),
      )
