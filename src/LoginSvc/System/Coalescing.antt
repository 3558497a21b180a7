-- ===== src/LoginSvc/System/Coalescing.antt =====
-- What concurrent callers of GetBearer may rely on.
use pje_headless.Base.{ℕ, ◌≡◌, ◌∙◌, sym, inl, inr, ◌⊎◌, Option, some, true, arith, Text, Result}
use pje_headless.Clock.{Time, Duration}
use pje_headless.LoginSvc.Manager.{Reply, publish, reply_of}
use pje_headless.LoginSvc.System.{
  System, running, waiting, returned, published, woken, Step, finish, wake, Reach,
}
use pje_headless.LoginSvc.System.Invariant.{Reach-Inv, publish_done}

module _ {parse : Text → Option Time} {margin : Duration} {s : System}
    (r : Reach parse margin s) where
  -- In a reachable state at most one call is running loginFn.
  pub one_login : (i j f g : ℕ) → s.pc i ≡ running f → s.pc j ≡ running g → i ≡ j
  one_login = (Reach-Inv r).run_unique

  -- In a reachable state, calls that the same login served have returned the same reply: the bearer,
  -- the expiry and the error alike.
  pub same_reply :
      (i j f : ℕ) (p q : Reply)
      → s.pc i ≡ returned (some f) p
      → s.pc j ≡ returned (some f) q
      → p ≡ q
  same_reply i j f p q h k = ((Reach-Inv r).served i f p h).2 ∙ sym ((Reach-Inv r).served j f q k).2

-- Where call `i` has returned the reply of `f`.
pub record Served (i f : ℕ) (t : System) : Type 0 where
  pub at : t.pc i ≡ returned (some f) (reply_of (t.heap f))

module _ {parse : Text → Option Time} {margin : Duration} {s : System}
    (r : Reach parse margin s) where
  pub wake-Served :
      (t : System) (i f : ℕ)
      → t.pc i ≡ waiting f
      → (t.heap f).done ≡ true
      → Served i f (woken i f t)
  unfolding woken
  wake-Served t i f h d = record { at = ground arith }

  pub after_publish :
      (i j f : ℕ) (now : Time) (res : Result Text)
      → s.pc i ≡ waiting f
      → s.pc j ≡ running f
      → let t = published j f (publish parse now res s.mgr (s.heap f)) s in
        (t.pc i ≡ waiting f) × ((t.heap f).done ≡ true)
  unfolding published
  after_publish i j f now res h k =
      (ground arith, ground (arith, publish_done parse now res s.mgr (s.heap f)))

  -- Call `i` can return the reply of `f` with the next step.
  abbrev pub Wakes : ℕ → ℕ → System → Type 0
  Wakes i f t = Step parse t (woken i f t) × Served i f (woken i f t)

  -- No wakeup is lost: in a reachable state a waiting call either can return the reply of its login with
  -- the next step, or some call is running that login, and when that call finishes, whatever loginFn gives
  -- it and whenever, the very next step can be the waiting call's return with the reply of that login.
  pub waiting-Served :
      (i f : ℕ)
      → s.pc i ≡ waiting f
      → Wakes i f s
        ⊎ ((j : ℕ) × (s.pc j ≡ running f)
            × ((now : Time) (res : Result Text)
                → let t = published j f (publish parse now res s.mgr (s.heap f)) s in
                  Step parse s t × Wakes i f t))
  waiting-Served i f h = elim (((Reach-Inv r).wait i f h).1) [
    | inr d ↦ inl (wake i f h d, wake-Served s i f h d)
    | inl flying ↦
        let (j, k) = (Reach-Inv r).run_live f flying in
        inr (
          j,
          k,
          λ now res.
              let (h', d) = after_publish i j f now res h k in
              (finish j f now res k, (wake i f h' d, wake-Served _ i f h' d)),
        )
  ]
