-- ===== src/LoginSvc/System/Invariant.antt =====
-- What holds of the manager, its Inflights and its calls in every reachable state.
use pje_headless.Base.{
  ℕ, ◌<◌, ◌≡◌, refl, ◌⊎◌, Option, none, some, Bool, true, false, arith, Text, Result, ok, err,
  update,
}
use pje_headless.Clock.{Time, Duration}
use pje_headless.LoginSvc.Manager.{
  Manager, Inflight, Reply, lead, new_manager, enter, enter_cases, publish, reply_of,
}
use pje_headless.LoginSvc.System.{
  System, Pc, idle, running, waiting, returned, init, entered, published, woken, gave_up, Step,
  call, finish, wake, cancel, Reach, start, later,
}

pub record Inv (s : System) : Type 0 where
  pub run_flight : (i f : ℕ) → s.pc i ≡ running f → s.mgr.flight ≡ some f
  pub run_unique : (i j f g : ℕ) → s.pc i ≡ running f → s.pc j ≡ running g → i ≡ j
  pub run_live : (f : ℕ) → s.mgr.flight ≡ some f → (i : ℕ) × (s.pc i ≡ running f)
  pub flying : (f : ℕ) → s.mgr.flight ≡ some f → (f < s.next) × ((s.heap f).done ≡ false)
  pub wait :
      (i f : ℕ)
      → s.pc i ≡ waiting f
      → (f < s.next) × ((s.mgr.flight ≡ some f) ⊎ ((s.heap f).done ≡ true))
  pub served :
      (i f : ℕ) (r : Reply)
      → s.pc i ≡ returned (some f) r
      → (f < s.next) × ((s.heap f).done ≡ true) × (r ≡ reply_of (s.heap f))

init-Inv : (margin : Duration) → Inv (init margin)
unfolding new_manager
init-Inv margin = record {
  run_flight = λ i f h. cc;
  run_unique = λ i j f g h k. cc;
  run_live = λ f h. cc;
  flying = λ f h. cc;
  wait = λ i f h. cc;
  served = λ i f r h. cc;
}

-- A call moves to a place where it runs no login, and nothing else changes.
settle-Inv :
    (s : System) (i : ℕ) (p : Pc)
    → Inv s
    → ((f : ℕ) → s.pc i ≡ running f → ⊥)
    → ((f : ℕ) → p ≡ running f → ⊥)
    → ((f : ℕ) → p ≡ waiting f → s.mgr.flight ≡ some f)
    → ((f : ℕ) (r : Reply)
        → p ≡ returned (some f) r
        → (f < s.next) × ((s.heap f).done ≡ true) × (r ≡ reply_of (s.heap f)))
    → Inv (record s { pc = update s.pc i p })
settle-Inv s i p v was not_run waits serves = record {
  run_flight = λ j f h. ground (arith, v.run_flight j f, not_run f);
  run_unique = λ j k f g h l. ground (arith, v.run_unique j k f g, not_run f, not_run g);
  run_live = λ f h. ground (arith, v.run_live f h, was f);
  flying = λ f h. v.flying f h;
  wait = λ j f h. ground (arith, v.wait j f, waits f, v.flying f);
  served = λ j f r h. ground (arith, v.served j f r, serves f r);
}

-- A call becomes the winner: it allocates an Inflight and starts loginFn.
lead-Inv :
    (s : System) (i : ℕ) (m : Manager)
    → Inv s
    → s.pc i ≡ idle
    → s.mgr.flight ≡ none
    → m.flight ≡ some s.next
    → Inv (entered i (lead s.next, m) s)
unfolding entered
lead-Inv s i m v was empty set = record {
  run_flight = λ j f h. ground (arith, v.run_flight j f);
  run_unique = λ j k f g h l. ground (arith, v.run_flight j f, v.run_flight k g);
  run_live = λ f h. (i, ground arith);
  flying = λ f h. ground arith;
  wait = λ j f h. ground (arith, v.wait j f);
  served = λ j f r h. ground (arith, v.served j f r);
}

-- The winner publishes: no flight is left, and its Inflight is done.
publish-Inv :
    (s : System) (i f : ℕ) (m : Manager) (fl : Inflight)
    → Inv s
    → s.pc i ≡ running f
    → m.flight ≡ none
    → fl.done ≡ true
    → Inv (published i f (m, fl) s)
unfolding published
publish-Inv s i f m fl v was empty done = record {
  run_flight = λ j g h. ground (arith, v.run_unique i j f g was);
  run_unique = λ j k g h p q. ground (arith, v.run_unique j k g h);
  run_live = λ g h. cc;
  flying = λ g h. cc;
  wait = λ j g h. ground (arith, v.wait j g, v.run_flight i f was);
  served = λ j g r h. ground (arith, v.served j g r, v.run_flight i f was, v.flying f);
}

-- The first critical section starts a login only where none is in flight.
enter-Inv :
    (s : System) (i : ℕ) (now : Time) (force : Bool)
    → Inv s
    → s.pc i ≡ idle
    → Inv (entered i (enter now force s.next s.mgr) s)
unfolding entered
enter-Inv s i now force v was =
    enter_cases (λ r. Inv (entered i r s)) now force s.next s.mgr
      (λ fast. settle-Inv s i _ v (λ f h. cc) (λ f h. cc) (λ f h. cc) (λ f r h. cc))
      (λ slow free. lead-Inv s i _ v was free refl)
      (λ f slow busy. settle-Inv s i _ v (λ g h. cc) (λ g h. cc) (λ g h. cc) (λ g r h. cc))

pub publish_done :
    (parse : Text → Option Time) (now : Time) (r : Result Text) (m : Manager) (fl : Inflight)
    → ((publish parse now r m fl).0.flight ≡ none) × ((publish parse now r m fl).1.done ≡ true)
unfolding publish
publish_done parse now (ok b) m fl = (refl, refl)
publish_done parse now (err e) m fl = (refl, refl)

module _ {parse : Text → Option Time} where
  -- Every step of the system keeps the invariant.
  pub Step-Inv : {s t : System} → Step parse s t → Inv s → Inv t
  unfolding woken gave_up
  Step-Inv {s} (call i now force was) v = enter-Inv s i now force v was
  Step-Inv {s} (finish i f now r was) v =
      let (gone, done) = publish_done parse now r s.mgr (s.heap f) in
      publish-Inv s i f _ _ v was gone done
  Step-Inv {s} (wake i f was done) v =
      settle-Inv s i _ v (λ g h. cc) (λ g h. cc) (λ g h. cc)
        (λ g r h. ground (arith, v.wait i f was))
  Step-Inv {s} (cancel i f e was) v =
      settle-Inv s i _ v (λ g h. cc) (λ g h. cc) (λ g h. cc) (λ g r h. cc)

  -- So it holds after any interleaving.
  pub Reach-Inv : {margin : Duration} {s : System} → Reach parse margin s → Inv s
  Reach-Inv {margin} start = init-Inv margin
  Reach-Inv (later r st) = Step-Inv st (Reach-Inv r)
