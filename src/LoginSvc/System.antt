-- ===== src/LoginSvc/System.antt =====
-- Goroutines that call GetBearer on one manager, interleaved at the mutex.
pub mod Invariant
pub mod Coalescing
use pje_headless.Base.{ℕ, suc, ◌≡◌, Option, none, some, Bool, true, Text, Result, Error, update}
use pje_headless.Clock.{Time, Duration}
use pje_headless.LoginSvc.Manager.{
  Manager, Inflight, Reply, Next, hit, lead, attach, new_manager, new_inflight, enter, publish,
  reply_of, cancelled,
}

-- Where a call stands. `returned` remembers the Inflight that served it, if one did.
pub data Pc : Type 0 where
  idle : Pc
  running : ℕ → Pc
  waiting : ℕ → Pc
  returned : Option ℕ → Reply → Pc

-- The manager, the heap of Inflights with the first free address, and the calls.
pub record System : Type 0 where
  pub mgr : Manager
  pub heap : ℕ → Inflight
  pub next : ℕ
  pub pc : ℕ → Pc

abbrev pub init : Duration → System
init margin = record {
  mgr = new_manager margin;
  heap = λ _. new_inflight;
  next = 0;
  pc = λ _. idle;
}

-- Call `i` has left its first critical section.
unfoldable pub entered : ℕ → Next × Manager → System → System
entered i (hit reply, m) s = record s { mgr = m; pc = update s.pc i (returned none reply) }
entered i (lead f, m) s = record s {
  mgr = m;
  heap = update s.heap f new_inflight;
  next = suc s.next;
  pc = update s.pc i (running f);
}
entered i (attach f, m) s = record s { mgr = m; pc = update s.pc i (waiting f) }

-- Call `i` has published `f`, in its second critical section.
unfoldable pub published : ℕ → ℕ → Manager × Inflight → System → System
published i f (m, fl) s = record s {
  mgr = m;
  heap = update s.heap f fl;
  pc = update s.pc i (returned (some f) (reply_of fl));
}

unfoldable pub woken : ℕ → ℕ → System → System
woken i f s = record s { pc = update s.pc i (returned (some f) (reply_of (s.heap f))) }

unfoldable pub gave_up : ℕ → Error → System → System
gave_up i e s = record s { pc = update s.pc i (returned none (cancelled e)) }

module _ (parse : Text → Option Time) where
  pub data Step (s : System) : System → Type 0 where
    call :
        (i : ℕ) (now : Time) (force : Bool)
        → s.pc i ≡ idle
        → Step s (entered i (enter now force s.next s.mgr) s)
    finish :
        (i f : ℕ) (now : Time) (r : Result Text)
        → s.pc i ≡ running f
        → Step s (published i f (publish parse now r s.mgr (s.heap f)) s)
    wake : (i f : ℕ) → s.pc i ≡ waiting f → (s.heap f).done ≡ true → Step s (woken i f s)
    cancel : (i f : ℕ) (e : Error) → s.pc i ≡ waiting f → Step s (gave_up i e s)

  pub data Reach (margin : Duration) : System → Type 0 where
    start : Reach margin (init margin)
    later : {s t : System} → Reach margin s → Step s t → Reach margin t
