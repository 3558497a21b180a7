-- ===== src/Browser/Polling.antt =====
-- The polling loops of internal/browser, `for time.Now().Before(deadline) { ... }`. The clock and the
-- end of every wait belong to the world, so a loop takes fuel; `none` means that it ran out.
pub mod Rules
use pje_headless.Base.{ℕ, zero, suc, if◌then◌else◌, Option, none, some, Result, ok, err, Error}
use pje_headless.Clock.{Time, before}

-- How a round ends: with a return, or at the head of the loop again.
pub data Round (A : Type 0) : Type 0 where
  done : Result A → Round A
  again : Round A

-- The end of a round that goes on unless its last step fails.
abbrev pub resume : {A S : Type 0} → Result (Unit {0}) × S → Round A × S
resume (ok _, s) = (again, s)
resume (err e, s) = (done (err e), s)

module _ {A S : Type 0} where
  abbrev pub follow : (S → Option (Result A × S)) → Option (Round A × S) → Option (Result A × S)
  follow rest none = none
  follow rest (some (done r, s)) = some (r, s)
  follow rest (some (again, s)) = rest s

  -- `late` is what the code returns after the loop. The body gives nothing where a loop inside it
  -- runs out of fuel.
  unfoldable pub until :
      ℕ → (S → Time) → Time → (S → Option (Round A × S)) → Error → S → Option (Result A × S)
  until zero now deadline body late s = none
  until (suc n) now deadline body late s =
      let run = follow (until n now deadline body late) (body s) in
      if before (now s) deadline then run else some (err late, s)
