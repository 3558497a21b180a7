-- ===== src/Browser/Scripts/Ends.antt =====
-- The waits of the page scripts return.
use pje_headless.Base.{
  ℕ, ◌≤◌, ◌≡◌, refl, Bool, true, false, Option, none, some, Result, ok, err, Error, arith,
}
use pje_headless.Base.Int.{pos, ◌+ℤ◌, +ℤ_parts}
use pje_headless.Clock.{Time}
use pje_headless.Browser.Polling.{resume}
use pje_headless.Browser.Polling.Rules.{Passes, time_left, Advances, Returns, until-Returns}
use pje_headless.Browser.Flow.{Tab, seconds, milliseconds, sleep_ctx, waited}
use pje_headless.Browser.Flow.Respect.{KeepsQuiet}
use pje_headless.Browser.Scripts.{
  paused, autenticar_late, consulta_late, autenticar_round, wait_autenticar_ready, consulta_round,
  wait_consulta_form,
}

-- The clock of the world is later, or shows the same time.
abbrev pub NotBefore : {V : Type 0} → Tab V → V → V → Type 0
NotBefore tab v w = Passes 0 (tab.now v) (tab.now w)

-- A timer that fires took its time.
pub record Timers {V : Type 0} (tab : Tab V) : Type 0 where
  pub fires :
      (c n : ℕ) (v : V)
      → (tab.wait c (pos n) v).0 ≡ none
      → Passes n (tab.now v) (tab.now (tab.wait c (pos n) v).1)

pub deadline_left : (t : Time) (n : ℕ) → time_left t (t +ℤ pos n) ≤ n
deadline_left t n = omega (arith, +ℤ_parts t (pos n))

pub later-Passes : (n : ℕ) (t u w : Time) → Passes 0 t u → Passes n u w → Passes n t w
later-Passes n t u w p q = omega arith

-- Nothing is asked of a state but that the clock goes on.
abbrev pub Always : {S : Type 0} → S → Type 0
Always s = Unit {0}

-- A round that ends with a pause.
resume-Advances :
    {V : Type 0} (A : Type 0) (tab : Tab V) (n : ℕ) (o : Option Error) (v u w : V)
    → Passes 0 (tab.now v) (tab.now u)
    → (o ≡ none → Passes n (tab.now u) (tab.now w))
    → Advances {A = A} tab.now n Always (tab.now v) (some (resume (waited (o, w))))
resume-Advances A tab n none v u w p h =
    (tt, later-Passes n (tab.now v) (tab.now u) (tab.now w) p (h refl))
resume-Advances A tab n (some e) v u w p h = tt

module _ {V : Type 0} (tab : Tab V) (timers : Timers tab) (quiet : KeepsQuiet (NotBefore tab) tab)
    (ctx : ℕ) where
  paused-Advances :
      (v u : V)
      → Passes 0 (tab.now v) (tab.now u)
      → Advances tab.now 500_000_000 Always (tab.now v) (some (paused tab ctx u))
  unfolding sleep_ctx
  paused-Advances v u p =
      resume-Advances (Unit {0}) tab 500_000_000 (tab.wait ctx (milliseconds 500) u).0 v u _ p
        (timers.fires ctx 500_000_000 u)

  autenticar-Advances :
      (r : Result Bool) (v u : V)
      → Passes 0 (tab.now v) (tab.now u)
      → Advances tab.now 500_000_000 Always (tab.now v) (some (autenticar_round tab ctx (r, u)))
  autenticar-Advances (ok true) v u p = tt
  autenticar-Advances (ok false) v u p = paused-Advances v u p
  autenticar-Advances (err e) v u p = paused-Advances v u p

  -- 121 rounds are enough for the wait of 60 s, and 61 for that of 30 s.
  pub wait_autenticar_ready-Returns : (v : V) → Returns (wait_autenticar_ready tab ctx 121 v)
  unfolding wait_autenticar_ready
  wait_autenticar_ready-Returns v =
      until-Returns tab.now (tab.now v +ℤ seconds 60)
        (λ u. some (autenticar_round tab ctx (tab.autenticar_ready ctx u))) autenticar_late
        500_000_000 Always
        (λ u _ _.
          autenticar-Advances (tab.autenticar_ready ctx u).0 u _ (quiet.autenticar_ready ctx u))
        120 v tt (deadline_left (tab.now v) 60_000_000_000)

  consulta-Advances :
      (r : Result Bool) (v u : V)
      → Passes 0 (tab.now v) (tab.now u)
      → Advances tab.now 500_000_000 Always (tab.now v) (some (consulta_round tab ctx (r, u)))
  consulta-Advances (ok true) v u p = tt
  consulta-Advances (ok false) v u p = paused-Advances v u p
  consulta-Advances (err e) v u p = paused-Advances v u p

  pub wait_consulta_form-Returns : (v : V) → Returns (wait_consulta_form tab ctx 61 v)
  unfolding wait_consulta_form
  wait_consulta_form-Returns v =
      until-Returns tab.now (tab.now v +ℤ seconds 30)
        (λ u. some (consulta_round tab ctx (tab.consulta_ready ctx u))) consulta_late 500_000_000
        Always
        (λ u _ _. consulta-Advances (tab.consulta_ready ctx u).0 u _ (quiet.consulta_ready ctx u))
        60 v tt (deadline_left (tab.now v) 30_000_000_000)
