-- ===== src/Browser/Scripts/Keeping.antt =====
-- The page scripts keep a relation between worlds that the steps of the tab keep.
use pje_headless.Base.{ℕ, Bool, true, false, Option, none, some, Result, ok, err}
use pje_headless.Browser.Polling.{Round, resume}
use pje_headless.Browser.Polling.Rules as Rules
use pje_headless.Browser.Polling.Rules.{Ensures, until-Ensures}
use pje_headless.Browser.Flow.{Tab, seconds, milliseconds, sleep_ctx}
use pje_headless.Browser.Flow.Respect.{Order, KeepsQuiet, sleep_ctx-R}
use pje_headless.Browser.Scripts.{
  sample_processo, paused, autenticar_round, wait_autenticar_ready, clicked, click_cert_link,
  consulta_round, wait_consulta_form, searched, fire_search, and_then,
}

pub and_then-Ensures :
    {V : Type 0} (P : V → Type 0) (o : Option (Result (Unit {0}) × V))
    (next : V → Option (Result (Unit {0}) × V))
    → Ensures (λ _. P) o
    → ((v : V) → P v → Ensures (λ _. P) (next v))
    → Ensures (λ _. P) (and_then o next)
and_then-Ensures P none next h on = tt
and_then-Ensures P (some (ok _, v)) next h on = on v h
and_then-Ensures P (some (err e, v)) next h on = h

module _ {V : Type 0} (R : V → V → Type 0) (k : Order R) (tab : Tab V) (q : KeepsQuiet R tab)
    (ctx : ℕ) (u : V) where
  abbrev Onward : Option (Round (Unit {0}) × V) → Type 0
  Onward o = Rules.Keeps (R u) (λ _. R u) o

  resumed-R : (r : Result (Unit {0})) (v : V) → R u v → Onward (some (resume (r, v)))
  resumed-R (ok _) v h = h
  resumed-R (err e) v h = h

  paused-R : (v : V) → R u v → Onward (some (paused tab ctx v))
  paused-R v h =
      let slept = sleep_ctx tab ctx (milliseconds 500) v in
      resumed-R slept.0 slept.1 (k.trans h (sleep_ctx-R R tab q ctx (milliseconds 500) v))

  autenticar_round-R :
      (r : Result Bool) (v : V) → R u v → Onward (some (autenticar_round tab ctx (r, v)))
  autenticar_round-R (ok true) v h = k.trans h (sleep_ctx-R R tab q ctx (seconds 3) v)
  autenticar_round-R (ok false) v h = paused-R v h
  autenticar_round-R (err e) v h = paused-R v h

  pub wait_autenticar_ready-R :
      (fuel : ℕ) (v : V) → R u v → Ensures (λ _. R u) (wait_autenticar_ready tab ctx fuel v)
  unfolding wait_autenticar_ready
  wait_autenticar_ready-R fuel v h =
      until-Ensures _ _ _ _ (R u) (λ _. R u)
        (λ w p.
          autenticar_round-R (tab.autenticar_ready ctx w).0 _
            (k.trans p (q.autenticar_ready ctx w)))
        (λ w p. p) fuel v h

  consulta_round-R :
      (r : Result Bool) (v : V) → R u v → Onward (some (consulta_round tab ctx (r, v)))
  consulta_round-R (ok true) v h = h
  consulta_round-R (ok false) v h = paused-R v h
  consulta_round-R (err e) v h = paused-R v h

  pub wait_consulta_form-R :
      (fuel : ℕ) (v : V) → R u v → Ensures (λ _. R u) (wait_consulta_form tab ctx fuel v)
  unfolding wait_consulta_form
  wait_consulta_form-R fuel v h =
      until-Ensures _ _ _ _ (R u) (λ _. R u)
        (λ w p.
          consulta_round-R (tab.consulta_ready ctx w).0 _ (k.trans p (q.consulta_ready ctx w)))
        (λ w p. p) fuel v h

  clicked-R : (r : Result Bool) (v : V) → R u v → R u (clicked tab ctx (r, v)).1
  clicked-R (err e) v h = h
  clicked-R (ok false) v h = h
  clicked-R (ok true) v h = h

  pub click_cert_link-R : (v : V) → R u v → R u (click_cert_link tab ctx v).1
  unfolding click_cert_link
  click_cert_link-R v h = clicked-R (tab.click_link ctx v).0 _ (k.trans h (q.click_link ctx v))

  searched-R : (r : Result Bool) (v : V) → R u v → R u (searched tab ctx (r, v)).1
  searched-R (err e) v h = h
  searched-R (ok false) v h = h
  searched-R (ok true) v h = h

  pub fire_search-R : (v : V) → R u v → R u (fire_search tab ctx v).1
  unfolding fire_search
  fire_search-R v h =
      searched-R (tab.search ctx sample_processo v).0 _ (k.trans h (q.search ctx sample_processo v))
