-- ===== src/Browser/Flow/Tallied.antt =====
-- The libraries with a tally of what is submitted and clicked.
use pje_headless.Base.{◌+◌, refl, Bool, true, false, Result, ok, err, Act}
use pje_headless.Browser.Prompts.Bounds.{Tally, count_code, count_click}
use pje_headless.Browser.Flow.{Tab}
use pje_headless.Browser.Flow.Respect.{KeepsQuiet}
use pje_headless.Browser.Flow.Beside.{beside_tab, Same}

abbrev pub count_enrollment : Result Bool → Tally → Tally
count_enrollment (ok true) t = record t { enrollments = t.enrollments + 1 }
count_enrollment (ok false) t = t
count_enrollment (err e) t = t

-- An operation that is counted.
abbrev pub counting :
    {V : Type 0} → (Result Bool → Tally → Tally) → Act V Bool → Act (V × Tally) Bool
counting count op (v, t) = let (r, w) = op v in (r, (w, count r t))

abbrev pub tallied_tab : {V : Type 0} → Tab V → Tab (V × Tally)
tallied_tab tab = record (beside_tab tab) {
  submit_two_fa = λ c code. counting count_code (tab.submit_two_fa c code);
  click_cert = λ c. counting count_click (tab.click_cert c);
  submit_enrollment =
      λ c code label. counting count_enrollment (tab.submit_enrollment c code label);
}

abbrev pub tally_of : {V : Type 0} → V × Tally → Tally
tally_of (v, t) = t

pub tallied_tab-KeepsQuiet : {V : Type 0} (tab : Tab V) → KeepsQuiet Same (tallied_tab tab)
tallied_tab-KeepsQuiet tab = record {
  wait = λ c d v. refl;
  start = λ c v. refl;
  enable = λ c v. refl;
  goto = λ c url v. refl;
  autenticar_ready = λ c v. refl;
  click_link = λ c v. refl;
  consulta_ready = λ c v. refl;
  search = λ c num v. refl;
  navigate = λ c url v. refl;
  two_fa_present = λ c v. refl;
  two_fa_visible = λ c v. refl;
  wait_ready = λ c sel v. refl;
  read_secret = λ c v. refl;
}
