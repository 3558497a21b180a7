-- ===== src/Browser/Login/Scripted.antt =====
-- The scripts that a login evaluates, over a chromedp that logs them.
use pje_headless.Base.{ℕ, refl, List, [], ◌∷◌, here, there, All, Text, Result, Act}
use pje_headless.Browser.Session.{Chromedp}
use pje_headless.Browser.Polling.Rules.{Ensures, Ensures-mono}
use pje_headless.Browser.Flow.{Tab, Flow, world_of}
use pje_headless.Browser.Flow.Respect.{Order, Keeps, KeepsQuiet, observe-R, rebind_flow-R}
use pje_headless.Browser.Flow.Steady.{Steady}
use pje_headless.Browser.Flow.Beside.{beside, beside_cdp, beside_tab}
use pje_headless.Browser.Js.Devtools.{
  Devtools, scripted_tab, wait_ready_bounded, read_totp_secret_candidates, submit_totp_enrollment,
}
use pje_headless.Browser.Js.Calls.{
  IsOurs, fixed, submits_code, searches, enrolls, called-submit_two_fa_js, called-search_js,
  called-submit_enrollment_js,
}
use pje_headless.Browser.Enroll.Attempts.{Codec}
use pje_headless.Browser.Chrome.{Browser}
use pje_headless.Browser.Login.{Fuel, Launch, login}
use pje_headless.Browser.Login.Beside.{beside_launch, login-Ends}
use pje_headless.Browser.Login.Keeping.{Captured, driven-Kept}

-- The log has the last script first.
abbrev evaluates : {V A : Type 0} → (ℕ → Text → Act V A) → ℕ → Text → Act (V × List Text) A
evaluates op c js (v, log) = let (r, w) = op c js v in (r, (w, js ∷ log))

abbrev pub logged : {V : Type 0} → Devtools V → Devtools (V × List Text)
logged dev = record {
  evaluate = evaluates dev.evaluate;
  run_evaluate = evaluates dev.run_evaluate;
  run_evaluate_pair = evaluates dev.run_evaluate_pair;
  with_timeout = λ c d. beside (dev.with_timeout c d);
  cancel = λ c (v, log). (dev.cancel c v, log);
  run_wait_ready = λ c sel. beside (dev.run_wait_ready c sel);
}

-- The page, whose scripts are those of the source.
abbrev pub logged_page : {V : Type 0} → Devtools V → Tab V → Tab (V × List Text)
logged_page dev tab = scripted_tab (logged dev) (beside_tab tab)

-- Scripts are added to the log only if they are ours.
abbrev Adds : {V : Type 0} → V × List Text → V × List Text → Type 0
Adds (u, s) (v, t) = All IsOurs s → All IsOurs t

Adds-Order : {V : Type 0} → Order (Adds {V = V})
Adds-Order = record { stay = λ v h. h; trans = λ p q h. q (p h) }

module _ {V : Type 0} (dev : Devtools V) (tab : Tab V) (cdp : Chromedp V) where
  page-KeepsQuiet : KeepsQuiet Adds (logged_page dev tab)
  unfolding scripted_tab wait_ready_bounded read_totp_secret_candidates
  page-KeepsQuiet = record {
    wait = λ c d v h. h;
    start = λ c v h. h;
    enable = λ c v h. h;
    goto = λ c url v h. h;
    autenticar_ready = λ c v h. (fixed (here refl), h);
    click_link = λ c v h. (fixed (there (here refl)), h);
    consulta_ready = λ c v h. (fixed (there (there (here refl))), h);
    search = λ c num v h. (searches num (called-search_js num), h);
    navigate = λ c url v h. h;
    two_fa_present = λ c v h. (fixed (there (there (there (here refl)))), h);
    two_fa_visible = λ c v h. (fixed (there (there (there (there (here refl))))), h);
    wait_ready = λ c sel v h. h;
    read_secret = λ c v h. (fixed (there (there (there (there (there (there (here refl))))))), h);
  }

  cdp-Keeps : Keeps Adds (beside_cdp cdp)
  cdp-Keeps = record {
    order = Adds-Order;
    targets = λ v h. h;
    new_context = λ id v h. h;
    enable = λ c v h. h;
    attach_bearer_listener = λ c v h. h;
    attach_frame_listener = λ c v h. h;
    cancel = λ c v h. h;
  }

  abbrev Ours : Flow (V × List Text) → Type 0
  Ours f = All IsOurs (world_of f).1

  Ours-Steady : Steady Adds Ours (logged_page dev tab) (beside_cdp cdp)
  unfolding scripted_tab submit_totp_enrollment
  Ours-Steady = record {
    order = Adds-Order;
    quiet = page-KeepsQuiet;
    submit_two_fa = λ c code v h. (submits_code code (called-submit_two_fa_js code), h);
    click_cert = λ c v h. (fixed (there (there (there (there (there (here refl)))))), h);
    submit_enrollment =
        λ c code label v h. (enrolls code label (called-submit_enrollment_js code label), h);
    step = λ f v e h. e h;
    noted = λ f h. h;
    observed = λ f h. observe-R Adds (logged_page dev tab) f (λ i. i) h;
    rebound = λ f h. rebind_flow-R Adds (beside_cdp cdp) cdp-Keeps f h;
  }

  ours : (r : Result Text) (f : Flow (V × List Text)) → Ours f × Captured r f → Ours f
  ours r f h = h.0

  -- Every script that Login evaluates in the browser, whatever the page answers, is one of the seven
  -- fixed texts, or the text of one of the three functions that take arguments, in which a reader of
  -- JavaScript finds one or two string literals and the end of the call.
  pub login-IsOurs :
      {Signer : Type 0} (launch : Launch Signer V) (codec : Codec) (fuel : Fuel)
      (b : Browser Signer) (parent : ℕ) (v : V)
      → Ensures
          (λ r w. All IsOurs w.1)
          (login
            (beside_launch launch)
            (logged_page dev tab)
            (beside_cdp cdp)
            codec
            fuel
            b
            parent
            (v, []))
  login-IsOurs launch codec fuel b parent v =
      login-Ends (logged_page dev tab) cdp launch codec fuel b (λ r. All IsOurs) []
        (λ task u. Ensures-mono ours _ (
          driven-Kept Adds Ours (logged_page dev tab) (beside_cdp cdp) Ours-Steady fuel task
            (beside_launch launch) codec b _ tt))
        (λ e. tt) parent v
