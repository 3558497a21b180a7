-- ===== src/Browser/Js/Devtools.antt =====
-- The functions of browser.go and totp_enroll.go that evaluate a script in the page, or wait for an
-- element of it. What chromedp does is the parameter `Devtools`.
use pje_headless.Base.{ℕ, Bool, Text, Act, Result}
use pje_headless.Clock.{Duration}
use pje_headless.Browser.Flow.{Tab, seconds}
use pje_headless.Browser.Js.Texts.{
  autenticar_ready_js, click_link_js, consulta_ready_js, two_fa_present_js, two_fa_visible_js,
  click_cert_js, read_secret_js, submit_two_fa_js, search_js, submit_enrollment_js,
}

-- `evaluate` is chromedp.Evaluate(js, &b).Do(ctx) inside a Run, `run_evaluate` is a chromedp.Run of its
-- own with it, and `run_evaluate_pair` decodes the fields span and hidden of an object. `with_timeout` is
-- context.WithTimeout, and `run_wait_ready` a chromedp.Run of chromedp.WaitReady(sel, chromedp.ByQuery).
pub record Devtools (V : Type 0) : Type 0 where
  pub evaluate : ℕ → Text → Act V Bool
  pub run_evaluate : ℕ → Text → Act V Bool
  pub run_evaluate_pair : ℕ → Text → Act V (Text × Text)
  pub with_timeout : ℕ → Duration → V → ℕ × V
  pub cancel : ℕ → V → V
  pub run_wait_ready : ℕ → Text → Act V (Unit {0})

module _ {V : Type 0} (dev : Devtools V) where
  -- The deferred call of waitReadyBounded.
  abbrev pub cancelled : {A : Type 0} → ℕ → Result A × V → Result A × V
  cancelled ctx (r, v) = (r, dev.cancel ctx v)

  unfoldable pub wait_ready_bounded : ℕ → Text → Act V (Unit {0})
  wait_ready_bounded ctx sel v =
      let (wait_ctx, w) = dev.with_timeout ctx (seconds 8) v in
      cancelled wait_ctx (dev.run_wait_ready wait_ctx sel w)

  unfoldable pub read_totp_secret_candidates : ℕ → Act V (Text × Text)
  read_totp_secret_candidates ctx v = dev.run_evaluate_pair ctx read_secret_js v

  unfoldable pub submit_totp_enrollment : ℕ → Text → Text → Act V Bool
  unfolding submit_enrollment_js
  submit_totp_enrollment ctx code label v = dev.run_evaluate ctx (submit_enrollment_js code label) v

  -- The tab whose scripts are these; the rest of it is that of `tab`.
  unfoldable pub scripted_tab : Tab V → Tab V
  unfolding submit_two_fa_js search_js wait_ready_bounded read_totp_secret_candidates
      submit_totp_enrollment
  scripted_tab tab = record tab {
    autenticar_ready = λ c. dev.evaluate c autenticar_ready_js;
    click_link = λ c. dev.evaluate c click_link_js;
    consulta_ready = λ c. dev.evaluate c consulta_ready_js;
    search = λ c num. dev.evaluate c (search_js num);
    two_fa_present = λ c. dev.run_evaluate c two_fa_present_js;
    two_fa_visible = λ c. dev.run_evaluate c two_fa_visible_js;
    submit_two_fa = λ c code. dev.run_evaluate c (submit_two_fa_js code);
    click_cert = λ c. dev.run_evaluate c click_cert_js;
    wait_ready = wait_ready_bounded;
    read_secret = read_totp_secret_candidates;
    submit_enrollment = submit_totp_enrollment;
  }
