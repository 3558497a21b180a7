-- ===== src/Browser/Login/Origin.antt =====
-- Where the bearer of Login comes from, over libraries that log the network events they deliver.
use pje_headless.Base.{ℕ, ◌≡◌, refl, sym, ap, ◌∙◌, ◌++◌, List, [], ◌∷◌, Any, Text, Result, ok, err}
use pje_headless.Browser.Capture.{
  Event, BearerCapture, new_bearer_capture, bearer, listen, listen_all,
}
use pje_headless.Browser.Capture.History.{Origin, bearer-Origin}
use pje_headless.Browser.Session.{Chromedp, Session}
use pje_headless.Browser.Polling.Rules.{Ensures, Ensures-mono}
use pje_headless.Browser.Flow.{
  Tab, Flow, CdpEvent, world_of, with_world, take_in, take_all, observe, rebind_flow,
}
use pje_headless.Browser.Flow.Respect.{rebind_flow-R, take_all-session}
use pje_headless.Browser.Flow.Steady.{Steady}
use pje_headless.Browser.Flow.Beside.{
  beside_cdp, beside_cdp-Keeps, networks, logged_tab, logged_tab-KeepsQuiet, Same, Same-Order,
}
use pje_headless.Browser.Enroll.Attempts.{Codec}
use pje_headless.Browser.Chrome.{Browser}
use pje_headless.Browser.Login.{Fuel, Launch, login}
use pje_headless.Browser.Login.Beside.{beside_launch, login-Ends}
use pje_headless.Browser.Login.Keeping.{Captured, driven-Kept}

listen_all-++ :
    (c : BearerCapture) (xs ys : List Event)
    → listen_all c (xs ++ ys) ≡ listen_all (listen_all c xs) ys
unfolding listen_all
listen_all-++ c [] ys = refl
listen_all-++ c (x ∷ xs) ys = listen_all-++ (listen c x) xs ys

take_all-capture :
    {V : Type 0} (es : List CdpEvent) (f : Flow V)
    → (take_all es f).capture ≡ listen_all f.capture (networks es)
unfolding take_all listen_all
take_all-capture [] f = refl
take_all-capture (CdpEvent.network e ∷ es) f = take_all-capture es (take_in (CdpEvent.network e) f)
take_all-capture (CdpEvent.frame_navigated ev ∷ es) f =
    take_all-capture es (take_in (CdpEvent.frame_navigated ev) f)

-- The capture has heard what is logged.
abbrev Heard : {V : Type 0} → Flow (V × List Event) → Type 0
Heard f = f.capture ≡ listen_all new_bearer_capture (world_of f).1

-- The origin of a bearer among the logged events.
abbrev pub Genuine : Result Text → List Event → Type 0
Genuine (ok tok) log = Origin (λ e. Any (λ d. d ≡ e) log) tok
Genuine (err e) log = Unit {0}

module _ {V : Type 0} (tab : Tab V) (cdp : Chromedp V) where
  observed-Heard : (f : Flow (V × List Event)) → Heard f → Heard (observe (logged_tab tab) f)
  unfolding observe
  observed-Heard f h =
      let es = (tab.events (world_of f).0).0 in
      let log = (world_of f).1 in
      let taken = with_world f ((tab.events (world_of f).0).1, log ++ networks es) in
      take_all-capture es taken
      ∙ ap (λ c. listen_all c (networks es)) h
      ∙ sym (listen_all-++ new_bearer_capture log (networks es))
      ∙ ap (λ (s : Session (V × List Event)). listen_all new_bearer_capture s.world.1)
          (sym (take_all-session es taken))

  Heard-Steady : Steady Same Heard (logged_tab tab) (beside_cdp cdp)
  unfolding rebind_flow
  Heard-Steady = record {
    order = Same-Order;
    quiet = logged_tab-KeepsQuiet tab;
    submit_two_fa = λ c code v. refl;
    click_cert = λ c v. refl;
    submit_enrollment = λ c code label v. refl;
    step = λ f v e h. h ∙ ap (listen_all new_bearer_capture) (sym e);
    noted = λ f h. h;
    observed = observed-Heard;
    rebound = λ f h.
        h
        ∙ ap (listen_all new_bearer_capture)
            (sym (rebind_flow-R Same (beside_cdp cdp) (beside_cdp-Keeps cdp) f));
  }

  genuine :
      (r : Result Text) (f : Flow (V × List Event))
      → Heard f × Captured r f
      → Genuine r (world_of f).1
  genuine (err e) f h = tt
  genuine (ok tok) f h = bearer-Origin (world_of f).1 tok (ap bearer (sym h.0) ∙ h.1)

  module _ {Signer : Type 0} (launch : Launch Signer V) (codec : Codec) (fuel : Fuel)
      (b : Browser Signer) where
    -- A bearer that Login returns is the trimmed Authorization value of an extra-info event that the
    -- browser delivered during this login, of a request whose URL, delivered as well, is one of the API.
    pub login-Genuine :
        (parent : ℕ) (v : V)
        → Ensures
            (λ r w. Genuine r w.1)
            (login
              (beside_launch launch)
              (logged_tab tab)
              (beside_cdp cdp)
              codec
              fuel
              b
              parent
              (v, []))
    unfolding listen_all
    login-Genuine parent v =
        login-Ends (logged_tab tab) cdp launch codec fuel b Genuine []
          (λ task u. Ensures-mono genuine _ (
            driven-Kept Same Heard (logged_tab tab) (beside_cdp cdp) Heard-Steady fuel task
              (beside_launch launch) codec b _ refl))
          (λ e. tt) parent v
