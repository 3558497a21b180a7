-- ===== src/Browser/Login/Released.antt =====
-- Login releases what it acquires, over libraries that keep a stack of it and count the page contexts.
use pje_headless.Base.{
  ℕ, ◌≡◌, refl, sym, subst, ap, ◌∙◌, Option, none, some, ◌∷◌, Text, Result, ok, err, branch, Error,
  codes,
}
use pje_headless.Browser.Session.{Chromedp, Session, close, release}
use pje_headless.Browser.Session.Contexts as Contexts
use pje_headless.Browser.Session.Contexts.{Open, Balanced, counted, rebind-Balanced}
use pje_headless.Browser.Polling.Rules.{Ensures}
use pje_headless.Browser.Flow.{Tab, Flow, world_of, with_world, observe, rebind_flow}
use pje_headless.Browser.Flow.Respect.{Keeps, KeepsQuiet, rebind_flow-R, take_all-session}
use pje_headless.Browser.Flow.Steady.{Steady}
use pje_headless.Browser.Flow.Beside.{beside_cdp}
use pje_headless.Browser.Enroll.Attempts.{Codec}
use pje_headless.Browser.Chrome.{Browser, allocator_options, context_options}
use pje_headless.Browser.Login.{
  Fuel, Run, Launch, new_flow, closed, in_task, in_allocator, serving, signing_with,
  start_pje_office, login,
}
use pje_headless.PjeOffice.Start.{new_server}
use pje_headless.Browser.Login.Resources.{
  Resource, timeout, listener, allocator, task, Held, drop_last, drop_pushed, World, listened, pop,
  held_launch, held_cdp, held_tab, no_pages,
}
use pje_headless.Browser.Login.Keeping.{Captured, driven-Kept, deferred-Ensures}

-- Just `held` is held, and no page context of the session is open.
abbrev pub Holds : {V A : Type 0} → Held → Result A → World V → Type 0
Holds held r w = (w.0.1 ≡ held) × (w.1 ≡ no_pages)

-- Of a session, while the login goes on.
abbrev Holding : {V : Type 0} → Held → Session (World V) → Type 0
Holding held s = (s.world.0.1 ≡ held) × Balanced s

abbrev Unmoved : {V : Type 0} → World V → World V → Type 0
Unmoved u w = (w.0.1 ≡ u.0.1) × (w.1 ≡ u.1)

abbrev SameHeld : {V : Type 0} → World V → World V → Type 0
SameHeld u w = w.0.1 ≡ u.0.1

module _ {V : Type 0} (tab : Tab V) (cdp : Chromedp V) where
  Unmoved-KeepsQuiet : KeepsQuiet Unmoved (held_tab tab)
  Unmoved-KeepsQuiet = record {
    wait = λ c d v. (refl, refl);
    start = λ c v. (refl, refl);
    enable = λ c v. (refl, refl);
    goto = λ c url v. (refl, refl);
    autenticar_ready = λ c v. (refl, refl);
    click_link = λ c v. (refl, refl);
    consulta_ready = λ c v. (refl, refl);
    search = λ c num v. (refl, refl);
    navigate = λ c url v. (refl, refl);
    two_fa_present = λ c v. (refl, refl);
    two_fa_visible = λ c v. (refl, refl);
    wait_ready = λ c sel v. (refl, refl);
    read_secret = λ c v. (refl, refl);
  }

  held-Keeps : Keeps SameHeld (held_cdp cdp)
  held-Keeps = record {
    order = record { stay = λ v. refl; trans = λ p q. q ∙ p };
    targets = λ v. refl;
    new_context = λ id v. refl;
    enable = λ c v. refl;
    attach_bearer_listener = λ c v. refl;
    attach_frame_listener = λ c v. refl;
    cancel = λ c v. refl;
  }

  Holding-Steady :
      (held : Held)
      → Steady Unmoved
          (λ (f : Flow (World V)). Holding held f.session)
          (held_tab tab)
          (held_cdp cdp)
  unfolding observe rebind_flow
  Holding-Steady held = record {
    order = record { stay = λ v. (refl, refl); trans = λ p q. (q.0 ∙ p.0, q.1 ∙ p.1) };
    quiet = Unmoved-KeepsQuiet;
    submit_two_fa = λ c code v. (refl, refl);
    click_cert = λ c v. (refl, refl);
    submit_enrollment = λ c code label v. (refl, refl);
    step = λ f v e h. (e.0 ∙ h.0, e.1 ∙ h.1);
    noted = λ f h. h;
    observed = λ f h.
        let (es, w) = (held_tab tab).events (world_of f) in
        subst (Holding held) (sym (take_all-session es (with_world f w))) h;
    rebound = λ f h. (
      rebind_flow-R SameHeld (held_cdp cdp) held-Keeps f ∙ h.0,
      rebind-Balanced (beside_cdp cdp) f.session h.1,
    );
  }

  module _ {Signer : Type 0} (launch : Launch Signer V) (codec : Codec) (fuel : Fuel)
      (b : Browser Signer) where
    closing : (old : Option ℕ) (w : World V) → (release (held_cdp cdp) old w).0.1 ≡ w.0.1
    closing none w = refl
    closing (some c) w = refl

    closed-Holds :
        (held : Held) (o : Option (Result Text × Flow (World V)))
        → Ensures (λ r f. Holding held f.session × Captured r f) o
        → Ensures
            (Holds held)
            (closed (held_launch launch) (held_tab tab) (held_cdp cdp) codec fuel b o)
    unfolding close
    closed-Holds held none h = tt
    closed-Holds held (some (r, f)) h = (
      closing f.session.cancel (world_of f) ∙ h.0.0,
      Contexts.closed (beside_cdp cdp) f.session.cancel (world_of f) h.0.1,
    )

    -- From a world that holds `held`.
    abbrev Restores : Run (World V) Text → Type 0
    Restores run = (v : V) (held : Held) → Ensures (Holds held) (run ((v, held), no_pages))

    popped :
        (x : Resource) (held : Held) (op : V → V) (r : Result Text) (w : World V)
        → Holds (x ∷ held) r w
        → Holds held r (pop x op w)
    popped x held op r w h = (ap (drop_last x) h.0 ∙ drop_pushed x held, h.1)

    in_task-Holds :
        (c : ℕ)
        → Restores (in_task (held_launch launch) (held_tab tab) (held_cdp cdp) codec fuel b c)
    in_task-Holds c v held =
        let listening : World V =
          ((cdp.attach_frame_listener c (cdp.attach_bearer_listener c v), held), no_pages) in
        closed-Holds held _ (
          driven-Kept Unmoved (λ (f : Flow (World V)). Holding held f.session) (held_tab tab)
            (held_cdp cdp) (Holding-Steady held) fuel c (held_launch launch) codec b
            (new_flow (held_launch launch) (held_tab tab) (held_cdp cdp) codec fuel b c listening)
            (refl, refl))

    in_allocator-Holds :
        (c : ℕ)
        → Restores (in_allocator (held_launch launch) (held_tab tab) (held_cdp cdp) codec fuel b c)
    in_allocator-Holds c v held =
        let new = launch.new_context c (context_options b) v in
        deferred-Ensures (Holds (task new.0 ∷ held)) (Holds held) _
          (popped (task new.0) held (launch.cancel_task new.0)) _
          (in_task-Holds new.0 new.1 (task new.0 ∷ held))

    serving-Holds :
        (c : ℕ) (o : Result ℕ × V) (held : Held)
        → Ensures (Holds held) (
            serving
              (held_launch launch)
              (held_tab tab)
              (held_cdp cdp)
              codec
              fuel
              b
              c
              (listened held no_pages o))
    serving-Holds c (err e, v) held = (refl, refl)
    serving-Holds c (ok n, v) held =
        let new = launch.new_exec_allocator c (allocator_options b) v in
        let all = allocator new.0 ∷ listener n ∷ held in
        deferred-Ensures (Holds (listener n ∷ held)) (Holds held) _
          (popped (listener n) held (launch.net.close n)) _
          (deferred-Ensures (Holds all) (Holds (listener n ∷ held)) _
            (popped (allocator new.0) (listener n ∷ held) (launch.cancel_allocator new.0)) _
            (in_allocator-Holds new.0 new.1 all))

    started-Holds :
        (signer : Signer) (c : ℕ)
        → Restores (λ w. serving (held_launch launch) (held_tab tab) (held_cdp cdp) codec fuel b c (
            start_pje_office
              (held_launch launch)
              (held_tab tab)
              (held_cdp cdp)
              codec
              fuel
              b
              signer
              w))
    unfolding start_pje_office new_server
    started-Holds signer c v held = go (
        launch.net.listen (codes "tcp")
          (launch.net.join_host_port b.cfg.pje_office_bind_addr b.cfg.pje_office_port) v)
      where
        go :
            (o : Result ℕ × V)
            → Ensures (Holds held) (
                serving (held_launch launch) (held_tab tab) (held_cdp cdp) codec fuel b c (
                  branch
                    (listened held no_pages o)
                    (λ n w. (
                      ok n,
                      (held_launch launch).serve
                          (new_server signer b.cfg.pje_office_port b.cfg.pje_office_bind_addr)
                          n
                          w,
                    ))
                    (λ e w. (err (Error.wrap "listen" e), w))))
        go (ok n, w) =
            serving-Holds c
              (
                ok n,
                launch.serve (new_server signer b.cfg.pje_office_port b.cfg.pje_office_bind_addr) n
                    w,
              )
              held
        go (err e, w) = (refl, refl)

    signing-Holds :
        (s : Option Signer) (parent : ℕ)
        → Restores
            (signing_with (held_launch launch) (held_tab tab) (held_cdp cdp) codec fuel b s parent)
    signing-Holds none parent v held = (refl, refl)
    signing-Holds (some signer) parent v held =
        let new = launch.with_timeout parent b.cfg.login_timeout v in
        deferred-Ensures (Holds (timeout new.0 ∷ held)) (Holds held) _
          (popped (timeout new.0) held (launch.cancel_timeout new.0)) _
          (started-Holds signer new.0 new.1 (timeout new.0 ∷ held))

    -- However Login ends, with a bearer or at any of its errors: the listener, the allocator, the timeout
    -- and the task context that it acquired are released, each as the last one then held, what was held
    -- before is held still, every page context that the session opened was cancelled, and none that was
    -- not open then.
    pub login-Holds :
        (parent : ℕ) (v : V) (held : Held)
        → Ensures (Holds held) (
            login
              (held_launch launch)
              (held_tab tab)
              (held_cdp cdp)
              codec
              fuel
              b
              parent
              ((v, held), no_pages))
    unfolding login
    login-Holds parent v held = signing-Holds b.signer parent v held
