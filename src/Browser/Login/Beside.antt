-- ===== src/Browser/Login/Beside.antt =====
-- Login over libraries that keep something of the model's own beside the world: what holds of it where
-- the page has been driven holds of it at the end, since no deferred call touches it.
use pje_headless.Base.{
  ℕ, ◌≡◌, refl, sym, subst, Option, none, some, Text, Result, ok, err, Error, branch_cases,
}
use pje_headless.Browser.Session.{Chromedp, close, release}
use pje_headless.Browser.Polling.Rules.{Ensures}
use pje_headless.Browser.Flow.{Tab, Flow, world_of, with_world}
use pje_headless.Browser.Flow.Beside.{beside, beside_net, beside_cdp}
use pje_headless.Browser.Enroll.Attempts.{Codec}
use pje_headless.Browser.Chrome.{Browser, allocator_options, context_options}
use pje_headless.Browser.Login.{
  Fuel, Launch, new_flow, on_flow, first_run, navigated, closed, in_task, in_allocator, serving,
  signing_with, start_pje_office, login,
}
use pje_headless.Browser.Login.Keeping.{deferred-Ensures}

abbrev pub beside_launch : {Signer V T : Type 0} → Launch Signer V → Launch Signer (V × T)
beside_launch launch = record {
  net = beside_net launch.net;
  serve = λ server n (v, t). (launch.serve server n v, t);
  with_timeout = λ c d. beside (launch.with_timeout c d);
  new_exec_allocator = λ c options. beside (launch.new_exec_allocator c options);
  new_context = λ c options. beside (launch.new_context c options);
  cancel_timeout = λ c (v, t). (launch.cancel_timeout c v, t);
  cancel_allocator = λ c (v, t). (launch.cancel_allocator c v, t);
  cancel_task = λ c (v, t). (launch.cancel_task c v, t);
}

module _ {V T : Type 0} (tab : Tab (V × T)) (cdp : Chromedp V) where
  abbrev cdp' : Chromedp (V × T)
  cdp' = beside_cdp cdp

  module _ {Signer : Type 0} (launch : Launch Signer V) (codec : Codec) (fuel : Fuel)
      (b : Browser Signer) (Q : Result Text → T → Type 0) (t : T) where
    abbrev launch' : Launch Signer (V × T)
    launch' = beside_launch launch

    abbrev Ends : Result Text → V × T → Type 0
    Ends r w = Q r w.1

    abbrev Driven : Result Text → Flow (V × T) → Type 0
    Driven r f = Q r (world_of f).1

    -- The session's flow, after its listeners are attached.
    abbrev pub fresh : ℕ → V → Flow (V × T)
    fresh task v =
        let f =
          new_flow launch' tab cdp' codec fuel b task (cdp'.attach_bearer_listener task (v, t)) in
        with_world f (cdp'.attach_frame_listener task (world_of f))

    abbrev driven : ℕ → Flow (V × T) → Option (Result Text × Flow (V × T))
    driven task f =
        navigated launch' tab cdp' codec fuel b task (on_flow (first_run tab cdp' fuel task task) f)

    released : (old : Option ℕ) (w : V × T) → (release cdp' old w).1 ≡ w.1
    released none w = refl
    released (some c) w = refl

    module _ (drives : (task : ℕ) (v : V) → Ensures Driven (driven task (fresh task v)))
        (fails : (e : Error) → Q (err e) t) where
      closed-Ends :
          (o : Option (Result Text × Flow (V × T)))
          → Ensures Driven o
          → Ensures Ends (closed launch' tab cdp' codec fuel b o)
      unfolding close
      closed-Ends none h = tt
      closed-Ends (some (r, f)) h = subst (Q r) (sym (released f.session.cancel (world_of f))) h

      in_task-Ends :
          (task : ℕ) (v : V) → Ensures Ends (in_task launch' tab cdp' codec fuel b task (v, t))
      in_task-Ends task v = closed-Ends _ (drives task v)

      in_allocator-Ends :
          (alloc : ℕ) (v : V)
          → Ensures Ends (in_allocator launch' tab cdp' codec fuel b alloc (v, t))
      in_allocator-Ends alloc v =
          let new = launch.new_context alloc (context_options b) v in
          deferred-Ensures Ends Ends _ (λ r w h. h) _ (in_task-Ends new.0 new.1)

      serving-Ends :
          (ctx : ℕ) (r : Result ℕ) (v : V)
          → Ensures Ends (serving launch' tab cdp' codec fuel b ctx (r, (v, t)))
      serving-Ends ctx (err e) v = fails _
      serving-Ends ctx (ok listener) v =
          let new = launch.new_exec_allocator ctx (allocator_options b) v in
          deferred-Ensures Ends Ends _ (λ r w h. h) _
            (deferred-Ensures Ends Ends _ (λ r w h. h) _ (in_allocator-Ends new.0 new.1))

      started-Ends :
          (signer : Signer) (ctx : ℕ) (v : V)
          → Ensures Ends (
              serving launch' tab cdp' codec fuel b ctx
                (start_pje_office launch' tab cdp' codec fuel b signer (v, t)))
      unfolding start_pje_office
      started-Ends signer ctx v =
          branch_cases
            (λ (x : Result ℕ × (V × T)). Ensures Ends (serving launch' tab cdp' codec fuel b ctx x))
            (beside (launch.net.listen _ _) (v, t)) _ _
            (λ listener _. serving-Ends ctx (ok listener) _) (λ e _. fails _)

      signing-Ends :
          (s : Option Signer) (parent : ℕ) (v : V)
          → Ensures Ends (signing_with launch' tab cdp' codec fuel b s parent (v, t))
      signing-Ends none parent v = fails _
      signing-Ends (some signer) parent v =
          let new = launch.with_timeout parent b.cfg.login_timeout v in
          deferred-Ensures Ends Ends _ (λ r w h. h) _ (started-Ends signer new.0 new.1)

      pub login-Ends :
          (parent : ℕ) (v : V) → Ensures Ends (login launch' tab cdp' codec fuel b parent (v, t))
      unfolding login
      login-Ends parent v = signing-Ends b.signer parent v
