-- ===== src/LoginSvc/Service/Provenance.antt =====
-- Where the bearers come from that callers of the LoginService are given.
use pje_headless.Base.{
  ℕ, ◌≡◌, refl, sym, ap, ◌∙◌, subst, inl, inr, Option, none, some, Option-cases, Bool, true, false,
  not, ◌&&◌, is_empty, arith, Text, Result, ok, err, Error, update, update_cases,
}
use pje_headless.Clock.{Time, Duration}
use pje_headless.LoginSvc.Manager.{
  Manager, Inflight, Reply, new_manager, new_inflight, reply_of, enter, enter_cases, publish,
  expiry, usable,
}
use pje_headless.LoginSvc.System.{
  System, Pc, idle, running, waiting, returned, init, entered, published, woken, gave_up,
}
use pje_headless.LoginSvc.Service.{Service, Step, call, finish, wake, cancel}
use pje_headless.GrpcLogin.{BearerReply, bearer_reply, exp_unix}

module _ (Good : Text → Type 0) (parse : Text → Option Time) where
  -- A bearer with the expiry that a login at some time gave it.
  abbrev pub Issued : Text → Time → Type 0
  Issued b exp = Good b × (now : Time) × (exp ≡ expiry parse now (parse b))

  abbrev pub Issues : Reply → Type 0
  Issues r = r.error ≡ none → Issued r.bearer r.expires_at

  abbrev pub Told : Pc → Type 0
  Told idle = Unit {0}
  Told (running f) = Unit {0}
  Told (waiting f) = Unit {0}
  Told (returned o r) = Issues r

  pub record Honest (s : System) : Type 0 where
    pub in_cache : is_empty s.mgr.bearer ≡ false → Issued s.mgr.bearer s.mgr.expires_at
    pub in_heap : (f : ℕ) → (s.heap f).done ≡ true → Issues (reply_of (s.heap f))
    pub in_reply : (i : ℕ) → Told (s.pc i)

  pub init-Honest : (margin : Duration) → Honest (init margin)
  unfolding new_manager
  init-Honest margin = record { in_cache = λ h. cc; in_heap = λ f h. cc; in_reply = λ i. tt }

  -- A call moves on; the rest stays.
  moved-Honest :
      (s : System) (i : ℕ) (p : Pc) → Honest s → Told p → Honest (record s { pc = update s.pc i p })
  moved-Honest s i p v new = record {
    in_cache = v.in_cache;
    in_heap = v.in_heap;
    in_reply = λ j. update_cases Told s.pc i p j new (v.in_reply j);
  }

  usable-bearer :
      (now : Time) (force : Bool) (m : Manager)
      → (not force && usable now m) ≡ true
      → is_empty m.bearer ≡ false
  unfolding usable
  usable-bearer now force m h = ground (arith, h)

  entered-Honest :
      (s : System) (i : ℕ) (now : Time) (force : Bool)
      → Honest s
      → Honest (entered i (enter now force s.next s.mgr) s)
  unfolding entered
  entered-Honest s i now force v =
      enter_cases (λ r. Honest (entered i r s)) now force s.next s.mgr
        (λ fast. moved-Honest s i _ v (λ _. v.in_cache (usable-bearer now force s.mgr fast)))
        (λ _ _. record {
          in_cache = v.in_cache;
          in_heap = λ f.
              update_cases (λ (x : Inflight). x.done ≡ true → Issues (reply_of x)) s.heap s.next
                new_inflight f (λ h. cc) (v.in_heap f);
          in_reply = λ j. update_cases Told s.pc i (running s.next) j tt (v.in_reply j);
        })
        (λ f _ _. moved-Honest s i (waiting f) v tt)

  -- What a login publishes.
  abbrev pub OfLogin : Result Text → Type 0
  OfLogin (ok b) = Good b
  OfLogin (err e) = Unit {0}

  published_mgr :
      (now : Time) (r : Result Text) (m : Manager) (fl : Inflight)
      → OfLogin r
      → (is_empty m.bearer ≡ false → Issued m.bearer m.expires_at)
      → let m' = (publish parse now r m fl).0 in
        (is_empty m'.bearer ≡ false → Issued m'.bearer m'.expires_at)
        × Issues (reply_of (publish parse now r m fl).1)
  unfolding publish
  published_mgr now (ok b) m fl good old = (λ _. (good, now, refl), λ _. (good, now, refl))
  published_mgr now (err e) m fl good old = (old, λ h. cc)

  published-Honest :
      (s : System) (i f : ℕ) (now : Time) (r : Result Text)
      → OfLogin r
      → Honest s
      → Honest (published i f (publish parse now r s.mgr (s.heap f)) s)
  unfolding published
  published-Honest s i f now r good v =
      let (cache, reply) = published_mgr now r s.mgr (s.heap f) good v.in_cache in
      record {
        in_cache = cache;
        in_heap = λ g.
            update_cases (λ (x : Inflight). x.done ≡ true → Issues (reply_of x)) s.heap f _ g
              (λ _. reply) (v.in_heap g);
        in_reply = λ j. update_cases Told s.pc i _ j reply (v.in_reply j);
      }

  -- Of an answer of the GetBearer RPC.
  abbrev pub Answered : BearerReply → Type 0
  Answered a =
      Good a.bearer
      × (now : Time) × (a.expires_at_unix ≡ exp_unix (expiry parse now (parse a.bearer)))

  module _ {W : Type 0} (run : W → Option (Result Text × W)) where
    -- Where the step ends a login, its result is good.
    abbrev pub Fresh : {s t : Service W} → Step parse run s t → Type 0
    Fresh (call i now force h) = Unit {0}
    Fresh (finish i f now r w h e) = OfLogin r
    Fresh (wake i f h d) = Unit {0}
    Fresh (cancel i f e h) = Unit {0}

    pub Step-Honest :
        {s t : Service W} (st : Step parse run s t) → Fresh st → Honest s.system → Honest t.system
    unfolding woken gave_up
    Step-Honest {s} (call i now force h) _ v = entered-Honest s.system i now force v
    Step-Honest {s} (finish i f now r w h e) good v = published-Honest s.system i f now r good v
    Step-Honest {s} (wake i f h e) _ v = moved-Honest s.system i _ v (v.in_heap f e)
    Step-Honest {s} (cancel i f e h) _ v = moved-Honest s.system i _ v (λ k. cc)

  abbrev told_as : Reply → BearerReply
  told_as r = record {
    bearer = r.bearer;
    expires_at_unix = exp_unix r.expires_at;
    from_cache = r.from_cache;
  }

  bearer_reply-fine : (r : Reply) → r.error ≡ none → bearer_reply r ≡ ok (told_as r)
  unfolding bearer_reply
  bearer_reply-fine r fine = rw fine

  bearer_reply-failed :
      (r : Reply) (e : Error)
      → r.error ≡ some e
      → bearer_reply r ≡ err (Error.wrap "grpclogin: GetBearer" e)
  unfolding bearer_reply
  bearer_reply-failed r e failed = rw failed

  same_answer : (a b : BearerReply) → ok a ≡ ok b → a ≡ b
  same_answer a b h = cc

  pub answer : (r : Reply) (a : BearerReply) → bearer_reply r ≡ ok a → Issues r → Answered a
  answer r a h told = elim (Option-cases r.error) [
    | inr (e, failed) ↦ let e' = bearer_reply-failed r e failed in cc
    | inl fine ↦
        let (good, now, exp) = told fine in
        subst Answered (same_answer _ _ (sym (bearer_reply-fine r fine) ∙ h))
          (good, now, ap exp_unix exp)
  ]

-- A weaker property of bearers.
module _ (P Q : Text → Type 0) (weaker : (b : Text) → P b → Q b) (parse : Text → Option Time) where
  Issues-mono : (r : Reply) → Issues P parse r → Issues Q parse r
  Issues-mono r told fine = let (good, now, at) = told fine in (weaker r.bearer good, now, at)

  Told-mono : (p : Pc) → Told P parse p → Told Q parse p
  Told-mono idle v = tt
  Told-mono (running f) v = tt
  Told-mono (waiting f) v = tt
  Told-mono (returned o r) v = Issues-mono r v

  pub Honest-mono : (s : System) → Honest P parse s → Honest Q parse s
  Honest-mono s v = record {
    in_cache = λ h. let (good, now, at) = v.in_cache h in (weaker s.mgr.bearer good, now, at);
    in_heap = λ f h. Issues-mono (reply_of (s.heap f)) (v.in_heap f h);
    in_reply = λ i. Told-mono (s.pc i) (v.in_reply i);
  }
