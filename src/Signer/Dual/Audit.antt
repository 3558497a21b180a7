-- ===== src/Signer/Dual/Audit.antt =====
-- The audit trail of identity switches, over a run of calls of a DualSigner.
use pje_headless.Base.{
  ◌≡◌, refl, sym, subst, ap, ◌∙◌, inl, inr, not, ◌&&◌, Bool-cases, if◌then◌else◌, List, [], ◌∷◌,
  ◌++◌, Text, ◌===◌, is_empty, Result, ok, err, Act,
}
use mathlib.Core.List.{append-nil, append_assoc}
use pje_headless.Signer.Defs.{Signer, Identity}
use pje_headless.Signer.Dual.{
  DualState, identity_switch, track, resolve_active, on_active, delegate, new_dual,
}

-- A call of a method that a DualSigner hands on.
pub data Call : Type 0 where
  log_in chain identify : Call
  sign_phrase : Text → Text → Call

-- What the call does to the world of a signer.
unfoldable pub after_call : {W : Type 0} → Call → Signer W → W → W
after_call log_in s w = (s.login w).1
after_call chain s w = (s.cert_chain_pki_path w).1
after_call identify s w = (s.identity w).1
after_call (sign_phrase phrase algorithm) s w = (s.sign phrase algorithm w).1

unfoldable pub after_calls : {W : Type 0} → List Call → Signer W → W → W
unfolding after_call
after_calls [] s w = w
after_calls (c ∷ cs) s w = after_calls cs s (after_call c s w)

-- The subject of an identity that was read, if it was.
abbrev pub subject_of : Result Identity → List Text
subject_of (ok id) = id.subject ∷ []
subject_of (err e) = []

-- What a call of backends in order of priority leads to without an audit: the subjects that are read
-- in it, and the world after it, where `act` is what the call does to the world of the one that is used.
unfoldable pub visit : {W : Type 0} → (Signer W → W → W) → List (Signer W) → W → List Text × W
visit act [] w = ([], w)
visit act (s ∷ order) w =
    let (up, v) = s.available w in
    let rest = visit act order v in
    let (r, u) = s.identity v in if up then (subject_of r, act s u) else rest

unfoldable pub visits : {W : Type 0} → List Call → List (Signer W) → W → List Text × W
unfolding visit after_call
visits [] order w = ([], w)
visits (c ∷ cs) order w =
    let (now, v) = visit (after_call c) order w in
    let (later, u) = visits cs order v in (now ++ later, u)

-- Of two subjects read one after the other, not the first of all: the event that belongs between them.
abbrev pub event : Text → Text → List (Text × Text)
event p q = if not (is_empty p) && not (p === q) then (p, q) ∷ [] else []

-- The events between neighbours of a list of subjects that follows the subject `p`.
unfoldable pub switches_after : Text → List Text → List (Text × Text)
switches_after p [] = []
switches_after p (q ∷ qs) = event p q ++ switches_after q qs

unfoldable pub last_after : Text → List Text → Text
last_after p [] = p
last_after p (q ∷ qs) = last_after q qs

-- The state `d'` follows `d` by the subjects `xs`, in the world `w`.
pub record Follows {W : Type 0} (d : DualState W) (xs : List Text) (w : W) (d' : DualState W)
    : Type 0 where
  pub world : d'.world ≡ w
  pub last : d'.last_subject ≡ last_after d.last_subject xs
  pub log : d'.switches ≡ d.switches ++ switches_after d.last_subject xs

switched :
    (p q : Text) (log : List (Text × Text)) → identity_switch p q log ≡ log ++ (event p q ++ [])
unfolding identity_switch
switched p q log = elim (Bool-cases (not (is_empty p) && not (p === q))) [
  | inl e ↦ rw e refl
  | inr e ↦ rw e (sym (append-nil log))
]

switches-append :
    (p : Text) (xs ys : List Text)
    → switches_after p (xs ++ ys) ≡ switches_after p xs ++ switches_after (last_after p xs) ys
unfolding switches_after last_after
switches-append p [] ys = refl
switches-append p (x ∷ xs) ys =
    ap (λ l. event p x ++ l) (switches-append x xs ys)
    ∙ sym (append_assoc (event p x) (switches_after x xs) _)

last-append :
    (p : Text) (xs ys : List Text) → last_after p (xs ++ ys) ≡ last_after (last_after p xs) ys
unfolding last_after
last-append p [] ys = refl
last-append p (x ∷ xs) ys = last-append x xs ys

module _ {W : Type 0} where
  unread-Follows : (d : DualState W) (w : W) → Follows d [] w (record d { world = w })
  unfolding switches_after last_after
  unread-Follows d w = record { world = refl; last = refl; log = sym (append-nil d.switches) }

  track-Follows :
      (r : Result Identity) (w v : W) (d : DualState W)
      → Follows d (subject_of r) w (track (r, w) (record d { world = v }))
  unfolding track switches_after last_after
  track-Follows (err e) w v d = unread-Follows d w
  track-Follows (ok id) w v d = record {
    world = refl;
    last = refl;
    log = switched d.last_subject id.subject d.switches;
  }

  moved-Follows :
      {xs : List Text} {w : W} {e : DualState W} (d : DualState W) (v : W)
      → Follows (record d { world = v }) xs w e
      → Follows d xs w e
  moved-Follows d v h = record { world = h.world; last = h.last; log = h.log }

  used-Follows :
      {A : Type 0} (op : Signer W → Act W A) (s : Signer W) (xs : List Text) (w : W)
      (d e : DualState W)
      → Follows d xs w e
      → Follows d xs (op s w).1 (on_active op (ok s, e)).1
  used-Follows op s xs w d e h = record {
    world = ap (λ v. (op s v).1) h.world;
    last = h.last;
    log = h.log;
  }

  delegate-Follows :
      {A : Type 0} (op : Signer W → Act W A) (order : List (Signer W)) (d : DualState W)
      → let (xs, w) = visit (λ s v. (op s v).1) order d.world in
        Follows d xs w (delegate order op d).1
  unfolding visit delegate resolve_active
  delegate-Follows op [] d = unread-Follows d d.world
  delegate-Follows op (s ∷ order) d = elim (Bool-cases (s.available d.world).0) [
    | inl up ↦
        let (r, u) = s.identity (s.available d.world).1 in
        rw up (used-Follows op s (subject_of r) u d _ (track-Follows r u _ d))
    | inr down ↦
        let asked : DualState W = record d { world = (s.available d.world).1 } in
        rw down (moved-Follows d (s.available d.world).1 (delegate-Follows op order asked))
  ]

  after_call-Follows :
      (c : Call) (order : List (Signer W)) (d : DualState W)
      → let (xs, w) = visit (after_call c) order d.world in
        Follows d xs w (after_call c (new_dual order) d)
  unfolding after_call new_dual
  after_call-Follows log_in order d = delegate-Follows (λ s. s.login) order d
  after_call-Follows chain order d = delegate-Follows (λ s. s.cert_chain_pki_path) order d
  after_call-Follows identify order d = delegate-Follows (λ s. s.identity) order d
  after_call-Follows (sign_phrase phrase algorithm) order d =
      delegate-Follows (λ s. s.sign phrase algorithm) order d

  Follows-trans :
      {d e f : DualState W} {xs ys : List Text} {v w : W}
      → Follows d xs v e
      → Follows e ys w f
      → Follows d (xs ++ ys) w f
  Follows-trans {d} {e} {f} {xs} {ys} h k = record {
    world = k.world;
    last = k.last ∙ ap (λ p. last_after p ys) h.last ∙ sym (last-append d.last_subject xs ys);
    log =
        k.log
        ∙ ap (λ p. e.switches ++ switches_after p ys) h.last
        ∙ ap (λ l. l ++ switches_after (last_after d.last_subject xs) ys) h.log
        ∙ append_assoc d.switches _ _
        ∙ ap (λ l. d.switches ++ l) (sym (switches-append d.last_subject xs ys));
  }

  -- Over any run of calls of a DualSigner, whatever the backends answer: the audit log grows by exactly one
  -- event for each two subjects read one after the other, the last one before the run included, that
  -- differ and of which the first is not empty, in this order; the last subject is the last one read,
  -- and the backends are left as calls without an audit leave them. The subjects read are those of the first
  -- available backend of each call.
  pub after_calls-Follows :
      (cs : List Call) (order : List (Signer W)) (d : DualState W)
      → let (xs, w) = visits cs order d.world in Follows d xs w (after_calls cs (new_dual order) d)
  unfolding after_calls visits
  after_calls-Follows [] order d = unread-Follows d d.world
  after_calls-Follows (c ∷ cs) order d =
      let e = after_call c (new_dual order) d in
      let h = after_call-Follows c order d in
      Follows-trans h (
        subst
          (λ w.
            Follows e (visits cs order w).0 (visits cs order w).1
              (after_calls cs (new_dual order) e))
          h.world (after_calls-Follows cs order e))
