-- ===== src/Signer/Dual/Overlapping.antt =====
-- resolveActive of several goroutines on one DualSigner. The mutex covers the exchange of the last
-- subject only: the backends answer before it, and the audit event is logged after it.
use mathlib.Core.List.{Perm, perm_middle, append_assoc, append-nil}
use mathlib.Core.List.Perm
use pje_headless.Base.{
  ◌≡◌, refl, sym, subst, not, ◌&&◌, Bool-cases, inl, inr, List, [], ◌∷◌, ◌++◌, Text, ◌===◌,
  is_empty, ok,
}
use pje_headless.Signer.Defs.{Identity}
use pje_headless.Signer.Dual.{DualState, initial, identity_switch, track}

-- The signer's field, the events that calls are about to log, and the log.
pub record Shared : Type 0 where
  pub last_subject : Text
  pub pending : List (Text × Text)
  pub log : List (Text × Text)

-- A call exchanges the last subject, or a call logs its event. `read` lists the identities of the
-- exchanges so far, the last one first.
pub data Overlap : List Identity → Shared → Type 0 where
  start : Overlap [] (record { last_subject = []; pending = []; log = [] })
  exchange :
      {read : List Identity} {s : Shared} (id : Identity)
      → Overlap read s
      → Overlap (id ∷ read) (record s {
        last_subject = id.subject;
        pending = identity_switch s.last_subject id.subject s.pending;
      })
  logs :
      {read : List Identity} {s : Shared} (before after : List (Text × Text)) (e : Text × Text)
      → Overlap read s
      → s.pending ≡ before ++ e ∷ after
      → Overlap read (record s { pending = before ++ after; log = s.log ++ e ∷ [] })

-- The same exchanges by calls that do not overlap.
abbrev pub in_turn : {W : Type 0} → W → List Identity → DualState W
in_turn w [] = initial w
in_turn w (id ∷ read) = track (ok id, w) (in_turn w read)

identity_switch-append :
    (prev curr : Text) (log new : List (Text × Text))
    → identity_switch prev curr (log ++ new) ≡ log ++ identity_switch prev curr new
unfolding identity_switch
identity_switch-append prev curr log new =
    elim (Bool-cases (not (is_empty prev) && not (prev === curr))) [
      | inl changed ↦ rw changed (append_assoc log new ((prev, curr) ∷ []))
      | inr same ↦ rw same
    ]

identity_switch-Perm :
    (prev curr : Text) (log other : List (Text × Text))
    → Perm log other
    → Perm (identity_switch prev curr log) (identity_switch prev curr other)
unfolding identity_switch
identity_switch-Perm prev curr log other p =
    elim (Bool-cases (not (is_empty prev) && not (prev === curr))) [
      | inl changed ↦ rw changed (Perm.append p (Perm.refl ((prev, curr) ∷ [])))
      | inr same ↦ rw same p
    ]

-- One pending event is logged.
logged-Perm :
    (log before after : List (Text × Text)) (e : Text × Text)
    → Perm ((log ++ e ∷ []) ++ (before ++ after)) (log ++ (before ++ e ∷ after))
logged-Perm log before after e =
    subst (λ x. Perm x (log ++ (before ++ e ∷ after)))
      (sym (append_assoc log (e ∷ []) (before ++ after)))
      (Perm.append (Perm.refl log) (Perm.symm (perm_middle before after)))

module _ {W : Type 0} (w : W) where
  overlap-in_turn :
      {read : List Identity} {s : Shared}
      → Overlap read s
      → (s.last_subject ≡ (in_turn w read).last_subject)
        × Perm (s.log ++ s.pending) (in_turn w read).switches
  unfolding track
  overlap-in_turn start = (refl, Perm.refl [])
  overlap-in_turn (exchange {read} {s} id o) =
      let (last, same) = overlap-in_turn o in
      (
        refl,
        subst
            (λ prev.
              Perm (s.log ++ identity_switch s.last_subject id.subject s.pending)
                (identity_switch prev id.subject (in_turn w read).switches))
            last
            (subst
              (λ l. Perm l (identity_switch s.last_subject id.subject (in_turn w read).switches))
              (identity_switch-append s.last_subject id.subject s.log s.pending)
              (identity_switch-Perm s.last_subject id.subject (s.log ++ s.pending)
                (in_turn w read).switches same)),
      )
  overlap-in_turn (logs {read} {s} before after e o split) =
      let (last, same) = overlap-in_turn o in
      (
        last,
        Perm.trans (logged-Perm s.log before after e)
            (subst (λ p. Perm (s.log ++ p) (in_turn w read).switches) split same),
      )

  -- Calls of resolveActive that overlap, once all their events are logged, leave the last subject and
  -- the audit events, up to their order in the log, that the same exchanges leave where one call
  -- ends before the next begins.
  pub overlap-Perm :
      {read : List Identity} {s : Shared}
      → Overlap read s
      → s.pending ≡ []
      → (s.last_subject ≡ (in_turn w read).last_subject) × Perm s.log (in_turn w read).switches
  overlap-Perm {read} {s} o none_left =
      let (last, same) = overlap-in_turn o in
      (
        last,
        subst (λ l. Perm l (in_turn w read).switches) (append-nil s.log)
            (subst (λ p. Perm (s.log ++ p) (in_turn w read).switches) none_left same),
      )
