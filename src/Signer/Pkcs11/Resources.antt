-- ===== src/Signer/Pkcs11/Resources.antt =====
-- What a PKCS11Signer holds of the library: contexts, initializations and sessions.
use pje_headless.Base.{
  ℕ, zero, suc, ◌+◌, ◌-◌, ◌≡◌, refl, sym, ap, subst, ◌∙◌, inl, inr, Bool, true, false, Bool-cases,
  arith, Option, none, some, List, [], ◌∷◌, Text, is_empty, trim_blanks, Result, ok, err,
}
use pje_headless.Base.Int.{ℤ}
use pje_headless.Handles.{Handles, all_of, acquired, given_back, given_back_last}
use pje_headless.Signer.Pkcs11.Defs.{
  Module, Session, Config, find_slot, find_object, find_object_inited, find_label, choose_slot,
  already_logged_in, cko_certificate, cko_private_key,
}
use pje_headless.Signer.Pkcs11.Login.{
  Outcome, with_attributes, with_certificate, with_key, authenticated, with_session, with_slot,
  initialized, loaded, login_locked,
}

pub record Held : Type 0 where
  pub contexts : ℕ
  pub inits : ℕ
  pub sessions : Handles
  -- How often a context or an initialization was given back that was not held.
  pub faults : ℕ

abbrev fault : ℕ → ℕ → ℕ
fault zero f = f + 1
fault (suc n) f = f

abbrev release_context : Held → Held
release_context h = record h { contexts = h.contexts - 1; faults = fault h.contexts h.faults }

abbrev release_init : Held → Held
release_init h = record h { inits = h.inits - 1; faults = fault h.inits h.faults }

abbrev release_session : ℕ → Held → Held
release_session sh h = record h { sessions = given_back sh h.sessions }

abbrev pub nothing_held : Held
nothing_held = record { contexts = 0; inits = 0; sessions = all_of []; faults = 0 }

abbrev pub count_new : Bool → Held → Held
count_new true h = record h { contexts = h.contexts + 1 }
count_new false h = h

abbrev pub count_init : Result (Unit {0}) → Held → Held
count_init (ok _) h = record h { inits = h.inits + 1 }
count_init (err e) h = h

abbrev count_open : Result ℕ → Held → Held
count_open (ok sh) h = record h { sessions = acquired sh h.sessions }
count_open (err e) h = h

abbrev beside : {W A : Type 0} → (W → A × W) → W × Held → A × (W × Held)
beside op (w, h) = let (a, w') = op w in (a, (w', h))

-- The library with a count of what was acquired and not given back.
abbrev pub counted : {W : Type 0} → Module W → Module (W × Held)
counted p11 = record {
  new = λ (w, h). let (b, w') = p11.new w in (b, (w', count_new b h));
  destroy = λ (w, h). (p11.destroy w, release_context h);
  initialize = λ (w, h). let (r, w') = p11.initialize w in (r, (w', count_init r h));
  finalize = λ (w, h). (p11.finalize w, release_init h);
  slot_list = beside p11.slot_list;
  token_label = λ slot. beside (p11.token_label slot);
  open_session = λ slot (w, h). let (r, w') = p11.open_session slot w in (r, (w', count_open r h));
  close_session = λ sh (w, h). (p11.close_session sh w, release_session sh h);
  login = λ sh pin. beside (p11.login sh pin);
  find_objects_init = λ sh cls. beside (p11.find_objects_init sh cls);
  find_objects = λ sh. beside (p11.find_objects sh);
  find_objects_final = λ sh. beside (p11.find_objects_final sh);
  attribute_value = λ sh obj. beside (p11.attribute_value sh obj);
  sign_init = λ sh mech key. beside (p11.sign_init sh mech key);
  sign = λ sh bytes. beside (p11.sign sh bytes);
}

abbrev pub one_session : ℕ → Held
one_session sh = record { contexts = 1; inits = 1; sessions = all_of (sh ∷ []); faults = 0 }

-- One context, initialized, with just the session that the signer keeps, where there is one; else nothing.
abbrev pub held_for : Option Session → Held
held_for none = nothing_held
held_for (some s) = one_session s.handle

abbrev one_context : Held
one_context = record { contexts = 1; inits = 0; sessions = all_of []; faults = 0 }

abbrev pub one_module : Held
one_module = record { contexts = 1; inits = 1; sessions = all_of []; faults = 0 }

abbrev pub drop_module : Held → Held
drop_module h = release_context (release_init h)

abbrev pub drop_session : ℕ → Held → Held
drop_session sh h = drop_module (release_session sh h)

pub drop_own : (sh : ℕ) (h : Held) → h ≡ one_session sh → drop_session sh h ≡ nothing_held
drop_own sh h e =
    ap (drop_session sh) e
    ∙ ap (λ hs. drop_module (record one_module { sessions = hs })) (given_back_last sh [])

module _ {W : Type 0} (p11 : Module W) where
  -- The outcome of a login holds a session exactly where it returns one, which is the one it holds, and
  -- then has a certificate.
  abbrev pub Clean : Outcome (counted p11) → Type 0
  Clean (err e, w) = w.1 ≡ nothing_held
  Clean (ok s, w) = (w.1 ≡ one_session s.handle) × (is_empty s.leaf_der ≡ false)

  find_object_inited_held :
      (sh : ℕ) (r : Result (Unit {0})) (w : W × Held)
      → (find_object_inited (counted p11) sh (r, w)).1.1 ≡ w.1
  unfolding find_object_inited
  find_object_inited_held sh (ok _) w = refl
  find_object_inited_held sh (err e) w = refl

  find_object_held : (sh cls : ℕ) (w : W × Held) → (find_object (counted p11) sh cls w).1.1 ≡ w.1
  unfolding find_object
  find_object_held sh cls w = find_object_inited_held sh (p11.find_objects_init sh cls w.0).0 _

  pub find_label_held :
      (want : Text) (slots : List ℕ) (w : W × Held)
      → (find_label (counted p11) want slots w).1.1 ≡ w.1
  unfolding find_label
  find_label_held want [] w = refl
  find_label_held want (slot ∷ slots) w =
      ground (arith, find_label_held want slots ((p11.token_label slot w.0).1, w.1))

  choose_slot_held :
      (scan : Text → Option ℤ) (c : Config) (r : Result (List ℕ)) (w : W × Held)
      → (choose_slot (counted p11) scan c (r, w)).1.1 ≡ w.1
  unfolding choose_slot
  choose_slot_held scan c (err e) w = refl
  choose_slot_held scan c (ok []) w = refl
  choose_slot_held scan c (ok (first ∷ slots)) w =
      ground (arith, find_label_held (trim_blanks c.label) (first ∷ slots) w)

  find_slot_held :
      (scan : Text → Option ℤ) (c : Config) (w : W × Held)
      → (find_slot (counted p11) scan c w).1.1 ≡ w.1
  unfolding find_slot
  find_slot_held scan c w = choose_slot_held scan c (p11.slot_list w.0).0 _

  with_attributes-Clean :
      (sh key : ℕ) (r : Result (List Text)) (w : W × Held)
      → w.1 ≡ one_session sh
      → Clean (with_attributes (counted p11) sh key (r, w))
  with_attributes-Clean sh key (err e) w h = drop_own sh _ h
  with_attributes-Clean sh key (ok []) w h = drop_own sh _ h
  with_attributes-Clean sh key (ok (der ∷ ders)) w h = elim (Bool-cases (is_empty der)) [
    | inl blank ↦ rw blank (drop_own sh _ h)
    | inr full ↦ rw full (h, full)
  ]

  with_certificate-Clean :
      (sh key : ℕ) (r : Result ℕ) (w : W × Held)
      → w.1 ≡ one_session sh
      → Clean (with_certificate (counted p11) sh key (r, w))
  with_certificate-Clean sh key (err e) w h = drop_own sh _ h
  with_certificate-Clean sh key (ok cert) w h =
      with_attributes-Clean sh key (p11.attribute_value sh cert w.0).0 _ h

  with_key-Clean :
      (sh : ℕ) (r : Result ℕ) (w : W × Held)
      → w.1 ≡ one_session sh
      → Clean (with_key (counted p11) sh (r, w))
  with_key-Clean sh (err e) w h = drop_own sh _ h
  with_key-Clean sh (ok key) w h =
      with_certificate-Clean sh key (find_object (counted p11) sh cko_certificate w).0 _
        (find_object_held sh cko_certificate w ∙ h)

  authenticated-Clean :
      (sh : ℕ) (r : Result (Unit {0})) (w : W × Held)
      → w.1 ≡ one_session sh
      → Clean (authenticated (counted p11) sh (r, w))
  authenticated-Clean sh (ok _) w h =
      with_key-Clean sh (find_object (counted p11) sh cko_private_key w).0 _
        (find_object_held sh cko_private_key w ∙ h)
  authenticated-Clean sh (err e) w h = elim (Bool-cases (already_logged_in e)) [
    | inl old ↦ rw old (
        with_key-Clean sh (find_object (counted p11) sh cko_private_key w).0 _
          (find_object_held sh cko_private_key w ∙ h))
    | inr new ↦ rw new (drop_own sh _ h)
  ]

  with_session-Clean :
      (pin : Text) (r : Result ℕ) (w : W) (h : Held)
      → h ≡ one_module
      → Clean (with_session (counted p11) pin (r, (w, count_open r h)))
  with_session-Clean pin (err x) w h e = ap drop_module e
  with_session-Clean pin (ok sh) w h e =
      authenticated-Clean sh (p11.login sh pin w).0 _ (ap (count_open (ok sh)) e)

  with_slot-Clean :
      (pin : Text) (r : Result ℕ) (w : W × Held)
      → w.1 ≡ one_module
      → Clean (with_slot (counted p11) pin (r, w))
  with_slot-Clean pin (err x) w e = ap drop_module e
  with_slot-Clean pin (ok slot) w e =
      with_session-Clean pin (p11.open_session slot w.0).0 (p11.open_session slot w.0).1 w.1 e

  initialized-Clean :
      (scan : Text → Option ℤ) (c : Config) (r : Result (Unit {0})) (w : W)
      → Clean (initialized (counted p11) scan c (r, (w, count_init r one_context)))
  initialized-Clean scan c (err x) w = refl
  initialized-Clean scan c (ok _) w =
      with_slot-Clean c.pin (find_slot (counted p11) scan c (w, one_module)).0 _
        (find_slot_held scan c (w, one_module))

  loaded-Clean :
      (scan : Text → Option ℤ) (c : Config) (b : Bool) (w : W)
      → Clean (loaded (counted p11) scan c (b, (w, count_new b nothing_held)))
  loaded-Clean scan c false w = refl
  loaded-Clean scan c true w = initialized-Clean scan c (p11.initialize w).0 (p11.initialize w).1

  -- loginLocked, from nothing held and whatever the library answers, ends with nothing held where it
  -- fails, on each of its early returns; and where it succeeds with one context, one initialization and
  -- one session held, the one whose handle it keeps, and a certificate that is not empty. It gives back
  -- nothing, and closes no session handle, that it does not hold.
  pub login_locked-Clean :
      (scan : Text → Option ℤ) (c : Config) (w : W × Held)
      → w.1 ≡ nothing_held
      → Clean (login_locked (counted p11) scan c w)
  unfolding login_locked
  login_locked-Clean scan c w e =
      subst (λ h. Clean (login_locked (counted p11) scan c (w.0, h))) (sym e)
        (loaded-Clean scan c (p11.new w.0).0 (p11.new w.0).1)
