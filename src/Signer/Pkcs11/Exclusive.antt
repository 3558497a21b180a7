-- ===== src/Signer/Pkcs11/Exclusive.antt =====
-- Available of pkcs11.go while the session of a Login is open, on a library that follows the rule of
-- PKCS#11 on C_Initialize.
use pje_headless.Base.{
  ℕ, ◌≡◌, refl, Bool, true, false, if_cases, Option, List, [], ◌∷◌, Text, is_empty, trim_blanks,
  Result, ok, err, Error, arith,
}
use pje_headless.Base.Int.{ℤ}
use pje_headless.Signer.Pkcs11.Defs.{
  Module, Config, State, cko_private_key, cko_certificate, already_logged_in, label_is, find_label,
  choose_slot, find_slot, find_object, find_object_inited,
}
use pje_headless.Signer.Pkcs11.Login.{
  Outcome, with_attributes, with_certificate, with_key, authenticated, with_session, with_slot,
  initialized, loaded, login_locked, teardown, adopt, login,
}
use pje_headless.Signer.Pkcs11.Methods.{probe, probe_loaded, probe_initialized, available}

-- `On` says that the process has initialized the library. A call of C_Initialize then fails, with
-- CKR_CRYPTOKI_ALREADY_INITIALIZED; only C_Finalize ends it.
pub record Exclusive {W : Type 0} (On : W → Type 0) (p11 : Module W) : Type 0 where
  pub started : (w : W) → (p11.initialize w).0 ≡ ok tt → On (p11.initialize w).1
  pub refused : (w : W) → On w → (e : Error) × ((p11.initialize w).0 ≡ err e)
  pub new : (w : W) → On w → On (p11.new w).1
  pub slot_list : (w : W) → On w → On (p11.slot_list w).1
  pub token_label : (slot : ℕ) (w : W) → On w → On (p11.token_label slot w).1
  pub open_session : (slot : ℕ) (w : W) → On w → On (p11.open_session slot w).1
  pub login : (sh : ℕ) (pin : Text) (w : W) → On w → On (p11.login sh pin w).1
  pub find_objects_init : (sh cls : ℕ) (w : W) → On w → On (p11.find_objects_init sh cls w).1
  pub find_objects : (sh : ℕ) (w : W) → On w → On (p11.find_objects sh w).1
  pub find_objects_final : (sh : ℕ) (w : W) → On w → On (p11.find_objects_final sh w).1
  pub attribute_value : (sh obj : ℕ) (w : W) → On w → On (p11.attribute_value sh obj w).1

module _ {W : Type 0} (On : W → Type 0) (p11 : Module W) (x : Exclusive On p11) where
  find_object_inited-On :
      (sh : ℕ) (r : Result (Unit {0})) (w : W) → On w → On (find_object_inited p11 sh (r, w)).1
  unfolding find_object_inited
  find_object_inited-On sh (err e) w h = h
  find_object_inited-On sh (ok _) w h = x.find_objects_final sh _ (x.find_objects sh w h)

  find_object-On : (sh cls : ℕ) (w : W) → On w → On (find_object p11 sh cls w).1
  unfolding find_object
  find_object-On sh cls w h =
      find_object_inited-On sh (p11.find_objects_init sh cls w).0 _ (x.find_objects_init sh cls w h)

  find_label-On : (want : Text) (slots : List ℕ) (w : W) → On w → On (find_label p11 want slots w).1
  unfolding find_label
  find_label-On want [] w h = h
  find_label-On want (slot ∷ slots) w h =
      let read = p11.token_label slot w in
      if_cases (λ (o : Option ℕ × W). On o.1) (label_is p11 want read.0) _ _
        (λ _. x.token_label slot w h)
        (λ _. find_label-On want slots read.1 (x.token_label slot w h))

  choose_slot-On :
      (scan : Text → Option ℤ) (c : Config) (r : Result (List ℕ)) (w : W)
      → On w
      → On (choose_slot p11 scan c (r, w)).1
  unfolding choose_slot
  choose_slot-On scan c (err e) w h = h
  choose_slot-On scan c (ok []) w h = h
  choose_slot-On scan c (ok (first ∷ slots)) w h =
      ground (arith, find_label-On (trim_blanks c.label) (first ∷ slots) w h, h)

  -- A login that succeeds leaves the library initialized.
  abbrev LeftOn : Outcome p11 → Type 0
  LeftOn (err e, w) = Unit {0}
  LeftOn (ok s, w) = On w

  with_attributes-On :
      (sh key : ℕ) (r : Result (List Text)) (w : W)
      → On w
      → LeftOn (with_attributes p11 sh key (r, w))
  with_attributes-On sh key (err e) w h = tt
  with_attributes-On sh key (ok []) w h = tt
  with_attributes-On sh key (ok (der ∷ ders)) w h =
      if_cases LeftOn (is_empty der) _ _ (λ _. tt) (λ _. h)

  with_certificate-On :
      (sh key : ℕ) (r : Result ℕ) (w : W) → On w → LeftOn (with_certificate p11 sh key (r, w))
  with_certificate-On sh key (err e) w h = tt
  with_certificate-On sh key (ok cert) w h =
      with_attributes-On sh key (p11.attribute_value sh cert w).0 _ (x.attribute_value sh cert w h)

  with_key-On : (sh : ℕ) (r : Result ℕ) (w : W) → On w → LeftOn (with_key p11 sh (r, w))
  with_key-On sh (err e) w h = tt
  with_key-On sh (ok key) w h =
      with_certificate-On sh key (find_object p11 sh cko_certificate w).0 _
        (find_object-On sh cko_certificate w h)

  keyed-On :
      (sh : ℕ) (w : W) → On w → LeftOn (with_key p11 sh (find_object p11 sh cko_private_key w))
  keyed-On sh w h =
      with_key-On sh (find_object p11 sh cko_private_key w).0 _
        (find_object-On sh cko_private_key w h)

  authenticated-On :
      (sh : ℕ) (r : Result (Unit {0})) (w : W) → On w → LeftOn (authenticated p11 sh (r, w))
  authenticated-On sh (ok _) w h = keyed-On sh w h
  authenticated-On sh (err e) w h =
      if_cases LeftOn (already_logged_in e) _ _ (λ _. keyed-On sh w h) (λ _. tt)

  with_session-On :
      (pin : Text) (r : Result ℕ) (w : W) → On w → LeftOn (with_session p11 pin (r, w))
  with_session-On pin (err e) w h = tt
  with_session-On pin (ok sh) w h =
      authenticated-On sh (p11.login sh pin w).0 _ (x.login sh pin w h)

  with_slot-On : (pin : Text) (r : Result ℕ) (w : W) → On w → LeftOn (with_slot p11 pin (r, w))
  with_slot-On pin (err e) w h = tt
  with_slot-On pin (ok slot) w h =
      with_session-On pin (p11.open_session slot w).0 _ (x.open_session slot w h)

  initialized-On :
      (scan : Text → Option ℤ) (c : Config) (r : Result (Unit {0})) (w : W)
      → (r ≡ ok tt → On w)
      → LeftOn (initialized p11 scan c (r, w))
  unfolding find_slot
  initialized-On scan c (err e) w h = tt
  initialized-On scan c (ok _) w h =
      let slots = p11.slot_list w in
      with_slot-On c.pin (find_slot p11 scan c w).0 _
        (choose_slot-On scan c slots.0 slots.1 (x.slot_list w (h refl)))

  loaded-On :
      (scan : Text → Option ℤ) (c : Config) (b : Bool) (w : W) → LeftOn (loaded p11 scan c (b, w))
  loaded-On scan c false w = tt
  loaded-On scan c true w = initialized-On scan c (p11.initialize w).0 _ (x.started w)

  adopted-On : (o : Outcome p11) → LeftOn o → (adopt p11 o).0 ≡ ok tt → On (adopt p11 o).1.world
  adopted-On (err e, w) l h = ground (arith, h)
  adopted-On (ok s, w) l h = l

  login-On :
      (scan : Text → Option ℤ) (c : Config) (s : State W)
      → (login p11 scan c s).0 ≡ ok tt
      → On (login p11 scan c s).1.world
  unfolding login login_locked
  login-On scan c s h =
      let torn = teardown p11 s.session s.world in
      adopted-On (login_locked p11 scan c torn) (loaded-On scan c (p11.new torn).0 (p11.new torn).1)
        h

  refused_probe :
      (c : Config) (r : Result (Unit {0})) (w : W) (e : Error)
      → r ≡ err e
      → (probe_initialized p11 c (r, w)).0 ≡ false
  refused_probe c (err e') w e h = refl
  refused_probe c (ok _) w e h = ground (arith, h)

  loaded_probe : (c : Config) (b : Bool) (w : W) → On w → (probe_loaded p11 c (b, w)).0 ≡ false
  loaded_probe c false w h = refl
  loaded_probe c true w h =
      let (e, failed) = x.refused w h in refused_probe c (p11.initialize w).0 _ e failed

  -- On a library that a process can initialize once only until it is finalized, a PKCS11Signer whose
  -- Login has just succeeded, so that its session is open, reports that it is not available.
  pub login-available :
      (scan : Text → Option ℤ) (c : Config) (s : State W)
      → (login p11 scan c s).0 ≡ ok tt
      → (available p11 c (login p11 scan c s).1).0 ≡ false
  unfolding available probe
  login-available scan c s h =
      let after = (login p11 scan c s).1.world in
      loaded_probe c (p11.new after).0 _ (x.new after (login-On scan c s h))
