-- ===== src/Signer/Pkcs11/Sessions.antt =====
-- The session of a PKCS11Signer across its methods.
use pje_headless.Base.{
  ℕ, ◌≡◌, refl, ◌∙◌, inl, inr, Bool, true, false, Bool-cases, arith, if◌then◌else◌, Option, none,
  some, List, [], ◌∷◌, Text, utf8, is_empty, trim_blanks, Result, ok, err,
}
use pje_headless.Base.Int.{ℤ}
use pje_headless.Signer.Pkcs11.Defs.{
  Module, Session, Config, State, algorithm_to_mechanism, md5_digest_info, is_retryable_pkcs11_err,
}
use pje_headless.Signer.Pkcs11.Login.{Outcome, login_locked, teardown, login, adopt}
use pje_headless.Signer.Pkcs11.Signing.{do_sign, first_try, sign_bytes, sign, sign_as, retried}
use pje_headless.Signer.Pkcs11.Methods.{
  probe, probe_loaded, probe_initialized, with_slots, available,
}
use pje_headless.Signer.Pkcs11.Resources.{
  Held, drop_own, drop_module, nothing_held, one_session, held_for, counted, count_init, count_new,
  Clean, find_label_held, login_locked-Clean,
}

abbrev pub HasLeaf : Option Session → Type 0
HasLeaf none = Unit {0}
HasLeaf (some s) = is_empty s.leaf_der ≡ false

-- The signer holds one context, initialized, with one session, the one whose handle it keeps, exactly
-- where it has a session, and nothing otherwise, and never gave back what it did not hold; and a session comes with a certificate that is not empty.
pub record IsValid {W : Type 0} (s : State (W × Held)) : Type 0 where
  pub balanced : s.world.1 ≡ held_for s.session
  pub leaf : HasLeaf s.session

module _ {W : Type 0} (p11 : Module W) where
  teardown_held :
      (sess : Option Session) (w : W × Held)
      → w.1 ≡ held_for sess
      → (teardown (counted p11) sess w).1 ≡ nothing_held
  unfolding teardown
  teardown_held none w e = e
  teardown_held (some s) w e = drop_own s.handle _ e

  adopt-IsValid : (o : Outcome (counted p11)) → Clean p11 o → IsValid (adopt (counted p11) o).1
  adopt-IsValid (err e, w) c = record { balanced = c; leaf = tt }
  adopt-IsValid (ok s, w) c = record { balanced = c.0; leaf = c.1 }

  login-IsValid :
      (scan : Text → Option ℤ) (c : Config) (s : State (W × Held))
      → IsValid s
      → IsValid (login (counted p11) scan c s).1
  unfolding login
  login-IsValid scan c s v =
      let torn = teardown (counted p11) s.session s.world in
      let clean = login_locked-Clean p11 scan c torn (teardown_held s.session s.world v.balanced) in
      adopt-IsValid (login_locked (counted p11) scan c torn) clean

  do_sign_held :
      (mech : ℕ) (bytes : List ℕ) (s : Session) (w : W × Held)
      → (do_sign (counted p11) mech bytes s w).1.1 ≡ w.1
  unfolding do_sign
  do_sign_held mech bytes s w = ground arith

  retried-IsValid :
      (mech : ℕ) (bytes : List ℕ) (o : Outcome (counted p11))
      → Clean p11 o
      → IsValid (retried (counted p11) mech bytes o).1
  retried-IsValid mech bytes (err e, w) c = record { balanced = c; leaf = tt }
  retried-IsValid mech bytes (ok s, w) c = record {
    balanced = do_sign_held mech bytes s w ∙ c.0;
    leaf = c.1;
  }

  first_try-IsValid :
      (scan : Text → Option ℤ) (c : Config) (mech : ℕ) (bytes : List ℕ) (s : Session)
      (r : Result (List ℕ)) (w : W × Held)
      → w.1 ≡ one_session s.handle
      → is_empty s.leaf_der ≡ false
      → IsValid (first_try (counted p11) scan c mech bytes s (r, w)).1
  unfolding first_try
  first_try-IsValid scan c mech bytes s (ok sig) w e l = record { balanced = e; leaf = l }
  first_try-IsValid scan c mech bytes s (err x) w e l =
      elim (Bool-cases (is_retryable_pkcs11_err x)) [
        | inl again ↦
            let torn = teardown (counted p11) (some s) w in
            let clean = login_locked-Clean p11 scan c torn (teardown_held (some s) w e) in
            rw again (retried-IsValid mech bytes (login_locked (counted p11) scan c torn) clean)
        | inr never ↦ rw never (record { balanced = e; leaf = l })
      ]

  sign_bytes-IsValid :
      (scan : Text → Option ℤ) (c : Config) (mech : ℕ) (bytes : List ℕ) (sess : Option Session)
      (w : W × Held)
      → IsValid (record { session = sess; world = w })
      → IsValid
          (sign_bytes (counted p11) scan c mech bytes (record { session = sess; world = w })).1
  unfolding sign_bytes
  sign_bytes-IsValid scan c mech bytes none w v = v
  sign_bytes-IsValid scan c mech bytes (some s) w v =
      first_try-IsValid scan c mech bytes s (do_sign (counted p11) mech bytes s w).0 _
        (do_sign_held mech bytes s w ∙ v.balanced) v.leaf

  sign_as-IsValid :
      (scan : Text → Option ℤ) (md5 : List ℕ → List ℕ) (base64 : List ℕ → Text) (c : Config)
      (phrase : Text) (r : Result (ℕ × Bool)) (s : State (W × Held))
      → IsValid s
      → IsValid (sign_as (counted p11) scan md5 base64 c phrase r s).1
  sign_as-IsValid scan md5 base64 c phrase (err e) s v = v
  sign_as-IsValid scan md5 base64 c phrase (ok (mech, needs)) s v =
      sign_bytes-IsValid scan c mech
        (if needs then md5_digest_info md5 (utf8 phrase) else utf8 phrase) s.session s.world v

  sign-IsValid :
      (scan : Text → Option ℤ) (md5 : List ℕ → List ℕ) (base64 : List ℕ → Text) (c : Config)
      (phrase algorithm : Text) (s : State (W × Held))
      → IsValid s
      → IsValid (sign (counted p11) scan md5 base64 c phrase algorithm s).1
  unfolding sign
  sign-IsValid scan md5 base64 c phrase algorithm s v =
      sign_as-IsValid scan md5 base64 c phrase (algorithm_to_mechanism algorithm) s v

  with_slots_held :
      (c : Config) (r : Result (List ℕ)) (w : W × Held)
      → (with_slots (counted p11) c (r, w)).1.1 ≡ drop_module w.1
  with_slots_held c (err e) w = refl
  with_slots_held c (ok []) w = refl
  with_slots_held c (ok (slot ∷ slots)) w =
      ground (arith, find_label_held p11 (trim_blanks c.label) (slot ∷ slots) w)

  probe_initialized_held :
      (c : Config) (r : Result (Unit {0})) (w : W) (h : Held)
      → (probe_initialized (counted p11) c (r, (w, count_init r (count_new true h)))).1.1 ≡ h
  probe_initialized_held c (err e) w h = ground arith
  probe_initialized_held c (ok _) w h = with_slots_held c (p11.slot_list w).0 _ ∙ ground arith

  probe_loaded_held :
      (c : Config) (b : Bool) (w : W) (h : Held)
      → (probe_loaded (counted p11) c (b, (w, count_new b h))).1.1 ≡ h
  probe_loaded_held c false w h = refl
  probe_loaded_held c true w h =
      probe_initialized_held c (p11.initialize w).0 (p11.initialize w).1 h

  available-IsValid :
      (c : Config) (s : State (W × Held)) → IsValid s → IsValid (available (counted p11) c s).1
  unfolding available probe
  available-IsValid c s v = record {
    balanced =
        probe_loaded_held c (p11.new s.world.0).0 (p11.new s.world.0).1 s.world.1 ∙ v.balanced;
    leaf = v.leaf;
  }

-- A call of a method of the signer that reaches the library.
pub data Call : Type 0 where
  log_in : Call
  sign_phrase : Text → Text → Call
  probe_token : Call

module _ {W : Type 0} (p11 : Module W) (scan : Text → Option ℤ) (md5 : List ℕ → List ℕ)
    (base64 : List ℕ → Text) (c : Config) where
  -- The signer after the call.
  unfoldable pub after_call : Call → State (W × Held) → State (W × Held)
  after_call log_in s = (login (counted p11) scan c s).1
  after_call (sign_phrase phrase algorithm) s =
      (sign (counted p11) scan md5 base64 c phrase algorithm s).1
  after_call probe_token s = (available (counted p11) c s).1

  unfoldable pub after_calls : List Call → State (W × Held) → State (W × Held)
  unfolding after_call
  after_calls [] s = s
  after_calls (call ∷ calls) s = after_calls calls (after_call call s)

  after_call-IsValid :
      (call : Call) (s : State (W × Held)) → IsValid s → IsValid (after_call call s)
  unfolding after_call
  after_call-IsValid log_in s v = login-IsValid p11 scan c s v
  after_call-IsValid (sign_phrase phrase algorithm) s v =
      sign-IsValid p11 scan md5 base64 c phrase algorithm s v
  after_call-IsValid probe_token s v = available-IsValid p11 c s v

  -- Every sequence of Login, Sign and Available calls keeps the balance of the PKCS11Signer, whatever
  -- the library answers: after it, the signer holds one library context, one initialization and one
  -- session, the one whose handle it keeps, and a leaf certificate that is not empty, where it has a
  -- session, holds nothing of the library where it has none, and has never given back what it did not
  -- hold, nor closed a session by a handle that was not open.
  pub after_calls-IsValid :
      (calls : List Call) (s : State (W × Held)) → IsValid s → IsValid (after_calls calls s)
  unfolding after_calls
  after_calls-IsValid [] s v = v
  after_calls-IsValid (call ∷ calls) s v =
      after_calls-IsValid calls (after_call call s) (after_call-IsValid call s v)
