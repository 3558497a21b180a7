-- ===== src/Signer/Pkcs11/Login.antt =====
-- loginLocked, teardown and Login of pkcs11.go: a step for each call of the library, and the cleanup
-- of each early return.
use pje_headless.Base.{
  ℕ, Bool, true, false, if◌then◌else◌, Option, none, some, List, [], ◌∷◌, Text, is_empty, Result,
  ok, err, Error, Act,
}
use pje_headless.Base.Int.{ℤ}
use pje_headless.Signer.Pkcs11.Defs.{
  Module, Session, Config, State, cko_private_key, cko_certificate, already_logged_in, find_slot,
  find_object,
}

module _ {W : Type 0} (p11 : Module W) where
  -- Finalize, then Destroy.
  abbrev pub unload : W → W
  unload w = p11.destroy (p11.finalize w)

  -- CloseSession, Finalize, Destroy.
  abbrev pub abandon : ℕ → W → W
  abandon sh w = unload (p11.close_session sh w)

  abbrev pub Outcome : Type 0
  Outcome = Result Session × W

  abbrev pub with_attributes : ℕ → ℕ → Result (List Text) × W → Outcome
  with_attributes sh key (err e, w) =
      (err (Error.wrap "pkcs11 login: GetAttributeValue(CKA_VALUE)" e), abandon sh w)
  with_attributes sh key (ok [], w) =
      (err (Error.msg "pkcs11 login: certificate DER is empty"), abandon sh w)
  with_attributes sh key (ok (der ∷ ders), w) =
      if is_empty der
      then (err (Error.msg "pkcs11 login: certificate DER is empty"), abandon sh w)
      else (ok (record { handle = sh; priv_key = key; leaf_der = der }), w)

  abbrev pub with_certificate : ℕ → ℕ → Result ℕ × W → Outcome
  with_certificate sh key (err e, w) =
      (err (Error.wrap "pkcs11 login: find certificate" e), abandon sh w)
  with_certificate sh key (ok cert, w) = with_attributes sh key (p11.attribute_value sh cert w)

  abbrev pub with_key : ℕ → Result ℕ × W → Outcome
  with_key sh (err e, w) = (err (Error.wrap "pkcs11 login: find private key" e), abandon sh w)
  with_key sh (ok key, w) = with_certificate sh key (find_object p11 sh cko_certificate w)

  abbrev pub authenticated : ℕ → Result (Unit {0}) × W → Outcome
  authenticated sh (err e, w) =
      let failed : Outcome = (err (Error.wrap "pkcs11 login: C_Login" e), abandon sh w) in
      if already_logged_in e then with_key sh (find_object p11 sh cko_private_key w) else failed
  authenticated sh (ok _, w) = with_key sh (find_object p11 sh cko_private_key w)

  abbrev pub with_session : Text → Result ℕ × W → Outcome
  with_session pin (err e, w) = (err (Error.wrap "pkcs11 login: OpenSession" e), unload w)
  with_session pin (ok sh, w) = authenticated sh (p11.login sh pin w)

  abbrev pub with_slot : Text → Result ℕ × W → Outcome
  with_slot pin (err e, w) = (err (Error.wrap "pkcs11 login" e), unload w)
  with_slot pin (ok slot, w) = with_session pin (p11.open_session slot w)

  abbrev pub initialized : (Text → Option ℤ) → Config → Result (Unit {0}) × W → Outcome
  initialized scan c (err e, w) = (err (Error.wrap "pkcs11 login: Initialize" e), p11.destroy w)
  initialized scan c (ok _, w) = with_slot c.pin (find_slot p11 scan c w)

  abbrev pub loaded : (Text → Option ℤ) → Config → Bool × W → Outcome
  loaded scan c (false, w) = (err (Error.msg "pkcs11 login: cannot load module"), w)
  loaded scan c (true, w) = initialized scan c (p11.initialize w)

  -- loginLocked, which sets the fields of the signer at its last line only.
  unfoldable pub login_locked : (Text → Option ℤ) → Config → W → Outcome
  login_locked scan c w = loaded scan c (p11.new w)

  -- The world after teardown, which leaves no session.
  unfoldable pub teardown : Option Session → W → W
  teardown none w = w
  teardown (some s) w = abandon s.handle w

  -- The signer after loginLocked, which found no session.
  abbrev pub adopt : Outcome → Result (Unit {0}) × State W
  adopt (err e, w) = (err e, record { session = none; world = w })
  adopt (ok s, w) = (ok tt, record { session = some s; world = w })

  unfoldable pub login : (Text → Option ℤ) → Config → Act (State W) (Unit {0})
  unfolding login_locked teardown
  login scan c s = adopt (login_locked scan c (teardown s.session s.world))
