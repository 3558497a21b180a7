-- ===== src/Tests/Token.antt =====
-- A token that a process can initialize once.
use pje_headless.Base.{
  ◌≡◌, refl, Bool, true, false, if◌then◌else◌, none, [], ◌∷◌, codes, ok, err, Error, arith,
}
use pje_headless.Signer.Pkcs11.Defs.{
  Module, Config, State, find_slot, choose_slot, find_label, hinted, find_object,
  find_object_inited,
}
use pje_headless.Signer.Pkcs11.Login.{login, login_locked, teardown}
use pje_headless.Signer.Pkcs11.Methods.{available}
use pje_headless.Signer.Pkcs11.Exclusive.{Exclusive, login-available}

-- The world says whether the library is initialized.
abbrev token : Module Bool
token = record {
  new = λ w. (true, w);
  destroy = λ w. w;
  initialize = λ w. (if w then err (Error.code 0x191) else ok tt, true);
  finalize = λ w. false;
  slot_list = λ w. (ok (1 ∷ []), w);
  token_label = λ slot w. (ok [], w);
  open_session = λ slot w. (ok 7, w);
  close_session = λ sh w. w;
  login = λ sh pin w. (ok tt, w);
  find_objects_init = λ sh cls w. (ok tt, w);
  find_objects = λ sh w. (ok (9 ∷ []), w);
  find_objects_final = λ sh w. (ok tt, w);
  attribute_value = λ sh obj w. (ok (codes "der" ∷ []), w);
  sign_init = λ sh mech key w. (ok tt, w);
  sign = λ sh bytes w. (ok bytes, w);
}

abbrev Initialized : Bool → Type 0
Initialized w = w ≡ true

refused : (w : Bool) → Initialized w → (e : Error) × ((token.initialize w).0 ≡ err e)
refused true h = (Error.code 0x191, refl)
refused false h = ground (arith, h)

exclusive : Exclusive Initialized token
exclusive = record {
  started = λ w h. refl;
  refused = refused;
  new = λ w h. h;
  slot_list = λ w h. h;
  token_label = λ slot w h. h;
  open_session = λ slot w h. h;
  login = λ sh pin w h. h;
  find_objects_init = λ sh cls w h. h;
  find_objects = λ sh w h. h;
  find_objects_final = λ sh w h. h;
  attribute_value = λ sh obj w h. h;
}

abbrev settings : Config
settings = record { pin = codes "1234"; slot_hint = []; label = [] }

abbrev closed_signer : State Bool
closed_signer = record { session = none; world = false }

login-available_example :
    (available token settings (login token (λ t. none) settings closed_signer).1).0 ≡ false
unfolding login login_locked teardown find_slot choose_slot find_label hinted find_object
    find_object_inited
login-available_example =
    login-available Initialized token exclusive (λ t. none) settings closed_signer refl
