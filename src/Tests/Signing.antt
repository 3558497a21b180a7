-- ===== src/Tests/Signing.antt =====
-- The signers and the SignerService on concrete inputs.
use pje_headless.Base.{
  update, length, replicate, ◌⊎◌, ℕ, ◌+◌, ◌==◌, ◌++◌, ◌≡◌, refl, Option, none, some, true, false,
  arith, if◌then◌else◌, List, [], ◌∷◌, Text, codes, ok, err, Error, ◌===◌,
}
use pje_headless.Base.Int.{ℤ, pos}
use pje_headless.Clock.{from_unix}
use pje_headless.Signer.Defs.{Signer, Identity}
use pje_headless.Signer.Dual.{DualState, initial, resolve_active, new_dual}
use pje_headless.Signer.Dual.Resolution.{Choice, resolve_active-Choice}
use pje_headless.Signer.Remote.{Stub, RemoteSigner, remote_signer}
use pje_headless.GrpcSigner.{ensure_login}
use pje_headless.GrpcSigner.Overlapping.{Serving, Reach, Step, arrived, admitted, overlap-Logins}
use pje_headless.Topology.{loopback}
use pje_headless.Topology.Delegation.{
  ready, Refused, Locked, Signs, remote-login-sign, remote-identity,
}
use pje_headless.Topology.Standby.{Same, on_left, on_right, beside, remote_never_chosen}
use pje_headless.Signer.Pkcs11.Defs.{Module, Session, Config, State, algorithm_to_mechanism}
use pje_headless.Signer.Pkcs11.Login.{login_locked}
use pje_headless.Signer.Pkcs11.Resources.{Held, nothing_held, Clean, login_locked-Clean}
use pje_headless.Signer.Pkcs11.Resources as Resources
use pje_headless.Signer.Pkcs11.Sessions.{IsValid, Call, after_calls, after_calls-IsValid}
use pje_headless.Signer.Pkcs11.Signing as Token
use pje_headless.Signer.Pfx.{Hash, Libraries, Credential, PfxSigner, sign}
use pje_headless.Signer.Pfx.Agreement.{digest_info_prefix, size, pfx-pkcs11-agreement}

abbrev me : Identity
me = record {
  subject = codes "me";
  issuer = codes "ca";
  serial = codes "1";
  not_after = from_unix (pos 5);
}

-- A backend that is available and signs by returning the phrase.
abbrev card : Signer ℕ
card = record {
  login = λ w. (ok tt, w + 1);
  sign = λ phrase algorithm w. (ok phrase, w);
  cert_chain_pki_path = λ w. (ok (codes "chain"), w);
  identity = λ w. (ok me, w);
  available = λ w. (true, w);
}

resolve_active-Choice_example :
    Choice (card ∷ []) (initial 0) (resolve_active (card ∷ []) (initial 0))
resolve_active-Choice_example = resolve_active-Choice (card ∷ []) (initial 0)

remote-login-sign_example :
    Refused card (codes "p") (codes "MD5withRSA") 0
    ⊎ (Locked card (codes "p") (codes "MD5withRSA") 0
        ⊎ Signs card (codes "p") (codes "MD5withRSA") 0)
remote-login-sign_example = remote-login-sign card (codes "p") (codes "MD5withRSA") 0

remote-identity_example : (remote_signer (loopback card)).identity (ready 0) ≡ (ok me, ready 0)
remote-identity_example = remote-identity card 0 me (pos 5) refl refl (omega arith)

-- A network with nobody at its other end.
abbrev silent : Stub ℕ
silent = record {
  connect = λ n. (ok tt, n);
  close = λ n. n;
  health = λ n. (err (Error.foreign 0), n);
  sign = λ phrase algorithm n. (err (Error.foreign 0), n);
  cert_chain_pki_path = λ n. (err (Error.foreign 0), n);
  identity = λ n. (err (Error.foreign 0), n);
}

abbrev both : Signer (DualState (RemoteSigner ℕ × ℕ))
both = new_dual (on_left (remote_signer silent) ∷ on_right card ∷ [])

abbrev alone : Signer (DualState ℕ)
alone = new_dual (card ∷ [])

abbrev unconnected : RemoteSigner ℕ
unconnected = record { connected = false; net = 3 }

remote_never_chosen_example :
    Same unconnected (both.login (beside unconnected (initial 0))) (alone.login (initial 0))
    × Same unconnected
        (both.sign (codes "p") (codes "x") (beside unconnected (initial 0)))
        (alone.sign (codes "p") (codes "x") (initial 0))
    × Same unconnected
        (both.cert_chain_pki_path (beside unconnected (initial 0)))
        (alone.cert_chain_pki_path (initial 0))
    × Same unconnected (both.identity (beside unconnected (initial 0))) (alone.identity (initial 0))
    × (both.available (beside unconnected (initial 0))
        ≡ ((alone.available (initial 0)).0, beside unconnected (alone.available (initial 0)).1))
remote_never_chosen_example =
    remote_never_chosen silent 3 (card ∷ []) (initial 0) (codes "p") (codes "x")

-- Two calls are behind ensureLogin, the first of which logged in.
abbrev both_admitted : Serving ℕ
both_admitted = record {
  server = record { local = (1, 1); logged_in = true };
  stage = update (update (λ _. arrived) 0 admitted) 1 admitted;
}

both_admitted_reached : Reach card both_admitted
unfolding ensure_login
both_admitted_reached =
    Reach.later (Reach.later (Reach.start 0) (Step.ensures 0 refl)) (Step.ensures 1 refl)

overlap-Logins_example :
    (both_admitted.server.local.1 ≡ (if both_admitted.server.logged_in then 1 else 0))
    × ((i : ℕ) → both_admitted.stage i ≡ admitted → both_admitted.server.local.1 ≡ 1)
overlap-Logins_example = overlap-Logins card both_admitted_reached

-- Libraries that hash nothing and sign by returning what is to be signed.
abbrev plain_libs : Libraries ℕ (Unit {0})
plain_libs = record {
  read_file = λ w path. ok [];
  decode_chain = λ bytes pass. err (Error.foreign 0);
  sum = λ hash bytes. replicate (size hash) (length bytes);
  sign_pkcs1v15 = λ k hash h. ok (digest_info_prefix hash ++ h);
  marshal = λ parts. ok [];
  base64 = λ bytes. bytes;
}

abbrev message : ℕ → List ℕ → List ℕ
message mech bytes =
    if mech == 6
    then digest_info_prefix Hash.sha1 ++ plain_libs.sum Hash.sha1 bytes
    else if mech == 0x40
    then digest_info_prefix Hash.sha256 ++ plain_libs.sum Hash.sha256 bytes
    else bytes

-- A token that remembers the mechanism of the last C_SignInit.
abbrev token : Module ℕ
token = record {
  new = λ w. (true, w);
  destroy = λ w. w;
  initialize = λ w. (ok tt, w);
  finalize = λ w. w;
  slot_list = λ w. (ok (1 ∷ []), w);
  token_label = λ slot w. (ok [], w);
  open_session = λ slot w. (ok 7, w);
  close_session = λ sh w. w;
  login = λ sh pin w. (ok tt, w);
  find_objects_init = λ sh cls w. (ok tt, w);
  find_objects = λ sh w. (ok (9 ∷ []), w);
  find_objects_final = λ sh w. (ok tt, w);
  attribute_value = λ sh obj w. (ok (codes "der" ∷ []), w);
  sign_init = λ sh mech key w. (ok tt, mech);
  sign = λ sh bytes w. (ok (message w bytes), w);
}

abbrev no_scan : Text → Option ℤ
no_scan t = none

abbrev settings : Config
settings = record { pin = codes "1234"; slot_hint = []; label = [] }

login_locked-Clean_example :
    Clean token (login_locked (Resources.counted token) no_scan settings (0, nothing_held))
login_locked-Clean_example = login_locked-Clean token no_scan settings (0, nothing_held) refl

abbrev logged_out : State (ℕ × Held)
logged_out = record { session = none; world = (0, nothing_held) }

abbrev calls : List Call
calls = Call.log_in ∷ Call.sign_phrase (codes "p") (codes "MD5withRSA") ∷ Call.probe_token ∷ []

after_calls-IsValid_example :
    IsValid (after_calls token no_scan (λ bs. bs) (λ bs. bs) settings calls logged_out)
after_calls-IsValid_example =
    after_calls-IsValid token no_scan (λ bs. bs) (λ bs. bs) settings calls logged_out
      (record { balanced = refl; leaf = tt })

abbrev file_signer : PfxSigner ℕ (Unit {0})
file_signer = record {
  path = codes "me.pfx";
  pass = [];
  credential =
      some (record { key = 4; cert = record { raw = codes "der"; identity = me }; chain = [] });
  world = tt;
}

abbrev open_session : Session
open_session = record { handle = 7; priv_key = 9; leaf_der = codes "der" }

abbrev credential : Credential ℕ
credential = record { key = 4; cert = record { raw = codes "der"; identity = me }; chain = [] }

abbrev no_padding : ℕ → List ℕ → List ℕ
no_padding k m = m

sized : (hash : Hash) (m : List ℕ) → length (plain_libs.sum hash m) ≡ size hash
sized Hash.md5 m = refl
sized Hash.sha1 m = refl
sized Hash.sha256 m = refl

pfx-pkcs11-agreement_example :
    (Token.sign token no_scan
      (plain_libs.sum Hash.md5)
      (λ bs. bs)
      settings
      (codes "p")
      (codes "SHA256withRSA")
      (record { session = some open_session; world = 0 })).0
    ≡ (sign plain_libs (codes "p") (codes "SHA256withRSA") file_signer).0
unfolding algorithm_to_mechanism ◌===◌
pfx-pkcs11-agreement_example =
    pfx-pkcs11-agreement plain_libs (λ k. 256) no_padding token no_scan settings file_signer
      credential open_session 0 (codes "p") (codes "SHA256withRSA") refl
      (record { sums = sized; signs = λ k hash h fit room. refl })
      (record {
        takes_raw = refl;
        takes_sha1 = refl;
        takes_sha256 = refl;
        raw = λ m room. refl;
        sha1 = λ m room. refl;
        sha256 = λ m room. refl;
      })
      (omega arith) refl
