-- ===== src/Config.antt =====
-- internal/config/config.go, and the choice of the backends in cmd/pjeheadless/main.go. The
-- environment is a function from names to values, empty where a name is not set, as os.Getenv gives
-- them. The logging is left out.
pub mod Order
use pje_headless.Base.{
  ◌===◌, Bool, true, false, if◌then◌else◌, Option, none, some, List, [], ◌∷◌, map, Text, codes,
  is_empty, split, trim_space,
}

abbrev pub Env : Type 0
Env = Text → Text

pub record Config : Type 0 where
  pub mode : Text
  pub signer_order : List Text
  pub pkcs11_module : Text
  pub pkcs11_pin : Text
  pub pkcs11_slot : Text
  pub pkcs11_label : Text
  pub pfx_path : Text
  pub pfx_pass : Text
  pub pje_office_port : Text
  pub bind_addr : Text
  pub chain_dir : Text
  pub signer_remote_addr : Text
  pub grpc_addr : Text
  pub login_grpc_addr : Text

unfoldable pub env_or : Env → Text → Text → Text
env_or env key fallback = if is_empty (env key) then fallback else env key

-- The parts that are not empty once trimmed.
abbrev pub keep_parts : List Text → List Text
keep_parts [] = []
keep_parts (p ∷ ps) =
    let rest = keep_parts ps in if is_empty (trim_space p) then rest else trim_space p ∷ rest

unfoldable pub split_csv : Text → List Text
split_csv s = if is_empty s then [] else keep_parts (split b',' s)

unfoldable pub from_env : Env → Config
unfolding env_or split_csv
from_env env = record {
  mode = env_or env (codes "PJE_MODE") (codes "full");
  signer_order = split_csv (env_or env (codes "PJE_SIGNER_PRIORITY") (codes "pkcs11,pfx"));
  pkcs11_module = env_or env (codes "PJE_PKCS11_MODULE") (codes "/usr/lib/libaetpkss.so");
  pkcs11_pin = env (codes "PJE_PKCS11_PIN");
  pkcs11_slot = env (codes "PJE_PKCS11_SLOT");
  pkcs11_label = env (codes "PJE_PKCS11_TOKEN_LABEL");
  pfx_path = env (codes "PJE_PFX_PATH");
  pfx_pass = env (codes "PJE_PFX_PASS");
  pje_office_port = env_or env (codes "PJE_PJEOFFICE_PORT") (codes "8800");
  bind_addr = env_or env (codes "PJE_BIND_ADDR") (codes "127.0.0.1");
  chain_dir = env (codes "PJE_CHAIN_DIR");
  signer_remote_addr = env (codes "PJE_SIGNER_REMOTE_ADDR");
  grpc_addr = env_or env (codes "PJE_GRPC_ADDR") (codes ":9090");
  login_grpc_addr = env_or env (codes "PJE_LOGIN_GRPC_ADDR") (codes "127.0.0.1:9091");
}

-- A backend with the arguments of its constructor.
pub data Backend : Type 0 where
  pkcs11 : (lib pin slot label dir : Text) → Backend
  pfx : (path pass dir : Text) → Backend
  remote : (addr : Text) → Backend

abbrev remote_if_set : Text → List Backend → List Backend
remote_if_set addr rest = if is_empty addr then rest else remote addr ∷ rest

-- The loop of buildOrderedSigners.
abbrev pub ordered : Config → List Text → List Backend
ordered cfg [] = []
ordered cfg (name ∷ names) =
    let rest = ordered cfg names in
    if name === codes "pkcs11"
    then (pkcs11 cfg.pkcs11_module cfg.pkcs11_pin cfg.pkcs11_slot cfg.pkcs11_label cfg.chain_dir
        ∷ rest)
    else if name === codes "pfx"
    then (pfx cfg.pfx_path cfg.pfx_pass cfg.chain_dir ∷ rest)
    else if name === codes "remote"
    then remote_if_set cfg.signer_remote_addr rest
    else rest

unfoldable pub build_ordered_signers : Config → List Backend
build_ordered_signers cfg = ordered cfg cfg.signer_order

-- A signer on its own, or a DualSigner over several.
pub data Built : Type 0 where
  single : Backend → Built
  dual : List Backend → Built

abbrev pub built : Config → List Backend → Built
built cfg [] = single (pfx cfg.pfx_path cfg.pfx_pass cfg.chain_dir)
built cfg (s ∷ []) = single s
built cfg (s ∷ t ∷ rest) = dual (s ∷ t ∷ rest)

unfoldable pub build_signer : Config → Built
unfolding build_ordered_signers
build_signer cfg = built cfg (build_ordered_signers cfg)

-- The modes of main.
pub data Mode : Type 0 where
  full signer_only login login_service totp : Mode

unfoldable pub dispatch : Config → Mode
dispatch cfg =
    if cfg.mode === codes "signer-only"
    then Mode.signer_only
    else if cfg.mode === codes "login"
    then Mode.login
    else if cfg.mode === codes "login-service"
    then Mode.login_service
    else if cfg.mode === codes "totp"
    then Mode.totp
    else Mode.full
