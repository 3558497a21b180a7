-- ===== src/Config/Order.antt =====
-- The order of the backends that PJE_SIGNER_PRIORITY names.
use pje_headless.Base.{
  ◌≡◌, refl, ap, ◌∙◌, ◌===◌, false, arith, if◌then◌else◌, List, [], ◌∷◌, ◌++◌, Text, codes,
  is_empty, split, trim_space, trim_left, trim_right, is_space, map, Lacks, split-cons_lem,
  split_of_Lacks, All, ◌⊎◌,
}
use pje_headless.Config.{
  Config, Env, Backend, env_or, split_csv, keep_parts, from_env, ordered, build_ordered_signers,
}

-- An entry that a comma-separated list can hold.
abbrev pub Entry : Text → Type 0
Entry t = Lacks b',' t × (trim_space t ≡ t) × (is_empty t ≡ false)

abbrev pub Entries : List Text → Type 0
Entries [] = Unit {0}
Entries (t ∷ ts) = Entry t × Entries ts

-- The entries with a comma after each but the last.
abbrev comma_separated : List Text → Text
comma_separated [] = []
comma_separated (t ∷ []) = t
comma_separated (t ∷ (u ∷ ts)) = t ++ (b',' ∷ comma_separated (u ∷ ts))

keep_parts-keep : (t : Text) (ps : List Text) → Entry t → keep_parts (t ∷ ps) ≡ t ∷ keep_parts ps
keep_parts-keep t ps h = rw (h.1, h.2) refl

keep_parts-split : (ts : List Text) → Entries ts → keep_parts (split b',' (comma_separated ts)) ≡ ts
unfolding split trim_space trim_left trim_right
keep_parts-split [] h = refl
keep_parts-split (t ∷ []) h = ap keep_parts (split_of_Lacks b',' t h.0.0) ∙ keep_parts-keep t [] h.0
keep_parts-split (t ∷ (u ∷ ts)) h =
    ap keep_parts (split-cons_lem b',' t (comma_separated (u ∷ ts)) h.0.0)
    ∙ keep_parts-keep t (split b',' (comma_separated (u ∷ ts))) h.0
    ∙ ap (◌∷◌ t) (keep_parts-split (u ∷ ts) h.1)

comma_separated-full :
    (t : Text) (ts : List Text) → Entry t → is_empty (comma_separated (t ∷ ts)) ≡ false
comma_separated-full [] ts h = ground (arith, h.2)
comma_separated-full (c ∷ t) [] h = refl
comma_separated-full (c ∷ t) (u ∷ ts) h = refl

-- splitCSV reads back a list that is written with commas, if no entry is empty, holds a comma, or has
-- white space at an end.
split_csv-comma_separated : (ts : List Text) → Entries ts → split_csv (comma_separated ts) ≡ ts
unfolding split_csv
split_csv-comma_separated [] h = refl
split_csv-comma_separated (t ∷ ts) h =
    rw (comma_separated-full t ts h.0) (keep_parts-split (t ∷ ts) h)

-- How a backend follows from the settings: it takes its settings, and a remote one has an address.
abbrev pub Configured : Config → Backend → Type 0
Configured cfg b =
    (b
      ≡ Backend.pkcs11 cfg.pkcs11_module cfg.pkcs11_pin cfg.pkcs11_slot cfg.pkcs11_label
          cfg.chain_dir)
    ⊎ ((b ≡ Backend.pfx cfg.pfx_path cfg.pfx_pass cfg.chain_dir)
        ⊎ ((b ≡ Backend.remote cfg.signer_remote_addr) × (is_empty cfg.signer_remote_addr ≡ false)))

-- The backends that buildOrderedSigners lists take their settings, and a remote one has an address that
-- is not empty.
ordered-Configured : (cfg : Config) (names : List Text) → All (Configured cfg) (ordered cfg names)
ordered-Configured cfg [] = tt
ordered-Configured cfg (name ∷ names) = ground (arith, ordered-Configured cfg names)

-- The backends by the names of PJE_SIGNER_PRIORITY.
pub data Kind : Type 0 where
  token file other_host : Kind

abbrev pub name_of : Kind → Text
name_of token = codes "pkcs11"
name_of file = codes "pfx"
name_of other_host = codes "remote"

abbrev pub backend_of : Config → Kind → Backend
backend_of cfg token =
    Backend.pkcs11 cfg.pkcs11_module cfg.pkcs11_pin cfg.pkcs11_slot cfg.pkcs11_label cfg.chain_dir
backend_of cfg file = Backend.pfx cfg.pfx_path cfg.pfx_pass cfg.chain_dir
backend_of cfg other_host = Backend.remote cfg.signer_remote_addr

name_of-Entry : (k : Kind) → Entry (name_of k)
unfolding trim_space trim_left trim_right is_space
name_of-Entry token = ((refl, (refl, (refl, (refl, (refl, (refl, tt)))))), refl, refl)
name_of-Entry file = ((refl, (refl, (refl, tt))), refl, refl)
name_of-Entry other_host = ((refl, (refl, (refl, (refl, (refl, (refl, tt)))))), refl, refl)

names-Entries : (ks : List Kind) → Entries (map name_of ks)
names-Entries [] = tt
names-Entries (k ∷ ks) = (name_of-Entry k, names-Entries ks)

ordered_names :
    (cfg : Config) (ks : List Kind)
    → is_empty cfg.signer_remote_addr ≡ false
    → ordered cfg (map name_of ks) ≡ map (backend_of cfg) ks
unfolding ◌===◌
ordered_names cfg [] h = refl
ordered_names cfg (token ∷ ks) h = ap (◌∷◌ (backend_of cfg token)) (ordered_names cfg ks h)
ordered_names cfg (file ∷ ks) h = ap (◌∷◌ (backend_of cfg file)) (ordered_names cfg ks h)
ordered_names cfg (other_host ∷ ks) h =
    rw h (ap (◌∷◌ (backend_of cfg other_host)) (ordered_names cfg ks h))

priority_set :
    (set names : Text)
    → set ≡ names
    → is_empty names ≡ false
    → (if is_empty set then codes "pkcs11,pfx" else set) ≡ names
priority_set set names e full = ground (arith, e, full)

-- Where PJE_SIGNER_PRIORITY names backends with commas between them, and an address of the remote
-- signer is set, the signers are built in that order, each with its settings.
pub build_ordered-priority :
    (env : Env) (k : Kind) (ks : List Kind)
    → env (codes "PJE_SIGNER_PRIORITY") ≡ comma_separated (map name_of (k ∷ ks))
    → is_empty (env (codes "PJE_SIGNER_REMOTE_ADDR")) ≡ false
    → build_ordered_signers (from_env env) ≡ map (backend_of (from_env env)) (k ∷ ks)
unfolding build_ordered_signers from_env env_or
build_ordered-priority env k ks e a =
    let names = comma_separated (map name_of (k ∷ ks)) in
    let set = comma_separated-full (name_of k) (map name_of ks) (name_of-Entry k) in
    ap (λ t. ordered (from_env env) (split_csv t))
      (priority_set (env (codes "PJE_SIGNER_PRIORITY")) names e set)
    ∙ ap (ordered (from_env env))
        (split_csv-comma_separated (map name_of (k ∷ ks)) (names-Entries (k ∷ ks)))
    ∙ ordered_names (from_env env) (k ∷ ks) a
