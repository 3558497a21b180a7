-- ===== src/Signer/Defs.antt =====
-- internal/signer/signer.go
use pje_headless.Base.{Bool, Text, Act}
use pje_headless.Clock.{Time}

pub record Identity : Type 0 where
  pub subject : Text
  pub issuer : Text
  pub serial : Text
  pub not_after : Time

pub record Signer (W : Type 0) : Type 0 where
  pub login : Act W (Unit {0})
  pub sign : Text → Text → Act W Text
  pub cert_chain_pki_path : Act W Text
  pub identity : Act W Identity
  pub available : W → Bool × W
