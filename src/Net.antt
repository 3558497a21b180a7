-- ===== src/Net.antt =====
-- What the code uses of package net, over the world `W`. A listener is a number.
use pje_headless.Base.{ℕ, Text, Act}

pub record Net (W : Type 0) : Type 0 where
  pub listen : (network addr : Text) → Act W ℕ
  pub close : ℕ → W → W
  pub join_host_port : (host port : Text) → Text
