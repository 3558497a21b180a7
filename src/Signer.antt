-- ===== src/Signer.antt =====
-- internal/signer: the interface of a signing backend (`Defs`), the backends and the fallback over
-- several of them (`Dual`). A backend is a record of methods over a state `W`, which holds its own
-- fields and the world that it reaches: a token, a file or the network.
pub mod Defs
pub mod Dual
pub mod Remote
pub mod Pkcs11
pub mod Pkipath
pub mod Pfx
