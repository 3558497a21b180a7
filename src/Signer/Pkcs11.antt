-- ===== src/Signer/Pkcs11.antt =====
-- internal/signer/pkcs11.go. The PKCS#11 library is the parameter `Module`, over the state `W` of the
-- process and the token; `md5`, base64 and the X.509 parser are parameters as well. Every call of the
-- library that the code makes is made here, in its order. The mutex is held throughout each method,
-- so methods do not overlap; Available takes none.
pub mod Defs
pub mod Login
pub mod Signing
pub mod Methods
pub mod Resources
pub mod Exclusive
pub mod Sessions
