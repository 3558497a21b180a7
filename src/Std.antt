-- ===== src/Std.antt =====
-- What the code uses of encoding/base64, encoding/base32 and encoding/asn1, with readers of what they write.
pub mod Sextets
pub mod Base64
pub mod RawUrl
pub mod Base32
pub mod Der
