-- ===== src/LoginSvc.antt =====
-- internal/loginsvc: the expiry of a bearer (`Jwt`), the cache with its critical sections
-- (`Manager`), and the goroutines that share one manager (`System`, with the proofs below it).
pub mod Jwt
pub mod Manager
pub mod System
pub mod Service
pub mod Reuse
pub mod Token
