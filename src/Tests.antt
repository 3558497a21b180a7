-- ===== src/Tests.antt =====
-- Concrete runs: each theorem of the results at an input where its hypotheses hold.
pub mod Audit
pub mod Login
pub mod Signing
pub mod Browsing
pub mod Office
pub mod Token
pub mod Page
pub mod Sso
pub mod Scripts
pub mod Chains
pub mod Service
pub mod Run
