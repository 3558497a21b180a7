-- ===== src/Browser.antt =====
-- internal/browser: the headless login. Login is the whole of it; `Await` drives the SSO pages over the
-- `Flow`, `Session` renews the page context, `Capture` finds the bearer in network events, and `Totp`
-- computes the second factor.
pub mod Url
pub mod Js
pub mod Target
pub mod Capture
pub mod Session
pub mod Enroll
pub mod Prompts
pub mod Polling
pub mod Flow
pub mod Scripts
pub mod Await
pub mod Chrome
pub mod Login
pub mod Totp
