-- ===== src/PjeOffice.antt =====
-- internal/pjeoffice/server.go: the HTTP server of the PJeOffice 1.0 protocol over a signer. Process is
-- `process`, the handlers and their replies are in Handlers.
pub mod Process
pub mod Handlers
pub mod Start
pub mod Listening
pub mod Logs
pub mod Posts
pub mod Replies
