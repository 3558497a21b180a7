-- ===== src/Browser/Js.antt =====
-- The scripts that internal/browser evaluates in the page: `Literal` is jsString, `Texts` has the
-- scripts' texts, `Devtools` the functions that evaluate them.
pub mod Literal
pub mod Texts
pub mod Devtools
pub mod Calls
