-- ===== src/Lib.antt =====
-- pje_headless: a headless login to the jus.br portal with a digital certificate. A browser drives the
-- SSO pages; the pages ask a local PJeOffice server for a signature; a signer gives it, from a hardware
-- token, a PFX file or another host; the bearer that the browser then sees is cached and served by gRPC.
--
-- The files, and the code that each is about:
--   Base       shared notation, lists, integers, Go strings, errors and results
--   Clock      package time: Time, Duration, Unix seconds, with the wrapping of int64
--   LoginSvc   internal/loginsvc: jwt.go in Jwt, LoginManager of manager.go in Manager. GetBearer is two
--              critical sections, `enter` and `publish`; System interleaves callers at the mutex, with a
--              step for each section, for the wakeup of a waiter and for its cancellation; Service adds the
--              logins that its callers run
--   GrpcLogin  internal/grpclogin/server.go: GetBearer, Health, expUnix, ListenAndServe
--   Signer     internal/signer: the interface in Defs, dual.go with internal/audit in Dual, remote.go in
--              Remote, pkcs11.go in Pkcs11, pfx.go in Pfx, pkipath.go in Pkipath. A method takes the
--              state of the backend with the world behind it and gives them back with its result
--   GrpcSigner internal/grpcsigner/server.go: the four RPCs, ensureLogin, ListenAndServe
--   Topology   a RemoteSigner over the SignerService, and a RemoteSigner inside a DualSigner
--   PjeOffice  internal/pjeoffice/server.go: process in Process, route and the handlers in Handlers,
--              NewServer, Start and Serve in Start
--   Std        what the code uses of encoding/base64, base32 and asn1, with readers of what they write
--   Browser    internal/browser: url.go and the tracker of session.go in Url, pickActiveTarget in Target,
--              rebind and close in Session, capture.go in Capture, totp.go in Totp, totp_enroll.go in
--              Enroll, config.go with Config, New and the Chrome options of browser.go in Chrome. The rest
--              of browser.go: the shape of its polling loops in Polling, the state that Login drives in
--              Flow, the actions of the pages in Scripts, maybeHandle2FA and maybeRetryCert in Prompts,
--              awaitAuthenticated in Await, captureBearer, startPJeOffice and Login in Login; jsstring.go
--              and the scripts that run in the page in Js
--   Config     internal/config/config.go, and buildSigner of cmd/pjeheadless/main.go
--   Program    the run functions of cmd/pjeheadless/main.go, and the service of runLoginService in whole:
--              Sessions and Answers join loginFn, the LoginManager and the GetBearer RPC
--   Net        what the servers use of package net
--   Handles    the handles that a library has given out, for theorems on what is given back
--   Tests      each theorem of the results at a concrete input
--
-- A definition has the name of its Go function in snake case. A long function is a chain of stages, one
-- for each call of a library, each taking the result of that call; `login_locked` of Signer.Pkcs11 and
-- `process` of PjeOffice are such chains. Libraries are parameters: the PKCS#11 module, PKCS#12, RSA, the
-- hashes, JSON, base64, base32, X.509, net/http, gRPC and chromedp. Where a theorem counts what a library
-- is asked to do, it takes the library with a count or a log beside its own state. Where the encodings
-- themselves matter, the theorems put those of Std in the place of the parameters: the certificate path,
-- the secret of an enrollment and the payload of a JWT. The string literals of a script are written out in
-- Browser.Js.Literal.
--
-- The events of the browser come at any time, and its listeners only feed the URL tracker and the capture.
-- The model takes the events in where the code reads what they leave behind (`observe` of Browser.Flow):
-- before a round reads the URL, and before a round of captureBearer reads the token.
--
-- Bounds: the five polling loops of the login take fuel, as the clock and the end of a wait belong to
-- the world; `none` means that it ran out. One round more than the shortest rounds that fit before the
-- deadline is enough: 121 and 61 for the waits of 60 s and 30 s every 500 ms, 61 for enrollTOTPRobust,
-- 241 for captureBearer. A round of awaitAuthenticated that cannot navigate away from gov.br begins
-- again without a pause, so its fuel depends on the time that such a failure takes. The digits above
-- the sixth that %06d would print take the number itself as fuel. The other loops run over lists, and
-- all end. Times are whole nanoseconds without the saturation of Time.Add. Strings are sequences of
-- code points.
--
-- Not modelled: the generated gRPC code, the loops that accept connections, logging, and what JavaScript
-- does with a script, of which the result is a parameter. The methods of one PKCS#11 or PFX signer do not
-- overlap in the model, nor do the signatures with the login that asks for them; the callers of one
-- LoginManager do, the RPCs of one SignerService at the mutex of ensureLogin, and the calls of one DualSigner
-- where they exchange its last subject.
pub mod Base
pub mod Clock
pub mod Std
pub mod Net
pub mod Handles
pub mod LoginSvc
pub mod GrpcLogin
pub mod Browser
pub mod Signer
pub mod GrpcSigner
pub mod Config
pub mod PjeOffice
pub mod Topology
pub mod Program
pub mod Tests
