-- ===== src/PjeOffice/Start.antt =====
-- NewServer, Start and Serve of internal/pjeoffice/server.go. The handler, which is in Handlers, and the
-- http.Client and http.Server that the code sets up are left to the parameter `serve`, but for their
-- settings. The logger is left out.
use pje_headless.Base.{
  ℕ, ◌*◌, ◌+◌, ◌===◌, if◌then◌else◌, Text, codes, Result, err, Error, Act, branch,
}
use pje_headless.Net.{Net}

pub record Server (Signer : Type 0) : Type 0 where
  pub signer : Signer
  pub port : Text
  pub bind_addr : Text
  pub client_timeout : ℕ

abbrev pub connect_timeout : ℕ
connect_timeout = 3

abbrev pub read_timeout : ℕ
read_timeout = 10

-- Timeouts in seconds.
unfoldable pub new_server : {Signer : Type 0} → Signer → (port bind_addr : Text) → Server Signer
new_server s port bind_addr = record {
  signer = s;
  port = port;
  bind_addr = bind_addr;
  client_timeout = connect_timeout + read_timeout;
}

pub record HttpServer : Type 0 where
  pub read_header_timeout : ℕ
  pub read_timeout : ℕ
  pub write_timeout : ℕ
  pub max_header_bytes : ℕ

abbrev pub http_server : HttpServer
http_server = record {
  read_header_timeout = 5;
  read_timeout = read_timeout;
  write_timeout = read_timeout + connect_timeout;
  max_header_bytes = 2 * 1_048_576;
}

module _ {Signer W : Type 0} (net : Net W)
    (serve_http : HttpServer → Server Signer → ℕ → Act W (Unit {0})) where
  unfoldable pub serve : Server Signer → ℕ → Act W (Unit {0})
  serve srv listener w = serve_http http_server srv listener w

  abbrev pub refused : Error → Result (Unit {0})
  refused e = err (Error.wrap "pjeoffice: listen" e)

  -- After the first net.Listen failed.
  abbrev pub fall_back : Server Signer → Error → Act W (Unit {0})
  fall_back srv e w =
      let again =
        branch (net.listen (codes "tcp6") (net.join_host_port (codes "::1") srv.port) w)
          (λ listener v. serve srv listener v) (λ e' v. (refused e', v)) in
      let failed : Result (Unit {0}) × W = (refused e, w) in
      if srv.bind_addr === codes "127.0.0.1" then again else failed

  unfoldable pub start : Server Signer → Act W (Unit {0})
  unfolding serve
  start srv w =
      branch (net.listen (codes "tcp") (net.join_host_port srv.bind_addr srv.port) w)
        (λ listener v. serve srv listener v) (λ e v. fall_back srv e v)
