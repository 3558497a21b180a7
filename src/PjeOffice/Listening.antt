-- ===== src/PjeOffice/Listening.antt =====
-- Where Start listens, over a network that logs the addresses.
use pje_headless.Base.{
  ℕ, ◌≡◌, ◌===◌, not, ◌&&◌, ◌||◌, false, if◌then◌else◌, is_ok, arith, List, [], ◌∷◌, Text, codes,
  Result, Act,
}
use pje_headless.Net.{Net}
use pje_headless.PjeOffice.Start.{Server, HttpServer, serve, start}

abbrev pub Asked : Type 0
Asked = List (Text × Text)

abbrev pub logged_net : {W : Type 0} → Net W → Net (W × Asked)
logged_net net = record {
  listen = λ network addr (w, log).
      let (r, v) = net.listen network addr w in (r, (v, (network, addr) ∷ log));
  close = λ n (w, log). (net.close n w, log);
  join_host_port = net.join_host_port;
}

-- What is to be asked for, the latest first, where the first request ended with `r`.
abbrev pub to_ask : {Signer W : Type 0} → Net W → Server Signer → Result ℕ → Asked
to_ask net srv r =
    let own : Text × Text = (codes "tcp", net.join_host_port srv.bind_addr srv.port) in
    let again : Text × Text = (codes "tcp6", net.join_host_port (codes "::1") srv.port) in
    if not (is_ok r) && (srv.bind_addr === codes "127.0.0.1") then again ∷ own ∷ [] else own ∷ []

module _ {Signer W : Type 0} (net : Net W)
    (serve_http : HttpServer → Server Signer → ℕ → Act W (Unit {0})) where
  abbrev pub quiet_http : HttpServer → Server Signer → ℕ → Act (W × Asked) (Unit {0})
  quiet_http hs srv n (w, log) = let (r, v) = serve_http hs srv n w in (r, (v, log))

  -- Start first asks the network for the address it is given. It asks for nothing else, but for ::1 at
  -- the same port where that first request fails and the address is 127.0.0.1. It succeeds only where
  -- one of these two requests is granted.
  pub start-asks :
      (srv : Server Signer) (w : W)
      → let own = net.listen (codes "tcp") (net.join_host_port srv.bind_addr srv.port) w in
        let x = start (logged_net net) quiet_http srv (w, []) in
        (x.1.1 ≡ to_ask net srv own.0)
        × ((is_ok x.0
              && not (
                  is_ok own.0
                  || is_ok
                      (net.listen
                        (codes "tcp6")
                        (net.join_host_port (codes "::1") srv.port)
                        own.1).0))
            ≡ false)
  unfolding start serve
  start-asks srv w = (ground arith, ground arith)
