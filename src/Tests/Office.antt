-- ===== src/Tests/Office.antt =====
-- The PJeOffice server and the configuration on concrete inputs.
use pje_headless.Base.{
  ℕ, ◌+◌, ◌≡◌, refl, none, some, true, false, is_ok, not, ◌&&◌, ◌||◌, [], ◌∷◌, map, Text, codes, ok,
  ◌===◌, trim_space, trim_left, trim_right, is_space, if◌then◌else◌, err, Error, ◌++◌, replicate,
  arith,
}
use pje_headless.Clock.{from_unix}
use pje_headless.Base.Int.{pos}
use pje_headless.Std.Base64.{decode}
use pje_headless.PjeOffice.Handlers.{gif, gif_ok, gif_err}
use pje_headless.Signer.Defs.{Signer, Identity}
use pje_headless.PjeOffice.Process.{Libraries, process}
use pje_headless.PjeOffice.Handlers.{Request, Replier, handle_get, handle_post, handle_options}
use pje_headless.PjeOffice.Logs.{logged_libs, logged_signer}
use pje_headless.PjeOffice.Posts.{Effect, Post, process-Effect}
use pje_headless.PjeOffice.Replies.{Served, handlers-Served, header, origin_key, replies-Cors}
use pje_headless.Net.{Net}
use pje_headless.PjeOffice.Start.{Server, start}
use pje_headless.PjeOffice.Listening.{Asked, to_ask, logged_net, quiet_http, start-asks}
use pje_headless.Program.{mask, run_signer_only}
use pje_headless.Program.Startup.{FailsFast, run_signer_only-FailsFast}
use pje_headless.Config.{Built}
use pje_headless.Program.Masking.{mask-hides}
use pje_headless.Config.{Env, build_ordered_signers, from_env}
use pje_headless.Config.Order.{Entries, Kind, backend_of, build_ordered-priority}

abbrev owner : Identity
owner = record { subject = codes "me"; issuer = []; serial = []; not_after = from_unix (pos 5) }

abbrev card : Signer ℕ
card = record {
  login = λ w. (ok tt, w + 1);
  sign = λ phrase algorithm w. (ok phrase, w);
  cert_chain_pki_path = λ w. (ok (codes "chain"), w);
  identity = λ w. (ok owner, w);
  available = λ w. (true, w);
}

-- Libraries for which every payload is the same task, and a court that answers 200.
abbrev court : Libraries Text ℕ
court = record {
  unmarshal = λ bytes. ok bytes;
  remarshal = λ raw. ok raw;
  parse_envelope = λ bytes. ok (record {
    servidor = codes "https://pje/";
    versao = [];
    sessao = codes "s=1";
    tarefa = bytes;
  });
  parse_task = λ t. ok (record {
    mensagem = t;
    enviar_para = codes "sso";
    token = codes "u";
    algoritmo_assinatura = [];
  });
  marshal_out = λ body. ok body.assinatura;
  scheme = λ target. ok (codes "https");
  new_request = λ target. ok tt;
  send = λ req w. (ok 200, w + 1);
}

abbrev net : Replier
net = record {
  not_found = λ h. record { status = 404; headers = h; body = [] };
  decimal = λ n. codes "43";
  query_unescape = λ t. ok t;
}

abbrev request : Request
request = record {
  method = codes "GET";
  path = codes "/pjeOffice/";
  header = λ key. [];
  query_r = codes "phrase" ∷ [];
  body = codes "phrase";
  body_error = none;
}

process-Effect_example :
    Effect court card
      (Post court card (codes "phrase"))
      []
      (process (logged_libs court) (logged_signer card) (codes "phrase") (0, []))
process-Effect_example = process-Effect court card (codes "phrase") 0 []

handlers-Served_example :
    Served net court card []
      (handle_get net (logged_libs court) (logged_signer card) request (0, []))
    × Served net court card []
        (handle_post net (logged_libs court) (logged_signer card) request (0, []))
handlers-Served_example = handlers-Served net court card request 0 []

replies-Cors_example :
    (header origin_key (handle_options request).headers ≡ some (codes "*"))
    × (header origin_key (handle_get net court card request 0).0.headers ≡ some (codes "*"))
    × (header origin_key (handle_post net court card request 0).0.headers ≡ some (codes "*"))
replies-Cors_example = replies-Cors net court card request 0

names-Entries_ok : Entries (codes "pfx" ∷ codes "x" ∷ [])
unfolding trim_space trim_left trim_right is_space
names-Entries_ok = (((refl, (refl, (refl, tt))), refl, refl), (((refl, tt), refl, refl), tt))

-- An environment that sets the priority and the address of the remote signer.
abbrev env : Env
env key =
    if key === codes "PJE_SIGNER_PRIORITY"
    then codes "pfx,remote"
    else if key === codes "PJE_SIGNER_REMOTE_ADDR"
    then codes "h:9090"
    else []

build_ordered-priority_example :
    build_ordered_signers (from_env env)
    ≡ map (backend_of (from_env env)) (Kind.file ∷ Kind.other_host ∷ [])
unfolding ◌===◌
build_ordered-priority_example =
    build_ordered-priority env Kind.file (Kind.other_host ∷ []) refl refl

abbrev local_server : Server ℕ
local_server = record {
  signer = 0;
  port = codes "8800";
  bind_addr = codes "127.0.0.1";
  client_timeout = 13;
}

abbrev ipv6_only : Net ℕ
ipv6_only = record {
  listen =
      λ network addr w. (if network === codes "tcp6" then ok 1 else err (Error.msg "listen"), w);
  close = λ n w. w;
  join_host_port = λ host port. host ++ port;
}

start-asks_example :
    let x =
      start
        (logged_net ipv6_only)
        (quiet_http ipv6_only (λ hs srv n w. (ok tt, w)))
        local_server
        (0, []) in
    (x.1.1 ≡ to_ask ipv6_only local_server (err (Error.msg "listen")))
    × ((is_ok x.0 && not (false || true)) ≡ false)
unfolding ◌===◌
start-asks_example = start-asks ipv6_only (λ hs srv n w. (ok tt, w)) local_server 0

mask-hides_example :
    mask (replicate 20 b'a' ++ (replicate 4 b's' ++ replicate 6 b'z'))
    ≡ replicate 20 b'a' ++ (codes "..." ++ replicate 6 b'z')
mask-hides_example =
    mask-hides (replicate 20 b'a') (replicate 4 b's') (replicate 6 b'z') refl (omega arith) refl

-- The card beside the log of the network, for every choice of backends.
abbrev beside_card : Built → Signer (ℕ × Asked)
beside_card b = record {
  login = λ (w, log). (ok tt, (w + 1, log));
  sign = λ phrase algorithm w. (ok phrase, w);
  cert_chain_pki_path = λ w. (ok (codes "chain"), w);
  identity = λ w. (ok owner, w);
  available = λ w. (true, w);
}

run_signer_only-FailsFast_example : FailsFast (from_env env) (ok tt) (
    run_signer_only (logged_net ipv6_only) beside_card (λ s n w. (ok tt, w)) (from_env env) (0, []))
run_signer_only-FailsFast_example =
    run_signer_only-FailsFast ipv6_only beside_card (λ s n w. (ok tt, w))
      (record { login = λ b w. refl; serving = λ s n w. refl }) (from_env env) 0

gif_ok_decoded :
    decode (codes "R0lGODlhAQABAPAAAP///wAAACH5BAAAAAAALAAAAAABAAEAAAICRAEAOw==") ≡ some gif_ok
unfolding decode gif
gif_ok_decoded = refl

gif_err_decoded :
    decode (codes "R0lGODlhAgABAPAAAP///wAAACH5BAAAAAAALAAAAAACAAEAAAICRAEAOw==") ≡ some gif_err
unfolding decode gif
gif_err_decoded = refl
