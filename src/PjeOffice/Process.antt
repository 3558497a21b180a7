-- ===== src/PjeOffice/Process.antt =====
-- process of server.go. JSON, net/url and the HTTP client are parameters (`Libraries`). A step stands
-- for each early return, in the source's order.
use pje_headless.Base.{
  ℕ, ◌==◌, ◌===◌, ◌||◌, Bool, if◌then◌else◌, List, [], ◌∷◌, ◌++◌, Text, codes, is_empty, equal_fold,
  Result, ok, err, Error, Act,
}
use pje_headless.Signer.Defs.{Signer}

pub record Envelope : Type 0 where
  pub servidor : Text
  pub versao : Text
  pub sessao : Text
  pub tarefa : Text

pub record Task : Type 0 where
  pub mensagem : Text
  pub enviar_para : Text
  pub token : Text
  pub algoritmo_assinatura : Text

pub record OutBody : Type 0 where
  pub uuid : Text
  pub mensagem : Text
  pub assinatura : Text
  pub cert_chain : Text

abbrev pub Headers : Type 0
Headers = List (Text × Text)

-- Header.Set: a key is compared without regard to case.
unfoldable pub set : Text → Text → Headers → Headers
set key value [] = (key, value) ∷ []
set key value ((k, v) ∷ hs) =
    let rest = set key value hs in if equal_fold k key then (key, value) ∷ hs else (k, v) ∷ rest

-- A POST to `target`.
pub record OutRequest : Type 0 where
  pub target : Text
  pub headers : Headers
  pub body : List ℕ

-- The libraries over the world `W`, with `J` for map[string]any. `scheme` is url.Parse and the field
-- Scheme of its result, `new_request` what http.NewRequestWithContext checks of its target, and
-- `send` the client's Do, with the status code of the response.
pub record Libraries (J W : Type 0) : Type 0 where
  pub unmarshal : List ℕ → Result J
  pub remarshal : J → Result (List ℕ)
  pub parse_envelope : List ℕ → Result Envelope
  pub parse_task : Text → Result Task
  pub marshal_out : OutBody → Result (List ℕ)
  pub scheme : Text → Result Text
  pub new_request : Text → Result (Unit {0})
  pub send : OutRequest → Act W ℕ

abbrev pub pje_version : Text
pje_version = codes "2.5.16"

-- successCodes
unfoldable pub success : ℕ → Bool
success code =
    code == 200 || code == 201 || code == 202 || code == 204 || code == 302 || code == 304

abbrev pub or_default : Text → Text → Text
or_default t fallback = if is_empty t then fallback else t

abbrev cookie : Text → Headers → Headers
cookie sessao hs = if is_empty sessao then hs else set (codes "Cookie") sessao hs

abbrev pub out_headers : Envelope → Headers
out_headers env = cookie env.sessao (
    set (codes "Accept-Encoding") (codes "gzip,deflate") (
      set (codes "User-Agent") (codes "PJeOffice/" ++ pje_version) (
        set (codes "Accept") (codes "application/json") (
          set (codes "Content-Type") (codes "application/json")
            (set (codes "versao") (or_default env.versao pje_version) [])))))

abbrev pub allowed_scheme : Text → Bool
allowed_scheme s = s === codes "http" || s === codes "https"

module _ {J W : Type 0} (libs : Libraries J W) (signer : Signer W) where
  abbrev pub answered : Result ℕ × W → Result (Unit {0}) × W
  answered (err e, w) = (err (Error.wrap "process: remote post to" e), w)
  answered (ok code, w) =
      (if success code then ok tt else err (Error.msg "process: remote post returned"), w)

  abbrev pub sent : OutRequest → Result (Unit {0}) → W → Result (Unit {0}) × W
  sent req (err e) w = (err (Error.wrap "process: new request" e), w)
  sent req (ok _) w = answered (libs.send req w)

  -- From the test of the scheme on.
  abbrev pub targeted : OutRequest → Result Text → W → Result (Unit {0}) × W
  targeted req (err e) w = (err (Error.wrap "process: invalid target URL" e), w)
  targeted req (ok scheme) w =
      let post = sent req (libs.new_request req.target) w in
      let refused : Result (Unit {0}) × W =
        (err (Error.msg "process: target URL scheme is not allowed (only http/https)"), w) in
      if allowed_scheme scheme then post else refused

  abbrev pub marshalled : Envelope → Task → Result (List ℕ) → W → Result (Unit {0}) × W
  marshalled env t (err e) w = (err (Error.wrap "process: marshal out" e), w)
  marshalled env t (ok body) w =
      let req : OutRequest = record {
        target = env.servidor ++ t.enviar_para;
        headers = out_headers env;
        body = body;
      } in
      targeted req (libs.scheme req.target) w

  abbrev pub with_chain : Envelope → Task → Text → Result Text × W → Result (Unit {0}) × W
  with_chain env t sig (err e, w) = (err (Error.wrap "process: certchain" e), w)
  with_chain env t sig (ok chain, w) =
      marshalled env t
        (libs.marshal_out
          (record { uuid = t.token; mensagem = t.mensagem; assinatura = sig; cert_chain = chain }))
        w

  abbrev pub with_signature : Envelope → Task → Result Text × W → Result (Unit {0}) × W
  with_signature env t (err e, w) = (err (Error.wrap "process: sign" e), w)
  with_signature env t (ok sig, w) = with_chain env t sig (signer.cert_chain_pki_path w)

  abbrev pub logged_in : Envelope → Task → Result (Unit {0}) × W → Result (Unit {0}) × W
  logged_in env t (err e, w) = (err (Error.wrap "process: login" e), w)
  logged_in env t (ok _, w) =
      with_signature env t
        (signer.sign t.mensagem (or_default t.algoritmo_assinatura (codes "MD5withRSA")) w)

  abbrev pub with_task : Envelope → Result Task → W → Result (Unit {0}) × W
  with_task env (err e) w = (err (Error.wrap "process: parse tarefa" e), w)
  with_task env (ok t) w = logged_in env t (signer.login w)

  abbrev pub with_envelope : Result Envelope → W → Result (Unit {0}) × W
  with_envelope (err e) w = (err (Error.wrap "process: parse envelope" e), w)
  with_envelope (ok env) w = with_task env (libs.parse_task env.tarefa) w

  abbrev pub remarshalled : Result (List ℕ) → W → Result (Unit {0}) × W
  remarshalled (err e) w = (err (Error.wrap "process: re-marshal" e), w)
  remarshalled (ok bytes) w = with_envelope (libs.parse_envelope bytes) w

  unfoldable pub process : J → Act W (Unit {0})
  unfolding success set
  process raw w = remarshalled (libs.remarshal raw) w
