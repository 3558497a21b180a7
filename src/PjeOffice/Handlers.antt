-- ===== src/PjeOffice/Handlers.antt =====
-- route, handleOptions, handleGET, handlePOST, applyCORS, writeGIF and Start of server.go. Reading the
-- body, the query and http.NotFound are net/http: a request is what they give of it, and `Replier` is
-- what they write.
use pje_headless.Base.{
  ℕ, ◌^◌, ◌===◌, leb, if◌then◌else◌, Option, none, some, List, [], ◌∷◌, ◌++◌, length, take, Text,
  codes, is_empty, utf8, Result, ok, err, Error,
}
use pje_headless.Signer.Defs.{Signer}
use pje_headless.PjeOffice.Process.{Libraries, Headers, set, process}

-- An http.Request. `query_r` are the values of the query's `r`; `body` is what arrives of the body,
-- and `body_error` the failure that ends it, if one does.
pub record Request : Type 0 where
  pub method : Text
  pub path : Text
  pub header : Text → Text
  pub query_r : List Text
  pub body : List ℕ
  pub body_error : Option Error

pub record Response : Type 0 where
  pub status : ℕ
  pub headers : Headers
  pub body : List ℕ

-- http.NotFound on a response that has headers, `%d` of a length, and url.QueryUnescape.
pub record Replier : Type 0 where
  pub not_found : Headers → Response
  pub decimal : ℕ → Text
  pub query_unescape : Text → Result Text

-- gifOK and gifErr, decoded.
unfoldable pub gif : ℕ → List ℕ
gif width =
    codes "GIF89a"
    ++ (width ∷ 0 ∷ 1 ∷ 0 ∷ 0xf0 ∷ 0 ∷ 0 ∷ 0xff ∷ 0xff ∷ 0xff ∷ 0 ∷ 0 ∷ 0 ∷ [])
    ++ (0x21 ∷ 0xf9 ∷ 4 ∷ 0 ∷ 0 ∷ 0 ∷ 0 ∷ 0 ∷ 0x2c ∷ 0 ∷ 0 ∷ 0 ∷ 0 ∷ width ∷ 0 ∷ 1 ∷ 0 ∷ 0 ∷ [])
    ++ (2 ∷ 2 ∷ 0x44 ∷ 1 ∷ 0 ∷ 0x3b ∷ [])

abbrev pub gif_ok : List ℕ
gif_ok = gif 1

abbrev pub gif_err : List ℕ
gif_err = gif 2

unfoldable pub apply_cors : Request → Headers → Headers
apply_cors r h =
    let origin = r.header (codes "Origin") in
    set (codes "Vary") (codes "Origin") (
      set (codes "Access-Control-Allow-Private-Network") (codes "true") (
        set (codes "Access-Control-Allow-Credentials") (codes "true") (
          set (codes "Access-Control-Allow-Origin") (if is_empty origin then codes "*" else origin)
            h)))

abbrev no_cache : Headers → Headers
no_cache h = set (codes "Expires") (codes "0") (
    set (codes "Pragma") (codes "no-cache")
      (set (codes "Cache-Control") (codes "no-cache, no-store, must-revalidate") h))

abbrev allow_headers : Text → Headers → Headers
allow_headers requested h =
    if is_empty requested then h else set (codes "Access-Control-Allow-Headers") requested h

unfoldable pub handle_options : Request → Response
unfolding apply_cors
handle_options r = record {
  status = 204;
  headers = set (codes "Content-Length") (codes "0") (
      no_cache (
        allow_headers (r.header (codes "Access-Control-Request-Headers")) (
          set (codes "Access-Control-Allow-Methods") (codes "GET, POST, OPTIONS")
            (apply_cors r []))));
  body = [];
}

unfoldable pub write_gif : Replier → List ℕ → Headers → Response
write_gif net blob h = record {
  status = 200;
  headers = no_cache (
      set (codes "Connection") (codes "close") (
        set (codes "Content-Length") (net.decimal (length blob))
          (set (codes "Content-Type") (codes "image/gif") h)));
  body = blob;
}

-- io.ReadAll(io.LimitReader(r.Body, 1<<20)): a failure past the limit is not seen.
unfoldable pub read_body : Request → Result (List ℕ)
read_body r =
    let failed : Option Error → Result (List ℕ) =
      λ o. elim o [ none ↦ ok r.body | some e ↦ err e ] in
    if leb (2 ^ 20) (length r.body) then ok (take (2 ^ 20) r.body) else failed r.body_error

module _ {J W : Type 0} (net : Replier) (libs : Libraries J W) (signer : Signer W) where
  -- The GIF for the outcome of process.
  abbrev pub acknowledge : Request → Result (Unit {0}) × W → Response × W
  acknowledge r (ok _, w) = (write_gif net gif_ok (apply_cors r []), w)
  acknowledge r (err e, w) = (write_gif net gif_err (apply_cors r []), w)

  abbrev pub reply_error : Request → W → Response × W
  reply_error r w = (write_gif net gif_err (apply_cors r []), w)

  abbrev pub processed : Request → Result J → W → Response × W
  processed r (err e) w = reply_error r w
  processed r (ok payload) w = acknowledge r (process libs signer payload w)

  abbrev pub unescaped : Request → Result Text → W → Response × W
  unescaped r (err e) w = reply_error r w
  unescaped r (ok decoded) w = processed r (libs.unmarshal (utf8 decoded)) w

  abbrev pub first_query : Request → List Text → W → Response × W
  first_query r [] w = reply_error r w
  first_query r (q ∷ qs) w = unescaped r (net.query_unescape q) w

  unfoldable pub handle_get : Request → W → Response × W
  unfolding apply_cors write_gif gif process
  handle_get r w = first_query r r.query_r w

  abbrev pub with_body : Request → Result (List ℕ) → W → Response × W
  with_body r (err e) w = reply_error r w
  with_body r (ok bytes) w = processed r (libs.unmarshal bytes) w

  unfoldable pub handle_post : Request → W → Response × W
  unfolding apply_cors write_gif gif process read_body
  handle_post r w = with_body r (read_body r) w

  unfoldable pub route : Request → W → Response × W
  unfolding handle_options handle_get handle_post apply_cors write_gif gif
  route r w =
      let posted = handle_post r w in
      let got = handle_get r w in
      let missing : Response × W = (net.not_found (apply_cors r []), w) in
      let bare : Response × W = (net.not_found [], w) in
      let hello : Response × W = (write_gif net gif_ok (apply_cors r []), w) in
      if r.method === codes "OPTIONS"
      then (handle_options r, w)
      else if r.path === codes "/pjeOffice/"
      then (if r.method === codes "GET" then hello else bare)
      else if r.path === codes "/pjeOffice/requisicao/"
      then (if r.method === codes "GET"
          then got
          else if r.method === codes "POST"
          then posted
          else missing)
      else missing
