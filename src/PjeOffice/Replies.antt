-- ===== src/PjeOffice/Replies.antt =====
-- What the server answers, and what it sends for a request that it serves.
use pje_headless.Base.{
  ℕ, ◌≡◌, refl, ◌⊎◌, inl, inr, ◌===◌, Bool-cases, false, arith, if◌then◌else◌, List, [], ◌∷◌,
  Option, none, some, Text, codes, is_empty, equal_fold, to_lower, lower, Result, ok, err, utf8,
}
use pje_headless.Signer.Defs.{Signer}
use pje_headless.PjeOffice.Process.{Libraries, Headers, OutRequest, set, process}
use pje_headless.PjeOffice.Handlers.{
  Request, Response, Replier, gif_ok, gif_err, apply_cors, handle_options, write_gif, read_body,
  acknowledge, processed, unescaped, first_query, with_body, handle_get, handle_post, route,
}
use pje_headless.PjeOffice.Logs.{Entry, logged_libs, logged_signer}
use pje_headless.PjeOffice.Posts.{Accepted, Refused, Sent, Effect, Post, process-Effect}

module _ {J W : Type 0} (net : Replier) (libs : Libraries J W) (signer : Signer W) where
  abbrev PostOf : OutRequest → Type 0
  PostOf req = (raw : J) × Post libs signer raw req

  -- The GIF of success after one post with a success code; the GIF of failure after none, or after one
  -- that got no such code.
  abbrev pub Served : List Entry → Response × (W × List Entry) → Type 0
  Served log (resp, w) =
      ((resp.body ≡ gif_ok) × Sent libs signer PostOf (Accepted libs signer) log w.1)
      ⊎ ((resp.body ≡ gif_err)
          × ((w.1 ≡ log) ⊎ Sent libs signer PostOf (Refused libs signer) log w.1))

  Sent-for :
      (raw : J) (Q : Result ℕ → Type 0) (before after : List Entry)
      → Sent libs signer (Post libs signer raw) Q before after
      → Sent libs signer PostOf Q before after
  Sent-for raw Q before after s = record {
    req = s.req;
    answer = s.answer;
    logged = s.logged;
    posted = (raw, s.posted);
    outcome = s.outcome;
  }

  acknowledge-Served :
      (r : Request) (raw : J) (o : Result (Unit {0})) (w : W × List Entry) (log : List Entry)
      → Effect libs signer (Post libs signer raw) log (o, w)
      → Served log (acknowledge net (logged_libs libs) (logged_signer signer) r (o, w))
  unfolding write_gif
  acknowledge-Served r raw (ok _) w log s = inl (refl, Sent-for raw _ log w.1 s)
  acknowledge-Served r raw (err e) w log (inl same) = inr (refl, inl same)
  acknowledge-Served r raw (err e) w log (inr s) = inr (refl, inr (Sent-for raw _ log w.1 s))

  processed-Served :
      (r : Request) (p : Result J) (w : W) (log : List Entry)
      → Served log (processed net (logged_libs libs) (logged_signer signer) r p (w, log))
  unfolding write_gif
  processed-Served r (err e) w log = inr (refl, inl refl)
  processed-Served r (ok raw) w log =
      let o = process (logged_libs libs) (logged_signer signer) raw (w, log) in
      acknowledge-Served r raw o.0 o.1 log (process-Effect libs signer raw w log)

  unescaped-Served :
      (r : Request) (d : Result Text) (w : W) (log : List Entry)
      → Served log (unescaped net (logged_libs libs) (logged_signer signer) r d (w, log))
  unfolding write_gif
  unescaped-Served r (err e) w log = inr (refl, inl refl)
  unescaped-Served r (ok decoded) w log = processed-Served r (libs.unmarshal (utf8 decoded)) w log

  first_query-Served :
      (r : Request) (qs : List Text) (w : W) (log : List Entry)
      → Served log (first_query net (logged_libs libs) (logged_signer signer) r qs (w, log))
  unfolding write_gif
  first_query-Served r [] w log = inr (refl, inl refl)
  first_query-Served r (q ∷ qs) w log = unescaped-Served r (net.query_unescape q) w log

  with_body-Served :
      (r : Request) (b : Result (List ℕ)) (w : W) (log : List Entry)
      → Served log (with_body net (logged_libs libs) (logged_signer signer) r b (w, log))
  unfolding write_gif
  with_body-Served r (err e) w log = inr (refl, inl refl)
  with_body-Served r (ok bytes) w log = processed-Served r (libs.unmarshal bytes) w log

  -- A request to sign, by GET or by POST, is answered with the success GIF exactly where one request
  -- was sent out for it and came back with a success code; else with the failure GIF, after no request
  -- or one that failed or got another code. What is sent is a post that some payload asks for.
  pub handlers-Served :
      (r : Request) (w : W) (log : List Entry)
      → Served log (handle_get net (logged_libs libs) (logged_signer signer) r (w, log))
        × Served log (handle_post net (logged_libs libs) (logged_signer signer) r (w, log))
  unfolding handle_get handle_post
  handlers-Served r w log =
      (first_query-Served r r.query_r w log, with_body-Served r (read_body r) w log)

  -- The server posts only when it is asked to sign: a request for another path, or by a method other
  -- than GET and POST, sends nothing and leaves the signer as it was.
  route_quiet :
      (r : Request) (w : W)
      → ((r.path === codes "/pjeOffice/requisicao/") ≡ false)
        ⊎ (((r.method === codes "GET") ≡ false) × ((r.method === codes "POST") ≡ false))
      → (route net libs signer r w).1 ≡ w
  unfolding route
  route_quiet r w h = ground arith

-- The value of a header.
unfoldable pub header : Text → Headers → Option Text
header key [] = none
header key ((k, v) ∷ hs) = let rest = header key hs in if equal_fold k key then some v else rest

abbrev pub allow_origin : Request → Option Text
allow_origin r =
    let origin = r.header (codes "Origin") in some (if is_empty origin then codes "*" else origin)

abbrev pub origin_key : Text
origin_key = codes "Access-Control-Allow-Origin"

options-Cors : (r : Request) → header origin_key (handle_options r).headers ≡ allow_origin r
unfolding handle_options apply_cors set header ◌===◌ to_lower lower
options-Cors r = elim (Bool-cases (is_empty (r.header (codes "Access-Control-Request-Headers")))) [
  | inl a ↦ rw a refl
  | inr a ↦ rw a refl
]

gif-Cors :
    (net : Replier) (r : Request) (blob : List ℕ)
    → header origin_key (write_gif net blob (apply_cors r [])).headers ≡ allow_origin r
unfolding write_gif apply_cors set header ◌===◌ to_lower lower
gif-Cors net r blob = refl

module _ {J W : Type 0} (net : Replier) (libs : Libraries J W) (signer : Signer W)
    (r : Request) where
  processed-Cors :
      (p : Result J) (w : W)
      → header origin_key (processed net libs signer r p w).0.headers ≡ allow_origin r
  processed-Cors (err e) w = gif-Cors net r gif_err
  processed-Cors (ok raw) w = go (process libs signer raw w).0 (process libs signer raw w).1
    where
      go :
          (o : Result (Unit {0})) (w : W)
          → header origin_key (acknowledge net libs signer r (o, w)).0.headers ≡ allow_origin r
      go (ok _) w = gif-Cors net r gif_ok
      go (err e) w = gif-Cors net r gif_err

  unescaped-Cors :
      (d : Result Text) (w : W)
      → header origin_key (unescaped net libs signer r d w).0.headers ≡ allow_origin r
  unescaped-Cors (err e) w = gif-Cors net r gif_err
  unescaped-Cors (ok decoded) w = processed-Cors (libs.unmarshal (utf8 decoded)) w

  first_query-Cors :
      (qs : List Text) (w : W)
      → header origin_key (first_query net libs signer r qs w).0.headers ≡ allow_origin r
  first_query-Cors [] w = gif-Cors net r gif_err
  first_query-Cors (q ∷ qs) w = unescaped-Cors (net.query_unescape q) w

  with_body-Cors :
      (b : Result (List ℕ)) (w : W)
      → header origin_key (with_body net libs signer r b w).0.headers ≡ allow_origin r
  with_body-Cors (err e) w = gif-Cors net r gif_err
  with_body-Cors (ok bytes) w = processed-Cors (libs.unmarshal bytes) w

  -- Every reply of the handlers, to a preflight, a GET or a POST, and of success or of failure, allows
  -- the origin that the request names, and `*` where it names none.
  pub replies-Cors :
      (w : W)
      → (header origin_key (handle_options r).headers ≡ allow_origin r)
        × (header origin_key (handle_get net libs signer r w).0.headers ≡ allow_origin r)
        × (header origin_key (handle_post net libs signer r w).0.headers ≡ allow_origin r)
  unfolding handle_get handle_post
  replies-Cors w = (options-Cors r, first_query-Cors r.query_r w, with_body-Cors (read_body r) w)
