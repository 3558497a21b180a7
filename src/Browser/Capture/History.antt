-- ===== src/Browser/Capture/History.antt =====
-- The captured token against the history of network events.
use pje_headless.Base.{
  ◌≡◌, refl, ap, ◌∙◌, ◌⊎◌, inl, inr, Option, none, some, true, false, arith, List, [], ◌∷◌, Text,
  ===_iff, ===_refl, is_empty, contains, trim_space, trim_left, trim_right, All, All-self, Any,
  Bool-cases,
}
use pje_headless.Browser.Capture.{
  BearerCapture, new_bearer_capture, put, Headers, auth_header_value, match_pair, try_match,
  on_request, on_extra_info, bearer, Event, request_will_be_sent, extra_info, listen, listen_all,
  api_url_substring,
}

trim_space-not_empty : (s : Text) → is_empty (trim_space s) ≡ false → is_empty s ≡ false
unfolding trim_space trim_left trim_right
trim_space-not_empty [] h = h
trim_space-not_empty (c ∷ s) h = refl

-- The two events of a request that has shown neither its URL nor its headers yet give the same token in
-- either order, its trimmed Authorization value, if the URL is one of the API, that value is not blank,
-- and no token was captured before.
pub capture_either_order :
    (id url : Text) (hs : Headers) (c : BearerCapture)
    → is_empty c.token ≡ true
    → c.urls id ≡ none
    → c.headers id ≡ none
    → contains url api_url_substring ≡ true
    → is_empty (trim_space (auth_header_value hs)) ≡ false
    → ((on_extra_info id hs (on_request id url c)).token ≡ trim_space (auth_header_value hs))
      × ((on_request id url (on_extra_info id hs c)).token ≡ trim_space (auth_header_value hs))
unfolding on_extra_info on_request match_pair
capture_either_order id url hs c fresh no_url no_auth api solid = (
  ground (arith, ===_refl id, trim_space-not_empty (auth_header_value hs)),
  ground (arith, ===_refl id, trim_space-not_empty (auth_header_value hs)),
)

token-listen :
    (c : BearerCapture) (e : Event) → is_empty c.token ≡ false → (listen c e).token ≡ c.token
unfolding listen
token-listen c (request_will_be_sent id none) h = refl
token-listen c (request_will_be_sent id (some url)) h = ground arith
token-listen c (extra_info id hs) h = ground arith

-- The first token stays, whatever events follow.
token-listen_all :
    (c : BearerCapture) (es : List Event)
    → is_empty c.token ≡ false
    → (listen_all c es).token ≡ c.token
unfolding listen_all
token-listen_all c [] h = refl
token-listen_all c (e ∷ es) h =
    token-listen_all (listen c e) es (ap is_empty (token-listen c e h) ∙ h) ∙ token-listen c e h

put_cases :
    (k v : Text) (m : Text → Option Text) (j w : Text)
    → put k v m j ≡ some w
    → ((k ≡ j) × (v ≡ w)) ⊎ (m j ≡ some w)
put_cases k v m j w h = ground (arith, ===_iff k j)

-- Where a token can come from, among the events that satisfy `P`.
abbrev pub Origin : (Event → Type 0) → Text → Type 0
Origin P token =
    (id : Text) × (url : Text) × (hs : Headers) × P (request_will_be_sent id (some url))
    × P (extra_info id hs)
    × (contains url api_url_substring ≡ true)
    × (trim_space (auth_header_value hs) ≡ token)

module _ (P : Event → Type 0) where
  record Known (c : BearerCapture) : Type 0 where
    urls : (id url : Text) → c.urls id ≡ some url → P (request_will_be_sent id (some url))
    headers :
        (id auth : Text)
        → c.headers id ≡ some auth
        → (hs : Headers) × P (extra_info id hs) × (auth_header_value hs ≡ auth)
    token : is_empty c.token ≡ false → Origin P c.token

  match_pair-Origin :
      (id : Text) (c : BearerCapture) (u a : Option Text)
      → Known c
      → c.urls id ≡ u
      → c.headers id ≡ a
      → is_empty (match_pair u a) ≡ false
      → Origin P (match_pair u a)
  unfolding match_pair
  match_pair-Origin id c none a k eu ea h = cc
  match_pair-Origin id c (some url) none k eu ea h = cc
  match_pair-Origin id c (some url) (some auth) k eu ea h =
      let (hs, sent, e) = k.headers id auth ea in
      (id, url, hs, k.urls id url eu, sent, ground arith, ground arith)

  try_match-Known : (id : Text) (c : BearerCapture) → Known c → Known (try_match id c)
  unfolding try_match
  try_match-Known id c k = elim (Bool-cases (is_empty c.token)) [
    | inr old ↦ rw old k
    | inl new ↦ rw new (record {
      urls = k.urls;
      headers = k.headers;
      token = match_pair-Origin id c (c.urls id) (c.headers id) k refl refl;
    })
  ]

  listen-Known : (c : BearerCapture) (e : Event) → P e → Known c → Known (listen c e)
  unfolding listen
  listen-Known c (request_will_be_sent id none) p k = k
  listen-Known c (request_will_be_sent id (some url)) p k = try_match-Known id _ (record {
    urls = λ j u h. elim (put_cases id url c.urls j u h) [
      | inl (e, f) ↦ rw (← e, ← f) p
      | inr old ↦ k.urls j u old
    ];
    headers = k.headers;
    token = k.token;
  })
  listen-Known c (extra_info id hs) p k = elim (Bool-cases (is_empty (auth_header_value hs))) [
    | inl blank ↦ rw blank (try_match-Known id c k)
    | inr full ↦ rw full (
        try_match-Known id _ (record {
          urls = k.urls;
          headers = λ j a h. elim (put_cases id (auth_header_value hs) c.headers j a h) [
            | inl (e, f) ↦ (hs, rw (← e) p, f)
            | inr old ↦ k.headers j a old
          ];
          token = k.token;
        }))
  ]

  listen_all-Known :
      (c : BearerCapture) (es : List Event) → All P es → Known c → Known (listen_all c es)
  unfolding listen_all
  listen_all-Known c [] ps k = k
  listen_all-Known c (e ∷ es) ps k = listen_all-Known (listen c e) es ps.1 (listen-Known c e ps.0 k)

-- A captured token is the trimmed Authorization value of an extra-info event of the history whose
-- request ID some event of the history gave a URL of the API.
pub bearer-Origin :
    (es : List Event) (token : Text)
    → bearer (listen_all new_bearer_capture es) ≡ some token
    → Origin (λ e. Any (λ d. d ≡ e) es) token
unfolding bearer
bearer-Origin es token h = ground (arith, known.token)
  where
    start : Known (λ e. Any (λ d. d ≡ e) es) new_bearer_capture
    start = record { urls = λ id url e. cc; headers = λ id auth e. cc; token = λ e. cc }

    known : Known (λ e. Any (λ d. d ≡ e) es) (listen_all new_bearer_capture es)
    known = listen_all-Known _ new_bearer_capture es (All-self es) start
