-- ===== src/Browser/Capture.antt =====
-- capture.go. The two maps are functions of the request ID. The headers of an event are a list of
-- keys and values in the order in which Go's range yields them, `none` for a value that is no string.
pub mod History
use pje_headless.Base.{
  ◌≡◌, Option, none, some, Bool, true, false, not, ◌&&◌, if◌then◌else◌, List, [], ◌∷◌, Text, codes,
  ◌===◌, is_empty, contains, trim_space, equal_fold,
}

unfoldable pub api_url_substring : Text
api_url_substring = codes "/api/v2/processos"

pub record BearerCapture : Type 0 where
  pub urls : Text → Option Text
  pub headers : Text → Option Text
  pub token : Text

abbrev pub new_bearer_capture : BearerCapture
new_bearer_capture = record { urls = λ _. none; headers = λ _. none; token = [] }

-- m[k] = v
abbrev pub put : Text → Text → (Text → Option Text) → Text → Option Text
put k v m j = if k === j then some v else m j

abbrev pub Headers : Type 0
Headers = List (Text × Option Text)

unfoldable pub auth_header_value : Headers → Text
auth_header_value [] = []
auth_header_value ((k, none) ∷ hs) = auth_header_value hs
auth_header_value ((k, some s) ∷ hs) =
    let rest = auth_header_value hs in
    if not (equal_fold k (codes "Authorization"))
    then rest
    else if is_empty (trim_space s)
    then rest
    else s

-- The rest of tryMatchLocked, after both lookups.
unfoldable pub match_pair : Option Text → Option Text → Text
match_pair none auth = []
match_pair (some url) none = []
match_pair (some url) (some auth) =
    if not (contains url api_url_substring)
    then []
    else if is_empty (trim_space auth)
    then []
    else trim_space auth

unfoldable pub try_match : Text → BearerCapture → BearerCapture
try_match id c =
    if not (is_empty c.token) then c else record c { token = match_pair (c.urls id) (c.headers id) }

unfoldable pub on_request : Text → Text → BearerCapture → BearerCapture
unfolding try_match
on_request id url c = try_match id (record c { urls = put id url c.urls })

unfoldable pub on_extra_info : Text → Headers → BearerCapture → BearerCapture
unfolding try_match
on_extra_info id hs c =
    let auth = auth_header_value hs in
    try_match id (if is_empty auth then c else record c { headers = put id auth c.headers })

unfoldable pub bearer : BearerCapture → Option Text
bearer c = if is_empty c.token then none else some c.token

-- The network events that attachBearerListener of session.go passes on. A requestWillBeSent with a
-- nil request is dropped there.
pub data Event : Type 0 where
  request_will_be_sent : Text → Option Text → Event
  extra_info : Text → Headers → Event

unfoldable pub listen : BearerCapture → Event → BearerCapture
unfolding on_request on_extra_info
listen c (request_will_be_sent id none) = c
listen c (request_will_be_sent id (some url)) = on_request id url c
listen c (extra_info id hs) = on_extra_info id hs c

unfoldable pub listen_all : BearerCapture → List Event → BearerCapture
listen_all c [] = c
listen_all c (e ∷ es) = listen_all (listen c e) es
