-- ===== src/Tests/Browsing.antt =====
-- The browser's parts on concrete inputs.
use pje_headless.Base.{
  ℕ, ◌<◌, ◌≤◌, ◌≡◌, ◌⊎◌, refl, Option, none, some, List, [], ◌∷◌, Text, codes, All, Any, replicate,
  length, true, false, trim_space, trim_left, trim_right, is_space, is_empty, contains, has_prefix,
  ◌===◌, to_lower, lower,
}
use pje_headless.Base.Int.{pos}
use pje_headless.Browser.Target.{Info, pick_active_target}
use pje_headless.Browser.Target.Ranking.{rank, id_of, pick_active_target-rank}
use pje_headless.Browser.Totp.{totp_at}
use pje_headless.Browser.Totp.Codes.{CodeOrError, totp_at-CodeOrError}
use pje_headless.Browser.Capture.{
  Headers, new_bearer_capture, on_request, on_extra_info, auth_header_value, api_url_substring,
}
use pje_headless.Browser.Capture.History.{capture_either_order}

abbrev targets : List (Option Info)
targets =
    some (record { target_id = codes "1"; kind = codes "page"; url = codes "about:blank" })
    ∷ none
    ∷ some
        (record { target_id = codes "2"; kind = codes "page"; url = codes "https://www.jus.br/" })
    ∷ []

pick_active_target-rank_example :
    ((pick_active_target targets ≡ none) × All (λ i. rank i ≤ 0) targets)
    ⊎ ((i : Option Info) × (id : Text) × (pick_active_target targets ≡ some id)
        × (id_of i ≡ some id)
        × Any (λ j. j ≡ i) targets
        × (0 < rank i)
        × All (λ j. rank j ≤ rank i) targets)
pick_active_target-rank_example = pick_active_target-rank targets

abbrev decode : Text → Option (List ℕ)
decode s = some s

abbrev digest : List ℕ → List ℕ → List ℕ
digest key message = replicate 20 1

length-digest : (key message : List ℕ) → length (digest key message) ≡ 20
length-digest key message = refl

totp_at-CodeOrError_example : CodeOrError (totp_at decode digest (codes "ABCDEFGH") (pos 59))
totp_at-CodeOrError_example =
    totp_at-CodeOrError decode digest length-digest (codes "ABCDEFGH") (pos 59)

abbrev authorization : Headers
authorization = (codes "Authorization", some (codes " Bearer t ")) ∷ []

api_url :
    contains (codes "https://portaldeservicos.pdpj.jus.br/api/v2/processos") api_url_substring
    ≡ true
unfolding contains has_prefix ◌===◌ api_url_substring
api_url = refl

not_blank : is_empty (trim_space (auth_header_value authorization)) ≡ false
unfolding trim_space trim_left trim_right is_space auth_header_value ◌===◌ to_lower lower
not_blank = refl

capture_either_order_example :
    let url = codes "https://portaldeservicos.pdpj.jus.br/api/v2/processos" in
    ((on_extra_info (codes "7") authorization (on_request (codes "7") url new_bearer_capture)).token
      ≡ trim_space (auth_header_value authorization))
    × ((on_request
          (codes "7")
          url
          (on_extra_info (codes "7") authorization new_bearer_capture)).token
        ≡ trim_space (auth_header_value authorization))
capture_either_order_example =
    capture_either_order (codes "7") (codes "https://portaldeservicos.pdpj.jus.br/api/v2/processos")
      authorization new_bearer_capture refl refl refl api_url not_blank
