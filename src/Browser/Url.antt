-- ===== src/Browser/Url.antt =====
-- url.go, with ssoHost, isRealURL and onFrameNavigated of session.go and configureTOTPMarker of
-- totp_enroll.go.
pub mod Tracking
use pje_headless.Base.{
  Option, none, some, Bool, false, true, not, ◌&&◌, ◌||◌, if◌then◌else◌, List, [], ◌∷◌, Text, codes,
  ◌===◌, is_empty, has_prefix, contains, trim_space,
}

unfoldable pub sso_host : Text
sso_host = codes "sso.cloud.pje.jus.br"

unfoldable pub configure_totp_marker : Text
configure_totp_marker = codes "CONFIGURE_TOTP"

-- What isRealURL asks of the URL without its white space.
unfoldable pub is_real_trimmed : Text → Bool
is_real_trimmed u =
    if is_empty u
    then false
    else not (
        u === codes "about:blank"
        || has_prefix u (codes "chrome://")
        || has_prefix u (codes "devtools://"))

unfoldable pub is_real_url : Text → Bool
unfolding is_real_trimmed
is_real_url u = is_real_trimmed (trim_space u)

-- The fields of cdp.Frame that the code reads.
pub record Frame : Type 0 where
  pub parent_id : Text
  pub url : Text

-- The outer `none` is a nil event, the inner one an event with a nil frame.
unfoldable pub main_frame_url_from_event : Option (Option Frame) → Option Text
main_frame_url_from_event none = none
main_frame_url_from_event (some none) = none
main_frame_url_from_event (some (some frame)) =
    if not (is_empty frame.parent_id)
    then none
    else if not (is_real_url (trim_space frame.url))
    then none
    else some (trim_space frame.url)

unfoldable pub is_authenticated_url : Text → Bool
is_authenticated_url cur =
    if is_empty cur
    then false
    else if contains cur sso_host
    then false
    else contains cur (codes "www.jus.br") || contains cur (codes "portaldeservicos.pdpj.jus.br")

unfoldable pub is_configure_totp_url : Text → Bool
is_configure_totp_url cur = contains cur configure_totp_marker

unfoldable pub is_gov_br_url : Text → Bool
is_gov_br_url cur = contains cur (codes "sso.acesso.gov.br")

unfoldable pub should_attempt_totp_enroll : Text → Bool → Bool
unfolding is_configure_totp_url
should_attempt_totp_enroll cur already_enrolled = is_configure_totp_url cur && not already_enrolled

-- session.onFrameNavigated: the new lastURL.
unfoldable pub on_frame_navigated : Text → Option (Option Frame) → Text
on_frame_navigated last_url ev = elim (main_frame_url_from_event ev) [
  | none ↦ last_url
  | some u ↦ u
]

-- lastURL after a stream of events.
unfoldable pub track : Text → List (Option (Option Frame)) → Text
track last_url [] = last_url
track last_url (ev ∷ evs) = track (on_frame_navigated last_url ev) evs
