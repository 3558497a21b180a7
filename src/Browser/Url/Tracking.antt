-- ===== src/Browser/Url/Tracking.antt =====
-- The tracked URL, and the URLs that count as the end of the login.
use pje_headless.Base.{
  ◌≡◌, refl, inl, inr, Option, none, some, true, false, ◌&&◌, if◌then◌else◌, arith, List, [], ◌∷◌,
  ◌++◌, map, Text, is_empty, contains, trim_space, has_prefix-append, Option-cases,
}
use pje_headless.Browser.Url.{
  Frame, sso_host, main_frame_url_from_event, is_real_url, is_authenticated_url, on_frame_navigated,
  track,
}

has_prefix_of_append : (p s : Text) → contains (p ++ s) p ≡ true
unfolding contains
has_prefix_of_append [] [] = refl
has_prefix_of_append [] (c ∷ s) = refl
has_prefix_of_append (c ∷ p) s = rw (has_prefix-append (c ∷ p) s) refl

pub contains-append : (before p after : Text) → contains (before ++ (p ++ after)) p ≡ true
unfolding contains
contains-append [] p after = has_prefix_of_append p after
contains-append (c ∷ before) p after = ground (arith, contains-append before p after)

-- A URL that holds the name of the SSO host anywhere is not authenticated, whatever else it holds.
sso-not-authenticated :
    (before after : Text) → is_authenticated_url (before ++ (sso_host ++ after)) ≡ false
unfolding is_authenticated_url
sso-not-authenticated before after = ground (arith, contains-append before sso_host after)

-- The URL of the last event that has one, or `last_url`.
unfoldable pub last_or : Text → List (Option Text) → Text
last_or last_url [] = last_url
last_or last_url (none ∷ us) = last_or last_url us
last_or last_url (some u ∷ us) = last_or u us

-- The tracker holds the trimmed URL of the last main-frame event with a real URL.
track_lem :
    (last_url : Text) (evs : List (Option (Option Frame)))
    → track last_url evs ≡ last_or last_url (map main_frame_url_from_event evs)
unfolding track last_or on_frame_navigated
track_lem last_url [] = refl
track_lem last_url (ev ∷ evs) = elim (Option-cases (main_frame_url_from_event ev)) [
  | inl e ↦ rw (e, on_frame_navigated) (track_lem last_url evs)
  | inr (u, e) ↦ rw (e, on_frame_navigated) (track_lem u evs)
]

-- An event of a sub-frame, a nil event or frame, and a URL that is blank or internal to the browser
-- leave the tracked URL as it was; any other event stores its URL without the white space.
on_frame_navigated_lem :
    (last_url : Text) (frame : Frame)
    → (on_frame_navigated last_url none ≡ last_url)
      × (on_frame_navigated last_url (some none) ≡ last_url)
      × (on_frame_navigated last_url (some (some frame)) ≡ (
          if is_empty frame.parent_id && is_real_url (trim_space frame.url)
          then trim_space frame.url
          else last_url))
unfolding on_frame_navigated main_frame_url_from_event
on_frame_navigated_lem last_url frame = (refl, refl, ground arith)
