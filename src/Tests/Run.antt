-- ===== src/Tests/Run.antt =====
-- A login from its start to the bearer, with three rounds of fuel for the loop that awaits the SSO.
use pje_headless.Base.{ℕ, refl, some, codes, ok}
use pje_headless.Browser.Login.{login}
use pje_headless.Browser.Login.Ends.{enough_fuel}
use pje_headless.Base.{
  Option, Text, Result, ◌≡◌, refl, contains, has_prefix, trim_space, trim_left, trim_right,
  is_space, to_lower, lower, ◌===◌,
}
use pje_headless.Base.Int.{◌+ℤ◌}
use pje_headless.Clock.{before}
use pje_headless.Browser.Url.{
  is_authenticated_url, is_gov_br_url, sso_host, is_real_url, is_real_trimmed, on_frame_navigated,
  main_frame_url_from_event,
}
use pje_headless.Browser.Capture.{
  api_url_substring, auth_header_value, listen, on_request, on_extra_info, try_match, match_pair,
  bearer,
}
use pje_headless.Browser.Polling.{until}
use pje_headless.Browser.Flow.{take_all}
use pje_headless.Tests.Page.{page, browser, codec, launch, robot}

-- The pause of 3 s after the script is ready, and a nanosecond for each navigation.
abbrev outcome : Option (Result Text × ℕ)
outcome = login launch page browser codec (enough_fuel 3) robot 0 0

outcome_now : outcome ≡ some (ok (codes "Bearer t"), 3_000_000_002)
unfolding login is_authenticated_url contains has_prefix api_url_substring auth_header_value
    trim_space trim_left trim_right is_space to_lower lower ◌===◌ is_gov_br_url sso_host listen
    until take_all before is_real_url is_real_trimmed on_frame_navigated main_frame_url_from_event
    on_request on_extra_info try_match match_pair bearer ◌+ℤ◌
outcome_now = refl
