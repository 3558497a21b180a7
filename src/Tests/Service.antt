-- ===== src/Tests/Service.antt =====
-- The login service with the page of Page behind it: call 0 runs a login, call 1 waits for it.
use pje_headless.Base.{
  ℕ, refl, ◌≡◌, Option, none, some, true, false, List, [], Text, codes, Result, ok, err, Error,
  contains, has_prefix, trim_space, trim_left, trim_right, is_space, to_lower, lower, ◌===◌,
}
use pje_headless.Base.Int.{pos, ◌+ℤ◌}
use pje_headless.Clock.{Time, Duration, before, is_zero}
use pje_headless.Config.{Env, Built, from_env}
use pje_headless.Signer.Defs.{Signer}
use pje_headless.Browser.Url.{
  is_authenticated_url, is_gov_br_url, sso_host, is_real_url, is_real_trimmed, on_frame_navigated,
  main_frame_url_from_event,
}
use pje_headless.Browser.Capture.{
  Event, api_url_substring, auth_header_value, listen, on_request, on_extra_info, try_match,
  match_pair, bearer,
}
use pje_headless.Browser.Polling.{until}
use pje_headless.Browser.Flow.{take_all}
use pje_headless.Browser.Login.{login}
use pje_headless.Browser.Login.Ends.{enough_fuel}
use pje_headless.LoginSvc.Manager.{Reply, new_manager, enter, slow_path, usable, publish, reply_of}
use pje_headless.LoginSvc.System.{System, init, entered, published, woken}
use pje_headless.LoginSvc.Service.{Service, Runs, Step}
use pje_headless.LoginSvc.Service.Provenance.{Answered}
use pje_headless.GrpcLogin.{BearerReply, bearer_reply, exp_unix}
use pje_headless.Program.{login_fn}
use pje_headless.Program.Sessions.{run, FromLogin, service-Genuine}
use pje_headless.Browser.Login.{Run}
use pje_headless.Program.Answers.{fueled_login}
use pje_headless.Tests.Page.{page, browser, codec, launch_any}

abbrev blank : Env
blank name = []

abbrev backend : Built → Signer (ℕ × List Event)
backend b = record {
  login = λ w. (ok tt, w);
  sign = λ phrase algorithm w. (ok phrase, w);
  cert_chain_pki_path = λ w. (ok [], w);
  identity = λ w. (err (Error.foreign 0), w);
  available = λ w. (true, w);
}

abbrev timeout : Duration → ℕ → ℕ × ℕ
timeout d t = (9, t)

abbrev cancel : ℕ → ℕ → ℕ
cancel c t = t

abbrev login_run : ℕ → Option (Result Text × ℕ)
login_run =
    run backend timeout cancel launch_any page browser codec (enough_fuel 3) (from_env blank) blank

login_now : login_run 0 ≡ some (ok (codes "Bearer t"), 3_000_000_002)
unfolding login is_authenticated_url contains has_prefix api_url_substring auth_header_value
    trim_space trim_left trim_right is_space to_lower lower ◌===◌ is_gov_br_url sso_host listen
    until take_all before is_real_url is_real_trimmed on_frame_navigated main_frame_url_from_event
    on_request on_extra_info try_match match_pair bearer ◌+ℤ◌ login_fn is_zero
login_now = refl

abbrev undated : Text → Option Time
undated bearer = none

abbrev one_call : System
one_call = entered 0 (enter (pos 1) false 0 (init (pos 0)).mgr) (init (pos 0))

abbrev two_calls : System
two_calls = entered 1 (enter (pos 2) false one_call.next one_call.mgr) one_call

abbrev finished : System
finished =
    published 0 0 (publish undated (pos 5) (ok (codes "Bearer t")) two_calls.mgr (two_calls.heap 0))
      two_calls

abbrev served : Service ℕ
served = record { system = woken 1 0 finished; world = 3_000_000_002 }

served_runs : Runs undated login_run (pos 0) served
unfolding entered enter slow_path usable new_manager published publish
served_runs =
    Runs.later
      (Runs.later
        (Runs.later (Runs.later (Runs.start 0) (Step.call 0 (pos 1) false refl))
          (Step.call 1 (pos 2) false refl))
        (Step.finish 0 0 (pos 5) (ok (codes "Bearer t")) 3_000_000_002 refl login_now))
      (Step.wake 1 0 refl refl)

abbrev shared : Reply
shared = reply_of (finished.heap 0)

abbrev answer : BearerReply
answer = record {
  bearer = codes "Bearer t";
  expires_at_unix = exp_unix shared.expires_at;
  from_cache = false;
}

service-Genuine_example :
    Answered
      (FromLogin backend timeout cancel launch_any page browser codec
        (enough_fuel 3)
        (from_env blank)
        blank
        undated
        served_runs)
      undated
      answer
unfolding entered enter slow_path usable new_manager published publish woken bearer_reply
service-Genuine_example =
    service-Genuine backend timeout cancel launch_any page browser codec (enough_fuel 3)
      (from_env blank) blank undated served_runs 1 (some 0) shared answer refl refl

-- The same service over the plain libraries, where call 1 still waits.
abbrev plain_backend : Built → Signer ℕ
plain_backend b = record {
  login = λ w. (ok tt, w);
  sign = λ phrase algorithm w. (ok phrase, w);
  cert_chain_pki_path = λ w. (ok [], w);
  identity = λ w. (err (Error.foreign 0), w);
  available = λ w. (true, w);
}

abbrev fueled : Run ℕ Text
fueled =
    fueled_login plain_backend timeout cancel launch_any page browser codec 180_000_000_000
      (from_env blank) blank

abbrev waits : Service ℕ
waits = record { system = two_calls; world = 0 }
