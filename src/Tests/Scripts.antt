-- ===== src/Tests/Scripts.antt =====
-- The scripts of the login.
use pje_headless.Base.{ℕ, ◌≡◌, true, some, [], ◌++◌, All, codes, ok}
use pje_headless.Browser.Polling.Rules.{Ensures}
use pje_headless.Browser.Flow.Beside.{beside_cdp}
use pje_headless.Browser.Js.Literal.{js_string, read_literal}
use pje_headless.Browser.Js.Literal.Reading.{read_literal-js_string}
use pje_headless.Browser.Js.Calls.{IsOurs}
use pje_headless.Browser.Js.Devtools.{Devtools}
use pje_headless.Browser.Login.{login}
use pje_headless.Browser.Login.Beside.{beside_launch}
use pje_headless.Browser.Login.Ends.{enough_fuel}
use pje_headless.Browser.Login.Scripted.{logged_page, login-IsOurs}
use pje_headless.Tests.Page.{page, browser, codec, launch, robot}

abbrev devtools : Devtools ℕ
devtools = record {
  evaluate = λ c js v. (ok true, v);
  run_evaluate = λ c js v. (ok true, v);
  run_evaluate_pair = λ c js v. (ok (codes "ORSXG5A=", []), v);
  with_timeout = λ c d v. (c, v);
  cancel = λ c v. v;
  run_wait_ready = λ c sel v. (ok tt, v);
}

read_literal-js_string_example :
    read_literal (js_string (codes "\"); x(\"\\ \n</script>") ++ codes ")")
    ≡ some (codes "\"); x(\"\\ \n</script>", codes ")")
read_literal-js_string_example =
    read_literal-js_string (codes "\"); x(\"\\ \n</script>") (codes ")")

login-IsOurs_example :
    Ensures
      (λ r w. All IsOurs w.1)
      (login
        (beside_launch launch)
        (logged_page devtools page)
        (beside_cdp browser)
        codec
        (enough_fuel 200)
        robot
        0
        (0, []))
login-IsOurs_example = login-IsOurs devtools page browser launch codec (enough_fuel 200) robot 0 0
