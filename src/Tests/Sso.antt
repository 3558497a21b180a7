-- ===== src/Tests/Sso.antt =====
-- The login on the page of Page.
use pje_headless.Base.{◌≡◌, true, contains, has_prefix, ◌===◌, refl, [], ◌∷◌, codes, arith}
use pje_headless.Browser.Prompts.Bounds.{no_tally}
use pje_headless.Browser.Polling.Rules.{Ensures, Returns}
use pje_headless.Browser.Flow.Beside.{beside_cdp, logged_tab}
use pje_headless.Browser.Enroll.Once.{tab', cdp'}
use pje_headless.Browser.Await.{await_authenticated}
use pje_headless.Browser.Await.Tallying.{IsKept}
use pje_headless.Browser.Await.Bounds.{await_authenticated-IsKept}
use pje_headless.Browser.Url.{is_authenticated_url, sso_host}
use pje_headless.Browser.Await.Ends.{await_authenticated-Returns}
use pje_headless.Browser.Login.{login}
use pje_headless.Browser.Login.Beside.{beside_launch}
use pje_headless.Browser.Login.Origin.{Genuine, login-Genuine}
use pje_headless.Browser.Login.Resources.{listener, held_launch, held_cdp, held_tab, no_pages}
use pje_headless.Browser.Login.Released.{Holds, login-Holds}
use pje_headless.Browser.Login.Ends.{enough_fuel, login-Returns}
use pje_headless.Tests.Page.{page, browser, codec, launch, robot, begun, ticking}

await_authenticated-IsKept_example :
    Ensures
      (λ _. IsKept page browser codec (codes "NM======") 3)
      (await_authenticated
        (tab' page browser codec)
        (cdp' page browser codec)
        codec
        (codes "NM======")
        3
        200
        61
        (begun (0, no_tally)))
await_authenticated-IsKept_example =
    await_authenticated-IsKept page browser codec (codes "NM======") 3 200 61 (begun (0, no_tally))
      refl refl

-- A page of gov.br that has the address of the portal among its parameters passes for it.
mistaken_page :
    is_authenticated_url (codes "https://sso.acesso.gov.br/login?redirect_uri=https://www.jus.br")
    ≡ true
unfolding is_authenticated_url contains has_prefix ◌===◌ sso_host
mistaken_page = refl

await_authenticated-Returns_example :
    Returns
      (await_authenticated page browser codec (codes "NM======") 3 180_000_000_001 61 (begun 0))
await_authenticated-Returns_example =
    await_authenticated-Returns page browser codec (codes "NM======") 3 1 ticking 180_000_000_000
      (begun 0) (omega arith)

login-Genuine_example :
    Ensures
      (λ r w. Genuine r w.1)
      (login
        (beside_launch launch)
        (logged_tab page)
        (beside_cdp browser)
        codec
        (enough_fuel 200)
        robot
        0
        (0, []))
login-Genuine_example = login-Genuine page browser launch codec (enough_fuel 200) robot 0 0

login-Holds_example : Ensures (Holds (listener 9 ∷ [])) (
    login
      (held_launch launch)
      (held_tab page)
      (held_cdp browser)
      codec
      (enough_fuel 200)
      robot
      0
      ((0, listener 9 ∷ []), no_pages))
login-Holds_example =
    login-Holds page browser launch codec (enough_fuel 200) robot 0 0 (listener 9 ∷ [])

login-Returns_example :
    Returns (login launch page browser codec (enough_fuel 180_000_000_000) robot 0 0)
login-Returns_example =
    login-Returns launch page browser codec robot 1 ticking 180_000_000_000 (omega arith) 0 0
