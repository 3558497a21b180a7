-- ===== src/Browser/Scripts.antt =====
-- waitAutenticarReady, clickCertLink, waitConsultaForm and fireSearch of browser.go: actions of a
-- chromedp.Run, over the world. A loop gives nothing where its fuel runs out.
pub mod Ends
pub mod Keeping
use pje_headless.Base.{
  ℕ, Bool, true, false, Option, none, some, Text, codes, Result, ok, err, Error, Act,
}
use pje_headless.Clock.{Time}
use pje_headless.Base.Int.{◌+ℤ◌}
use pje_headless.Browser.Polling.{Round, done, resume, until}
use pje_headless.Browser.Flow.{Tab, seconds, milliseconds, sleep_ctx}

abbrev pub login_url : Text
login_url =
    codes
      "https://sso.cloud.pje.jus.br/auth/realms/pje/protocol/openid-connect/auth?client_id=jusbr&scope=openid&redirect_uri=https://www.jus.br&response_type=code"

abbrev pub consulta_url : Text
consulta_url = codes "https://portaldeservicos.pdpj.jus.br/consulta-processual"

abbrev pub sample_processo : Text
sample_processo = codes "07108025520188020001"

abbrev pub autenticar_late : Error
autenticar_late = Error.msg "browser: window.autenticar did not become available within 60s"

abbrev pub consulta_late : Error
consulta_late = Error.msg "browser: consulta form (numeroProcesso) did not load"

module _ {V : Type 0} (tab : Tab V) (ctx : ℕ) where
  -- A round that ends with a pause of 500 ms.
  abbrev pub paused : V → Round (Unit {0}) × V
  paused v = resume (sleep_ctx tab ctx (milliseconds 500) v)

  abbrev pub autenticar_round : Result Bool × V → Round (Unit {0}) × V
  autenticar_round (ok true, v) = let (r, v') = sleep_ctx tab ctx (seconds 3) v in (done r, v')
  autenticar_round (ok false, v) = paused v
  autenticar_round (err e, v) = paused v

  unfoldable pub wait_autenticar_ready : ℕ → V → Option (Result (Unit {0}) × V)
  unfolding sleep_ctx until
  wait_autenticar_ready fuel v =
      until fuel tab.now (tab.now v +ℤ seconds 60)
        (λ u. some (autenticar_round (tab.autenticar_ready ctx u))) autenticar_late v

  abbrev pub clicked : Result Bool × V → Result (Unit {0}) × V
  clicked (err e, v) = (err (Error.wrap "browser: click cert link" e), v)
  clicked (ok false, v) =
      (err (Error.msg "browser: certificate link (autenticar) not found on login page"), v)
  clicked (ok true, v) = (ok tt, v)

  unfoldable pub click_cert_link : Act V (Unit {0})
  click_cert_link v = clicked (tab.click_link ctx v)

  abbrev pub consulta_round : Result Bool × V → Round (Unit {0}) × V
  consulta_round (ok true, v) = (done (ok tt), v)
  consulta_round (ok false, v) = paused v
  consulta_round (err e, v) = paused v

  unfoldable pub wait_consulta_form : ℕ → V → Option (Result (Unit {0}) × V)
  unfolding sleep_ctx until
  wait_consulta_form fuel v =
      until fuel tab.now (tab.now v +ℤ seconds 30)
        (λ u. some (consulta_round (tab.consulta_ready ctx u))) consulta_late v

  abbrev pub searched : Result Bool × V → Result (Unit {0}) × V
  searched (err e, v) = (err (Error.wrap "browser: fire search" e), v)
  searched (ok false, v) =
      (err (Error.msg "browser: could not type process number or click Buscar"), v)
  searched (ok true, v) = (ok tt, v)

  unfoldable pub fire_search : Act V (Unit {0})
  fire_search v = searched (tab.search ctx sample_processo v)

-- What follows an action of a Run that may run out of fuel: the next action, where it succeeds.
abbrev pub and_then :
    {V : Type 0}
    → Option (Result (Unit {0}) × V)
    → (V → Option (Result (Unit {0}) × V))
    → Option (Result (Unit {0}) × V)
and_then none next = none
and_then (some (ok _, v)) next = next v
and_then (some (err e, v)) next = some (err e, v)
