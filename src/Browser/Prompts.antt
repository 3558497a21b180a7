-- ===== src/Browser/Prompts.antt =====
-- maybeHandle2FA and maybeRetryCert of internal/browser/browser.go: what the polling loop does where
-- the page asks for a second factor, or shows the certificate link again. The scripts that run in the
-- page are the parameter `Page` over the world `W`.
pub mod Bounds
pub mod Keeping
use pje_headless.Base.{
  ℕ, ◌+◌, ◌*◌, ◌&&◌, ◌||◌, leb, not, Bool, true, false, if◌then◌else◌, Option, none, some, List,
  Text, contains, is_empty, Result, ok, err, Error, Act,
}
use pje_headless.Base.Int.{ℤ, pos, ◌-ℤ◌, ltb_ℤ}
use pje_headless.Clock.{Time, unix}
use pje_headless.Browser.Url.{sso_host}
use pje_headless.Browser.Totp.{totp_at}

-- `two_fa_present`, `two_fa_visible` and `click_cert` run detectJS, visibleJS and the click script;
-- `submit_two_fa` fills a code in and submits it.
pub record Page (W : Type 0) : Type 0 where
  pub two_fa_present : Act W Bool
  pub two_fa_visible : Act W Bool
  pub submit_two_fa : Text → Act W Bool
  pub click_cert : Act W Bool
  pub is_invalid_context : Error → Bool
  pub now : W → Time

-- The variables of the loop that the two functions share, around the world.
pub record Loop (W : Type 0) : Type 0 where
  pub two_fa_submitted : Bool
  pub cert_retries : ℕ
  pub cert_clicked_at : Time
  pub world : W

-- The value of a script's result, false where it failed.
abbrev pub said : Result Bool → Bool
said (ok b) = b
said (err e) = false

module _ {W : Type 0} (page : Page W) (decode : Text → Option (List ℕ))
    (hmac : List ℕ → List ℕ → List ℕ) (secret : Text) where
  abbrev pub after_submit : Result Bool × W → Loop W → Result Bool × Loop W
  after_submit (err e, w) s = (
    if page.is_invalid_context e then ok false else err (Error.wrap "browser: submit 2FA" e),
    record s { world = w },
  )
  after_submit (ok false, w) s = (
    err (Error.msg "browser: 2FA field present but could not submit the code"),
    record s { world = w },
  )
  after_submit (ok true, w) s = (ok true, record s { two_fa_submitted = true; world = w })

  -- A panic of totpAt, which is `none`, ends the program; it stands here as an error of its own.
  abbrev pub with_code : Option (Result Text) → Loop W → Result Bool × Loop W
  with_code none s = (err (Error.foreign 1), s)
  with_code (some (err e)) s = (err (Error.wrap "browser: generate TOTP" e), s)
  with_code (some (ok code)) s = after_submit (page.submit_two_fa code s.world) s

  -- time.Since(certClickedAt) > 60*time.Second on a page of the SSO host.
  abbrev pub idle_on_sso : Text → Loop W → Bool
  idle_on_sso cur s =
      contains cur sso_host
      && ltb_ℤ (pos (60 * 1_000_000_000)) (page.now s.world -ℤ s.cert_clicked_at)

  abbrev pub after_visible : Text → Result Bool × W → Loop W → Result Bool × Loop W
  after_visible cur (r, w) s =
      let seen : Loop W = record s { world = w } in
      let filled = with_code (totp_at decode hmac secret (unix (page.now w))) seen in
      let waiting : Result Bool × Loop W = (ok false, seen) in
      if said r || idle_on_sso cur seen then filled else waiting

  abbrev pub after_present : Text → Result Bool × W → Loop W → Result Bool × Loop W
  after_present cur (err e, w) s = (ok false, record s { world = w })
  after_present cur (ok false, w) s = (ok false, record s { world = w })
  after_present cur (ok true, w) s =
      let missing : Result Bool × Loop W = (
        err (Error.msg "browser: 2FA exigido mas PJE_2FA_TOTP_SECRET ausente"),
        record s { world = w },
      ) in
      let looked = after_visible cur (page.two_fa_visible w) (record s { world = w }) in
      if is_empty secret then missing else looked

  unfoldable pub maybe_handle_two_fa : Text → Act (Loop W) Bool
  maybe_handle_two_fa cur s =
      let idle : Result Bool × Loop W = (ok false, s) in
      let tried = after_present cur (page.two_fa_present s.world) s in
      if s.two_fa_submitted then idle else tried

  abbrev pub after_click : Result Bool × W → Loop W → Result Bool × Loop W
  after_click (err e, w) s = (ok false, record s { world = w })
  after_click (ok false, w) s = (ok false, record s { world = w })
  after_click (ok true, w) s = (
    ok true,
    record s { cert_retries = s.cert_retries + 1; cert_clicked_at = page.now w; world = w },
  )

  unfoldable pub maybe_retry_cert : Act (Loop W) Bool
  maybe_retry_cert s =
      let idle : Result Bool × Loop W = (ok false, s) in
      let tried = after_click (page.click_cert s.world) s in
      if leb 5 s.cert_retries then idle else tried
