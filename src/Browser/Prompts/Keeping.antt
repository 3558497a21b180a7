-- ===== src/Browser/Prompts/Keeping.antt =====
-- What the steps of the page keep, maybeHandle2FA and maybeRetryCert keep.
use pje_headless.Base.{
  ℕ, ◌||◌, leb, Bool, true, false, if_cases, Option, none, some, List, Text, is_empty, Result, ok,
  err,
}
use pje_headless.Clock.{unix}
use pje_headless.Browser.Totp.{totp_at}
use pje_headless.Browser.Prompts.{
  Page, Loop, said, after_submit, with_code, idle_on_sso, after_visible, after_present,
  maybe_handle_two_fa, after_click, maybe_retry_cert,
}

pub record PageKeeps {W : Type 0} (K : W → Type 0) (page : Page W) : Type 0 where
  pub present : (w : W) → K w → K (page.two_fa_present w).1
  pub visible : (w : W) → K w → K (page.two_fa_visible w).1
  pub submit : (code : Text) (w : W) → K w → K (page.submit_two_fa code w).1
  pub click : (w : W) → K w → K (page.click_cert w).1

module _ {W : Type 0} (K : W → Type 0) (page : Page W) (keeps : PageKeeps K page)
    (decode : Text → Option (List ℕ)) (hmac : List ℕ → List ℕ → List ℕ) (secret : Text) where
  after_submit-K :
      (r : Result Bool) (w : W) (s : Loop W)
      → K w
      → K (after_submit page decode hmac secret (r, w) s).1.world
  after_submit-K (err e) w s k = k
  after_submit-K (ok false) w s k = k
  after_submit-K (ok true) w s k = k

  with_code-K :
      (code : Option (Result Text)) (s : Loop W)
      → K s.world
      → K (with_code page decode hmac secret code s).1.world
  with_code-K none s k = k
  with_code-K (some (err e)) s k = k
  with_code-K (some (ok code)) s k =
      after_submit-K (page.submit_two_fa code s.world).0 _ s (keeps.submit code s.world k)

  after_visible-K :
      (cur : Text) (r : Result Bool) (w : W) (s : Loop W)
      → K w
      → K (after_visible page decode hmac secret cur (r, w) s).1.world
  after_visible-K cur r w s k =
      let shown : Loop W = record s { world = w } in
      if_cases (λ (x : Result Bool × Loop W). K x.1.world)
        (said r || idle_on_sso page decode hmac secret cur shown) _ _
        (λ _. with_code-K (totp_at decode hmac secret (unix (page.now w))) shown k) (λ _. k)

  after_present-K :
      (cur : Text) (r : Result Bool) (w : W) (s : Loop W)
      → K w
      → K (after_present page decode hmac secret cur (r, w) s).1.world
  after_present-K cur (err e) w s k = k
  after_present-K cur (ok false) w s k = k
  after_present-K cur (ok true) w s k =
      if_cases (λ (x : Result Bool × Loop W). K x.1.world) (is_empty secret) _ _ (λ _. k)
        (λ _.
          after_visible-K cur (page.two_fa_visible w).0 _ (record s { world = w })
            (keeps.visible w k))

  pub two_fa-K :
      (cur : Text) (s : Loop W)
      → K s.world
      → K (maybe_handle_two_fa page decode hmac secret cur s).1.world
  unfolding maybe_handle_two_fa
  two_fa-K cur s k =
      if_cases (λ (x : Result Bool × Loop W). K x.1.world) s.two_fa_submitted _ _ (λ _. k)
        (λ _. after_present-K cur (page.two_fa_present s.world).0 _ s (keeps.present s.world k))

  after_click-K :
      (r : Result Bool) (w : W) (s : Loop W)
      → K w
      → K (after_click page decode hmac secret (r, w) s).1.world
  after_click-K (err e) w s k = k
  after_click-K (ok false) w s k = k
  after_click-K (ok true) w s k = k

  pub retry_cert-K :
      (s : Loop W) → K s.world → K (maybe_retry_cert page decode hmac secret s).1.world
  unfolding maybe_retry_cert
  retry_cert-K s k =
      if_cases (λ (x : Result Bool × Loop W). K x.1.world) (leb 5 s.cert_retries) _ _ (λ _. k)
        (λ _. after_click-K (page.click_cert s.world).0 _ s (keeps.click s.world k))
