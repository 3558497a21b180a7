-- ===== src/Browser/Prompts/Bounds.antt =====
-- How often the loop submits a second factor and clicks the certificate link again.
use pje_headless.Base.{
  ℕ, suc, ◌+◌, ◌≤◌, ◌≡◌, sym, subst, ap, ◌||◌, leb, Bool, true, false, arith, if◌then◌else◌,
  if_cases, Option, none, some, List, Text, is_empty, Result, ok, err,
}
use pje_headless.Clock.{unix}
use pje_headless.Browser.Totp.{totp_at}
use pje_headless.Browser.Prompts.{
  Page, Loop, said, after_submit, with_code, idle_on_sso, after_visible, after_present,
  maybe_handle_two_fa, after_click, maybe_retry_cert,
}

-- How many codes and enrollments were submitted, and how many clicks made, as the page reports them.
pub record Tally : Type 0 where
  pub codes_sent : ℕ
  pub clicks : ℕ
  pub enrollments : ℕ

abbrev pub no_tally : Tally
no_tally = record { codes_sent = 0; clicks = 0; enrollments = 0 }

abbrev pub count_code : Result Bool → Tally → Tally
count_code (ok true) t = record t { codes_sent = t.codes_sent + 1 }
count_code (ok false) t = t
count_code (err e) t = t

abbrev pub count_click : Result Bool → Tally → Tally
count_click (ok true) t = record t { clicks = t.clicks + 1 }
count_click (ok false) t = t
count_click (err e) t = t

-- The world keeps a tally of what the page is asked to do.
pub record Counts {W : Type 0} (tally : W → Tally) (page : Page W) : Type 0 where
  pub present : (w : W) → tally (page.two_fa_present w).1 ≡ tally w
  pub visible : (w : W) → tally (page.two_fa_visible w).1 ≡ tally w
  pub submit :
      (code : Text) (w : W)
      → tally (page.submit_two_fa code w).1 ≡ count_code (page.submit_two_fa code w).0 (tally w)
  pub click : (w : W) → tally (page.click_cert w).1 ≡ count_click (page.click_cert w).0 (tally w)

-- One code was submitted where the loop says so, else none; the clicks are the retries, five at most.
abbrev pub Bounded : Tally → Bool → ℕ → Type 0
Bounded t submitted retries =
    (t.codes_sent ≡ (if submitted then 1 else 0)) × (t.clicks ≡ retries) × (retries ≤ 5)

abbrev pub IsBounded : {W : Type 0} → (W → Tally) → Loop W → Type 0
IsBounded tally s = Bounded (tally s.world) s.two_fa_submitted s.cert_retries

module _ {W : Type 0} (tally : W → Tally) (page : Page W) (counts : Counts tally page)
    (decode : Text → Option (List ℕ)) (hmac : List ℕ → List ℕ → List ℕ) (secret : Text) where
  -- The bounds before a code is submitted.
  abbrev Unsent : W → Loop W → Type 0
  Unsent w s = (s.two_fa_submitted ≡ false) × Bounded (tally w) false s.cert_retries

  Unsent-IsBounded : (w : W) (s : Loop W) → Unsent w s → IsBounded tally (record s { world = w })
  Unsent-IsBounded w s u = subst (λ f. Bounded (tally w) f s.cert_retries) (sym u.0) u.1

  -- A step that keeps the tally.
  still-Unsent : (w w' : W) (s : Loop W) → tally w' ≡ tally w → Unsent w s → Unsent w' s
  still-Unsent w w' s e u = (u.0, subst (λ t. Bounded t false s.cert_retries) (sym e) u.1)

  after_submit-IsBounded :
      (r : Result Bool) (w w' : W) (s : Loop W)
      → tally w' ≡ count_code r (tally w)
      → Unsent w s
      → IsBounded tally (after_submit page decode hmac secret (r, w') s).1
  after_submit-IsBounded (err e) w w' s c u = Unsent-IsBounded w' s (still-Unsent w w' s c u)
  after_submit-IsBounded (ok false) w w' s c u = Unsent-IsBounded w' s (still-Unsent w w' s c u)
  after_submit-IsBounded (ok true) w w' s c u =
      subst (λ t. Bounded t true s.cert_retries) (sym c) (ap (λ m. m + 1) u.1.0, u.1.1, u.1.2)

  with_code-IsBounded :
      (code : Option (Result Text)) (s : Loop W)
      → Unsent s.world s
      → IsBounded tally (with_code page decode hmac secret code s).1
  with_code-IsBounded none s u = Unsent-IsBounded s.world s u
  with_code-IsBounded (some (err e)) s u = Unsent-IsBounded s.world s u
  with_code-IsBounded (some (ok code)) s u =
      after_submit-IsBounded (page.submit_two_fa code s.world).0 s.world _ s
        (counts.submit code s.world) u

  after_visible-IsBounded :
      (cur : Text) (r : Result Bool) (w : W) (s : Loop W)
      → Unsent w s
      → IsBounded tally (after_visible page decode hmac secret cur (r, w) s).1
  after_visible-IsBounded cur r w s u =
      let shown : Loop W = record s { world = w } in
      if_cases (λ (x : Result Bool × Loop W). IsBounded tally x.1)
        (said r || idle_on_sso page decode hmac secret cur shown) _ _
        (λ _. with_code-IsBounded (totp_at decode hmac secret (unix (page.now w))) shown u)
        (λ _. Unsent-IsBounded w s u)

  after_present-IsBounded :
      (cur : Text) (r : Result Bool) (w : W) (s : Loop W)
      → Unsent w s
      → IsBounded tally (after_present page decode hmac secret cur (r, w) s).1
  after_present-IsBounded cur (err e) w s u = Unsent-IsBounded w s u
  after_present-IsBounded cur (ok false) w s u = Unsent-IsBounded w s u
  after_present-IsBounded cur (ok true) w s u =
      let found = page.two_fa_visible w in
      if_cases (λ (x : Result Bool × Loop W). IsBounded tally x.1) (is_empty secret) _ _
        (λ _. Unsent-IsBounded w s u)
        (λ _.
          after_visible-IsBounded cur found.0 found.1 (record s { world = w })
            (still-Unsent w _ s (counts.visible w) u))

  pub two_fa-IsBounded :
      (cur : Text) (s : Loop W)
      → IsBounded tally s
      → IsBounded tally (maybe_handle_two_fa page decode hmac secret cur s).1
  unfolding maybe_handle_two_fa
  two_fa-IsBounded cur s b =
      let found = page.two_fa_present s.world in
      if_cases (λ (x : Result Bool × Loop W). IsBounded tally x.1) s.two_fa_submitted _ _ (λ _. b)
        (λ new. after_present-IsBounded cur found.0 found.1 s (
          still-Unsent s.world _ s (counts.present s.world)
            (new, subst (λ f. Bounded (tally s.world) f s.cert_retries) new b)))

  after_click-IsBounded :
      (r : Result Bool) (w : W) (s : Loop W)
      → tally w ≡ count_click r (tally s.world)
      → IsBounded tally s
      → suc s.cert_retries ≤ 5
      → IsBounded tally (after_click page decode hmac secret (r, w) s).1
  after_click-IsBounded (err e) w s c b more =
      subst (λ t. Bounded t s.two_fa_submitted s.cert_retries) (sym c) b
  after_click-IsBounded (ok false) w s c b more =
      subst (λ t. Bounded t s.two_fa_submitted s.cert_retries) (sym c) b
  after_click-IsBounded (ok true) w s c b more =
      subst (λ t. Bounded t s.two_fa_submitted (s.cert_retries + 1)) (sym c)
        (b.0, ap (λ m. m + 1) b.1, ground (arith, more))

  pub retry_cert-IsBounded :
      (s : Loop W)
      → IsBounded tally s
      → IsBounded tally (maybe_retry_cert page decode hmac secret s).1
  unfolding maybe_retry_cert
  retry_cert-IsBounded s b =
      let clicked = page.click_cert s.world in
      if_cases (λ (x : Result Bool × Loop W). IsBounded tally x.1) (leb 5 s.cert_retries) _ _
        (λ _. b)
        (λ more.
          after_click-IsBounded clicked.0 clicked.1 s (counts.click s.world) b
            (ground (arith, more)))
