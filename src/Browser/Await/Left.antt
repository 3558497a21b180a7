-- ===== src/Browser/Await/Left.antt =====
-- Where awaitAuthenticated succeeds, and what it keeps of the flow.
use pje_headless.Base.{
  ℕ, ◌≡◌, ◌||◌, Bool, true, false, if_cases, Option, none, some, Text, codes, contains, Result, ok,
  err, branch_cases, arith, Error,
}
use pje_headless.Browser.Url.{
  sso_host, is_authenticated_url, is_gov_br_url, should_attempt_totp_enroll,
}
use pje_headless.Browser.Session.{Chromedp, is_invalid_context}
use pje_headless.Browser.Prompts.{Loop, maybe_handle_two_fa, maybe_retry_cert}
use pje_headless.Browser.Polling.{Round, resume}
use pje_headless.Browser.Polling.Rules as Rules
use pje_headless.Browser.Polling.Rules.{Ensures, until-Ensures}
use pje_headless.Browser.Flow.{
  Tab, Flow, seconds, in_world, world_of, sleep_ctx, page_at, rebind_flow,
}
use pje_headless.Browser.Flow.Respect.{sleep_ctx-R}
use pje_headless.Browser.Flow.Steady.{Steady, trivial-Steady}
use pje_headless.Browser.Enroll.Respect.{enroll_totp_robust-I}
use pje_headless.Browser.Prompts.Keeping.{PageKeeps, two_fa-K, retry_cert-K}
use pje_headless.Browser.Scripts.{login_url}
use pje_headless.Browser.Enroll.Attempts.{Codec}
use pje_headless.Browser.Await.{
  in_flow, nap, after_cert, after_two_fa, prompts, after_enroll, restart, seen, revived, checked,
  alive, round, await_authenticated,
}

-- A URL that does not contain the SSO host, and contains one of the two hosts that the login leads to.
abbrev pub LeftSso : Text → Type 0
LeftSso cur =
    (contains cur sso_host ≡ false)
    × ((contains cur (codes "www.jus.br") || contains cur (codes "portaldeservicos.pdpj.jus.br"))
        ≡ true)

-- Of a success.
abbrev pub Authenticated : {V : Type 0} → Result (Unit {0}) → Loop (Flow V) → Type 0
Authenticated (ok _) s = LeftSso s.world.last_url
Authenticated (err e) s = Unit {0}

authenticated_left : (cur : Text) → is_authenticated_url cur ≡ true → LeftSso cur
unfolding is_authenticated_url
authenticated_left cur h = (ground (arith, h), ground (arith, h))

module _ {V : Type 0} (R : V → V → Type 0) (I : Flow V → Type 0) (tab : Tab V) (cdp : Chromedp V)
    (k : Steady R I tab cdp) (codec : Codec) (secret : Text) (root : ℕ) where
  abbrev pub Kept : Result (Unit {0}) → Loop (Flow V) → Type 0
  Kept r s = I s.world × Authenticated r s

  abbrev Sound : Option (Round (Unit {0}) × Loop (Flow V)) → Type 0
  Sound o = Rules.Keeps (λ s. I s.world) Kept o

  -- maybeHandle2FA and maybeRetryCert.
  page_keeps : (ctx : ℕ) → PageKeeps I (page_at tab cdp ctx)
  page_keeps ctx = record {
    present = λ f i. k.step f _ (k.quiet.two_fa_present ctx (world_of f)) i;
    visible = λ f i. k.step f _ (k.quiet.two_fa_visible ctx (world_of f)) i;
    submit = λ code f i. k.step f _ (k.submit_two_fa ctx code (world_of f)) i;
    click = λ f i. k.step f _ (k.click_cert ctx (world_of f)) i;
  }

  resumed-Sound :
      (r : Result (Unit {0})) (s : Loop (Flow V)) → I s.world → Sound (some (resume (r, s)))
  resumed-Sound (ok _) s i = i
  resumed-Sound (err e) s i = (i, tt)

  nap-Sound :
      (n : ℕ) (s : Loop (Flow V)) → I s.world → Sound (some (nap tab cdp codec secret root n s))
  nap-Sound n s i =
      let v = world_of s.world in
      resumed-Sound (sleep_ctx tab root (seconds n) v).0 _
        (k.step s.world _ (sleep_ctx-R R tab k.quiet root (seconds n) v) i)

  after_cert-Sound :
      (r : Result Bool) (s : Loop (Flow V))
      → I s.world
      → Sound (some (after_cert tab cdp codec secret root (r, s)))
  after_cert-Sound (err e) s i = (i, tt)
  after_cert-Sound (ok true) s i = nap-Sound 5 s i
  after_cert-Sound (ok false) s i = nap-Sound 1 s i

  after_two_fa-Sound :
      (ctx : ℕ) (r : Result Bool) (s : Loop (Flow V))
      → I s.world
      → Sound (some (after_two_fa tab cdp codec secret root ctx (r, s)))
  after_two_fa-Sound ctx (err e) s i = (i, tt)
  after_two_fa-Sound ctx (ok true) s i = nap-Sound 5 s i
  after_two_fa-Sound ctx (ok false) s i =
      after_cert-Sound (maybe_retry_cert (page_at tab cdp ctx) codec.decode codec.hmac secret s).0 _
        (retry_cert-K I _ (page_keeps ctx) codec.decode codec.hmac secret s i)

  prompts-Sound :
      (ctx : ℕ) (cur : Text) (s : Loop (Flow V))
      → I s.world
      → Sound (some (prompts tab cdp codec secret root ctx cur s))
  prompts-Sound ctx cur s i =
      after_two_fa-Sound ctx
        (maybe_handle_two_fa (page_at tab cdp ctx) codec.decode codec.hmac secret cur s).0 _
        (two_fa-K I _ (page_keeps ctx) codec.decode codec.hmac secret cur s i)

  after_enroll-Sound :
      (ctx : ℕ) (cur : Text) (s : Loop (Flow V)) (o : Option (Result Bool × Flow V))
      → Ensures (λ _. I) o
      → Sound (after_enroll tab cdp codec secret root ctx cur s o)
  after_enroll-Sound ctx cur s none i = tt
  after_enroll-Sound ctx cur s (some (err e, f)) i = (i, tt)
  after_enroll-Sound ctx cur s (some (ok true, f)) i = nap-Sound 5 (record s { world = f }) i
  after_enroll-Sound ctx cur s (some (ok false, f)) i =
      prompts-Sound ctx cur (record s { world = f }) i

  restart-Sound :
      (ctx : ℕ) (s : Loop (Flow V))
      → I s.world
      → Sound (some (restart tab cdp codec secret root ctx s))
  restart-Sound ctx s i =
      let went = in_flow tab cdp codec secret root (in_world (tab.navigate ctx login_url)) s in
      let after = k.step s.world _ (k.quiet.navigate ctx login_url (world_of s.world)) i in
      branch_cases (λ (x : Round (Unit {0}) × Loop (Flow V)). Sound (some x)) went _ _
        (λ _ _. nap-Sound 3 went.1 after)
        (λ e _.
          if_cases (λ (x : Round (Unit {0})). Sound (some (x, went.1)))
            (is_invalid_context cdp.invalid_context e) _ _ (λ _. after) (λ _. (after, tt)))

  seen-Sound :
      (fuel : ℕ) (s : Loop (Flow V)) → I s.world → Sound (seen tab cdp codec secret root fuel s)
  seen-Sound fuel s i =
      let ctx = s.world.session.ctx in
      let cur = s.world.last_url in
      if_cases Sound (is_authenticated_url cur) _ _ (λ h. (i, authenticated_left cur h))
        (λ _.
          if_cases Sound (is_gov_br_url cur) _ _ (λ _. restart-Sound ctx s i)
            (λ _.
              if_cases Sound (should_attempt_totp_enroll cur s.world.totp_enrolled) _ _
                (λ _.
                  after_enroll-Sound ctx cur s _
                    (enroll_totp_robust-I R I tab cdp k codec fuel root cur s.world i))
                (λ _. prompts-Sound ctx cur s i)))

  revived-Sound :
      (fuel : ℕ) (r : Result Bool) (s : Loop (Flow V))
      → I s.world
      → Sound (revived tab cdp codec secret root fuel (r, s))
  revived-Sound fuel (err e) s i = (i, tt)
  revived-Sound fuel (ok b) s i = seen-Sound fuel _ (k.observed s.world i)

  checked-Sound :
      (fuel : ℕ) (ended : Option Error) (s : Loop (Flow V))
      → I s.world
      → Sound (checked tab cdp codec secret root fuel ended s)
  checked-Sound fuel none s i = seen-Sound fuel _ (k.observed s.world i)
  checked-Sound fuel (some e) s i =
      revived-Sound fuel (rebind_flow cdp s.world).0 _ (k.rebound s.world i)

  alive-Sound :
      (fuel : ℕ) (ended : Option Error) (s : Loop (Flow V))
      → I s.world
      → Sound (alive tab cdp codec secret root fuel ended s)
  alive-Sound fuel (some e) s i = (i, tt)
  alive-Sound fuel none s i =
      checked-Sound fuel (tab.context_error s.world.session.ctx (world_of s.world)) s i

  round-Sound :
      (fuel : ℕ) (s : Loop (Flow V)) → I s.world → Sound (round tab cdp codec secret root fuel s)
  unfolding round
  round-Sound fuel s i = alive-Sound fuel (tab.context_error root (world_of s.world)) s i

  pub await_authenticated-Kept :
      (fuel inner : ℕ) (f : Flow V)
      → I f
      → Ensures Kept (await_authenticated tab cdp codec secret root fuel inner f)
  unfolding await_authenticated
  await_authenticated-Kept fuel inner f i =
      until-Ensures _ _ _ _ (λ s. I s.world) Kept (round-Sound inner) (λ s j. (j, tt)) fuel _ i

left :
    {V : Type 0} (o : Option (Result (Unit {0}) × Loop (Flow V)))
    → Ensures (λ r s. Unit {0} × Authenticated r s) o
    → Ensures Authenticated o
left none h = tt
left (some x) h = h.1

-- Where a run of awaitAuthenticated succeeds, the URL that the session then tracks does not contain the
-- SSO host, and contains www.jus.br or portaldeservicos.pdpj.jus.br.
await_authenticated-Authenticated :
    {V : Type 0} (tab : Tab V) (cdp : Chromedp V) (codec : Codec) (secret : Text)
    (root fuel inner : ℕ) (f : Flow V)
    → Ensures Authenticated (await_authenticated tab cdp codec secret root fuel inner f)
await_authenticated-Authenticated tab cdp codec secret root fuel inner f = left _ (
    await_authenticated-Kept _ _ tab cdp (trivial-Steady tab cdp) codec secret root fuel inner f tt)
