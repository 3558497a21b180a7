-- ===== src/Browser/Login/Resources.antt =====
-- The libraries of Login with a stack of what is acquired, and a count of the page contexts.
use pje_headless.Base.{
  ℕ, ◌≡◌, refl, ◌==◌, ==_iff, Bool, true, false, if◌then◌else◌, List, [], ◌∷◌, Result, ok, err,
}
use pje_headless.Browser.Session.{Chromedp}
use pje_headless.Handles.{all_of}
use pje_headless.Browser.Session.Contexts.{Open, counted}
use pje_headless.Browser.Flow.{Tab}
use pje_headless.Browser.Flow.Beside.{beside_cdp, beside_tab}
use pje_headless.Browser.Login.{Launch}

pub data Resource : Type 0 where
  timeout listener allocator task : ℕ → Resource

-- What is acquired and not released, the last one first.
abbrev pub Held : Type 0
Held = List Resource

abbrev same : Resource → Resource → Bool
same (timeout a) (timeout b) = a == b
same (listener a) (listener b) = a == b
same (allocator a) (allocator b) = a == b
same (task a) (task b) = a == b
same _ _ = false

-- Only the last one acquired is released.
abbrev pub drop_last : Resource → Held → Held
drop_last r [] = []
drop_last r (s ∷ held) = if same r s then held else s ∷ held

same_refl : (r : Resource) → same r r ≡ true
same_refl (timeout a) = (==_iff a a).1 refl
same_refl (listener a) = (==_iff a a).1 refl
same_refl (allocator a) = (==_iff a a).1 refl
same_refl (task a) = (==_iff a a).1 refl

pub drop_pushed : (r : Resource) (held : Held) → drop_last r (r ∷ held) ≡ held
drop_pushed r held = rw (same_refl r) refl

abbrev pub World : Type 0 → Type 0
World V = (V × Held) × Open

abbrev push : {V : Type 0} → (ℕ → Resource) → (V → ℕ × V) → World V → ℕ × World V
push made op ((v, held), o) = let (c, w) = op v in (c, ((w, made c ∷ held), o))

abbrev pub listened : {V : Type 0} → Held → Open → Result ℕ × V → Result ℕ × World V
listened held o (ok n, v) = (ok n, ((v, listener n ∷ held), o))
listened held o (err e, v) = (err e, ((v, held), o))

abbrev pub pop : {V : Type 0} → Resource → (V → V) → World V → World V
pop r op ((v, held), o) = ((op v, drop_last r held), o)

abbrev pub held_launch : {Signer V : Type 0} → Launch Signer V → Launch Signer (World V)
held_launch launch = record {
  net = record {
    listen = λ network addr ((v, held), o). listened held o (launch.net.listen network addr v);
    close = λ n. pop (listener n) (launch.net.close n);
    join_host_port = launch.net.join_host_port;
  };
  serve = λ server n ((v, held), o). ((launch.serve server n v, held), o);
  with_timeout = λ c d. push timeout (launch.with_timeout c d);
  new_exec_allocator = λ c options. push allocator (launch.new_exec_allocator c options);
  new_context = λ c options. push task (launch.new_context c options);
  cancel_timeout = λ c. pop (timeout c) (launch.cancel_timeout c);
  cancel_allocator = λ c. pop (allocator c) (launch.cancel_allocator c);
  cancel_task = λ c. pop (task c) (launch.cancel_task c);
}

abbrev pub held_cdp : {V : Type 0} → Chromedp V → Chromedp (World V)
held_cdp cdp = counted (beside_cdp cdp)

abbrev pub held_tab : {V : Type 0} → Tab V → Tab (World V)
held_tab tab = beside_tab (beside_tab tab)

abbrev pub no_pages : Open
no_pages = all_of []
