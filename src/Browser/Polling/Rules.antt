-- ===== src/Browser/Polling/Rules.antt =====
-- The rules of a polling loop: an invariant holds of what it returns, and it returns.
use pje_headless.Base.{
  ℕ, zero, suc, ◌+◌, ◌-◌, ◌*◌, ◌≤◌, ◌≡◌, refl, true, false, Bool-cases, inl, inr, if_cases, Option,
  none, some, Result, err, Error, arith,
}
use pje_headless.Base.Int.{pos_part, neg_part}
use pje_headless.Clock.{Time, before}
use pje_headless.Browser.Polling.{Round, done, again, follow, until}

-- From one time to a later one by `tick` nanoseconds at least.
abbrev pub Passes : ℕ → Time → Time → Type 0
Passes tick t u = pos_part t + neg_part u + tick ≤ pos_part u + neg_part t

-- How long until the deadline.
abbrev pub time_left : Time → Time → ℕ
time_left t deadline = (pos_part deadline + neg_part t) - (pos_part t + neg_part deadline)

before_left : (t deadline : Time) → before t deadline ≡ true → suc 0 ≤ time_left t deadline
unfolding before
before_left t deadline h = ground arith

left_before : (t deadline : Time) → time_left t deadline ≤ 0 → before t deadline ≡ false
unfolding before
left_before t deadline h = ground arith

Passes-left :
    (tick k : ℕ) (t u deadline : Time)
    → Passes tick t u
    → time_left t deadline ≤ tick + k
    → time_left u deadline ≤ k
Passes-left tick k t u deadline p h = omega arith

-- What holds of a result, if there is one.
abbrev pub Ensures : {A S : Type 0} → (Result A → S → Type 0) → Option (Result A × S) → Type 0
Ensures Q none = Unit {0}
Ensures Q (some (r, s)) = Q r s

pub Ensures-mono :
    {A S : Type 0} {P Q : Result A → S → Type 0}
    → ((r : Result A) (s : S) → P r s → Q r s)
    → (o : Option (Result A × S)) → Ensures P o
    → Ensures Q o
Ensures-mono f none h = tt
Ensures-mono f (some (r, s)) h = f r s h

-- What holds of a round, if it ends.
abbrev pub Keeps :
    {A S : Type 0} → (S → Type 0) → (Result A → S → Type 0) → Option (Round A × S) → Type 0
Keeps P Q none = Unit {0}
Keeps P Q (some (done r, s)) = Q r s
Keeps P Q (some (again, s)) = P s

-- A round that ends, and ends later than `t` where the loop goes on.
abbrev pub Advances :
    {A S : Type 0} → (S → Time) → ℕ → (S → Type 0) → Time → Option (Round A × S) → Type 0
Advances now tick P t none = ⊥
Advances now tick P t (some (done r, s)) = Unit {0}
Advances now tick P t (some (again, s)) = P s × Passes tick t (now s)

abbrev pub Returns : {A S : Type 0} → Option (Result A × S) → Type 0
Returns {A} {S} o = (r : Result A) × (s : S) × (o ≡ some (r, s))

module _ {A S : Type 0} (now : S → Time) (deadline : Time) (body : S → Option (Round A × S))
    (late : Error) where
  follow-Ensures :
      (P : S → Type 0) (Q : Result A → S → Type 0) (rest : S → Option (Result A × S))
      (o : Option (Round A × S))
      → ((s : S) → P s → Ensures Q (rest s))
      → Keeps P Q o
      → Ensures Q (follow rest o)
  follow-Ensures P Q rest none next k = tt
  follow-Ensures P Q rest (some (done r, s)) next k = k
  follow-Ensures P Q rest (some (again, s)) next k = next s k

  pub until-Ensures :
      (P : S → Type 0) (Q : Result A → S → Type 0)
      → ((s : S) → P s → Keeps P Q (body s))
      → ((s : S) → P s → Q (err late) s)
      → (n : ℕ) (s : S) → P s
      → Ensures Q (until n now deadline body late s)
  unfolding until
  until-Ensures P Q keep out zero s p = tt
  until-Ensures P Q keep out (suc n) s p =
      if_cases (Ensures Q) (before (now s) deadline) _ _
        (λ _. follow-Ensures P Q _ (body s) (until-Ensures P Q keep out n) (keep s p))
        (λ _. out s p)

  follow-Returns :
      (tick k : ℕ) (P : S → Type 0) (t : Time) (rest : S → Option (Result A × S))
      (o : Option (Round A × S))
      → time_left t deadline ≤ tick + k
      → ((s : S) → P s → time_left (now s) deadline ≤ k → Returns (rest s))
      → Advances now tick P t o
      → Returns (follow rest o)
  follow-Returns tick k P t rest none l next a = elim a [ ]
  follow-Returns tick k P t rest (some (done r, s)) l next a = (r, s, refl)
  follow-Returns tick k P t rest (some (again, s)) l next a =
      next s a.0 (Passes-left tick k t (now s) deadline a.1 l)

  -- The loop returns, given fuel for the rounds of at least `tick` nanoseconds that fit before the
  -- deadline, and one more.
  pub until-Returns :
      (tick : ℕ) (P : S → Type 0)
      → ((s : S) → P s → before (now s) deadline ≡ true → Advances now tick P (now s) (body s))
      → (n : ℕ) (s : S) → P s
      → time_left (now s) deadline ≤ n * tick
      → Returns (until (suc n) now deadline body late s)
  unfolding until
  until-Returns tick P step zero s p l =
      rw (left_before (now s) deadline (ground (arith, l))) (err late, s, refl)
  until-Returns tick P step (suc n) s p l = elim (Bool-cases (before (now s) deadline)) [
    | inr out ↦ rw out (err late, s, refl)
    | inl more ↦ rw more (
        follow-Returns tick (n * tick) P (now s) _ (body s) (ground arith)
          (λ t q k. until-Returns tick P step n t q k) (step s p more))
  ]
