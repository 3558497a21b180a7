-- ===== src/Handles.antt =====
-- The handles that a library has given out and not taken back, the latest first.
use mathlib.Core.Option
use pje_headless.Base.{
  ℕ, ◌+◌, ◌==◌, ◌≡◌, Option, none, some, List, [], ◌∷◌, arith, if◌then◌else◌, inl, inr, Bool-cases,
}

pub record Handles : Type 0 where
  pub handles : List ℕ
  -- How often a handle was given back that was not open.
  pub faults : ℕ

abbrev pub all_of : List ℕ → Handles
all_of hs = record { handles = hs; faults = 0 }

abbrev pub acquired : ℕ → Handles → Handles
acquired h p = record p { handles = h ∷ p.handles }

unfoldable remove : ℕ → List ℕ → Option (List ℕ)
remove h [] = none
remove h (x ∷ xs) =
    let rest = remove h xs in if h == x then some xs else Option.map (λ ys. x ∷ ys) rest

abbrev settled : Handles → Option (List ℕ) → Handles
settled p none = record p { faults = p.faults + 1 }
settled p (some hs) = record p { handles = hs }

-- The library takes one back.
unfoldable pub given_back : ℕ → Handles → Handles
unfolding remove
given_back h p = settled p (remove h p.handles)

pub given_back_last : (h : ℕ) (hs : List ℕ) → given_back h (all_of (h ∷ hs)) ≡ all_of hs
unfolding given_back
given_back_last h hs = ground arith

pub given_back_first : (h x : ℕ) → given_back h (all_of (x ∷ h ∷ [])) ≡ all_of (x ∷ [])
unfolding given_back remove
given_back_first h x = elim (Bool-cases (h == x)) [ inl e ↦ ground arith | inr e ↦ ground arith ]
