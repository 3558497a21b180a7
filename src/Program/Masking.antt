-- ===== src/Program/Masking.antt =====
-- What the masked bearer gives away.
use pje_headless.Base.{
  ℕ, suc, ◌+◌, ◌-◌, ◌≤◌, ◌≡◌, refl, ◌∙◌, ◌++◌, ltb, List, take, drop, sym, if_cases, length,
  length-append, ap, [], ◌∷◌, codes, arith,
}
use pje_headless.Program.{mask}

take-prefix : (xs ys : List ℕ) → take (length xs) (xs ++ ys) ≡ xs
take-prefix [] ys = refl
take-prefix (x ∷ xs) ys = ap (λ zs. x ∷ zs) (take-prefix xs ys)

drop_past : (xs ys : List ℕ) (n : ℕ) → drop (length xs + n) (xs ++ ys) ≡ drop n ys
drop_past [] ys n = ap (λ k. drop k ys) (omega arith)
drop_past (x ∷ xs) ys n =
    let next : suc (length xs) + n ≡ suc (length xs + n) = omega arith in
    ap (λ k. drop k (x ∷ (xs ++ ys))) next ∙ drop_past xs ys n

-- A bearer of 29 bytes or more is logged as its first 20 bytes, three dots and its last 6, whatever stands
-- between: `middle` does not show.
pub mask-hides :
    (first middle last : List ℕ)
    → length first ≡ 20
    → 3 ≤ length middle
    → length last ≡ 6
    → mask (first ++ (middle ++ last)) ≡ first ++ (codes "..." ++ last)
unfolding mask
mask-hides first middle last f m l =
    let whole = first ++ (middle ++ last) in
    let bytes : length whole ≡ length first + length middle + 6 =
      omega (arith, length-append first (middle ++ last), length-append middle last, l) in
    let head : take 20 whole ≡ first =
      ap (λ n. take n whole) (sym f) ∙ take-prefix first (middle ++ last) in
    let start : length whole - 6 ≡ length first + (length middle + 0) = omega (arith, bytes) in
    let tail : drop (length whole - 6) whole ≡ last =
      ap (λ n. drop n whole) start
      ∙ drop_past first (middle ++ last) (length middle + 0)
      ∙ drop_past middle last 0 in
    if_cases (λ (x : List ℕ). x ≡ first ++ (codes "..." ++ last)) (ltb 28 (length whole)) _ _
      (λ _. rw (head, tail) refl) (λ short. ground (arith, short, bytes, f, m))
