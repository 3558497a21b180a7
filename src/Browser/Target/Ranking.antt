-- ===== src/Browser/Target/Ranking.antt =====
-- The choice of pickActiveTarget against the priorities that its comment names.
use pje_headless.Base.{
  ℕ, ◌≡◌, ◌≤◌, ◌<◌, refl, sym, subst, Option, none, some, false, not, if◌then◌else◌, arith, List,
  [], ◌∷◌, Text, ◌==◌, ==_iff, contains, Bool-cases, inl, inr, ◌⊎◌, ◌≢◌, All, Any, here, there,
}
use pje_headless.Browser.Url.{is_real_url, sso_host}
use pje_headless.Browser.Target.{
  Info, is_page, keep_first, fall_back, pick_loop, pick_active_target,
}

-- 3: a page past the SSO host. 2: a page with a real URL on it. 1: any other page. 0: no page.
unfoldable pub rank : Option Info → ℕ
rank none = 0
rank (some info) =
    if not (is_page info)
    then 0
    else if not (is_real_url info.url)
    then 1
    else if not (contains info.url sso_host)
    then 3
    else 2

abbrev pub id_of : Option Info → Option Text
id_of none = none
id_of (some info) = some info.target_id

-- The first target of a rank.
unfoldable first_of_rank : ℕ → List (Option Info) → Option Text
first_of_rank k [] = none
first_of_rank k (i ∷ infos) = if rank i == k then id_of i else first_of_rank k infos

pick_loop_lem :
    (real any : Option Text) (infos : List (Option Info))
    → pick_loop real any infos
      ≡ fall_back (first_of_rank 3 infos) (
          fall_back real
            (fall_back (first_of_rank 2 infos) (fall_back any (first_of_rank 1 infos))))
unfolding pick_loop first_of_rank rank
pick_loop_lem real any [] = ground arith
pick_loop_lem real any (none ∷ infos) = ground (arith, pick_loop_lem real any infos)
pick_loop_lem real any (some info ∷ infos) = elim (Bool-cases (is_page info)) [
  | inr other ↦ rw other (pick_loop_lem real any infos)
  | inl page ↦ elim (Bool-cases (is_real_url info.url)) [
    | inr blank ↦
        rw (page, blank) (ground (arith, pick_loop_lem real (keep_first any info.target_id) infos))
    | inl real_url ↦ elim (Bool-cases (contains info.url sso_host)) [
      | inr past ↦ rw (page, real_url, past) refl
      | inl on_sso ↦
          rw (page, real_url, on_sso)
            (ground (
              arith,
              pick_loop_lem (keep_first real info.target_id) (keep_first any info.target_id) infos,
            ))
    ]
  ]
]

-- The one pass over the targets picks the first page past the SSO host, or else the first with a real
-- URL on it, or else the first page of any kind, and nothing where there is no page.
pick_active_target_lem :
    (infos : List (Option Info))
    → pick_active_target infos
      ≡ fall_back
          (first_of_rank 3 infos)
          (fall_back (first_of_rank 2 infos) (first_of_rank 1 infos))
unfolding pick_active_target
pick_active_target_lem infos = pick_loop_lem none none infos

rank-le : (i : Option Info) → rank i ≤ 3
unfolding rank
rank-le none = omega arith
rank-le (some info) = ground arith

-- The first target of rank `k`, if there is one.
abbrev Best : ℕ → List (Option Info) → Option Text → Type 0
Best k infos r =
    ((r ≡ none) × All (λ i. rank i ≢ k) infos)
    ⊎ ((i : Option Info) × (id : Text) × (r ≡ some id)
        × (id_of i ≡ some id)
        × (rank i ≡ k)
        × Any (λ j. j ≡ i) infos)

rank_nil : (k : ℕ) → 0 < k → (rank none == k) ≡ false
unfolding rank
rank_nil k pos = ground arith

rank_nil_ne : (k : ℕ) → 0 < k → rank none ≢ k
unfolding rank
rank_nil_ne k pos = omega arith

first_of_rank-Best :
    (k : ℕ) (infos : List (Option Info)) → 0 < k → Best k infos (first_of_rank k infos)
unfolding first_of_rank
first_of_rank-Best k [] pos = inl (refl, tt)
first_of_rank-Best k (none ∷ infos) pos = elim (first_of_rank-Best k infos pos) [
  | inl (no_hit, rest) ↦ inl (rw (rank_nil k pos) no_hit, (rank_nil_ne k pos, rest))
  | inr (i, id, hit, name, e, at) ↦ inr (i, id, rw (rank_nil k pos) hit, name, e, there at)
]
first_of_rank-Best k (some info ∷ infos) pos = elim (Bool-cases (rank (some info) == k)) [
  | inl e ↦ inr (some info, info.target_id, rw e, refl, (==_iff _ _).0 e, here refl)
  | inr ne ↦ elim (first_of_rank-Best k infos pos) [
    | inl (no_hit, rest) ↦ inl (rw ne no_hit, (λ e. ground arith, rest))
    | inr (i, id, hit, name, e, at) ↦ inr (i, id, rw ne hit, name, e, there at)
  ]
]

-- Where no target has rank 3, 2 or 1 above `k`, every rank is at most `k`.
ranks-le :
    (k : ℕ) (infos : List (Option Info))
    → (k < 3 → All (λ i. rank i ≢ 3) infos)
    → (k < 2 → All (λ i. rank i ≢ 2) infos)
    → (k < 1 → All (λ i. rank i ≢ 1) infos)
    → All (λ i. rank i ≤ k) infos
ranks-le k [] a b c = tt
ranks-le k (i ∷ infos) a b c = (
  below i (λ h. (a h).0) (λ h. (b h).0) (λ h. (c h).0),
  ranks-le k infos (λ h. (a h).1) (λ h. (b h).1) (λ h. (c h).1),
)
  where
    below :
        (j : Option Info)
        → (k < 3 → rank j ≢ 3)
        → (k < 2 → rank j ≢ 2)
        → (k < 1 → rank j ≢ 1)
        → rank j ≤ k
    below j x y z = grind (arith, rank-le)

ranks-le_at :
    (k n : ℕ) (infos : List (Option Info))
    → n ≡ k
    → (k < 3 → All (λ i. rank i ≢ 3) infos)
    → (k < 2 → All (λ i. rank i ≢ 2) infos)
    → (k < 1 → All (λ i. rank i ≢ 1) infos)
    → All (λ i. rank i ≤ n) infos
ranks-le_at k n infos e a b c =
    subst (λ m. All (λ i. rank i ≤ m) infos) (sym e) (ranks-le k infos a b c)

-- pickActiveTarget returns nothing exactly where no target is a page; else the target that it returns
-- is a page, and no target of the list has a higher rank, whatever the order of the list.
pub pick_active_target-rank :
    (infos : List (Option Info))
    → ((pick_active_target infos ≡ none) × All (λ i. rank i ≤ 0) infos)
      ⊎ ((i : Option Info) × (id : Text) × (pick_active_target infos ≡ some id)
          × (id_of i ≡ some id)
          × Any (λ j. j ≡ i) infos
          × (0 < rank i)
          × All (λ j. rank j ≤ rank i) infos)
pick_active_target-rank infos = elim (first_of_rank-Best 3 infos (omega arith)) [
  | inr (i, id, hit, name, e, at) ↦ inr (
    i,
    id,
    rw (pick_active_target_lem infos, hit),
    name,
    at,
    omega arith,
    ranks-le_at 3 _ infos e (λ h. absurd (omega arith)) (λ h. absurd (omega arith))
        (λ h. absurd (omega arith)),
  )
  | inl (no3, out3) ↦ elim (first_of_rank-Best 2 infos (omega arith)) [
    | inr (i, id, hit, name, e, at) ↦ inr (
      i,
      id,
      rw (pick_active_target_lem infos, no3, hit),
      name,
      at,
      omega arith,
      ranks-le_at 2 _ infos e (λ _. out3) (λ h. absurd (omega arith)) (λ h. absurd (omega arith)),
    )
    | inl (no2, out2) ↦ elim (first_of_rank-Best 1 infos (omega arith)) [
      | inr (i, id, hit, name, e, at) ↦ inr (
        i,
        id,
        rw (pick_active_target_lem infos, no3, no2, hit),
        name,
        at,
        omega arith,
        ranks-le_at 1 _ infos e (λ _. out3) (λ _. out2) (λ h. absurd (omega arith)),
      )
      | inl (no1, out1) ↦ inl (
        rw (pick_active_target_lem infos, no3, no2, no1),
        ranks-le 0 infos (λ _. out3) (λ _. out2) (λ _. out1),
      )
    ]
  ]
]
