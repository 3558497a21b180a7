-- ===== src/LoginSvc/Token.antt =====
-- Which bearers parseBearerExp dates, and by what.
use pje_headless.Base.{
  ◌≡◌, refl, sym, ap, subst, ◌∙◌, Option, ◌∷◌, ◌++◌, Text, codes, to_lower, trim_space, Lacks, drop,
  length, NoSpace, NoSpace-append, trim_space_of_NoSpace, split-cons_lem, split_of_Lacks,
  has_prefix-append, is_space, to_lower-append, drop-append, length-to_lower,
}
use pje_headless.Base.Int.{ℤ}
use pje_headless.LoginSvc.Jwt.{parse_bearer_exp, parse_payload, strip_scheme}

seven : (p : Text) → to_lower p ≡ codes "bearer " → length p ≡ 7
seven p h = sym (length-to_lower p) ∙ ap length h

-- The scheme is dropped in whatever case it is written, and so is the white space round the rest.
pub strip_scheme-append :
    (p rest : Text) → to_lower p ≡ codes "bearer " → strip_scheme (p ++ rest) ≡ trim_space rest
unfolding strip_scheme
strip_scheme-append p rest h =
    rw (to_lower-append p rest, h, has_prefix-append (codes "bearer ") (to_lower rest))
      (ap trim_space (subst (λ n. drop n (p ++ rest) ≡ rest) (seven p h) (drop-append p rest)))

-- For a bearer of three dot-separated parts with no white space in them, behind a scheme in any case,
-- the expiry is that of the second part alone.
pub parse_bearer_exp_jwt :
    (decode : Text → Option Text) (exp_claim : Text → Option ℤ) (p header payload sign : Text)
    → to_lower p ≡ codes "bearer "
    → Lacks b'.' header
    → Lacks b'.' payload
    → Lacks b'.' sign
    → NoSpace header
    → NoSpace payload
    → NoSpace sign
    → parse_bearer_exp decode exp_claim (p ++ (header ++ b'.' ∷ (payload ++ b'.' ∷ sign)))
      ≡ parse_payload decode exp_claim (decode payload)
unfolding parse_bearer_exp is_space
parse_bearer_exp_jwt decode exp_claim p header payload sign h lh lp ls nh np ns =
    rw
      (
        strip_scheme-append p (header ++ b'.' ∷ (payload ++ b'.' ∷ sign)) h,
        trim_space_of_NoSpace _ (
            NoSpace-append header (b'.' ∷ (payload ++ b'.' ∷ sign)) nh
              (refl, NoSpace-append payload (b'.' ∷ sign) np (refl, ns))),
        split-cons_lem b'.' header _ lh,
        split-cons_lem b'.' payload sign lp,
        split_of_Lacks b'.' sign ls,
      )
      refl
