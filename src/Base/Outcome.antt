-- ===== src/Base/Outcome.antt =====
-- Go errors as values, and the results of fallible functions.
-- An error keeps the constant part of its message; the values that `%q`, `%d` or `%v` print into it
-- are left out. `wrap` is `fmt.Errorf` with `%w`.
use Prim.Native.Nat.{ℕ}
use mathlib.Core.Path.{◌≡◌, refl}
use Prim.Native.String.{String}
use mathlib.Core.Option.{Option, none, some}
use mathlib.Core.Bool.{Bool, true, false}

-- The gRPC codes that the servers answer with.
pub data StatusCode : Type 0 where
  unauthenticated internal : StatusCode

pub data Error : Type 0 where
  msg : String → Error  -- errors.New, or fmt.Errorf with nothing wrapped
  wrap : String → Error → Error
  code : ℕ → Error  -- a pkcs11.Error, which is a number
  status : StatusCode → String → Error  -- status.Errorf of gRPC, which wraps nothing
  foreign : ℕ → Error  -- an error of a library, told apart by a number

-- errors.As(err, &e) for e of type pkcs11.Error: the first code on the chain of wrapped errors.
abbrev pub as_code : Error → Option ℕ
as_code (msg s) = none
as_code (wrap s e) = as_code e
as_code (code c) = some c
as_code (status c s) = none
as_code (foreign n) = none

pub data Result {ℓ} (A : Type ℓ) : Type ℓ where
  ok : A → Result A
  err : Error → Result A

infixl 5 ◌>>=◌
abbrev pub ◌>>=◌ {ℓ κ} : {A : Type ℓ} {B : Type κ} → Result A → (A → Result B) → Result B
ok a >>= f = f a
err e >>= f = err e

abbrev pub map_err {ℓ} : {A : Type ℓ} → (Error → Error) → Result A → Result A
map_err f (ok a) = ok a
map_err f (err e) = err (f e)

abbrev pub is_ok {ℓ} : {A : Type ℓ} → Result A → Bool
is_ok (ok a) = true
is_ok (err e) = false

-- A method of an object whose state, with the world around it, is `W`.
abbrev pub Act : Type 0 → Type 0 → Type 0
Act W A = W → Result A × W

abbrev pub map_ok {ℓ κ} : {A : Type ℓ} {B : Type κ} → (A → B) → Result A → Result B
map_ok f (ok a) = ok (f a)
map_ok f (err e) = err e

-- What follows a method: with its value, or with its error.
abbrev pub branch {ℓ} :
    {A S : Type 0} {C : Type ℓ} → Result A × S → (A → S → C) → (Error → S → C) → C
branch (ok a, s) f g = f a s
branch (err e, s) f g = g e s

pub branch_cases {ℓ κ} :
    {A S : Type 0} {C : Type ℓ} (P : C → Type κ) (r : Result A × S) (f : A → S → C)
    (g : Error → S → C)
    → ((a : A) → r.0 ≡ ok a → P (f a r.1))
    → ((e : Error) → r.0 ≡ err e → P (g e r.1))
    → P (branch r f g)
branch_cases P (ok a, s) f g on_ok on_err = on_ok a refl
branch_cases P (err e, s) f g on_ok on_err = on_err e refl
