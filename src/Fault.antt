-- ===== src/Fault.antt =====
-- Go's `error` values and the pairs `(A, error)` that its functions return.
use confluo.Prelude.{ℕ, Text, String, ◌≡◌, refl, ◌⊎◌, inl, inr, Option, none, some, List}

-- What a format verb prints.
pub data Arg : Type 0 where
  text : Text → Arg
  int : ℕ → Arg
  texts : List Text → Arg

-- `fmt.Errorf(format, args...)`, the same with a last `%w`, and errors made outside the program,
-- which carry a code of their own.
pub data Error : Type 0 where
  errorf : String → List Arg → Error
  wrapf : String → List Arg → Error → Error
  external : ℕ → Error

pub data Result {ℓ} (A : Type ℓ) : Type ℓ where
  ok : A → Result A
  err : Error → Result A

-- `if err != nil { return ..., err }`
infixl 5 ◌>>=◌
abbrev pub ◌>>=◌ {ℓ κ} : {A : Type ℓ} {B : Type κ} → Result A → (A → Result B) → Result B
ok a >>= f = f a
err e >>= f = err e

-- A call that returns only an error.
abbrev pub from_error : Option Error → Result (Unit {0})
from_error none = ok tt
from_error (some e) = err e

pub Result-cases {ℓ} :
    {A : Type ℓ} (r : Result A) → ((a : A) × (r ≡ ok a)) ⊎ ((e : Error) × (r ≡ err e))
Result-cases (ok a) = inl (a, refl)
Result-cases (err e) = inr (e, refl)
