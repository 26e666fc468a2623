-- ===== src/World/Program.antt =====
-- Go functions that return `(A, error)` and have effects. What was done before an error stays done.
use confluo.Prelude.{String, Bool, List, [], ◌∷◌, if◌then◌else◌}
use confluo.Fault.{Arg, Result, ok, err, wrapf}
use confluo.World.Events.{Services, World}

abbrev pub Go {ℓ} : Type ℓ → Type ℓ
Go A = Services → World → Result A × World

module _ {ℓ} {A : Type ℓ} where
  abbrev pub pure : A → Go A
  pure a env w = (ok a, w)

  abbrev pub lift : Result A → Go A
  lift r env w = (r, w)

  -- A value that the parameters determine.
  abbrev pub asks : (Services → Result A) → Go A
  asks f env w = (f env, w)

  -- `fmt.Errorf("...: %w", err)` round the error of a call.
  abbrev pub wrap_result : String → List Arg → Result A → Result A
  wrap_result s args (ok a) = ok a
  wrap_result s args (err e) = err (wrapf s args e)

  abbrev pub wrap_with : String → List Arg → Go A → Go A
  wrap_with s args m env w = let (r, w') = m env w in (wrap_result s args r, w')

  abbrev pub wrap : String → Go A → Go A
  wrap s m = wrap_with s [] m

  -- The pair `(A, error)` as a value: the caller looks at the error itself.
  abbrev pub attempt : Go A → Go (Result A)
  attempt m env w = let (r, w') = m env w in (ok r, w')

infixl 5 ◌>>=◌ ◌>>◌
abbrev pub ◌>>=◌ {ℓ κ} : {A : Type ℓ} {B : Type κ} → Go A → (A → Go B) → Go B
◌>>=◌ m f env w = let (r, w') = m env w in elim r [ ok a ↦ f a env w' | err e ↦ (err e, w') ]

-- The error of the first call is returned, its value dropped.
abbrev pub ◌>>◌ {ℓ κ} : {A : Type ℓ} {B : Type κ} → Go A → Go B → Go B
m >> k = m >>= λ _. k

-- `_ = f()`: the error is dropped.
abbrev pub best_effort {ℓ} : {A : Type ℓ} → Go A → Go (Unit {0})
best_effort m env w = let (r, w') = m env w in (ok tt, w')

-- `if c { f() }`
abbrev pub when : Bool → Go (Unit {0}) → Go (Unit {0})
when c m env w = if c then m env w else (ok tt, w)

-- What a `select` over a ticker and `ctx.Done()` meets, one time after the other.
pub data Tick : Type 0 where
  fires cancels : Tick

-- The `for` loop round such a `select`; the error of the body is dropped.
unfoldable pub ticker : Go (Unit {0}) → List Tick → Go (Unit {0})
ticker body [] = pure tt
ticker body (fires ∷ ts) = best_effort body >> ticker body ts
ticker body (cancels ∷ ts) = pure tt
