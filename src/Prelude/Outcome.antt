-- ===== src/Prelude/Outcome.antt =====
-- A call that returns a value and an error: the value counts only where the error is nil.
use mathlib.Core.Path.{◌≡◌, refl}
use mathlib.Core.Bool.{Bool, true, false}
use mathlib.Core.Option.{Option, none, some}
use native.Mathlib.Omega.{arith}

module _ {ℓ} (E : Type ℓ) where
  pub data Outcome (A : Type ℓ) : Type ℓ where
    ok : A → Outcome A
    err : E → Outcome A

module _ {ℓ} {E A B : Type ℓ} where
  infixl 5 ◌>>=◌ ◌>>◌
  abbrev pub ◌>>=◌ : Outcome E A → (A → Outcome E B) → Outcome E B
  ok a >>= f = f a
  err e >>= f = err e

  abbrev pub ◌>>◌ : Outcome E A → Outcome E B → Outcome E B
  m >> k = m >>= λ _. k

  -- A chain that returns has a first part that returned.
  pub >>=-ok :
      (m : Outcome E A) (f : A → Outcome E B) (b : B)
      → m >>= f ≡ ok b
      → (a : A) × (m ≡ ok a) × (f a ≡ ok b)
  >>=-ok (ok a) f b h = (a, refl, h)
  >>=-ok (err e) f b h = ground arith

module _ {ℓ} {E A : Type ℓ} where
  pub ok-injective : (a b : A) → ◌≡◌ {A = Outcome E A} (ok a) (ok b) → a ≡ b
  ok-injective a b h = ground arith

-- The two early returns: of a test that does not hold, and of a value that is not there.
module _ {E : Type 0} where
  abbrev pub require : Bool → E → Outcome E (Unit {0})
  require true e = ok tt
  require false e = err e

  abbrev pub expect : {A : Type 0} → Option A → E → Outcome E A
  expect none e = err e
  expect (some a) e = ok a

  pub require-ok : (b : Bool) (e : E) (u : Unit {0}) → require b e ≡ ok u → b ≡ true
  require-ok true e u h = refl
  require-ok false e u h = ground arith

  pub expect-ok : {A : Type 0} (o : Option A) (e : E) (a : A) → expect o e ≡ ok a → o ≡ some a
  expect-ok none e a h = ground arith
  expect-ok (some b) e a h = ground arith
