-- ===== src/Prelude/Returns.antt =====
-- Total correctness of a chain of steps: it is defined, and a property holds of its result.
use class_example.Prelude.Tests.{◌>>=◌}
use mathlib.Core.Path.{◌≡◌, refl, subst}
use mathlib.Core.Option.{Option, some}

pub data Returns {A : Type 0} (P : A → Type 0) : Option A → Type 0 where
  returns : {a : A} → P a → Returns P (some a)

module _ {A : Type 0} {P : A → Type 0} where
  pub Returns-bind :
      {B : Type 0} {Q : B → Type 0} {o : Option A} {f : A → Option B}
      → Returns P o
      → ((a : A) → P a → Returns Q (f a))
      → Returns Q (o >>= f)
  Returns-bind (returns p) next = next _ p

  pub Returns-mono :
      {Q : A → Type 0} {o : Option A} → Returns P o → ((a : A) → P a → Q a) → Returns Q o
  Returns-mono (returns p) weaken = returns (weaken _ p)

  pub Returns-result : {o : Option A} → Returns P o → (a : A) × (o ≡ some a) × P a
  Returns-result (returns {a} p) = (a, refl, p)

  Returns-holds : {a : A} → Returns P (some a) → P a
  Returns-holds (returns p) = p

  pub Returns-some : {o : Option A} {a : A} → Returns P o → o ≡ some a → P a
  Returns-some r e = Returns-holds (subst (Returns P) e r)

pub Returns-both :
    {A : Type 0} {P Q : A → Type 0} {o : Option A}
    → Returns P o
    → Returns Q o
    → Returns (λ a. P a × Q a) o
Returns-both (returns p) q = returns (p, Returns-holds q)
