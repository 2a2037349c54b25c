-- ===== src/Prelude/Results.antt =====
-- A value, or the error in its place: Go's pair of a value and an error.
use mathlib.Core.Path.{◌≡◌, refl}
use mathlib.Core.Logic.{◌⊎◌, inl, inr}
use mathlib.Core.Option.{Option, none, some}
use mathlib.Core.Bool.{Bool, true, false}
use llm_bridge_server.Prelude.Tests.{if◌then◌else◌}

pub data Result {ℓ κ} (E : Type ℓ) (A : Type κ) : Type (ℓ ⊔ κ) where
  err : E → Result E A
  ok : A → Result E A

-- `if err != nil { return err }`
infixl 5 ◌>>=◌
abbrev pub ◌>>=◌ {ℓ κ μ} :
    {E : Type ℓ} {A : Type κ} {B : Type μ} → Result E A → (A → Result E B) → Result E B
Result.err e >>= k = Result.err e
Result.ok a >>= k = k a

-- A missing value as an error.
abbrev pub or_else {ℓ κ} : {E : Type ℓ} {A : Type κ} → Option A → E → Result E A
or_else none e = Result.err e
or_else (some a) e = Result.ok a

module _ {ℓ κ} {E : Type ℓ} {A : Type κ} where
  pub Result-cases :
      (r : Result E A) → ((e : E) × (r ≡ Result.err e)) ⊎ ((a : A) × (r ≡ Result.ok a))
  Result-cases (Result.err e) = inl (e, refl)
  Result-cases (Result.ok a) = inr (a, refl)

module _ {ℓ κ μ} {E : Type ℓ} {A : Type κ} {B : Type μ} where
  -- A chain that succeeds, at its first link.
  pub bind-ok :
      (r : Result E A) (k : A → Result E B) {b : B}
      → (r >>= k) ≡ Result.ok b
      → (a : A) × (r ≡ Result.ok a) × (k a ≡ Result.ok b)
  bind-ok (Result.err e) k h = absurd (cc h)
  bind-ok (Result.ok a) k h = (a, refl, h)

module _ {ℓ κ} {E : Type ℓ} {A : Type κ} where
  pub ok_injective : {a b : A} → ◌≡◌ {A = Result E A} (Result.ok a) (Result.ok b) → a ≡ b
  ok_injective h = cc h

  pub or_else-ok : (o : Option A) (e : E) {a : A} → or_else o e ≡ Result.ok a → o ≡ some a
  or_else-ok none e h = absurd (cc h)
  or_else-ok (some a) e h = cc h

  -- A guard that passes.
  pub guard-ok :
      (t : Bool) (e : E) (a : A) {b : A}
      → (if t then Result.err e else Result.ok a) ≡ Result.ok b
      → (t ≡ false) × (a ≡ b)
  guard-ok true e a h = absurd (cc h)
  guard-ok false e a h = (refl, cc h)

  pub pass-ok :
      (t : Bool) (e : E) (a : A) {b : A}
      → (if t then Result.ok a else Result.err e) ≡ Result.ok b
      → (t ≡ true) × (a ≡ b)
  pass-ok true e a h = (refl, cc h)
  pass-ok false e a h = absurd (cc h)
