-- ===== src/Prelude/Equality.antt =====
-- Equality tests of the keys and tags that the code compares by `==`.
use Prim.Native.String.{String}
use mathlib.Core.Path.{◌≡◌, refl}
use mathlib.Core.Logic.{◌↔◌}
use mathlib.Core.Bool.{Bool, true, false}
use text.Mathlib.Text.{◌==◌ as str_eq}
use text.Mathlib.TextEquality.{eq_iff}
use native.Mathlib.Omega.{arith}

decide_string : (a b : String) (t : Bool) → ((t ≡ true) ↔ (a ≡ b)) → Dec (a ≡ b)
decide_string a b true h = yes (h.0 refl)
decide_string a b false h = no (λ e. cc (h.1 e))

unfoldable pub string_discrete : Discrete String
unfolding decide_string
string_discrete a b = decide_string a b (str_eq a b) (eq_iff a b)

abbrev pub is_yes {ℓ} : {P : Type ℓ} → Dec P → Bool
is_yes (yes p) = true
is_yes (no n) = false

infix 50 ◌=s◌
abbrev pub ◌=s◌ : String → String → Bool
a =s b = is_yes (string_discrete a b)

abbrev pub is_empty : String → Bool
is_empty s = s =s ""

-- The test decides the equation.
pub =s_refl : (s : String) → (s =s s) ≡ true
=s_refl s = ground arith
