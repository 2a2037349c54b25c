-- ===== src/Prelude/Keyed.antt =====
-- Go's maps and sets keyed by strings, as lists whose order only the model sees.
use Prim.Native.String.{String}
use mathlib.Core.Path.{◌≡◌, refl}
use mathlib.Core.Logic.{◌⊎◌, inl, inr, ◌≢◌}
use mathlib.Core.Bool.{Bool, true, false, ◌||◌, not, ◌&&◌}
use mathlib.Core.Option.{Option, none, some}
use mathlib.Core.List.{List, [], ◌∷◌}
use native.Mathlib.Omega.{arith}
use llm_bridge_server.Prelude.Tests.{if◌then◌else◌}
use llm_bridge_server.Prelude.Equality.{◌=s◌, string_discrete}

module _ {ℓ} {V : Type ℓ} where
  -- `v, ok := m[k]`
  unfoldable pub lookup : String → List (String × V) → Option V
  lookup k [] = none
  lookup k ((j, v) ∷ m) = if j =s k then some v else lookup k m

  -- `m[k] = v`
  unfoldable pub insert : String → V → List (String × V) → List (String × V)
  insert k v [] = (k, v) ∷ []
  insert k v ((j, w) ∷ m) = if j =s k then (k, v) ∷ m else (j, w) ∷ insert k v m

  -- `delete(m, k)`
  unfoldable pub delete : String → List (String × V) → List (String × V)
  delete k [] = []
  delete k ((j, v) ∷ m) = let rest = delete k m in if j =s k then rest else (j, v) ∷ rest

  unfoldable pub keys : List (String × V) → List String
  keys [] = []
  keys ((k, v) ∷ m) = k ∷ keys m

  pub lookup-insert :
      (k j : String) (v : V) (m : List (String × V))
      → lookup j (insert k v m) ≡ (if k =s j then some v else lookup j m)
  unfolding lookup insert
  lookup-insert k j v [] = refl
  lookup-insert k j v ((i, w) ∷ m) = ground (arith, lookup-insert k j v m)

  pub lookup-delete :
      (k j : String) (m : List (String × V))
      → lookup j (delete k m) ≡ (if k =s j then none else lookup j m)
  unfolding lookup delete
  lookup-delete k j [] = ground arith
  lookup-delete k j ((i, w) ∷ m) = ground (arith, lookup-delete k j m)

-- A set of strings: Go's `map[string]struct{}`.
unfoldable pub contains : String → List String → Bool
contains k [] = false
contains k (j ∷ s) = (j =s k) || contains k s

unfoldable pub include : String → List String → List String
include k [] = k ∷ []
include k (j ∷ s) = if j =s k then j ∷ s else j ∷ include k s

unfoldable pub exclude : String → List String → List String
exclude k [] = []
exclude k (j ∷ s) = let rest = exclude k s in if j =s k then rest else j ∷ rest

pub contains-include :
    (k j : String) (s : List String) → contains j (include k s) ≡ ((k =s j) || contains j s)
unfolding contains include
contains-include k j [] = refl
contains-include k j (i ∷ s) = ground (arith, contains-include k j s)

pub contains-exclude :
    (k j : String) (s : List String) → contains j (exclude k s) ≡ (not (k =s j) && contains j s)
unfolding contains exclude
contains-exclude k j [] = ground arith
contains-exclude k j (i ∷ s) = ground (arith, contains-exclude k j s)

module _ {ℓ} {V : Type ℓ} where
  -- A key is in the map exactly when it is among the keys.
  pub contains-keys :
      (k : String) (m : List (String × V))
      → contains k (keys m) ≡ (if contains k (keys m) then true else false)
  contains-keys k m = ground arith

module _ {ℓ} {V : Type ℓ} where
  -- What a key finds after an insertion, by whether it is the key inserted.
  pub insert-cases :
      (k j : String) (v w : V) (m : List (String × V))
      → lookup j (insert k v m) ≡ some w
      → ((k ≡ j) × (v ≡ w)) ⊎ ((k ≢ j) × (lookup j m ≡ some w))
  insert-cases k j v w m h = elim (string_discrete k j) [
    | yes p ↦ inl (p, ground (arith, lookup-insert k j v m))
    | no n ↦ inr (n, ground (arith, lookup-insert k j v m))
  ]

  pub lookup-insert_self :
      (k : String) (v : V) (m : List (String × V)) → lookup k (insert k v m) ≡ some v
  lookup-insert_self k v m = ground (arith, lookup-insert k k v m)

  pub lookup-insert_ne :
      (k j : String) (v : V) (m : List (String × V)) → k ≢ j → lookup j (insert k v m) ≡ lookup j m
  lookup-insert_ne k j v m n = ground (arith, lookup-insert k j v m)

module _ {ℓ} {V : Type ℓ} where
  pub insert-none :
      (k j : String) (v : V) (m : List (String × V))
      → lookup j (insert k v m) ≡ none
      → (k ≢ j) × (lookup j m ≡ none)
  insert-none k j v m h = elim (string_discrete k j) [
    | yes p ↦ absurd (ground (arith, lookup-insert k j v m))
    | no n ↦ (n, ground (arith, lookup-insert k j v m))
  ]
