-- ===== src/Operations/Keys.antt =====
-- The row that findByIdempotencyKey of internal/operationstore/store.go finds, as rows are written.
use mathlib.Core.Logic.{◌⊎◌}
use llm_bridge_server.Prelude.{
  ◌≡◌, refl, ◌∙◌, sym, ap, String, true, false, List, [], ◌∷◌, none, some, lookup, insert, inl, inr,
  arith, Bool-cases, ◌=s◌, =s_refl,
}
use llm_bridge_server.Operations.Types.{OperationKey, same_key, Row, Database}
use llm_bridge_server.Operations.Store.{find_key}

-- The row that a key finds, by its fingerprint and its operation's id.
pub record Finds (key : OperationKey) (fingerprint id : String) (db : Database) : Type 0 where
  pub row : Row
  pub found : find_key key db.rows ≡ some row
  pub same_fingerprint : row.intent_fingerprint ≡ fingerprint
  pub named : row.operation.receipt.identity.id ≡ id

-- Writing a row that keeps its key does not change which id a key finds.
pub find_key-insert :
    (key : OperationKey) (j : String) (old new r : Row) (rows : List (String × Row))
    → lookup j rows ≡ some old
    → new.key ≡ old.key
    → find_key key rows ≡ some r
    → (find_key key (insert j new rows) ≡ some r)
      ⊎ ((find_key key (insert j new rows) ≡ some new) × (r ≡ old))
unfolding find_key insert lookup
find_key-insert key j old new r [] h k f = absurd (cc h)
find_key-insert key j old new r ((i, s) ∷ rows) h k f = elim (Bool-cases (i =s j)) [
  | inl b ↦
      let same : s ≡ old = ground (arith, h) in
      elim (Bool-cases (same_key s.key key)) [
        | inl e ↦
            let matches : same_key new.key key ≡ true =
              ap (λ x. same_key x key) (k ∙ ap (λ (x : Row). x.key) (sym same)) ∙ e in
            let first : s ≡ r = cc (rw (find_key, e) at f) in
            inr (rw (insert, b, find_key, matches) refl, sym first ∙ same)
        | inr e ↦
            let differs : same_key new.key key ≡ false =
              ap (λ x. same_key x key) (k ∙ ap (λ (x : Row). x.key) (sym same)) ∙ e in
            inl (rw (insert, b, find_key, differs) (rw (find_key, e) at f))
      ]
  | inr b ↦ elim (Bool-cases (same_key s.key key)) [
    | inl e ↦ inl (rw (insert, b, find_key, e) (rw (find_key, e) at f))
    | inr e ↦
        elim (find_key-insert key j old new r rows (ground (arith, h)) k (rw (find_key, e) at f)) [
          | inl x ↦ inl (rw (insert, b, find_key, e) x)
          | inr (x, y) ↦ inr (rw (insert, b, find_key, e) x, y)
        ]
  ]
]

-- A new row stands behind the others.
pub find_key-append :
    (key : OperationKey) (j : String) (new r : Row) (rows : List (String × Row))
    → lookup j rows ≡ none
    → find_key key rows ≡ some r
    → find_key key (insert j new rows) ≡ some r
unfolding find_key insert lookup
find_key-append key j new r [] h f = absurd (cc f)
find_key-append key j new r ((i, s) ∷ rows) h f = elim (Bool-cases (i =s j)) [
  | inl b ↦ absurd (cc (rw (lookup, b) at h))
  | inr b ↦ elim (Bool-cases (same_key s.key key)) [
    | inl e ↦ rw (insert, b, find_key, e) (rw (find_key, e) at f)
    | inr e ↦
        rw (insert, b, find_key, e)
          (find_key-append key j new r rows (rw (lookup, b) at h) (rw (find_key, e) at f))
  ]
]

pub find_key-new :
    (key : OperationKey) (j : String) (new : Row) (rows : List (String × Row))
    → lookup j rows ≡ none
    → find_key key rows ≡ none
    → same_key new.key key ≡ true
    → find_key key (insert j new rows) ≡ some new
unfolding find_key insert lookup
find_key-new key j new [] h f m = rw (find_key, m) refl
find_key-new key j new ((i, s) ∷ rows) h f m = elim (Bool-cases (i =s j)) [
  | inl b ↦ absurd (cc (rw (lookup, b) at h))
  | inr b ↦ elim (Bool-cases (same_key s.key key)) [
    | inl e ↦ absurd (cc (rw (find_key, e) at f))
    | inr e ↦
        rw (insert, b, find_key, e)
          (find_key-new key j new rows (rw (lookup, b) at h) (rw (find_key, e) at f) m)
  ]
]

pub same_key_refl : (k : OperationKey) → same_key k k ≡ true
same_key_refl k =
    rw
      (
        =s_refl k.principal_id,
        =s_refl k.organization_id,
        =s_refl k.operation_type,
        =s_refl k.idempotency_key,
      )
      refl
