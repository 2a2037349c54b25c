-- ===== src/Operations/Moves.antt =====
-- What one write of internal/operationstore/store.go does to the tables: a change of one row with its
-- event, a new row with its event, a renewed lease, or a write beside both tables.
use mathlib.Core.Path.{subst}
use llm_bridge_server.Prelude.{
  string_discrete, insert-cases, lookup-insert_ne, ℕ, suc, ◌≡◌, refl, ◌∙◌, sym, ap, String, Bool,
  true, false, List, [], ◌∷◌, ◌++◌, Option, none, some, lookup, insert, lookup-insert, ◌=s◌,
  if◌then◌else◌, Result, inl, inr, arith,
}
use llm_bridge_server.Operations.Types.{
  OperationState, EventKind, OperationApi, Identity, Intent, Operation, Row, Database,
}
use llm_bridge_server.Operations.Store.{
  event_of, set_row, recounted, stamped, new_row, claimed, Change, released, completed, guarded,
}

-- How the operation of one row changes.
pub data Turn (api : OperationApi) (Allowed : Operation → Operation → Type 0) (old new : Operation)
    : Type 0 where
  claims :
      (owner : String) (duration now : ℕ)
      → old.receipt.state ≡ OperationState.queued
      → new ≡ stamped now (claimed owner duration now old)
      → Turn api Allowed old new
  updates :
      (token : Option ℕ) (change : Change) (o : Operation) (kind : EventKind) (now : ℕ)
      → guarded api token old ≡ Result.ok old
      → Allowed old o
      → change old ≡ Result.ok (o, kind)
      → api.is_known o.receipt.state ≡ true
      → new ≡ stamped now (completed api now (released api o))
      → Turn api Allowed old new
  recounts :
      (id_before : String → String → Bool) (children : List Row) (now : ℕ)
      → new ≡ record old { receipt = recounted id_before children now old.receipt }
      → Turn api Allowed old new

-- A lookup after the change of one row.
pub lookup-set_row :
    (id j : String) (change : Row → Row) (r : Row) (rows : List (String × Row))
    → lookup id rows ≡ some r
    → lookup j (set_row id change rows) ≡ (if id =s j then some (change r) else lookup j rows)
unfolding set_row
lookup-set_row id j change r rows h = rw (h, set_row) (lookup-insert id j (change r) rows)

-- The row and its event after a change, which keeps the identity.
pub record Saves (api : OperationApi) (Allowed : Operation → Operation → Type 0) (db db' : Database)
    : Type 0 where
  pub id : String
  pub old : Row
  pub state : OperationState
  pub operation : Operation
  pub kind : EventKind
  pub child : String
  pub now : ℕ
  pub was : lookup id db.rows ≡ some old
  pub turn : Turn api Allowed old.operation operation
  pub kept : operation.receipt.identity ≡ old.operation.receipt.identity
  pub next : operation.receipt.revision ≡ suc old.operation.receipt.revision
  pub tracked : old.state ≡ old.operation.receipt.state → state ≡ operation.receipt.state
  pub rows : db'.rows ≡ insert id (record old { state = state; operation = operation }) db.rows
  pub events : db'.events ≡ db.events ++ event_of operation.receipt kind child now ∷ []

pub record Inserts (db db' : Database) : Type 0 where
  pub id : String
  pub intent : Intent
  pub fingerprint : String
  pub root : String
  pub now : ℕ
  pub absent : lookup id db.rows ≡ none
  pub rows : db'.rows ≡ insert id (new_row id intent fingerprint root now) db.rows
  pub events :
      db'.events
      ≡ db.events
        ++ event_of
            (new_row id intent fingerprint root now).operation.receipt
            EventKind.accepted
            ""
            now
          ∷ []

pub record Renews (db db' : Database) : Type 0 where
  pub id : String
  pub old : Row
  pub expires_at : ℕ
  pub was : lookup id db.rows ≡ some old
  pub rows :
      db'.rows
      ≡ insert id
          (record old { operation = record (old.operation) { lease_expires_at = expires_at } })
          db.rows
  pub events : db'.events ≡ db.events

-- The moves of a call, one after the other.
pub data Moves (api : OperationApi) (Allowed : Operation → Operation → Type 0) (db : Database)
    : Database → Type 0 where
  here : Moves api Allowed db db
  saves :
      {d d' : Database} → Moves api Allowed db d → Saves api Allowed d d' → Moves api Allowed db d'
  inserts : {d d' : Database} → Moves api Allowed db d → Inserts d d' → Moves api Allowed db d'
  renews : {d d' : Database} → Moves api Allowed db d → Renews d d' → Moves api Allowed db d'
  beside :
      {d d' : Database}
      → Moves api Allowed db d
      → d'.rows ≡ d.rows
      → d'.events ≡ d.events
      → Moves api Allowed db d'

-- Each row is keyed by the id of its receipt, and its columns say what its receipt does.
pub record IsNamed (id : String) (r : Row) : Type 0 where
  pub named : r.operation.receipt.identity.id ≡ id
  pub column : r.id ≡ id
  pub parent : r.parent_operation_id ≡ r.operation.receipt.identity.parent_operation_id
  pub state : r.state ≡ r.operation.receipt.state

-- No id has two rows.
abbrev pub IsKeyed : List (String × Row) → Type 0
IsKeyed [] = Unit {0}
IsKeyed ((k, r) ∷ rows) = (lookup k rows ≡ none) × IsKeyed rows

pub record IsSound (db : Database) : Type 0 where
  pub keyed : IsKeyed db.rows
  pub all_named : (id : String) (r : Row) → lookup id db.rows ≡ some r → IsNamed id r

pub insert-IsKeyed :
    (id : String) (r : Row) (rows : List (String × Row)) → IsKeyed rows → IsKeyed (insert id r rows)
unfolding insert lookup
insert-IsKeyed id r [] h = (refl, tt)
insert-IsKeyed id r ((k, s) ∷ rows) h = elim (string_discrete k id) [
  | yes p ↦
      let here : (k =s id) ≡ true = ground arith in
      rw here (subst (λ j. lookup j rows ≡ none) p h.0, h.1)
  | no n ↦
      let there : (k =s id) ≡ false = ground arith in
      rw there (lookup-insert_ne id k r rows (λ e. n (sym e)) ∙ h.0, insert-IsKeyed id r rows h.1)
]

pub insert-IsNamed :
    (id : String) (r : Row) (rows : List (String × Row))
    → ((j : String) (s : Row) → lookup j rows ≡ some s → IsNamed j s)
    → IsNamed id r
    → (j : String) (s : Row) → lookup j (insert id r rows) ≡ some s
    → IsNamed j s
insert-IsNamed id r rows h named j s e = elim (insert-cases id j r s rows e) [
  | inl (p, q) ↦ subst (λ k. IsNamed k s) p (subst (IsNamed id) q named)
  | inr (n, f) ↦ h j s f
]

module _ (api : OperationApi) (Allowed : Operation → Operation → Type 0) where
  pub Saves-IsSound : {db db' : Database} → Saves api Allowed db db' → IsSound db → IsSound db'
  Saves-IsSound {db} {db'} m h =
      let before = h.all_named m.id m.old m.was in
      let new : Row = record (m.old) { state = m.state; operation = m.operation } in
      let named : IsNamed m.id new = record {
        named = ap (λ (i : Identity). i.id) m.kept ∙ before.named;
        column = before.column;
        parent = before.parent ∙ sym (ap (λ (i : Identity). i.parent_operation_id) m.kept);
        state = m.tracked before.state;
      } in
      record {
        keyed = subst IsKeyed (sym m.rows) (insert-IsKeyed m.id new db.rows h.keyed);
        all_named = λ j s e.
            insert-IsNamed m.id new db.rows h.all_named named j s (ap (lookup j) (sym m.rows) ∙ e);
      }

  pub Moves-IsSound : {db db' : Database} → Moves api Allowed db db' → IsSound db → IsSound db'
  Moves-IsSound here h = h
  Moves-IsSound (saves t m) h = Saves-IsSound m (Moves-IsSound t h)
  Moves-IsSound (inserts {d} {d'} t m) h =
      let k = Moves-IsSound t h in
      let new = new_row m.id m.intent m.fingerprint m.root m.now in
      let named : IsNamed m.id new = record {
        named = refl;
        column = refl;
        parent = refl;
        state = refl;
      } in
      record {
        keyed = subst IsKeyed (sym m.rows) (insert-IsKeyed m.id new d.rows k.keyed);
        all_named = λ j s e.
            insert-IsNamed m.id new d.rows k.all_named named j s (ap (lookup j) (sym m.rows) ∙ e);
      }
  Moves-IsSound (renews {d} {d'} t m) h =
      let k = Moves-IsSound t h in
      let before = k.all_named m.id m.old m.was in
      let new : Row = record (m.old) {
        operation = record (m.old.operation) { lease_expires_at = m.expires_at };
      } in
      let named : IsNamed m.id new = record {
        named = before.named;
        column = before.column;
        parent = before.parent;
        state = before.state;
      } in
      record {
        keyed = subst IsKeyed (sym m.rows) (insert-IsKeyed m.id new d.rows k.keyed);
        all_named = λ j s e.
            insert-IsNamed m.id new d.rows k.all_named named j s (ap (lookup j) (sym m.rows) ∙ e);
      }
  Moves-IsSound (beside t rows events) h =
      let k = Moves-IsSound t h in
      record {
        keyed = subst IsKeyed (sym rows) k.keyed;
        all_named = λ j s e. k.all_named j s (ap (lookup j) (sym rows) ∙ e);
      }

  pub Moves-trans :
      {a b c : Database} → Moves api Allowed a b → Moves api Allowed b c → Moves api Allowed a c
  Moves-trans t here = t
  Moves-trans t (saves u m) = saves (Moves-trans t u) m
  Moves-trans t (inserts u m) = inserts (Moves-trans t u) m
  Moves-trans t (renews u m) = renews (Moves-trans t u) m
  Moves-trans t (beside u rows events) = beside (Moves-trans t u) rows events
