-- ===== src/Operations/Store/Rows.antt =====
-- The tables of internal/operationstore/store.go as their rows are written: insertEvent,
-- refreshParentAfterChildChange and writeReceiptChange. SQLite's order of ids is a parameter.
use llm_bridge_server.Prelude.{
  ℕ, suc, String, Bool, false, ◌&&◌, ◌||◌, ◌==◌, ltb, List, [], ◌∷◌, ◌++◌, map, none, some, lookup,
  insert, length, is_empty, ◌=s◌, if◌then◌else◌, Result, ◌>>=◌,
}
use llm_bridge_server.Operations.Types.{
  OperationState, ◌=os◌, EventKind, ChildrenSummary, Receipt, Operation, Row, Event, Database,
  StoreError,
}

-- insertEvent. A second event of one sequence violates the primary key.
unfoldable pub has_event : String → ℕ → List Event → Bool
has_event id sequence [] = false
has_event id sequence (e ∷ es) =
    (e.operation_id =s id && e.sequence == sequence) || has_event id sequence es

abbrev pub event_of : Receipt → EventKind → String → ℕ → Event
event_of receipt kind child now = record {
  operation_id = receipt.identity.id;
  sequence = receipt.revision;
  kind = kind;
  child_operation_id = child;
  receipt = receipt;
  at_time = now;
}

unfoldable pub insert_event :
    Receipt → EventKind → String → ℕ → Database → Result StoreError (Database × Event)
unfolding has_event
insert_event receipt kind child now db =
    let e = event_of receipt kind child now in
    if has_event e.operation_id e.sequence db.events
    then Result.err StoreError.duplicate_event
    else Result.ok (record db { events = db.events ++ e ∷ [] }, e)

-- `UPDATE operations SET … WHERE id = ?`
unfoldable pub set_row : String → (Row → Row) → List (String × Row) → List (String × Row)
set_row id change rows = elim (lookup id rows) [ none ↦ rows | some r ↦ insert id (change r) rows ]

-- ORDER BY created_at, id
abbrev pub earlier : (String → String → Bool) → Row → Row → Bool
earlier id_before a b =
    ltb a.created_at b.created_at || (a.created_at == b.created_at && id_before a.id b.id)

unfoldable pub place : (String → String → Bool) → Row → List Row → List Row
place id_before r [] = r ∷ []
place id_before r (s ∷ rows) =
    if earlier id_before s r then s ∷ place id_before r rows else r ∷ s ∷ rows

unfoldable pub order : (String → String → Bool) → List Row → List Row
unfolding place
order id_before [] = []
order id_before (r ∷ rows) = place id_before r (order id_before rows)

-- WHERE parent_operation_id = ?
unfoldable pub rows_under : String → List (String × Row) → List Row
rows_under parent [] = []
rows_under parent ((k, r) ∷ rows) =
    let rest = rows_under parent rows in if r.parent_operation_id =s parent then r ∷ rest else rest

unfoldable pub count_state : OperationState → List Row → ℕ
count_state s [] = 0
count_state s (r ∷ rows) = let rest = count_state s rows in if r.state =os s then suc rest else rest

abbrev pub summary_of : List Row → ChildrenSummary
summary_of rows = record { total = length rows; by_state = λ s. count_state s rows }

-- The parent's receipt with its children counted again.
unfoldable pub recounted : (String → String → Bool) → List Row → ℕ → Receipt → Receipt
unfolding order
recounted id_before children now receipt = record receipt {
  child_operation_ids = map (λ (r : Row). r.id) (order id_before children);
  children = some (summary_of (order id_before children));
  revision = suc receipt.revision;
  updated_at = now;
}

-- refreshParentAfterChildChange
unfoldable pub refresh_parent :
    (String → String → Bool) → String → String → ℕ → Database → Result StoreError (Database × Event)
unfolding insert_event set_row recounted rows_under
refresh_parent id_before parent child now db = elim (lookup parent db.rows) [
  | none ↦ Result.err StoreError.no_parent
  | some row ↦
      let receipt = recounted id_before (rows_under parent db.rows) now row.operation.receipt in
      insert_event receipt EventKind.child_updated child now (record db {
        rows =
            set_row parent
              (λ r. record r { operation = record (row.operation) { receipt = receipt } }) db.rows;
      })
]

-- The parent's part of a change, where the operation has a parent.
unfoldable pub tell_parent :
    (String → String → Bool)
    → Receipt
    → ℕ
    → List Event
    → Database
    → Result StoreError (Database × List Event)
unfolding refresh_parent
tell_parent id_before receipt now events db =
    if is_empty receipt.identity.parent_operation_id then Result.ok (db, events) else (do
      told ←
          refresh_parent id_before receipt.identity.parent_operation_id receipt.identity.id now db
      Result.ok (told.0, events ++ told.1 ∷ []))

-- An operation as its row holds it.
abbrev pub write_operation : Operation → Row → Row
write_operation o r = record r { state = o.receipt.state; operation = o }

-- The receipt of a change: one revision on, at this time.
abbrev pub stamped : ℕ → Operation → Operation
stamped now o = record o {
  receipt = record (o.receipt) { revision = suc o.receipt.revision; updated_at = now };
}

-- writeReceiptChange
unfoldable pub write_receipt_change :
    (String → String → Bool)
    → Operation
    → EventKind
    → ℕ
    → Database
    → Result StoreError (Database × List Event × Operation)
unfolding insert_event set_row tell_parent
write_receipt_change id_before o kind now db =
    let written = stamped now o in
    let id = o.receipt.identity.id in
    do
      saved ←
          insert_event written.receipt kind "" now
            (record db { rows = set_row id (write_operation written) db.rows })
      told ← tell_parent id_before written.receipt now (saved.1 ∷ []) saved.0
      Result.ok (told.0, told.1, written)
