-- ===== src/Operations/Writes.antt =====
-- The writes of internal/operationstore/store.go as moves: an event, a row, the parent.
use mathlib.Core.Path.{subst}
use llm_bridge_server.Prelude.{
  ℕ, suc, ◌≡◌, refl, ◌∙◌, ap, String, Bool, List, [], ◌∷◌, ◌++◌, some, lookup, insert,
  lookup-insert_self, is_empty, Result, Result-cases, Option-cases, Bool-cases, inl, inr,
}
use llm_bridge_server.Operations.Types.{
  EventKind, OperationApi, Identity, Receipt, Operation, Row, Event, Database,
}
use llm_bridge_server.Operations.Store.{
  insert_event, event_of, has_event, set_row, rows_under, recounted, refresh_parent, tell_parent,
  write_operation, stamped, write_receipt_change,
}
use llm_bridge_server.Operations.Moves.{Turn, recounts, Saves, Moves, here, saves, IsSound}

-- Where an event is written, it is the last.
pub insert_event_writes :
    (receipt : Receipt) (kind : EventKind) (child : String) (now : ℕ) (db d : Database) (e : Event)
    → insert_event receipt kind child now db ≡ Result.ok (d, e)
    → (d.rows ≡ db.rows) × (d.events ≡ db.events ++ event_of receipt kind child now ∷ [])
unfolding insert_event
insert_event_writes receipt kind child now db d e h =
    elim (Bool-cases (has_event receipt.identity.id receipt.revision db.events)) [
      | inl b ↦ absurd (cc (rw (b, insert_event) at h))
      | inr b ↦
          let after : Database = record db {
            events = db.events ++ event_of receipt kind child now ∷ [];
          } in
          let same : d ≡ after = cc (rw (b, insert_event) at h) in
          (ap (λ (p : Database). p.rows) same, ap (λ (p : Database). p.events) same)
    ]

pub set_row_inserts :
    (id : String) (change : Row → Row) (r : Row) (rows : List (String × Row))
    → lookup id rows ≡ some r
    → set_row id change rows ≡ insert id (change r) rows
unfolding set_row
set_row_inserts id change r rows h = rw (h, set_row) refl

-- A row written, and the moves before and after it.
pub record Lands (api : OperationApi) (Allowed : Operation → Operation → Type 0) (id : String)
    (o : Operation) (db d : Database) : Type 0 where
  pub middle : Database
  pub first : Moves api Allowed db middle
  pub row : Row
  pub landed : lookup id middle.rows ≡ some row
  pub written : row.operation ≡ o
  pub rest : Moves api Allowed middle d

module _ (api : OperationApi) (Allowed : Operation → Operation → Type 0)
    (id_before : String → String → Bool) where
  refresh_parent-Moves :
      (parent child : String) (now : ℕ) (db d : Database) (e : Event)
      → refresh_parent id_before parent child now db ≡ Result.ok (d, e)
      → Moves api Allowed db d
  unfolding refresh_parent recounted
  refresh_parent-Moves parent child now db d e h = elim (Option-cases (lookup parent db.rows)) [
    | inl p ↦ absurd (cc (rw (p, refresh_parent) at h))
    | inr (row, p) ↦
        let receipt = recounted id_before (rows_under parent db.rows) now row.operation.receipt in
        let o : Operation = record (row.operation) { receipt = receipt } in
        let (r, es) =
          insert_event_writes receipt EventKind.child_updated child now _ d e
            (rw (p, refresh_parent) at h) in
        saves here (record {
          id = parent;
          old = row;
          state = row.state;
          operation = o;
          kind = EventKind.child_updated;
          child = child;
          now = now;
          was = p;
          turn = recounts id_before (rows_under parent db.rows) now refl;
          kept = refl;
          next = refl;
          tracked = λ t. t;
          rows = r ∙ set_row_inserts parent (λ (s : Row). record s { operation = o }) row db.rows p;
          events = es;
        })
  ]

  pub tell_parent-Moves :
      (receipt : Receipt) (now : ℕ) (events : List Event) (db d : Database) (es : List Event)
      → tell_parent id_before receipt now events db ≡ Result.ok (d, es)
      → Moves api Allowed db d
  unfolding tell_parent
  tell_parent-Moves receipt now events db d es h =
      let parent = receipt.identity.parent_operation_id in
      elim (Bool-cases (is_empty parent)) [
        | inl b ↦
            let same : db ≡ d = cc (rw (b, tell_parent) at h) in
            subst (Moves api Allowed db) same here
        | inr b ↦ elim (Result-cases (refresh_parent id_before parent receipt.identity.id now db)) [
          | inl (error, p) ↦ absurd (cc (rw (b, p, tell_parent) at h))
          | inr (told, p) ↦
              let same : told.0 ≡ d = cc (rw (b, p, tell_parent) at h) in
              subst (Moves api Allowed db) same
                (refresh_parent-Moves parent receipt.identity.id now db told.0 told.1 p)
        ]
      ]

  pub write_receipt_change-Lands :
      (id : String) (row : Row) (o : Operation) (kind : EventKind) (now : ℕ) (db d : Database)
      (es : List Event) (written : Operation)
      → IsSound db
      → lookup id db.rows ≡ some row
      → o.receipt.identity ≡ row.operation.receipt.identity
      → o.receipt.revision ≡ row.operation.receipt.revision
      → Turn api Allowed row.operation (stamped now o)
      → write_receipt_change id_before o kind now db ≡ Result.ok (d, es, written)
      → Lands api Allowed id (stamped now o) db d × (written ≡ stamped now o)
  unfolding write_receipt_change
  write_receipt_change-Lands id row o kind now db d es written sound was kept same_revision turn h =
      let s = stamped now o in
      let key : o.receipt.identity.id ≡ id =
        ap (λ (i : Identity). i.id) kept ∙ (sound.all_named id row was).named in
      let put : Database = record db {
        rows = set_row o.receipt.identity.id (write_operation s) db.rows;
      } in
      elim (Result-cases (insert_event s.receipt kind "" now put)) [
        | inl (error, p) ↦ absurd (cc (rw (p, write_receipt_change) at h))
        | inr (saved, p) ↦
            elim (Result-cases (tell_parent id_before s.receipt now (saved.1 ∷ []) saved.0)) [
              | inl (error, q) ↦ absurd (cc (rw (p, q, write_receipt_change) at h))
              | inr (told, q) ↦
                  let (r, e) = insert_event_writes s.receipt kind "" now put saved.0 saved.1 p in
                  let same : told.0 ≡ d = cc (rw (p, q, write_receipt_change) at h) in
                  let same_written : written ≡ s = cc (rw (p, q, write_receipt_change) at h) in
                  let first : Saves api Allowed db saved.0 = record {
                    id = id;
                    old = row;
                    state = o.receipt.state;
                    operation = s;
                    kind = kind;
                    child = "";
                    now = now;
                    was = was;
                    turn = turn;
                    kept = kept;
                    next = ap suc same_revision;
                    tracked = λ t. refl;
                    rows =
                        r
                        ∙ ap (λ k. set_row k (write_operation s) db.rows) key
                        ∙ set_row_inserts id (write_operation s) row db.rows was;
                    events = e;
                  } in
                  let new : Row = record row { state = o.receipt.state; operation = s } in
                  (
                    record {
                      middle = saved.0;
                      first = saves here first;
                      row = new;
                      landed = ap (lookup id) first.rows ∙ lookup-insert_self id new db.rows;
                      written = refl;
                      rest =
                          subst (Moves api Allowed saved.0) same (
                            tell_parent-Moves s.receipt now (saved.1 ∷ []) saved.0 told.0 told.1 q);
                    },
                    same_written,
                  )
            ]
      ]
