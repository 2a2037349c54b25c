-- ===== src/Operations/SpendKept.antt =====
-- The writes of internal/operationstore/store.go leave the ledger of spend.go as it is.
use llm_bridge_server.Prelude.{
  ℕ, ◌≡◌, ◌∙◌, sym, ap, String, Bool, List, [], ◌∷◌, ◌++◌, lookup, Result, bind-ok, ok_injective,
  guard-ok, Option-cases, Bool-cases, inl, inr, is_empty,
}
use llm_bridge_server.Operations.Types.{
  EventKind, Receipt, Operation, Row, Event, Database, StoreError,
}
use llm_bridge_server.Operations.Store.{
  stamped, insert_event, has_event, event_of, set_row, write_operation, tell_parent, refresh_parent,
  recounted, rows_under, write_receipt_change,
}

insert_event_spend :
    (receipt : Receipt) (kind : EventKind) (child : String) (now : ℕ) (db : Database)
    (saved : Database × Event)
    → insert_event receipt kind child now db ≡ Result.ok saved
    → saved.0.spend ≡ db.spend
unfolding insert_event
insert_event_spend receipt kind child now db saved h =
    let e = event_of receipt kind child now in
    let (fresh, same) =
      guard-ok (has_event e.operation_id e.sequence db.events) StoreError.duplicate_event
        (record db { events = db.events ++ e ∷ [] }, e) h in
    ap (λ (p : Database × Event). p.0.spend) (sym same)

refresh_parent_spend :
    (id_before : String → String → Bool) (parent child : String) (now : ℕ) (db : Database)
    (told : Database × Event)
    → refresh_parent id_before parent child now db ≡ Result.ok told
    → told.0.spend ≡ db.spend
unfolding refresh_parent
refresh_parent_spend id_before parent child now db told h =
    elim (Option-cases (lookup parent db.rows)) [
      | inl e ↦ absurd (cc (rw (e, refresh_parent) at h))
      | inr (row, e) ↦
          let receipt = recounted id_before (rows_under parent db.rows) now row.operation.receipt in
          let put : Row → Row =
            λ r. record r { operation = record (row.operation) { receipt = receipt } } in
          insert_event_spend receipt EventKind.child_updated child now
            (record db { rows = set_row parent put db.rows }) told (rw (e, refresh_parent) at h)
    ]

tell_parent_spend :
    (id_before : String → String → Bool) (receipt : Receipt) (now : ℕ) (es : List Event)
    (db : Database) (told : Database × List Event)
    → tell_parent id_before receipt now es db ≡ Result.ok told
    → told.0.spend ≡ db.spend
unfolding tell_parent
tell_parent_spend id_before receipt now es db told h =
    elim (Bool-cases (is_empty receipt.identity.parent_operation_id)) [
      | inl b ↦
          ap (λ (p : Database × List Event). p.0.spend)
            (sym (ok_injective (rw (b, tell_parent) at h)))
      | inr b ↦
          let (one, e, k) =
            bind-ok
              (refresh_parent id_before receipt.identity.parent_operation_id receipt.identity.id now
                db)
              _ (rw (b, tell_parent) at h) in
          ap (λ (p : Database × List Event). p.0.spend) (sym (ok_injective k))
          ∙ refresh_parent_spend id_before receipt.identity.parent_operation_id receipt.identity.id
              now db one e
    ]

pub write_receipt_change_spend :
    (id_before : String → String → Bool) (o : Operation) (kind : EventKind) (now : ℕ)
    (db : Database) (done : Database × List Event × Operation)
    → write_receipt_change id_before o kind now db ≡ Result.ok done
    → done.0.spend ≡ db.spend
unfolding write_receipt_change
write_receipt_change_spend id_before o kind now db done h =
    let s = stamped now o in
    let put : Database = record db {
      rows = set_row o.receipt.identity.id (write_operation s) db.rows;
    } in
    let (saved, e, h₁) = bind-ok (insert_event s.receipt kind "" now put) _ h in
    let (told, f, h₂) = bind-ok (tell_parent id_before s.receipt now (saved.1 ∷ []) saved.0) _ h₁ in
    ap (λ (p : Database × List Event × Operation). p.0.spend) (sym (ok_injective h₂))
    ∙ tell_parent_spend id_before s.receipt now (saved.1 ∷ []) saved.0 told f
    ∙ insert_event_spend s.receipt kind "" now put saved e
