-- ===== src/Operations/Store/Update.antt =====
-- Update of internal/operationstore/store.go, with the changes that it applies.
use llm_bridge_server.Prelude.{
  ℕ, suc, String, Bool, ◌||◌, ◌==◌, List, Option, none, some, lookup, if◌then◌else◌, Result, ◌>>=◌,
  or_else,
}
use llm_bridge_server.Operations.Types.{
  OperationState, ◌=os◌, EventKind, OperationApi, Receipt, Operation, Event, Database, StoreError,
}
use llm_bridge_server.Operations.Store.Rows.{write_receipt_change}

-- Change: one mutation of an operation, with the kind of its event.
abbrev pub Change : Type 0
Change = Operation → Result StoreError (Operation × EventKind)

-- A change that ends or queues the operation releases its lease and retires the token.
unfoldable pub released : OperationApi → Operation → Operation
released api o =
    if api.is_terminal o.receipt.state || o.receipt.state =os OperationState.queued
    then record o { lease_owner = ""; lease_expires_at = 0; lease_token = suc o.lease_token }
    else o

unfoldable pub completed : OperationApi → ℕ → Operation → Operation
completed api now o = elim (o.receipt.completed_at) [
  | some t ↦ o
  | none ↦
      if api.is_terminal o.receipt.state
      then record o { receipt = record (o.receipt) { completed_at = some now } }
      else o
]

-- The guards of update, on a row; `none` is AnyLeaseToken.
unfoldable pub guarded : OperationApi → Option ℕ → Operation → Result StoreError Operation
guarded api token o =
    if api.is_terminal o.receipt.state then Result.err StoreError.terminal else elim token [
      | none ↦ Result.ok o
      | some t ↦ if o.lease_token == t then Result.ok o else Result.err StoreError.lease_lost
    ]

abbrev pub known : OperationApi → Operation → Result StoreError Operation
known api o =
    if api.is_known o.receipt.state then Result.ok o else Result.err StoreError.unknown_state

-- update, with what its caller writes in the same transaction.
unfoldable pub update_also :
    OperationApi
    → (String → String → Bool)
    → String
    → Option ℕ
    → ℕ
    → Change
    → (Operation → Database → Result StoreError Database)
    → Database
    → Result StoreError (Database × Receipt × List Event)
unfolding guarded released completed write_receipt_change
update_also api id_before id token now change also_write db = do
  row ← or_else (lookup id db.rows) StoreError.not_found
  held ← guarded api token row.operation
  changed ← change held
  valid ← known api changed.0
  let o = completed api now (released api valid)
  also ← also_write o db
  done ← write_receipt_change id_before o changed.1 now also
  Result.ok (done.0, done.2.receipt, done.1)

-- Update
unfoldable pub update :
    OperationApi
    → (String → String → Bool)
    → String
    → Option ℕ
    → ℕ
    → Change
    → Database
    → Result StoreError (Database × Receipt × List Event)
unfolding update_also
update api id_before id token now change db =
    update_also api id_before id token now change (λ o d. Result.ok d) db
