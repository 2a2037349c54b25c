-- ===== src/Operations/Store/Claim.antt =====
-- Claim, RenewLease and RunningNotHeldBy of internal/operationstore/store.go.
use llm_bridge_server.Prelude.{
  ℕ, suc, ◌+◌, String, Bool, false, not, ◌&&◌, ◌||◌, ◌==◌, ltb, List, [], ◌∷◌, map, Option, none,
  some, lookup, ◌=s◌, if◌then◌else◌, Result, ◌>>=◌,
}
use llm_bridge_server.Operations.Types.{
  OperationState, ◌=os◌, EventKind, Operation, Row, Event, Database, StoreError,
}
use llm_bridge_server.Operations.Store.Rows.{set_row, earlier, order, write_receipt_change}

-- Claim's query: the oldest queued row.
unfoldable pub oldest_queued : (String → String → Bool) → List (String × Row) → Option Row
oldest_queued id_before [] = none
oldest_queued id_before ((k, r) ∷ rows) =
    let rest = oldest_queued id_before rows in
    if r.state =os OperationState.queued
    then (elim rest [ none ↦ some r | some s ↦ if earlier id_before s r then some s else some r ])
    else rest

-- The operation as Claim hands it out.
abbrev pub claimed : String → ℕ → ℕ → Operation → Operation
claimed owner duration now o = record o {
  lease_owner = owner;
  lease_token = suc o.lease_token;
  lease_expires_at = now + duration;
  receipt = record (o.receipt) {
    state = OperationState.running;
    attempt = suc o.receipt.attempt;
    started_at = elim (o.receipt.started_at) [ none ↦ some now | some t ↦ some t ];
  };
}

-- Claim; no operation where nothing is queued.
unfoldable pub claim :
    (String → String → Bool)
    → String
    → ℕ
    → ℕ
    → Database
    → Result StoreError (Database × Option Operation × List Event)
unfolding oldest_queued write_receipt_change
claim id_before owner duration now db = elim (oldest_queued id_before db.rows) [
  | none ↦ Result.ok (db, none, [])
  | some r ↦ (do
    done ←
        write_receipt_change id_before (claimed owner duration now r.operation) EventKind.started
          now db
    Result.ok (done.0, some done.2, done.1))
]

-- RenewLease
unfoldable pub renew_lease : String → ℕ → ℕ → Database → Result StoreError Database
unfolding set_row
renew_lease id token expires_at db = elim (lookup id db.rows) [
  | none ↦ Result.err StoreError.lease_lost
  | some r ↦
      if r.operation.lease_token == token && r.state =os OperationState.running
      then Result.ok (record db {
        rows =
            set_row id
              (λ s. record s { operation = record (s.operation) { lease_expires_at = expires_at } })
              db.rows;
      })
      else Result.err StoreError.lease_lost
]

-- RunningNotHeldBy, ordered by created_at.
abbrev pub is_abandoned : String → ℕ → Row → Bool
is_abandoned owner now r =
    r.state =os OperationState.running
    && (not (r.operation.lease_owner =s owner) || ltb r.operation.lease_expires_at now)

unfoldable pub abandoned_rows : String → ℕ → List (String × Row) → List Row
abandoned_rows owner now [] = []
abandoned_rows owner now ((k, r) ∷ rows) =
    let rest = abandoned_rows owner now rows in if is_abandoned owner now r then r ∷ rest else rest

unfoldable pub running_not_held_by : String → ℕ → Database → List Operation
unfolding abandoned_rows order
running_not_held_by owner now db =
    map (λ (r : Row). r.operation) (order (λ a b. false) (abandoned_rows owner now db.rows))
