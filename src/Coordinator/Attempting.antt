-- ===== src/Coordinator/Attempting.antt =====
-- The runs of internal/operations/coordinator.go against its store: what its workers, its callers and
-- its watchdog do to the operations, in any order, each with operations that it read earlier.
use mathlib.Core.List.{Memᴰ}
use llm_bridge_server.Prelude.{
  ℕ, ◌≤◌, ◌<◌, ◌≡◌, String, Bool, List, [], ◌∷◌, Option, none, some, lookup, Result,
}
use llm_bridge_server.Operations.Types.{
  OperationState, OperationApi, OperationError, OperationReference, EffectOutcome, Receipt, Intent,
  Operation, Row, Event, ModelCall, Database, StoreError,
}
use llm_bridge_server.Operations.Store.{create, Created, claim, renew_lease, update}
use llm_bridge_server.Operations.Spend.{record_model_call}
use llm_bridge_server.Operations.Run.{empty_database}
use llm_bridge_server.Coordinator.Intents.{Description}
use llm_bridge_server.Coordinator.Attempts.{Messages, AttemptResult, finish_attempt, cancel, settle}
use llm_bridge_server.Coordinator.Reconcile.{ReconcileResult, reconcile_one}
use llm_bridge_server.Coordinator.Writer.{
  write_change, set_progress, add_evidence, record_effect, settle_effect,
}

-- The changes of the receipt writer.
pub data Writing (says : Messages) : (Receipt → Result StoreError Receipt) → Type 0 where
  progresses : (progress : String) → Writing says (set_progress progress)
  proves : (evidence : List String) → Writing says (add_evidence evidence)
  records :
      (target : OperationReference) (action : String) (now : ℕ)
      → Writing says (record_effect target action now)
  settles :
      (number : ℕ) (outcome : EffectOutcome) (external : String) (now : ℕ)
      → Writing says (settle_effect says number outcome external now)

-- A database that the coordinator reaches from an empty one, with the operations read on the way.
pub data Reach (api : OperationApi) (id_before : String → String → Bool) (says : Messages)
    (describe : String → Option Description) : List Operation → Database → Type 0 where
  opens : Reach api id_before says describe [] empty_database
  reads :
      {seen : List Operation} {db : Database} (id : String) (r : Row)
      → Reach api id_before says describe seen db
      → lookup id db.rows ≡ some r
      → Reach api id_before says describe (r.operation ∷ seen) db
  creates :
      {seen : List Operation} {db : Database} (id : String) (i : Intent) (fingerprint : String)
      (now : ℕ) (done : Created)
      → Reach api id_before says describe seen db
      → create id_before id i fingerprint now db ≡ Result.ok done
      → Reach api id_before says describe seen done.database
  claims :
      {seen : List Operation} {db : Database} (owner : String) (duration now : ℕ)
      (done : Database × Option Operation × List Event)
      → Reach api id_before says describe seen db
      → claim id_before owner duration now db ≡ Result.ok done
      → Reach api id_before says describe seen done.0
  renews :
      {seen : List Operation} {db : Database} (id : String) (token expires_at : ℕ) (done : Database)
      → Reach api id_before says describe seen db
      → renew_lease id token expires_at db ≡ Result.ok done
      → Reach api id_before says describe seen done
  writes :
      {seen : List Operation} {db : Database} (held : Operation)
      (change : Receipt → Result StoreError Receipt) (now : ℕ)
      (done : Database × Receipt × List Event)
      → Reach api id_before says describe seen db
      → Memᴰ held seen
      → Writing says change
      → update api id_before held.receipt.identity.id
          (some held.lease_token)
          now
          (write_change change)
          db
        ≡ Result.ok done
      → Reach api id_before says describe seen done.0
  books :
      {seen : List Operation} {db : Database} (held : Operation) (c : ModelCall) (now : ℕ)
      (done : Database × Receipt × List Event)
      → Reach api id_before says describe seen db
      → Memᴰ held seen
      → record_model_call api id_before held.receipt.identity.id (some held.lease_token) now c db
        ≡ Result.ok done
      → Reach api id_before says describe seen done.0
  cancels :
      {seen : List Operation} {db : Database} (id : String) (now : ℕ)
      (done : Database × Receipt × List Event)
      → Reach api id_before says describe seen db
      → cancel api id_before id now db ≡ Result.ok done
      → Reach api id_before says describe seen done.0
  finishes :
      {seen : List Operation} {db : Database} (held : Operation) (d : Description)
      (r : AttemptResult) (now : ℕ) (done : Database × Receipt × List Event)
      → Reach api id_before says describe seen db
      → Memᴰ held seen
      → describe held.receipt.identity.operation_type ≡ some d
      → finish_attempt api id_before says held d r now db ≡ Result.ok done
      → Reach api id_before says describe seen done.0
  gives_up :
      {seen : List Operation} {db : Database} (held : Operation) (error : Option OperationError)
      (now : ℕ) (done : Database × Receipt × List Event)
      → Reach api id_before says describe seen db
      → Memᴰ held seen
      → settle api id_before held.receipt.identity.id held.lease_token OperationState.failed error
          now db
        ≡ Result.ok done
      → Reach api id_before says describe seen done.0
  reconciles :
      {seen : List Operation} {db : Database} (listed : Operation)
      (decide : Receipt → ReconcileResult) (now : ℕ) (done : Database × Receipt × List Event)
      → Reach api id_before says describe seen db
      → Memᴰ listed seen
      → reconcile_one api id_before says describe decide listed now db ≡ Result.ok done
      → Reach api id_before says describe seen done.0

-- The attempts that a type allows; one where no executor runs it.
abbrev pub maximum_of : (String → Option Description) → String → ℕ
maximum_of describe t = elim (describe t) [ none ↦ 1 | some d ↦ d.maximum_attempts ]

-- No more attempts than the type allows, and one left for an operation that is queued.
pub record IsBounded (maximum : String → ℕ) (o : Operation) : Type 0 where
  pub made : o.receipt.attempt ≤ maximum o.receipt.identity.operation_type
  pub left :
      o.receipt.state ≡ OperationState.queued
      → o.receipt.attempt < maximum o.receipt.identity.operation_type
