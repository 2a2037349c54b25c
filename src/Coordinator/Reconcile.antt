-- ===== src/Coordinator/Reconcile.antt =====
-- reconcileOne of internal/operations/coordinator.go: what becomes of an operation whose worker is
-- gone. The executor's decision is a parameter.
use llm_bridge_server.Prelude.{
  ℕ, String, Bool, true, not, ◌&&◌, leb, List, Option, none, some, if◌then◌else◌, Result,
}
use llm_bridge_server.Operations.Types.{
  OperationState, EventKind, OperationApi, OperationError, Receipt, Operation, Event, Database,
  StoreError,
}
use llm_bridge_server.Operations.Store.{Change, update}
use llm_bridge_server.Coordinator.Intents.{Description}
use llm_bridge_server.Coordinator.Attempts.{
  Messages, failure, has_effect_in_doubt, is_none, settle_change,
}

pub data ReconcileAction : Type 0 where
  run_again settle : ReconcileAction
  other_action : String → ReconcileAction

pub record ReconcileResult : Type 0 where
  pub action : ReconcileAction
  pub state : OperationState
  pub error : Option OperationError

-- The operation goes back in the queue, or ends.
pub data ReconcileOutcome : Type 0 where
  requeue : ReconcileOutcome
  ends : OperationState → Option OperationError → ReconcileOutcome

-- The switch of reconcileOne, on the receipt that RunningNotHeldBy listed.
unfoldable pub reconcile_outcome :
    OperationApi → Messages → Description → ReconcileResult → Receipt → ReconcileOutcome
unfolding has_effect_in_doubt
reconcile_outcome api says d decision receipt =
    if not (is_none receipt.cancel_requested_at) && not (has_effect_in_doubt receipt.effects)
    then ReconcileOutcome.ends OperationState.cancelled
        (some (failure "cancelled" "canceled; its worker stopped before finishing"))
    else elim (decision.action) [
      | run_again ↦
          if has_effect_in_doubt receipt.effects
          then ReconcileOutcome.ends OperationState.unknown (
              some (
                failure "effect_outcome_unknown"
                  "its worker stopped after requesting an external change, and no answer said whether it was applied"))
          else if leb d.maximum_attempts receipt.attempt
          then ReconcileOutcome.ends OperationState.failed (
              some (record {
                code = "attempts_exhausted";
                message = says.stopped_on receipt.attempt d.maximum_attempts;
                retryable = true;
              }))
          else ReconcileOutcome.requeue
      | settle ↦
          if api.is_terminal decision.state
          then ReconcileOutcome.ends decision.state decision.error
          else ReconcileOutcome.ends OperationState.unknown (
              some (
                failure "reconcile_failed"
                  "its worker stopped and the bridge could not work out how it ended"))
      | other_action a ↦ ReconcileOutcome.ends OperationState.unknown (
          some (
            failure "reconcile_failed"
              "its worker stopped and the bridge could not work out how it ended"))
    ]

-- The change of reconcileOne.
unfoldable pub reconcile_change : OperationApi → ReconcileOutcome → Change
unfolding settle_change
reconcile_change api ReconcileOutcome.requeue o =
    Result.ok (
      record o { receipt = record (o.receipt) { state = OperationState.queued } },
      EventKind.queued,
    )
reconcile_change api (ReconcileOutcome.ends state error) o = settle_change api state error o

-- What reconcileOne does to an operation, by the operation as it was listed.
unfoldable pub listed_change :
    OperationApi
    → Messages
    → (String → Option Description)
    → (Receipt → ReconcileResult)
    → Operation
    → Change
unfolding reconcile_outcome reconcile_change settle_change
listed_change api says describe decide listed =
    let type_name = listed.receipt.identity.operation_type in
    let gone = failure "no_executor" (says.no_executor_since type_name) in
    elim (describe type_name) [
      | none ↦ settle_change api OperationState.failed (some gone)
      | some d ↦
          reconcile_change api (reconcile_outcome api says d (decide listed.receipt) listed.receipt)
    ]

-- reconcileOne
unfoldable pub reconcile_one :
    OperationApi
    → (String → String → Bool)
    → Messages
    → (String → Option Description)
    → (Receipt → ReconcileResult)
    → Operation
    → ℕ
    → Database
    → Result StoreError (Database × Receipt × List Event)
unfolding listed_change update
reconcile_one api id_before says describe decide listed now db =
    update api id_before listed.receipt.identity.id (some listed.lease_token) now
      (listed_change api says describe decide listed) db
