-- ===== src/Coordinator/Lost.antt =====
-- How reconcileOne of internal/operations/coordinator.go leaves the operation of a lost worker.
use llm_bridge_server.Prelude.{
  ℕ, ◌<◌, ◌≡◌, ◌↔◌, ◌∙◌, sym, ap, String, Bool, false, List, Option, none, some, lookup, Result,
  ok_injective, inl, inr,
}
use llm_bridge_server.Operations.Types.{
  OperationState, EventKind, OperationApi, Receipt, Operation, Row, Event, Database,
}
use llm_bridge_server.Coordinator.Intents.{Description}
use llm_bridge_server.Coordinator.Attempts.{Messages, settle_change}
use llm_bridge_server.Coordinator.Reconcile.{
  ReconcileAction, ReconcileResult, reconcile_outcome, reconcile_change, listed_change,
  reconcile_one,
}
use llm_bridge_server.Coordinator.Endings.{
  RunsAnew, reconcile_outcome-RunsAnew, outcome_cases, ends_open,
}
use llm_bridge_server.Coordinator.Outcomes.{
  NoneInDoubt, NoneInDoubt-settled, settled_effects, update_answers,
}

-- What makes the operation of a lost worker run again, by the receipt that was listed.
pub record RunsAfterLoss (d : Description) (decision : ReconcileResult) (listed : Receipt)
    : Type 0 where
  pub asked : decision.action ≡ ReconcileAction.run_again
  pub settled : NoneInDoubt listed.effects
  pub wanted : listed.cancel_requested_at ≡ none
  pub attempts_left : listed.attempt < d.maximum_attempts

RunsAnew-RunsAfterLoss :
    (d : Description) (decision : ReconcileResult) (listed : Receipt)
    → RunsAnew d decision listed ↔ RunsAfterLoss d decision listed
RunsAnew-RunsAfterLoss d decision listed = (
  λ a. record {
    asked = a.asked;
    settled = NoneInDoubt-settled listed.effects a.settled;
    wanted = a.wanted;
    attempts_left = a.attempts_left;
  },
  λ a. record {
    asked = a.asked;
    settled = settled_effects listed.effects a.settled;
    wanted = a.wanted;
    attempts_left = a.attempts_left;
  },
)

module _ (api : OperationApi) (opens_queue : api.is_terminal OperationState.queued ≡ false)
    (id_before : String → String → Bool) (says : Messages) (describe : String → Option Description)
    (decide : Receipt → ReconcileResult) (listed : Operation) (now : ℕ) (db : Database)
    (done : Database × Receipt × List Event) (row : Row)
    (stored : lookup listed.receipt.identity.id db.rows ≡ some row)
    (reconciled : reconcile_one api id_before says describe decide listed now db
      ≡ Result.ok done) where
  changed_state :
      (d : Description)
      → describe listed.receipt.identity.operation_type ≡ some d
      → (o : Operation) × (kind : EventKind) × (reconcile_change api
            (reconcile_outcome api says d (decide listed.receipt) listed.receipt)
            row.operation
          ≡ Result.ok (o, kind))
        × (done.1.state ≡ o.receipt.state)
  unfolding reconcile_one listed_change
  changed_state d described =
      let (o, kind, change, state, error) =
        update_answers api id_before listed.receipt.identity.id (some listed.lease_token) now
          (listed_change api says describe decide listed) db done row stored reconciled in
      (o, kind, rw (listed_change, described) at change, state)

  -- A reconcileOne that is stored leaves the operation queued exactly when its executor asked for
  -- that, and the receipt that was listed shows no effect in doubt, no cancel request and attempts
  -- left; where the bridge still runs its type, and queued is no terminal state.
  pub reconcile_one-RunsAfterLoss :
      (d : Description)
      → describe listed.receipt.identity.operation_type ≡ some d
      → (done.1.state ≡ OperationState.queued)
        ↔ RunsAfterLoss d (decide listed.receipt) listed.receipt
  unfolding reconcile_change settle_change
  reconcile_one-RunsAfterLoss d described =
      let decision = decide listed.receipt in
      let outcome = reconcile_outcome api says d decision listed.receipt in
      let (o, kind, change, state) = changed_state d described in
      let (anew, again) = reconcile_outcome-RunsAnew api says d decision listed.receipt in
      let (after, before) = RunsAnew-RunsAfterLoss d decision listed.receipt in
      (
        λ q. elim (outcome_cases outcome) [
          | inl same ↦ after (anew same)
          | inr (s, e, same) ↦
              let left = ap (λ x. reconcile_change api x row.operation) (sym same) ∙ change in
              let ended =
                ap (λ (p : Operation × EventKind). p.0.receipt.state) (ok_injective left) in
              absurd (
                ends_open api opens_queue says d decision listed.receipt s e same
                  (ended ∙ sym state ∙ q))
        ],
        λ a.
            let left =
              ap (λ x. reconcile_change api x row.operation) (sym (again (before a))) ∙ change in
            state ∙ ap (λ (p : Operation × EventKind). p.0.receipt.state) (sym (ok_injective left)),
      )
