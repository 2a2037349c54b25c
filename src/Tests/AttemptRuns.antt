-- ===== src/Tests/AttemptRuns.antt =====
-- Runs of the coordinator in which attempts end and a worker is lost, and the theorems at them.
use mathlib.Core.List.{Memᴰ}
use llm_bridge_server.Prelude.{
  ◌↔◌, ◌≢◌, ℕ, false, string_discrete, insert, ◌≡◌, refl, List, [], ◌∷◌, Option, none, some, lookup,
  Result, arith,
}
use llm_bridge_server.Operations.Types.{
  OperationError, operation_state_discrete, OperationState, Receipt, Operation, Row, Event,
  Database, StoreError,
}
use llm_bridge_server.Operations.Store.{create, Created, claim, update, new_row}
use llm_bridge_server.Operations.Run.{empty_database}
use llm_bridge_server.Operations.Follows.{Every}
use llm_bridge_server.Coordinator.Attempts.{finish_attempt}
use llm_bridge_server.Coordinator.Reconcile.{ReconcileAction, ReconcileResult, reconcile_one}
use llm_bridge_server.Coordinator.Outcomes.{
  RunsAfter, finish_attempt-RunsAfter, finish_attempt-InDoubt,
}
use llm_bridge_server.Coordinator.Lost.{RunsAfterLoss, reconcile_one-RunsAfterLoss}
use llm_bridge_server.Coordinator.Attempting.{
  Reach, opens, reads, creates, claims, finishes, IsBounded, maximum_of,
}
use llm_bridge_server.Coordinator.Reached.{Reach-IsBounded}
use llm_bridge_server.Tests.OperationRuns.{operation_api, never_before, sorting}
use llm_bridge_server.Tests.CoordinatorRuns.{
  describes, sorter, plain_messages, ended_as, busy, first_attempt, moving,
}

abbrev created_or_empty : Result StoreError Created → Created
created_or_empty (Result.err e) = record {
  database = empty_database;
  receipt = first_attempt;
  created = false;
  events = [];
}
created_or_empty (Result.ok c) = c

abbrev claim_or_empty :
    Result StoreError (Database × Option Operation × List Event)
    → Database × Option Operation × List Event
claim_or_empty (Result.err e) = (empty_database, none, [])
claim_or_empty (Result.ok done) = done

abbrev row_or_none : Option Row → Row
row_or_none none = new_row "" sorting "" "" 0
row_or_none (some r) = r

abbrev done_or_none :
    Result StoreError (Database × Receipt × List Event) → Database × Receipt × List Event
done_or_none (Result.err e) = (empty_database, first_attempt, [])
done_or_none (Result.ok done) = done

abbrev new_one : Created
new_one = created_or_empty (create never_before "a" sorting "f" 10 empty_database)

abbrev taken : Database × Option Operation × List Event
taken = claim_or_empty (claim never_before "w1" 30 20 new_one.database)

abbrev taken_row : Row
taken_row = row_or_none (lookup "a" taken.0.rows)

abbrev put_back : Database × Receipt × List Event
put_back = done_or_none (
    finish_attempt operation_api never_before plain_messages taken_row.operation sorter
      (ended_as OperationState.unset (some busy)) 40 taken.0)

making : create never_before "a" sorting "f" 10 empty_database ≡ Result.ok new_one
unfolding create lookup insert string_discrete
making = refl

taking : claim never_before "w1" 30 20 new_one.database ≡ Result.ok taken
unfolding claim create lookup insert string_discrete operation_state_discrete
taking = refl

reading : lookup "a" taken.0.rows ≡ some taken_row
unfolding claim create lookup insert string_discrete operation_state_discrete
reading = refl

putting_back :
    finish_attempt operation_api never_before plain_messages taken_row.operation sorter
      (ended_as OperationState.unset (some busy))
      40
      taken.0
    ≡ Result.ok put_back
unfolding finish_attempt update claim create lookup insert string_discrete operation_state_discrete
putting_back = refl

put_back_queued : put_back.1.state ≡ OperationState.queued
unfolding finish_attempt update claim create lookup insert string_discrete operation_state_discrete
put_back_queued = refl

run_to_put_back :
    Reach operation_api never_before plain_messages describes (taken_row.operation ∷ []) put_back.0
run_to_put_back =
    finishes taken_row.operation sorter (ended_as OperationState.unset (some busy)) 40 put_back
      (reads "a" taken_row
        (claims "w1" 30 20 taken (creates "a" sorting "f" 10 new_one opens making) taking) reading)
      (Memᴰ.head refl) refl putting_back

Reach-IsBounded_example : Every (IsBounded (maximum_of describes)) put_back.0
Reach-IsBounded_example =
    Reach-IsBounded operation_api refl never_before plain_messages describes (λ t. omega arith)
      (taken_row.operation ∷ []) put_back.0 run_to_put_back

finish_attempt-RunsAfter_example :
    (put_back.1.state ≡ OperationState.queued)
    ↔ RunsAfter sorter (ended_as OperationState.unset (some busy)) taken_row.operation.receipt
unfolding lookup claim create string_discrete insert operation_state_discrete
finish_attempt-RunsAfter_example =
    finish_attempt-RunsAfter plain_messages sorter (ended_as OperationState.unset (some busy))
      operation_api never_before taken_row.operation 40 taken.0 put_back taken_row reading
      putting_back

-- The operation with an effect in doubt.
abbrev doubtful_row : Row
doubtful_row = record taken_row {
  operation = record (taken_row.operation) {
    receipt = record (taken_row.operation.receipt) { effects = moving ∷ [] };
  };
}

abbrev doubtful : Database
doubtful = record taken.0 { rows = insert "a" doubtful_row taken.0.rows }

abbrev claims_success : Database × Receipt × List Event
claims_success = done_or_none (
    finish_attempt operation_api never_before plain_messages taken_row.operation sorter
      (ended_as OperationState.succeeded none) 40 doubtful)

doubtful_stored : lookup "a" doubtful.rows ≡ some doubtful_row
unfolding claim create lookup insert string_discrete operation_state_discrete
doubtful_stored = refl

claiming_success :
    finish_attempt operation_api never_before plain_messages taken_row.operation sorter
      (ended_as OperationState.succeeded none)
      40
      doubtful
    ≡ Result.ok claims_success
unfolding finish_attempt update claim create lookup insert string_discrete operation_state_discrete
claiming_success = refl

finish_attempt-InDoubt_example :
    (OperationState.succeeded ≢ OperationState.conflicted
      → (claims_success.1.state ≡ OperationState.unknown)
        × ((e : OperationError) × (claims_success.1.error ≡ some e) × (e.retryable ≡ false)))
    × (OperationState.succeeded ≡ OperationState.conflicted
        → (doubtful_row.operation.receipt.cancel_requested_at ≡ none
            → claims_success.1.state ≡ OperationState.conflicted)
          × ((t : ℕ)
              → doubtful_row.operation.receipt.cancel_requested_at ≡ some t
              → claims_success.1.state ≡ OperationState.cancelled))
unfolding lookup claim create string_discrete insert operation_state_discrete
finish_attempt-InDoubt_example =
    finish_attempt-InDoubt plain_messages sorter (ended_as OperationState.succeeded none)
      operation_api never_before taken_row.operation 40 doubtful claims_success doubtful_row
      doubtful_stored claiming_success (moving, Memᴰ.head refl, refl)

-- The executor of a lost worker asks for another attempt.
abbrev asks_again : Receipt → ReconcileResult
asks_again listed = record {
  action = ReconcileAction.run_again;
  state = OperationState.unset;
  error = none;
}

abbrev found_lost : Database × Receipt × List Event
found_lost = done_or_none (
    reconcile_one operation_api never_before plain_messages describes asks_again taken_row.operation
      60 taken.0)

finding_lost :
    reconcile_one operation_api never_before plain_messages describes asks_again taken_row.operation
      60 taken.0
    ≡ Result.ok found_lost
unfolding reconcile_one update claim create lookup insert string_discrete operation_state_discrete
finding_lost = refl

found_lost_queued : found_lost.1.state ≡ OperationState.queued
unfolding reconcile_one update claim create lookup insert string_discrete operation_state_discrete
found_lost_queued = refl

reconcile_one-RunsAfterLoss_example :
    (found_lost.1.state ≡ OperationState.queued)
    ↔ RunsAfterLoss sorter (asks_again taken_row.operation.receipt) taken_row.operation.receipt
unfolding lookup claim create string_discrete insert operation_state_discrete
reconcile_one-RunsAfterLoss_example =
    reconcile_one-RunsAfterLoss operation_api refl never_before plain_messages describes asks_again
      taken_row.operation 60 taken.0 found_lost taken_row reading finding_lost sorter refl
