-- ===== src/Tests/OperationRuns.antt =====
-- Runs of the operation store, and each theorem on it at one.
use llm_bridge_server.Prelude.{
  ℕ, string_discrete, insert, ◌≢◌, ◌||◌, String, Bool, true, false, ◌≡◌, refl, List, [], ◌∷◌, map,
  Option, none, some, pos, lookup, Result, arith, drop,
}
use llm_bridge_server.Operations.Types.{
  ◌=os◌, OperationState, operation_state_discrete, EventKind, OperationApi, Intent, Receipt,
  Operation, Row, Event, Database, StoreError,
}
use llm_bridge_server.Operations.Store.{
  Change, new_row, create, Created, claim, update, renew_lease, guarded,
}
use llm_bridge_server.Operations.Reads.{events_after}
use llm_bridge_server.Operations.Moves.{IsSound}
use llm_bridge_server.Operations.Run.{
  Call, creates, claims_next, updates_row, renews_lease, run_calls, empty_database, AllAllowed,
  run_calls_from_empty, empty-IsSound,
}
use llm_bridge_server.Operations.Log.{IsLogged, run_calls-IsLogged, counted}
use llm_bridge_server.Operations.Resume.{events_after-resumes}
use llm_bridge_server.Operations.Updates.{Allows, Keeps}
use llm_bridge_server.Operations.Fence.{KeepsToken, outcome}
use llm_bridge_server.Operations.Leases.{
  IsFenced, outdated-IsFenced, update-IsFenced, claim-IsFenced, ended_stays, renewed_passes,
}
use llm_bridge_server.Operations.Idempotent.{create-repeats}

abbrev pub is_end : OperationState → Bool
is_end OperationState.succeeded = true
is_end OperationState.failed = true
is_end OperationState.conflicted = true
is_end OperationState.unknown = true
is_end OperationState.cancelled = true
is_end s = false

abbrev pub is_state : OperationState → Bool
is_state OperationState.unset = false
is_state (OperationState.other_state s) = false
is_state s = true

abbrev pub operation_api : OperationApi
operation_api = record {
  is_terminal = is_end;
  is_known = is_state;
  event_kind_for_terminal_state = EventKind.ended_in;
}

abbrev pub never_before : String → String → Bool
never_before a b = false

abbrev pub sorting : Intent
sorting = record {
  operation_type = "classify";
  organization_id = "acme";
  principal_id = "ann";
  idempotency_key = "k1";
  correlation_id = "";
  parent_operation_id = "";
  maximum_cost_usd = pos 0;
  scope = [];
  input_references = [];
  input = "";
  requested_capabilities = [];
  policy_revision = "";
}

-- A change to a state, by which a worker queues or ends an operation.
abbrev pub moves_to : OperationState → Change
moves_to s o =
    Result.ok (record o { receipt = record (o.receipt) { state = s } }, EventKind.progress)

abbrev one_claimed : List Call
one_claimed = creates "a" sorting "f" 10 ∷ claims_next "w1" 30 20 ∷ []

abbrev requeued_twice : List Call
requeued_twice =
    creates "a" sorting "f" 10
    ∷ claims_next "w1" 30 20
    ∷ updates_row "a" (some 1) 21 (moves_to OperationState.queued)
    ∷ claims_next "w2" 30 22
    ∷ []

abbrev run_of : List Call → Database
run_of calls = run_calls operation_api never_before calls empty_database

abbrev row_or_new : Option Row → Row
row_or_new none = new_row "" sorting "" "" 0
row_or_new (some r) = r

moves_to_keeps : (s : OperationState) → Allows KeepsToken (moves_to s)
moves_to_keeps s o o' kind h = cc h

first_token : (row_or_new (lookup "a" (run_of one_claimed).rows)).operation.lease_token ≡ 1
unfolding run_calls lookup claim update create string_discrete insert operation_state_discrete
first_token = refl

later_token : (row_or_new (lookup "a" (run_of requeued_twice).rows)).operation.lease_token ≡ 3
unfolding run_calls lookup claim update create string_discrete insert operation_state_discrete
later_token = refl

requeued_events :
    map (λ (e : Event). e.sequence) (events_after "a" 1 (run_of requeued_twice)) ≡ 2 ∷ 3 ∷ 4 ∷ []
unfolding run_calls lookup claim update create string_discrete insert operation_state_discrete
    events_after
requeued_events = refl

abbrev row_of : List Call → Row
row_of calls = row_or_new (lookup "a" (run_of calls).rows)

moves_to-Keeps : (s : OperationState) → Keeps (moves_to s)
moves_to-Keeps s o o' kind h = (cc h, cc h)

all_keep : AllAllowed operation_api never_before KeepsToken requeued_twice
all_keep = (
  tt,
  (tt, ((moves_to_keeps OperationState.queued, moves_to-Keeps OperationState.queued), (tt, tt))),
)

run_of-IsSound :
    (calls : List Call)
    → AllAllowed operation_api never_before KeepsToken calls
    → IsSound (run_of calls)
run_of-IsSound calls h = (run_calls_from_empty operation_api never_before KeepsToken calls h).1

found_one : lookup "a" (run_of one_claimed).rows ≡ some (row_of one_claimed)
unfolding run_calls lookup claim update create string_discrete insert operation_state_discrete
found_one = refl

found_twice : lookup "a" (run_of requeued_twice).rows ≡ some (row_of requeued_twice)
unfolding run_calls lookup claim update create string_discrete insert operation_state_discrete
found_twice = refl

run_calls-IsLogged_example : IsLogged (run_of requeued_twice)
run_calls-IsLogged_example =
    run_calls-IsLogged operation_api never_before requeued_twice
      (tt, (tt, ((λ o o' kind h. tt, moves_to-Keeps OperationState.queued), (tt, tt))))

events_after-resumes_example :
    map (λ (e : Event). e.sequence) (events_after "a" 1 (run_of requeued_twice))
    ≡ drop 1 (counted (row_of requeued_twice).operation.receipt.revision)
events_after-resumes_example =
    events_after-resumes operation_api never_before requeued_twice "a" 1 (row_of requeued_twice)
      (tt, (tt, ((λ o o' kind h. tt, moves_to-Keeps OperationState.queued), (tt, tt)))) found_twice

-- The first worker's writes, after the operation was queued and claimed again.
outdated-IsFenced_example :
    IsFenced operation_api never_before "a" 1
      (run_calls operation_api never_before (renews_lease "a" 3 60 ∷ []) (run_of requeued_twice))
outdated-IsFenced_example =
    outdated-IsFenced operation_api refl never_before (renews_lease "a" 3 60 ∷ []) (tt, tt) "a"
      (row_of requeued_twice) 1 (run_of requeued_twice) (run_of-IsSound requeued_twice all_keep)
      found_twice (omega (arith, later_token))

abbrev updated :
    Result StoreError (Database × Receipt × List Event) → Database × Receipt × List Event
updated (Result.err e) = (empty_database, (new_row "" sorting "" "" 0).operation.receipt, [])
updated (Result.ok done) = done

abbrev failed_once : Database × Receipt × List Event
failed_once = updated (
    update operation_api never_before "a" (some 1) 25 (moves_to OperationState.failed)
      (run_of one_claimed))

failing :
    update operation_api never_before "a"
      (some 1)
      25
      (moves_to OperationState.failed)
      (run_of one_claimed)
    ≡ Result.ok failed_once
unfolding run_calls lookup claim update create string_discrete insert operation_state_discrete
failing = refl

failing_ends : (is_end failed_once.1.state || failed_once.1.state =os OperationState.queued) ≡ true
unfolding run_calls lookup claim update create string_discrete insert operation_state_discrete
failing_ends = refl

update-IsFenced_example :
    IsFenced operation_api never_before "a" 1
      (run_calls operation_api never_before (claims_next "w3" 30 40 ∷ []) failed_once.0)
update-IsFenced_example =
    update-IsFenced operation_api refl never_before (claims_next "w3" 30 40 ∷ []) (tt, tt) "a" 1 25
      (moves_to OperationState.failed) (run_of one_claimed) failed_once
      (run_of-IsSound one_claimed (tt, (tt, tt))) (moves_to_keeps OperationState.failed)
      (moves_to-Keeps OperationState.failed) failing failing_ends

abbrev queued_again : List Call
queued_again =
    creates "a" sorting "f" 10
    ∷ claims_next "w1" 30 20
    ∷ updates_row "a" (some 1) 21 (moves_to OperationState.queued)
    ∷ []

abbrev claim_done :
    Result StoreError (Database × Option Operation × List Event)
    → Database × Option Operation × List Event
claim_done (Result.err e) = (empty_database, none, [])
claim_done (Result.ok done) = done

abbrev second_claim : Database × Option Operation × List Event
second_claim = claim_done (claim never_before "w2" 30 22 (run_of queued_again))

abbrev operation_or_new : Option Operation → Operation
operation_or_new none = (new_row "" sorting "" "" 0).operation
operation_or_new (some o) = o

abbrev claimed_second : Operation
claimed_second = operation_or_new second_claim.1

claiming :
    claim never_before "w2" 30 22 (run_of queued_again)
    ≡ Result.ok (second_claim.0, some claimed_second, second_claim.2)
unfolding run_calls lookup claim update create string_discrete insert operation_state_discrete
claiming = refl

-- The row before it was claimed again: the first worker's token, which its return to the queue passed.
claiming_row :
    lookup claimed_second.receipt.identity.id (run_of queued_again).rows
    ≡ some (row_of queued_again)
unfolding run_calls lookup claim update create string_discrete insert operation_state_discrete
claiming_row = refl

claiming_token : (row_of queued_again).operation.lease_token ≡ 2
unfolding run_calls lookup claim update create string_discrete insert operation_state_discrete
claiming_token = refl

claim-IsFenced_example :
    IsFenced operation_api never_before claimed_second.receipt.identity.id 2
      (run_calls operation_api never_before [] second_claim.0)
claim-IsFenced_example =
    claim-IsFenced operation_api refl never_before [] tt "w2" 30 22 2 (run_of queued_again)
      second_claim.0 claimed_second second_claim.2 (row_of queued_again)
      (run_of-IsSound queued_again (
        tt,
        (tt, ((moves_to_keeps OperationState.queued, moves_to-Keeps OperationState.queued), tt)),
      ))
      claiming claiming_row (omega (arith, claiming_token))

abbrev ended_calls : List Call
ended_calls =
    creates "a" sorting "f" 10
    ∷ claims_next "w1" 30 20
    ∷ updates_row "a" (some 1) 25 (moves_to OperationState.failed)
    ∷ []

found_ended : lookup "a" (run_of ended_calls).rows ≡ some (row_of ended_calls)
unfolding run_calls lookup claim update create string_discrete insert operation_state_discrete
found_ended = refl

state_ended : is_end (row_of ended_calls).operation.receipt.state ≡ true
unfolding run_calls lookup claim update create string_discrete insert operation_state_discrete
state_ended = refl

ended_stays_example :
    let db =
      run_calls operation_api never_before (claims_next "w3" 30 40 ∷ []) (run_of ended_calls) in
    ((s : Row) × (lookup "a" db.rows ≡ some s)
      × (outcome s.operation.receipt ≡ outcome (row_of ended_calls).operation.receipt))
    × ((token : Option ℕ) (now : ℕ) (change : Change)
        → update operation_api never_before "a" token now change db
          ≡ Result.err StoreError.terminal)
ended_stays_example =
    ended_stays operation_api refl never_before (claims_next "w3" 30 40 ∷ []) (tt, tt) "a"
      (row_of ended_calls) (run_of ended_calls)
      (run_of-IsSound ended_calls (
        tt,
        (tt, ((moves_to_keeps OperationState.failed, moves_to-Keeps OperationState.failed), tt)),
      ))
      found_ended state_ended

abbrev database_or_empty : Result StoreError Database → Database
database_or_empty (Result.err e) = empty_database
database_or_empty (Result.ok db) = db

renewing :
    renew_lease "a" 1 50 (run_of one_claimed)
    ≡ Result.ok (database_or_empty (renew_lease "a" 1 50 (run_of one_claimed)))
unfolding run_calls lookup claim update create string_discrete insert operation_state_discrete
    renew_lease
renewing = refl

renewed_passes_example :
    let db = database_or_empty (renew_lease "a" 1 50 (run_of one_claimed)) in
    (s : Row) × (lookup "a" db.rows ≡ some s)
    × (s.operation.lease_expires_at ≡ 50)
    × (guarded operation_api (some 1) s.operation ≡ Result.ok s.operation)
renewed_passes_example =
    renewed_passes operation_api "a" 1 50 (run_of one_claimed)
      (database_or_empty (renew_lease "a" 1 50 (run_of one_claimed))) refl
      (run_of-IsSound one_claimed (tt, (tt, tt))) renewing

abbrev created_or_none : Result StoreError Created → Created
created_or_none (Result.err e) = record {
  database = empty_database;
  receipt = (new_row "" sorting "" "" 0).operation.receipt;
  created = false;
  events = [];
}
created_or_none (Result.ok c) = c

abbrev first_created : Created
first_created = created_or_none (create never_before "a" sorting "f" 10 empty_database)

creating : create never_before "a" sorting "f" 10 empty_database ≡ Result.ok first_created
unfolding run_calls lookup claim update create string_discrete insert operation_state_discrete
creating = refl

create-repeats_example :
    let db =
      run_calls operation_api never_before (claims_next "w1" 30 20 ∷ []) first_created.database in
    ((again : Created) × (create never_before "b" sorting "f" 30 db ≡ Result.ok again)
      × (again.database ≡ db)
      × (again.created ≡ false)
      × (again.receipt.identity.id ≡ first_created.receipt.identity.id)
      × (again.events ≡ []))
    × ((other : String)
        → other ≢ "f"
        → create never_before "b" sorting other 30 db
          ≡ Result.err StoreError.idempotency_key_reused)
create-repeats_example =
    create-repeats operation_api KeepsToken never_before "a" sorting "f" 10 empty_database
      first_created (claims_next "w1" 30 20 ∷ []) "b" sorting 30
      (empty-IsSound operation_api never_before KeepsToken) creating (tt, tt) refl
