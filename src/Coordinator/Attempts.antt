-- ===== src/Coordinator/Attempts.antt =====
-- finishAttempt, Cancel and settle of internal/operations/coordinator.go: how attempts and operations
-- end. The texts of fmt.Sprintf are parameters.
use llm_bridge_server.Prelude.{
  ℕ, String, Bool, true, false, not, ◌&&◌, ◌||◌, ltb, List, [], ◌∷◌, Option, none, some, is_empty,
  if◌then◌else◌, Result,
}
use llm_bridge_server.Operations.Types.{
  OperationState, ◌=os◌, EventKind, OperationApi, OperationError, EffectOutcome, OperationReference,
  OperationEffect, OperationUsage, Receipt, Operation, Event, Database, StoreError,
}
use llm_bridge_server.Operations.Store.{Change, update}
use llm_bridge_server.Coordinator.Intents.{Description}

-- The texts of the errors, as fmt.Sprintf gives them.
pub record Messages : Type 0 where
  pub invalid_state : String → OperationState → String
  pub no_state : String → String
  pub gave_up : String → ℕ → String
  pub stopped_on : ℕ → ℕ → String
  pub no_executor : String → String
  pub no_executor_since : String → String
  pub no_effect : String → ℕ → String

abbrev pub failure : String → String → OperationError
failure code message = record { code = code; message = message; retryable = false }

-- Result: how one attempt ended.
pub record AttemptResult : Type 0 where
  pub state : OperationState
  pub result : Option String
  pub result_references : List OperationReference
  pub usage : Option OperationUsage
  pub error : Option OperationError

abbrev pub is_unknown : EffectOutcome → Bool
is_unknown EffectOutcome.unknown = true
is_unknown (EffectOutcome.other_outcome s) = false

-- hasEffectInDoubt
unfoldable pub has_effect_in_doubt : List OperationEffect → Bool
has_effect_in_doubt [] = false
has_effect_in_doubt (e ∷ effects) = is_unknown e.outcome || has_effect_in_doubt effects

abbrev pub is_none {ℓ} : {A : Type ℓ} → Option A → Bool
is_none none = true
is_none (some a) = false

abbrev pub may_end_in : OperationState → Bool
may_end_in OperationState.unset = true
may_end_in OperationState.succeeded = true
may_end_in OperationState.failed = true
may_end_in OperationState.conflicted = true
may_end_in OperationState.unknown = true
may_end_in s = false

-- The state and the error that an attempt ended with, as finishAttempt takes them.
unfoldable pub claimed_end :
    Messages → Description → AttemptResult → OperationState × Option OperationError
claimed_end says d r =
    if not (may_end_in r.state)
    then (
      OperationState.failed,
      some (failure "executor_returned_invalid_state" (says.invalid_state d.executor r.state)),
    )
    else if r.state =os OperationState.unset && is_none r.error
    then (
      OperationState.failed,
      some (failure "executor_returned_no_state" (says.no_state d.executor)),
    )
    else (r.state, r.error)

-- The error of an operation whose effect is in doubt.
unfoldable pub doubt_error : Option OperationError → OperationError
doubt_error none =
    failure "effect_outcome_unknown"
      "an external change was requested and no answer said whether it was applied"
doubt_error (some e) =
    if is_empty e.code
    then failure "effect_outcome_unknown"
        "an external change was requested and no answer said whether it was applied"
    else record e { retryable = false }

abbrev pub is_retryable : Option OperationError → Bool
is_retryable none = false
is_retryable (some e) = e.retryable

unfoldable pub gave_up_error : Messages → ℕ → Option OperationError → Option OperationError
gave_up_error says attempt none = none
gave_up_error says attempt (some e) =
    if e.retryable
    then some (record { code = e.code; message = says.gave_up e.message attempt; retryable = true })
    else some e

-- How an attempt, or a lost one, goes on.
pub data Ending : Type 0 where
  requeues : Option OperationError → Ending
  ends : OperationState → Option OperationError → Ending

-- The switch of finishAttempt.
unfoldable pub decide_end :
    Messages → Description → Receipt → OperationState → Option OperationError → Ending
unfolding has_effect_in_doubt doubt_error gave_up_error
decide_end says d receipt state error =
    if has_effect_in_doubt receipt.effects && not (state =os OperationState.conflicted)
    then Ending.ends OperationState.unknown (some (doubt_error error))
    else if not (is_none receipt.cancel_requested_at) && not (state =os OperationState.succeeded)
    then Ending.ends OperationState.cancelled (some (failure "cancelled" "canceled while running"))
    else if state =os OperationState.unset
    then (if is_retryable error && ltb receipt.attempt d.maximum_attempts
        then Ending.requeues error
        else Ending.ends OperationState.failed (gave_up_error says receipt.attempt error))
    else Ending.ends state error

-- The receipt with the executor and the usage of an attempt.
abbrev pub attempted : Description → AttemptResult → Receipt → Receipt
attempted d r receipt = record receipt {
  executor = d.executor;
  usage = elim (r.usage) [ none ↦ receipt.usage | some u ↦ some u ];
}

-- The receipt at the end of an attempt.
unfoldable pub with_end : AttemptResult → Ending → Receipt → Receipt
with_end r (Ending.requeues error) receipt = record receipt {
  state = OperationState.queued;
  error = error;
}
with_end r (Ending.ends state error) receipt =
    if state =os OperationState.succeeded
    then record receipt {
      state = state;
      error = none;
      result = r.result;
      result_references = r.result_references;
    }
    else record receipt { state = state; error = error }

abbrev pub kind_of_end : OperationApi → Ending → EventKind
kind_of_end api (Ending.requeues error) = EventKind.queued
kind_of_end api (Ending.ends state error) = api.event_kind_for_terminal_state state

-- How finishAttempt ends an operation with this receipt.
unfoldable pub attempt_end : Messages → Description → AttemptResult → Receipt → Ending
unfolding claimed_end decide_end
attempt_end says d r receipt =
    let (state, error) = claimed_end says d r in decide_end says d receipt state error

-- The change of finishAttempt.
unfoldable pub finish_change : OperationApi → Messages → Description → AttemptResult → Change
unfolding attempt_end with_end
finish_change api says d r o =
    let receipt = attempted d r o.receipt in
    let ending = attempt_end says d r receipt in
    Result.ok (record o { receipt = with_end r ending receipt }, kind_of_end api ending)

-- finishAttempt, by the attempt that holds this operation.
unfoldable pub finish_attempt :
    OperationApi
    → (String → String → Bool)
    → Messages
    → Operation
    → Description
    → AttemptResult
    → ℕ
    → Database
    → Result StoreError (Database × Receipt × List Event)
unfolding finish_change update
finish_attempt api id_before says held d r now db =
    update api id_before held.receipt.identity.id (some held.lease_token) now
      (finish_change api says d r) db

-- The change of Cancel.
unfoldable pub cancel_change : ℕ → Change
cancel_change now o =
    if o.receipt.state =os OperationState.queued
    then Result.ok (
      record o {
        receipt = record (o.receipt) {
          state = OperationState.cancelled;
          error = some (failure "cancelled" "canceled before it started");
        };
      },
      EventKind.cancelled,
    )
    else Result.ok (
      record o {
        receipt = record (o.receipt) {
          cancel_requested_at = elim (o.receipt.cancel_requested_at) [
            | none ↦ some now
            | some t ↦ some t
          ];
        };
      },
      EventKind.cancel_requested,
    )

-- Cancel, as far as the store goes.
unfoldable pub cancel :
    OperationApi
    → (String → String → Bool)
    → String
    → ℕ
    → Database
    → Result StoreError (Database × Receipt × List Event)
unfolding cancel_change update
cancel api id_before id now db = update api id_before id none now (cancel_change now) db

-- The change of settle.
unfoldable pub settle_change : OperationApi → OperationState → Option OperationError → Change
settle_change api state error o = Result.ok (
  record o { receipt = record (o.receipt) { state = state; error = error } },
  api.event_kind_for_terminal_state state,
)

-- settle
unfoldable pub settle :
    OperationApi
    → (String → String → Bool)
    → String
    → ℕ
    → OperationState
    → Option OperationError
    → ℕ
    → Database
    → Result StoreError (Database × Receipt × List Event)
unfolding settle_change update
settle api id_before id token state error now db =
    update api id_before id (some token) now (settle_change api state error) db
