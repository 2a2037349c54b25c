-- ===== src/Operations/Types.antt =====
-- The rows of internal/operationstore/store.go and spend.go, with the receipts and intents of msg as
-- far as the code reads or writes them. A text of JSON is a string, decoding what was encoded gives
-- it back, and a time is a count of nanoseconds.
use llm_bridge_server.Prelude.{
  ℕ, String, Bool, List, Option, ℤ, string_discrete, is_yes, ◌=s◌, ◌&&◌,
}

-- msg.OperationState
pub data OperationState : Type 0 where
  unset queued running succeeded failed conflicted unknown cancelled : OperationState
  other_state : String → OperationState

unfoldable pub operation_state_discrete : Discrete OperationState
operation_state_discrete = hlevel string_discrete

infix 50 ◌=os◌
abbrev pub ◌=os◌ : OperationState → OperationState → Bool
s =os t = is_yes (operation_state_discrete s t)

-- msg.OperationEventKind
pub data EventKind : Type 0 where
  accepted queued started progress cancel_requested cancelled child_updated : EventKind
  ended_in : OperationState → EventKind

-- The methods of msg.OperationState, and msg.OperationEventKindForTerminalState.
pub record OperationApi : Type 0 where
  pub is_terminal : OperationState → Bool
  pub is_known : OperationState → Bool
  pub event_kind_for_terminal_state : OperationState → EventKind

pub record OperationError : Type 0 where
  pub code : String
  pub message : String
  pub retryable : Bool

pub data EffectOutcome : Type 0 where
  unknown : EffectOutcome
  other_outcome : String → EffectOutcome

pub record OperationReference : Type 0 where
  pub store : String
  pub id : String

pub record OperationEffect : Type 0 where
  pub target : OperationReference
  pub action : String
  pub outcome : EffectOutcome
  pub external_operation_id : String
  pub recorded_at : ℕ

-- msg.OperationUsage: calls, the summed tokens, and the cost in a small unit of a dollar.
pub record OperationUsage : Type 0 where
  pub calls : ℕ
  pub input_tokens : ℕ
  pub output_tokens : ℕ
  pub total_tokens : ℕ
  pub cache_read_tokens : ℕ
  pub cache_write_tokens : ℕ
  pub cost_usd : ℤ

-- msg.OperationChildrenSummary; ByState as the count at each state.
pub record ChildrenSummary : Type 0 where
  pub total : ℕ
  pub by_state : OperationState → ℕ

-- What Create fixes in a receipt for good.
pub record Identity : Type 0 where
  pub id : String
  pub operation_type : String
  pub organization_id : String
  pub principal_id : String
  pub idempotency_key : String
  pub correlation_id : String
  pub parent_operation_id : String
  pub created_at : ℕ

-- msg.OperationReceipt
pub record Receipt : Type 0 where
  pub identity : Identity
  pub state : OperationState
  pub revision : ℕ
  pub attempt : ℕ
  pub updated_at : ℕ
  pub started_at : Option ℕ
  pub completed_at : Option ℕ
  pub cancel_requested_at : Option ℕ
  pub executor : String
  pub usage : Option OperationUsage
  pub error : Option OperationError
  pub result : Option String
  pub result_references : List OperationReference
  pub progress : Option String
  pub evidence : List String
  pub effects : List OperationEffect
  pub child_operation_ids : List String
  pub children : Option ChildrenSummary

-- msg.OperationIntent
pub record Intent : Type 0 where
  pub operation_type : String
  pub organization_id : String
  pub principal_id : String
  pub idempotency_key : String
  pub correlation_id : String
  pub parent_operation_id : String
  pub maximum_cost_usd : ℤ
  pub scope : List OperationReference
  pub input_references : List OperationReference
  pub input : String
  pub requested_capabilities : List String
  pub policy_revision : String

-- operationstore.Operation; a zero LeaseExpiresAt is 0.
pub record Operation : Type 0 where
  pub intent : Intent
  pub receipt : Receipt
  pub lease_owner : String
  pub lease_token : ℕ
  pub lease_expires_at : ℕ

-- The columns of the unique index operations_idempotency.
pub record OperationKey : Type 0 where
  pub principal_id : String
  pub organization_id : String
  pub operation_type : String
  pub idempotency_key : String

abbrev pub same_key : OperationKey → OperationKey → Bool
same_key a b =
    a.principal_id =s b.principal_id
    && a.organization_id =s b.organization_id
    && a.operation_type =s b.operation_type
    && a.idempotency_key =s b.idempotency_key

-- A row of the table operations. The columns that queries read stand beside the operation.
pub record Row : Type 0 where
  pub id : String
  pub key : OperationKey
  pub intent_fingerprint : String
  pub parent_operation_id : String
  pub root_operation_id : String
  pub state : OperationState
  pub created_at : ℕ
  pub operation : Operation

-- msg.OperationEvent, a row of operation_events.
pub record Event : Type 0 where
  pub operation_id : String
  pub sequence : ℕ
  pub kind : EventKind
  pub child_operation_id : String
  pub receipt : Receipt
  pub at_time : ℕ

-- ModelCall, a row of operation_spend with its operation.
pub record ModelCall : Type 0 where
  pub model : String
  pub input_tokens : ℕ
  pub output_tokens : ℕ
  pub cache_read_tokens : ℕ
  pub cache_write_tokens : ℕ
  pub cost_usd : ℤ
  pub cost_known : Bool

pub record SpendRow : Type 0 where
  pub operation_id : String
  pub root_operation_id : String
  pub organization_id : String
  pub call : ModelCall
  pub at_time : ℕ

-- A row of organization_budgets.
pub record BudgetRow : Type 0 where
  pub monthly_limit_usd : ℤ
  pub updated_by : String
  pub updated_at : ℕ

-- The database. Its rows are keyed by their id, in the order of their insertion.
pub record Database : Type 0 where
  pub rows : List (String × Row)
  pub events : List Event
  pub spend : List SpendRow
  pub budgets : List (String × BudgetRow)

-- Why a call of the store fails.
pub data StoreError : Type 0 where
  not_found idempotency_key_reused lease_lost terminal : StoreError
  unknown_state duplicate_row duplicate_event no_parent negative_limit : StoreError
  refused : String → StoreError
