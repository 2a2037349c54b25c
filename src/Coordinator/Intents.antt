-- ===== src/Coordinator/Intents.antt =====
-- Submit, checkIntent, intentFingerprint and StartChild of internal/operations/coordinator.go, and
-- FindByIdempotencyKey of internal/operationstore/store.go. Decoding JSON, and encoding and hashing the
-- content of an intent, are parameters, as are an executor's Validate and strconv's and fmt's texts.
use llm_bridge_server.Prelude.{
  ℕ, String, Bool, true, false, not, ◌==◌, List, [], ◌∷◌, Option, none, some, ℤ, pos, ltb_ℤ,
  is_empty, if◌then◌else◌, Result, ◌>>=◌, or_else,
}
use llm_bridge_server.Prelude.Text.{codes, trim_space, same_text}
use llm_bridge_server.Operations.Types.{
  OperationReference, Intent, Receipt, Operation, Database, StoreError,
}
use llm_bridge_server.Operations.Store.{create, Created, find_key, key_of}
use llm_bridge_server.Operations.Spend.{OrganizationBudget, organization_budget}
use llm_bridge_server.Operations.Reads.{get}
use llm_bridge_server.Coordinator.Credentials.{Json, PathStep, credential_key_path}

-- msg.OperationTypeDescription, as far as it is read here.
pub record Description : Type 0 where
  pub executor : String
  pub operation_type : String
  pub maximum_attempts : ℕ
  pub timeout_seconds : ℕ

-- IntentError by its code.
pub data IntentError : Type 0 where
  parent_not_settable unknown_operation_type organization_required idempotency_key_required :
      IntentError
  unknown_capability invalid_maximum_cost input_not_json : IntentError
  credential_in_input : List PathStep → IntentError
  invalid_input : String → IntentError

-- What Submit and StartChild refuse an intent with.
pub data SubmitError : Type 0 where
  intent_error : IntentError → SubmitError
  organization_budget_exhausted : OrganizationBudget → SubmitError
  store_error : StoreError → SubmitError

-- What the fingerprint is taken of.
pub record Content : Type 0 where
  pub operation_type : String
  pub organization_id : String
  pub scope : List OperationReference
  pub input_references : List OperationReference
  pub input : Option Json
  pub requested_capabilities : List String
  pub policy_revision : String
  pub maximum_cost_usd : ℤ

-- The executors of a coordinator by their type, and the functions it uses.
pub record IntentApi : Type 0 where
  pub decode_json : String → Option Json
  pub hash : Content → String
  pub describe : String → Option Description
  pub validate : Intent → Option String

unfoldable pub is_blank : String → Bool
unfolding trim_space same_text
is_blank s = same_text (trim_space (codes s)) []

abbrev pub is_empty_list {ℓ} : {A : Type ℓ} → List A → Bool
is_empty_list [] = true
is_empty_list (a ∷ rest) = false

abbrev pub refuse_if : Bool → IntentError → Result IntentError (Unit {0})
refuse_if b e = if b then Result.err e else Result.ok tt

-- The input of an intent, decoded; none where it is left out.
unfoldable pub decoded_input : IntentApi → Intent → Result IntentError (Option Json)
decoded_input api i = if is_empty i.input then Result.ok none else elim (api.decode_json i.input) [
  | none ↦ Result.err IntentError.input_not_json
  | some v ↦ Result.ok (some v)
]

abbrev pub path_of_input : Option Json → Option (List PathStep)
path_of_input none = none
path_of_input (some v) = credential_key_path v

abbrev pub refuse_path : Option (List PathStep) → Result IntentError (Unit {0})
refuse_path none = Result.ok tt
refuse_path (some path) = Result.err (IntentError.credential_in_input path)

abbrev pub refuse_invalid : Option String → Result IntentError (Unit {0})
refuse_invalid none = Result.ok tt
refuse_invalid (some message) = Result.err (IntentError.invalid_input message)

abbrev pub content_of : Intent → Option Json → Content
content_of i input = record {
  operation_type = i.operation_type;
  organization_id = i.organization_id;
  scope = i.scope;
  input_references = i.input_references;
  input = input;
  requested_capabilities = i.requested_capabilities;
  policy_revision = i.policy_revision;
  maximum_cost_usd = i.maximum_cost_usd;
}

-- intentFingerprint
unfoldable pub intent_fingerprint : IntentApi → Intent → Result IntentError String
unfolding decoded_input
intent_fingerprint api i = do input ← decoded_input api i; Result.ok (api.hash (content_of i input))

-- checkIntent
unfoldable pub check_intent : IntentApi → Intent → Result IntentError String
unfolding is_blank decoded_input intent_fingerprint
check_intent api i = do
  description ← or_else (api.describe i.operation_type) IntentError.unknown_operation_type
  organization ← refuse_if (is_blank i.organization_id) IntentError.organization_required
  named ← refuse_if (is_blank i.idempotency_key) IntentError.idempotency_key_required
  capable ← refuse_if (not (is_empty_list i.requested_capabilities)) IntentError.unknown_capability
  cost ← refuse_if (ltb_ℤ i.maximum_cost_usd (pos 0)) IntentError.invalid_maximum_cost
  input ← decoded_input api i
  clean ← refuse_path (path_of_input input)
  valid ← refuse_invalid (api.validate i)
  intent_fingerprint api i

abbrev pub as_intent_error {ℓ} : {A : Type ℓ} → Result IntentError A → Result SubmitError A
as_intent_error (Result.err e) = Result.err (SubmitError.intent_error e)
as_intent_error (Result.ok a) = Result.ok a

abbrev pub as_store_error {ℓ} : {A : Type ℓ} → Result StoreError A → Result SubmitError A
as_store_error (Result.err e) = Result.err (SubmitError.store_error e)
as_store_error (Result.ok a) = Result.ok a

-- The budget that an organization has used up, if it has one and has used it up.
unfoldable pub exhausted_budget : Option OrganizationBudget → Option OrganizationBudget
exhausted_budget none = none
exhausted_budget (some b) = if ltb_ℤ b.spent_usd b.monthly_limit_usd then none else some b

-- FindByIdempotencyKey
unfoldable pub find_by_idempotency_key : Intent → Database → Option Receipt
unfolding find_key
find_by_idempotency_key i db = elim (find_key (key_of i) db.rows) [
  | none ↦ none
  | some r ↦ some r.operation.receipt
]

-- Submit once the budget is known that is used up: a repeat of an intent goes on to Create, and new
-- work is refused.
unfoldable pub accept_or_refuse :
    Option OrganizationBudget
    → Option Receipt
    → Result StoreError Created
    → Result SubmitError Created
accept_or_refuse none known stored = as_store_error stored
accept_or_refuse (some budget) (some receipt) stored = as_store_error stored
accept_or_refuse (some budget) none stored =
    Result.err (SubmitError.organization_budget_exhausted budget)

-- Submit. The id is the one that Create draws.
unfoldable pub submit :
    IntentApi
    → (ℕ → ℕ)
    → (String → String → Bool)
    → String
    → Intent
    → ℕ
    → Database
    → Result SubmitError Created
unfolding check_intent exhausted_budget organization_budget find_by_idempotency_key create
    accept_or_refuse
submit api month_start id_before id i now db = do
  own ←
      as_intent_error
        (refuse_if (not (is_empty i.parent_operation_id)) IntentError.parent_not_settable)
  fingerprint ← as_intent_error (check_intent api i)
  accept_or_refuse (exhausted_budget (organization_budget month_start i.organization_id now db))
      (find_by_idempotency_key i db) (create id_before id i fingerprint now db)

-- The intent of a child; joined is fmt's "parent:key".
abbrev pub child_intent :
    (String → String → String)
    → Operation
    → String
    → String
    → String
    → List OperationReference
    → Intent
child_intent joined parent child_type child_key input scope = record {
  operation_type = child_type;
  organization_id = parent.receipt.identity.organization_id;
  principal_id = parent.receipt.identity.principal_id;
  idempotency_key = joined parent.receipt.identity.id child_key;
  correlation_id = parent.receipt.identity.correlation_id;
  parent_operation_id = parent.receipt.identity.id;
  maximum_cost_usd = pos 0;
  scope = scope;
  input_references = [];
  input = input;
  requested_capabilities = [];
  policy_revision = "";
}

abbrev pub same_lease : Operation → Operation → Result StoreError (Unit {0})
same_lease held current =
    if current.lease_token == held.lease_token
    then Result.ok tt
    else Result.err StoreError.lease_lost

-- StartChild, by the attempt that holds this operation.
unfoldable pub start_child :
    IntentApi
    → (String → String → Bool)
    → (String → String → String)
    → Operation
    → String
    → String
    → String
    → List OperationReference
    → String
    → ℕ
    → Database
    → Result SubmitError Created
unfolding check_intent get create
start_child api id_before joined held child_type child_key input scope id now db =
    let i = child_intent joined held child_type child_key input scope in
    do
      current ← as_store_error (get held.receipt.identity.id db)
      leased ← as_store_error (same_lease held current)
      fingerprint ← as_intent_error (check_intent api i)
      as_store_error (create id_before id i fingerprint now db)
