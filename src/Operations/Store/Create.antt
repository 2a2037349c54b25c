-- ===== src/Operations/Store/Create.antt =====
-- Create of internal/operationstore/store.go. The id that NewOperationID draws is a parameter.
use llm_bridge_server.Prelude.{
  ℕ, String, Bool, true, false, List, [], ◌∷◌, Option, none, some, lookup, insert, is_empty, ◌=s◌,
  if◌then◌else◌, Result, ◌>>=◌,
}
use llm_bridge_server.Operations.Types.{
  OperationState, EventKind, Receipt, Intent, OperationKey, same_key, Row, Event, Database,
  StoreError,
}
use llm_bridge_server.Operations.Store.Rows.{insert_event, tell_parent}

-- findByIdempotencyKey
abbrev pub key_of : Intent → OperationKey
key_of i = record {
  principal_id = i.principal_id;
  organization_id = i.organization_id;
  operation_type = i.operation_type;
  idempotency_key = i.idempotency_key;
}

unfoldable pub find_key : OperationKey → List (String × Row) → Option Row
find_key k [] = none
find_key k ((id, r) ∷ rows) = if same_key r.key k then some r else find_key k rows

-- The receipt that Create stores.
abbrev pub new_receipt : String → Intent → ℕ → Receipt
new_receipt id i now = record {
  identity = record {
    id = id;
    operation_type = i.operation_type;
    organization_id = i.organization_id;
    principal_id = i.principal_id;
    idempotency_key = i.idempotency_key;
    correlation_id = i.correlation_id;
    parent_operation_id = i.parent_operation_id;
    created_at = now;
  };
  state = OperationState.queued;
  revision = 1;
  attempt = 0;
  updated_at = now;
  started_at = none;
  completed_at = none;
  cancel_requested_at = none;
  executor = "";
  usage = none;
  error = none;
  result = none;
  result_references = [];
  progress = none;
  evidence = [];
  effects = [];
  child_operation_ids = [];
  children = none;
}

-- An intent with no correlation id takes its operation's.
abbrev pub correlated : String → Intent → Intent
correlated id i = if is_empty i.correlation_id then record i { correlation_id = id } else i

-- The root of a new operation, or the failure to read its parent's.
unfoldable pub root_for : String → String → List (String × Row) → Result StoreError String
root_for id parent rows = if is_empty parent then Result.ok id else elim (lookup parent rows) [
  | none ↦ Result.err StoreError.no_parent
  | some r ↦ Result.ok r.root_operation_id
]

abbrev pub new_row : String → Intent → String → String → ℕ → Row
new_row id i fingerprint root now = record {
  id = id;
  key = key_of i;
  intent_fingerprint = fingerprint;
  parent_operation_id = i.parent_operation_id;
  root_operation_id = root;
  state = OperationState.queued;
  created_at = now;
  operation = record {
    intent = i;
    receipt = new_receipt id i now;
    lease_owner = "";
    lease_token = 0;
    lease_expires_at = 0;
  };
}

-- `INSERT INTO operations …`
unfoldable pub insert_row : String → Row → Database → Result StoreError Database
insert_row id r db = elim (lookup id db.rows) [
  | none ↦ Result.ok (record db { rows = insert id r db.rows })
  | some old ↦ Result.err StoreError.duplicate_row
]

-- What Create answers.
pub record Created : Type 0 where
  pub database : Database
  pub receipt : Receipt
  pub created : Bool
  pub events : List Event

-- Create, on an intent whose key no row has.
unfoldable pub create_new :
    (String → String → Bool) → String → Intent → String → ℕ → Database → Result StoreError Created
unfolding root_for insert_row insert_event tell_parent
create_new id_before id intent fingerprint now db =
    let i = correlated id intent in
    let receipt = new_receipt id i now in
    do
      root ← root_for id i.parent_operation_id db.rows
      inserted ← insert_row id (new_row id i fingerprint root now) db
      saved ← insert_event receipt EventKind.accepted "" now inserted
      told ← tell_parent id_before receipt now (saved.1 ∷ []) saved.0
      Result.ok (record { database = told.0; receipt = receipt; created = true; events = told.1 })

-- Create
unfoldable pub create :
    (String → String → Bool) → String → Intent → String → ℕ → Database → Result StoreError Created
unfolding create_new find_key
create id_before id intent fingerprint now db = elim (find_key (key_of intent) db.rows) [
  | some r ↦
      if r.intent_fingerprint =s fingerprint
      then Result.ok
          (record { database = db; receipt = r.operation.receipt; created = false; events = [] })
      else Result.err StoreError.idempotency_key_reused
  | none ↦ create_new id_before id intent fingerprint now db
]
