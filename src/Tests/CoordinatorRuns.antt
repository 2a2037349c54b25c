-- ===== src/Tests/CoordinatorRuns.antt =====
-- Runs of the coordinator of operations, and each theorem on it at one.
use llm_bridge_server.Prelude.{
  ℕ, string_discrete, insert, ◌↔◌, String, true, false, ◌≡◌, refl, List, [], ◌∷◌, Option, none,
  some, ℤ, pos, lookup, Result,
}
use llm_bridge_server.Operations.Types.{
  OperationState, operation_state_discrete, OperationError, OperationEffect, EffectOutcome, Intent,
  Receipt, Row, Event, ModelCall, Database, StoreError,
}
use llm_bridge_server.Operations.Store.{new_row, new_receipt, create, Created, claim, update_also}
use llm_bridge_server.Operations.Spend.{record_model_call, root_of, set_organization_budget}
use llm_bridge_server.Operations.Run.{creates, claims_next, sets_budget, run_calls, empty_database}
use llm_bridge_server.Coordinator.Credentials.{
  Json, text, array, object, no_elements, element, no_entries, entry, key, index,
  key_names_credential, credential_key_path, is_upper, is_separator,
}
use llm_bridge_server.Coordinator.CredentialKeys.{
  HasKey, credential_key_path-none, capital_key_passes,
}
use llm_bridge_server.Coordinator.Intents.{Description, IntentApi}
use llm_bridge_server.Coordinator.Attempts.{Messages, AttemptResult}
use llm_bridge_server.Coordinator.Spending.{spending_allowance}
use llm_bridge_server.Coordinator.Spent.{month_left, cap_left}
use llm_bridge_server.Coordinator.Ledger.{
  Books, record_model_call-Books, IsLowest, spending_allowance-IsLowest,
}
use llm_bridge_server.Tests.OperationRuns.{operation_api, never_before, sorting}

abbrev nested : Json
nested = object (
    entry "items" (array (element (object (entry "mailApiKey" (text "t") no_entries)) no_elements))
      (entry "max-tokens" (text "3") no_entries))

found_key : credential_key_path nested ≡ some (key "items" ∷ index 0 ∷ key "mailApiKey" ∷ [])
unfolding credential_key_path
found_key = refl

credential_key_path-none_example :
    (credential_key_path nested ≡ none)
    ↔ ((k : String) → HasKey nested k → key_names_credential k ≡ false)
credential_key_path-none_example = credential_key_path-none nested

password_capitals : key_names_credential "PASSWORD" ≡ false
unfolding key_names_credential
password_capitals = refl

password_small : key_names_credential "mail_password" ≡ true
unfolding key_names_credential
password_small = refl

capital_key_passes_example : key_names_credential "API_KEY" ≡ false
unfolding is_upper is_separator
capital_key_passes_example =
    capital_key_passes "API_KEY" (refl, (refl, (refl, (refl, (refl, (refl, (refl, tt)))))))

abbrev pub plain_messages : Messages
plain_messages = record {
  invalid_state = λ executor state. "invalid state";
  no_state = λ executor. "no state";
  gave_up = λ message attempt. message;
  stopped_on = λ attempt most. "stopped";
  no_executor = λ type_name. "no executor";
  no_executor_since = λ type_name. "no executor";
  no_effect = λ id number. "no effect";
}

abbrev pub sorter : Description
sorter = record {
  executor = "sorter";
  operation_type = "classify";
  maximum_attempts = 3;
  timeout_seconds = 60;
}

abbrev pub moving : OperationEffect
moving = record {
  target = record { store = "kanban"; id = "7" };
  action = "move";
  outcome = EffectOutcome.unknown;
  external_operation_id = "";
  recorded_at = 30;
}

abbrev pub first_attempt : Receipt
first_attempt = record (new_receipt "a" sorting 10) { state = OperationState.running; attempt = 1 }

abbrev pub ended_as : OperationState → Option OperationError → AttemptResult
ended_as state error = record {
  state = state;
  result = none;
  result_references = [];
  usage = none;
  error = error;
}

abbrev pub busy : OperationError
busy = record { code = "busy"; message = "try later"; retryable = true }

abbrev one_call : ModelCall
one_call = record {
  model = "small";
  input_tokens = 10;
  output_tokens = 5;
  cache_read_tokens = 0;
  cache_write_tokens = 0;
  cost_usd = pos 7;
  cost_known = true;
}

abbrev capped : Intent
capped = record sorting { maximum_cost_usd = pos 50 }

abbrev running_db : Database
running_db =
    run_calls operation_api never_before
      (creates "a" capped "f" 10
        ∷ claims_next "w1" 30 20
        ∷ sets_budget "acme" (pos 100) "ann" 21
        ∷ [])
      empty_database

abbrev done_or_empty :
    Result StoreError (Database × Receipt × List Event) → Database × Receipt × List Event
done_or_empty (Result.err e) = (empty_database, first_attempt, [])
done_or_empty (Result.ok done) = done

abbrev booked : Database × Receipt × List Event
booked =
    done_or_empty (record_model_call operation_api never_before "a" (some 1) 25 one_call running_db)

booking :
    record_model_call operation_api never_before "a" (some 1) 25 one_call running_db
    ≡ Result.ok booked
unfolding run_calls lookup claim update_also record_model_call create string_discrete insert
    operation_state_discrete set_organization_budget
booking = refl

record_model_call-Books_example : Books "a" 25 one_call running_db booked
record_model_call-Books_example =
    record_model_call-Books operation_api never_before "a" (some 1) 25 one_call running_db booked
      booking

abbrev row_or_first : Option Row → Row
row_or_first none = new_row "a" sorting "f" "a" 10
row_or_first (some row) = row

abbrev allowance_or_none : Result StoreError (Option ℤ) → Option ℤ
allowance_or_none (Result.err e) = none
allowance_or_none (Result.ok allowed) = allowed

abbrev month_zero : ℕ → ℕ
month_zero t = 0

rooted : lookup "a" booked.0.rows ≡ some (row_or_first (lookup "a" booked.0.rows))
unfolding run_calls lookup claim update_also record_model_call create string_discrete insert
    operation_state_discrete set_organization_budget
rooted = refl

own_root :
    lookup (row_or_first (lookup "a" booked.0.rows)).root_operation_id booked.0.rows
    ≡ some (row_or_first (lookup "a" booked.0.rows))
unfolding run_calls lookup claim update_also record_model_call create string_discrete insert
    operation_state_discrete set_organization_budget
own_root = refl

allowing :
    spending_allowance month_zero first_attempt 26 booked.0
    ≡ Result.ok (allowance_or_none (spending_allowance month_zero first_attempt 26 booked.0))
unfolding run_calls lookup claim update_also record_model_call create string_discrete insert
    operation_state_discrete set_organization_budget spending_allowance root_of
allowing = refl

spending_allowance-IsLowest_example :
    IsLowest
      (month_left month_zero "acme" 26 booked.0)
      (cap_left (row_or_first (lookup "a" booked.0.rows)).operation booked.0)
      (allowance_or_none (spending_allowance month_zero first_attempt 26 booked.0))
spending_allowance-IsLowest_example =
    spending_allowance-IsLowest month_zero first_attempt 26 booked.0
      (allowance_or_none (spending_allowance month_zero first_attempt 26 booked.0))
      (row_or_first (lookup "a" booked.0.rows)) (row_or_first (lookup "a" booked.0.rows)) rooted
      own_root allowing

abbrev pub describes : String → Option Description
describes type_name = some sorter

abbrev intent_api : IntentApi
intent_api = record {
  decode_json = λ t. some nested;
  hash = λ content. "f";
  describe = describes;
  validate = λ i. none;
}

abbrev created_by : {A : Type 0} → Result A Created → Created
created_by (Result.err e) = record {
  database = empty_database;
  receipt = first_attempt;
  created = false;
  events = [];
}
created_by (Result.ok c) = c
