-- ===== src/Coordinator/Accepts.antt =====
-- What Submit of internal/operations/coordinator.go lets through.
use llm_bridge_server.Prelude.{
  ℕ, ◌≡◌, String, Bool, true, false, Option, none, some, pos, ltb_ℤ, ◌≤ℤ◌, lookup, is_empty, Result,
}
use llm_bridge_server.Operations.Types.{Intent, BudgetRow, Database}
use llm_bridge_server.Operations.Store.{create, Created}
use llm_bridge_server.Coordinator.Credentials.{Json}
use llm_bridge_server.Coordinator.Spent.{organization_costs}
use llm_bridge_server.Coordinator.CredentialKeys.{HasKey}
use llm_bridge_server.Coordinator.Credentials.{key_names_credential}
use llm_bridge_server.Coordinator.Intents.{
  Description, IntentApi, is_blank, is_empty_list, decoded_input, content_of,
}

-- An intent that checkIntent accepts.
pub record IsChecked (api : IntentApi) (i : Intent) (fingerprint : String) : Type 0 where
  pub description : Description
  pub described : api.describe i.operation_type ≡ some description
  pub has_organization : is_blank i.organization_id ≡ false
  pub has_key : is_blank i.idempotency_key ≡ false
  pub no_capability : is_empty_list i.requested_capabilities ≡ true
  pub no_negative_cost : ltb_ℤ i.maximum_cost_usd (pos 0) ≡ false
  pub input : Option Json
  pub decoded : decoded_input api i ≡ Result.ok input
  pub no_credential :
      (v : Json) (k : String) → input ≡ some v → HasKey v k → key_names_credential k ≡ false
  pub valid : api.validate i ≡ none
  pub hashed : fingerprint ≡ api.hash (content_of i input)

-- What a successful Submit has checked and stored.
pub record IsAccepted (api : IntentApi) (month_start : ℕ → ℕ) (id_before : String → String → Bool)
    (id : String) (i : Intent) (now : ℕ) (db : Database) (done : Created) : Type 0 where
  pub own : is_empty i.parent_operation_id ≡ true
  pub fingerprint : String
  pub checked : IsChecked api i fingerprint
  pub stored : create id_before id i fingerprint now db ≡ Result.ok done
  pub within_budget :
      (b : BudgetRow)
      → lookup i.organization_id db.budgets ≡ some b
      → b.monthly_limit_usd ≤ℤ organization_costs i.organization_id (month_start now) db
      → (done.created ≡ false) × (done.database ≡ db)
