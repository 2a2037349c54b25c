-- ===== src/Coordinator/Spending.antt =====
-- listPriceUSD, RecordModelCall and spendingAllowance of internal/operations/coordinator.go, and what
-- the ledger of internal/operationstore/spend.go sums to. A price is in the unit of amounts per token.
use llm_bridge_server.Prelude.{
  ℕ, ◌+◌, ◌*◌, String, Bool, true, false, List, Option, none, some, if◌then◌else◌, ℤ, pos, ◌-ℤ◌,
  ltb_ℤ, Result, ◌>>=◌,
}
use llm_bridge_server.Operations.Types.{
  OperationApi, Receipt, Operation, Event, ModelCall, Database, StoreError,
}
use llm_bridge_server.Operations.Spend.{
  ◌+i◌, record_model_call, tree_spent_usd, root_of, organization_budget, OrganizationBudget,
}

-- msg.TokenUsage, as far as a call is priced by it.
pub record CallTokens : Type 0 where
  pub input_tokens : ℕ
  pub output_tokens : ℕ
  pub cache_read_tokens : ℕ
  pub cache_write_tokens : ℕ

-- listPriceUSD, by the prices per token of input and of output.
unfoldable pub list_price_usd : CallTokens → ℕ → ℕ → ℤ
list_price_usd t input_price output_price =
    let input_tokens = t.input_tokens +i t.cache_read_tokens +i t.cache_write_tokens in
    pos (input_tokens * input_price + t.output_tokens * output_price)

-- The call that RecordModelCall of the receipt writer books; the prices of a model are a parameter.
unfoldable pub priced_call : (String → Option (ℕ × ℕ)) → String → CallTokens → ModelCall
unfolding list_price_usd
priced_call list_price model t =
    let cost : ℤ × Bool = elim (list_price model) [
      | none ↦ (pos 0, false)
      | some (input, output) ↦ (list_price_usd t input output, true)
    ] in
    record {
      model = model;
      input_tokens = t.input_tokens;
      output_tokens = t.output_tokens;
      cache_read_tokens = t.cache_read_tokens;
      cache_write_tokens = t.cache_write_tokens;
      cost_usd = cost.0;
      cost_known = cost.1;
    }

-- RecordModelCall of the receipt writer, by the attempt that holds this operation.
unfoldable pub write_model_call :
    OperationApi
    → (String → String → Bool)
    → (String → Option (ℕ × ℕ))
    → Operation
    → String
    → CallTokens
    → ℕ
    → Database
    → Result StoreError (Database × Receipt × List Event)
unfolding priced_call record_model_call
write_model_call api id_before list_price held model t now db =
    record_model_call api id_before held.receipt.identity.id (some held.lease_token) now
      (priced_call list_price model t) db

-- What the organization's month leaves.
abbrev pub left_of : Option OrganizationBudget → Option ℤ
left_of none = none
left_of (some b) = some (b.monthly_limit_usd -ℤ b.spent_usd)

-- The lower of what is left already and what the cap leaves.
unfoldable pub lower_of : Option ℤ → ℤ → ℤ
lower_of none remaining = remaining
lower_of (some left) remaining = if ltb_ℤ remaining left then remaining else left

-- spendingAllowance; none where nothing limits it.
unfoldable pub spending_allowance : (ℕ → ℕ) → Receipt → ℕ → Database → Result StoreError (Option ℤ)
unfolding organization_budget root_of tree_spent_usd lower_of
spending_allowance month_start receipt now db =
    let left = left_of (organization_budget month_start receipt.identity.organization_id now db) in
    do
      root ← root_of receipt.identity.id db
      Result.ok (
          if ltb_ℤ (pos 0) root.intent.maximum_cost_usd
          then some (
              lower_of left
                (root.intent.maximum_cost_usd -ℤ tree_spent_usd root.receipt.identity.id db))
          else left)
