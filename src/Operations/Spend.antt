-- ===== src/Operations/Spend.antt =====
-- internal/operationstore/spend.go: the ledger of model calls, and the budgets of organizations. The
-- calendar of package time is a parameter: MonthStart as a function of times.
use llm_bridge_server.Prelude.{
  ℕ, ◌+◌, ◌%◌, ◌^◌, String, Bool, ◌&&◌, leb, List, [], ◌∷◌, ◌++◌, Option, none, some, ℤ, pos, ◌+ℤ◌,
  ltb_ℤ, lookup, insert, delete, ◌=s◌, if◌then◌else◌, Result, ◌>>=◌, or_else,
}
use llm_bridge_server.Operations.Types.{
  EventKind, OperationApi, OperationUsage, Receipt, Operation, Event, ModelCall, SpendRow, Database,
  StoreError,
}
use llm_bridge_server.Operations.Store.{Change, update_also}

abbrev pub no_usage : OperationUsage
no_usage = record {
  calls = 0;
  input_tokens = 0;
  output_tokens = 0;
  total_tokens = 0;
  cache_read_tokens = 0;
  cache_write_tokens = 0;
  cost_usd = pos 0;
}

abbrev pub usage_or_none : Option OperationUsage → OperationUsage
usage_or_none none = no_usage
usage_or_none (some u) = u

-- The sum of two ints.
infixl 65 ◌+i◌
abbrev pub ◌+i◌ : ℕ → ℕ → ℕ
a +i b = (a + b) % 2 ^ 64

unfoldable pub add_model_call : ModelCall → OperationUsage → OperationUsage
add_model_call c u = record {
  calls = u.calls +i 1;
  input_tokens = u.input_tokens +i c.input_tokens;
  output_tokens = u.output_tokens +i c.output_tokens;
  total_tokens = u.total_tokens +i (c.input_tokens +i c.output_tokens);
  cache_read_tokens = u.cache_read_tokens +i c.cache_read_tokens;
  cache_write_tokens = u.cache_write_tokens +i c.cache_write_tokens;
  cost_usd = u.cost_usd +ℤ c.cost_usd;
}

-- The change of RecordModelCall.
unfoldable pub book_call : ModelCall → Change
unfolding add_model_call
book_call c o = Result.ok (
  record o {
    receipt = record (o.receipt) {
      usage = some (add_model_call c (usage_or_none o.receipt.usage));
    };
  },
  EventKind.progress,
)

-- The row of the ledger that it writes beside.
unfoldable pub write_spend :
    String → ModelCall → ℕ → Operation → Database → Result StoreError Database
write_spend id c now o db = do
  row ← or_else (lookup id db.rows) StoreError.not_found
  Result.ok (record db {
    spend =
        db.spend
        ++ record {
          operation_id = id;
          root_operation_id = row.root_operation_id;
          organization_id = o.receipt.identity.organization_id;
          call = c;
          at_time = now;
        }
          ∷ [];
  })

-- RecordModelCall
unfoldable pub record_model_call :
    OperationApi
    → (String → String → Bool)
    → String
    → Option ℕ
    → ℕ
    → ModelCall
    → Database
    → Result StoreError (Database × Receipt × List Event)
unfolding book_call write_spend
record_model_call api id_before id token now c db =
    update_also api id_before id token now (book_call c) (write_spend id c now) db

-- `SELECT COALESCE(SUM(cost_usd), 0) FROM operation_spend WHERE …`
unfoldable pub sum_spend : (SpendRow → Bool) → List SpendRow → ℤ
sum_spend counts [] = pos 0
sum_spend counts (s ∷ rows) =
    let rest = sum_spend counts rows in if counts s then s.call.cost_usd +ℤ rest else rest

-- OrganizationSpentUSD
abbrev pub is_spent_by : String → ℕ → SpendRow → Bool
is_spent_by organization from s = s.organization_id =s organization && leb from s.at_time

unfoldable pub organization_spent_usd : String → ℕ → Database → ℤ
unfolding sum_spend
organization_spent_usd organization from db = sum_spend (is_spent_by organization from) db.spend

-- TreeSpentUSD
abbrev pub is_spent_under : String → SpendRow → Bool
is_spent_under root s = s.root_operation_id =s root

unfoldable pub tree_spent_usd : String → Database → ℤ
unfolding sum_spend
tree_spent_usd root db = sum_spend (is_spent_under root) db.spend

-- RootOf
unfoldable pub root_of : String → Database → Result StoreError Operation
root_of id db = do
  row ← or_else (lookup id db.rows) StoreError.not_found
  root ← or_else (lookup row.root_operation_id db.rows) StoreError.not_found
  Result.ok root.operation

-- SetOrganizationBudget
unfoldable pub set_organization_budget :
    String → ℤ → String → ℕ → Database → Result StoreError Database
set_organization_budget organization limit by now db =
    if ltb_ℤ limit (pos 0)
    then Result.err StoreError.negative_limit
    else Result.ok (record db {
      budgets =
          insert organization
            (record { monthly_limit_usd = limit; updated_by = by; updated_at = now }) db.budgets;
    })

-- DeleteOrganizationBudget
unfoldable pub delete_organization_budget : String → Database → Result StoreError Database
delete_organization_budget organization db = elim (lookup organization db.budgets) [
  | none ↦ Result.err StoreError.not_found
  | some b ↦ Result.ok (record db { budgets = delete organization db.budgets })
]

-- msg.OrganizationBudget
pub record OrganizationBudget : Type 0 where
  pub organization_id : String
  pub monthly_limit_usd : ℤ
  pub spent_usd : ℤ
  pub month_starts_at : ℕ

-- OrganizationBudget; `none` where the organization has no limit.
unfoldable pub organization_budget : (ℕ → ℕ) → String → ℕ → Database → Option OrganizationBudget
unfolding organization_spent_usd
organization_budget month_start organization now db = elim (lookup organization db.budgets) [
  | none ↦ none
  | some b ↦ some (record {
    organization_id = organization;
    monthly_limit_usd = b.monthly_limit_usd;
    spent_usd = organization_spent_usd organization (month_start now) db;
    month_starts_at = month_start now;
  })
]
