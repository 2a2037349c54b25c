-- ===== src/Coordinator/Spent.antt =====
-- What the ledger and the budgets of internal/operationstore/spend.go come to, said of their rows
-- alone: the sums of costs, what a month leaves, what a cap leaves.
use llm_bridge_server.Prelude.{
  ℕ, ◌≡◌, refl, ap, String, Bool, false, ◌&&◌, leb, List, [], ◌∷◌, Option, none, some, lookup,
  if◌then◌else◌, ℤ, pos, ◌+ℤ◌, ◌-ℤ◌, ltb_ℤ, ◌≤ℤ◌, Option-cases, Bool-cases, inl, inr, arith, ◌=s◌,
}
use llm_bridge_server.Operations.Types.{Operation, SpendRow, BudgetRow, Database}
use llm_bridge_server.Operations.Spend.{
  OrganizationBudget, organization_budget, organization_spent_usd, tree_spent_usd, sum_spend,
  is_spent_by, is_spent_under,
}
use llm_bridge_server.Coordinator.Intents.{exhausted_budget}
use llm_bridge_server.Coordinator.Spending.{left_of}

-- The costs of the rows that count, in their order.
abbrev pub costs : (SpendRow → Bool) → List SpendRow → List ℤ
costs counts [] = []
costs counts (s ∷ rows) =
    let rest = costs counts rows in if counts s then s.call.cost_usd ∷ rest else rest

abbrev pub total : List ℤ → ℤ
total [] = pos 0
total (cost ∷ more) = cost +ℤ total more

-- What an organization has spent since a time, and a tree since ever.
abbrev pub organization_costs : String → ℕ → Database → ℤ
organization_costs organization from db =
    total (costs (λ s. s.organization_id =s organization && leb from s.at_time) db.spend)

abbrev pub tree_costs : String → Database → ℤ
tree_costs root db = total (costs (λ s. s.root_operation_id =s root) db.spend)

sum_spend-costs :
    (counts : SpendRow → Bool) (rows : List SpendRow)
    → sum_spend counts rows ≡ total (costs counts rows)
unfolding sum_spend
sum_spend-costs counts [] = refl
sum_spend-costs counts (s ∷ rows) =
    let rest = sum_spend-costs counts rows in
    elim (Bool-cases (counts s)) [
      | inl b ↦ rw (b, sum_spend) (ap (λ t. s.call.cost_usd +ℤ t) rest)
      | inr b ↦ rw (b, sum_spend) rest
    ]

pub organization_spent_usd-costs :
    (organization : String) (from : ℕ) (db : Database)
    → organization_spent_usd organization from db ≡ organization_costs organization from db
unfolding organization_spent_usd
organization_spent_usd-costs organization from db =
    sum_spend-costs (is_spent_by organization from) db.spend

pub tree_spent_usd-costs :
    (root : String) (db : Database) → tree_spent_usd root db ≡ tree_costs root db
unfolding tree_spent_usd
tree_spent_usd-costs root db = sum_spend-costs (is_spent_under root) db.spend

-- What the month of an organization leaves: its limit less the costs since the month's start, where
-- it has a limit.
unfoldable pub month_left : (ℕ → ℕ) → String → ℕ → Database → Option ℤ
month_left month_start organization now db = elim (lookup organization db.budgets) [
  | none ↦ none
  | some b ↦ some (b.monthly_limit_usd -ℤ organization_costs organization (month_start now) db)
]

-- What the cap of a root leaves, where it has one.
abbrev pub cap_left : Operation → Database → Option ℤ
cap_left root db =
    if ltb_ℤ (pos 0) root.intent.maximum_cost_usd
    then some (root.intent.maximum_cost_usd -ℤ tree_costs root.receipt.identity.id db)
    else none

pub left_of-month_left :
    (month_start : ℕ → ℕ) (organization : String) (now : ℕ) (db : Database)
    → left_of (organization_budget month_start organization now db)
      ≡ month_left month_start organization now db
unfolding organization_budget month_left
left_of-month_left month_start organization now db =
    elim (Option-cases (lookup organization db.budgets)) [
      | inl e ↦ rw (organization_budget, month_left, e) refl
      | inr (b, e) ↦
          rw (organization_budget, month_left, e)
            (ap (λ t. some (b.monthly_limit_usd -ℤ t))
              (organization_spent_usd-costs organization (month_start now) db))
    ]

-- Where the costs of the month have reached the limit, the budget is found to be used up.
pub exhausted_budget_found :
    (month_start : ℕ → ℕ) (organization : String) (now : ℕ) (db : Database) (b : BudgetRow)
    → lookup organization db.budgets ≡ some b
    → b.monthly_limit_usd ≤ℤ organization_costs organization (month_start now) db
    → (spent : OrganizationBudget) × (exhausted_budget
          (organization_budget month_start organization now db)
        ≡ some spent)
unfolding organization_budget exhausted_budget
exhausted_budget_found month_start organization now db b e h =
    let sum = organization_spent_usd organization (month_start now) db in
    let used : b.monthly_limit_usd ≤ℤ sum =
      rw (organization_spent_usd-costs organization (month_start now) db) h in
    let full : ltb_ℤ sum b.monthly_limit_usd ≡ false = ground (arith, used) in
    (
      record {
        organization_id = organization;
        monthly_limit_usd = b.monthly_limit_usd;
        spent_usd = sum;
        month_starts_at = month_start now;
      },
      rw (organization_budget, e, exhausted_budget, full) refl,
    )
