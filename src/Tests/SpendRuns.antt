-- ===== src/Tests/SpendRuns.antt =====
-- Runs of the spend of a derivation, and the theorems on its totals at them.
use llm_bridge_server.Prelude.{
  ℕ, false, ◌≡◌, refl, ◌%◌, ◌^◌, List, [], ◌∷◌, ◌++◌, none, some, pos, ◌+ℤ◌,
}
use llm_bridge_server.Msg.Event.{TokenUsage, Body, Event}
use llm_bridge_server.Derivation.State.{
  DerivationState, new_spend, zero_usage, new_derivation_state,
}
use llm_bridge_server.Prelude.Text.{codes}
use llm_bridge_server.Derivation.Run.{Input, observed, run}
use llm_bridge_server.Derivation.Estimate.{seeded}
use llm_bridge_server.Derivation.Sums.{sum_observed, usage_of, turn_of}
use llm_bridge_server.Derivation.UsageTotals.{usage_totals_of, derive-sums_usage}
use llm_bridge_server.Derivation.Derive.{derive}
use llm_bridge_server.Derivation.Spent.{sum_amounts, call_cost, result_price}
use llm_bridge_server.Derivation.Spend.{zero_cost}
use llm_bridge_server.Msg.Derived.{UsageTotalEvent}
use llm_bridge_server.Tests.Samples.{sample_api, seen, noon, event_of}

-- A result that used ten tokens each way.
abbrev ten_each : TokenUsage
ten_each = record zero_usage { input_tokens = 10; output_tokens = 10; total_tokens = 20 }

abbrev answers_with : TokenUsage → Body
answers_with usage =
    Body.result
      (some (record { text = codes "Done."; usage = usage; cost = none; is_error = false }))

-- The second result of two turns.
abbrev first_turn : List Input
first_turn = seen Body.user_message ∷ seen (answers_with ten_each) ∷ seen Body.user_message ∷ []

abbrev second_result : Event
second_result = event_of "turn_1" (answers_with ten_each)

ten_twice :
    sum_observed (λ b. (usage_of b).output_tokens) (first_turn ++ observed noon second_result ∷ [])
      % 2 ^ 64
    ≡ 20
unfolding sum_observed
ten_twice = refl

derive-sums_usage_example :
    let results = first_turn ++ observed noon second_result ∷ [] in
    let sum = λ (f : TokenUsage → ℕ). sum_observed (λ b. f (usage_of b)) results % 2 ^ 64 in
    (t : UsageTotalEvent) × (usage_totals_of
        (derive sample_api noon second_result (run sample_api first_turn new_derivation_state).0).1
      ≡ t ∷ [])
    × (t.usage.input_tokens ≡ sum (λ u. u.input_tokens))
    × (t.usage.output_tokens ≡ sum (λ u. u.output_tokens))
    × (t.usage.total_tokens ≡ sum (λ u. u.total_tokens))
    × (t.usage.cache_read_tokens ≡ sum (λ u. u.cache_read_tokens))
    × (t.usage.cache_write_tokens ≡ sum (λ u. u.cache_write_tokens))
    × (t.usage.reasoning_tokens ≡ sum (λ u. u.reasoning_tokens))
    × (t.turns ≡ sum_observed turn_of results % 2 ^ 64)
unfolding new_derivation_state
derive-sums_usage_example =
    derive-sums_usage sample_api first_turn noon second_result
      (some (record { text = codes "Done."; usage = ten_each; cost = none; is_error = false }))
      new_derivation_state refl refl

-- A session whose stored row says 900 units, 500 of them from API calls.
abbrev resumed : DerivationState
resumed = record new_derivation_state {
  spend = seeded (pos 900) (pos 0) (pos 500) 3 ten_each [] [] new_spend;
}

-- An API call of 70 units, and a result priced 100.
abbrev one_call : Body
one_call = Body.api_call (
    some (record {
      model = "m";
      query_source = "repl";
      input_tokens = 10;
      output_tokens = 10;
      cache_read_tokens = 0;
      cache_creation_tokens = 0;
      cost_usd = pos 70;
    }))

abbrev priced_result : Body
priced_result = Body.result (
    some (record {
      text = codes "Done.";
      usage = ten_each;
      cost = some (record zero_cost { total_usd = pos 100 });
      is_error = false;
    }))

abbrev spending : List Input
spending = seen Body.user_message ∷ seen one_call ∷ seen priced_result ∷ []

spent_since :
    (sum_amounts call_cost spending ≡ pos 70) × (sum_amounts result_price spending ≡ pos 100)
unfolding sum_amounts ◌+ℤ◌
spent_since = (refl, refl)
