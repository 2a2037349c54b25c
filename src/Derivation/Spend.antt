-- ===== src/Derivation/Spend.antt =====
-- The running totals of internal/harness/derivation.go: token usage and cost per result, spend per
-- API call, and the session's cost estimate.
use llm_bridge_server.Prelude.{
  ℕ, ◌+◌, ◌%◌, ◌^◌, String, Bool, ◌||◌, ◌==◌, List, Option, none, some, ℤ, pos, ◌+ℤ◌, ◌-ℤ◌, ltb_ℤ,
  lookup, insert, is_empty, if◌then◌else◌,
}
use llm_bridge_server.Msg.Event.{TokenUsage, Cost, ResultEvent, ApiCallEvent}
use llm_bridge_server.Msg.Derived.{SessionCostEvent}
use llm_bridge_server.Derivation.State.{Spend}

-- The sum of two ints, on their 64-bit patterns.
infixl 65 ◌+w◌
abbrev pub ◌+w◌ : ℕ → ℕ → ℕ
a +w b = (a + b) % 2 ^ 64

-- A reading of the context that is 0 leaves the last one.
unfoldable pub last_reading : ℕ → ℕ → ℕ
last_reading old new = if new == 0 then old else new

-- The usage half of applyResultUsage.
unfoldable pub add_usage : TokenUsage → TokenUsage → TokenUsage
unfolding last_reading
add_usage t u = record {
  input_tokens = t.input_tokens +w u.input_tokens;
  output_tokens = t.output_tokens +w u.output_tokens;
  total_tokens = t.total_tokens +w u.total_tokens;
  cache_read_tokens = t.cache_read_tokens +w u.cache_read_tokens;
  cache_write_tokens = t.cache_write_tokens +w u.cache_write_tokens;
  reasoning_tokens = t.reasoning_tokens +w u.reasoning_tokens;
  context_tokens = last_reading t.context_tokens u.context_tokens;
  context_limit = last_reading t.context_limit u.context_limit;
}

abbrev pub zero_cost : Cost
zero_cost = record {
  total_usd = pos 0;
  input_usd = pos 0;
  output_usd = pos 0;
  upstream_cost = pos 0;
  is_byok = Bool.false;
}

unfoldable pub sum_cost : Cost → Cost → Cost
sum_cost a c = record {
  total_usd = a.total_usd +ℤ c.total_usd;
  input_usd = a.input_usd +ℤ c.input_usd;
  output_usd = a.output_usd +ℤ c.output_usd;
  upstream_cost = a.upstream_cost +ℤ c.upstream_cost;
  is_byok = a.is_byok || c.is_byok;
}

-- The cost half of applyResultUsage.
unfoldable pub add_cost : Option Cost → Option Cost → Option Cost
unfolding sum_cost
add_cost total none = total
add_cost none (some c) = some (sum_cost zero_cost c)
add_cost (some t) (some c) = some (sum_cost t c)

-- applyResultUsage
unfoldable pub apply_result_usage : Option ResultEvent → Spend → Spend
unfolding add_usage add_cost
apply_result_usage none s = record s { turns = s.turns +w 1 }
apply_result_usage (some r) s = record s {
  turns = s.turns +w 1;
  usage = add_usage s.usage r.usage;
  cost = add_cost s.cost r.cost;
}

-- `m[k] += usd` where the key is not empty.
unfoldable pub attribute : String → ℤ → List (String × ℤ) → List (String × ℤ)
attribute k usd m =
    if is_empty k
    then m
    else insert k (elim (lookup k m) [ none ↦ pos 0 +ℤ usd | some old ↦ old +ℤ usd ]) m

unfoldable pub add_call_usage : TokenUsage → ApiCallEvent → TokenUsage
add_call_usage t a = record t {
  input_tokens = t.input_tokens +w a.input_tokens;
  output_tokens = t.output_tokens +w a.output_tokens;
  cache_read_tokens = t.cache_read_tokens +w a.cache_read_tokens;
  cache_write_tokens = t.cache_write_tokens +w a.cache_creation_tokens;
  total_tokens = t.total_tokens +w (a.input_tokens +w a.output_tokens);
}

-- applyAPICall
unfoldable pub apply_api_call : Option ApiCallEvent → Spend → Spend
unfolding attribute add_call_usage
apply_api_call none s = s
apply_api_call (some a) s = record s {
  api_spend_calls = s.api_spend_calls +w 1;
  api_spend_usd = s.api_spend_usd +ℤ a.cost_usd;
  api_spend_usage = add_call_usage s.api_spend_usage a;
  api_spend_by_model = attribute a.model a.cost_usd s.api_spend_by_model;
  api_spend_by_source = attribute a.query_source a.cost_usd s.api_spend_by_source;
}

-- The estimate that sessionCostEvent compares with the last one emitted.
unfoldable pub cost_estimate : Spend → ℤ
cost_estimate s =
    let api_usd = s.api_spend_usd -ℤ s.api_spend_before_process_usd in
    s.cost_before_process_usd
    +ℤ (if ltb_ℤ api_usd s.turn_result_this_process_usd
        then s.turn_result_this_process_usd
        else api_usd)

-- sessionCostEvent
unfoldable pub session_cost_event : Spend → Spend × SessionCostEvent
unfolding cost_estimate
session_cost_event s =
    let s' : Spend =
      if ltb_ℤ s.session_cost_usd (cost_estimate s)
      then record s { session_cost_usd = cost_estimate s }
      else s in
    (
      s',
      record {
        total_usd = s'.session_cost_usd;
        api_spend_usd = s'.api_spend_usd;
        turn_result_usd = s'.turn_result_before_process_usd +ℤ s'.turn_result_this_process_usd;
      },
    )

-- seedAPISpend
unfoldable pub seed_api_spend :
    ℤ → ℕ → TokenUsage → List (String × ℤ) → List (String × ℤ) → Spend → Spend
seed_api_spend total_usd calls usage by_model by_query_source s = record s {
  api_spend_usd = total_usd;
  api_spend_calls = calls;
  api_spend_usage = usage;
  api_spend_by_model = by_model;
  api_spend_by_source = by_query_source;
}

-- seedSessionCost
unfoldable pub seed_session_cost : ℤ → ℤ → Spend → Spend
seed_session_cost total_usd turn_result_usd s = record s {
  cost_before_process_usd = total_usd;
  api_spend_before_process_usd = s.api_spend_usd;
  turn_result_before_process_usd = turn_result_usd;
  turn_result_this_process_usd = pos 0;
  session_cost_usd = total_usd;
}
