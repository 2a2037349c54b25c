-- ===== src/Derivation/Estimate.antt =====
-- The session cost estimate of internal/harness/derivation.go over a session's inputs, against both
-- ways in which the process's spend is counted.
use llm_bridge_server.Prelude.{ℕ, ◌≡◌, int_laws, List, ℤ, ◌+ℤ◌, ◌-ℤ◌, ◌≤ℤ◌, String}
use llm_bridge_server.Msg.Event.{TokenUsage, Event}
use llm_bridge_server.Msg.Api.{Api}
use llm_bridge_server.Derivation.State.{Spend}
use llm_bridge_server.Derivation.Spend.{cost_estimate, seed_api_spend, seed_session_cost}

-- The estimate emitted last covers the estimate of the totals as they stand.
abbrev pub IsCovered : Spend → Type 0
IsCovered s = cost_estimate s ≤ℤ s.session_cost_usd

-- From `s` to `s'` the estimate has not gone down, and covers the totals again.
abbrev pub Advances : Spend → Spend → Type 0
Advances s s' = IsCovered s' × (s.session_cost_usd ≤ℤ s'.session_cost_usd)

-- What the manager seeds a derivation with, from the stored row: the API spend, then the cost.
abbrev pub seeded :
    ℤ → ℤ → ℤ → ℕ → TokenUsage → List (String × ℤ) → List (String × ℤ) → Spend → Spend
seeded total_usd turn_usd api_usd calls usage by_model by_source s =
    seed_session_cost total_usd turn_usd (seed_api_spend api_usd calls usage by_model by_source s)

cancel : (a b : ℤ) → a +ℤ b -ℤ a ≡ b
cancel a b = omega int_laws
