-- ===== src/Derivation/Sums.antt =====
-- The sums that internal/harness/derivation.go keeps: token usage over results, and API spend over
-- calls with its breakdowns.
use llm_bridge_server.Prelude.{
  ℕ, ◌+◌, ◌%◌, ◌^◌, ◌<◌, ◌≡◌, refl, List, [], ◌∷◌, Option, none, some, arith,
}
use llm_bridge_server.Msg.Event.{TokenUsage, Cost, Body, Event}
use llm_bridge_server.Msg.Api.{Clock}
use llm_bridge_server.Derivation.State.{Spend, zero_usage, new_spend}
use llm_bridge_server.Derivation.Spend.{
  add_usage, apply_result_usage, apply_api_call, session_cost_event,
}
use llm_bridge_server.Derivation.Derive.{priced, account_cost, account}
use llm_bridge_server.Derivation.Run.{Input, observed, forced, external}
use llm_bridge_server.Derivation.Account.{account_all}

-- The usage that an event reports, and what it counts as a turn.
abbrev pub usage_of : Body → TokenUsage
usage_of (Body.result (some r)) = r.usage
usage_of _ = zero_usage

abbrev pub turn_of : Body → ℕ
turn_of (Body.result r) = 1
turn_of _ = 0

-- The sum of a measure of the observed events.
unfoldable pub sum_observed : (Body → ℕ) → List Input → ℕ
sum_observed f [] = 0
sum_observed f (observed now ev ∷ is) = f ev.body + sum_observed f is
sum_observed f (forced now next r detail ∷ is) = sum_observed f is
sum_observed f (external now next r from ∷ is) = sum_observed f is

-- The estimate leaves the sums alone.
session_cost_event_keeps :
    (s : Spend)
    → ((session_cost_event s).0.usage ≡ s.usage)
      × ((session_cost_event s).0.turns ≡ s.turns)
      × ((session_cost_event s).0.api_spend_usd ≡ s.api_spend_usd)
      × ((session_cost_event s).0.api_spend_by_model ≡ s.api_spend_by_model)
      × ((session_cost_event s).0.api_spend_by_source ≡ s.api_spend_by_source)
unfolding session_cost_event
session_cost_event_keeps s = (ground arith, ground arith, ground arith, ground arith, ground arith)

account_cost_keeps :
    (now : Clock) (ev : Event) (c : Option Cost) (s : Spend)
    → ((account_cost now ev c s).0.usage ≡ s.usage)
      × ((account_cost now ev c s).0.turns ≡ s.turns)
      × ((account_cost now ev c s).0.api_spend_usd ≡ s.api_spend_usd)
      × ((account_cost now ev c s).0.api_spend_by_model ≡ s.api_spend_by_model)
      × ((account_cost now ev c s).0.api_spend_by_source ≡ s.api_spend_by_source)
unfolding account_cost
account_cost_keeps now ev none s = (refl, refl, refl, refl, refl)
account_cost_keeps now ev (some c) s = session_cost_event_keeps _

-- A measure of the usage that applyResultUsage sums.
abbrev pub IsSummed : (TokenUsage → ℕ) → Type 0
IsSummed f = (f zero_usage ≡ 0) × ((t u : TokenUsage) → f (add_usage t u) ≡ (f t + f u) % 2 ^ 64)

account_summed :
    (now : Clock) (ev : Event) (body : Body) (s : Spend) (f : TokenUsage → ℕ)
    → IsSummed f
    → f s.usage < 2 ^ 64
    → f (account now ev body s).0.usage ≡ (f s.usage + f (usage_of body)) % 2 ^ 64
unfolding account apply_result_usage apply_api_call
account_summed now ev (Body.result none) s f sums small = omega (arith, sums.0)
account_summed now ev (Body.result (some r)) s f sums small =
    rw ((account_cost_keeps now ev (priced (some r)) (apply_result_usage (some r) s)).0)
      (sums.1 s.usage r.usage)
account_summed now ev (Body.api_call none) s f sums small =
    rw ((session_cost_event_keeps s).0) (omega (arith, sums.0))
account_summed now ev (Body.api_call (some a)) s f sums small =
    rw ((session_cost_event_keeps (apply_api_call (some a) s)).0) (omega (arith, sums.0))
account_summed now ev _ s f sums small = omega (arith, sums.0)

account_all_summed :
    (is : List Input) (s : Spend) (f : TokenUsage → ℕ)
    → IsSummed f
    → f s.usage < 2 ^ 64
    → f (account_all is s).usage ≡ (f s.usage + sum_observed (λ b. f (usage_of b)) is) % 2 ^ 64
unfolding account_all sum_observed
account_all_summed [] s f sums small = omega arith
account_all_summed (observed now ev ∷ is) s f sums small =
    let one = account_summed now ev ev.body s f sums small in
    omega
      (arith, one, account_all_summed is (account now ev ev.body s).0 f sums (omega (arith, one)))
account_all_summed (forced now next r detail ∷ is) s f sums small =
    account_all_summed is s f sums small
account_all_summed (external now next r from ∷ is) s f sums small =
    account_all_summed is s f sums small

account_turns :
    (now : Clock) (ev : Event) (body : Body) (s : Spend)
    → s.turns < 2 ^ 64
    → (account now ev body s).0.turns ≡ (s.turns + turn_of body) % 2 ^ 64
unfolding account apply_result_usage apply_api_call
account_turns now ev (Body.result none) s small = refl
account_turns now ev (Body.result (some r)) s small =
    (account_cost_keeps now ev (priced (some r)) (apply_result_usage (some r) s)).1
account_turns now ev (Body.api_call none) s small =
    rw ((session_cost_event_keeps s).1) (omega arith)
account_turns now ev (Body.api_call (some a)) s small =
    rw ((session_cost_event_keeps (apply_api_call (some a) s)).1) (omega arith)
account_turns now ev _ s small = omega arith

account_all_turns :
    (is : List Input) (s : Spend)
    → s.turns < 2 ^ 64
    → (account_all is s).turns ≡ (s.turns + sum_observed turn_of is) % 2 ^ 64
unfolding account_all sum_observed
account_all_turns [] s small = omega arith
account_all_turns (observed now ev ∷ is) s small =
    let one = account_turns now ev ev.body s small in
    omega (arith, one, account_all_turns is (account now ev ev.body s).0 (omega (arith, one)))
account_all_turns (forced now next r detail ∷ is) s small = account_all_turns is s small
account_all_turns (external now next r from ∷ is) s small = account_all_turns is s small

pub fresh_summed :
    (is : List Input) (f : TokenUsage → ℕ)
    → IsSummed f
    → f (account_all is new_spend).usage ≡ sum_observed (λ b. f (usage_of b)) is % 2 ^ 64
fresh_summed is f sums =
    let small : f new_spend.usage < 2 ^ 64 = omega (arith, sums.0) in
    omega (arith, sums.0, account_all_summed is new_spend f sums small)

pub fresh_turns :
    (is : List Input) → (account_all is new_spend).turns ≡ sum_observed turn_of is % 2 ^ 64
fresh_turns is = omega (arith, account_all_turns is new_spend (omega arith))
