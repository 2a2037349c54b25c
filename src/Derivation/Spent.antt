-- ===== src/Derivation/Spent.antt =====
-- What the API calls and the results of a session add to the spend that internal/harness/derivation.go
-- counts.
use mathlib.Core.Path.{subst}
use llm_bridge_server.Prelude.{
  ◌≡◌, refl, sym, ap, ◌∙◌, ltb_ℤ, int_laws, Bool-cases, inl, inr, if◌then◌else◌, List, [], ◌∷◌,
  Option, none, some, arith, ℤ, pos, ◌+ℤ◌,
}
use llm_bridge_server.Msg.Event.{Cost, ResultEvent, Body, Event}
use llm_bridge_server.Msg.Api.{Clock}
use llm_bridge_server.Derivation.State.{Spend}
use llm_bridge_server.Derivation.Spend.{
  apply_result_usage, apply_api_call, cost_estimate, session_cost_event,
}
use llm_bridge_server.Derivation.Derive.{priced, account_cost, account_result, account}
use llm_bridge_server.Derivation.Run.{Input, observed, forced, external}
use llm_bridge_server.Derivation.Account.{account_all}

add_assoc : (a b c : ℤ) → a +ℤ b +ℤ c ≡ a +ℤ (b +ℤ c)
add_assoc a b c = omega int_laws

-- What an event adds to either count of this process's spend: the cost of its API call, and the
-- price of its result where that is above zero.
abbrev pub call_cost : Body → ℤ
call_cost (Body.api_call (some a)) = a.cost_usd
call_cost _ = pos 0

abbrev pub result_price : Body → ℤ
result_price (Body.result (some r)) = elim (r.cost) [
  | none ↦ pos 0
  | some c ↦ if ltb_ℤ (pos 0) c.total_usd then c.total_usd else pos 0
]
result_price _ = pos 0

-- The sum of an amount of the observed events.
unfoldable pub sum_amounts : (Body → ℤ) → List Input → ℤ
sum_amounts f [] = pos 0
sum_amounts f (observed now ev ∷ is) = f ev.body +ℤ sum_amounts f is
sum_amounts f (forced now next r detail ∷ is) = sum_amounts f is
sum_amounts f (external now next r from ∷ is) = sum_amounts f is

-- The totals after a spend by API calls and by results.
pub record IsSpent (calls results : ℤ) (s s' : Spend) : Type 0 where
  pub before : s'.cost_before_process_usd ≡ s.cost_before_process_usd
  pub api_before : s'.api_spend_before_process_usd ≡ s.api_spend_before_process_usd
  pub by_calls : s'.api_spend_usd ≡ s.api_spend_usd +ℤ calls
  pub by_results : s'.turn_result_this_process_usd ≡ s.turn_result_this_process_usd +ℤ results

no_amount : (a : ℤ) → a ≡ a +ℤ pos 0
no_amount a = omega int_laws

session_cost_event-IsSpent :
    (calls results : ℤ) (s s' : Spend)
    → IsSpent calls results s s'
    → IsSpent calls results s (session_cost_event s').0
unfolding session_cost_event
session_cost_event-IsSpent calls results s s' h =
    elim (Bool-cases (ltb_ℤ s'.session_cost_usd (cost_estimate s'))) [
      | inl b ↦
          rw (session_cost_event, b)
            (record {
              before = h.before;
              api_before = h.api_before;
              by_calls = h.by_calls;
              by_results = h.by_results;
            })
      | inr b ↦ rw (session_cost_event, b) h
    ]

unspent : (s : Spend) → IsSpent (pos 0) (pos 0) s s
unspent s = record {
  before = refl;
  api_before = refl;
  by_calls = no_amount s.api_spend_usd;
  by_results = no_amount s.turn_result_this_process_usd;
}

abbrev price_of : Option Cost → ℤ
price_of none = pos 0
price_of (some c) = c.total_usd

priced-result_price : (r : Option ResultEvent) → price_of (priced r) ≡ result_price (Body.result r)
unfolding priced
priced-result_price none = refl
priced-result_price (some r) = ground arith

apply_result_usage-IsSpent :
    (r : Option ResultEvent) (s : Spend) → IsSpent (pos 0) (pos 0) s (apply_result_usage r s)
unfolding apply_result_usage
apply_result_usage-IsSpent none s = record {
  before = refl;
  api_before = refl;
  by_calls = no_amount s.api_spend_usd;
  by_results = no_amount s.turn_result_this_process_usd;
}
apply_result_usage-IsSpent (some r) s = record {
  before = refl;
  api_before = refl;
  by_calls = no_amount s.api_spend_usd;
  by_results = no_amount s.turn_result_this_process_usd;
}

account_cost-IsSpent :
    (now : Clock) (ev : Event) (price : Option Cost) (s t : Spend)
    → IsSpent (pos 0) (pos 0) s t
    → IsSpent (pos 0) (price_of price) s (account_cost now ev price t).0
unfolding account_cost
account_cost-IsSpent now ev none s t h = h
account_cost-IsSpent now ev (some c) s t h =
    let result_usd = t.turn_result_this_process_usd +ℤ c.total_usd in
    session_cost_event-IsSpent (pos 0) c.total_usd s
      (record t { turn_result_this_process_usd = result_usd })
      (record {
        before = h.before;
        api_before = h.api_before;
        by_calls = h.by_calls;
        by_results =
            ap (λ a. a +ℤ c.total_usd)
              (h.by_results ∙ sym (no_amount s.turn_result_this_process_usd));
      })

account-IsSpent :
    (now : Clock) (ev : Event) (body : Body) (s : Spend)
    → IsSpent (call_cost body) (result_price body) s (account now ev body s).0
unfolding account apply_api_call account_result
account-IsSpent now ev (Body.result r) s =
    subst (λ price. IsSpent (pos 0) price s (account now ev (Body.result r) s).0)
      (priced-result_price r)
      (account_cost-IsSpent now ev (priced r) s (apply_result_usage r s)
        (apply_result_usage-IsSpent r s))
account-IsSpent now ev (Body.api_call none) s =
    session_cost_event-IsSpent (pos 0) (pos 0) s s (unspent s)
account-IsSpent now ev (Body.api_call (some a)) s =
    session_cost_event-IsSpent a.cost_usd (pos 0) s (apply_api_call (some a) s) (record {
      before = refl;
      api_before = refl;
      by_calls = refl;
      by_results = no_amount s.turn_result_this_process_usd;
    })
account-IsSpent now ev _ s = unspent s

then-IsSpent :
    (c r c' r' : ℤ) (s t u : Spend)
    → IsSpent c r s t
    → IsSpent c' r' t u
    → IsSpent (c +ℤ c') (r +ℤ r') s u
then-IsSpent c r c' r' s t u h k = record {
  before = k.before ∙ h.before;
  api_before = k.api_before ∙ h.api_before;
  by_calls = k.by_calls ∙ ap (λ a. a +ℤ c') h.by_calls ∙ add_assoc s.api_spend_usd c c';
  by_results =
      k.by_results ∙ ap (λ a. a +ℤ r') h.by_results ∙ add_assoc s.turn_result_this_process_usd r r';
}

pub account_all-IsSpent :
    (is : List Input) (s : Spend)
    → IsSpent (sum_amounts call_cost is) (sum_amounts result_price is) s (account_all is s)
unfolding account_all sum_amounts
account_all-IsSpent [] s = unspent s
account_all-IsSpent (observed now ev ∷ is) s =
    let t = (account now ev ev.body s).0 in
    then-IsSpent (call_cost ev.body) (result_price ev.body) (sum_amounts call_cost is)
      (sum_amounts result_price is) s t (account_all is t) (account-IsSpent now ev ev.body s)
      (account_all-IsSpent is t)
account_all-IsSpent (forced now next r detail ∷ is) s = account_all-IsSpent is s
account_all-IsSpent (external now next r from ∷ is) s = account_all-IsSpent is s
