-- ===== src/Derivation/UsageTotals.antt =====
-- The usage_total events that internal/harness/derivation.go derives from the results of a session.
use mathlib.Core.Path.{subst}
use mathlib.Core.List.{append-nil}
use llm_bridge_server.Prelude.{
  ℕ, ◌%◌, ◌^◌, ◌≡◌, refl, ◌∙◌, sym, ap, List, [], ◌∷◌, ◌++◌, Option, none, some, arith,
}
use llm_bridge_server.Msg.Event.{TokenUsage, ResultEvent, Cost, Body, Event}
use llm_bridge_server.Msg.Derived.{UsageTotalEvent, Payload, Derived}
use llm_bridge_server.Msg.Api.{Api, Clock}
use llm_bridge_server.Derivation.State.{Spend, DerivationState, new_spend}
use llm_bridge_server.Derivation.Status.{changed_status}
use llm_bridge_server.Derivation.Turns.{close_turn}
use llm_bridge_server.Derivation.Spend.{apply_result_usage, add_usage}
use llm_bridge_server.Derivation.Derive.{
  derive, derive_state, publish_state, publish_turn, publish_status, priced, account_cost,
  account_result, account,
}
use llm_bridge_server.Derivation.Run.{Input, observed, forced, external, run}
use llm_bridge_server.Derivation.Account.{account_all, run_spend, derive_state_spend}
use llm_bridge_server.Derivation.Sums.{usage_of, turn_of, sum_observed, fresh_summed, fresh_turns}

-- The usage_total events of a list.
unfoldable pub usage_totals_of : List Derived → List UsageTotalEvent
usage_totals_of [] = []
usage_totals_of (e ∷ es) = elim (e.payload) [
  | Payload.usage_total t ↦ t ∷ usage_totals_of es
  | _ ↦ usage_totals_of es
]

usage_totals_of-append :
    (xs ys : List Derived) → usage_totals_of (xs ++ ys) ≡ usage_totals_of xs ++ usage_totals_of ys
unfolding usage_totals_of
usage_totals_of-append [] ys = refl
usage_totals_of-append (e ∷ es) ys = ground (arith, usage_totals_of-append es ys)

derive_state_totals :
    (api : Api) (now : Clock) (ev : Event) (d : DerivationState)
    → usage_totals_of (derive_state api now ev d).1 ≡ []
unfolding derive_state publish_state usage_totals_of
derive_state_totals api now ev d = ground arith

publish_turn_totals :
    (now : Clock) (ev : Event) (body : Body) (d : DerivationState)
    → usage_totals_of (publish_turn now ev body d).1 ≡ []
unfolding publish_turn close_turn usage_totals_of
publish_turn_totals now ev (Body.result r) d = ground arith
publish_turn_totals now ev (Body.error e) d = ground arith
publish_turn_totals now ev _ d = refl

publish_status_totals :
    (api : Api) (now : Clock) (ev : Event) (d : DerivationState)
    → usage_totals_of (publish_status api now ev d).1 ≡ []
unfolding publish_status changed_status usage_totals_of
publish_status_totals api now ev d = ground arith

account_cost_totals :
    (now : Clock) (ev : Event) (c : Option Cost) (s : Spend)
    → usage_totals_of (account_cost now ev c s).1 ≡ []
unfolding account_cost usage_totals_of
account_cost_totals now ev none s = refl
account_cost_totals now ev (some c) s = refl

abbrev total_of : Spend → UsageTotalEvent
total_of s = record { usage = s.usage; cost = s.cost; turns = s.turns }

-- A result's totals end in the usage_total of the totals after it.
account_result_totals :
    (now : Clock) (ev : Event) (r : Option ResultEvent) (s : Spend)
    → usage_totals_of (account_result now ev r s).1 ≡ total_of (account_result now ev r s).0 ∷ []
unfolding account_result usage_totals_of
account_result_totals now ev r s =
    rw usage_totals_of-append
      (rw (account_cost_totals now ev (priced r) (apply_result_usage r s)) refl)

derive_totals :
    (api : Api) (now : Clock) (ev : Event) (r : Option ResultEvent) (d : DerivationState)
    → ev.body ≡ Body.result r
    → usage_totals_of (derive api now ev d).1 ≡ total_of (account now ev ev.body d.spend).0 ∷ []
unfolding derive account
derive_totals api now ev r d b =
    let s = (derive_state api now ev d).0.spend in
    let totals : usage_totals_of (account now ev ev.body s).1
        ≡ total_of (account now ev ev.body s).0 ∷ [] =
      subst
        (λ body.
          usage_totals_of (account now ev body s).1 ≡ total_of (account now ev body s).0 ∷ [])
        (sym b) (account_result_totals now ev r s) in
    let after : total_of (account now ev ev.body s).0 ∷ []
        ≡ total_of (account now ev ev.body d.spend).0 ∷ [] =
      ap (λ (t : Spend). total_of (account now ev ev.body t).0 ∷ [])
        (derive_state_spend api now ev d) in
    subst (λ l. usage_totals_of (derive api now ev d).1 ≡ l) after
      (simp (
        usage_totals_of-append, derive_state_totals, publish_turn_totals, publish_status_totals,
        append-nil, totals,
      ))

account_all-snoc :
    (is : List Input) (now : Clock) (ev : Event) (s : Spend)
    → account_all (is ++ observed now ev ∷ []) s ≡ (account now ev ev.body (account_all is s)).0
unfolding account_all
account_all-snoc [] now ev s = refl
account_all-snoc (observed t e ∷ is) now ev s = account_all-snoc is now ev (account t e e.body s).0
account_all-snoc (forced t next r detail ∷ is) now ev s = account_all-snoc is now ev s
account_all-snoc (external t next r from ∷ is) now ev s = account_all-snoc is now ev s

-- A result that is observed after any inputs to a derivation with fresh totals brings one usage_total
-- event. Each of its summed fields is the sum of that field over the results observed so far, that
-- one among them, and its turn count their number, modulo 2^64.
pub derive-sums_usage :
    (api : Api) (is : List Input) (now : Clock) (ev : Event) (r : Option ResultEvent)
    (d : DerivationState)
    → d.spend ≡ new_spend
    → ev.body ≡ Body.result r
    → let results = is ++ observed now ev ∷ [] in
      let sum = λ (f : TokenUsage → ℕ). sum_observed (λ b. f (usage_of b)) results % 2 ^ 64 in
      (t : UsageTotalEvent) × (usage_totals_of (derive api now ev (run api is d).0).1 ≡ t ∷ [])
      × (t.usage.input_tokens ≡ sum (λ u. u.input_tokens))
      × (t.usage.output_tokens ≡ sum (λ u. u.output_tokens))
      × (t.usage.total_tokens ≡ sum (λ u. u.total_tokens))
      × (t.usage.cache_read_tokens ≡ sum (λ u. u.cache_read_tokens))
      × (t.usage.cache_write_tokens ≡ sum (λ u. u.cache_write_tokens))
      × (t.usage.reasoning_tokens ≡ sum (λ u. u.reasoning_tokens))
      × (t.turns ≡ sum_observed turn_of results % 2 ^ 64)
unfolding add_usage
derive-sums_usage api is now ev r d e b =
    let results = is ++ observed now ev ∷ [] in
    let total = fresh_summed results in
    let spend : (account now ev ev.body (run api is d).0.spend).0 ≡ account_all results new_spend =
      ap (λ (s : Spend). (account now ev ev.body s).0) (run_spend api is d ∙ ap (account_all is) e)
      ∙ sym (account_all-snoc is now ev new_spend) in
    (
      total_of (account_all results new_spend),
      derive_totals api now ev r (run api is d).0 b ∙ ap (λ (s : Spend). total_of s ∷ []) spend,
      total (λ u. u.input_tokens) (refl, λ t u. refl),
      total (λ u. u.output_tokens) (refl, λ t u. refl),
      total (λ u. u.total_tokens) (refl, λ t u. refl),
      total (λ u. u.cache_read_tokens) (refl, λ t u. refl),
      total (λ u. u.cache_write_tokens) (refl, λ t u. refl),
      total (λ u. u.reasoning_tokens) (refl, λ t u. refl),
      fresh_turns results,
    )
