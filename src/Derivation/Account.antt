-- ===== src/Derivation/Account.antt =====
-- What the inputs of a derivation make of its running totals, apart from the rest of derive() in
-- internal/harness/derivation.go.
use llm_bridge_server.Prelude.{ℕ, ◌≡◌, refl, ◌∙◌, ap, String, List, [], ◌∷◌, none, some, arith}
use llm_bridge_server.Msg.State.{SessionState, Reason}
use llm_bridge_server.Msg.Event.{Body, Event}
use llm_bridge_server.Msg.Api.{Api, Clock}
use llm_bridge_server.Derivation.State.{Spend, DerivationState}
use llm_bridge_server.Derivation.Status.{clear_turn_in_flight, changed_status}
use llm_bridge_server.Derivation.Machine.{transition}
use llm_bridge_server.Derivation.Derive.{
  derive, derive_state, publish_state, publish_turn, publish_status, recorded, force_state,
  apply_external_state, account,
}
use llm_bridge_server.Derivation.Run.{
  Input, observed, forced, external, force_session_state, step, run,
}

transition_spend :
    (api : Api) (body : Body) (d : DerivationState) → (transition api body d).after.spend ≡ d.spend
unfolding transition
transition_spend api (Body.tool_call c) d = ground arith
transition_spend api (Body.tool_result r) d = ground arith
transition_spend api (Body.system none) d = refl
transition_spend api (Body.system (some s)) d = ground arith
transition_spend api (Body.hook k) d = ground arith
transition_spend api (Body.approval a) d = ground arith
transition_spend api (Body.result r) d = ground arith
transition_spend api (Body.session_state x) d = ground arith
transition_spend api _ d = refl

publish_state_spend :
    (now : Clock) (ev : Event) (prev next : SessionState) (r : Reason) (d : DerivationState)
    → (publish_state now ev prev next r d).0.spend ≡ d.spend
unfolding publish_state
publish_state_spend now ev prev next r d = ground arith

pub derive_state_spend :
    (api : Api) (now : Clock) (ev : Event) (d : DerivationState)
    → (derive_state api now ev d).0.spend ≡ d.spend
unfolding derive_state recorded
derive_state_spend api now ev d =
    publish_state_spend now ev _ _ _ _ ∙ transition_spend api ev.body (recorded api now ev d)

publish_turn_spend :
    (now : Clock) (ev : Event) (body : Body) (d : DerivationState)
    → (publish_turn now ev body d).0.spend ≡ d.spend
unfolding publish_turn
publish_turn_spend now ev (Body.result r) d = refl
publish_turn_spend now ev _ d = refl

publish_status_spend :
    (api : Api) (now : Clock) (ev : Event) (d : DerivationState)
    → (publish_status api now ev d).0.spend ≡ d.spend
unfolding publish_status changed_status
publish_status_spend api now ev d = ground arith

pub derive_spend :
    (api : Api) (now : Clock) (ev : Event) (d : DerivationState)
    → (derive api now ev d).0.spend ≡ (account now ev ev.body d.spend).0
unfolding derive
derive_spend api now ev d =
    publish_status_spend api now ev _
    ∙ publish_turn_spend now ev ev.body _
    ∙ ap (λ s. (account now ev ev.body s).0) (derive_state_spend api now ev d)

-- The totals after the inputs, of which only the observed events count.
unfoldable pub account_all : List Input → Spend → Spend
account_all [] s = s
account_all (observed now ev ∷ is) s = account_all is (account now ev ev.body s).0
account_all (forced now next r detail ∷ is) s = account_all is s
account_all (external now next r from ∷ is) s = account_all is s

force_spend :
    (now : ℕ) (next : SessionState) (r : Reason) (detail : String) (d : DerivationState)
    → (force_session_state now next r detail d).0.spend ≡ d.spend
unfolding force_session_state force_state clear_turn_in_flight
force_spend now next r detail d = ground arith

external_spend :
    (now : ℕ) (next : SessionState) (r : Reason) (from : List SessionState) (d : DerivationState)
    → (apply_external_state now next r from d).0.spend ≡ d.spend
unfolding apply_external_state
external_spend now next r from d = ground arith

pub run_spend :
    (api : Api) (is : List Input) (d : DerivationState)
    → (run api is d).0.spend ≡ account_all is d.spend
unfolding run step account_all
run_spend api [] d = refl
run_spend api (observed now ev ∷ is) d =
    run_spend api is (derive api now ev d).0 ∙ ap (account_all is) (derive_spend api now ev d)
run_spend api (forced now next r detail ∷ is) d =
    run_spend api is (force_session_state now next r detail d).0
    ∙ ap (account_all is) (force_spend now next r detail d)
run_spend api (external now next r from ∷ is) d =
    run_spend api is (apply_external_state now next r from d).0
    ∙ ap (account_all is) (external_spend now next r from d)
