-- ===== src/Derivation/Transitions.antt =====
-- The session_state events of internal/harness/derivation.go against the state that it keeps.
use mathlib.Core.List.{append-nil}
use llm_bridge_server.Prelude.{
  ◌≡◌, refl, List, [], ◌∷◌, ◌++◌, Option, none, some, ℕ, String, arith, if◌then◌else◌,
}
use llm_bridge_server.Msg.State.{SessionState, Reason, ◌=st◌}
use llm_bridge_server.Msg.Event.{Cost, StateEvent, Body, Event}
use llm_bridge_server.Msg.Derived.{Derived}
use llm_bridge_server.Msg.Api.{Api, Clock}
use llm_bridge_server.Derivation.State.{DerivationState, Spend}
use llm_bridge_server.Derivation.Turns.{close_turn}
use llm_bridge_server.Derivation.Status.{changed_status, clear_turn_in_flight}
use llm_bridge_server.Derivation.Spend.{apply_result_usage}
use llm_bridge_server.Derivation.Machine.{transition}
use llm_bridge_server.Derivation.Derive.{
  derive, derive_state, publish_state, publish_turn, publish_status, account, account_cost, priced,
  recorded, held_next, force_state, apply_external_state, option_to_list,
}
use llm_bridge_server.Derivation.Run.{
  Input, observed, forced, external, states_of, force_session_state, step, run, follow,
}

states_of-append : (xs ys : List Derived) → states_of (xs ++ ys) ≡ states_of xs ++ states_of ys
unfolding states_of
states_of-append [] ys = refl
states_of-append (e ∷ es) ys = ground (arith, states_of-append es ys)

publish_turn_machine :
    (now : Clock) (ev : Event) (body : Body) (d : DerivationState)
    → (publish_turn now ev body d).0.machine ≡ d.machine
unfolding publish_turn
publish_turn_machine now ev (Body.result r) d = refl
publish_turn_machine now ev _ d = refl

publish_status_machine :
    (api : Api) (now : Clock) (ev : Event) (d : DerivationState)
    → (publish_status api now ev d).0.machine ≡ d.machine
unfolding publish_status changed_status
publish_status_machine api now ev d = ground arith

-- What follows the transition leaves the state machine alone.
pub derive_machine :
    (api : Api) (now : Clock) (ev : Event) (d : DerivationState)
    → (derive api now ev d).0.machine ≡ (derive_state api now ev d).0.machine
unfolding derive
derive_machine api now ev d = rw (publish_status_machine, publish_turn_machine)

account_cost_states :
    (now : Clock) (ev : Event) (c : Option Cost) (s : Spend)
    → states_of (account_cost now ev c s).1 ≡ []
unfolding account_cost states_of
account_cost_states now ev none s = refl
account_cost_states now ev (some c) s = refl

account_states :
    (now : Clock) (ev : Event) (body : Body) (s : Spend) → states_of (account now ev body s).1 ≡ []
unfolding account states_of
account_states now ev (Body.result r) s =
    rw states_of-append (rw (account_cost_states now ev (priced r) (apply_result_usage r s)))
account_states now ev (Body.api_call a) s = refl
account_states now ev _ s = refl

publish_turn_states :
    (now : Clock) (ev : Event) (body : Body) (d : DerivationState)
    → states_of (publish_turn now ev body d).1 ≡ []
unfolding publish_turn close_turn states_of
publish_turn_states now ev (Body.result r) d = ground arith
publish_turn_states now ev (Body.error e) d = ground arith
publish_turn_states now ev _ d = refl

publish_status_states :
    (api : Api) (now : Clock) (ev : Event) (d : DerivationState)
    → states_of (publish_status api now ev d).1 ≡ []
unfolding publish_status changed_status states_of
publish_status_states api now ev d = ground arith

-- Only the transition speaks of the state.
pub derive_states :
    (api : Api) (now : Clock) (ev : Event) (d : DerivationState)
    → states_of (derive api now ev d).1 ≡ states_of (derive_state api now ev d).1
unfolding derive
derive_states api now ev d =
    simp (states_of-append, account_states, publish_turn_states, publish_status_states, append-nil)

-- The switch decides of the next state, and leaves the present one to the publication.
pub transition_keeps :
    (api : Api) (body : Body) (d : DerivationState)
    → ((transition api body d).after.session_state ≡ d.session_state)
      × ((transition api body d).after.ended_by_server ≡ d.ended_by_server)
unfolding transition
transition_keeps api (Body.tool_call c) d = ground arith
transition_keeps api (Body.tool_result r) d = ground arith
transition_keeps api (Body.system none) d = ground arith
transition_keeps api (Body.system (some s)) d = ground arith
transition_keeps api (Body.hook h) d = ground arith
transition_keeps api (Body.approval a) d = ground arith
transition_keeps api (Body.result r) d = ground arith
transition_keeps api (Body.session_state s) d = ground arith
transition_keeps api _ d = ground arith

-- The one session_state event of a move from `old`, or none where the state stays.
abbrev pub announced : SessionState → SessionState → Reason → List StateEvent
announced old new reason =
    if new =st old then [] else record { state = new; previous = old; reason = reason } ∷ []

pub announced_self : (s : SessionState) (r : Reason) → announced s s r ≡ []
announced_self s r = ground arith

publish_state_announces :
    (now : Clock) (ev : Event) (prev next : SessionState) (r : Reason) (d : DerivationState)
    → d.session_state ≡ prev
    → let d' = (publish_state now ev prev next r d).0 in
      states_of (publish_state now ev prev next r d).1
      ≡ announced prev d'.session_state d'.state_reason
unfolding publish_state states_of
publish_state_announces now ev prev next r d h = ground arith

derive_state-announces :
    (api : Api) (now : Clock) (ev : Event) (d : DerivationState)
    → let d' = (derive_state api now ev d).0 in
      states_of (derive_state api now ev d).1
      ≡ announced d.session_state d'.session_state d'.state_reason
unfolding derive_state
derive_state-announces api now ev d =
    let mv = transition api ev.body (recorded api now ev d) in
    publish_state_announces now ev d.session_state (held_next ev.body d.session_state mv) mv.reason
      mv.after (transition_keeps api ev.body (recorded api now ev d)).0

pub publish_turn_tracking :
    (now : Clock) (ev : Event) (body : Body) (d : DerivationState)
    → (publish_turn now ev body d).0.tracking ≡ d.tracking
unfolding publish_turn
publish_turn_tracking now ev (Body.result r) d = refl
publish_turn_tracking now ev _ d = refl

publish_status_reason :
    (api : Api) (now : Clock) (ev : Event) (d : DerivationState)
    → (publish_status api now ev d).0.state_reason ≡ d.state_reason
unfolding publish_status changed_status
publish_status_reason api now ev d = ground arith

derive_reason :
    (api : Api) (now : Clock) (ev : Event) (d : DerivationState)
    → (derive api now ev d).0.state_reason ≡ (derive_state api now ev d).0.state_reason
unfolding derive
derive_reason api now ev d = rw (publish_status_reason, publish_turn_tracking)

-- derive() emits one session_state event, from the state before to the state after with the reason
-- that it keeps, when the two differ, and none when they do not.
pub derive-announces :
    (api : Api) (now : Clock) (ev : Event) (d : DerivationState)
    → let d' = (derive api now ev d).0 in
      states_of (derive api now ev d).1 ≡ announced d.session_state d'.session_state d'.state_reason
derive-announces api now ev d =
    rw (derive_states api now ev d, derive_reason api now ev d, derive_machine api now ev d)
      (derive_state-announces api now ev d)

force_session_state-announces :
    (now : ℕ) (next : SessionState) (r : Reason) (detail : String) (d : DerivationState)
    → let d' = (force_session_state now next r detail d).0 in
      (force_session_state now next r detail d).1
      ≡ announced d.session_state d'.session_state d'.state_reason
unfolding force_session_state force_state clear_turn_in_flight
force_session_state-announces now next r detail d = ground arith

apply_external_state-announces :
    (now : ℕ) (next : SessionState) (r : Reason) (from : List SessionState) (d : DerivationState)
    → let d' = (apply_external_state now next r from d).0 in
      option_to_list (apply_external_state now next r from d).1
      ≡ announced d.session_state d'.session_state d'.state_reason
unfolding apply_external_state
apply_external_state-announces now next r from d = ground arith

-- Every input announces exactly the move that it makes.
pub step-announces :
    (api : Api) (i : Input) (d : DerivationState)
    → let d' = (step api i d).0 in
      (step api i d).1 ≡ announced d.session_state d'.session_state d'.state_reason
unfolding step
step-announces api (observed now ev) d = derive-announces api now ev d
step-announces api (forced now next r detail) d = force_session_state-announces now next r detail d
step-announces api (external now next r from) d = apply_external_state-announces now next r from d

follow-announced :
    (s t : SessionState) (r : Reason) (es : List StateEvent)
    → follow s (announced s t r ++ es) ≡ follow t es
unfolding follow
follow-announced s t r es = ground arith

-- The session_state events that the derivation makes over any run of harness events, forced states
-- and external verdicts form one chain: the first comes from the state that the session was in, each
-- further one from the state of the one before, each to another state, and the last is the state that
-- the derivation ends in. The raw session_state events of a harness, which the manager passes on with
-- no previous state, and those that the manager makes on its own are not among them.
pub follow-run :
    (api : Api) (is : List Input) (d : DerivationState)
    → follow d.session_state (run api is d).1 ≡ some (run api is d).0.session_state
unfolding run
follow-run api [] d = unfold follow in refl
follow-run api (i ∷ is) d =
    let d' = (step api i d).0 in
    rw (step-announces api i d) (
      rw (follow-announced d.session_state d'.session_state d'.state_reason) (follow-run api is d'))
