-- ===== src/Derivation/OpenTurns.antt =====
-- The turns that a session of internal/harness/derivation.go holds open over time.
use mathlib.Core.List.{append-nil}
use llm_bridge_server.Prelude.{
  ℕ, ◌≡◌, refl, ◌∙◌, sym, String, ◌&&◌, not, List, [], ◌∷◌, ◌++◌, Option, none, some, arith,
  contains, lookup, length, is_empty, if◌then◌else◌,
}
use llm_bridge_server.Msg.State.{SessionState, Reason}
use llm_bridge_server.Msg.Event.{Cost, Body, Event}
use llm_bridge_server.Msg.Derived.{TurnCompleteEvent, Payload, Derived}
use llm_bridge_server.Msg.Api.{Api, Clock}
use llm_bridge_server.Derivation.State.{Spend, Turns, DerivationState, new_derivation_state_seeded}
use llm_bridge_server.Derivation.Turns.{is_terminator, record_for_turn, close_turn}
use llm_bridge_server.Derivation.Status.{clear_turn_in_flight, changed_status}
use llm_bridge_server.Derivation.Spend.{apply_result_usage}
use llm_bridge_server.Derivation.Machine.{transition}
use llm_bridge_server.Derivation.Derive.{
  derive, derive_state, publish_state, publish_turn, publish_status, recorded, force_state,
  apply_external_state, account, account_cost, priced,
}
use llm_bridge_server.Derivation.Run.{
  Input, observed, forced, external, force_session_state, step, run,
}
use llm_bridge_server.Derivation.TurnQueue.{
  is_some, IsQueue, queue_after, turn_step, turn_step-IsQueue, turn_step-refines,
}

transition_turns :
    (api : Api) (body : Body) (d : DerivationState)
    → (transition api body d).after.open_turns ≡ d.open_turns
unfolding transition
transition_turns api (Body.tool_call c) d = ground arith
transition_turns api (Body.tool_result r) d = ground arith
transition_turns api (Body.system none) d = refl
transition_turns api (Body.system (some s)) d = ground arith
transition_turns api (Body.hook k) d = ground arith
transition_turns api (Body.approval a) d = ground arith
transition_turns api (Body.result r) d = ground arith
transition_turns api (Body.session_state x) d = ground arith
transition_turns api _ d = refl

publish_state_turns :
    (now : Clock) (ev : Event) (prev next : SessionState) (r : Reason) (d : DerivationState)
    → (publish_state now ev prev next r d).0.open_turns ≡ d.open_turns
unfolding publish_state
publish_state_turns now ev prev next r d = ground arith

derive_state_turns :
    (api : Api) (now : Clock) (ev : Event) (d : DerivationState)
    → (derive_state api now ev d).0.open_turns ≡ record_for_turn now ev d.open_turns
unfolding derive_state recorded
derive_state_turns api now ev d =
    publish_state_turns now ev _ _ _ _ ∙ transition_turns api ev.body (recorded api now ev d)

publish_status_turns :
    (api : Api) (now : Clock) (ev : Event) (d : DerivationState)
    → (publish_status api now ev d).0.open_turns ≡ d.open_turns
unfolding publish_status changed_status
publish_status_turns api now ev d = ground arith

publish_turn_turns :
    (now : Clock) (ev : Event) (body : Body) (d : DerivationState)
    → (publish_turn now ev body d).0.open_turns
      ≡ (if is_terminator body then (close_turn now ev d.open_turns).0 else d.open_turns)
unfolding publish_turn
publish_turn_turns now ev (Body.result r) d = refl
publish_turn_turns now ev _ d = refl

turn_step_split :
    (now : Clock) (ev : Event) (t : Turns)
    → (turn_step now ev t).0 ≡ (
        if is_terminator ev.body
        then (close_turn now ev (record_for_turn now ev t)).0
        else record_for_turn now ev t)
unfolding turn_step
turn_step_split now ev t = ground arith

-- derive() moves the accumulators by the two halves alone.
derive_turns :
    (api : Api) (now : Clock) (ev : Event) (d : DerivationState)
    → (derive api now ev d).0.open_turns ≡ (turn_step now ev d.open_turns).0
unfolding derive
derive_turns api now ev d =
    publish_status_turns api now ev _
    ∙ publish_turn_turns now ev ev.body _
    ∙ rw (derive_state_turns api now ev d) (sym (turn_step_split now ev d.open_turns))

-- The turn_complete events of a list.
unfoldable pub completions_of : List Derived → List TurnCompleteEvent
completions_of [] = []
completions_of (e ∷ es) = elim (e.payload) [
  | Payload.turn_complete c ↦ c ∷ completions_of es
  | _ ↦ completions_of es
]

completions_of-append :
    (xs ys : List Derived) → completions_of (xs ++ ys) ≡ completions_of xs ++ completions_of ys
unfolding completions_of
completions_of-append [] ys = refl
completions_of-append (e ∷ es) ys = ground (arith, completions_of-append es ys)

derive_state_completes :
    (api : Api) (now : Clock) (ev : Event) (d : DerivationState)
    → completions_of (derive_state api now ev d).1 ≡ []
unfolding derive_state publish_state completions_of
derive_state_completes api now ev d = ground arith

account_cost_completes :
    (now : Clock) (ev : Event) (c : Option Cost) (s : Spend)
    → completions_of (account_cost now ev c s).1 ≡ []
unfolding account_cost completions_of
account_cost_completes now ev none s = refl
account_cost_completes now ev (some c) s = refl

account_completes :
    (now : Clock) (ev : Event) (body : Body) (s : Spend)
    → completions_of (account now ev body s).1 ≡ []
unfolding account completions_of
account_completes now ev (Body.result r) s =
    rw completions_of-append
      (rw (account_cost_completes now ev (priced r) (apply_result_usage r s)))
account_completes now ev _ s = refl

publish_status_completes :
    (api : Api) (now : Clock) (ev : Event) (d : DerivationState)
    → completions_of (publish_status api now ev d).1 ≡ []
unfolding publish_status changed_status completions_of
publish_status_completes api now ev d = ground arith

publish_turn_completes :
    (now : Clock) (ev : Event) (body : Body) (d : DerivationState)
    → length (completions_of (publish_turn now ev body d).1)
      ≡ (if is_terminator body && is_some (close_turn now ev d.open_turns).1 then 1 else 0)
unfolding publish_turn close_turn completions_of
publish_turn_completes now ev (Body.result r) d = ground arith
publish_turn_completes now ev (Body.error e) d = ground arith
publish_turn_completes now ev _ d = refl

turn_step_emits :
    (now : Clock) (ev : Event) (t : Turns)
    → is_some (turn_step now ev t).1
      ≡ (is_terminator ev.body && is_some (close_turn now ev (record_for_turn now ev t)).1)
unfolding turn_step
turn_step_emits now ev t = ground arith

derive_completes :
    (api : Api) (now : Clock) (ev : Event) (d : DerivationState)
    → length (completions_of (derive api now ev d).1)
      ≡ (if is_some (turn_step now ev d.open_turns).1 then 1 else 0)
unfolding derive
derive_completes api now ev d =
    simp
      (
        completions_of-append, derive_state_completes, account_completes, publish_status_completes,
        append-nil,
      )
      (publish_turn_completes now ev ev.body _
        ∙ rw (derive_state_turns api now ev d, turn_step_emits now ev d.open_turns))

-- Where the accumulators are a queue, derive() moves the order of the open turns as a queue of at
-- most eight ids does: a new turn goes to the end and pushes the oldest out of a full queue, a
-- terminator takes its turn out. It emits one turn_complete if a terminator finds its turn open,
-- and none otherwise.
pub derive-refines_queue :
    (api : Api) (now : Clock) (ev : Event) (d : DerivationState)
    → IsQueue d.open_turns
    → ((derive api now ev d).0.open_turns.turn_order
        ≡ queue_after ev.wire.turn_id (is_terminator ev.body) d.open_turns.turn_order)
      × (length (completions_of (derive api now ev d).1) ≡ (
          if is_terminator ev.body
            && not (is_empty ev.wire.turn_id)
            && contains ev.wire.turn_id d.open_turns.turn_order
          then 1
          else 0))
derive-refines_queue api now ev d q =
    let refined = turn_step-refines now ev d.open_turns q in
    (rw (derive_turns api now ev d) refined.0, rw (derive_completes api now ev d, refined.1) refl)

force_turns :
    (now : ℕ) (next : SessionState) (r : Reason) (detail : String) (d : DerivationState)
    → (force_session_state now next r detail d).0.open_turns ≡ d.open_turns
unfolding force_session_state force_state clear_turn_in_flight
force_turns now next r detail d = ground arith

external_turns :
    (now : ℕ) (next : SessionState) (r : Reason) (from : List SessionState) (d : DerivationState)
    → (apply_external_state now next r from d).0.open_turns ≡ d.open_turns
unfolding apply_external_state
external_turns now next r from d = ground arith

step-IsQueue :
    (api : Api) (i : Input) (d : DerivationState)
    → IsQueue d.open_turns
    → IsQueue (step api i d).0.open_turns
unfolding step
step-IsQueue api (observed now ev) d q =
    rw (derive_turns api now ev d) (turn_step-IsQueue now ev d.open_turns q)
step-IsQueue api (forced now next r detail) d q = rw (force_turns now next r detail d) q
step-IsQueue api (external now next r from) d q = rw (external_turns now next r from d) q

run-IsQueue_from :
    (api : Api) (is : List Input) (d : DerivationState)
    → IsQueue d.open_turns
    → IsQueue (run api is d).0.open_turns
unfolding run
run-IsQueue_from api [] d q = q
run-IsQueue_from api (i ∷ is) d q =
    run-IsQueue_from api is (step api i d).0 (step-IsQueue api i d q)

-- After any inputs to a fresh derivation at most eight turns are open, the order names each of them
-- once, and it names exactly the turns that have an accumulator.
pub run-IsQueue :
    (api : Api) (is : List Input) (initial : SessionState)
    → IsQueue (run api is (new_derivation_state_seeded initial)).0.open_turns
unfolding new_derivation_state_seeded lookup contains
run-IsQueue api is initial =
    run-IsQueue_from api is (new_derivation_state_seeded initial)
      (record { same = λ id. refl; distinct = tt; bounded = omega arith })
