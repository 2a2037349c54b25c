-- ===== src/Derivation/Held.antt =====
-- endedByServer of internal/harness/derivation.go: a state that the server forced to an end.
use llm_bridge_server.Prelude.{ℕ, ◌≡◌, refl, String, true, false, List, [], ◌∷◌, arith, ◌∙◌}
use llm_bridge_server.Msg.State.{SessionState, Reason}
use llm_bridge_server.Msg.Event.{Body, Event}
use llm_bridge_server.Msg.Api.{Api, Clock}
use llm_bridge_server.Derivation.State.{DerivationState, is_session_end_state, contains_state}
use llm_bridge_server.Derivation.Status.{clear_turn_in_flight}
use llm_bridge_server.Derivation.Machine.{Move, transition}
use llm_bridge_server.Derivation.Derive.{
  derive, derive_state, publish_state, recorded, held_next, opens_new_activity, force_state,
  apply_external_state,
}
use llm_bridge_server.Derivation.Run.{Input, observed, forced, external, step, run}
use llm_bridge_server.Derivation.Transitions.{
  announced_self, derive_machine, transition_keeps, step-announces,
}

-- What may still arrive once a session has ended in `s`: frames of the dying process, and verdicts
-- about other states.
abbrev pub IsLate : SessionState → Input → Type 0
IsLate s (observed now ev) = opens_new_activity ev.body ≡ false
IsLate s (forced now next r detail) = ⊥
IsLate s (external now next r from) = contains_state s from ≡ false

abbrev pub AllLate : SessionState → List Input → Type 0
AllLate s [] = Unit
AllLate s (i ∷ is) = IsLate s i × AllLate s is

held_next_stays :
    (body : Body) (prev : SessionState) (mv : Move)
    → mv.after.ended_by_server ≡ true
    → opens_new_activity body ≡ false
    → held_next body prev mv ≡ prev
unfolding held_next
held_next_stays body prev mv h late = ground arith

publish_state_stays :
    (now : Clock) (ev : Event) (prev next : SessionState) (r : Reason) (d : DerivationState)
    → next ≡ prev
    → (publish_state now ev prev next r d).0 ≡ d
unfolding publish_state
publish_state_stays now ev prev next r d h = ground arith

derive_held :
    (api : Api) (now : Clock) (ev : Event) (d : DerivationState)
    → d.ended_by_server ≡ true
    → opens_new_activity ev.body ≡ false
    → ((derive api now ev d).0.session_state ≡ d.session_state)
      × ((derive api now ev d).0.ended_by_server ≡ true)
unfolding derive_state recorded
derive_held api now ev d h late =
    let mv = transition api ev.body (recorded api now ev d) in
    let keeps = transition_keeps api ev.body (recorded api now ev d) in
    let next = held_next ev.body d.session_state mv in
    let same =
      publish_state_stays now ev d.session_state next mv.reason mv.after
        (held_next_stays ev.body d.session_state mv (cc keeps.1) late) in
    rw (derive_machine api now ev d) (rw same keeps.0, rw same (keeps.1 ∙ h))

external_held :
    (now : ℕ) (next : SessionState) (r : Reason) (from : List SessionState) (d : DerivationState)
    → is_session_end_state d.session_state ≡ true
    → contains_state d.session_state from ≡ false
    → (apply_external_state now next r from d).0.machine ≡ d.machine
unfolding apply_external_state is_session_end_state
external_held now next r from d e late = ground arith

step_held :
    (api : Api) (i : Input) (d : DerivationState)
    → d.ended_by_server ≡ true
    → is_session_end_state d.session_state ≡ true
    → IsLate d.session_state i
    → ((step api i d).0.session_state ≡ d.session_state) × ((step api i d).0.ended_by_server ≡ true)
unfolding step
step_held api (observed now ev) d h e late = derive_held api now ev d h late
step_held api (forced now next r detail) d h e late = elim late [ ]
step_held api (external now next r from) d h e late =
    rw (external_held now next r from d e late) (refl, h)

run_held :
    (api : Api) (is : List Input) (d : DerivationState)
    → d.ended_by_server ≡ true
    → is_session_end_state d.session_state ≡ true
    → AllLate d.session_state is
    → ((run api is d).0.session_state ≡ d.session_state) × ((run api is d).1 ≡ [])
unfolding run
run_held api [] d h e late = (refl, refl)
run_held api (i ∷ is) d h e late =
    let (same, ended) = step_held api i d h e late.0 in
    let rest = run_held api is (step api i d).0 ended (rw same e) (rw same late.1) in
    (rest.0 ∙ same, rw (step-announces api i d, same, announced_self, rest.1))

-- A forced move takes effect, and holds where the state is an end.
force_state_takes :
    (now : ℕ) (next : SessionState) (r : Reason) (detail : String) (d : DerivationState)
    → (force_state now next r detail d).2 ≡ true
    → ((force_state now next r detail d).0.session_state ≡ next)
      × ((force_state now next r detail d).0.ended_by_server ≡ is_session_end_state next)
unfolding force_state clear_turn_in_flight
force_state_takes now next r detail d h = ground arith

-- Once a forced move to completed, aborted or error has taken effect, no sequence of harness frames
-- but a new turn or a lifecycle state, nor of verdicts about other states, moves the session or
-- emits a session_state event.
pub forced_end-holds :
    (api : Api) (now : ℕ) (next : SessionState) (r : Reason) (detail : String) (d : DerivationState)
    (is : List Input)
    → is_session_end_state next ≡ true
    → (force_state now next r detail d).2 ≡ true
    → AllLate next is
    → let d' = (force_state now next r detail d).0 in
      ((run api is d').0.session_state ≡ next) × ((run api is d').1 ≡ [])
forced_end-holds api now next r detail d is e changed late =
    let (same, ended) = force_state_takes now next r detail d changed in
    let held =
      run_held api is (force_state now next r detail d).0 (ended ∙ e) (rw same e) (rw same late) in
    (held.0 ∙ same, held.1)

-- A new turn reopens an ended session, a forced end included: the model generates, and the end no
-- longer holds.
pub user_message-reopens :
    (api : Api) (now : Clock) (ev : Event) (d : DerivationState)
    → ev.body ≡ Body.user_message
    → is_session_end_state d.session_state ≡ true
    → ((derive api now ev d).0.session_state ≡ SessionState.model_generating)
      × ((derive api now ev d).0.ended_by_server ≡ false)
unfolding derive_state publish_state held_next transition is_session_end_state
user_message-reopens api now ev d h e =
    rw (derive_machine api now ev d) (ground arith, ground arith)
