-- ===== src/Tests/DerivationRuns.antt =====
-- internal/harness/derivation_test.go's runs on the model, and the theorems at them.
use llm_bridge_server.Prelude.{
  ◌≡◌, refl, true, false, ◌&&◌, not, List, [], ◌∷◌, some, contains, length, string_discrete, lookup,
  insert, delete, if◌then◌else◌, is_empty, ◌++◌,
}
use llm_bridge_server.Msg.State.{SessionState, Reason, state_discrete, reason_discrete}
use llm_bridge_server.Msg.Event.{HookPhase, Body}
use llm_bridge_server.Derivation.State.{
  DerivationState, new_derivation_state, new_derivation_state_seeded, is_session_end_state,
}
use llm_bridge_server.Derivation.Question.{looks_like_question}
use llm_bridge_server.Derivation.Turns.{record_for_turn, close_turn}
use llm_bridge_server.Derivation.Status.{fold_status, changed_status}
use llm_bridge_server.Derivation.Spend.{apply_result_usage, session_cost_event}
use llm_bridge_server.Derivation.Machine.{transition}
use llm_bridge_server.Derivation.Derive.{
  derive, derive_state, recorded, publish_state, held_next, account, publish_turn, publish_status,
  force_state,
}
use llm_bridge_server.Derivation.Run.{Input, observed, run, step, states_of, follow}
use llm_bridge_server.Derivation.Transitions.{follow-run}
use llm_bridge_server.Derivation.Held.{forced_end-holds, user_message-reopens}
use llm_bridge_server.Derivation.Tools.{InStep, run-InStep}
use llm_bridge_server.Derivation.TurnQueue.{IsQueue, queue_after}
use llm_bridge_server.Derivation.OpenTurns.{completions_of, derive-refines_queue, run-IsQueue}
use llm_bridge_server.Derivation.Approvals.{observe, prompt-roundtrip, GivesBack}
use llm_bridge_server.Tests.Samples.{
  sample_api, noon, event_of, calls_tool, tool_answers, says, seen, opening,
}

-- The states of TestDerivation_SimpleHappyPath.
happy_path :
    (run sample_api
      (seen Body.user_message
        ∷ seen (calls_tool "t1")
        ∷ seen (tool_answers "t1")
        ∷ seen (says "Done.")
        ∷ [])
      new_derivation_state).0.session_state
    ≡ SessionState.idle
unfolding run step derive derive_state recorded publish_state held_next transition record_for_turn
    fold_status account publish_turn publish_status close_turn changed_status new_derivation_state
    states_of state_discrete string_discrete lookup insert delete looks_like_question
    apply_result_usage session_cost_event
happy_path = refl

follow-run_example :
    follow new_derivation_state.session_state (run sample_api opening new_derivation_state).1
    ≡ some (run sample_api opening new_derivation_state).0.session_state
follow-run_example = follow-run sample_api opening new_derivation_state

run-InStep_example :
    let d = (run sample_api opening (new_derivation_state_seeded SessionState.idle)).0 in
    InStep d.active_tools d.tool_calls
run-InStep_example = run-InStep sample_api opening SessionState.idle

run-IsQueue_example :
    IsQueue (run sample_api opening (new_derivation_state_seeded SessionState.running)).0.open_turns
run-IsQueue_example = run-IsQueue sample_api opening SessionState.running

-- The server kills the session while its tools run; the process's last frames change nothing.
forced_end-holds_example :
    let d' =
      (force_state 5 SessionState.aborted Reason.aborted ""
        (run sample_api opening new_derivation_state).0).0 in
    ((run sample_api (seen (tool_answers "t1") ∷ seen (says "Done.") ∷ []) d').0.session_state
      ≡ SessionState.aborted)
    × ((run sample_api (seen (tool_answers "t1") ∷ seen (says "Done.") ∷ []) d').1 ≡ [])
unfolding run step derive derive_state recorded publish_state held_next transition record_for_turn
    fold_status account publish_turn publish_status close_turn changed_status new_derivation_state
    state_discrete reason_discrete string_discrete lookup insert force_state
forced_end-holds_example =
    forced_end-holds sample_api 5 SessionState.aborted Reason.aborted ""
      (run sample_api opening new_derivation_state).0
      (seen (tool_answers "t1") ∷ seen (says "Done.") ∷ []) refl refl (refl, (refl, tt))

abbrev completed_session : SessionState
completed_session = SessionState.completed

user_message-reopens_example :
    let d = new_derivation_state_seeded completed_session in
    let ev = event_of "turn_2" Body.user_message in
    ((derive sample_api noon ev d).0.session_state ≡ SessionState.model_generating)
    × ((derive sample_api noon ev d).0.ended_by_server ≡ false)
unfolding new_derivation_state_seeded is_session_end_state state_discrete
user_message-reopens_example =
    user_message-reopens sample_api noon (event_of "turn_2" Body.user_message)
      (new_derivation_state_seeded completed_session) refl refl

abbrev prompt_of : HookPhase → Body
prompt_of phase = Body.hook (some (record { request_id = "hreq_1"; phase = phase }))

abbrev opened : List Input
opened = seen Body.user_message ∷ []

prompt-roundtrip_example :
    let d = (run sample_api opened new_derivation_state).0 in
    let asked =
      (run sample_api
        (observed noon (event_of "turn_1" (prompt_of HookPhase.awaiting_resolution))
          ∷ observe ((noon, event_of "turn_1" (calls_tool "t1")) ∷ []))
        d).0 in
    let d' = (derive sample_api noon (event_of "turn_1" (prompt_of HookPhase.completed)) asked).0 in
    (asked.session_state ≡ SessionState.awaiting_permission)
    × GivesBack d.session_state d'.session_state
    × (d'.awaiting_approval ≡ false)
    × (d'.pending_approvals ≡ [])
unfolding run step derive derive_state recorded publish_state held_next transition record_for_turn
    fold_status account publish_turn publish_status changed_status new_derivation_state
    state_discrete string_discrete lookup insert
prompt-roundtrip_example =
    prompt-roundtrip sample_api "hreq_1" noon noon
      (event_of "turn_1" (prompt_of HookPhase.awaiting_resolution))
      (event_of "turn_1" (prompt_of HookPhase.completed))
      ((noon, event_of "turn_1" (calls_tool "t1")) ∷ [])
      (run sample_api opened new_derivation_state).0 refl refl refl refl refl refl (refl, tt)

-- A turn asks, and the user writes instead of answering.
abbrev asking : DerivationState
asking =
    (run sample_api (opened ++ (seen (prompt_of HookPhase.awaiting_resolution) ∷ []))
      new_derivation_state).0

derive-refines_queue_example :
    let d = (run sample_api opening (new_derivation_state_seeded SessionState.idle)).0 in
    let ev = event_of "turn_1" (says "Done.") in
    ((derive sample_api noon ev d).0.open_turns.turn_order
      ≡ queue_after "turn_1" true d.open_turns.turn_order)
    × (length (completions_of (derive sample_api noon ev d).1) ≡ (
        if true && not (is_empty "turn_1") && contains "turn_1" d.open_turns.turn_order
        then 1
        else 0))
derive-refines_queue_example =
    derive-refines_queue sample_api noon (event_of "turn_1" (says "Done."))
      (run sample_api opening (new_derivation_state_seeded SessionState.idle)).0
      (run-IsQueue sample_api opening SessionState.idle)
