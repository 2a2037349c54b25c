-- ===== src/Tests/CompactionRuns.antt =====
-- A compaction that runs while only background tasks do, through derive() of
-- internal/harness/derivation.go.
use llm_bridge_server.Prelude.{
  false, ◌≡◌, refl, List, [], ◌∷◌, some, lookup, insert, delete, string_discrete,
}
use llm_bridge_server.Msg.State.{SessionState, state_discrete}
use llm_bridge_server.Msg.Event.{BackgroundTask, TaskType, RateLimitStatus, Subtype, Body}
use llm_bridge_server.Derivation.State.{new_derivation_state_seeded, is_session_end_state}
use llm_bridge_server.Derivation.Turns.{record_for_turn}
use llm_bridge_server.Derivation.Status.{fold_status, changed_status}
use llm_bridge_server.Derivation.Machine.{transition}
use llm_bridge_server.Derivation.Derive.{
  derive, derive_state, recorded, publish_state, held_next, account, publish_turn, publish_status,
}
use llm_bridge_server.Derivation.Run.{Input, run, step}
use llm_bridge_server.Tests.Samples.{sample_api, seen}

abbrev frame : Subtype → List BackgroundTask → Body
frame subtype tasks = Body.system (
    some (record {
      subtype = subtype;
      is_compacting = false;
      task_id = "";
      task_type = TaskType.local_bash;
      task_status = "";
      tool_use_id = "";
      subagent_session_id = "";
      subagent_type = "";
      description = "";
      last_tool_name = "";
      background_tasks = tasks;
      rate_limit_status = RateLimitStatus.unset;
      rate_limit_type = "";
      rate_limit_resets_at = 0;
    }))

abbrev one_task : List BackgroundTask
one_task = record { task_id = "b1"; task_type = TaskType.local_bash; description = "build" } ∷ []

-- The last task ends while the compaction runs.
abbrev compaction : List Input
compaction =
    seen (frame Subtype.background_tasks_changed one_task)
    ∷ seen (frame Subtype.compact_ack [])
    ∷ seen (frame Subtype.background_tasks_changed [])
    ∷ seen (frame Subtype.compact_boundary [])
    ∷ []

-- The state that is restored then says that background tasks run.
restored_after_tasks :
    let d = (run sample_api compaction (new_derivation_state_seeded SessionState.idle)).0 in
    (d.session_state ≡ SessionState.background_tasks_running) × (d.background_tasks ≡ [])
unfolding run step derive derive_state recorded publish_state held_next transition record_for_turn
    fold_status account publish_turn publish_status changed_status new_derivation_state_seeded
    is_session_end_state state_discrete string_discrete lookup insert delete
restored_after_tasks = (refl, refl)
