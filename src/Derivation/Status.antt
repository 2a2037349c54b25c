-- ===== src/Derivation/Status.antt =====
-- internal/harness/derivation_status.go: the tools in flight, the running tasks, what the model is
-- emitting and the rate limit, and the status built of them.
use llm_bridge_server.Prelude.{
  ℕ, String, Bool, true, false, ◌&&◌, ◌||◌, not, List, [], ◌∷◌, ◌++◌, Option, none, some, lookup,
  insert, delete, contains, include, is_empty, ◌=s◌, if◌then◌else◌,
}
use llm_bridge_server.Msg.State.{SessionState, ◌=st◌}
use llm_bridge_server.Msg.Event.{
  ToolCallEvent, TaskType, BackgroundTask, RateLimitStatus, Subtype, SystemEvent, DeltaType,
  BlockType, Body, Event,
}
use llm_bridge_server.Msg.Derived.{
  StatusTool, StatusSubagent, StatusRateLimit, Generating, SessionStatus,
}
use llm_bridge_server.Msg.Api.{Api, Clock, ClockSite}
use llm_bridge_server.Derivation.State.{StatusTracking, DerivationState, event_time}

unfoldable pub has_tool : String → List StatusTool → Bool
has_tool id [] = false
has_tool id (call ∷ calls) = call.tool_id =s id || has_tool id calls

unfoldable pub remove_tool : String → List StatusTool → List StatusTool
remove_tool id [] = []
remove_tool id (call ∷ calls) = if call.tool_id =s id then calls else call ∷ remove_tool id calls

-- foldStatus on a tool call with an id.
unfoldable pub start_tool : Api → Clock → Event → ToolCallEvent → StatusTracking → StatusTracking
unfolding has_tool
start_tool api now ev c s = if has_tool c.tool_id s.tool_calls then s else record s {
  tool_calls =
      s.tool_calls
      ++ record {
        tool_id = c.tool_id;
        name = c.name;
        summary = api.tool_call_summary c.name c.input;
        started_at = event_time now ClockSite.at_fold ev;
      }
        ∷ [];
  generating = Generating.nothing;
}

unfoldable pub lists_task : String → List BackgroundTask → Bool
lists_task id [] = false
lists_task id (task ∷ tasks) = task.task_id =s id || lists_task id tasks

abbrev pub is_local_bash : TaskType → Bool
is_local_bash TaskType.local_bash = true
is_local_bash _ = false

unfoldable pub has_subagent : String → List StatusSubagent → Bool
has_subagent id [] = false
has_subagent id (task ∷ tasks) = task.task_id =s id || has_subagent id tasks

-- replaceSubagent at the first task that passes the test.
unfoldable pub replace_subagent :
    (StatusSubagent → Bool)
    → (StatusSubagent → StatusSubagent)
    → List StatusSubagent
    → List StatusSubagent
replace_subagent test edit [] = []
replace_subagent test edit (task ∷ tasks) =
    if test task then edit task ∷ tasks else task ∷ replace_subagent test edit tasks

unfoldable pub remove_subagent : String → List StatusSubagent → List StatusSubagent
remove_subagent id [] = []
remove_subagent id (task ∷ tasks) =
    if task.task_id =s id then tasks else task ∷ remove_subagent id tasks

-- The task_started case: the tracking, and whether the switch is left by a return.
unfoldable pub start_task :
    Clock → List BackgroundTask → Event → SystemEvent → StatusTracking → StatusTracking × Bool
unfolding lists_task has_subagent replace_subagent
start_task now running ev sys s =
    if is_empty sys.task_id || (is_local_bash sys.task_type && not (lists_task sys.task_id running))
    then (s, true)
    else let claimed : List String =
        if is_empty sys.tool_use_id
        then s.claimed_tool_ids
        else include sys.tool_use_id s.claimed_tool_ids in
      if has_subagent sys.task_id s.subagents
      then (
        record s {
          claimed_tool_ids = claimed;
          subagents =
              if is_empty sys.subagent_session_id
              then s.subagents
              else replace_subagent (λ t. t.task_id =s sys.task_id)
                  (λ t. record t { session_id = sys.subagent_session_id }) s.subagents;
        },
        true,
      )
      else (
        record s {
          claimed_tool_ids = claimed;
          subagents =
              s.subagents
              ++ record {
                task_id = sys.task_id;
                task_type = sys.task_type;
                subagent_type = sys.subagent_type;
                description = sys.description;
                started_at = event_time now ClockSite.at_fold ev;
                session_id = sys.subagent_session_id;
                last_tool_name = "";
              }
                ∷ [];
        },
        false,
      )

-- The test of the task_progress loop.
abbrev pub progresses : SystemEvent → StatusSubagent → Bool
progresses sys t = t.task_id =s sys.task_id && not (t.last_tool_name =s sys.last_tool_name)

unfoldable pub any_subagent : (StatusSubagent → Bool) → List StatusSubagent → Bool
any_subagent test [] = false
any_subagent test (task ∷ tasks) = test task || any_subagent test tasks

-- The task_progress case: the tracking, and whether the switch is left by a return.
unfoldable pub progress_task : SystemEvent → StatusTracking → StatusTracking × Bool
unfolding any_subagent replace_subagent
progress_task sys s =
    if is_empty sys.task_id || is_empty sys.last_tool_name
    then (s, true)
    else if any_subagent (progresses sys) s.subagents
    then (
      record s {
        subagents =
            replace_subagent (progresses sys)
              (λ t. record t { last_tool_name = sys.last_tool_name }) s.subagents;
      },
      true,
    )
    else (s, false)

-- The map of the listed tasks.
unfoldable pub listed_tasks :
    List BackgroundTask → List (String × BackgroundTask) → List (String × BackgroundTask)
listed_tasks [] listed = listed
listed_tasks (task ∷ tasks) listed = listed_tasks tasks (insert task.task_id task listed)

-- The loop over the known tasks: those that stay, and what of the list is left unseen.
unfoldable pub keep_listed :
    List (String × BackgroundTask)
    → List StatusSubagent
    → List StatusSubagent × List (String × BackgroundTask)
keep_listed listed [] = ([], listed)
keep_listed listed (task ∷ tasks) = elim (lookup task.task_id listed) [
  | none ↦ keep_listed listed tasks
  | some _ ↦
      let (kept, unseen) = keep_listed (delete task.task_id listed) tasks in (task ∷ kept, unseen)
]

-- The loop over the frame's tasks, which adds the unseen ones.
unfoldable pub add_unseen :
    ℕ → List (String × BackgroundTask) → List BackgroundTask → List StatusSubagent
add_unseen started unseen [] = []
add_unseen started unseen (task ∷ tasks) =
    let rest = add_unseen started unseen tasks in
    elim (lookup task.task_id unseen) [
      | none ↦ rest
      | some t ↦
          record {
            task_id = t.task_id;
            task_type = t.task_type;
            subagent_type = "";
            description = t.description;
            started_at = started;
            session_id = "";
            last_tool_name = "";
          }
          ∷ rest
    ]

-- The background_tasks_changed case.
unfoldable pub relist_tasks : ℕ → List BackgroundTask → List StatusSubagent → List StatusSubagent
unfolding listed_tasks keep_listed add_unseen
relist_tasks started tasks subagents =
    let (kept, unseen) = keep_listed (listed_tasks tasks []) subagents in
    kept ++ add_unseen started unseen tasks

-- The rate_limit case.
unfoldable pub fold_rate_limit : SystemEvent → Option StatusRateLimit → Option StatusRateLimit
fold_rate_limit sys limit = elim (sys.rate_limit_status) [
  | RateLimitStatus.unset ↦ limit
  | RateLimitStatus.allowed ↦ none
  | RateLimitStatus.other_limit _ ↦ some (record {
    status = sys.rate_limit_status;
    limit_type = sys.rate_limit_type;
    resets_at = sys.rate_limit_resets_at;
  })
]

-- The switch of foldSystemStatus, and whether it is left by a return.
unfoldable pub fold_subtype :
    Clock → List BackgroundTask → Event → SystemEvent → StatusTracking → StatusTracking × Bool
unfolding start_task progress_task relist_tasks fold_rate_limit
fold_subtype now running ev sys s = elim (sys.subtype) [
  | Subtype.task_started ↦ start_task now running ev sys s
  | Subtype.task_progress ↦ progress_task sys s
  | Subtype.background_tasks_changed ↦ (
    record s {
      subagents =
          relist_tasks (event_time now ClockSite.at_fold_added ev) sys.background_tasks s.subagents;
    },
    false,
  )
  | Subtype.rate_limit ↦ (record s { rate_limit = fold_rate_limit sys s.rate_limit }, false)
  | _ ↦ (s, false)
]

-- foldSystemStatus
unfoldable pub fold_system_status :
    Api → Clock → List BackgroundTask → Event → SystemEvent → StatusTracking → StatusTracking
unfolding fold_subtype remove_subagent
fold_system_status api now running ev sys s =
    let (s', returned) = fold_subtype now running ev sys s in
    if not returned && not (is_empty sys.task_id) && api.task_status_is_terminal sys.task_status
    then record s' { subagents = remove_subagent sys.task_id s'.subagents }
    else s'

abbrev pub delta_generating : DeltaType → Generating → Generating
delta_generating DeltaType.thinking g = Generating.thinking
delta_generating DeltaType.text g = Generating.text
delta_generating DeltaType.other_delta g = g

abbrev pub block_generating : BlockType → Generating → Generating
block_generating BlockType.thinking g = Generating.thinking
block_generating BlockType.redacted_thinking g = Generating.thinking
block_generating BlockType.text g = Generating.text
block_generating BlockType.other_block g = g

-- The switch of foldStatus.
unfoldable pub fold_body :
    Api → Clock → List BackgroundTask → Event → Body → StatusTracking → StatusTracking
unfolding start_tool remove_tool fold_system_status
fold_body api now running ev Body.user_message s = record s {
  turn_started_at = event_time now ClockSite.at_fold ev;
  generating = Generating.nothing;
}
fold_body api now running ev (Body.tool_call (some c)) s =
    if is_empty c.tool_id then s else start_tool api now ev c s
fold_body api now running ev (Body.tool_result (some r)) s =
    if is_empty r.tool_id then s else record s { tool_calls = remove_tool r.tool_id s.tool_calls }
fold_body api now running ev Body.thinking s = record s { generating = Generating.thinking }
fold_body api now running ev (Body.stream (some delta)) s = record s {
  generating = delta_generating delta s.generating;
}
fold_body api now running ev (Body.block (some block)) s = record s {
  generating = block_generating block s.generating;
}
fold_body api now running ev (Body.system (some sys)) s =
    fold_system_status api now running ev sys s
fold_body api now running ev _ s = s

-- foldStatus
unfoldable pub fold_status :
    Api → Clock → List BackgroundTask → Event → StatusTracking → StatusTracking
unfolding fold_body
fold_status api now running ev s = fold_body api now running ev ev.body s

-- clearTurnInFlight
unfoldable pub clear_turn_in_flight : DerivationState → DerivationState
clear_turn_in_flight d = record d {
  machine = record (d.machine) {
    active_tools = [];
    awaiting_approval = false;
    pending_approvals = [];
  };
  tracking = record (d.tracking) {
    tool_calls = [];
    generating = Generating.nothing;
    turn_started_at = 0;
    harness_compacting = false;
  };
}

-- The loop of statusLocked over the calls in flight.
unfoldable pub unclaimed : List String → List StatusTool → List StatusTool
unclaimed claimed [] = []
unclaimed claimed (call ∷ calls) =
    let rest = unclaimed claimed calls in
    if contains call.tool_id claimed then rest else call ∷ rest

-- statusLocked
unfoldable pub status_locked : DerivationState → SessionStatus
unfolding unclaimed
status_locked d = record {
  state = d.session_state;
  reason = d.state_reason;
  reason_detail = d.state_reason_detail;
  generating =
      if d.session_state =st SessionState.model_generating
      then d.generating
      else Generating.nothing;
  tools = unclaimed d.claimed_tool_ids d.tool_calls;
  subagents = d.subagents;
  rate_limit = d.rate_limit;
  turn_started_at = d.turn_started_at;
  changed_at = d.changed_at;
}

-- Whether the last status emitted says what this one says.
unfoldable pub already_emitted : Api → DerivationState → Bool
unfolding status_locked
already_emitted api d = elim (d.last_status) [
  | none ↦ false
  | some last ↦ api.status_equal last (status_locked d)
]

-- changedStatusLocked
unfoldable pub changed_status : Api → DerivationState → DerivationState × Option SessionStatus
unfolding already_emitted
changed_status api d = if already_emitted api d then (d, none) else (
  record d { tracking = record (d.tracking) { last_status = some (status_locked d) } },
  some (status_locked d),
)
