-- ===== src/Msg/State.antt =====
-- msg.SessionState and msg.SessionStateReason.
use llm_bridge_server.Prelude.{String, Bool, string_discrete, is_yes}

pub data SessionState : Type 0 where
  unset idle starting running model_generating tool_running compacting : SessionState
  awaiting_permission waiting_approval rate_limited awaiting_user : SessionState
  background_tasks_running paused disconnected completed aborted error : SessionState
  other_state : String → SessionState

unfoldable pub state_discrete : Discrete SessionState
state_discrete = hlevel string_discrete

infix 50 ◌=st◌
abbrev pub ◌=st◌ : SessionState → SessionState → Bool
s =st t = is_yes (state_discrete s t)

pub data Reason : Type 0 where
  unset turn_started tool_called tools_drained : Reason
  compact_requested harness_compacting compact_complete : Reason
  background_tasks_finished background_tasks_running : Reason
  permission_requested permission_resolved approval_required approval_resolved : Reason
  turn_complete turn_complete_awaiting_user turn_complete_background_tasks_running : Reason
  harness_error aborted lifecycle : Reason
  other_reason : String → Reason

unfoldable pub reason_discrete : Discrete Reason
reason_discrete = hlevel string_discrete

infix 50 ◌=r◌
abbrev pub ◌=r◌ : Reason → Reason → Bool
r =r q = is_yes (reason_discrete r q)
