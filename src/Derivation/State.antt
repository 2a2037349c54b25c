-- ===== src/Derivation/State.antt =====
-- The state of one session's derivation: derivationState of internal/harness/derivation.go with
-- the statusTracking that it embeds. Its fields stand in four records, one for each part of the
-- code that writes them. The two mutexes are left out: each operation of the model is one critical
-- section.
use llm_bridge_server.Prelude.{
  ℕ, String, Bool, false, ◌||◌, ◌==◌, not, List, [], ◌∷◌, Option, none, ℤ, pos, if◌then◌else◌,
  is_empty,
}
use llm_bridge_server.Msg.State.{SessionState, Reason, ◌=st◌}
use llm_bridge_server.Msg.Event.{TokenUsage, Cost, BackgroundTask, Event}
use llm_bridge_server.Msg.Derived.{
  ToolSummary, StatusTool, StatusSubagent, StatusRateLimit, Generating, SessionStatus,
}
use llm_bridge_server.Msg.Api.{Clock, ClockSite}

pub record TurnAccumulator : Type 0 where
  pub turn_id : String
  pub started_at : ℕ
  pub tool_calls : List ToolSummary
  pub active_calls : List (String × ℕ)

pub record Machine : Type 0 where
  pub session_state : SessionState
  pub ended_by_server : Bool
  pub active_tools : List (String × String)
  pub pending_approvals : List String
  pub awaiting_approval : Bool
  pub pre_approval_state : SessionState
  pub pre_compact_state : SessionState
  pub background_tasks : List BackgroundTask
  pub state_once_background_tasks_finish : SessionState

pub record Spend : Type 0 where
  pub usage : TokenUsage
  pub cost : Option Cost
  pub turns : ℕ
  pub api_spend_usd : ℤ
  pub api_spend_usage : TokenUsage
  pub api_spend_calls : ℕ
  pub api_spend_by_model : List (String × ℤ)
  pub api_spend_by_source : List (String × ℤ)
  pub cost_before_process_usd : ℤ
  pub api_spend_before_process_usd : ℤ
  pub turn_result_before_process_usd : ℤ
  pub turn_result_this_process_usd : ℤ
  pub session_cost_usd : ℤ

pub record Turns : Type 0 where
  pub turn_accums : List (String × TurnAccumulator)
  pub turn_order : List String

-- `last_status` is `none` while `statusEmitted` is false.
pub record StatusTracking : Type 0 where
  pub tool_calls : List StatusTool
  pub subagents : List StatusSubagent
  pub claimed_tool_ids : List String
  pub generating : Generating
  pub rate_limit : Option StatusRateLimit
  pub turn_started_at : ℕ
  pub changed_at : ℕ
  pub state_reason : Reason
  pub state_reason_detail : String
  pub harness_compacting : Bool
  pub last_status : Option SessionStatus

pub record DerivationState : Type 0 where
  pub machine : Machine
  pub open machine use *
  pub spend : Spend
  pub open_turns : Turns
  pub tracking : StatusTracking
  pub open tracking use *

abbrev pub zero_usage : TokenUsage
zero_usage = record {
  input_tokens = 0;
  output_tokens = 0;
  total_tokens = 0;
  cache_read_tokens = 0;
  cache_write_tokens = 0;
  reasoning_tokens = 0;
  context_tokens = 0;
  context_limit = 0;
}

abbrev pub new_spend : Spend
new_spend = record {
  usage = zero_usage;
  cost = none;
  turns = 0;
  api_spend_usd = pos 0;
  api_spend_usage = zero_usage;
  api_spend_calls = 0;
  api_spend_by_model = [];
  api_spend_by_source = [];
  cost_before_process_usd = pos 0;
  api_spend_before_process_usd = pos 0;
  turn_result_before_process_usd = pos 0;
  turn_result_this_process_usd = pos 0;
  session_cost_usd = pos 0;
}

abbrev pub new_tracking : StatusTracking
new_tracking = record {
  tool_calls = [];
  subagents = [];
  claimed_tool_ids = [];
  generating = Generating.nothing;
  rate_limit = none;
  turn_started_at = 0;
  changed_at = 0;
  state_reason = Reason.unset;
  state_reason_detail = "";
  harness_compacting = false;
  last_status = none;
}

abbrev pub new_machine : SessionState → Machine
new_machine initial = record {
  session_state = initial;
  ended_by_server = false;
  active_tools = [];
  pending_approvals = [];
  awaiting_approval = false;
  pre_approval_state = SessionState.unset;
  pre_compact_state = SessionState.unset;
  background_tasks = [];
  state_once_background_tasks_finish = SessionState.unset;
}

-- newDerivationStateSeeded
unfoldable pub new_derivation_state_seeded : SessionState → DerivationState
new_derivation_state_seeded initial = record {
  machine = new_machine (if initial =st SessionState.unset then SessionState.idle else initial);
  spend = new_spend;
  open_turns = record { turn_accums = []; turn_order = [] };
  tracking = new_tracking;
}

-- newDerivationState
unfoldable pub new_derivation_state : DerivationState
unfolding new_derivation_state_seeded
new_derivation_state = new_derivation_state_seeded SessionState.idle

-- isSessionEndState
unfoldable pub is_session_end_state : SessionState → Bool
is_session_end_state s =
    s =st SessionState.completed || s =st SessionState.aborted || s =st SessionState.error

-- HoldingSessionStates
abbrev pub holding_session_states : List SessionState
holding_session_states =
    SessionState.starting ∷ SessionState.running ∷ SessionState.model_generating
    ∷ SessionState.tool_running ∷ SessionState.compacting ∷ SessionState.awaiting_permission
    ∷ SessionState.waiting_approval ∷ SessionState.rate_limited ∷ []

-- slices.Contains
unfoldable pub contains_state : SessionState → List SessionState → Bool
contains_state s [] = false
contains_state s (t ∷ ts) = t =st s || contains_state s ts

-- isHoldingSessionState
unfoldable pub is_holding_session_state : SessionState → Bool
unfolding contains_state
is_holding_session_state s = contains_state s holding_session_states

-- eventTime
unfoldable pub event_time : Clock → ClockSite → Event → ℕ
event_time now site ev = if ev.timestamp == 0 then now site else ev.timestamp

-- eventTimestamp
unfoldable pub event_timestamp : Clock → ClockSite → Event → ℕ
event_timestamp now site ev = if not (ev.timestamp == 0) then ev.timestamp else now site

-- derivedFromIDs
unfoldable pub derived_from_ids : Event → List String
derived_from_ids ev = if is_empty ev.message_id then [] else ev.message_id ∷ []
