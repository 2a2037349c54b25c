-- ===== src/Msg/Api.antt =====
-- The functions of msg that the derivation calls, and the clock, as parameters.
use llm_bridge_server.Prelude.{ℕ, String, Bool}
use llm_bridge_server.Msg.State.{Reason}
use llm_bridge_server.Msg.Derived.{SessionStatus}

-- ValidSessionStateReason, TaskStatusIsTerminal, ToolCallSummary and SessionStatus.Equal.
pub record Api : Type 0 where
  pub valid_reason : Reason → Bool
  pub task_status_is_terminal : String → Bool
  pub tool_call_summary : String → String → String
  pub status_equal : SessionStatus → SessionStatus → Bool

-- The calls of time.Now() within one call of the derivation, each with a reading of its own.
pub data ClockSite : Type 0 where
  at_record at_fold at_fold_added at_change at_state at_cost at_usage : ClockSite
  at_spend at_spend_cost at_close at_turn_complete at_status : ClockSite

abbrev pub Clock : Type 0
Clock = ClockSite → ℕ
