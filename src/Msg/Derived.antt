-- ===== src/Msg/Derived.antt =====
-- What a derivation emits: the convenience events and the session status that they carry.
use llm_bridge_server.Prelude.{ℕ, String, Bool, List, Option, ℤ}
use llm_bridge_server.Msg.State.{SessionState, Reason}
use llm_bridge_server.Msg.Event.{TokenUsage, Cost, TaskType, RateLimitStatus, StateEvent, Wire}

pub record ToolSummary : Type 0 where
  pub tool : String
  pub input : String
  pub output : String
  pub error : String

pub record TurnCompleteEvent : Type 0 where
  pub turn_id : String
  pub tool_calls : List ToolSummary
  pub duration_ms : ℕ
  pub final_message : List ℕ
  pub usage_delta : TokenUsage
  pub cost : Option Cost
  pub is_error : Bool
  pub error_message : List ℕ

pub record UsageTotalEvent : Type 0 where
  pub usage : TokenUsage
  pub cost : Option Cost
  pub turns : ℕ

pub record ApiSpendTotalEvent : Type 0 where
  pub total_usd : ℤ
  pub usage : TokenUsage
  pub calls : ℕ
  pub by_model : List (String × ℤ)
  pub by_query_source : List (String × ℤ)

pub record SessionCostEvent : Type 0 where
  pub total_usd : ℤ
  pub api_spend_usd : ℤ
  pub turn_result_usd : ℤ

pub record StatusTool : Type 0 where
  pub tool_id : String
  pub name : String
  pub summary : String
  pub started_at : ℕ

pub record StatusSubagent : Type 0 where
  pub task_id : String
  pub task_type : TaskType
  pub subagent_type : String
  pub description : String
  pub started_at : ℕ
  pub session_id : String
  pub last_tool_name : String

pub record StatusRateLimit : Type 0 where
  pub status : RateLimitStatus
  pub limit_type : String
  pub resets_at : ℕ

pub data Generating : Type 0 where
  nothing thinking text : Generating

pub record SessionStatus : Type 0 where
  pub state : SessionState
  pub reason : Reason
  pub reason_detail : String
  pub generating : Generating
  pub tools : List StatusTool
  pub subagents : List StatusSubagent
  pub rate_limit : Option StatusRateLimit
  pub turn_started_at : ℕ
  pub changed_at : ℕ

pub data Payload : Type 0 where
  session_state : StateEvent → Payload
  session_cost : SessionCostEvent → Payload
  usage_total : UsageTotalEvent → Payload
  api_spend_total : ApiSpendTotalEvent → Payload
  turn_complete : TurnCompleteEvent → Payload
  session_status : SessionStatus → Payload

pub record Derived : Type 0 where
  pub wire : Wire
  pub timestamp : ℕ
  pub derived_from : List String
  pub payload : Payload
