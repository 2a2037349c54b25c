-- ===== src/Msg/Event.antt =====
-- msg.Event as the derivation reads it: `Type` with its payload pointer is one sum, where a nil
-- pointer is `none`. A time is a count of nanoseconds whose 0 is Go's zero time; an integer is
-- its 64-bit pattern; an amount of dollars is an integer multiple of a unit so small that every
-- amount met is one (the rounding, infinities and NaN of float64 have no model here).
use llm_bridge_server.Prelude.{ℕ, String, Bool, List, Option, ℤ}
use llm_bridge_server.Msg.State.{SessionState, Reason}

pub record TokenUsage : Type 0 where
  pub input_tokens : ℕ
  pub output_tokens : ℕ
  pub total_tokens : ℕ
  pub cache_read_tokens : ℕ
  pub cache_write_tokens : ℕ
  pub reasoning_tokens : ℕ
  pub context_tokens : ℕ
  pub context_limit : ℕ

pub record Cost : Type 0 where
  pub total_usd : ℤ
  pub input_usd : ℤ
  pub output_usd : ℤ
  pub upstream_cost : ℤ
  pub is_byok : Bool

pub record ToolCallEvent : Type 0 where
  pub tool_id : String
  pub name : String
  pub input : String

pub record ToolResultEvent : Type 0 where
  pub tool_id : String
  pub name : String
  pub output : String
  pub is_error : Bool

pub data TaskType : Type 0 where
  local_bash : TaskType
  other_task : String → TaskType

pub record BackgroundTask : Type 0 where
  pub task_id : String
  pub task_type : TaskType
  pub description : String

pub data RateLimitStatus : Type 0 where
  unset allowed : RateLimitStatus
  other_limit : String → RateLimitStatus

pub data Subtype : Type 0 where
  compact_ack status compact_boundary background_tasks_changed : Subtype
  task_started task_progress rate_limit other_subtype : Subtype

pub record SystemEvent : Type 0 where
  pub subtype : Subtype
  pub is_compacting : Bool  -- `Status == msg.SystemStatusCompacting`
  pub task_id : String
  pub task_type : TaskType
  pub task_status : String
  pub tool_use_id : String
  pub subagent_session_id : String
  pub subagent_type : String
  pub description : String
  pub last_tool_name : String
  pub background_tasks : List BackgroundTask
  pub rate_limit_status : RateLimitStatus
  pub rate_limit_type : String
  pub rate_limit_resets_at : ℕ

pub data HookPhase : Type 0 where
  awaiting_resolution completed other_phase : HookPhase

pub record HookEvent : Type 0 where
  pub request_id : String
  pub phase : HookPhase

pub data ApprovalStatus : Type 0 where
  pending requested approved denied auto_approved resolved other_status : ApprovalStatus

pub record ResultEvent : Type 0 where
  pub text : List ℕ  -- its code points
  pub usage : TokenUsage
  pub cost : Option Cost
  pub is_error : Bool

pub record StateEvent : Type 0 where
  pub state : SessionState
  pub previous : SessionState
  pub reason : Reason

pub record ApiCallEvent : Type 0 where
  pub model : String
  pub query_source : String
  pub cost_usd : ℤ
  pub input_tokens : ℕ
  pub output_tokens : ℕ
  pub cache_read_tokens : ℕ
  pub cache_creation_tokens : ℕ

pub data DeltaType : Type 0 where
  thinking text other_delta : DeltaType

pub data BlockType : Type 0 where
  thinking redacted_thinking text other_block : BlockType

pub data Body : Type 0 where
  user_message thinking other_event : Body
  tool_call : Option ToolCallEvent → Body
  tool_result : Option ToolResultEvent → Body
  stream : Option DeltaType → Body  -- `none` where Stream or its Delta is nil
  block : Option BlockType → Body  -- `none` where Block or its Block is nil
  system : Option SystemEvent → Body
  hook : Option HookEvent → Body
  approval : Option ApprovalStatus → Body
  result : Option ResultEvent → Body
  error : Option (List ℕ) → Body  -- the code points of Error.Message
  session_state : Option StateEvent → Body
  api_call : Option ApiCallEvent → Body

-- The fields that every derived event copies from its source.
pub record Wire : Type 0 where
  pub harness : String
  pub bridge_session_id : String
  pub harness_session_id : String
  pub client_request_id : String
  pub turn_id : String

pub record Event : Type 0 where
  pub wire : Wire
  pub message_id : String
  pub timestamp : ℕ
  pub body : Body
