-- ===== src/Derivation/Machine.antt =====
-- The switch of derive() in internal/harness/derivation.go: what each event makes of the session's
-- state, before the hold of a state that the server forced.
use llm_bridge_server.Prelude.{
  String, Bool, true, false, ◌&&◌, ◌||◌, not, List, [], ◌∷◌, Option, none, some, insert, delete,
  contains, include, exclude, is_empty, if◌then◌else◌,
}
use llm_bridge_server.Msg.State.{SessionState, Reason, ◌=st◌}
use llm_bridge_server.Msg.Event.{
  ToolCallEvent, ToolResultEvent, Subtype, SystemEvent, HookPhase, HookEvent, ApprovalStatus,
  ResultEvent, StateEvent, Body,
}
use llm_bridge_server.Msg.Api.{Api}
use llm_bridge_server.Derivation.State.{DerivationState}
use llm_bridge_server.Derivation.Question.{looks_like_question}
use llm_bridge_server.Derivation.Status.{clear_turn_in_flight}

-- The derivation after a case of the switch, with its variables `next` and `reason`.
pub record Move : Type 0 where
  pub after : DerivationState
  pub next : SessionState
  pub reason : Reason

abbrev pub stay : DerivationState → Move
stay d = record { after = d; next = d.session_state; reason = Reason.unset }

-- What a held state is restored to: the model generates where there is none, or only the hold.
unfoldable pub restored : SessionState → SessionState → SessionState
restored held hold =
    if held =st SessionState.unset || held =st hold then SessionState.model_generating else held

abbrev pub is_nil {ℓ} : {A : Type ℓ} → List A → Bool
is_nil [] = true
is_nil (x ∷ xs) = false

unfoldable pub on_tool_call : Option ToolCallEvent → DerivationState → Move
on_tool_call call d =
    let next : SessionState =
      if d.awaiting_approval then d.session_state else SessionState.tool_running in
    elim call [
      | none ↦ record { after = d; next = next; reason = Reason.unset }
      | some c ↦
          if is_empty c.tool_id
          then record { after = d; next = next; reason = Reason.unset }
          else record {
            after = record d {
              machine = record (d.machine) {
                active_tools = insert c.tool_id c.name d.active_tools;
              };
            };
            next = next;
            reason = Reason.tool_called;
          }
    ]

-- The tools in flight once a result has landed.
unfoldable pub finish_tool : Option ToolResultEvent → DerivationState → DerivationState
finish_tool none d = d
finish_tool (some r) d = if is_empty r.tool_id then d else record d {
  machine = record (d.machine) { active_tools = delete r.tool_id d.active_tools };
}

unfoldable pub on_tool_result : Option ToolResultEvent → DerivationState → Move
unfolding finish_tool
on_tool_result result d =
    let d' = finish_tool result d in
    if is_nil d'.active_tools
      && not d'.awaiting_approval
      && d.session_state =st SessionState.tool_running
    then record { after = d'; next = SessionState.model_generating; reason = Reason.tools_drained }
    else stay d'

-- The first compaction frame holds the state that the compaction interrupts.
unfoldable pub hold_for_compaction : DerivationState → DerivationState
hold_for_compaction d =
    if d.session_state =st SessionState.compacting
    then d
    else record d { machine = record (d.machine) { pre_compact_state = d.session_state } }

unfoldable pub set_harness_compacting : Bool → DerivationState → DerivationState
set_harness_compacting b d = record d { tracking = record (d.tracking) { harness_compacting = b } }

abbrev pub end_compaction : DerivationState → Move
end_compaction d = record {
  after = set_harness_compacting false d;
  next = restored d.pre_compact_state SessionState.compacting;
  reason = Reason.compact_complete;
}

unfoldable pub on_status_frame : SystemEvent → DerivationState → Move
unfolding hold_for_compaction set_harness_compacting restored
on_status_frame sys d =
    if sys.is_compacting
    then record {
      after = set_harness_compacting true (hold_for_compaction d);
      next = SessionState.compacting;
      reason = Reason.harness_compacting;
    }
    else if d.harness_compacting && d.session_state =st SessionState.compacting
    then end_compaction d
    else stay d

unfoldable pub on_background_tasks : SystemEvent → DerivationState → Move
on_background_tasks sys d =
    let listed : DerivationState = record d {
      machine = record (d.machine) { background_tasks = sys.background_tasks };
    } in
    if is_nil sys.background_tasks && d.session_state =st SessionState.background_tasks_running
    then record {
      after = listed;
      next =
          if d.state_once_background_tasks_finish =st SessionState.unset
          then SessionState.idle
          else d.state_once_background_tasks_finish;
      reason = Reason.background_tasks_finished;
    }
    else if not (is_nil sys.background_tasks)
        && (d.session_state =st SessionState.idle || d.session_state =st SessionState.awaiting_user)
    then record {
      after = record listed {
        machine = record (listed.machine) { state_once_background_tasks_finish = d.session_state };
      };
      next = SessionState.background_tasks_running;
      reason = Reason.background_tasks_running;
    }
    else stay listed

unfoldable pub on_system : Option SystemEvent → DerivationState → Move
unfolding hold_for_compaction on_status_frame on_background_tasks
on_system none d = stay d
on_system (some sys) d = elim (sys.subtype) [
  | Subtype.compact_ack ↦ record {
    after = hold_for_compaction d;
    next = SessionState.compacting;
    reason = Reason.compact_requested;
  }
  | Subtype.status ↦ on_status_frame sys d
  | Subtype.compact_boundary ↦
      if d.session_state =st SessionState.compacting then end_compaction d else stay d
  | Subtype.background_tasks_changed ↦ on_background_tasks sys d
  | _ ↦ stay d
]

-- The first open prompt holds the state that it interrupts.
unfoldable pub hold_for_approval : DerivationState → DerivationState
hold_for_approval d = if d.awaiting_approval then d else record d {
  machine = record (d.machine) { pre_approval_state = d.session_state; awaiting_approval = true };
}

unfoldable pub set_pending : List String → DerivationState → DerivationState
set_pending pending d = record d { machine = record (d.machine) { pending_approvals = pending } }

unfoldable pub end_approval : Reason → DerivationState → Move
unfolding restored
end_approval reason d = record {
  after = record d { machine = record (d.machine) { awaiting_approval = false } };
  next = restored d.pre_approval_state SessionState.awaiting_permission;
  reason = reason;
}

unfoldable pub on_hook : Option HookEvent → DerivationState → Move
unfolding hold_for_approval set_pending end_approval
on_hook none d = stay d
on_hook (some h) d = if is_empty h.request_id then stay d else elim (h.phase) [
  | HookPhase.awaiting_resolution ↦ record {
    after = set_pending (include h.request_id d.pending_approvals) (hold_for_approval d);
    next = SessionState.awaiting_permission;
    reason = Reason.permission_requested;
  }
  | HookPhase.completed ↦
      let d' = set_pending (exclude h.request_id d.pending_approvals) d in
      if contains h.request_id d.pending_approvals
      then if is_nil d'.pending_approvals && d'.awaiting_approval
        then end_approval Reason.permission_resolved d'
        else stay d'
      else stay d
  | HookPhase.other_phase ↦ stay d
]

abbrev pub opens_prompt : ApprovalStatus → Bool
opens_prompt ApprovalStatus.pending = true
opens_prompt ApprovalStatus.requested = true
opens_prompt _ = false

abbrev pub closes_prompt : ApprovalStatus → Bool
closes_prompt ApprovalStatus.approved = true
closes_prompt ApprovalStatus.denied = true
closes_prompt ApprovalStatus.auto_approved = true
closes_prompt ApprovalStatus.resolved = true
closes_prompt _ = false

unfoldable pub on_approval : Option ApprovalStatus → DerivationState → Move
unfolding hold_for_approval end_approval
on_approval none d = stay d
on_approval (some status) d =
    if opens_prompt status
    then record {
      after = hold_for_approval d;
      next = SessionState.awaiting_permission;
      reason = Reason.approval_required;
    }
    else if closes_prompt status && d.awaiting_approval && is_nil d.pending_approvals
    then end_approval Reason.approval_resolved d
    else stay d

abbrev pub asks_user : Option ResultEvent → Bool
asks_user none = false
asks_user (some r) = looks_like_question r.text

unfoldable pub on_result : Option ResultEvent → DerivationState → Move
unfolding clear_turn_in_flight
on_result result d =
    let settled : SessionState =
      if asks_user result then SessionState.awaiting_user else SessionState.idle in
    if is_nil d.background_tasks
    then record {
      after = clear_turn_in_flight d;
      next = settled;
      reason =
          if asks_user result then Reason.turn_complete_awaiting_user else Reason.turn_complete;
    }
    else record {
      after = clear_turn_in_flight (record d {
        machine = record (d.machine) { state_once_background_tasks_finish = settled };
      });
      next = SessionState.background_tasks_running;
      reason = Reason.turn_complete_background_tasks_running;
    }

unfoldable pub on_error : DerivationState → Move
unfolding clear_turn_in_flight
on_error d = record {
  after = clear_turn_in_flight d;
  next = SessionState.error;
  reason = Reason.harness_error;
}

-- The lifecycle states that pass through.
abbrev pub passes_through : SessionState → Bool
passes_through SessionState.starting = true
passes_through SessionState.compacting = true
passes_through SessionState.paused = true
passes_through SessionState.rate_limited = true
passes_through SessionState.completed = true
passes_through SessionState.disconnected = true
passes_through SessionState.idle = true
passes_through _ = false

unfoldable pub forget_tasks : DerivationState → DerivationState
forget_tasks d = record d {
  machine = record (d.machine) { background_tasks = [] };
  tracking = record (d.tracking) { subagents = [] };
}

unfoldable pub on_session_state : Api → Option StateEvent → DerivationState → Move
unfolding clear_turn_in_flight forget_tasks
on_session_state api none d = stay d
on_session_state api (some s) d =
    if s.state =st SessionState.aborted
    then record {
      after = forget_tasks (clear_turn_in_flight d);
      next = SessionState.aborted;
      reason = Reason.aborted;
    }
    else if passes_through s.state
    then record {
      after = d;
      next = s.state;
      reason = if api.valid_reason s.reason then s.reason else Reason.lifecycle;
    }
    else stay d

-- The switch of derive().
unfoldable pub transition : Api → Body → DerivationState → Move
unfolding on_tool_call on_tool_result on_system on_hook on_approval on_result on_error
    on_session_state
transition api Body.user_message d = record {
  after = d;
  next = SessionState.model_generating;
  reason = Reason.turn_started;
}
transition api (Body.tool_call c) d = on_tool_call c d
transition api (Body.tool_result r) d = on_tool_result r d
transition api (Body.system s) d = on_system s d
transition api (Body.hook h) d = on_hook h d
transition api (Body.approval a) d = on_approval a d
transition api (Body.result r) d = on_result r d
transition api (Body.error e) d = on_error d
transition api (Body.session_state s) d = on_session_state api s d
transition api _ d = stay d
