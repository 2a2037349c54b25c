-- ===== src/Derivation/Turns.antt =====
-- The per-turn accumulators of internal/harness/derivation.go: recordForTurn and closeTurn.
use llm_bridge_server.Prelude.{
  ℕ, zero, suc, ◌-◌, ◌/◌, ◌^◌, min, String, Bool, true, false, ◌&&◌, not, ◌==◌, List, [], ◌∷◌, ◌++◌,
  Option, none, some, lookup, insert, delete, length, ltb, is_empty, ◌=s◌, if◌then◌else◌,
}
use llm_bridge_server.Msg.Event.{ToolCallEvent, ToolResultEvent, Body, Event}
use llm_bridge_server.Msg.Derived.{ToolSummary, TurnCompleteEvent, Payload, Derived}
use llm_bridge_server.Msg.Api.{Clock, ClockSite}
use llm_bridge_server.Derivation.State.{TurnAccumulator, Turns, event_timestamp, zero_usage}

-- maxInflightTurns
abbrev pub max_inflight_turns : ℕ
max_inflight_turns = 8

-- The events that end a turn.
abbrev pub is_terminator : Body → Bool
is_terminator (Body.result r) = true
is_terminator (Body.error e) = true
is_terminator _ = false

-- `entry := &acc.toolCalls[idx]`, then the write through it.
unfoldable pub modify {ℓ} : {A : Type ℓ} → ℕ → (A → A) → List A → List A
modify i f [] = []
modify zero f (x ∷ xs) = f x ∷ xs
modify (suc i) f (x ∷ xs) = x ∷ modify i f xs

-- Error or Output, as the result says.
unfoldable pub fill : ToolResultEvent → ToolSummary → ToolSummary
fill r s = if r.is_error then record s { error = r.output } else record s { output = r.output }

-- recordForTurn on a tool call.
unfoldable pub fold_tool_call : ToolCallEvent → TurnAccumulator → TurnAccumulator
fold_tool_call c acc = record acc {
  tool_calls =
      acc.tool_calls ++ record { tool = c.name; input = c.input; output = ""; error = "" } ∷ [];
  active_calls =
      if is_empty c.tool_id
      then acc.active_calls
      else insert c.tool_id (length acc.tool_calls) acc.active_calls;
}

-- recordForTurn on a tool result.
unfoldable pub fold_tool_result : ToolResultEvent → TurnAccumulator → TurnAccumulator
unfolding fill modify
fold_tool_result r acc = elim (lookup r.tool_id acc.active_calls) [
  | none ↦ record acc {
    tool_calls =
        acc.tool_calls
        ++ fill r (record { tool = r.name; input = ""; output = ""; error = "" }) ∷ [];
  }
  | some idx ↦ record acc {
    tool_calls = modify idx (fill r) acc.tool_calls;
    active_calls = delete r.tool_id acc.active_calls;
  }
]

-- The switch at the end of recordForTurn.
unfoldable pub fold_call : Body → TurnAccumulator → TurnAccumulator
unfolding fold_tool_call fold_tool_result
fold_call (Body.tool_call (some c)) acc = fold_tool_call c acc
fold_call (Body.tool_result (some r)) acc = fold_tool_result r acc
fold_call _ acc = acc

-- The oldest turn goes when the cap is passed.
unfoldable pub evict : Turns → List String → Turns
evict t [] = t
evict t (oldest ∷ order) = record t {
  turn_accums = delete oldest t.turn_accums;
  turn_order = order;
}

unfoldable pub new_accumulator : Clock → Event → TurnAccumulator
new_accumulator now ev = record {
  turn_id = ev.wire.turn_id;
  started_at = event_timestamp now ClockSite.at_record ev;
  tool_calls = [];
  active_calls = [];
}

-- A new accumulator, with what its opening evicts.
unfoldable pub open_turn : Clock → Event → Turns → Turns
unfolding evict new_accumulator
open_turn now ev t =
    let opened : Turns = record {
      turn_accums = insert ev.wire.turn_id (new_accumulator now ev) t.turn_accums;
      turn_order = t.turn_order ++ ev.wire.turn_id ∷ [];
    } in
    if ltb max_inflight_turns (length opened.turn_order)
    then evict opened opened.turn_order
    else opened

-- The write through the accumulator of the event's turn.
unfoldable pub fold_into : Event → Turns → Turns
unfolding fold_call
fold_into ev t = elim (lookup ev.wire.turn_id t.turn_accums) [
  | none ↦ t
  | some acc ↦ record t {
    turn_accums = insert ev.wire.turn_id (fold_call ev.body acc) t.turn_accums;
  }
]

-- recordForTurn
unfoldable pub record_for_turn : Clock → Event → Turns → Turns
unfolding open_turn fold_into
record_for_turn now ev t =
    if is_empty ev.wire.turn_id then t else elim (lookup ev.wire.turn_id t.turn_accums) [
      | none ↦ if is_terminator ev.body then t else fold_into ev (open_turn now ev t)
      | some acc ↦ fold_into ev t
    ]

-- The loop that takes a turn out of turnOrder.
unfoldable pub remove_first : String → List String → List String
remove_first k [] = []
remove_first k (j ∷ s) = if j =s k then s else j ∷ remove_first k s

-- Sub saturates at the longest Duration; a negative one is put at 0.
unfoldable pub duration_ms : ℕ → ℕ → ℕ
duration_ms started ended =
    if not (started == 0) && not (ended == 0)
    then min (ended - started) (2 ^ 63 - 1) / 1000000
    else 0

-- The switch on what ended the turn.
unfoldable pub conclude : Body → TurnCompleteEvent → TurnCompleteEvent
conclude (Body.result (some r)) tc = record tc {
  final_message = r.text;
  usage_delta = r.usage;
  cost = r.cost;
  is_error = r.is_error;
  error_message = if r.is_error then r.text else [];
}
conclude (Body.error none) tc = record tc { is_error = true }
conclude (Body.error (some message)) tc = record tc { is_error = true; error_message = message }
conclude _ tc = tc

-- The turn_complete event of an accumulator.
unfoldable pub summarize : Clock → Event → TurnAccumulator → TurnCompleteEvent
unfolding conclude duration_ms
summarize now ev acc = conclude ev.body (record {
  turn_id = acc.turn_id;
  tool_calls = acc.tool_calls;
  duration_ms = duration_ms acc.started_at (event_timestamp now ClockSite.at_close ev);
  final_message = [];
  usage_delta = zero_usage;
  cost = none;
  is_error = false;
  error_message = [];
})

-- closeTurn
unfoldable pub close_turn : Clock → Event → Turns → Turns × Option Derived
unfolding remove_first summarize
close_turn now ev t =
    if is_empty ev.wire.turn_id then (t, none) else elim (lookup ev.wire.turn_id t.turn_accums) [
      | none ↦ (t, none)
      | some acc ↦ (
        record {
          turn_accums = delete ev.wire.turn_id t.turn_accums;
          turn_order = remove_first ev.wire.turn_id t.turn_order;
        },
        some (record {
          wire = ev.wire;
          timestamp = now ClockSite.at_turn_complete;
          derived_from = [];
          payload = Payload.turn_complete (summarize now ev acc);
        }),
      )
    ]
