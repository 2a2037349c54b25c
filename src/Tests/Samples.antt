-- ===== src/Tests/Samples.antt =====
-- Sample events and states of a derivation, for the tests.
use llm_bridge_server.Prelude.{String, true, false, List, [], ◌∷◌, none, some, ◌=s◌, ◌||◌}
use llm_bridge_server.Msg.Event.{Body, Event}
use llm_bridge_server.Msg.Api.{Api, Clock}
use llm_bridge_server.Derivation.State.{zero_usage}
use llm_bridge_server.Prelude.Text.{codes}
use llm_bridge_server.Derivation.Run.{Input, observed}

-- One way in which the functions of msg can behave.
abbrev pub sample_api : Api
sample_api = record {
  valid_reason = λ r. true;
  task_status_is_terminal = λ s. s =s "completed" || s =s "failed";
  tool_call_summary = λ name input. name;
  status_equal = λ s t. true;
}

abbrev pub noon : Clock
noon = λ site. 1000

abbrev pub event_of : String → Body → Event
event_of turn body = record {
  wire = record {
    harness = "claude_code";
    bridge_session_id = "br_1";
    harness_session_id = "h_1";
    client_request_id = "";
    turn_id = turn;
  };
  message_id = "msg_1";
  timestamp = 7;
  body = body;
}

abbrev pub calls_tool : String → Body
calls_tool id = Body.tool_call (some (record { tool_id = id; name = "Bash"; input = "{}" }))

abbrev pub tool_answers : String → Body
tool_answers id =
    Body.tool_result
      (some (record { tool_id = id; name = "Bash"; output = "ok"; is_error = false }))

abbrev pub says : String → Body
says text =
    Body.result
      (some (record { text = codes text; usage = zero_usage; cost = none; is_error = false }))

abbrev pub seen : Body → Input
seen body = observed noon (event_of "turn_1" body)

abbrev pub opening : List Input
opening = seen Body.user_message ∷ seen (calls_tool "t1") ∷ seen (calls_tool "t2") ∷ []
