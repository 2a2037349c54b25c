-- ===== src/Derivation/Derive.antt =====
-- derive() of internal/harness/derivation.go, and the operations that move the state from outside
-- the event stream: forceState, applyExternalState and seedStateReason.
use llm_bridge_server.Prelude.{
  ℕ, String, Bool, true, false, ◌&&◌, ◌||◌, not, List, [], ◌∷◌, ◌++◌, Option, none, some, pos,
  ltb_ℤ, ◌+ℤ◌, ◌=s◌, if◌then◌else◌,
}
use llm_bridge_server.Msg.State.{SessionState, Reason, ◌=st◌, ◌=r◌}
use llm_bridge_server.Msg.Event.{StateEvent, ResultEvent, Cost, Body, Event}
use llm_bridge_server.Msg.Derived.{SessionStatus, Payload, Derived}
use llm_bridge_server.Msg.Api.{Api, Clock, ClockSite}
use llm_bridge_server.Derivation.State.{
  DerivationState, Spend, event_time, derived_from_ids, is_session_end_state, contains_state,
}
use llm_bridge_server.Derivation.Turns.{record_for_turn, close_turn}
use llm_bridge_server.Derivation.Status.{fold_status, clear_turn_in_flight, changed_status}
use llm_bridge_server.Derivation.Spend.{apply_result_usage, apply_api_call, session_cost_event}
use llm_bridge_server.Derivation.Machine.{Move, transition}

-- An event derived from `ev`, with its wire fields.
abbrev pub derived : Clock → ClockSite → List String → Event → Payload → Derived
derived now site causes ev payload = record {
  wire = ev.wire;
  timestamp = now site;
  derived_from = causes;
  payload = payload;
}

abbrev pub opens_new_activity : Body → Bool
opens_new_activity Body.user_message = true
opens_new_activity (Body.session_state (some s)) = true
opens_new_activity _ = false

-- A state that the server forced to an end holds against all but new activity.
unfoldable pub held_next : Body → SessionState → Move → SessionState
held_next body prev mv =
    if mv.after.ended_by_server && not (mv.next =st prev) && not (opens_new_activity body)
    then prev
    else mv.next

-- The transition and its session_state event.
unfoldable pub publish_state :
    Clock
    → Event
    → SessionState
    → SessionState
    → Reason
    → DerivationState
    → DerivationState × List Derived
publish_state now ev prev next reason d = if next =st prev then (d, []) else (
  record d {
    machine = record (d.machine) { session_state = next; ended_by_server = false };
    tracking = record (d.tracking) {
      changed_at = event_time now ClockSite.at_change ev;
      state_reason = reason;
      state_reason_detail = "";
    };
  },
  derived now ClockSite.at_state (derived_from_ids ev) ev
        (Payload.session_state (record { state = next; previous = prev; reason = reason }))
      ∷ [],
)

-- A result's cost, where it is above zero.
unfoldable pub priced : Option ResultEvent → Option Cost
priced none = none
priced (some r) = elim (r.cost) [
  | none ↦ none
  | some c ↦ if ltb_ℤ (pos 0) c.total_usd then some c else none
]

unfoldable pub account_cost : Clock → Event → Option Cost → Spend → Spend × List Derived
account_cost now ev none s = (s, [])
account_cost now ev (some c) s =
    let (s', cost) =
      session_cost_event (record s {
        turn_result_this_process_usd = s.turn_result_this_process_usd +ℤ c.total_usd;
      }) in
    (s', derived now ClockSite.at_cost (derived_from_ids ev) ev (Payload.session_cost cost) ∷ [])

-- The totals after a result: session_cost where the result is priced, then usage_total.
unfoldable pub account_result : Clock → Event → Option ResultEvent → Spend → Spend × List Derived
unfolding priced account_cost
account_result now ev r s =
    let (s', costs) = account_cost now ev (priced r) (apply_result_usage r s) in
    (
      s',
      costs
          ++ derived now ClockSite.at_usage [] ev
              (Payload.usage_total (record { usage = s'.usage; cost = s'.cost; turns = s'.turns }))
            ∷ [],
    )

-- The totals after an event that moves them.
unfoldable pub account : Clock → Event → Body → Spend → Spend × List Derived
unfolding account_result
account now ev (Body.result r) s = account_result now ev r s
account now ev (Body.api_call a) s =
    let s' = apply_api_call a s in
    let (s'', cost) = session_cost_event s' in
    (
      s'',
      derived now ClockSite.at_spend (derived_from_ids ev) ev (
            Payload.api_spend_total (record {
              total_usd = s'.api_spend_usd;
              usage = s'.api_spend_usage;
              calls = s'.api_spend_calls;
              by_model = s'.api_spend_by_model;
              by_query_source = s'.api_spend_by_source;
            }))
          ∷ derived now ClockSite.at_spend_cost (derived_from_ids ev) ev (Payload.session_cost cost)
          ∷ [],
    )
account now ev _ s = (s, [])

abbrev pub option_to_list {ℓ} : {A : Type ℓ} → Option A → List A
option_to_list none = []
option_to_list (some a) = a ∷ []

-- The turn_complete event of a terminator.
unfoldable pub publish_turn :
    Clock → Event → Body → DerivationState → DerivationState × List Derived
publish_turn now ev (Body.result r) d =
    let (turns, done) = close_turn now ev d.open_turns in
    (record d { open_turns = turns }, option_to_list done)
publish_turn now ev (Body.error e) d =
    let (turns, done) = close_turn now ev d.open_turns in
    (record d { open_turns = turns }, option_to_list done)
publish_turn now ev _ d = (d, [])

-- The session_status event, where the status says something new.
unfoldable pub publish_status :
    Api → Clock → Event → DerivationState → DerivationState × List Derived
publish_status api now ev d =
    let (d', changed) = changed_status api d in
    elim changed [
      | none ↦ (d', [])
      | some status ↦ (
        d',
        derived now ClockSite.at_status (derived_from_ids ev) ev (Payload.session_status status)
            ∷ [],
      )
    ]

-- The event is in the turn's accumulator and in the status before the switch reads it.
unfoldable pub recorded : Api → Clock → Event → DerivationState → DerivationState
recorded api now ev d = record d {
  open_turns = record_for_turn now ev d.open_turns;
  tracking = fold_status api now d.background_tasks ev d.tracking;
}

-- derive() down to the session_state event.
unfoldable pub derive_state : Api → Clock → Event → DerivationState → DerivationState × List Derived
unfolding recorded
derive_state api now ev d =
    let mv = transition api ev.body (recorded api now ev d) in
    publish_state now ev d.session_state (held_next ev.body d.session_state mv) mv.reason mv.after

-- derive()
unfoldable pub derive : Api → Clock → Event → DerivationState → DerivationState × List Derived
derive api now ev d =
    let (d₁, states) = derive_state api now ev d in
    let (spend', totals) = account now ev ev.body d₁.spend in
    let (d₂, turns) = publish_turn now ev ev.body (record d₁ { spend = spend' }) in
    let (d₃, statuses) = publish_status api now ev d₂ in (d₃, states ++ totals ++ turns ++ statuses)

-- forceState: the derivation, the state that it replaces, and whether anything changed.
unfoldable pub force_state :
    ℕ → SessionState → Reason → String → DerivationState → DerivationState × SessionState × Bool
unfolding is_session_end_state
force_state now next reason detail d =
    if d.session_state =st next && d.state_reason =r reason && d.state_reason_detail =s detail
    then (d, d.session_state, false)
    else let forced : DerivationState = record d {
      machine = record (d.machine) {
        session_state = next;
        ended_by_server = is_session_end_state next;
      };
      tracking = record (d.tracking) {
        changed_at = if d.session_state =st next then d.changed_at else now;
        state_reason = reason;
        state_reason_detail = detail;
      };
    } in
      (clear_turn_in_flight forced, d.session_state, true)

-- applyExternalState. The event carries the state alone.
unfoldable pub apply_external_state :
    ℕ
    → SessionState
    → Reason
    → List SessionState
    → DerivationState
    → DerivationState × Option StateEvent
apply_external_state now next reason allowed_from d =
    if d.session_state =st SessionState.background_tasks_running
    then (
      if contains_state d.state_once_background_tasks_finish allowed_from
          then record d {
            machine = record (d.machine) { state_once_background_tasks_finish = next };
          }
          else d,
      none,
    )
    else if not (contains_state d.session_state allowed_from) || next =st d.session_state
    then (d, none)
    else (
      record d {
        machine = record (d.machine) { session_state = next };
        tracking = record (d.tracking) {
          changed_at = now;
          state_reason = reason;
          state_reason_detail = "";
        };
      },
      some (record { state = next; previous = d.session_state; reason = reason }),
    )

-- seedStateReason
unfoldable pub seed_state_reason : SessionStatus → DerivationState → DerivationState
seed_state_reason stored d =
    if stored.state =st d.session_state
    then record d {
      tracking = record (d.tracking) {
        state_reason = stored.reason;
        state_reason_detail = stored.reason_detail;
        changed_at = stored.changed_at;
      };
    }
    else d
