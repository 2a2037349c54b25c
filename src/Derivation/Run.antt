-- ===== src/Derivation/Run.antt =====
-- A session's derivation over time: the events that its harness sends, and the moves from outside
-- the stream, in the order in which they take the publish lock. Of what is published only the
-- state transitions are kept here.
use llm_bridge_server.Prelude.{
  ℕ, String, ◌&&◌, not, List, [], ◌∷◌, ◌++◌, Option, none, some, if◌then◌else◌,
}
use llm_bridge_server.Msg.State.{SessionState, Reason, ◌=st◌}
use llm_bridge_server.Msg.Event.{StateEvent, Event}
use llm_bridge_server.Msg.Derived.{Payload, Derived}
use llm_bridge_server.Msg.Api.{Api, Clock}
use llm_bridge_server.Derivation.State.{DerivationState}
use llm_bridge_server.Derivation.Derive.{derive, force_state, apply_external_state, option_to_list}

-- The session_state events of a list.
unfoldable pub states_of : List Derived → List StateEvent
states_of [] = []
states_of (e ∷ es) = elim (e.payload) [
  | Payload.session_state s ↦ s ∷ states_of es
  | _ ↦ states_of es
]

-- The move and the event of ForceSessionStateWithDetail: an unchanged state goes out by the status
-- alone.
unfoldable pub force_session_state :
    ℕ → SessionState → Reason → String → DerivationState → DerivationState × List StateEvent
force_session_state now state reason detail d =
    let (d', prev, changed) = force_state now state reason detail d in
    if changed && not (prev =st state)
    then (d', record { state = state; previous = prev; reason = reason } ∷ [])
    else (d', [])

-- What reaches a derivation.
pub data Input : Type 0 where
  observed : Clock → Event → Input
  forced : ℕ → SessionState → Reason → String → Input
  external : ℕ → SessionState → Reason → List SessionState → Input

unfoldable pub step : Api → Input → DerivationState → DerivationState × List StateEvent
step api (observed now ev) d = let (d', out) = derive api now ev d in (d', states_of out)
step api (forced now state reason detail) d = force_session_state now state reason detail d
step api (external now next reason allowed_from) d =
    let (d', out) = apply_external_state now next reason allowed_from d in (d', option_to_list out)

unfoldable pub run : Api → List Input → DerivationState → DerivationState × List StateEvent
run api [] d = (d, [])
run api (i ∷ is) d =
    let (d', out) = step api i d in let (d'', rest) = run api is d' in (d'', out ++ rest)

-- Derived events read from a state on: each must come from the state that was reached, and go to
-- another.
unfoldable pub follow : SessionState → List StateEvent → Option SessionState
follow s [] = some s
follow s (e ∷ es) =
    let rest = follow e.state es in if e.previous =st s && not (e.state =st s) then rest else none
