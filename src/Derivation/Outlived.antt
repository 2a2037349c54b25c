-- ===== src/Derivation/Outlived.antt =====
-- A permission prompt of internal/harness/derivation.go that a user message overtakes.
use llm_bridge_server.Prelude.{◌≡◌, String, true, false, [], ◌∷◌}
use llm_bridge_server.Msg.State.{SessionState}
use llm_bridge_server.Msg.Event.{Event}
use llm_bridge_server.Msg.Api.{Api}
use llm_bridge_server.Derivation.State.{DerivationState}

-- The prompt is open, but the session has moved to model_generating.
record Outlived (id : String) (held : SessionState) (d : DerivationState) : Type 0 where
  shown : d.session_state ≡ SessionState.model_generating
  awaited : d.awaiting_approval ≡ true
  pending : d.pending_approvals ≡ id ∷ []
  interrupted : d.pre_approval_state ≡ held
  alive : d.ended_by_server ≡ false
