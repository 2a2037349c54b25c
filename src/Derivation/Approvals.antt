-- ===== src/Derivation/Approvals.antt =====
-- The permission prompts of internal/harness/derivation.go: pendingApprovals, awaitingApproval and
-- the state that a prompt interrupts.
use mathlib.Core.Path.{subst}
use llm_bridge_server.Prelude.{
  ◌≡◌, ◌≢◌, ◌∙◌, sym, String, Bool, true, false, List, [], ◌∷◌, none, some, arith, contains,
  include, exclude, is_empty,
}
use llm_bridge_server.Msg.State.{SessionState, Reason}
use llm_bridge_server.Msg.Event.{Subtype, HookPhase, Body, Event}
use llm_bridge_server.Msg.Api.{Api, Clock}
use llm_bridge_server.Derivation.State.{DerivationState}
use llm_bridge_server.Derivation.Machine.{Move, restored, transition}
use llm_bridge_server.Derivation.Derive.{derive, derive_state, publish_state, recorded, held_next}
use llm_bridge_server.Derivation.Run.{Input, observed, step, run}
use llm_bridge_server.Derivation.Transitions.{derive_machine}

-- The frames that a turn goes on sending under an open prompt.
abbrev pub is_quiet : Body → Bool
is_quiet Body.user_message = false
is_quiet (Body.hook k) = false
is_quiet (Body.approval a) = false
is_quiet (Body.result r) = false
is_quiet (Body.error e) = false
is_quiet (Body.session_state s) = false
is_quiet (Body.system none) = true
is_quiet (Body.system (some s)) = elim (s.subtype) [
  | Subtype.compact_ack ↦ false
  | Subtype.status ↦ false
  | Subtype.compact_boundary ↦ false
  | Subtype.background_tasks_changed ↦ false
  | _ ↦ true
]
is_quiet _ = true

abbrev pub AllQuiet : List (Clock × Event) → Type 0
AllQuiet [] = Unit
AllQuiet ((now, ev) ∷ evs) = (is_quiet ev.body ≡ true) × AllQuiet evs

abbrev pub observe : List (Clock × Event) → List Input
observe [] = []
observe ((now, ev) ∷ evs) = observed now ev ∷ observe evs

-- One prompt is open, over the state `held`.
pub record OpenPrompt (id : String) (held : SessionState) (d : DerivationState) : Type 0 where
  pub shown : d.session_state ≡ SessionState.awaiting_permission
  pub awaited : d.awaiting_approval ≡ true
  pub pending : d.pending_approvals ≡ id ∷ []
  pub interrupted : d.pre_approval_state ≡ held
  pub alive : d.ended_by_server ≡ false

quiet_transition :
    (api : Api) (body : Body) (id : String) (held : SessionState) (d : DerivationState)
    → is_quiet body ≡ true
    → OpenPrompt id held d
    → ((transition api body d).next ≡ SessionState.awaiting_permission)
      × OpenPrompt id held (transition api body d).after
unfolding transition
quiet_transition api (Body.tool_call c) id held d q o = ground arith
quiet_transition api (Body.tool_result r) id held d q o = ground arith
quiet_transition api (Body.system none) id held d q o = (o.shown, o)
quiet_transition api (Body.system (some s)) id held d q o = ground arith
quiet_transition api (Body.hook none) id held d q o = cc
quiet_transition api (Body.hook (some k)) id held d q o = cc
quiet_transition api (Body.approval a) id held d q o = cc
quiet_transition api (Body.result r) id held d q o = cc
quiet_transition api (Body.error r) id held d q o = cc
quiet_transition api (Body.session_state x) id held d q o = cc
quiet_transition api (Body.user_message) id held d q o = cc
quiet_transition api _ id held d q o = (o.shown, o)

OpenPrompt-recorded :
    (api : Api) (now : Clock) (ev : Event) (id : String) (held : SessionState) (d : DerivationState)
    → OpenPrompt id held d
    → OpenPrompt id held (recorded api now ev d)
unfolding recorded
OpenPrompt-recorded api now ev id held d o = record {
  shown = o.shown;
  awaited = o.awaited;
  pending = o.pending;
  interrupted = o.interrupted;
  alive = o.alive;
}

publish_state_OpenPrompt :
    (now : Clock) (ev : Event) (id : String) (held prev next : SessionState) (r : Reason)
    (d : DerivationState)
    → next ≡ prev
    → OpenPrompt id held d
    → OpenPrompt id held (publish_state now ev prev next r d).0
unfolding publish_state
publish_state_OpenPrompt now ev id held prev next r d e o = ground arith

held_next_alive :
    (body : Body) (prev : SessionState) (mv : Move)
    → mv.after.ended_by_server ≡ false
    → held_next body prev mv ≡ mv.next
unfolding held_next
held_next_alive body prev mv h = ground arith

-- `OpenPrompt` reads the state machine alone.
OpenPrompt_of_machine :
    (id : String) (held : SessionState) (d d' : DerivationState)
    → d'.machine ≡ d.machine
    → OpenPrompt id held d
    → OpenPrompt id held d'
OpenPrompt_of_machine id held d d' e o = ground arith

quiet_derive :
    (api : Api) (now : Clock) (ev : Event) (id : String) (held : SessionState) (d : DerivationState)
    → is_quiet ev.body ≡ true
    → OpenPrompt id held d
    → OpenPrompt id held (derive api now ev d).0
unfolding derive_state
quiet_derive api now ev id held d q o =
    let d' = recorded api now ev d in
    let mv = transition api ev.body d' in
    let (same, kept) =
      quiet_transition api ev.body id held d' q (OpenPrompt-recorded api now ev id held d o) in
    let next = held_next ev.body d.session_state mv in
    OpenPrompt_of_machine id held (derive_state api now ev d).0 (derive api now ev d).0
      (derive_machine api now ev d)
      (publish_state_OpenPrompt now ev id held d.session_state next mv.reason mv.after
        (held_next_alive ev.body d.session_state mv kept.alive ∙ same ∙ sym o.shown) kept)

quiet_run :
    (api : Api) (evs : List (Clock × Event)) (id : String) (held : SessionState)
    (d : DerivationState)
    → AllQuiet evs
    → OpenPrompt id held d
    → OpenPrompt id held (run api (observe evs) d).0
unfolding run step
quiet_run api [] id held d q o = o
quiet_run api ((now, ev) ∷ evs) id held d q o =
    quiet_run api evs id held (derive api now ev d).0 q.1 (quiet_derive api now ev id held d q.0 o)

abbrev pub prompt : String → HookPhase → Body
prompt id phase = Body.hook (some (record { request_id = id; phase = phase }))

opens_prompt :
    (api : Api) (now : Clock) (ev : Event) (id : String) (d : DerivationState)
    → ev.body ≡ prompt id HookPhase.awaiting_resolution
    → is_empty id ≡ false
    → d.awaiting_approval ≡ false
    → d.pending_approvals ≡ []
    → d.ended_by_server ≡ false
    → OpenPrompt id d.session_state (derive api now ev d).0
unfolding derive_state recorded publish_state held_next transition include
opens_prompt api now ev id d b ne aw p alive =
    OpenPrompt_of_machine id d.session_state (derive_state api now ev d).0 (derive api now ev d).0
      (derive_machine api now ev d) (ground arith)

closes_prompt :
    (api : Api) (now : Clock) (ev : Event) (id : String) (held : SessionState) (d : DerivationState)
    → ev.body ≡ prompt id HookPhase.completed
    → is_empty id ≡ false
    → OpenPrompt id held d
    → let d' = (derive api now ev d).0 in
      (d'.session_state ≡ restored held SessionState.awaiting_permission)
      × (d'.awaiting_approval ≡ false)
      × (d'.pending_approvals ≡ [])
unfolding derive_state recorded publish_state held_next transition contains exclude
closes_prompt api now ev id held d b ne o =
    rw (derive_machine api now ev d) (ground arith, ground arith, ground arith)

-- What a held state is restored to under a prompt.
abbrev pub GivesBack : SessionState → SessionState → Type 0
GivesBack held now =
    (held ≢ SessionState.unset → held ≢ SessionState.awaiting_permission → now ≡ held)
    × (held ≡ SessionState.unset → now ≡ SessionState.model_generating)
    × (held ≡ SessionState.awaiting_permission → now ≡ SessionState.model_generating)

pub restored-GivesBack :
    (held : SessionState) → GivesBack held (restored held SessionState.awaiting_permission)
unfolding restored
restored-GivesBack held =
    (λ n m. ground (arith, n, m), λ e. ground (arith, e), λ e. ground (arith, e))

-- One permission prompt interrupts and gives back: from a session that the server did not end, with no
-- prompt open, through the request, any quiet frames under it (all but user messages, hooks,
-- approvals, results, errors, session states and the system frames of compactions, statuses and
-- background tasks), and the resolution, the session comes back to the state that it was in, with nothing
-- pending; where that state was none or awaiting_permission itself, the model generates. Until the
-- resolution it stays at awaiting_permission.
pub prompt-roundtrip :
    (api : Api) (id : String) (now now' : Clock) (ask answer : Event) (evs : List (Clock × Event))
    (d : DerivationState)
    → ask.body ≡ prompt id HookPhase.awaiting_resolution
    → answer.body ≡ prompt id HookPhase.completed
    → is_empty id ≡ false
    → d.awaiting_approval ≡ false
    → d.pending_approvals ≡ []
    → d.ended_by_server ≡ false
    → AllQuiet evs
    → let asked = (run api (observed now ask ∷ observe evs) d).0 in
      let d' = (derive api now' answer asked).0 in
      (asked.session_state ≡ SessionState.awaiting_permission)
      × GivesBack d.session_state d'.session_state
      × (d'.awaiting_approval ≡ false)
      × (d'.pending_approvals ≡ [])
unfolding run step
prompt-roundtrip api id now now' ask answer evs d p q ne aw pend alive quiet =
    let opened = opens_prompt api now ask id d p ne aw pend alive in
    let o = quiet_run api evs id d.session_state (derive api now ask d).0 quiet opened in
    let closed =
      closes_prompt api now' answer id d.session_state
        (run api (observe evs) (derive api now ask d).0).0 q ne o in
    (
      o.shown,
      subst (GivesBack d.session_state) (sym closed.0) (restored-GivesBack d.session_state),
      closed.1,
      closed.2,
    )
