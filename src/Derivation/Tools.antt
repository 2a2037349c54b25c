-- ===== src/Derivation/Tools.antt =====
-- The tools in flight, which internal/harness keeps twice: activeTools in derivation.go for the
-- state machine, and toolCalls in derivation_status.go for the status line.
use llm_bridge_server.Prelude.{
  ℕ, ◌≡◌, refl, String, Bool, true, false, ◌||◌, ◌&&◌, not, List, [], ◌∷◌, ◌++◌, Option, none, some,
  arith, lookup, insert, delete, lookup-insert, lookup-delete, is_empty, ◌=s◌, Bool-cases, inl, inr,
  ◌⊎◌,
}
use llm_bridge_server.Msg.State.{SessionState, Reason}
use llm_bridge_server.Msg.Event.{ToolCallEvent, ToolResultEvent, BackgroundTask, Body, Event}
use llm_bridge_server.Msg.Derived.{StatusTool}
use llm_bridge_server.Msg.Api.{Api, Clock}
use llm_bridge_server.Derivation.State.{
  DerivationState, StatusTracking, new_derivation_state_seeded,
}
use llm_bridge_server.Derivation.Turns.{record_for_turn}
use llm_bridge_server.Derivation.Status.{
  has_tool, remove_tool, start_task, progress_task, start_tool, fold_status, fold_body,
  clear_turn_in_flight, changed_status,
}
use llm_bridge_server.Derivation.Machine.{transition, on_tool_result, finish_tool}
use llm_bridge_server.Derivation.Derive.{
  derive, derive_state, publish_state, publish_status, recorded, held_next, force_state,
  apply_external_state,
}
use llm_bridge_server.Derivation.Run.{
  Input, observed, forced, external, force_session_state, step, run,
}
use llm_bridge_server.Derivation.Transitions.{derive_machine, publish_turn_tracking}

abbrev pub is_some {ℓ} : {A : Type ℓ} → Option A → Bool
is_some none = false
is_some (some a) = true

-- The calls in flight have different ids.
abbrev pub Distinct : List StatusTool → Type 0
Distinct [] = Unit
Distinct (call ∷ calls) = (has_tool call.tool_id calls ≡ false) × Distinct calls

-- Both records hold the same ids, each once in the list.
pub record InStep (active : List (String × String)) (calls : List StatusTool) : Type 0 where
  pub same : (id : String) → is_some (lookup id active) ≡ has_tool id calls
  pub distinct : Distinct calls

has_tool-append :
    (id : String) (calls : List StatusTool) (call : StatusTool)
    → has_tool id (calls ++ call ∷ []) ≡ (has_tool id calls || call.tool_id =s id)
unfolding has_tool
has_tool-append id [] call = ground arith
has_tool-append id (c ∷ calls) call = ground (arith, has_tool-append id calls call)

Distinct-append :
    (calls : List StatusTool) (call : StatusTool)
    → has_tool call.tool_id calls ≡ false
    → Distinct calls
    → Distinct (calls ++ call ∷ [])
unfolding has_tool
Distinct-append [] call h u = (refl, tt)
Distinct-append (c ∷ calls) call h u = (
  ground (arith, has_tool-append c.tool_id calls call),
  Distinct-append calls call (ground arith) u.1,
)

has_tool-remove :
    (id j : String) (calls : List StatusTool)
    → Distinct calls
    → has_tool j (remove_tool id calls) ≡ (not (id =s j) && has_tool j calls)
unfolding has_tool remove_tool
has_tool-remove id j [] u = ground arith
has_tool-remove id j (c ∷ calls) u = ground (arith, has_tool-remove id j calls u.1)

Distinct-remove :
    (id : String) (calls : List StatusTool) → Distinct calls → Distinct (remove_tool id calls)
unfolding remove_tool
Distinct-remove id [] u = tt
Distinct-remove id (c ∷ calls) u = elim (Bool-cases (c.tool_id =s id)) [
  | inl e ↦ rw e u.1
  | inr e ↦
      rw e (ground (arith, has_tool-remove id c.tool_id calls u.1), Distinct-remove id calls u.1)
]

InStep-append :
    (active : List (String × String)) (calls : List StatusTool) (call : StatusTool) (name : String)
    → has_tool call.tool_id calls ≡ false
    → InStep active calls
    → InStep (insert call.tool_id name active) (calls ++ call ∷ [])
InStep-append active calls call name new h = record {
  same = λ id.
      ground (
        arith,
        lookup-insert call.tool_id id name active,
        h.same id,
        has_tool-append id calls call,
      );
  distinct = Distinct-append calls call new h.distinct;
}

InStep-again :
    (active : List (String × String)) (calls : List StatusTool) (id name : String)
    → has_tool id calls ≡ true
    → InStep active calls
    → InStep (insert id name active) calls
InStep-again active calls id name old h = record {
  same = λ j. ground (arith, lookup-insert id j name active, h.same j);
  distinct = h.distinct;
}

InStep-start :
    (api : Api) (now : Clock) (ev : Event) (c : ToolCallEvent) (s : StatusTracking)
    (active : List (String × String))
    → InStep active s.tool_calls
    → InStep (insert c.tool_id c.name active) (start_tool api now ev c s).tool_calls
unfolding start_tool
InStep-start api now ev c s active h = elim (Bool-cases (has_tool c.tool_id s.tool_calls)) [
  | inl e ↦ rw e (InStep-again active s.tool_calls c.tool_id c.name e h)
  | inr e ↦ rw e (InStep-append active s.tool_calls _ c.name e h)
]

InStep-finish :
    (id : String) (active : List (String × String)) (calls : List StatusTool)
    → InStep active calls
    → InStep (delete id active) (remove_tool id calls)
InStep-finish id active calls h = record {
  same = λ j.
      ground (arith, lookup-delete id j active, h.same j, has_tool-remove id j calls h.distinct);
  distinct = Distinct-remove id calls h.distinct;
}

InStep-nil : InStep [] []
unfolding lookup has_tool
InStep-nil = record { same = λ id. refl; distinct = tt }

-- What an event that is no tool's makes of the two records: nothing, or both empty.
abbrev Kept : DerivationState → DerivationState → Type 0
Kept d d' =
    ((d'.active_tools ≡ d.active_tools) × (d'.tool_calls ≡ d.tool_calls))
    ⊎ ((d'.active_tools ≡ []) × (d'.tool_calls ≡ []))

InStep-of_Kept :
    (d d' : DerivationState)
    → Kept d d'
    → InStep d.active_tools d.tool_calls
    → InStep d'.active_tools d'.tool_calls
InStep-of_Kept d d' (inl k) h = rw (k.0, k.1) h
InStep-of_Kept d d' (inr k) h = rw (k.0, k.1) InStep-nil

abbrev is_tool : Body → Bool
is_tool (Body.tool_call c) = true
is_tool (Body.tool_result r) = true
is_tool _ = false

fold_body_keeps :
    (api : Api) (now : Clock) (bg : List BackgroundTask) (ev : Event) (body : Body)
    (s : StatusTracking)
    → is_tool body ≡ false
    → (fold_body api now bg ev body s).tool_calls ≡ s.tool_calls
unfolding fold_body start_task progress_task
fold_body_keeps api now bg ev (Body.tool_call c) s n = cc
fold_body_keeps api now bg ev (Body.tool_result r) s n = cc
fold_body_keeps api now bg ev (Body.system (some sys)) s n = ground arith
fold_body_keeps api now bg ev (Body.stream b) s n = ground arith
fold_body_keeps api now bg ev (Body.block b) s n = ground arith
fold_body_keeps api now bg ev (Body.system none) s n = refl
fold_body_keeps api now bg ev _ s n = refl

transition-Kept :
    (api : Api) (body : Body) (d : DerivationState)
    → is_tool body ≡ false
    → Kept d (transition api body d).after
unfolding transition
transition-Kept api (Body.tool_call c) d n = cc
transition-Kept api (Body.tool_result r) d n = cc
transition-Kept api (Body.system none) d n = inl (refl, refl)
transition-Kept api (Body.system (some s)) d n = ground arith
transition-Kept api (Body.hook k) d n = ground arith
transition-Kept api (Body.approval a) d n = ground arith
transition-Kept api (Body.result r) d n = ground arith
transition-Kept api (Body.error r) d n = inr (refl, refl)
transition-Kept api (Body.session_state x) d n = ground arith
transition-Kept api _ d n = inl (refl, refl)

-- The derivation between the two halves of an event.
abbrev folded : Api → Clock → Event → Body → DerivationState → DerivationState
folded api now ev body d = record d {
  open_turns = record_for_turn now ev d.open_turns;
  tracking = fold_body api now d.background_tasks ev body d.tracking;
}

call_InStep :
    (api : Api) (now : Clock) (ev : Event) (c : ToolCallEvent) (d : DerivationState)
    → InStep d.active_tools d.tool_calls
    → let mv =
        transition api (Body.tool_call (some c)) (folded api now ev (Body.tool_call (some c)) d) in
      InStep mv.after.active_tools mv.after.tool_calls
unfolding transition fold_body
call_InStep api now ev c d h = elim (Bool-cases (is_empty c.tool_id)) [
  | inl e ↦ rw e h
  | inr e ↦ rw e (InStep-start api now ev c d.tracking d.active_tools h)
]

on_tool_result_after :
    (r : Option ToolResultEvent) (d : DerivationState)
    → (on_tool_result r d).after ≡ finish_tool r d
unfolding on_tool_result
on_tool_result_after r d = ground arith

finish_InStep :
    (api : Api) (now : Clock) (ev : Event) (r : ToolResultEvent) (d : DerivationState)
    → InStep d.active_tools d.tool_calls
    → let d' = finish_tool (some r) (folded api now ev (Body.tool_result (some r)) d) in
      InStep d'.active_tools d'.tool_calls
unfolding finish_tool fold_body
finish_InStep api now ev r d h = elim (Bool-cases (is_empty r.tool_id)) [
  | inl e ↦ rw e h
  | inr e ↦ rw e (InStep-finish r.tool_id d.active_tools d.tool_calls h)
]

result_InStep :
    (api : Api) (now : Clock) (ev : Event) (r : ToolResultEvent) (d : DerivationState)
    → InStep d.active_tools d.tool_calls
    → let mv = on_tool_result (some r) (folded api now ev (Body.tool_result (some r)) d) in
      InStep mv.after.active_tools mv.after.tool_calls
result_InStep api now ev r d h =
    rw (on_tool_result_after (some r) (folded api now ev (Body.tool_result (some r)) d))
      (finish_InStep api now ev r d h)

other_InStep :
    (api : Api) (now : Clock) (ev : Event) (body : Body) (d : DerivationState)
    → is_tool body ≡ false
    → InStep d.active_tools d.tool_calls
    → let mv = transition api body (folded api now ev body d) in
      InStep mv.after.active_tools mv.after.tool_calls
other_InStep api now ev body d n h =
    InStep-of_Kept (folded api now ev body d) (transition api body (folded api now ev body d)).after
      (transition-Kept api body (folded api now ev body d) n)
      (rw (fold_body_keeps api now d.background_tasks ev body d.tracking n) h)

move_InStep :
    (api : Api) (now : Clock) (ev : Event) (body : Body) (d : DerivationState)
    → InStep d.active_tools d.tool_calls
    → let mv = transition api body (folded api now ev body d) in
      InStep mv.after.active_tools mv.after.tool_calls
move_InStep api now ev (Body.tool_call (some c)) d h = call_InStep api now ev c d h
move_InStep api now ev (Body.tool_result (some r)) d h =
    unfold transition in result_InStep api now ev r d h
move_InStep api now ev (Body.tool_call none) d h = unfold transition fold_body in h
move_InStep api now ev (Body.tool_result none) d h =
    unfold transition fold_body in (rw (on_tool_result_after none _) (unfold finish_tool in h))
move_InStep api now ev body d h = other_InStep api now ev body d refl h

publish_status_calls :
    (api : Api) (now : Clock) (ev : Event) (d : DerivationState)
    → (publish_status api now ev d).0.tool_calls ≡ d.tool_calls
unfolding publish_status changed_status
publish_status_calls api now ev d = ground arith

publish_state_tools :
    (now : Clock) (ev : Event) (prev next : SessionState) (r : Reason) (d : DerivationState)
    → ((publish_state now ev prev next r d).0.active_tools ≡ d.active_tools)
      × ((publish_state now ev prev next r d).0.tool_calls ≡ d.tool_calls)
unfolding publish_state
publish_state_tools now ev prev next r d = ground arith

derive_calls :
    (api : Api) (now : Clock) (ev : Event) (d : DerivationState)
    → (derive api now ev d).0.tool_calls ≡ (derive_state api now ev d).0.tool_calls
unfolding derive
derive_calls api now ev d = rw (publish_status_calls, publish_turn_tracking)

derive-InStep :
    (api : Api) (now : Clock) (ev : Event) (d : DerivationState)
    → InStep d.active_tools d.tool_calls
    → InStep (derive api now ev d).0.active_tools (derive api now ev d).0.tool_calls
unfolding derive_state recorded fold_status
derive-InStep api now ev d h =
    let mv = transition api ev.body (recorded api now ev d) in
    let next = held_next ev.body d.session_state mv in
    let kept = publish_state_tools now ev d.session_state next mv.reason mv.after in
    rw (derive_machine api now ev d, derive_calls api now ev d)
      (rw (kept.0, kept.1) (move_InStep api now ev ev.body d h))

force_InStep :
    (now : ℕ) (next : SessionState) (r : Reason) (detail : String) (d : DerivationState)
    → Kept d (force_session_state now next r detail d).0
unfolding force_session_state force_state clear_turn_in_flight
force_InStep now next r detail d = ground arith

external_Kept :
    (now : ℕ) (next : SessionState) (r : Reason) (from : List SessionState) (d : DerivationState)
    → Kept d (apply_external_state now next r from d).0
unfolding apply_external_state
external_Kept now next r from d = ground arith

-- Whatever reaches the derivation leaves the two records in step.
pub step-InStep :
    (api : Api) (i : Input) (d : DerivationState)
    → InStep d.active_tools d.tool_calls
    → InStep (step api i d).0.active_tools (step api i d).0.tool_calls
unfolding step
step-InStep api (observed now ev) d h = derive-InStep api now ev d h
step-InStep api (forced now next r detail) d h =
    InStep-of_Kept d (force_session_state now next r detail d).0 (force_InStep now next r detail d)
      h
step-InStep api (external now next r from) d h =
    InStep-of_Kept d (apply_external_state now next r from d).0 (external_Kept now next r from d) h

run-InStep_from :
    (api : Api) (is : List Input) (d : DerivationState)
    → InStep d.active_tools d.tool_calls
    → InStep (run api is d).0.active_tools (run api is d).0.tool_calls
unfolding run
run-InStep_from api [] d h = h
run-InStep_from api (i ∷ is) d h = run-InStep_from api is (step api i d).0 (step-InStep api i d h)

-- After any inputs to a fresh derivation the state machine and the status line hold the same tool
-- ids in flight, and no id stands twice in the status line's list.
pub run-InStep :
    (api : Api) (is : List Input) (initial : SessionState)
    → let d = (run api is (new_derivation_state_seeded initial)).0 in
      InStep d.active_tools d.tool_calls
unfolding new_derivation_state_seeded
run-InStep api is initial = run-InStep_from api is (new_derivation_state_seeded initial) InStep-nil
