-- ===== src/Coordinator/Requeues.antt =====
-- When the end of an attempt in internal/operations/coordinator.go queues its operation, and what of
-- the receipt it leaves alone.
use llm_bridge_server.Prelude.{
  ◌<◌, ◌≡◌, ◌≢◌, ◌⊎◌, refl, ◌∙◌, sym, ap, ◌&&◌, Option, inl, inr, arith, Bool-cases,
}
use llm_bridge_server.Operations.Types.{OperationState, ◌=os◌, OperationError, Receipt}
use llm_bridge_server.Coordinator.Intents.{Description}
use llm_bridge_server.Coordinator.Attempts.{
  Messages, AttemptResult, Ending, attempt_end, claimed_end, decide_end, with_end, may_end_in,
  is_none,
}
use llm_bridge_server.Coordinator.Endings.{attempt_end-RunsAgain}

-- A receipt that keeps what the store counts by.
pub record SameCounts (old new : Receipt) : Type 0 where
  pub identity : new.identity ≡ old.identity
  pub revision : new.revision ≡ old.revision
  pub attempt : new.attempt ≡ old.attempt

pub with_end-SameCounts :
    (r : AttemptResult) (e : Ending) (receipt : Receipt) → SameCounts receipt (with_end r e receipt)
unfolding with_end
with_end-SameCounts r (Ending.requeues error) receipt = record {
  identity = refl;
  revision = refl;
  attempt = refl;
}
with_end-SameCounts r (Ending.ends state error) receipt =
    elim (Bool-cases (state =os OperationState.succeeded)) [
      | inl b ↦ rw (with_end, b) (record { identity = refl; revision = refl; attempt = refl })
      | inr b ↦ rw (with_end, b) (record { identity = refl; revision = refl; attempt = refl })
    ]

pub with_end_state :
    (r : AttemptResult) (state : OperationState) (error : Option OperationError) (receipt : Receipt)
    → (with_end r (Ending.ends state error) receipt).state ≡ state
unfolding with_end
with_end_state r state error receipt = elim (Bool-cases (state =os OperationState.succeeded)) [
  | inl b ↦ rw (with_end, b) refl
  | inr b ↦ rw (with_end, b) refl
]

claimed_end_open :
    (says : Messages) (d : Description) (r : AttemptResult)
    → (claimed_end says d r).0 ≢ OperationState.queued
unfolding claimed_end
claimed_end_open says d r h = elim (Bool-cases (may_end_in r.state)) [
  | inr b ↦ absurd (cc (rw (claimed_end, b) at h))
  | inl b ↦ elim (Bool-cases (r.state =os OperationState.unset && is_none r.error)) [
    | inl e ↦ absurd (cc (rw (claimed_end, b, e) at h))
    | inr e ↦
        let queued : r.state ≡ OperationState.queued = rw (claimed_end, b, e) at h in
        absurd (cc (b, ap may_end_in queued))
  ]
]

decide_end_open :
    (says : Messages) (d : Description) (receipt : Receipt) (state s : OperationState)
    (error e : Option OperationError)
    → state ≢ OperationState.queued
    → decide_end says d receipt state error ≡ Ending.ends s e
    → s ≢ OperationState.queued
unfolding decide_end
decide_end_open says d receipt state s error e n h = ground arith

pub Ending-cases :
    (e : Ending)
    → ((error : Option OperationError) × (e ≡ Ending.requeues error))
      ⊎ ((s : OperationState) × (error : Option OperationError) × (e ≡ Ending.ends s error))
Ending-cases (Ending.requeues error) = inl (error, refl)
Ending-cases (Ending.ends s error) = inr (s, error, refl)

-- An attempt that ends its operation does not end it as queued.
pub ends_not_queued :
    (says : Messages) (d : Description) (r : AttemptResult) (receipt : Receipt) (s : OperationState)
    (error : Option OperationError)
    → attempt_end says d r receipt ≡ Ending.ends s error
    → (with_end r (attempt_end says d r receipt) receipt).state ≢ OperationState.queued
unfolding attempt_end
ends_not_queued says d r receipt s error e h =
    let queued : s ≡ OperationState.queued =
      sym (with_end_state r s error receipt) ∙ ap (λ x. (with_end r x receipt).state) (sym e) ∙ h in
    absurd (
      decide_end_open says d receipt (claimed_end says d r).0 s (claimed_end says d r).1 error
        (claimed_end_open says d r) e queued)

pub finish_change_queues :
    (says : Messages) (d : Description) (r : AttemptResult) (receipt : Receipt)
    → (with_end r (attempt_end says d r receipt) receipt).state ≡ OperationState.queued
    → receipt.attempt < d.maximum_attempts
finish_change_queues says d r receipt h = elim (Ending-cases (attempt_end says d r receipt)) [
  | inl (error, e) ↦ ((attempt_end-RunsAgain says d r receipt).0 (error, e)).attempts_left
  | inr (s, error, e) ↦ absurd (ends_not_queued says d r receipt s error e h)
]
