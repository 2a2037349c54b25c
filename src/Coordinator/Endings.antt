-- ===== src/Coordinator/Endings.antt =====
-- How attempts and lost workers end in internal/operations/coordinator.go: when an operation runs
-- again, and what an effect in doubt does to it.
use llm_bridge_server.Prelude.{
  ◌<◌, ◌≡◌, ◌↔◌, ◌≢◌, ◌⊎◌, refl, ◌∙◌, sym, ap, true, false, ◌&&◌, ltb, leb, Option, none, some,
  if◌then◌else◌, Option-cases, Bool-cases, inl, inr, arith,
}
use llm_bridge_server.Operations.Types.{
  OperationState, ◌=os◌, operation_state_discrete, OperationApi, OperationError, Receipt,
}
use llm_bridge_server.Coordinator.Intents.{Description}
use llm_bridge_server.Coordinator.Attempts.{
  Messages, AttemptResult, has_effect_in_doubt, is_none, may_end_in, claimed_end, doubt_error,
  is_retryable, Ending, decide_end, attempt_end, failure,
}
use llm_bridge_server.Coordinator.Reconcile.{
  ReconcileAction, ReconcileResult, ReconcileOutcome, reconcile_outcome,
}

-- What decides that an attempt's operation runs again.
pub record RunsAgain (d : Description) (r : AttemptResult) (receipt : Receipt) : Type 0 where
  pub settled : has_effect_in_doubt receipt.effects ≡ false
  pub wanted : receipt.cancel_requested_at ≡ none
  pub no_state : r.state ≡ OperationState.unset
  pub retryable : is_retryable r.error ≡ true
  pub attempts_left : receipt.attempt < d.maximum_attempts

module _ (says : Messages) (d : Description) where
  claimed_end_conflicted :
      (r : AttemptResult)
      → (claimed_end says d r).0 ≡ OperationState.conflicted
      → r.state ≡ OperationState.conflicted
  unfolding claimed_end
  claimed_end_conflicted r h = elim (Bool-cases (may_end_in r.state)) [
    | inr b ↦ absurd (cc (rw (claimed_end, b) at h))
    | inl b ↦ elim (Bool-cases (r.state =os OperationState.unset && is_none r.error)) [
      | inl e ↦ absurd (cc (rw (claimed_end, b, e) at h))
      | inr e ↦ rw (claimed_end, b, e) at h
    ]
  ]

  claimed_end_of_conflicted :
      (r : AttemptResult)
      → r.state ≡ OperationState.conflicted
      → claimed_end says d r ≡ (OperationState.conflicted, r.error)
  unfolding claimed_end operation_state_discrete
  claimed_end_of_conflicted r h = rw (claimed_end, h) refl

  -- While an effect of the operation is in doubt, an attempt ends in state unknown, whatever else the
  -- executor said than conflicted. Where it said conflicted, the attempt ends so, or as canceled where
  -- a cancel was requested.
  pub attempt_end_in_doubt :
      (r : AttemptResult) (receipt : Receipt)
      → has_effect_in_doubt receipt.effects ≡ true
      → (r.state ≢ OperationState.conflicted
          → attempt_end says d r receipt
            ≡ Ending.ends OperationState.unknown (some (doubt_error (claimed_end says d r).1)))
        × (r.state ≡ OperationState.conflicted
            → attempt_end says d r receipt ≡ (
                if is_none receipt.cancel_requested_at
                then Ending.ends OperationState.conflicted r.error
                else Ending.ends OperationState.cancelled
                    (some (failure "cancelled" "canceled while running"))))
  unfolding attempt_end decide_end operation_state_discrete
  attempt_end_in_doubt r receipt h = (
    λ other.
        let apart : ((claimed_end says d r).0 =os OperationState.conflicted) ≡ false =
          ground (arith, other, claimed_end_conflicted r) in
        rw (attempt_end, decide_end, h, apart) refl,
    λ same. elim (Option-cases receipt.cancel_requested_at) [
      | inl e ↦ rw (attempt_end, decide_end, claimed_end_of_conflicted r same, h, e) refl
      | inr (t, e) ↦ rw (attempt_end, decide_end, claimed_end_of_conflicted r same, h, e) refl
    ],
  )

  requeue_needs :
      (receipt : Receipt) (state : OperationState) (error e : Option OperationError)
      → decide_end says d receipt state error ≡ Ending.requeues e
      → (has_effect_in_doubt receipt.effects ≡ false)
        × (receipt.cancel_requested_at ≡ none)
        × (state ≡ OperationState.unset)
        × (is_retryable error ≡ true)
        × (receipt.attempt < d.maximum_attempts)
  unfolding decide_end
  requeue_needs receipt state error e h = ground arith

  claimed_end_unset :
      (r : AttemptResult)
      → (claimed_end says d r).0 ≡ OperationState.unset
      → (r.state ≡ OperationState.unset) × ((claimed_end says d r).1 ≡ r.error)
  unfolding claimed_end
  claimed_end_unset r h = elim (Bool-cases (may_end_in r.state)) [
    | inr b ↦ absurd (cc (rw (claimed_end, b) at h))
    | inl b ↦ elim (Bool-cases (r.state =os OperationState.unset && is_none r.error)) [
      | inl e ↦ absurd (cc (rw (claimed_end, b, e) at h))
      | inr e ↦ (rw (claimed_end, b, e) at h, rw (claimed_end, b, e) refl)
    ]
  ]

  requeues-RunsAgain :
      (r : AttemptResult) (receipt : Receipt) (e : Option OperationError)
      → attempt_end says d r receipt ≡ Ending.requeues e
      → RunsAgain d r receipt
  unfolding attempt_end
  requeues-RunsAgain r receipt e h =
      let (settled, wanted, state, retryable, left) =
        requeue_needs receipt (claimed_end says d r).0 (claimed_end says d r).1 e h in
      let (no_state, same) = claimed_end_unset r state in
      record {
        settled = settled;
        wanted = wanted;
        no_state = no_state;
        retryable = ap is_retryable (sym same) ∙ retryable;
        attempts_left = left;
      }

  RunsAgain-requeues :
      (r : AttemptResult) (receipt : Receipt)
      → RunsAgain d r receipt
      → attempt_end says d r receipt ≡ Ending.requeues r.error
  unfolding attempt_end decide_end claimed_end operation_state_discrete
  RunsAgain-requeues r receipt a =
      let given : is_none r.error ≡ false = ground (arith, a.retryable) in
      let left : ltb receipt.attempt d.maximum_attempts ≡ true = ground (arith, a.attempts_left) in
      rw
        (
          attempt_end, claimed_end, a.no_state, given, decide_end, a.settled, a.wanted, a.retryable,
          left,
        )
        refl

  -- An attempt ends with the operation back in the queue exactly when no effect of it is in doubt, no
  -- cancel was requested, the executor gave no state but a retryable error, and attempts are left.
  pub attempt_end-RunsAgain :
      (r : AttemptResult) (receipt : Receipt)
      → ((e : Option OperationError) × (attempt_end says d r receipt ≡ Ending.requeues e))
        ↔ RunsAgain d r receipt
  attempt_end-RunsAgain r receipt =
      (λ (e, h). requeues-RunsAgain r receipt e h, λ a. (r.error, RunsAgain-requeues r receipt a))

-- What decides that the operation of a lost worker runs again.
pub record RunsAnew (d : Description) (decision : ReconcileResult) (receipt : Receipt)
    : Type 0 where
  pub asked : decision.action ≡ ReconcileAction.run_again
  pub settled : has_effect_in_doubt receipt.effects ≡ false
  pub wanted : receipt.cancel_requested_at ≡ none
  pub attempts_left : receipt.attempt < d.maximum_attempts

module _ (api : OperationApi) (says : Messages) (d : Description) (decision : ReconcileResult)
    (receipt : Receipt) where
  requeue-RunsAnew :
      reconcile_outcome api says d decision receipt ≡ ReconcileOutcome.requeue
      → RunsAnew d decision receipt
  unfolding reconcile_outcome
  requeue-RunsAnew h = record {
    asked = ground arith;
    settled = ground arith;
    wanted = ground arith;
    attempts_left = ground arith;
  }

  RunsAnew-requeue :
      RunsAnew d decision receipt
      → reconcile_outcome api says d decision receipt ≡ ReconcileOutcome.requeue
  unfolding reconcile_outcome
  RunsAnew-requeue a =
      let left : leb d.maximum_attempts receipt.attempt ≡ false = ground (arith, a.attempts_left) in
      rw (reconcile_outcome, a.asked, a.settled, a.wanted, left) refl

  -- The operation of a lost worker goes back in the queue exactly when its executor asked for that and
  -- the receipt that was listed shows no effect in doubt, no cancel request and attempts left.
  pub reconcile_outcome-RunsAnew :
      (reconcile_outcome api says d decision receipt ≡ ReconcileOutcome.requeue)
      ↔ RunsAnew d decision receipt
  reconcile_outcome-RunsAnew = (requeue-RunsAnew, RunsAnew-requeue)

pub outcome_cases :
    (x : ReconcileOutcome)
    → (x ≡ ReconcileOutcome.requeue)
      ⊎ ((s : OperationState) × (e : Option OperationError) × (x ≡ ReconcileOutcome.ends s e))
outcome_cases ReconcileOutcome.requeue = inl refl
outcome_cases (ReconcileOutcome.ends s e) = inr (s, e, refl)

-- An operation of a lost worker that ends does not end as queued.
pub ends_open :
    (api : OperationApi)
    → api.is_terminal OperationState.queued ≡ false
    → (says : Messages) (d : Description) (decision : ReconcileResult) (receipt : Receipt)
      (s : OperationState) (e : Option OperationError)
    → reconcile_outcome api says d decision receipt ≡ ReconcileOutcome.ends s e
    → s ≢ OperationState.queued
unfolding reconcile_outcome
ends_open api opens_queue says d decision receipt s e h = ground (arith, opens_queue)
