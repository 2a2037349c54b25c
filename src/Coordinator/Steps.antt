-- ===== src/Coordinator/Steps.antt =====
-- Each change of internal/operations/coordinator.go and of spend.go as a step of an operation: it
-- leaves the identity, the revision, the attempt and the lease token to the store, and queues an
-- operation only with an attempt left.
use mathlib.Core.Path.{subst}
use llm_bridge_server.Prelude.{
  ℕ, ◌-◌, ◌<◌, ◌≡◌, ◌≢◌, refl, ◌∙◌, sym, ap, String, ◌||◌, Option, Result, bind-ok, ok_injective,
  guard-ok, inl, inr, arith, Bool-cases, ltb, length,
}
use llm_bridge_server.Operations.Types.{
  OperationState, ◌=os◌, EventKind, OperationApi, OperationError, Receipt, Operation, ModelCall,
  StoreError,
}
use llm_bridge_server.Operations.Spend.{book_call}
use llm_bridge_server.Operations.Updates.{Keeps}
use llm_bridge_server.Coordinator.Intents.{Description}
use llm_bridge_server.Coordinator.Attempts.{
  Messages, AttemptResult, attempted, attempt_end, finish_change, cancel_change, settle_change,
}
use llm_bridge_server.Coordinator.Writer.{
  write_change, set_progress, add_evidence, record_effect, settle_effect, change_effect,
  settled_effect,
}
use llm_bridge_server.Coordinator.Reconcile.{ReconcileOutcome, reconcile_change}
use llm_bridge_server.Coordinator.Attempting.{Writing, progresses, proves, records, settles}
use llm_bridge_server.Coordinator.Bounds.{IsStep}
use llm_bridge_server.Coordinator.Requeues.{SameCounts, with_end-SameCounts, finish_change_queues}

module _ (maximum : String → ℕ) where
  pub finish_change-IsStep :
      (api : OperationApi) (says : Messages) (d : Description) (r : AttemptResult)
      (o o' : Operation) (kind : EventKind)
      → d.maximum_attempts ≡ maximum o.receipt.identity.operation_type
      → finish_change api says d r o ≡ Result.ok (o', kind)
      → IsStep maximum o o'
  unfolding finish_change
  finish_change-IsStep api says d r o o' kind same h =
      let receipt = attempted d r o.receipt in
      let ending = attempt_end says d r receipt in
      let counts = with_end-SameCounts r ending receipt in
      let out = ap (λ (p : Operation × EventKind). p.0) (sym (ok_injective h)) in
      record {
        token = ap (λ (p : Operation). p.lease_token) out;
        attempt = ap (λ (p : Operation). p.receipt.attempt) out ∙ counts.attempt;
        queued = λ q.
            let left =
              finish_change_queues says d r receipt
                (ap (λ (p : Operation). p.receipt.state) (sym out) ∙ q) in
            inr (ground (arith, left, same));
      }

  pub cancel_change-IsStep :
      (now : ℕ) (o o' : Operation) (kind : EventKind)
      → cancel_change now o ≡ Result.ok (o', kind)
      → IsStep maximum o o'
  unfolding cancel_change
  cancel_change-IsStep now o o' kind h =
      elim (Bool-cases (o.receipt.state =os OperationState.queued)) [
        | inl b ↦
            let out =
              ap (λ (p : Operation × EventKind). p.0)
                (sym (ok_injective (rw (cancel_change, b) at h))) in
            record {
              token = ap (λ (p : Operation). p.lease_token) out;
              attempt = ap (λ (p : Operation). p.receipt.attempt) out;
              queued = λ q. absurd (cc (q, ap (λ (p : Operation). p.receipt.state) out));
            }
        | inr b ↦
            let out =
              ap (λ (p : Operation × EventKind). p.0)
                (sym (ok_injective (rw (cancel_change, b) at h))) in
            record {
              token = ap (λ (p : Operation). p.lease_token) out;
              attempt = ap (λ (p : Operation). p.receipt.attempt) out;
              queued = λ q. inl (sym (ap (λ (p : Operation). p.receipt.state) out) ∙ q);
            }
      ]

  pub settle_change-IsStep :
      (api : OperationApi) (state : OperationState) (error : Option OperationError)
      (o o' : Operation) (kind : EventKind)
      → state ≢ OperationState.queued
      → settle_change api state error o ≡ Result.ok (o', kind)
      → IsStep maximum o o'
  unfolding settle_change
  settle_change-IsStep api state error o o' kind n h =
      let out = ap (λ (p : Operation × EventKind). p.0) (sym (ok_injective h)) in
      record {
        token = ap (λ (p : Operation). p.lease_token) out;
        attempt = ap (λ (p : Operation). p.receipt.attempt) out;
        queued = λ q. absurd (n (sym (ap (λ (p : Operation). p.receipt.state) out) ∙ q));
      }

  pub book_call-IsStep :
      (c : ModelCall) (o o' : Operation) (kind : EventKind)
      → book_call c o ≡ Result.ok (o', kind)
      → IsStep maximum o o'
  unfolding book_call
  book_call-IsStep c o o' kind h =
      let out = ap (λ (p : Operation × EventKind). p.0) (sym (ok_injective h)) in
      record {
        token = ap (λ (p : Operation). p.lease_token) out;
        attempt = ap (λ (p : Operation). p.receipt.attempt) out;
        queued = λ q. inl (sym (ap (λ (p : Operation). p.receipt.state) out) ∙ q);
      }

-- A receipt after the receipt writer's change.
record SameState (old new : Receipt) : Type 0 where
  counts : SameCounts old new
  state : new.state ≡ old.state

writing_keeps :
    (says : Messages) (change : Receipt → Result StoreError Receipt) (old new : Receipt)
    → Writing says change
    → change old ≡ Result.ok new
    → SameState old new
unfolding set_progress add_evidence record_effect settle_effect
writing_keeps says change old new (progresses progress) h =
    subst (SameState old) (ok_injective h) (record {
      counts = record { identity = refl; revision = refl; attempt = refl };
      state = refl;
    })
writing_keeps says change old new (proves evidence) h =
    subst (SameState old) (ok_injective h) (record {
      counts = record { identity = refl; revision = refl; attempt = refl };
      state = refl;
    })
writing_keeps says change old new (records target action now) h =
    subst (SameState old) (ok_injective h) (record {
      counts = record { identity = refl; revision = refl; attempt = refl };
      state = refl;
    })
writing_keeps says change old new (settles number outcome external now) h =
    subst (SameState old)
      (guard-ok (ltb number 1 || ltb (length old.effects) number)
        (StoreError.refused (says.no_effect old.identity.id number))
        (record old {
          effects = change_effect (number - 1) (settled_effect outcome external now) old.effects;
        })
        h).1
      (record {
        counts = record { identity = refl; revision = refl; attempt = refl };
        state = refl;
      })

module _ (maximum : String → ℕ) (says : Messages) where
  pub write_change-IsStep :
      (change : Receipt → Result StoreError Receipt) (o o' : Operation) (kind : EventKind)
      → Writing says change
      → write_change change o ≡ Result.ok (o', kind)
      → IsStep maximum o o'
  unfolding write_change
  write_change-IsStep change o o' kind w h =
      let (new, e, k) = bind-ok (change o.receipt) _ h in
      let same = writing_keeps says change o.receipt new w e in
      let out = ap (λ (p : Operation × EventKind). p.0) (sym (ok_injective k)) in
      record {
        token = ap (λ (p : Operation). p.lease_token) out;
        attempt = ap (λ (p : Operation). p.receipt.attempt) out ∙ same.counts.attempt;
        queued = λ q. inl (sym same.state ∙ sym (ap (λ (p : Operation). p.receipt.state) out) ∙ q);
      }

  pub write_change-Keeps :
      (change : Receipt → Result StoreError Receipt)
      → Writing says change
      → Keeps (write_change change)
  unfolding write_change
  write_change-Keeps change w o o' kind h =
      let (new, e, k) = bind-ok (change o.receipt) _ h in
      let same = writing_keeps says change o.receipt new w e in
      let out = ap (λ (p : Operation × EventKind). p.0) (sym (ok_injective k)) in
      (
        ap (λ (p : Operation). p.receipt.identity) out ∙ same.counts.identity,
        ap (λ (p : Operation). p.receipt.revision) out ∙ same.counts.revision,
      )

pub finish_change-Keeps :
    (api : OperationApi) (says : Messages) (d : Description) (r : AttemptResult)
    → Keeps (finish_change api says d r)
unfolding finish_change
finish_change-Keeps api says d r o o' kind h =
    let receipt = attempted d r o.receipt in
    let counts = with_end-SameCounts r (attempt_end says d r receipt) receipt in
    let out = ap (λ (p : Operation × EventKind). p.0) (sym (ok_injective h)) in
    (
      ap (λ (p : Operation). p.receipt.identity) out ∙ counts.identity,
      ap (λ (p : Operation). p.receipt.revision) out ∙ counts.revision,
    )

pub cancel_change-Keeps : (now : ℕ) → Keeps (cancel_change now)
unfolding cancel_change
cancel_change-Keeps now o o' kind h =
    elim (Bool-cases (o.receipt.state =os OperationState.queued)) [
      | inl b ↦
          let out =
            ap (λ (p : Operation × EventKind). p.0)
              (sym (ok_injective (rw (cancel_change, b) at h))) in
          (
            ap (λ (p : Operation). p.receipt.identity) out,
            ap (λ (p : Operation). p.receipt.revision) out,
          )
      | inr b ↦
          let out =
            ap (λ (p : Operation × EventKind). p.0)
              (sym (ok_injective (rw (cancel_change, b) at h))) in
          (
            ap (λ (p : Operation). p.receipt.identity) out,
            ap (λ (p : Operation). p.receipt.revision) out,
          )
    ]

pub settle_change-Keeps :
    (api : OperationApi) (state : OperationState) (error : Option OperationError)
    → Keeps (settle_change api state error)
unfolding settle_change
settle_change-Keeps api state error o o' kind h =
    let out = ap (λ (p : Operation × EventKind). p.0) (sym (ok_injective h)) in
    (ap (λ (p : Operation). p.receipt.identity) out, ap (λ (p : Operation). p.receipt.revision) out)

pub reconcile_change-Keeps :
    (api : OperationApi) (outcome : ReconcileOutcome) → Keeps (reconcile_change api outcome)
unfolding reconcile_change
reconcile_change-Keeps api ReconcileOutcome.requeue o o' kind h =
    let out = ap (λ (p : Operation × EventKind). p.0) (sym (ok_injective h)) in
    (ap (λ (p : Operation). p.receipt.identity) out, ap (λ (p : Operation). p.receipt.revision) out)
reconcile_change-Keeps api (ReconcileOutcome.ends state error) o o' kind h =
    settle_change-Keeps api state error o o' kind h

-- A requeue by reconcileOne, on an operation with an attempt left.
pub requeue-IsStep :
    (maximum : String → ℕ) (api : OperationApi) (o o' : Operation) (kind : EventKind)
    → o.receipt.attempt < maximum o.receipt.identity.operation_type
    → reconcile_change api ReconcileOutcome.requeue o ≡ Result.ok (o', kind)
    → IsStep maximum o o'
unfolding reconcile_change
requeue-IsStep maximum api o o' kind left h =
    let out = ap (λ (p : Operation × EventKind). p.0) (sym (ok_injective h)) in
    record {
      token = ap (λ (p : Operation). p.lease_token) out;
      attempt = ap (λ (p : Operation). p.receipt.attempt) out;
      queued = λ q. inr left;
    }
