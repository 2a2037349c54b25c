-- ===== src/Coordinator/Outcomes.antt =====
-- How finishAttempt and reconcileOne of internal/operations/coordinator.go leave the operation that they
-- store.
use mathlib.Core.List.{Memᴰ}
use llm_bridge_server.Prelude.{
  ℕ, ◌<◌, ◌≡◌, ◌↔◌, ◌≢◌, refl, ◌∙◌, sym, ap, String, Bool, true, false, List, [], ◌∷◌, Option, none,
  some, lookup, Result, ok_injective, Option-cases, Bool-cases, inl, inr, arith,
}
use llm_bridge_server.Operations.Types.{
  OperationState, operation_state_discrete, EventKind, OperationApi, OperationError,
  OperationEffect, EffectOutcome, Receipt, Operation, Row, Event, Database, StoreError,
}
use llm_bridge_server.Operations.Store.{Change, released, completed, update}
use llm_bridge_server.Operations.Updates.{
  update_also-Updates, released_keeps, write_receipt_change_written,
}
use llm_bridge_server.Coordinator.Intents.{Description}
use llm_bridge_server.Coordinator.Attempts.{
  Messages, AttemptResult, has_effect_in_doubt, is_unknown, is_retryable, attempted, attempt_end,
  with_end, finish_change, finish_attempt, doubt_error, claimed_end,
}
use llm_bridge_server.Coordinator.Endings.{RunsAgain, attempt_end-RunsAgain, attempt_end_in_doubt}
use llm_bridge_server.Coordinator.Requeues.{Ending-cases, ends_not_queued}

-- An effect whose outcome no answer told.
abbrev pub InDoubt : List OperationEffect → Type 0
InDoubt effects = (e : OperationEffect) × Memᴰ e effects × (e.outcome ≡ EffectOutcome.unknown)

abbrev pub NoneInDoubt : List OperationEffect → Type 0
NoneInDoubt effects = (e : OperationEffect) → Memᴰ e effects → e.outcome ≢ EffectOutcome.unknown

is_unknown-unknown : (x : EffectOutcome) → is_unknown x ≡ true → x ≡ EffectOutcome.unknown
is_unknown-unknown EffectOutcome.unknown h = refl
is_unknown-unknown (EffectOutcome.other_outcome s) h = absurd (cc h)

has_effect_in_doubt-InDoubt :
    (effects : List OperationEffect) (e : OperationEffect)
    → Memᴰ e effects
    → e.outcome ≡ EffectOutcome.unknown
    → has_effect_in_doubt effects ≡ true
unfolding has_effect_in_doubt
has_effect_in_doubt-InDoubt [] e m x = elim m [ ]
has_effect_in_doubt-InDoubt (d ∷ effects) e (Memᴰ.head s) x =
    let same : is_unknown d.outcome ≡ true =
      ap (λ (a : OperationEffect). is_unknown a.outcome) (sym s) ∙ ap is_unknown x in
    ground (arith, same)
has_effect_in_doubt-InDoubt (d ∷ effects) e (Memᴰ.tail m) x =
    let rest = has_effect_in_doubt-InDoubt effects e m x in ground (arith, rest)

pub settled_effects :
    (effects : List OperationEffect) → NoneInDoubt effects → has_effect_in_doubt effects ≡ false
unfolding has_effect_in_doubt
settled_effects [] h = refl
settled_effects (d ∷ effects) h =
    let rest = settled_effects effects (λ e m. h e (Memᴰ.tail m)) in
    elim (Bool-cases (is_unknown d.outcome)) [
      | inl b ↦ absurd (h d (Memᴰ.head refl) (is_unknown-unknown d.outcome b))
      | inr b ↦ ground (arith, rest, b)
    ]

pub NoneInDoubt-settled :
    (effects : List OperationEffect) → has_effect_in_doubt effects ≡ false → NoneInDoubt effects
NoneInDoubt-settled effects h e m x = absurd (cc (h, has_effect_in_doubt-InDoubt effects e m x))

completed_leaves :
    (api : OperationApi) (now : ℕ) (o : Operation)
    → ((completed api now o).receipt.state ≡ o.receipt.state)
      × ((completed api now o).receipt.error ≡ o.receipt.error)
unfolding completed
completed_leaves api now o = elim (Option-cases o.receipt.completed_at) [
  | inr (t, e) ↦ rw (e, completed) (refl, refl)
  | inl e ↦ elim (Bool-cases (api.is_terminal o.receipt.state)) [
    | inl b ↦ rw (e, b, completed) (refl, refl)
    | inr b ↦ rw (e, b, completed) (refl, refl)
  ]
]

module _ (api : OperationApi) (id_before : String → String → Bool) where
  -- What a successful update answers with is what its change made of the stored operation.
  pub update_answers :
      (id : String) (token : Option ℕ) (now : ℕ) (change : Change) (db : Database)
      (done : Database × Receipt × List Event) (row : Row)
      → lookup id db.rows ≡ some row
      → update api id_before id token now change db ≡ Result.ok done
      → (o : Operation) × (kind : EventKind) × (change row.operation ≡ Result.ok (o, kind))
        × (done.1.state ≡ o.receipt.state)
        × (done.1.error ≡ o.receipt.error)
  unfolding update
  update_answers id token now change db done row found h =
      let pass : Operation → Database → Result StoreError Database = λ o d. Result.ok d in
      let u = update_also-Updates api id_before id token now change pass db done h in
      let o = completed api now (released api u.changed) in
      let wrote =
        write_receipt_change_written id_before o u.kind now u.also (done.0, done.2, u.written)
          u.writes in
      let (state, error) = completed_leaves api now (released api u.changed) in
      let released_receipt = released_keeps api u.changed in
      let same : u.row ≡ row = cc (u.was, found) in
      let answered = u.receipt ∙ ap (λ (p : Operation). p.receipt) wrote in
      (
        u.changed,
        u.kind,
        ap (λ (r : Row). change r.operation) (sym same) ∙ u.change_lem,
        ap (λ (p : Receipt). p.state) answered
            ∙ state
            ∙ ap (λ (p : Receipt). p.state) released_receipt,
        ap (λ (p : Receipt). p.error) answered
            ∙ error
            ∙ ap (λ (p : Receipt). p.error) released_receipt,
      )

-- What makes an attempt's operation run again: no effect in doubt, no cancel request, and from the
-- executor no state but a retryable error, with attempts left.
pub record RunsAfter (d : Description) (r : AttemptResult) (stored : Receipt) : Type 0 where
  pub settled : NoneInDoubt stored.effects
  pub wanted : stored.cancel_requested_at ≡ none
  pub no_state : r.state ≡ OperationState.unset
  pub retryable : (e : OperationError) × (r.error ≡ some e) × (e.retryable ≡ true)
  pub attempts_left : stored.attempt < d.maximum_attempts

retryable_error :
    (error : Option OperationError)
    → is_retryable error ≡ true
    → (e : OperationError) × (error ≡ some e) × (e.retryable ≡ true)
retryable_error none h = absurd (cc h)
retryable_error (some e) h = (e, refl, h)

doubt_error-final : (error : Option OperationError) → (doubt_error error).retryable ≡ false
unfolding doubt_error
doubt_error-final none = refl
doubt_error-final (some e) = ground arith

module _ (says : Messages) (d : Description) (r : AttemptResult) where
  queued_end-RunsAfter :
      (stored : Receipt)
      → let receipt = attempted d r stored in
        (with_end r (attempt_end says d r receipt) receipt).state ≡ OperationState.queued
        → RunsAfter d r stored
  queued_end-RunsAfter stored h =
      let receipt = attempted d r stored in
      elim (Ending-cases (attempt_end says d r receipt)) [
        | inr (s, error, e) ↦ absurd (ends_not_queued says d r receipt s error e h)
        | inl (error, e) ↦
            let again = (attempt_end-RunsAgain says d r receipt).0 (error, e) in
            record {
              settled = NoneInDoubt-settled stored.effects again.settled;
              wanted = again.wanted;
              no_state = again.no_state;
              retryable = retryable_error r.error again.retryable;
              attempts_left = again.attempts_left;
            }
      ]

  RunsAfter-queued_end :
      (stored : Receipt)
      → RunsAfter d r stored
      → let receipt = attempted d r stored in
        (with_end r (attempt_end says d r receipt) receipt).state ≡ OperationState.queued
  unfolding with_end
  RunsAfter-queued_end stored a =
      let receipt = attempted d r stored in
      let (e, given, retryable) = a.retryable in
      let again : RunsAgain d r receipt = record {
        settled = settled_effects stored.effects a.settled;
        wanted = a.wanted;
        no_state = a.no_state;
        retryable = ap is_retryable given ∙ retryable;
        attempts_left = a.attempts_left;
      } in
      let (error, ending) = (attempt_end-RunsAgain says d r receipt).1 again in
      ap (λ x. (with_end r x receipt).state) ending

  module _ (api : OperationApi) (id_before : String → String → Bool) (held : Operation) (now : ℕ)
      (db : Database) (done : Database × Receipt × List Event) (row : Row)
      (stored : lookup held.receipt.identity.id db.rows ≡ some row)
      (finished : finish_attempt api id_before says held d r now db ≡ Result.ok done) where
    -- A finishAttempt that is stored leaves the operation queued exactly when the stored receipt shows
    -- no effect in doubt, no cancel request and attempts left, and the executor gave no state but a
    -- retryable error.
    pub finish_attempt-RunsAfter :
        (done.1.state ≡ OperationState.queued) ↔ RunsAfter d r row.operation.receipt
    unfolding finish_attempt finish_change
    finish_attempt-RunsAfter =
        let (o, kind, change, state, error) =
          update_answers api id_before held.receipt.identity.id (some held.lease_token) now
            (finish_change api says d r) db done row stored finished in
        let out = ap (λ (p : Operation × EventKind). p.0.receipt.state) (ok_injective change) in
        (
          λ q. queued_end-RunsAfter row.operation.receipt (out ∙ sym state ∙ q),
          λ a. state ∙ sym out ∙ RunsAfter-queued_end row.operation.receipt a,
        )

    -- A finishAttempt that is stored, while the stored receipt shows an effect in doubt, leaves the
    -- operation unknown with an error that is not to be retried, whatever else the executor said than
    -- conflicted. Where it said conflicted, it leaves the operation so, or canceled where a cancel was
    -- requested.
    pub finish_attempt-InDoubt :
        InDoubt row.operation.receipt.effects
        → (r.state ≢ OperationState.conflicted
            → (done.1.state ≡ OperationState.unknown)
              × ((e : OperationError) × (done.1.error ≡ some e) × (e.retryable ≡ false)))
          × (r.state ≡ OperationState.conflicted
              → (row.operation.receipt.cancel_requested_at ≡ none
                  → done.1.state ≡ OperationState.conflicted)
                × ((t : ℕ)
                    → row.operation.receipt.cancel_requested_at ≡ some t
                    → done.1.state ≡ OperationState.cancelled))
    unfolding finish_attempt finish_change with_end operation_state_discrete
    finish_attempt-InDoubt (effect, m, x) =
        let (o, kind, change, state, error) =
          update_answers api id_before held.receipt.identity.id (some held.lease_token) now
            (finish_change api says d r) db done row stored finished in
        let receipt = attempted d r row.operation.receipt in
        let in_doubt = has_effect_in_doubt-InDoubt row.operation.receipt.effects effect m x in
        let (other, conflicted) = attempt_end_in_doubt says d r receipt in_doubt in
        let left = ap (λ (p : Operation × EventKind). p.0.receipt) (sym (ok_injective change)) in
        (
          λ apart.
              let end = left ∙ ap (λ ending. with_end r ending receipt) (other apart) in
              (
                state ∙ ap (λ (p : Receipt). p.state) end,
                (
                  doubt_error (claimed_end says d r).1,
                  error ∙ ap (λ (p : Receipt). p.error) end,
                  doubt_error-final (claimed_end says d r).1,
                ),
              ),
          λ same.
              let end = left ∙ ap (λ ending. with_end r ending receipt) (conflicted same) in
              (
                λ e. state ∙ ap (λ (p : Receipt). p.state) end ∙ rw e refl,
                λ t e. state ∙ ap (λ (p : Receipt). p.state) end ∙ rw e refl,
              ),
        )
