-- ===== src/Coordinator/Bounds.antt =====
-- What the steps of internal/operations/coordinator.go do to the attempts of one operation.
use llm_bridge_server.Prelude.{
  ℕ, ◌≤◌, ◌<◌, ◌≡◌, ◌⊎◌, refl, ◌∙◌, sym, ap, String, inl, inr, arith, Bool-cases, Option-cases,
}
use llm_bridge_server.Operations.Types.{OperationState, OperationApi, Receipt, Operation, Identity}
use llm_bridge_server.Operations.Store.{released, completed, stamped, recounted}
use llm_bridge_server.Operations.Moves.{Turn, claims, updates, recounts}
use llm_bridge_server.Operations.Updates.{released_keeps}
use llm_bridge_server.Operations.Fence.{released_token, completed_token}
use llm_bridge_server.Operations.Follows.{IsFollowed, IsKept}
use llm_bridge_server.Coordinator.Attempting.{IsBounded}

-- What a change may do to the attempts of an operation.
pub record IsStep (maximum : String → ℕ) (old new : Operation) : Type 0 where
  pub token : new.lease_token ≡ old.lease_token
  pub attempt : new.receipt.attempt ≡ old.receipt.attempt
  pub queued :
      new.receipt.state ≡ OperationState.queued
      → (old.receipt.state ≡ OperationState.queued)
        ⊎ (old.receipt.attempt < maximum old.receipt.identity.operation_type)

-- The same operation later: under the same token it is in the same attempt.
pub record IsLeased (old new : Operation) : Type 0 where
  pub identity : new.receipt.identity ≡ old.receipt.identity
  pub token : old.lease_token ≤ new.lease_token
  pub attempt : new.lease_token ≡ old.lease_token → new.receipt.attempt ≡ old.receipt.attempt

completed_attempt :
    (api : OperationApi) (now : ℕ) (o : Operation)
    → ((completed api now o).receipt.attempt ≡ o.receipt.attempt)
      × ((completed api now o).receipt.state ≡ o.receipt.state)
unfolding completed
completed_attempt api now o = elim (Option-cases o.receipt.completed_at) [
  | inr (t, e) ↦ rw (e, completed) (refl, refl)
  | inl e ↦ elim (Bool-cases (api.is_terminal o.receipt.state)) [
    | inl b ↦ rw (e, b, completed) (refl, refl)
    | inr b ↦ rw (e, b, completed) (refl, refl)
  ]
]

module _ (api : OperationApi) (maximum : String → ℕ) where
  updated_attempt :
      (now : ℕ) (o new : Operation)
      → new ≡ stamped now (completed api now (released api o))
      → (new.receipt.attempt ≡ o.receipt.attempt) × (new.receipt.state ≡ o.receipt.state)
  updated_attempt now o new e =
      let (attempt, state) = completed_attempt api now (released api o) in
      let same = released_keeps api o in
      (
        ap (λ (p : Operation). p.receipt.attempt) e
            ∙ attempt
            ∙ ap (λ (r : Receipt). r.attempt) same,
        ap (λ (p : Operation). p.receipt.state) e ∙ state ∙ ap (λ (r : Receipt). r.state) same,
      )

  Turn-IsBounded :
      (old new : Operation)
      → Turn api (IsStep maximum) old new
      → new.receipt.identity ≡ old.receipt.identity
      → IsBounded maximum old
      → IsBounded maximum new
  unfolding recounted
  Turn-IsBounded old new (claims owner duration now queued e) kept b =
      let left = b.left queued in
      let attempt = ap (λ (p : Operation). p.receipt.attempt) e in
      let type_name = ap (λ (i : Identity). maximum i.operation_type) kept in
      let state = ap (λ (p : Operation). p.receipt.state) e in
      record { made = ground (arith, left, attempt, type_name); left = λ h. absurd (cc (h, state)) }
  Turn-IsBounded old new (updates token change o kind now g step c known e) kept b =
      let (attempt, state) = updated_attempt now o new e in
      let type_name = ap (λ (i : Identity). maximum i.operation_type) kept in
      let same = step.attempt in
      record {
        made = ground (arith, attempt, same, type_name, b.made);
        left = λ h. elim (step.queued (sym state ∙ h)) [
          | inl was ↦ ground (arith, attempt, same, type_name, b.left was)
          | inr left ↦ ground (arith, attempt, same, type_name, left)
        ];
      }
  Turn-IsBounded old new (recounts id_before children now e) kept b =
      let attempt = ap (λ (p : Operation). p.receipt.attempt) e in
      let state = ap (λ (p : Operation). p.receipt.state) e in
      let type_name = ap (λ (i : Identity). maximum i.operation_type) kept in
      record {
        made = ground (arith, attempt, type_name, b.made);
        left = λ h. ground (arith, attempt, type_name, b.left (sym state ∙ h));
      }

  pub IsBounded-IsKept :
      ((t : String) → 1 ≤ maximum t) → IsKept api (IsStep maximum) (IsBounded maximum)
  IsBounded-IsKept some_left = record {
    turns = Turn-IsBounded;
    starts = λ id i fingerprint root now. record {
      made = omega arith;
      left = λ h. ground (arith, some_left i.operation_type);
    };
    renewals = λ o expires_at b. record { made = b.made; left = b.left };
  }

  Turn-IsLeased :
      (old new : Operation)
      → Turn api (IsStep maximum) old new
      → new.receipt.identity ≡ old.receipt.identity
      → IsLeased old new
  unfolding recounted
  Turn-IsLeased old new (claims owner duration now queued e) kept =
      let token = ap (λ (p : Operation). p.lease_token) e in
      record {
        identity = kept;
        token = ground (arith, token);
        attempt = λ h. absurd (omega (arith, h, token));
      }
  Turn-IsLeased old new (updates token change o kind now g step c known e) kept =
      let (attempt, state) = updated_attempt now o new e in
      let held = step.token in
      let grows = released_token api o in
      let done = completed_token api now (released api o) in
      let written = ap (λ (p : Operation). p.lease_token) e in
      record {
        identity = kept;
        token = ground (arith, held, grows, done, written);
        attempt = λ h. attempt ∙ step.attempt;
      }
  Turn-IsLeased old new (recounts id_before children now e) kept = record {
    identity = kept;
    token = rw e (ground arith);
    attempt = λ h. ap (λ (p : Operation). p.receipt.attempt) e;
  }

  IsLeased-trans : (a b c : Operation) → IsLeased a b → IsLeased b c → IsLeased a c
  IsLeased-trans a b c p q = record {
    identity = q.identity ∙ p.identity;
    token = ground (arith, p.token, q.token);
    attempt = λ h.
        let first : b.lease_token ≡ a.lease_token = ground (arith, p.token, q.token, h) in
        q.attempt (h ∙ sym first) ∙ p.attempt first;
  }

  pub IsLeased-IsFollowed : IsFollowed api (IsStep maximum) IsLeased
  IsLeased-IsFollowed = record {
    reflexive = λ o. record { identity = refl; token = omega arith; attempt = λ h. refl };
    transitive = IsLeased-trans;
    turns = λ old new turn kept next. Turn-IsLeased old new turn kept;
    renewals = λ o expires_at. record { identity = refl; token = omega arith; attempt = λ h. refl };
  }
