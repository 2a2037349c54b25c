-- ===== src/Operations/Fence.antt =====
-- What a row of internal/operationstore keeps while calls follow: lease tokens and revisions only
-- grow, and an ended operation stays as it ended.
use mathlib.Core.Logic.{◌⊎◌}
use llm_bridge_server.Prelude.{
  ℕ, suc, ◌≤◌, ◌<◌, ◌≡◌, refl, ◌∙◌, ap, String, Bool, true, false, ◌==◌, List, Option, some, lookup,
  Result, inl, inr, arith, Option-cases, Bool-cases, ◌||◌,
}
use llm_bridge_server.Operations.Types.{
  OperationState, ◌=os◌, OperationApi, OperationError, OperationEffect, OperationUsage, Receipt,
  Operation, Row, Database, StoreError,
}
use llm_bridge_server.Operations.Store.{
  Change, guarded, released, completed, update, update_also, recounted, renew_lease,
}
use llm_bridge_server.Operations.Follows.{IsFollowed, Moves-follow}
use llm_bridge_server.Operations.Moves.{Turn, claims, updates, recounts, Moves}

-- How an operation ended, as its receipt says.
abbrev pub outcome :
    Receipt
    → OperationState
      × Option OperationError
      × Option String
      × Option ℕ
      × List OperationEffect
      × Option OperationUsage
      × ℕ
outcome r = (r.state, r.error, r.result, r.completed_at, r.effects, r.usage, r.attempt)

-- A change that leaves the lease's token to the store.
abbrev pub KeepsToken : Operation → Operation → Type 0
KeepsToken old new = new.lease_token ≡ old.lease_token

-- One operation, later.
pub record IsLater (api : OperationApi) (old new : Operation) : Type 0 where
  pub token : old.lease_token ≤ new.lease_token
  pub revision : old.receipt.revision ≤ new.receipt.revision
  pub final :
      api.is_terminal old.receipt.state ≡ true
      → (outcome new.receipt ≡ outcome old.receipt) × (new.lease_token ≡ old.lease_token)

IsLater-refl : (api : OperationApi) (o : Operation) → IsLater api o o
IsLater-refl api o = record {
  token = omega arith;
  revision = omega arith;
  final = λ h. (refl, refl);
}

IsLater-trans :
    (api : OperationApi) (a b c : Operation) → IsLater api a b → IsLater api b c → IsLater api a c
IsLater-trans api a b c p q = record {
  token = ground (arith, p.token, q.token);
  revision = ground (arith, p.revision, q.revision);
  final = λ h.
      let (same, held) = p.final h in
      let (same', held') = q.final (ap (λ o. api.is_terminal o.0) same ∙ h) in
      (same' ∙ same, held' ∙ held);
}

pub released_token :
    (api : OperationApi) (o : Operation) → o.lease_token ≤ (released api o).lease_token
unfolding released
released_token api o =
    elim (Bool-cases
      (api.is_terminal o.receipt.state || o.receipt.state =os OperationState.queued)) [
        | inl b ↦ rw (b, released) (ground arith)
        | inr b ↦ rw (b, released) (ground arith)
      ]

pub completed_token :
    (api : OperationApi) (now : ℕ) (o : Operation)
    → (completed api now o).lease_token ≡ o.lease_token
unfolding completed
completed_token api now o = elim (Option-cases o.receipt.completed_at) [
  | inr (t, e) ↦ rw (e, completed) refl
  | inl e ↦ elim (Bool-cases (api.is_terminal o.receipt.state)) [
    | inl b ↦ rw (e, b, completed) refl
    | inr b ↦ rw (e, b, completed) refl
  ]
]

pub guarded_open :
    (api : OperationApi) (token : Option ℕ) (o p : Operation)
    → guarded api token o ≡ Result.ok p
    → api.is_terminal o.receipt.state ≡ false
unfolding guarded
guarded_open api token o p h = elim (Bool-cases (api.is_terminal o.receipt.state)) [
  | inl b ↦ absurd (cc (rw (b, guarded) at h))
  | inr b ↦ b
]

-- A token that the row has not, or an ended row.
guarded_outdated :
    (api : OperationApi) (t : ℕ) (o : Operation)
    → t < o.lease_token
    → (guarded api (some t) o ≡ Result.err StoreError.terminal)
      ⊎ (guarded api (some t) o ≡ Result.err StoreError.lease_lost)
unfolding guarded
guarded_outdated api t o h = elim (Bool-cases (api.is_terminal o.receipt.state)) [
  | inl b ↦ inl (rw (b, guarded) refl)
  | inr b ↦
      let other : (o.lease_token == t) ≡ false = ground arith in inr (rw (b, other, guarded) refl)
]

module _ (api : OperationApi) (opens : api.is_terminal OperationState.queued ≡ false) where
  Turn-IsLater :
      (old new : Operation)
      → Turn api KeepsToken old new
      → new.receipt.revision ≡ suc old.receipt.revision
      → IsLater api old new
  unfolding recounted
  Turn-IsLater old new (claims owner duration now queued e) next = record {
    token = rw e (ground arith);
    revision = ground (arith, next);
    final = λ h. absurd (cc (opens, h, queued));
  }
  Turn-IsLater old new (updates token change o kind now g keeps c known e) next =
      let held : o.lease_token ≡ old.lease_token = keeps in
      let grows = released_token api o in
      let done = completed_token api now (released api o) in
      let written = ap (λ (p : Operation). p.lease_token) e in
      record {
        token = ground (arith, held, grows, done, written);
        revision = ground (arith, next);
        final = λ h. absurd (cc (guarded_open api token old old g, h));
      }
  Turn-IsLater old new (recounts id_before children now e) next = record {
    token = rw e (ground arith);
    revision = ground (arith, next);
    final =
        λ h. (ap (λ (p : Operation). outcome p.receipt) e, ap (λ (p : Operation). p.lease_token) e);
  }

  IsLater-IsFollowed : IsFollowed api KeepsToken (IsLater api)
  IsLater-IsFollowed = record {
    reflexive = IsLater-refl api;
    transitive = IsLater-trans api;
    turns = λ old new turn kept next. Turn-IsLater old new turn next;
    renewals = λ o expires_at. record {
      token = omega arith;
      revision = omega arith;
      final = λ h. (refl, refl);
    };
  }

  -- The row that stands later where one stood before.
  pub Moves-IsLater :
      {db db' : Database} (id : String) (r : Row)
      → Moves api KeepsToken db db'
      → lookup id db.rows ≡ some r
      → (s : Row) × (lookup id db'.rows ≡ some s) × IsLater api r.operation s.operation
  Moves-IsLater id r moves h =
      Moves-follow api KeepsToken (IsLater api) id r IsLater-IsFollowed moves h

  pub update_outdated :
      (id_before : String → String → Bool) (id : String) (t now : ℕ) (change : Change)
      (db : Database) (r : Row)
      → lookup id db.rows ≡ some r
      → t < r.operation.lease_token
      → (update api id_before id (some t) now change db ≡ Result.err StoreError.terminal)
        ⊎ (update api id_before id (some t) now change db ≡ Result.err StoreError.lease_lost)
  unfolding update update_also
  update_outdated id_before id t now change db r h past =
      elim (guarded_outdated api t r.operation past) [
        | inl e ↦ inl (rw (update, update_also, h, e) refl)
        | inr e ↦ inr (rw (update, update_also, h, e) refl)
      ]

  pub renew_outdated :
      (id : String) (t expires_at : ℕ) (db : Database) (r : Row)
      → lookup id db.rows ≡ some r
      → t < r.operation.lease_token
      → renew_lease id t expires_at db ≡ Result.err StoreError.lease_lost
  unfolding renew_lease
  renew_outdated id t expires_at db r h past =
      let other : (r.operation.lease_token == t) ≡ false = ground arith in
      rw (renew_lease, h, other) refl
