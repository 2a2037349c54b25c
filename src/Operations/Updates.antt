-- ===== src/Operations/Updates.antt =====
-- update of internal/operationstore/store.go, taken apart into its steps.
use llm_bridge_server.Prelude.{
  ℕ, ◌≡◌, refl, ◌∙◌, sym, ap, String, Bool, true, ◌||◌, bind-ok, ok_injective, or_else-ok, pass-ok,
  ◌==◌, List, [], ◌∷◌, Option, none, some, lookup, Result, or_else, Option-cases, Bool-cases, inl,
  inr,
}
use llm_bridge_server.Operations.Types.{
  OperationState, ◌=os◌, EventKind, OperationApi, Receipt, Operation, Row, Event, Database,
  StoreError,
}
use llm_bridge_server.Operations.Store.{
  insert_event, set_row, tell_parent, write_operation, stamped, write_receipt_change, Change,
  released, completed, guarded, known, update_also,
}

-- A change moves an operation only as allowed.
abbrev pub Allows : (Operation → Operation → Type 0) → Change → Type 0
Allows Allowed change =
    (o o' : Operation) (kind : EventKind) → change o ≡ Result.ok (o', kind) → Allowed o o'

-- A change leaves what Create fixed and the revision alone.
abbrev pub Keeps : Change → Type 0
Keeps change =
    (o o' : Operation) (kind : EventKind)
    → change o ≡ Result.ok (o', kind)
    → (o'.receipt.identity ≡ o.receipt.identity) × (o'.receipt.revision ≡ o.receipt.revision)

pub guarded_same :
    (api : OperationApi) (token : Option ℕ) (o p : Operation)
    → guarded api token o ≡ Result.ok p
    → (p ≡ o) × (guarded api token o ≡ Result.ok o)
unfolding guarded
guarded_same api none o p h = elim (Bool-cases (api.is_terminal o.receipt.state)) [
  | inl b ↦ absurd (cc (rw (b, guarded) at h))
  | inr b ↦ let same : p ≡ o = cc (rw (b, guarded) at h) in (same, h ∙ ap (λ q. Result.ok q) same)
]
guarded_same api (some t) o p h = elim (Bool-cases (api.is_terminal o.receipt.state)) [
  | inl b ↦ absurd (cc (rw (b, guarded) at h))
  | inr b ↦ elim (Bool-cases (o.lease_token == t)) [
    | inl e ↦
        let same : p ≡ o = cc (rw (b, e, guarded) at h) in (same, h ∙ ap (λ q. Result.ok q) same)
    | inr e ↦ absurd (cc (rw (b, e, guarded) at h))
  ]
]

pub released_keeps : (api : OperationApi) (o : Operation) → (released api o).receipt ≡ o.receipt
unfolding released
released_keeps api o =
    elim (Bool-cases
      (api.is_terminal o.receipt.state || o.receipt.state =os OperationState.queued)) [
        | inl b ↦ rw b refl
        | inr b ↦ rw b refl
      ]

pub completed_keeps :
    (api : OperationApi) (now : ℕ) (o : Operation)
    → ((completed api now o).receipt.identity ≡ o.receipt.identity)
      × ((completed api now o).receipt.revision ≡ o.receipt.revision)
unfolding completed
completed_keeps api now o = elim (Option-cases o.receipt.completed_at) [
  | inr (t, e) ↦ rw (e, completed) (refl, refl)
  | inl e ↦ elim (Bool-cases (api.is_terminal o.receipt.state)) [
    | inl b ↦ rw (e, b, completed) (refl, refl)
    | inr b ↦ rw (e, b, completed) (refl, refl)
  ]
]

-- A successful update_also, taken apart.
pub record Updates (api : OperationApi) (id_before : String → String → Bool) (id : String)
    (token : Option ℕ) (now : ℕ) (change : Change)
    (also_write : Operation → Database → Result StoreError Database) (db : Database)
    (done : Database × Receipt × List Event) : Type 0 where
  pub row : Row
  pub changed : Operation
  pub kind : EventKind
  pub also : Database
  pub was : lookup id db.rows ≡ some row
  pub guards : guarded api token row.operation ≡ Result.ok row.operation
  pub change_lem : change row.operation ≡ Result.ok (changed, kind)
  pub is_known : api.is_known changed.receipt.state ≡ true
  pub also_lem : also_write (completed api now (released api changed)) db ≡ Result.ok also
  pub written : Operation
  pub writes :
      write_receipt_change id_before (completed api now (released api changed)) kind now also
      ≡ Result.ok (done.0, done.2, written)
  pub receipt : done.1 ≡ written.receipt

-- The links of update's chain, put together.
chain-Updates :
    (api : OperationApi) (id_before : String → String → Bool) (id : String) (token : Option ℕ)
    (now : ℕ) (change : Change) (also_write : Operation → Database → Result StoreError Database)
    (db : Database) (done : Database × Receipt × List Event) (row : Row) (held : Operation)
    (changed : Operation × EventKind) (valid : Operation) (also : Database)
    (written : Database × List Event × Operation)
    → or_else (lookup id db.rows) StoreError.not_found ≡ Result.ok row
    → guarded api token row.operation ≡ Result.ok held
    → change held ≡ Result.ok changed
    → known api changed.0 ≡ Result.ok valid
    → also_write (completed api now (released api valid)) db ≡ Result.ok also
    → write_receipt_change id_before (completed api now (released api valid)) changed.1 now also
      ≡ Result.ok written
    → ◌≡◌ {A = Result StoreError (Database × Receipt × List Event)}
        (Result.ok (written.0, written.2.receipt, written.1))
        (Result.ok done)
    → Updates api id_before id token now change also_write db done
chain-Updates api id_before id token now change also_write db done row held changed valid also
      written e g c k a w h =
    let (is_known, same) =
      pass-ok (api.is_known changed.0.receipt.state) StoreError.unknown_state changed.0 k in
    let (same_held, guards) = guarded_same api token row.operation held g in
    let out = ok_injective h in
    record {
      row = row;
      changed = changed.0;
      kind = changed.1;
      also = also;
      written = written.2;
      was = or_else-ok (lookup id db.rows) StoreError.not_found e;
      guards = guards;
      change_lem = ap change (sym same_held) ∙ c;
      is_known = is_known;
      also_lem = ap (λ v. also_write (completed api now (released api v)) db) same ∙ a;
      writes =
          ap
            (λ v.
              write_receipt_change id_before (completed api now (released api v)) changed.1 now
                also)
            same
          ∙ w
          ∙ ap (λ p. Result.ok (p.0, p.2, written.2)) out;
      receipt = sym (ap (λ p. p.1) out);
    }

pub update_also-Updates :
    (api : OperationApi) (id_before : String → String → Bool) (id : String) (token : Option ℕ)
    (now : ℕ) (change : Change) (also_write : Operation → Database → Result StoreError Database)
    (db : Database) (done : Database × Receipt × List Event)
    → update_also api id_before id token now change also_write db ≡ Result.ok done
    → Updates api id_before id token now change also_write db done
unfolding update_also
update_also-Updates api id_before id token now change also_write db done h =
    let (row, e, h₁) = bind-ok (or_else (lookup id db.rows) StoreError.not_found) _ h in
    let (held, g, h₂) = bind-ok (guarded api token row.operation) _ h₁ in
    let (changed, c, h₃) = bind-ok (change held) _ h₂ in
    let (valid, k, h₄) = bind-ok (known api changed.0) _ h₃ in
    let (also, a, h₅) = bind-ok (also_write (completed api now (released api valid)) db) _ h₄ in
    let (written, w, h₆) =
      bind-ok
        (write_receipt_change id_before (completed api now (released api valid)) changed.1 now also)
        _ h₅ in
    chain-Updates api id_before id token now change also_write db done row held changed valid also
      written e g c k a w h₆

pub write_receipt_change_written :
    (id_before : String → String → Bool) (o : Operation) (kind : EventKind) (now : ℕ)
    (db : Database) (done : Database × List Event × Operation)
    → write_receipt_change id_before o kind now db ≡ Result.ok done
    → done.2 ≡ stamped now o
unfolding write_receipt_change
write_receipt_change_written id_before o kind now db done h =
    let s = stamped now o in
    let (saved, e, h₁) =
      bind-ok
        (insert_event s.receipt kind "" now
          (record db { rows = set_row o.receipt.identity.id (write_operation s) db.rows }))
        _ h in
    let (told, f, h₂) = bind-ok (tell_parent id_before s.receipt now (saved.1 ∷ []) saved.0) _ h₁ in
    sym (ap (λ p. p.2) (ok_injective h₂))
