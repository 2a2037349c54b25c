-- ===== src/Operations/Idempotent.antt =====
-- Create of internal/operationstore/store.go under one idempotency key, again.
use llm_bridge_server.Prelude.{
  ℕ, ◌≡◌, ◌≢◌, refl, ◌∙◌, sym, ap, String, Bool, true, false, List, [], some, Result, pass-ok, inl,
  inr, arith, Option-cases, Bool-cases, ◌=s◌, =s_refl, is_empty,
}
use llm_bridge_server.Operations.Types.{Operation}
use llm_bridge_server.Operations.Types.{
  OperationApi, Identity, Intent, Receipt, OperationKey, same_key, Row, Database, StoreError,
}
use llm_bridge_server.Operations.Store.{create, Created, find_key, key_of, correlated, new_row}
use llm_bridge_server.Operations.Moves.{
  Saves, Moves, here, saves, inserts, renews, beside, IsSound, Moves-IsSound,
}
use llm_bridge_server.Operations.Calls.{create-Moves, create_new-Starts}
use llm_bridge_server.Operations.Run.{Call, run_calls, run_calls-Moves, AllAllowed}
use llm_bridge_server.Operations.Keys.{
  Finds, find_key-insert, find_key-append, find_key-new, same_key_refl,
}

Saves-Finds :
    (api : OperationApi) (Allowed : Operation → Operation → Type 0) (key : OperationKey)
    (fingerprint id : String) (d d' : Database) (m : Saves api Allowed d d')
    → Finds key fingerprint id d
    → Finds key fingerprint id d'
Saves-Finds api Allowed key fingerprint id d d' m k =
    let new : Row = record (m.old) { state = m.state; operation = m.operation } in
    elim (find_key-insert key m.id m.old new k.row d.rows m.was refl k.found) [
      | inl e ↦ record {
        row = k.row;
        found = ap (find_key key) m.rows ∙ e;
        same_fingerprint = k.same_fingerprint;
        named = k.named;
      }
      | inr (e, same) ↦ record {
        row = new;
        found = ap (find_key key) m.rows ∙ e;
        same_fingerprint = ap (λ (r : Row). r.intent_fingerprint) (sym same) ∙ k.same_fingerprint;
        named =
            ap (λ (i : Identity). i.id) m.kept
            ∙ ap (λ (r : Row). r.operation.receipt.identity.id) (sym same)
            ∙ k.named;
      }
    ]

-- A key that finds an operation goes on finding it.
Moves-Finds :
    (api : OperationApi) (Allowed : Operation → Operation → Type 0) (key : OperationKey)
    (fingerprint id : String) {db db' : Database}
    → Moves api Allowed db db'
    → Finds key fingerprint id db
    → Finds key fingerprint id db'
Moves-Finds api Allowed key fingerprint id here h = h
Moves-Finds api Allowed key fingerprint id (saves {d} {d'} t m) h =
    Saves-Finds api Allowed key fingerprint id d d' m
      (Moves-Finds api Allowed key fingerprint id t h)
Moves-Finds api Allowed key fingerprint id (inserts {d} {d'} t m) h =
    let k = Moves-Finds api Allowed key fingerprint id t h in
    let new = new_row m.id m.intent m.fingerprint m.root m.now in
    record {
      row = k.row;
      found = ap (find_key key) m.rows ∙ find_key-append key m.id new k.row d.rows m.absent k.found;
      same_fingerprint = k.same_fingerprint;
      named = k.named;
    }
Moves-Finds api Allowed key fingerprint id (renews {d} {d'} t m) h =
    let k = Moves-Finds api Allowed key fingerprint id t h in
    let new : Row = record (m.old) {
      operation = record (m.old.operation) { lease_expires_at = m.expires_at };
    } in
    elim (find_key-insert key m.id m.old new k.row d.rows m.was refl k.found) [
      | inl e ↦ record {
        row = k.row;
        found = ap (find_key key) m.rows ∙ e;
        same_fingerprint = k.same_fingerprint;
        named = k.named;
      }
      | inr (e, same) ↦ record {
        row = new;
        found = ap (find_key key) m.rows ∙ e;
        same_fingerprint = ap (λ (r : Row). r.intent_fingerprint) (sym same) ∙ k.same_fingerprint;
        named = ap (λ (r : Row). r.operation.receipt.identity.id) (sym same) ∙ k.named;
      }
    ]
Moves-Finds api Allowed key fingerprint id (beside {d} {d'} t rows events) h =
    let k = Moves-Finds api Allowed key fingerprint id t h in
    record {
      row = k.row;
      found = ap (find_key key) rows ∙ k.found;
      same_fingerprint = k.same_fingerprint;
      named = k.named;
    }

correlated_key : (id : String) (i : Intent) → key_of (correlated id i) ≡ key_of i
correlated_key id i = elim (Bool-cases (is_empty i.correlation_id)) [
  | inl b ↦ rw b refl
  | inr b ↦ rw b refl
]

module _ (api : OperationApi) (Allowed : Operation → Operation → Type 0)
    (id_before : String → String → Bool) where
  create-Finds :
      (id : String) (i : Intent) (fingerprint : String) (now : ℕ) (db : Database) (done : Created)
      → create id_before id i fingerprint now db ≡ Result.ok done
      → Finds (key_of i) fingerprint done.receipt.identity.id done.database
  unfolding create
  create-Finds id i fingerprint now db done h = elim (Option-cases (find_key (key_of i) db.rows)) [
    | inr (row, e) ↦
        let answer : Created = record {
          database = db;
          receipt = row.operation.receipt;
          created = false;
          events = [];
        } in
        let (same, out) =
          pass-ok (row.intent_fingerprint =s fingerprint) StoreError.idempotency_key_reused answer
            (rw (e, create) at h) in
        record {
          row = row;
          found = ap (λ (c : Created). find_key (key_of i) c.database.rows) (sym out) ∙ e;
          same_fingerprint = ground (arith, same);
          named = ap (λ (c : Created). c.receipt.identity.id) out;
        }
    | inl e ↦
        let s =
          create_new-Starts api Allowed id_before id i fingerprint now db done
            (rw (e, create) at h) in
        let new = new_row id (correlated id i) fingerprint s.root now in
        let matches : same_key new.key (key_of i) ≡ true =
          ap (λ k. same_key k (key_of i)) (correlated_key id i) ∙ same_key_refl (key_of i) in
        Moves-Finds api Allowed (key_of i) fingerprint done.receipt.identity.id s.rest (record {
          row = new;
          found =
              ap (find_key (key_of i)) s.rows
              ∙ find_key-new (key_of i) id new db.rows s.absent e matches;
          same_fingerprint = refl;
          named = ap (λ (r : Receipt). r.identity.id) (sym s.receipt);
        })
  ]

  -- After a successful Create and any further calls, with changes that leave identities and revisions
  -- alone, a Create under the same key stores nothing: with the same fingerprint it answers with the
  -- same operation and no event, and with another one it answers that the key was used again.
  pub create-repeats :
      (id : String) (i : Intent) (fingerprint : String) (now : ℕ) (db : Database) (done : Created)
      (calls : List Call) (later_id : String) (j : Intent) (later : ℕ)
      → IsSound db
      → create id_before id i fingerprint now db ≡ Result.ok done
      → AllAllowed api id_before Allowed calls
      → key_of j ≡ key_of i
      → ((again : Created) × (create id_before later_id j fingerprint later
              (run_calls api id_before calls done.database)
            ≡ Result.ok again)
          × (again.database ≡ run_calls api id_before calls done.database)
          × (again.created ≡ false)
          × (again.receipt.identity.id ≡ done.receipt.identity.id)
          × (again.events ≡ []))
        × ((other : String)
            → other ≢ fingerprint
            → create id_before later_id j other later (run_calls api id_before calls done.database)
              ≡ Result.err StoreError.idempotency_key_reused)
  unfolding create
  create-repeats id i fingerprint now db done calls later_id j later sound h allowed same =
      let after = run_calls api id_before calls done.database in
      let done_sound =
        Moves-IsSound api Allowed
          (create-Moves api Allowed id_before id i fingerprint now db done h) sound in
      let moves = run_calls-Moves api id_before Allowed calls done.database done_sound allowed in
      let k =
        Moves-Finds api Allowed (key_of i) fingerprint done.receipt.identity.id moves
          (create-Finds id i fingerprint now db done h) in
      let found : find_key (key_of j) after.rows ≡ some k.row =
        ap (λ x. find_key x after.rows) same ∙ k.found in
      let agrees : (k.row.intent_fingerprint =s fingerprint) ≡ true =
        rw (k.same_fingerprint) (=s_refl fingerprint) in
      (
        (
          record {
            database = after;
            receipt = k.row.operation.receipt;
            created = false;
            events = [];
          },
          rw (create, found, agrees) refl,
          refl,
          refl,
          k.named,
          refl,
        ),
        λ other differs.
            let disagrees : (k.row.intent_fingerprint =s other) ≡ false =
              ground (arith, differs, k.same_fingerprint) in
            rw (create, found, disagrees) refl,
      )
