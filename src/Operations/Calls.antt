-- ===== src/Operations/Calls.antt =====
-- Each call of internal/operationstore/store.go that succeeds is a sequence of moves.
use mathlib.Core.Path.{subst}
use llm_bridge_server.Prelude.{
  ℕ, ◌≡◌, refl, ◌∙◌, sym, ap, String, Bool, false, ◌&&◌, bind-ok, ok_injective, pass-ok, ◌==◌, List,
  [], ◌∷◌, ◌++◌, Option, none, some, lookup, insert, ◌=s◌, Result, Option-cases, Bool-cases, inl,
  inr, arith, string_discrete,
}
use llm_bridge_server.Operations.Types.{
  OperationState, ◌=os◌, EventKind, OperationApi, Receipt, Intent, Operation, Row, Event, Database,
  StoreError,
}
use llm_bridge_server.Operations.Store.{
  insert_event, event_of, set_row, tell_parent, stamped, write_receipt_change, new_row, claimed,
  Change, released, completed, update_also, claim, oldest_queued, earlier, create, create_new,
  Created, find_key, key_of, correlated, new_receipt, root_for, insert_row, renew_lease,
}
use llm_bridge_server.Operations.Moves.{
  Turn, claims, updates, Inserts, Moves, here, inserts, renews, beside, IsSound, IsKeyed,
  Moves-trans, Moves-IsSound,
}
use llm_bridge_server.Operations.Writes.{
  insert_event_writes, set_row_inserts, tell_parent-Moves, write_receipt_change-Lands, Lands,
}
use llm_bridge_server.Operations.Updates.{
  Allows, Keeps, released_keeps, completed_keeps, Updates, update_also-Updates,
}

-- A row found behind another stands under the same id before it.
found_behind :
    (k : String) (r : Row) (rows : List (String × Row)) (s : Row) (q : OperationState)
    → lookup k rows ≡ none
    → (id : String) × (lookup id rows ≡ some s) × (s.state ≡ q)
    → (id : String) × (lookup id ((k, r) ∷ rows) ≡ some s) × (s.state ≡ q)
unfolding lookup
found_behind k r rows s q h (id, found, is) = elim (string_discrete k id) [
  | yes p ↦ absurd (cc (h, found, p))
  | no n ↦ (id, ground arith, is)
]

-- The row that Claim takes stands in the table, and is queued.
pub oldest_queued_found :
    (id_before : String → String → Bool) (rows : List (String × Row)) (s : Row)
    → IsKeyed rows
    → oldest_queued id_before rows ≡ some s
    → (id : String) × (lookup id rows ≡ some s) × (s.state ≡ OperationState.queued)
unfolding oldest_queued lookup
oldest_queued_found id_before [] s h e = absurd (cc e)
oldest_queued_found id_before ((k, r) ∷ rows) s h e =
    let rest = oldest_queued id_before rows in
    elim (Bool-cases (r.state =os OperationState.queued)) [
      | inr b ↦
          found_behind k r rows s OperationState.queued h.0
            (oldest_queued_found id_before rows s h.1 (rw (b, oldest_queued) at e))
      | inl b ↦
          let queued : r.state ≡ OperationState.queued = ground arith in
          elim (Option-cases rest) [
            | inl n ↦
                let same : r ≡ s = cc (rw (b, n, oldest_queued) at e) in
                (k, ground arith, ap (λ (p : Row). p.state) (sym same) ∙ queued)
            | inr (t, n) ↦ elim (Bool-cases (earlier id_before t r)) [
              | inl y ↦
                  let same : t ≡ s = cc (rw (b, n, y, oldest_queued) at e) in
                  found_behind k r rows s OperationState.queued h.0
                    (oldest_queued_found id_before rows s h.1 (n ∙ ap (λ p. some p) same))
              | inr y ↦
                  let same : r ≡ s = cc (rw (b, n, y, oldest_queued) at e) in
                  (k, ground arith, ap (λ (p : Row). p.state) (sym same) ∙ queued)
            ]
          ]
    ]

-- A new row and its event, and the moves after it.
pub record Starts (api : OperationApi) (Allowed : Operation → Operation → Type 0) (id : String)
    (intent : Intent) (fingerprint : String) (now : ℕ) (db : Database) (done : Created)
    : Type 0 where
  pub middle : Database
  pub root : String
  pub absent : lookup id db.rows ≡ none
  pub rows : middle.rows ≡ insert id (new_row id intent fingerprint root now) db.rows
  pub events :
      middle.events
      ≡ db.events ++ event_of (new_receipt id intent now) EventKind.accepted "" now ∷ []
  pub rest : Moves api Allowed middle done.database
  pub receipt : done.receipt ≡ new_receipt id intent now

module _ (api : OperationApi) (Allowed : Operation → Operation → Type 0)
    (id_before : String → String → Bool) where
  pub update_also-Lands :
      (id : String) (token : Option ℕ) (now : ℕ) (change : Change)
      (also_write : Operation → Database → Result StoreError Database) (db : Database)
      (done : Database × Receipt × List Event)
      → IsSound db
      → Keeps change
      → ((o : Operation) (d : Database)
          → also_write o db ≡ Result.ok d
          → (d.rows ≡ db.rows) × (d.events ≡ db.events))
      → (u : Updates api id_before id token now change also_write db done)
      → Allowed u.row.operation u.changed
      → Lands api Allowed id (stamped now (completed api now (released api u.changed))) db done.0
  update_also-Lands id token now change also_write db done sound keeps beside_lem u allowed =
      let o = completed api now (released api u.changed) in
      let (r, e) = beside_lem o u.also u.also_lem in
      let moved : Moves api Allowed db u.also = beside here r e in
      let kept = keeps u.row.operation u.changed u.kind u.change_lem in
      let complete = completed_keeps api now (released api u.changed) in
      let release = released_keeps api u.changed in
      let turn : Turn api Allowed u.row.operation (stamped now o) =
        updates token change u.changed u.kind now u.guards allowed u.change_lem u.is_known refl in
      let finish =
        write_receipt_change-Lands api Allowed id_before id u.row o u.kind now u.also done.0 done.2
          u.written (Moves-IsSound api Allowed moved sound) (ap (lookup id) r ∙ u.was)
          (complete.0 ∙ ap (λ (p : Receipt). p.identity) release ∙ kept.0)
          (complete.1 ∙ ap (λ (p : Receipt). p.revision) release ∙ kept.1) turn u.writes in
      let lands = finish.0 in
      record {
        middle = lands.middle;
        first = Moves-trans api Allowed moved lands.first;
        row = lands.row;
        landed = lands.landed;
        written = lands.written;
        rest = lands.rest;
      }

  pub update_also-Moves :
      (id : String) (token : Option ℕ) (now : ℕ) (change : Change)
      (also_write : Operation → Database → Result StoreError Database) (db : Database)
      (done : Database × Receipt × List Event)
      → IsSound db
      → Allows Allowed change
      → Keeps change
      → ((o : Operation) (d : Database)
          → also_write o db ≡ Result.ok d
          → (d.rows ≡ db.rows) × (d.events ≡ db.events))
      → update_also api id_before id token now change also_write db ≡ Result.ok done
      → Moves api Allowed db done.0
  update_also-Moves id token now change also_write db done sound allows keeps beside_lem h =
      let u = update_also-Updates api id_before id token now change also_write db done h in
      let lands =
        update_also-Lands id token now change also_write db done sound keeps beside_lem u
          (allows u.row.operation u.changed u.kind u.change_lem) in
      Moves-trans api Allowed lands.first lands.rest

  pub claim-Moves :
      (owner : String) (duration now : ℕ) (db : Database)
      (done : Database × Option Operation × List Event)
      → IsSound db
      → claim id_before owner duration now db ≡ Result.ok done
      → Moves api Allowed db done.0
  unfolding claim
  claim-Moves owner duration now db done sound h =
      elim (Option-cases (oldest_queued id_before db.rows)) [
        | inl e ↦
            let same : db ≡ done.0 = cc (rw (e, claim) at h) in
            subst (Moves api Allowed db) same here
        | inr (row, e) ↦
            let o = claimed owner duration now row.operation in
            let (written, w, h₁) =
              bind-ok (write_receipt_change id_before o EventKind.started now db) _
                (rw (e, claim) at h) in
            let same : written.0 ≡ done.0 = cc (h₁) in
            let (id, was, is_queued) = oldest_queued_found id_before db.rows row sound.keyed e in
            let queued : row.operation.receipt.state ≡ OperationState.queued =
              sym (sound.all_named id row was).state ∙ is_queued in
            let finish =
              write_receipt_change-Lands api Allowed id_before id row o EventKind.started now db
                written.0 written.1 written.2 sound was refl refl
                (claims owner duration now queued refl) w in
            subst (Moves api Allowed db) same (Moves-trans api Allowed finish.0.first finish.0.rest)
      ]

  insert_row_lem :
      (id : String) (r : Row) (db d : Database)
      → insert_row id r db ≡ Result.ok d
      → (lookup id db.rows ≡ none) × (d.rows ≡ insert id r db.rows) × (d.events ≡ db.events)
  unfolding insert_row
  insert_row_lem id r db d h = elim (Option-cases (lookup id db.rows)) [
    | inr (old, e) ↦ absurd (cc (rw (e, insert_row) at h))
    | inl e ↦
        let after : Database = record db { rows = insert id r db.rows } in
        let same : d ≡ after = cc (rw (e, insert_row) at h) in
        (e, ap (λ (p : Database). p.rows) same, ap (λ (p : Database). p.events) same)
  ]

  pub create_new-Starts :
      (id : String) (intent : Intent) (fingerprint : String) (now : ℕ) (db : Database)
      (done : Created)
      → create_new id_before id intent fingerprint now db ≡ Result.ok done
      → Starts api Allowed id (correlated id intent) fingerprint now db done
  unfolding create_new
  create_new-Starts id intent fingerprint now db done h =
      let i = correlated id intent in
      let receipt = new_receipt id i now in
      let (root, p, h₁) = bind-ok (root_for id i.parent_operation_id db.rows) _ h in
      let (inserted, q, h₂) = bind-ok (insert_row id (new_row id i fingerprint root now) db) _ h₁ in
      let (saved, s, h₃) = bind-ok (insert_event receipt EventKind.accepted "" now inserted) _ h₂ in
      let (told, t, h₄) = bind-ok (tell_parent id_before receipt now (saved.1 ∷ []) saved.0) _ h₃ in
      let (absent, rows, events) =
        insert_row_lem id (new_row id i fingerprint root now) db inserted q in
      let (rows', events') =
        insert_event_writes receipt EventKind.accepted "" now inserted saved.0 saved.1 s in
      record {
        middle = saved.0;
        root = root;
        absent = absent;
        rows = rows' ∙ rows;
        events = events' ∙ ap (λ l. l ++ event_of receipt EventKind.accepted "" now ∷ []) events;
        rest =
            subst (Moves api Allowed saved.0) (ap (λ (c : Created). c.database) (ok_injective h₄)) (
              tell_parent-Moves api Allowed id_before receipt now (saved.1 ∷ []) saved.0 told.0
                told.1 t);
        receipt = ap (λ (c : Created). c.receipt) (sym (ok_injective h₄));
      }

  create_new-Moves :
      (id : String) (intent : Intent) (fingerprint : String) (now : ℕ) (db : Database)
      (done : Created)
      → create_new id_before id intent fingerprint now db ≡ Result.ok done
      → Moves api Allowed db done.database
  create_new-Moves id intent fingerprint now db done h =
      let s = create_new-Starts id intent fingerprint now db done h in
      let first : Inserts db s.middle = record {
        id = id;
        intent = correlated id intent;
        fingerprint = fingerprint;
        root = s.root;
        now = now;
        absent = s.absent;
        rows = s.rows;
        events = s.events;
      } in
      Moves-trans api Allowed (inserts here first) s.rest

  pub renew_lease-Moves :
      (id : String) (token expires_at : ℕ) (db d : Database)
      → renew_lease id token expires_at db ≡ Result.ok d
      → Moves api Allowed db d
  unfolding renew_lease
  renew_lease-Moves id token expires_at db d h = elim (Option-cases (lookup id db.rows)) [
    | inl e ↦ absurd (cc (rw (e, renew_lease) at h))
    | inr (row, e) ↦
        let renewal : Row → Row =
          λ s. record s { operation = record (s.operation) { lease_expires_at = expires_at } } in
        let after : Database = record db { rows = set_row id renewal db.rows } in
        let (held, same) =
          pass-ok (row.operation.lease_token == token && row.state =os OperationState.running)
            StoreError.lease_lost after (rw (e, renew_lease) at h) in
        renews here (record {
          id = id;
          old = row;
          expires_at = expires_at;
          was = e;
          rows =
              ap (λ (p : Database). p.rows) (sym same) ∙ set_row_inserts id renewal row db.rows e;
          events = ap (λ (p : Database). p.events) (sym same);
        })
  ]

  pub create-Moves :
      (id : String) (intent : Intent) (fingerprint : String) (now : ℕ) (db : Database)
      (done : Created)
      → create id_before id intent fingerprint now db ≡ Result.ok done
      → Moves api Allowed db done.database
  unfolding create
  create-Moves id intent fingerprint now db done h =
      elim (Option-cases (find_key (key_of intent) db.rows)) [
        | inr (row, e) ↦
            let answer : Created = record {
              database = db;
              receipt = row.operation.receipt;
              created = false;
              events = [];
            } in
            let (same, out) =
              pass-ok (row.intent_fingerprint =s fingerprint) StoreError.idempotency_key_reused
                answer (rw (e, create) at h) in
            subst (Moves api Allowed db) (ap (λ (p : Created). p.database) out) here
        | inl e ↦ create_new-Moves id intent fingerprint now db done (rw (e, create) at h)
      ]
