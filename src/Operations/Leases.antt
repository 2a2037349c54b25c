-- ===== src/Operations/Leases.antt =====
-- The fence that the lease tokens of internal/operationstore put up: what a worker whose lease has
-- passed on can still write, and what remains of an operation that ended.
use mathlib.Core.Path.{subst}
use mathlib.Core.Logic.{◌⊎◌}
use llm_bridge_server.Prelude.{
  ℕ, suc, ◌<◌, ◌≤◌, ◌≡◌, refl, ◌∙◌, sym, ap, String, Bool, true, false, ◌==◌, ◌||◌, List, Option,
  some, lookup, Result, bind-ok, ok_injective, inl, inr, arith, Option-cases, Bool-cases,
  lookup-insert_self, pass-ok, ◌&&◌,
}
use llm_bridge_server.Operations.Types.{
  OperationState, ◌=os◌, OperationApi, Receipt, Operation, EventKind, Row, Event, Database,
  StoreError,
}
use llm_bridge_server.Operations.Store.{
  Change, guarded, released, completed, stamped, claimed, update, update_also, claim, renew_lease,
  oldest_queued, set_row, write_receipt_change,
}
use llm_bridge_server.Operations.Moves.{claims, Moves, IsSound, Moves-trans, Moves-IsSound}
use llm_bridge_server.Operations.Writes.{Lands, write_receipt_change-Lands, set_row_inserts}
use llm_bridge_server.Operations.Updates.{
  Allows, Keeps, update_also-Updates, released_keeps, write_receipt_change_written,
}
use llm_bridge_server.Operations.Calls.{update_also-Lands, oldest_queued_found}
use llm_bridge_server.Operations.Run.{Call, run_calls, run_calls-Moves, AllAllowed}
use llm_bridge_server.Operations.Fence.{
  KeepsToken, outcome, Moves-IsLater, update_outdated, renew_outdated, completed_token,
}

-- Neither an update nor a renewal under this token takes effect.
abbrev pub IsFenced : OperationApi → (String → String → Bool) → String → ℕ → Database → Type 0
IsFenced api id_before id t db =
    ((now : ℕ) (change : Change)
      → (update api id_before id (some t) now change db ≡ Result.err StoreError.terminal)
        ⊎ (update api id_before id (some t) now change db ≡ Result.err StoreError.lease_lost))
    × ((expires_at : ℕ) → renew_lease id t expires_at db ≡ Result.err StoreError.lease_lost)

module _ (api : OperationApi) (opens : api.is_terminal OperationState.queued ≡ false)
    (id_before : String → String → Bool) where
  -- The moves from a row whose token has passed t.
  Moves-IsFenced :
      (id : String) (r : Row) (t : ℕ) (db db' : Database)
      → Moves api KeepsToken db db'
      → lookup id db.rows ≡ some r
      → t < r.operation.lease_token
      → IsFenced api id_before id t db'
  Moves-IsFenced id r t db db' moves h past =
      let (s, found, later) = Moves-IsLater api opens id r moves h in
      let grown : t < s.operation.lease_token = ground (arith, past, later.token) in
      (
        λ now change. update_outdated api opens id_before id t now change db' s found grown,
        λ expires_at. renew_outdated api opens id t expires_at db' s found grown,
      )

  pub guarded_token :
      (t : ℕ) (o p : Operation) → guarded api (some t) o ≡ Result.ok p → o.lease_token ≡ t
  unfolding guarded
  guarded_token t o p h = elim (Bool-cases (o.lease_token == t)) [
    | inl b ↦ ground arith
    | inr b ↦ elim (Bool-cases (api.is_terminal o.receipt.state)) [
      | inl e ↦ absurd (cc (rw (e, guarded) at h))
      | inr e ↦ absurd (cc (rw (e, b, guarded) at h))
    ]
  ]

  released_past :
      (o : Operation)
      → (api.is_terminal o.receipt.state || o.receipt.state =os OperationState.queued) ≡ true
      → (released api o).lease_token ≡ suc o.lease_token
  unfolding released
  released_past o h = rw (released, h) refl

  completed_state :
      (now : ℕ) (o : Operation) → (completed api now o).receipt.state ≡ o.receipt.state
  unfolding completed
  completed_state now o = elim (Option-cases o.receipt.completed_at) [
    | inr (t, e) ↦ rw (e, completed) refl
    | inl e ↦ elim (Bool-cases (api.is_terminal o.receipt.state)) [
      | inl b ↦ rw (e, b, completed) refl
      | inr b ↦ rw (e, b, completed) refl
    ]
  ]

  module _ (calls : List Call) (allowed : AllAllowed api id_before KeepsToken calls) where
    -- Let the row of an operation hold a lease token above t. After any further calls whose changes
    -- leave tokens, identities and revisions to the store, neither an update nor a renewal under t
    -- takes effect: the update answers that the operation has ended or that the lease is lost, and the
    -- renewal that the lease is lost.
    pub outdated-IsFenced :
        (id : String) (r : Row) (t : ℕ) (db : Database)
        → IsSound db
        → lookup id db.rows ≡ some r
        → t < r.operation.lease_token
        → IsFenced api id_before id t (run_calls api id_before calls db)
    outdated-IsFenced id r t db sound h past =
        Moves-IsFenced id r t db (run_calls api id_before calls db)
          (run_calls-Moves api id_before KeepsToken calls db sound allowed) h past

    Lands-IsFenced :
        (id : String) (t : ℕ) (o : Operation) (db d : Database)
        → IsSound db
        → Lands api KeepsToken id o db d
        → t < o.lease_token
        → IsFenced api id_before id t (run_calls api id_before calls d)
    Lands-IsFenced id t o db d sound lands past =
        let after_sound =
          Moves-IsSound api KeepsToken (Moves-trans api KeepsToken lands.first lands.rest) sound in
        let moves =
          Moves-trans api KeepsToken lands.rest
            (run_calls-Moves api id_before KeepsToken calls d after_sound allowed) in
        Moves-IsFenced id lands.row t lands.middle (run_calls api id_before calls d) moves
          lands.landed (ground (arith, past, ap (λ (p : Operation). p.lease_token) lands.written))

    -- Let an update under lease token t succeed and end or queue the operation. After any further
    -- calls, with changes that leave tokens, identities and revisions to the store, nothing more is
    -- written under t.
    pub update-IsFenced :
        (id : String) (t now : ℕ) (change : Change) (db : Database)
        (done : Database × Receipt × List Event)
        → IsSound db
        → Allows KeepsToken change
        → Keeps change
        → update api id_before id (some t) now change db ≡ Result.ok done
        → (api.is_terminal done.1.state || done.1.state =os OperationState.queued) ≡ true
        → IsFenced api id_before id t (run_calls api id_before calls done.0)
    unfolding update
    update-IsFenced id t now change db done sound keeps_token keeps h ended =
        let pass : Operation → Database → Result StoreError Database = λ o d. Result.ok d in
        let u = update_also-Updates api id_before id (some t) now change pass db done h in
        let lands =
          update_also-Lands api KeepsToken id_before id (some t) now change pass db done sound keeps
            (λ o d k. (
              ap (λ (p : Database). p.rows) (sym (ok_injective k)),
              ap (λ (p : Database). p.events) (sym (ok_injective k)),
            ))
            u (keeps_token u.row.operation u.changed u.kind u.change_lem) in
        let held = guarded_token t u.row.operation u.row.operation u.guards in
        let kept = keeps_token u.row.operation u.changed u.kind u.change_lem in
        let o = completed api now (released api u.changed) in
        let wrote =
          write_receipt_change_written id_before o u.kind now u.also (done.0, done.2, u.written)
            u.writes in
        let answered : done.1.state ≡ u.changed.receipt.state =
          ap (λ (p : Receipt). p.state) u.receipt
          ∙ ap (λ (p : Operation). p.receipt.state) wrote
          ∙ completed_state now (released api u.changed)
          ∙ ap (λ (p : Receipt). p.state) (released_keeps api u.changed) in
        let past =
          released_past u.changed
            (ap (λ s. api.is_terminal s || s =os OperationState.queued) (sym answered) ∙ ended) in
        let grown : t < o.lease_token =
          ground (arith, past, held, kept, completed_token api now (released api u.changed)) in
        Lands-IsFenced id t (stamped now o) db done.0 sound lands grown

    -- Let Claim hand out an operation whose row held some lease token before. After any further calls,
    -- with changes that leave tokens, identities and revisions to the store, nothing is written to it
    -- under that token or a lower one: no earlier worker reaches it.
    pub claim-IsFenced :
        (owner : String) (duration now t : ℕ) (db db' : Database) (o : Operation) (es : List Event)
        (r : Row)
        → IsSound db
        → claim id_before owner duration now db ≡ Result.ok (db', some o, es)
        → lookup o.receipt.identity.id db.rows ≡ some r
        → t ≤ r.operation.lease_token
        → IsFenced api id_before o.receipt.identity.id t (run_calls api id_before calls db')
    unfolding claim
    claim-IsFenced owner duration now t db db' o es r sound h held past =
        elim (Option-cases (oldest_queued id_before db.rows)) [
          | inl e ↦ absurd (cc (rw (e, claim) at h))
          | inr (row, e) ↦
              let taken = claimed owner duration now row.operation in
              let (done, w, h₁) =
                bind-ok (write_receipt_change id_before taken EventKind.started now db) _
                  (rw (e, claim) at h) in
              let same : done.0 ≡ db' = cc h₁ in
              let (id, was, is_queued) = oldest_queued_found id_before db.rows row sound.keyed e in
              let named = sound.all_named id row was in
              let (lands, written) =
                write_receipt_change-Lands api KeepsToken id_before id row taken EventKind.started
                  now db done.0 done.1 done.2 sound was refl refl
                  (claims owner duration now (sym named.state ∙ is_queued) refl) w in
              let handed : o ≡ stamped now taken = cc (h₁, written) in
              let key : o.receipt.identity.id ≡ id =
                ap (λ (p : Operation). p.receipt.identity.id) handed ∙ named.named in
              let before : r ≡ row = cc (held, was, key) in
              let token : t < (stamped now taken).lease_token =
                ground (arith, past, ap (λ (p : Row). p.operation.lease_token) before) in
              subst (λ k. IsFenced api id_before k t (run_calls api id_before calls db')) (sym key)
                (subst (λ d. IsFenced api id_before id t (run_calls api id_before calls d)) same
                  (Lands-IsFenced id t (stamped now taken) db done.0 sound lands token))
        ]

    -- An operation that has ended stays as it ended. After any further calls, with changes that leave
    -- tokens, identities and revisions to the store, it has the same state, error, result, time of
    -- completion, effects, usage and attempt, and every further update answers that it has ended.
    pub ended_stays :
        (id : String) (r : Row) (db : Database)
        → IsSound db
        → lookup id db.rows ≡ some r
        → api.is_terminal r.operation.receipt.state ≡ true
        → ((s : Row) × (lookup id (run_calls api id_before calls db).rows ≡ some s)
            × (outcome s.operation.receipt ≡ outcome r.operation.receipt))
          × ((token : Option ℕ) (now : ℕ) (change : Change)
              → update api id_before id token now change (run_calls api id_before calls db)
                ≡ Result.err StoreError.terminal)
    unfolding update update_also guarded
    ended_stays id r db sound h ended =
        let (s, found, later) =
          Moves-IsLater api opens id r
            (run_calls-Moves api id_before KeepsToken calls db sound allowed) h in
        let (same, held) = later.final ended in
        let still : api.is_terminal s.operation.receipt.state ≡ true =
          ap (λ o. api.is_terminal o.0) same ∙ ended in
        ((s, found, same), λ token now change. rw (update, update_also, found, guarded, still) refl)

-- A renewal does not move the token: when a renewal under token t succeeds, t passes the guards of a
-- following update still, where running is no terminal state.
pub renewed_passes :
    (api : OperationApi) (id : String) (t expires_at : ℕ) (db d : Database)
    → api.is_terminal OperationState.running ≡ false
    → IsSound db
    → renew_lease id t expires_at db ≡ Result.ok d
    → (s : Row) × (lookup id d.rows ≡ some s)
      × (s.operation.lease_expires_at ≡ expires_at)
      × (guarded api (some t) s.operation ≡ Result.ok s.operation)
unfolding renew_lease guarded
renewed_passes api id t expires_at db d runs sound h = elim (Option-cases (lookup id db.rows)) [
  | inl e ↦ absurd (cc (rw (e, renew_lease) at h))
  | inr (row, e) ↦
      let renewal : Row → Row =
        λ s. record s { operation = record (s.operation) { lease_expires_at = expires_at } } in
      let after : Database = record db { rows = set_row id renewal db.rows } in
      let (held, same) =
        pass-ok (row.operation.lease_token == t && row.state =os OperationState.running)
          StoreError.lease_lost after (rw (e, renew_lease) at h) in
      let running : row.state ≡ OperationState.running = ground (arith, held) in
      let token : (row.operation.lease_token == t) ≡ true = ground (arith, held) in
      let still : api.is_terminal row.operation.receipt.state ≡ false =
        ap api.is_terminal (sym (sound.all_named id row e).state ∙ running) ∙ runs in
      (
        renewal row,
        ap (λ (p : Database). lookup id p.rows) (sym same)
            ∙ ap (lookup id) (set_row_inserts id renewal row db.rows e)
            ∙ lookup-insert_self id (renewal row) db.rows,
        refl,
        rw (guarded, still, token) refl,
      )
]
