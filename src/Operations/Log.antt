-- ===== src/Operations/Log.antt =====
-- The events of internal/operationstore/store.go against the receipts: sequences and revisions.
use llm_bridge_server.Prelude.{
  ℕ, zero, suc, ◌≡◌, ◌≢◌, refl, ◌∙◌, sym, ap, String, Bool, List, [], ◌∷◌, ◌++◌, Option, none, some,
  lookup, insert, insert-cases, insert-none, ◌=s◌, if◌then◌else◌, inl, inr, arith,
}
use llm_bridge_server.Operations.Types.{Operation}
use llm_bridge_server.Operations.Types.{
  OperationApi, Receipt, EventKind, Identity, Row, Event, Database,
}
use llm_bridge_server.Operations.Store.{event_of, new_row}
use llm_bridge_server.Operations.Moves.{
  Moves, here, saves, inserts, renews, beside, IsSound, Moves-IsSound,
}
use llm_bridge_server.Operations.Run.{
  Call, run_calls, run_calls_from_empty, empty-IsSound, empty_database, AllAllowed,
}

-- The sequences of an operation's events, in the order of their writes.
unfoldable pub sequences : String → List Event → List ℕ
sequences id [] = []
sequences id (e ∷ es) =
    let rest = sequences id es in if e.operation_id =s id then e.sequence ∷ rest else rest

-- The receipt that an operation's last event carries.
unfoldable pub latest : String → List Event → Option Receipt
latest id [] = none
latest id (e ∷ es) = elim (latest id es) [
  | some r ↦ some r
  | none ↦ if e.operation_id =s id then some e.receipt else none
]

-- 1, …, n
unfoldable pub counted : ℕ → List ℕ
counted zero = []
counted (suc n) = counted n ++ suc n ∷ []

sequences-append :
    (id : String) (es : List Event) (e : Event)
    → sequences id (es ++ e ∷ [])
      ≡ (if e.operation_id =s id then sequences id es ++ e.sequence ∷ [] else sequences id es)
unfolding sequences
sequences-append id [] e = refl
sequences-append id (f ∷ es) e = ground (arith, sequences-append id es e)

latest-append :
    (id : String) (es : List Event) (e : Event)
    → latest id (es ++ e ∷ []) ≡ (if e.operation_id =s id then some e.receipt else latest id es)
unfolding latest
latest-append id [] e = refl
latest-append id (f ∷ es) e = ground (arith, latest-append id es e)

module _ (id : String) (es : List Event) (e : Event) where
  sequences_own :
      e.operation_id ≡ id → sequences id (es ++ e ∷ []) ≡ sequences id es ++ e.sequence ∷ []
  sequences_own h = ground (arith, sequences-append id es e)

  sequences_other : e.operation_id ≢ id → sequences id (es ++ e ∷ []) ≡ sequences id es
  sequences_other h = ground (arith, sequences-append id es e)

  latest_own : e.operation_id ≡ id → latest id (es ++ e ∷ []) ≡ some e.receipt
  latest_own h = ground (arith, latest-append id es e)

  latest_other : e.operation_id ≢ id → latest id (es ++ e ∷ []) ≡ latest id es
  latest_other h = ground (arith, latest-append id es e)

-- An operation's events number its revisions from 1 on, and the last carries its receipt; an id with
-- no row has no events.
pub record IsLogged (db : Database) : Type 0 where
  pub numbered :
      (id : String) (r : Row)
      → lookup id db.rows ≡ some r
      → sequences id db.events ≡ counted r.operation.receipt.revision
  pub current :
      (id : String) (r : Row)
      → lookup id db.rows ≡ some r
      → latest id db.events ≡ some r.operation.receipt
  pub silent : (id : String) → lookup id db.rows ≡ none → sequences id db.events ≡ []

-- A receipt written with its event, over a row with the revision before or over none.
write-IsLogged :
    (id : String) (new : Row) (db db' : Database) (kind : EventKind) (child : String) (now n : ℕ)
    → IsLogged db
    → new.operation.receipt.identity.id ≡ id
    → new.operation.receipt.revision ≡ suc n
    → sequences id db.events ≡ counted n
    → db'.rows ≡ insert id new db.rows
    → db'.events ≡ db.events ++ event_of new.operation.receipt kind child now ∷ []
    → IsLogged db'
unfolding counted
write-IsLogged id new db db' kind child now n h named next before rows events =
    let e = event_of new.operation.receipt kind child now in
    record {
      numbered = λ j r found.
          elim (insert-cases id j new r db.rows (ap (lookup j) (sym rows) ∙ found)) [
            | inl (p, q) ↦
                ap (sequences j) events
                ∙ sequences_own j db.events e (named ∙ p)
                ∙ ap (λ l. l ++ new.operation.receipt.revision ∷ [])
                    (ap (λ k. sequences k db.events) (sym p) ∙ before)
                ∙ ap (λ k. counted n ++ k ∷ []) next
                ∙ ap counted (sym next)
                ∙ ap (λ (s : Row). counted s.operation.receipt.revision) q
            | inr (p, q) ↦
                ap (sequences j) events
                ∙ sequences_other j db.events e (λ x. p (sym named ∙ x))
                ∙ h.numbered j r q
          ];
      current = λ j r found.
          elim (insert-cases id j new r db.rows (ap (lookup j) (sym rows) ∙ found)) [
            | inl (p, q) ↦
                ap (latest j) events
                ∙ latest_own j db.events e (named ∙ p)
                ∙ ap (λ (s : Row). some s.operation.receipt) q
            | inr (p, q) ↦
                ap (latest j) events
                ∙ latest_other j db.events e (λ x. p (sym named ∙ x))
                ∙ h.current j r q
          ];
      silent = λ j gone.
          let (p, q) = insert-none id j new db.rows (ap (lookup j) (sym rows) ∙ gone) in
          ap (sequences j) events
          ∙ sequences_other j db.events e (λ x. p (sym named ∙ x))
          ∙ h.silent j q;
    }

module _ (api : OperationApi) (Allowed : Operation → Operation → Type 0) where
  Moves-IsLogged :
      {db db' : Database} → Moves api Allowed db db' → IsSound db → IsLogged db → IsLogged db'
  unfolding counted
  Moves-IsLogged here sound h = h
  Moves-IsLogged (saves {d} {d'} t m) sound h =
      let k = Moves-IsLogged t sound h in
      let named = (Moves-IsSound api Allowed t sound).all_named m.id m.old m.was in
      let new : Row = record (m.old) { state = m.state; operation = m.operation } in
      write-IsLogged m.id new d d' m.kind m.child m.now m.old.operation.receipt.revision k
        (ap (λ (i : Identity). i.id) m.kept ∙ named.named) m.next (k.numbered m.id m.old m.was)
        m.rows m.events
  Moves-IsLogged (inserts {d} {d'} t m) sound h =
      let k = Moves-IsLogged t sound h in
      write-IsLogged m.id (new_row m.id m.intent m.fingerprint m.root m.now) d d' EventKind.accepted
        "" m.now 0 k refl refl (k.silent m.id m.absent) m.rows m.events
  Moves-IsLogged (renews {d} {d'} t m) sound h =
      let k = Moves-IsLogged t sound h in
      let new : Row = record (m.old) {
        operation = record (m.old.operation) { lease_expires_at = m.expires_at };
      } in
      record {
        numbered = λ j r found.
            elim (insert-cases m.id j new r d.rows (ap (lookup j) (sym m.rows) ∙ found)) [
              | inl (p, q) ↦
                  ap (sequences j) m.events
                  ∙ ap (λ i. sequences i d.events) (sym p)
                  ∙ k.numbered m.id m.old m.was
                  ∙ ap (λ (s : Row). counted s.operation.receipt.revision) q
              | inr (p, q) ↦ ap (sequences j) m.events ∙ k.numbered j r q
            ];
        current = λ j r found.
            elim (insert-cases m.id j new r d.rows (ap (lookup j) (sym m.rows) ∙ found)) [
              | inl (p, q) ↦
                  ap (latest j) m.events
                  ∙ ap (λ i. latest i d.events) (sym p)
                  ∙ k.current m.id m.old m.was
                  ∙ ap (λ (s : Row). some s.operation.receipt) q
              | inr (p, q) ↦ ap (latest j) m.events ∙ k.current j r q
            ];
        silent = λ j gone.
            let (p, q) = insert-none m.id j new d.rows (ap (lookup j) (sym m.rows) ∙ gone) in
            ap (sequences j) m.events ∙ k.silent j q;
      }
  Moves-IsLogged (beside {d} {d'} t rows events) sound h =
      let k = Moves-IsLogged t sound h in
      record {
        numbered = λ j r e. ap (sequences j) events ∙ k.numbered j r (ap (lookup j) (sym rows) ∙ e);
        current = λ j r e. ap (latest j) events ∙ k.current j r (ap (lookup j) (sym rows) ∙ e);
        silent = λ j e. ap (sequences j) events ∙ k.silent j (ap (lookup j) (sym rows) ∙ e);
      }

empty-IsLogged : IsLogged empty_database
unfolding lookup sequences latest
empty-IsLogged = record {
  numbered = λ id r e. absurd (cc e);
  current = λ id r e. absurd (cc e);
  silent = λ id e. refl;
}

-- Any change that leaves the identity and the revision to the store.
abbrev pub AnyChange : Operation → Operation → Type 0
AnyChange old new = Unit {0}

-- After any calls on a new store, with changes that leave identities and revisions alone: the events
-- of each operation are numbered 1, 2, … up to its revision, with none missing and none twice, and
-- the last of them carries the receipt as it is.
pub run_calls-IsLogged :
    (api : OperationApi) (id_before : String → String → Bool) (calls : List Call)
    → AllAllowed api id_before AnyChange calls
    → IsLogged (run_calls api id_before calls empty_database)
run_calls-IsLogged api id_before calls h =
    let (moves, sound) = run_calls_from_empty api id_before AnyChange calls h in
    Moves-IsLogged api AnyChange moves (empty-IsSound api id_before AnyChange) empty-IsLogged
