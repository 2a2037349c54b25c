-- ===== src/Operations/Follows.antt =====
-- What holds between a row and the same row later, and what holds of every row, as the calls of
-- internal/operationstore/store.go follow each other.
use mathlib.Core.Path.{subst}
use llm_bridge_server.Prelude.{
  ℕ, suc, ◌≡◌, ◌≢◌, ◌∙◌, sym, ap, String, List, some, lookup, insert, insert-cases,
  lookup-insert_self, lookup-insert_ne, string_discrete, inl, inr,
}
use llm_bridge_server.Operations.Types.{OperationApi, Intent, Operation, Row, Database}
use llm_bridge_server.Operations.Store.{new_row}
use llm_bridge_server.Operations.Moves.{Turn, Moves, here, saves, inserts, renews, beside}

-- A relation that the moves of a row keep.
pub record IsFollowed (api : OperationApi) (Allowed : Operation → Operation → Type 0)
    (R : Operation → Operation → Type 0) : Type 0 where
  pub reflexive : (o : Operation) → R o o
  pub transitive : (a b c : Operation) → R a b → R b c → R a c
  pub turns :
      (old new : Operation)
      → Turn api Allowed old new
      → new.receipt.identity ≡ old.receipt.identity
      → new.receipt.revision ≡ suc old.receipt.revision
      → R old new
  pub renewals : (o : Operation) (expires_at : ℕ) → R o (record o { lease_expires_at = expires_at })

-- A predicate of operations that their moves keep, and that new ones have.
pub record IsKept (api : OperationApi) (Allowed : Operation → Operation → Type 0)
    (P : Operation → Type 0) : Type 0 where
  pub turns :
      (old new : Operation)
      → Turn api Allowed old new
      → new.receipt.identity ≡ old.receipt.identity
      → P old
      → P new
  pub starts :
      (id : String) (i : Intent) (fingerprint root : String) (now : ℕ)
      → P (new_row id i fingerprint root now).operation
  pub renewals :
      (o : Operation) (expires_at : ℕ) → P o → P (record o { lease_expires_at = expires_at })

abbrev pub Every : (Operation → Type 0) → Database → Type 0
Every P db = (id : String) (r : Row) → lookup id db.rows ≡ some r → P r.operation

put_found :
    (k id : String) (new : Row) (rows rows' : List (String × Row))
    → rows' ≡ insert k new rows
    → k ≡ id
    → lookup id rows' ≡ some new
put_found k id new rows rows' e p =
    ap (lookup id) e
    ∙ ap (λ j. lookup j (insert k new rows)) (sym p)
    ∙ lookup-insert_self k new rows

-- Every row after one was written.
put-Every :
    (P : Operation → Type 0) (k : String) (new : Row) (db db' : Database)
    → Every P db
    → P new.operation
    → db'.rows ≡ insert k new db.rows
    → Every P db'
put-Every P k new db db' h p e id r found =
    elim (insert-cases k id new r db.rows (ap (lookup id) (sym e) ∙ found)) [
      | inl (x, same) ↦ subst (λ (s : Row). P s.operation) same p
      | inr (x, f) ↦ h id r f
    ]

module _ (api : OperationApi) (Allowed : Operation → Operation → Type 0) where
  -- The row that stands later where one stood before.
  pub Moves-follow :
      (R : Operation → Operation → Type 0) {db db' : Database} (id : String) (r : Row)
      → IsFollowed api Allowed R
      → Moves api Allowed db db'
      → lookup id db.rows ≡ some r
      → (s : Row) × (lookup id db'.rows ≡ some s) × R r.operation s.operation
  Moves-follow R id r f here h = (r, h, f.reflexive r.operation)
  Moves-follow R id r f (saves {d} {d'} t m) h =
      let (s, found, later) = Moves-follow R id r f t h in
      let new : Row = record (m.old) { state = m.state; operation = m.operation } in
      elim (string_discrete m.id id) [
        | no n ↦ (s, ap (lookup id) m.rows ∙ lookup-insert_ne m.id id new d.rows n ∙ found, later)
        | yes p ↦
            let same : s ≡ m.old = cc (found, m.was, ap (λ j. lookup j d.rows) p) in
            (
              new,
              put_found m.id id new d.rows d'.rows m.rows p,
              f.transitive r.operation m.old.operation m.operation
                  (subst (λ (k : Row). R r.operation k.operation) same later)
                  (f.turns m.old.operation m.operation m.turn m.kept m.next),
            )
      ]
  Moves-follow R id r f (inserts {d} {d'} t m) h =
      let (s, found, later) = Moves-follow R id r f t h in
      let new = new_row m.id m.intent m.fingerprint m.root m.now in
      let other : m.id ≢ id = λ p. absurd (cc (found, m.absent, ap (λ j. lookup j d.rows) p)) in
      (s, ap (lookup id) m.rows ∙ lookup-insert_ne m.id id new d.rows other ∙ found, later)
  Moves-follow R id r f (renews {d} {d'} t m) h =
      let (s, found, later) = Moves-follow R id r f t h in
      let new : Row = record (m.old) {
        operation = record (m.old.operation) { lease_expires_at = m.expires_at };
      } in
      elim (string_discrete m.id id) [
        | no n ↦ (s, ap (lookup id) m.rows ∙ lookup-insert_ne m.id id new d.rows n ∙ found, later)
        | yes p ↦
            let same : s ≡ m.old = cc (found, m.was, ap (λ j. lookup j d.rows) p) in
            (
              new,
              put_found m.id id new d.rows d'.rows m.rows p,
              f.transitive r.operation m.old.operation new.operation
                  (subst (λ (k : Row). R r.operation k.operation) same later)
                  (f.renewals m.old.operation m.expires_at),
            )
      ]
  Moves-follow R id r f (beside t rows events) h =
      let (s, found, later) = Moves-follow R id r f t h in (s, ap (lookup id) rows ∙ found, later)

  pub Moves-keep :
      (P : Operation → Type 0) {db db' : Database}
      → IsKept api Allowed P
      → Moves api Allowed db db'
      → Every P db
      → Every P db'
  Moves-keep P k here h = h
  Moves-keep P k (saves {d} {d'} t m) h =
      let before = Moves-keep P k t h in
      let new : Row = record (m.old) { state = m.state; operation = m.operation } in
      put-Every P m.id new d d' before
        (k.turns m.old.operation m.operation m.turn m.kept (before m.id m.old m.was)) m.rows
  Moves-keep P k (inserts {d} {d'} t m) h =
      let new = new_row m.id m.intent m.fingerprint m.root m.now in
      put-Every P m.id new d d' (Moves-keep P k t h)
        (k.starts m.id m.intent m.fingerprint m.root m.now) m.rows
  Moves-keep P k (renews {d} {d'} t m) h =
      let before = Moves-keep P k t h in
      let new : Row = record (m.old) {
        operation = record (m.old.operation) { lease_expires_at = m.expires_at };
      } in
      put-Every P m.id new d d' before
        (k.renewals m.old.operation m.expires_at (before m.id m.old m.was)) m.rows
  Moves-keep P k (beside t rows events) h =
      λ id r found. Moves-keep P k t h id r (ap (lookup id) (sym rows) ∙ found)
