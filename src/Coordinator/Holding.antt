-- ===== src/Coordinator/Holding.antt =====
-- What holds of every database that internal/operations/coordinator.go reaches, and that a call keeps it.
use mathlib.Core.Path.{subst}
use mathlib.Core.List.{Memᴰ}
use llm_bridge_server.Prelude.{
  ℕ, ◌≤◌, ◌≡◌, sym, ap, String, Bool, List, Option, some, lookup, Result, ok_injective,
}
use llm_bridge_server.Operations.Types.{
  OperationApi, EventKind, Receipt, Operation, Row, Event, Database, StoreError,
}
use llm_bridge_server.Operations.Store.{Change, update, update_also, guarded}
use llm_bridge_server.Operations.Moves.{Moves, IsSound, Moves-IsSound, Moves-trans}
use llm_bridge_server.Operations.Updates.{Keeps, update_also-Updates}
use llm_bridge_server.Operations.Calls.{update_also-Lands}
use llm_bridge_server.Operations.Follows.{Every, Moves-follow, Moves-keep}
use llm_bridge_server.Coordinator.Attempting.{IsBounded}
use llm_bridge_server.Coordinator.Bounds.{IsStep, IsLeased, IsBounded-IsKept, IsLeased-IsFollowed}

-- The row of an operation that was read earlier.
pub record IsSeen (o : Operation) (db : Database) : Type 0 where
  pub row : Row
  pub found : lookup o.receipt.identity.id db.rows ≡ some row
  pub leased : IsLeased o row.operation

-- What holds of a database that is reached.
pub record Holds (maximum : String → ℕ) (seen : List Operation) (db : Database) : Type 0 where
  pub sound : IsSound db
  pub bounded : Every (IsBounded maximum) db
  pub known : (o : Operation) → Memᴰ o seen → IsSeen o db

module _ (api : OperationApi) (maximum : String → ℕ) (some_left : (t : String) → 1 ≤ maximum t)
    (id_before : String → String → Bool) where
  pub Moves-Holds :
      (seen : List Operation) (db db' : Database)
      → Moves api (IsStep maximum) db db'
      → Holds maximum seen db
      → Holds maximum seen db'
  Moves-Holds seen db db' moves h = record {
    sound = Moves-IsSound api (IsStep maximum) moves h.sound;
    bounded =
        Moves-keep api (IsStep maximum) (IsBounded maximum) (IsBounded-IsKept api maximum some_left)
          moves h.bounded;
    known = λ o m.
        let before = h.known o m in
        let (row, found, leased) =
          Moves-follow api (IsStep maximum) IsLeased o.receipt.identity.id before.row
            (IsLeased-IsFollowed api maximum) moves before.found in
        record {
          row = row;
          found = found;
          leased =
              (IsLeased-IsFollowed api maximum).transitive o before.row.operation row.operation
                before.leased leased;
        };
  }

  -- An update whose change is a step of the row as it stands.
  pub update_also-Holds :
      (seen : List Operation) (id : String) (token : Option ℕ) (now : ℕ) (change : Change)
      (also_write : Operation → Database → Result StoreError Database) (db : Database)
      (done : Database × Receipt × List Event)
      → Holds maximum seen db
      → Keeps change
      → ((o : Operation) (d : Database)
          → also_write o db ≡ Result.ok d
          → (d.rows ≡ db.rows) × (d.events ≡ db.events))
      → ((row : Row) (o : Operation) (kind : EventKind)
          → lookup id db.rows ≡ some row
          → guarded api token row.operation ≡ Result.ok row.operation
          → change row.operation ≡ Result.ok (o, kind)
          → IsStep maximum row.operation o)
      → update_also api id_before id token now change also_write db ≡ Result.ok done
      → Holds maximum seen done.0
  update_also-Holds seen id token now change also_write db done h keeps beside_lem step e =
      let u = update_also-Updates api id_before id token now change also_write db done e in
      let lands =
        update_also-Lands api (IsStep maximum) id_before id token now change also_write db done
          h.sound keeps beside_lem u (step u.row u.changed u.kind u.was u.guards u.change_lem) in
      Moves-Holds seen db done.0 (Moves-trans api (IsStep maximum) lands.first lands.rest) h

  pub update-Holds :
      (seen : List Operation) (id : String) (token : Option ℕ) (now : ℕ) (change : Change)
      (db : Database) (done : Database × Receipt × List Event)
      → Holds maximum seen db
      → Keeps change
      → ((row : Row) (o : Operation) (kind : EventKind)
          → lookup id db.rows ≡ some row
          → guarded api token row.operation ≡ Result.ok row.operation
          → change row.operation ≡ Result.ok (o, kind)
          → IsStep maximum row.operation o)
      → update api id_before id token now change db ≡ Result.ok done
      → Holds maximum seen done.0
  unfolding update
  update-Holds seen id token now change db done h keeps step e =
      update_also-Holds seen id token now change (λ o d. Result.ok d) db done h keeps
        (λ o d k. (
          ap (λ (p : Database). p.rows) (sym (ok_injective k)),
          ap (λ (p : Database). p.events) (sym (ok_injective k)),
        ))
        step e

  -- The row that stands where an operation was read, by its type and, under its token, its attempt.
  pub seen_row :
      (held : Operation) (db : Database) (row : Row)
      → IsSeen held db
      → lookup held.receipt.identity.id db.rows ≡ some row
      → IsLeased held row.operation
  seen_row held db row s found =
      let same : s.row ≡ row = cc (s.found, found) in
      subst (λ (r : Row). IsLeased held r.operation) same s.leased
