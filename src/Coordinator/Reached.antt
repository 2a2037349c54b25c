-- ===== src/Coordinator/Reached.antt =====
-- The attempts of operations in every run of internal/operations/coordinator.go against its store.
use mathlib.Core.Path.{subst}
use mathlib.Core.List.{Memᴰ}
use llm_bridge_server.Prelude.{
  ℕ, ◌≤◌, ◌≡◌, ◌≢◌, refl, ◌∙◌, sym, ap, String, Bool, false, List, ◌∷◌, Option, none, some, lookup,
  Result, inl, inr, arith, Option-cases,
}
use llm_bridge_server.Operations.Types.{
  OperationState, OperationApi, EventKind, Receipt, Identity, Operation, Row, Database,
}
use llm_bridge_server.Operations.Spend.{record_model_call, book_call, write_spend}
use llm_bridge_server.Operations.Updates.{Keeps}
use llm_bridge_server.Operations.Calls.{create-Moves, claim-Moves, renew_lease-Moves}
use llm_bridge_server.Operations.Run.{empty-IsSound, book_call-Keeps, write_spend_beside}
use llm_bridge_server.Operations.Follows.{Every}
use llm_bridge_server.Operations.Leases.{guarded_token}
use llm_bridge_server.Coordinator.Intents.{Description}
use llm_bridge_server.Coordinator.Attempts.{
  Messages, finish_change, finish_attempt, cancel, cancel_change, settle, settle_change,
}
use llm_bridge_server.Coordinator.Writer.{write_change}
use llm_bridge_server.Coordinator.Reconcile.{
  ReconcileResult, reconcile_outcome, reconcile_change, reconcile_one, listed_change,
}
use llm_bridge_server.Coordinator.Endings.{reconcile_outcome-RunsAnew, outcome_cases, ends_open}
use llm_bridge_server.Coordinator.Attempting.{
  Reach, opens, reads, creates, claims, renews, writes, books, cancels, finishes, gives_up,
  reconciles, maximum_of, IsBounded,
}
use llm_bridge_server.Coordinator.Bounds.{IsStep, IsLeased}
use llm_bridge_server.Coordinator.Steps.{
  finish_change-IsStep, cancel_change-IsStep, settle_change-IsStep, book_call-IsStep,
  write_change-IsStep, requeue-IsStep, write_change-Keeps, finish_change-Keeps, cancel_change-Keeps,
  settle_change-Keeps, reconcile_change-Keeps,
}
use llm_bridge_server.Coordinator.Holding.{
  IsSeen, Holds, Moves-Holds, update_also-Holds, update-Holds, seen_row,
}

-- An operation that was just read, or earlier.
seen_now :
    {maximum : String → ℕ} (id : String) (r : Row) (seen : List Operation) (db : Database)
    → Holds maximum seen db
    → lookup id db.rows ≡ some r
    → (o : Operation) → Memᴰ o (r.operation ∷ seen)
    → IsSeen o db
seen_now id r seen db h found o (Memᴰ.head e) =
    let named = (h.sound.all_named id r found).named in
    record {
      row = r;
      found =
          ap (λ (p : Operation). lookup p.receipt.identity.id db.rows) e
          ∙ ap (λ k. lookup k db.rows) named
          ∙ found;
      leased =
          subst (λ (p : Operation). IsLeased p r.operation) (sym e)
            (record { identity = refl; token = omega arith; attempt = λ k. refl });
    }
seen_now id r seen db h found o (Memᴰ.tail m) = h.known o m

failed_open : OperationState.failed ≢ OperationState.queued
failed_open = cc

module _ (api : OperationApi) (opens_queue : api.is_terminal OperationState.queued ≡ false)
    (id_before : String → String → Bool) (says : Messages) (describe : String → Option Description)
    (some_left : (t : String) → 1 ≤ maximum_of describe t) where
  -- The change of reconcileOne, on the listed operation under the token that it was listed with.
  listed_change-IsStep :
      (listed o o' : Operation) (decide : Receipt → ReconcileResult) (kind : EventKind)
      → IsLeased listed o
      → o.lease_token ≡ listed.lease_token
      → listed_change api says describe decide listed o ≡ Result.ok (o', kind)
      → IsStep (maximum_of describe) o o'
  unfolding listed_change
  listed_change-IsStep listed o o' decide kind leased token h =
      elim (Option-cases (describe listed.receipt.identity.operation_type)) [
        | inl e ↦
            settle_change-IsStep (maximum_of describe) api OperationState.failed _ o o' kind
              failed_open (rw (listed_change, e) at h)
        | inr (d, e) ↦
            let outcome = reconcile_outcome api says d (decide listed.receipt) listed.receipt in
            let change : reconcile_change api outcome o ≡ Result.ok (o', kind) =
              rw (listed_change, e) at h in
            elim (outcome_cases outcome) [
              | inl same ↦
                  let runs =
                    (reconcile_outcome-RunsAnew api says d (decide listed.receipt) listed.receipt).0
                      same in
                  let type_name : maximum_of describe o.receipt.identity.operation_type
                      ≡ d.maximum_attempts =
                    ap (λ (i : Identity). maximum_of describe i.operation_type) leased.identity
                    ∙ rw (maximum_of, e) refl in
                  let attempt = leased.attempt token in
                  requeue-IsStep (maximum_of describe) api o o' kind
                    (ground (arith, runs.attempts_left, type_name, attempt))
                    (ap (λ x. reconcile_change api x o) (sym same) ∙ change)
              | inr (s, error, same) ↦
                  settle_change-IsStep (maximum_of describe) api s error o o' kind
                    (ends_open api opens_queue says d (decide listed.receipt) listed.receipt s error
                      same)
                    (ap (λ x. reconcile_change api x o) (sym same) ∙ change)
            ]
      ]

  listed_change-Keeps :
      (listed : Operation) (decide : Receipt → ReconcileResult)
      → Keeps (listed_change api says describe decide listed)
  unfolding listed_change
  listed_change-Keeps listed decide o o' kind h =
      elim (Option-cases (describe listed.receipt.identity.operation_type)) [
        | inl e ↦
            settle_change-Keeps api OperationState.failed _ o o' kind (rw (listed_change, e) at h)
        | inr (d, e) ↦
            reconcile_change-Keeps api
              (reconcile_outcome api says d (decide listed.receipt) listed.receipt) o o' kind
              (rw (listed_change, e) at h)
      ]

  Reach-Holds :
      {seen : List Operation} {db : Database}
      → Reach api id_before says describe seen db
      → Holds (maximum_of describe) seen db
  unfolding lookup finish_attempt cancel settle reconcile_one record_model_call
  Reach-Holds opens = record {
    sound = empty-IsSound api id_before (IsStep (maximum_of describe));
    bounded = λ id r found. absurd (cc found);
    known = λ o m. elim m [ ];
  }
  Reach-Holds (reads {seen} {db} id r t found) =
      let h = Reach-Holds t in
      record {
        sound = h.sound;
        bounded = h.bounded;
        known = λ o m. seen_now id r seen db h found o m;
      }
  Reach-Holds (creates {seen} {db} id i fingerprint now done t e) =
      Moves-Holds api (maximum_of describe) some_left id_before seen db done.database
        (create-Moves api (IsStep (maximum_of describe)) id_before id i fingerprint now db done e)
        (Reach-Holds t)
  Reach-Holds (claims {seen} {db} owner duration now done t e) =
      let h = Reach-Holds t in
      Moves-Holds api (maximum_of describe) some_left id_before seen db done.0
        (claim-Moves api (IsStep (maximum_of describe)) id_before owner duration now db done h.sound
          e)
        h
  Reach-Holds (renews {seen} {db} id token expires_at done t e) =
      Moves-Holds api (maximum_of describe) some_left id_before seen db done
        (renew_lease-Moves api (IsStep (maximum_of describe)) id_before id token expires_at db done
          e)
        (Reach-Holds t)
  Reach-Holds (writes {seen} {db} held change now done t m w e) =
      update-Holds api (maximum_of describe) some_left id_before seen held.receipt.identity.id
        (some held.lease_token) now (write_change change) db done (Reach-Holds t)
        (write_change-Keeps (maximum_of describe) says change w)
        (λ row o kind found g c.
          write_change-IsStep (maximum_of describe) says change row.operation o kind w c)
        e
  Reach-Holds (books {seen} {db} held c now done t m e) =
      let id = held.receipt.identity.id in
      update_also-Holds api (maximum_of describe) some_left id_before seen id
        (some held.lease_token) now (book_call c) (write_spend id c now) db done (Reach-Holds t)
        (book_call-Keeps api id_before c)
        (λ o d k. write_spend_beside api id_before id c now db o d k)
        (λ row o kind found g b. book_call-IsStep (maximum_of describe) c row.operation o kind b) e
  Reach-Holds (cancels {seen} {db} id now done t e) =
      update-Holds api (maximum_of describe) some_left id_before seen id none now
        (cancel_change now) db done (Reach-Holds t) (cancel_change-Keeps now)
        (λ row o kind found g c.
          cancel_change-IsStep (maximum_of describe) now row.operation o kind c)
        e
  Reach-Holds (finishes {seen} {db} held d r now done t m known e) =
      let h = Reach-Holds t in
      update-Holds api (maximum_of describe) some_left id_before seen held.receipt.identity.id
        (some held.lease_token) now (finish_change api says d r) db done h
        (finish_change-Keeps api says d r)
        (λ row o kind found g c.
          let leased =
            seen_row api (maximum_of describe) some_left id_before held db row (h.known held m)
              found in
          let type_name : maximum_of describe row.operation.receipt.identity.operation_type
              ≡ d.maximum_attempts =
            ap (λ (i : Identity). maximum_of describe i.operation_type) leased.identity
            ∙ rw (maximum_of, known) refl in
          finish_change-IsStep (maximum_of describe) api says d r row.operation o kind
            (sym type_name) c)
        e
  Reach-Holds (gives_up {seen} {db} held error now done t m e) =
      update-Holds api (maximum_of describe) some_left id_before seen held.receipt.identity.id
        (some held.lease_token) now (settle_change api OperationState.failed error) db done
        (Reach-Holds t) (settle_change-Keeps api OperationState.failed error)
        (λ row o kind found g c.
          settle_change-IsStep (maximum_of describe) api OperationState.failed error row.operation o
            kind failed_open c)
        e
  Reach-Holds (reconciles {seen} {db} listed decide now done t m e) =
      let h = Reach-Holds t in
      update-Holds api (maximum_of describe) some_left id_before seen listed.receipt.identity.id
        (some listed.lease_token) now (listed_change api says describe decide listed) db done h
        (listed_change-Keeps listed decide)
        (λ row o kind found g c.
          let leased =
            seen_row api (maximum_of describe) some_left id_before listed db row (h.known listed m)
              found in
          listed_change-IsStep listed row.operation o decide kind leased
            (guarded_token api opens_queue id_before listed.lease_token row.operation row.operation
              g)
            c)
        e

  -- However workers, callers and the watchdog of the coordinator interleave, each with operations that
  -- it read at any earlier time, no operation makes more attempts than its type allows, and a queued
  -- one has an attempt left. The types allow at least one attempt, and queued is not a terminal state.
  pub Reach-IsBounded :
      (seen : List Operation) (db : Database)
      → Reach api id_before says describe seen db
      → Every (IsBounded (maximum_of describe)) db
  Reach-IsBounded seen db t = (Reach-Holds t).bounded
