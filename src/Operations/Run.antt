-- ===== src/Operations/Run.antt =====
-- The calls of internal/operationstore in the order of their transactions.
use llm_bridge_server.Prelude.{
  ℕ, String, Bool, List, [], ◌∷◌, Option, ℤ, ◌≡◌, refl, sym, ap, Result, inl, inr, lookup, insert,
  delete, or_else, ltb_ℤ, pos, bind-ok, ok_injective, guard-ok, Option-cases,
}
use llm_bridge_server.Operations.Types.{
  OperationApi, Intent, Operation, Receipt, Event, ModelCall, BudgetRow, Database, StoreError,
}
use llm_bridge_server.Operations.Store.{Change, create, Created, claim, renew_lease, update}
use llm_bridge_server.Operations.Spend.{
  record_model_call, book_call, write_spend, set_organization_budget, delete_organization_budget,
}
use llm_bridge_server.Operations.Moves.{Moves, here, beside, IsSound, Moves-IsSound, Moves-trans}
use llm_bridge_server.Operations.Updates.{Allows, Keeps}
use llm_bridge_server.Operations.Calls.{
  create-Moves, claim-Moves, renew_lease-Moves, update_also-Moves,
}

pub data Call : Type 0 where
  creates : String → Intent → String → ℕ → Call
  claims_next : String → ℕ → ℕ → Call
  renews_lease : String → ℕ → ℕ → Call
  updates_row : String → Option ℕ → ℕ → Change → Call
  books_call : String → Option ℕ → ℕ → ModelCall → Call
  sets_budget : String → ℤ → String → ℕ → Call
  deletes_budget : String → Call

-- The database after a call, which a failed one leaves as it was.
abbrev pub after {κ} : {A : Type κ} → (A → Database) → Database → Result StoreError A → Database
after database db (Result.err e) = db
after database db (Result.ok a) = database a

abbrev pub empty_database : Database
empty_database = record { rows = []; events = []; spend = []; budgets = [] }

module _ (api : OperationApi) (id_before : String → String → Bool) where
  unfoldable pub apply_call : Call → Database → Database
  apply_call (creates id i fingerprint now) db =
      after (λ (c : Created). c.database) db (create id_before id i fingerprint now db)
  apply_call (claims_next owner duration now) db =
      after (λ (d : Database × Option Operation × List Event). d.0) db
        (claim id_before owner duration now db)
  apply_call (renews_lease id token expires_at) db =
      after (λ (d : Database). d) db (renew_lease id token expires_at db)
  apply_call (updates_row id token now change) db =
      after (λ (d : Database × Receipt × List Event). d.0) db
        (update api id_before id token now change db)
  apply_call (books_call id token now c) db =
      after (λ (d : Database × Receipt × List Event). d.0) db
        (record_model_call api id_before id token now c db)
  apply_call (sets_budget organization limit by now) db =
      after (λ (d : Database). d) db (set_organization_budget organization limit by now db)
  apply_call (deletes_budget organization) db =
      after (λ (d : Database). d) db (delete_organization_budget organization db)

  unfoldable pub run_calls : List Call → Database → Database
  unfolding apply_call
  run_calls [] db = db
  run_calls (c ∷ calls) db = run_calls calls (apply_call c db)

  -- The changes of the calls are allowed, and leave identities and revisions alone.
  abbrev pub IsAllowed : (Operation → Operation → Type 0) → Call → Type 0
  IsAllowed Allowed (updates_row id token now change) = Allows Allowed change × Keeps change
  IsAllowed Allowed (books_call id token now c) = Allows Allowed (book_call c)
  IsAllowed Allowed _ = Unit {0}

  abbrev pub AllAllowed : (Operation → Operation → Type 0) → List Call → Type 0
  AllAllowed Allowed [] = Unit {0}
  AllAllowed Allowed (c ∷ calls) = IsAllowed Allowed c × AllAllowed Allowed calls

  -- What holds of the database before and after each success holds after a call.
  after_cases :
      {A : Type 0} (P : Database → Type 0) (database : A → Database) (db : Database)
      (r : Result StoreError A)
      → P db
      → ((a : A) → r ≡ Result.ok a → P (database a))
      → P (after database db r)
  after_cases P database db (Result.err e) h k = h
  after_cases P database db (Result.ok a) h k = k a refl

  pub book_call-Keeps : (c : ModelCall) → Keeps (book_call c)
  unfolding book_call
  book_call-Keeps c o o' kind h =
      let same = ok_injective h in
      (ap (λ p. p.0.receipt.identity) (sym same), ap (λ p. p.0.receipt.revision) (sym same))

  pub write_spend_beside :
      (id : String) (c : ModelCall) (now : ℕ) (db : Database) (o : Operation) (d : Database)
      → write_spend id c now o db ≡ Result.ok d
      → (d.rows ≡ db.rows) × (d.events ≡ db.events)
  unfolding write_spend
  write_spend_beside id c now db o d h =
      let (row, e, k) = bind-ok (or_else (lookup id db.rows) StoreError.not_found) _ h in
      let same = ok_injective k in
      (ap (λ (p : Database). p.rows) (sym same), ap (λ (p : Database). p.events) (sym same))

  set_budget_beside :
      (organization : String) (limit : ℤ) (by : String) (now : ℕ) (db d : Database)
      → set_organization_budget organization limit by now db ≡ Result.ok d
      → (d.rows ≡ db.rows) × (d.events ≡ db.events)
  unfolding set_organization_budget
  set_budget_beside organization limit by now db d h =
      let set : BudgetRow = record {
        monthly_limit_usd = limit;
        updated_by = by;
        updated_at = now;
      } in
      let same =
        (guard-ok (ltb_ℤ limit (pos 0)) StoreError.negative_limit
          (record db { budgets = insert organization set db.budgets }) h).1 in
      (ap (λ (p : Database). p.rows) (sym same), ap (λ (p : Database). p.events) (sym same))

  delete_budget_beside :
      (organization : String) (db d : Database)
      → delete_organization_budget organization db ≡ Result.ok d
      → (d.rows ≡ db.rows) × (d.events ≡ db.events)
  unfolding delete_organization_budget
  delete_budget_beside organization db d h = elim (Option-cases (lookup organization db.budgets)) [
    | inl e ↦ absurd (cc (rw (e, delete_organization_budget) at h))
    | inr (b, e) ↦
        let without : Database = record db { budgets = delete organization db.budgets } in
        let same : d ≡ without = cc (rw (e, delete_organization_budget) at h) in
        (ap (λ (p : Database). p.rows) same, ap (λ (p : Database). p.events) same)
  ]

  module _ (Allowed : Operation → Operation → Type 0) where
    pub apply_call-Moves :
        (c : Call) (db : Database)
        → IsSound db
        → IsAllowed Allowed c
        → Moves api Allowed db (apply_call c db)
    unfolding apply_call update record_model_call set_organization_budget delete_organization_budget
    apply_call-Moves (creates id i fingerprint now) db sound h =
        after_cases (Moves api Allowed db) (λ (c : Created). c.database) db _ here
          (λ a e. create-Moves api Allowed id_before id i fingerprint now db a e)
    apply_call-Moves (claims_next owner duration now) db sound h =
        after_cases (Moves api Allowed db) (λ (d : Database × Option Operation × List Event). d.0)
          db _ here (λ a e. claim-Moves api Allowed id_before owner duration now db a sound e)
    apply_call-Moves (renews_lease id token expires_at) db sound h =
        after_cases (Moves api Allowed db) (λ (d : Database). d) db _ here
          (λ a e. renew_lease-Moves api Allowed id_before id token expires_at db a e)
    apply_call-Moves (updates_row id token now change) db sound h =
        after_cases (Moves api Allowed db) (λ (d : Database × Receipt × List Event). d.0) db _ here
          (λ a e.
            update_also-Moves api Allowed id_before id token now change (λ o d. Result.ok d) db a
              sound h.0 h.1
              (λ o d k. (
                ap (λ (p : Database). p.rows) (sym (ok_injective k)),
                ap (λ (p : Database). p.events) (sym (ok_injective k)),
              ))
              e)
    apply_call-Moves (books_call id token now c) db sound h =
        after_cases (Moves api Allowed db) (λ (d : Database × Receipt × List Event). d.0) db _ here
          (λ a e.
            update_also-Moves api Allowed id_before id token now (book_call c)
              (write_spend id c now) db a sound h (book_call-Keeps c)
              (λ o d k. write_spend_beside id c now db o d k) e)
    apply_call-Moves (sets_budget organization limit by now) db sound h =
        after_cases (Moves api Allowed db) (λ (d : Database). d) db
          (set_organization_budget organization limit by now db) here
          (λ a e.
            let (r, es) = set_budget_beside organization limit by now db a e in beside here r es)
    apply_call-Moves (deletes_budget organization) db sound h =
        after_cases (Moves api Allowed db) (λ (d : Database). d) db
          (delete_organization_budget organization db) here
          (λ a e. let (r, es) = delete_budget_beside organization db a e in beside here r es)

    pub run_calls-Moves :
        (calls : List Call) (db : Database)
        → IsSound db
        → AllAllowed Allowed calls
        → Moves api Allowed db (run_calls calls db)
    unfolding run_calls
    run_calls-Moves [] db sound h = here
    run_calls-Moves (c ∷ calls) db sound h =
        let first = apply_call-Moves c db sound h.0 in
        Moves-trans api Allowed first
          (run_calls-Moves calls (apply_call c db) (Moves-IsSound api Allowed first sound) h.1)

    pub empty-IsSound : IsSound empty_database
    unfolding lookup
    empty-IsSound = record { keyed = tt; all_named = λ id r e. absurd (cc e) }

    pub run_calls_from_empty :
        (calls : List Call)
        → AllAllowed Allowed calls
        → Moves api Allowed empty_database (run_calls calls empty_database)
          × IsSound (run_calls calls empty_database)
    run_calls_from_empty calls h =
        let moves = run_calls-Moves calls empty_database empty-IsSound h in
        (moves, Moves-IsSound api Allowed moves empty-IsSound)
