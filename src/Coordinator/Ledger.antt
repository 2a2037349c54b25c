-- ===== src/Coordinator/Ledger.antt =====
-- What a call of a model adds to the ledger of internal/operationstore/spend.go, and what
-- spendingAllowance leaves to spend.
use mathlib.Core.Path.{subst}
use mathlib.Core.Logic.{◌⊎◌}
use llm_bridge_server.Prelude.{
  ℕ, ◌+◌, ◌%◌, ◌^◌, ◌≡◌, refl, ◌∙◌, sym, ap, String, Bool, true, false, ◌&&◌, leb, List, [], ◌∷◌,
  ◌++◌, Option, none, some, lookup, if◌then◌else◌, ℤ, pos, ◌+ℤ◌, ◌-ℤ◌, ltb_ℤ, ◌≤ℤ◌, int_laws,
  Result, or_else, bind-ok, ok_injective, or_else-ok, Option-cases, Bool-cases, inl, inr, arith,
  ◌=s◌,
}
use llm_bridge_server.Operations.Types.{
  EventKind, OperationApi, Receipt, Operation, Row, Event, ModelCall, SpendRow, Database,
  StoreError, OperationUsage,
}
use llm_bridge_server.Operations.Store.{released, completed}
use llm_bridge_server.Operations.Updates.{
  update_also-Updates, released_keeps, write_receipt_change_written,
}
use llm_bridge_server.Operations.Spend.{
  record_model_call, book_call, add_model_call, usage_or_none, write_spend, sum_spend, is_spent_by,
  is_spent_under, organization_spent_usd, tree_spent_usd, root_of,
}
use llm_bridge_server.Coordinator.Spending.{lower_of, spending_allowance}
use llm_bridge_server.Coordinator.Spent.{
  month_left, cap_left, left_of-month_left, tree_costs, tree_spent_usd-costs,
}
use llm_bridge_server.Operations.SpendKept.{write_receipt_change_spend}

add_comm_ℤ : (a b : ℤ) → a +ℤ b ≡ b +ℤ a
add_comm_ℤ a b = omega int_laws

add_assoc_ℤ : (a b c : ℤ) → a +ℤ (b +ℤ c) ≡ a +ℤ b +ℤ c
add_assoc_ℤ a b c = omega int_laws

sum_spend-append :
    (counts : SpendRow → Bool) (rows : List SpendRow) (s : SpendRow)
    → sum_spend counts (rows ++ s ∷ [])
      ≡ (if counts s then sum_spend counts rows +ℤ s.call.cost_usd else sum_spend counts rows)
unfolding sum_spend
sum_spend-append counts [] s = elim (Bool-cases (counts s)) [
  | inl b ↦ rw (b, sum_spend) (add_comm_ℤ s.call.cost_usd (pos 0))
  | inr b ↦ rw (b, sum_spend) refl
]
sum_spend-append counts (r ∷ rows) s =
    let rest = sum_spend-append counts rows s in
    elim (Bool-cases (counts r)) [
      | inr d ↦ rw (d, sum_spend) rest
      | inl d ↦ elim (Bool-cases (counts s)) [
        | inl b ↦
            let more : sum_spend counts (rows ++ s ∷ [])
                ≡ sum_spend counts rows +ℤ s.call.cost_usd =
              rw b at rest in
            rw (d, b, sum_spend, more)
              (add_assoc_ℤ r.call.cost_usd (sum_spend counts rows) s.call.cost_usd)
        | inr b ↦
            let same : sum_spend counts (rows ++ s ∷ []) ≡ sum_spend counts rows = rw b at rest in
            rw (d, b, sum_spend, same) refl
      ]
    ]

-- A receipt's usage before its first call.
abbrev pub nothing_used : OperationUsage
nothing_used = record {
  calls = 0;
  input_tokens = 0;
  output_tokens = 0;
  total_tokens = 0;
  cache_read_tokens = 0;
  cache_write_tokens = 0;
  cost_usd = pos 0;
}

-- The new usage counts one call more than the old, its tokens in 64 bits and its cost.
pub record CountsCall (c : ModelCall) (old new : OperationUsage) : Type 0 where
  pub calls : new.calls ≡ (old.calls + 1) % 2 ^ 64
  pub input : new.input_tokens ≡ (old.input_tokens + c.input_tokens) % 2 ^ 64
  pub output : new.output_tokens ≡ (old.output_tokens + c.output_tokens) % 2 ^ 64
  pub both :
      new.total_tokens ≡ (old.total_tokens + (c.input_tokens + c.output_tokens) % 2 ^ 64) % 2 ^ 64
  pub cache_read : new.cache_read_tokens ≡ (old.cache_read_tokens + c.cache_read_tokens) % 2 ^ 64
  pub cache_write :
      new.cache_write_tokens ≡ (old.cache_write_tokens + c.cache_write_tokens) % 2 ^ 64
  pub cost : new.cost_usd ≡ old.cost_usd +ℤ c.cost_usd

add_model_call-CountsCall :
    (c : ModelCall) (old : OperationUsage) → CountsCall c old (add_model_call c old)
unfolding add_model_call
add_model_call-CountsCall c old = record {
  calls = refl;
  input = refl;
  output = refl;
  both = refl;
  cache_read = refl;
  cache_write = refl;
  cost = refl;
}

-- What a successful RecordModelCall has read and written.
pub record Books (id : String) (now : ℕ) (c : ModelCall) (db : Database)
    (done : Database × Receipt × List Event) : Type 0 where
  pub row : Row
  pub was : lookup id db.rows ≡ some row
  pub usage : OperationUsage
  pub booked : done.1.usage ≡ some usage
  pub adds :
      (old : OperationUsage) → row.operation.receipt.usage ≡ some old → CountsCall c old usage
  pub begins : row.operation.receipt.usage ≡ none → CountsCall c nothing_used usage
  pub by_tree :
      (root : String)
      → tree_spent_usd root done.0 ≡ (
          if row.root_operation_id =s root
          then tree_spent_usd root db +ℤ c.cost_usd
          else tree_spent_usd root db)
  pub by_organization :
      (organization : String) (from : ℕ)
      → organization_spent_usd organization from done.0 ≡ (
          if done.1.identity.organization_id =s organization && leb from now
          then organization_spent_usd organization from db +ℤ c.cost_usd
          else organization_spent_usd organization from db)

completed_books :
    (api : OperationApi) (now : ℕ) (o : Operation)
    → ((completed api now o).receipt.usage ≡ o.receipt.usage)
      × ((completed api now o).receipt.identity ≡ o.receipt.identity)
unfolding completed
completed_books api now o = elim (Option-cases o.receipt.completed_at) [
  | inr (t, e) ↦ rw (e, completed) (refl, refl)
  | inl e ↦ elim (Bool-cases (api.is_terminal o.receipt.state)) [
    | inl b ↦ rw (e, b, completed) (refl, refl)
    | inr b ↦ rw (e, b, completed) (refl, refl)
  ]
]

-- The row of the ledger that a call writes.
abbrev spend_row : String → String → String → ModelCall → ℕ → SpendRow
spend_row id root organization c now = record {
  operation_id = id;
  root_operation_id = root;
  organization_id = organization;
  call = c;
  at_time = now;
}

assemble :
    (id : String) (now : ℕ) (c : ModelCall) (db : Database) (done : Database × Receipt × List Event)
    (row : Row) (organization_id : String)
    → lookup id db.rows ≡ some row
    → done.1.usage ≡ some (add_model_call c (usage_or_none row.operation.receipt.usage))
    → done.1.identity.organization_id ≡ organization_id
    → done.0.spend ≡ db.spend ++ spend_row id row.root_operation_id organization_id c now ∷ []
    → Books id now c db done
unfolding tree_spent_usd organization_spent_usd
assemble id now c db done row organization_id was usage named spent =
    let s = spend_row id row.root_operation_id organization_id c now in
    record {
      row = row;
      was = was;
      usage = add_model_call c (usage_or_none row.operation.receipt.usage);
      booked = usage;
      adds = λ old e.
          subst (λ u. CountsCall c old (add_model_call c (usage_or_none u))) (sym e)
            (add_model_call-CountsCall c old);
      begins = λ e.
          subst (λ u. CountsCall c nothing_used (add_model_call c (usage_or_none u))) (sym e)
            (add_model_call-CountsCall c nothing_used);
      by_tree = λ root.
          ap (sum_spend (is_spent_under root)) spent
          ∙ sum_spend-append (is_spent_under root) db.spend s;
      by_organization = λ organization from.
          ap (sum_spend (is_spent_by organization from)) spent
          ∙ sum_spend-append (is_spent_by organization from) db.spend s
          ∙ ap
              (λ o.
                if o =s organization && leb from now
                then organization_spent_usd organization from db +ℤ c.cost_usd
                else organization_spent_usd organization from db)
              (sym named);
    }

-- A successful RecordModelCall adds the call, its tokens in 64 bits and its cost to the receipt's usage
-- as it was, or to nothing used; and its cost to what the tree of the operation's root and its
-- organization have spent since any time not after the call, and to nothing else.
pub record_model_call-Books :
    (api : OperationApi) (id_before : String → String → Bool) (id : String) (token : Option ℕ)
    (now : ℕ) (c : ModelCall) (db : Database) (done : Database × Receipt × List Event)
    → record_model_call api id_before id token now c db ≡ Result.ok done
    → Books id now c db done
unfolding record_model_call book_call write_spend tree_spent_usd organization_spent_usd
record_model_call-Books api id_before id token now c db done h =
    let u =
      update_also-Updates api id_before id token now (book_call c) (write_spend id c now) db done
        h in
    let o = completed api now (released api u.changed) in
    let booked =
      ap (λ (p : Operation × EventKind). p.0.receipt) (sym (ok_injective u.change_lem)) in
    let (row, e, k) = bind-ok (or_else (lookup id db.rows) StoreError.not_found) _ u.also_lem in
    let found = or_else-ok (lookup id db.rows) StoreError.not_found e in
    let spent =
      write_receipt_change_spend id_before o u.kind now u.also (done.0, done.2, u.written) u.writes
      ∙ ap (λ (d : Database). d.spend) (sym (ok_injective k)) in
    let wrote =
      write_receipt_change_written id_before o u.kind now u.also (done.0, done.2, u.written)
        u.writes in
    let (kept_usage, kept_identity) = completed_books api now (released api u.changed) in
    let answered = u.receipt ∙ ap (λ (p : Operation). p.receipt) wrote in
    let same_row : row ≡ u.row = cc (u.was, found) in
    let receipt = released_keeps api u.changed in
    let usage =
      ap (λ (r : Receipt). r.usage) answered
      ∙ kept_usage
      ∙ ap (λ (r : Receipt). r.usage) receipt
      ∙ ap (λ (r : Receipt). r.usage) booked
      ∙ ap (λ (r : Row). some (add_model_call c (usage_or_none r.operation.receipt.usage)))
          (sym same_row) in
    assemble id now c db done row o.receipt.identity.organization_id found usage
      (ap (λ (r : Receipt). r.identity.organization_id) answered) spent

-- The lowest of two amounts, of which either may be left out.
abbrev pub IsLowest : Option ℤ → Option ℤ → Option ℤ → Type 0
IsLowest none none allowed = allowed ≡ none
IsLowest (some a) none allowed = allowed ≡ some a
IsLowest none (some b) allowed = allowed ≡ some b
IsLowest (some a) (some b) allowed =
    (least : ℤ) × (allowed ≡ some least) × (least ≤ℤ a) × (least ≤ℤ b) × ((least ≡ a) ⊎ (least ≡ b))

lower_of_least :
    (a b : ℤ)
    → (lower_of (some a) b ≤ℤ a)
      × (lower_of (some a) b ≤ℤ b)
      × ((lower_of (some a) b ≡ a) ⊎ (lower_of (some a) b ≡ b))
unfolding lower_of
lower_of_least a b = elim (Bool-cases (ltb_ℤ b a)) [
  | inl e ↦ rw (lower_of, e) (ground (arith, e), omega arith, inr refl)
  | inr e ↦ rw (lower_of, e) (omega arith, ground (arith, e), inl refl)
]

lowest :
    (left : Option ℤ) (capped : Bool) (b : ℤ) (allowed : Option ℤ)
    → (if capped then some (lower_of left b) else left) ≡ allowed
    → IsLowest left (if capped then some b else none) allowed
unfolding lower_of
lowest none false b allowed h = sym h
lowest (some a) false b allowed h = sym h
lowest none true b allowed h = sym h
lowest (some a) true b allowed h =
    let (p, q, r) = lower_of_least a b in (lower_of (some a) b, sym h, p, q, r)

-- spendingAllowance allows no more than the month of the operation's organization leaves, its limit
-- less the costs of its calls since the month's start, where the organization has a budget, and no
-- more than the cap of the operation's root leaves, the cap less the costs of the root's tree, where
-- it has one; and what it allows is one of the two. Nothing limits the operation only where neither applies.
pub spending_allowance-IsLowest :
    (month_start : ℕ → ℕ) (receipt : Receipt) (now : ℕ) (db : Database) (allowed : Option ℤ)
    (row root : Row)
    → lookup receipt.identity.id db.rows ≡ some row
    → lookup row.root_operation_id db.rows ≡ some root
    → spending_allowance month_start receipt now db ≡ Result.ok allowed
    → IsLowest
        (month_left month_start receipt.identity.organization_id now db)
        (cap_left root.operation db)
        allowed
unfolding spending_allowance lower_of root_of
spending_allowance-IsLowest month_start receipt now db allowed row root own above k =
    let organization = receipt.identity.organization_id in
    let (found, e, m) = bind-ok (root_of receipt.identity.id db) _ k in
    let reached : root_of receipt.identity.id db ≡ Result.ok root.operation =
      rw (root_of, own, above) refl in
    let same : found ≡ root.operation = cc (e, reached) in
    lowest (month_left month_start organization now db)
      (ltb_ℤ (pos 0) root.operation.intent.maximum_cost_usd)
      (root.operation.intent.maximum_cost_usd -ℤ tree_costs root.operation.receipt.identity.id db)
      allowed
      (rw
        (
          sym same,
          sym (left_of-month_left month_start organization now db),
          sym (tree_spent_usd-costs found.receipt.identity.id db),
        )
        (ok_injective m))
