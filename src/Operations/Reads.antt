-- ===== src/Operations/Reads.antt =====
-- The reads of internal/operationstore/store.go: Get, List and EventsAfter.
use llm_bridge_server.Prelude.{
  ℕ, String, Bool, ◌&&◌, ◌||◌, ◌==◌, ltb, List, [], ◌∷◌, map, lookup, take, ◌=s◌, is_empty,
  if◌then◌else◌, Result, ◌>>=◌, or_else,
}
use llm_bridge_server.Operations.Types.{
  OperationState, ◌=os◌, Receipt, Operation, Row, Event, Database, StoreError,
}
use llm_bridge_server.Operations.Store.{earlier}

-- Get
unfoldable pub get : String → Database → Result StoreError Operation
get id db = do row ← or_else (lookup id db.rows) StoreError.not_found; Result.ok row.operation

-- Filter; a zero field does not narrow.
pub record Filter : Type 0 where
  pub organization_id : String
  pub principal_id : String
  pub parent_operation_id : String
  pub operation_type : String
  pub state : OperationState
  pub created_after : ℕ
  pub created_before : ℕ
  pub limit : ℕ

abbrev pub narrows : String → String → Bool
narrows wanted found = is_empty wanted || found =s wanted

-- List's conditions on one row.
unfoldable pub matches_filter : Filter → Row → Bool
matches_filter f r =
    narrows f.organization_id r.key.organization_id
    && narrows f.principal_id r.key.principal_id
    && narrows f.parent_operation_id r.parent_operation_id
    && narrows f.operation_type r.key.operation_type
    && (f.state =os OperationState.unset || r.state =os f.state)
    && (f.created_after == 0 || ltb f.created_after r.created_at)
    && (f.created_before == 0 || ltb r.created_at f.created_before)

unfoldable pub matching : Filter → List (String × Row) → List Row
unfolding matches_filter
matching f [] = []
matching f ((k, r) ∷ rows) =
    let rest = matching f rows in if matches_filter f r then r ∷ rest else rest

-- ORDER BY created_at DESC, id DESC
abbrev pub later_first : (String → String → Bool) → Row → Row → Bool
later_first id_before a b = earlier id_before b a

unfoldable pub place_by : (Row → Row → Bool) → Row → List Row → List Row
place_by first r [] = r ∷ []
place_by first r (s ∷ rows) = if first s r then s ∷ place_by first r rows else r ∷ s ∷ rows

unfoldable pub sort_by : (Row → Row → Bool) → List Row → List Row
unfolding place_by
sort_by first [] = []
sort_by first (r ∷ rows) = place_by first r (sort_by first rows)

-- List, on a positive limit.
unfoldable pub list_operations :
    (String → String → Bool) → Filter → Database → Result StoreError (List Receipt)
unfolding matching sort_by
list_operations id_before f db =
    if f.limit == 0
    then Result.err (StoreError.refused "limit must be positive")
    else Result.ok (
        map (λ (r : Row). r.operation.receipt)
          (take f.limit (sort_by (later_first id_before) (matching f db.rows))))

-- EventsAfter's rows, then ORDER BY sequence.
unfoldable pub events_above : String → ℕ → List Event → List Event
events_above id after [] = []
events_above id after (e ∷ es) =
    let rest = events_above id after es in
    if e.operation_id =s id && ltb after e.sequence then e ∷ rest else rest

unfoldable pub place_event : Event → List Event → List Event
place_event e [] = e ∷ []
place_event e (f ∷ es) = if ltb f.sequence e.sequence then f ∷ place_event e es else e ∷ f ∷ es

unfoldable pub order_events : List Event → List Event
unfolding place_event
order_events [] = []
order_events (e ∷ es) = place_event e (order_events es)

-- EventsAfter
unfoldable pub events_after : String → ℕ → Database → List Event
unfolding events_above order_events
events_after id after db = order_events (events_above id after db.events)
