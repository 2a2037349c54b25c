-- ===== src/Operations/Resume.antt =====
-- EventsAfter of internal/operationstore/store.go for a reader that resumes from a revision.
use mathlib.Core.Path.{subst}
use llm_bridge_server.Prelude.{
  ℕ, zero, suc, ◌+◌, ◌≤◌, ◌<◌, ◌≡◌, refl, ◌∙◌, sym, ap, String, Bool, true, false, ltb, List, [],
  ◌∷◌, ◌++◌, map, some, lookup, if◌then◌else◌, drop, arith, Bool-cases, inl, inr,
}
use llm_bridge_server.Operations.Types.{OperationApi, Row, Event}
use llm_bridge_server.Operations.Reads.{events_above, place_event, order_events, events_after}
use llm_bridge_server.Operations.Run.{Call, run_calls, empty_database, AllAllowed}
use llm_bridge_server.Operations.Log.{sequences, counted, AnyChange, run_calls-IsLogged}

-- The numbers above `k`.
above : ℕ → List ℕ → List ℕ
above k [] = []
above k (n ∷ ns) = let rest = above k ns in if ltb k n then n ∷ rest else rest

-- Each number is above those before it, and above `k`.
abbrev Rising : ℕ → List ℕ → Type 0
Rising k [] = Unit {0}
Rising k (n ∷ ns) = (k < n) × Rising n ns

abbrev numbers : List Event → List ℕ
numbers = map (λ (e : Event). e.sequence)

numbers-events_above :
    (id : String) (k : ℕ) (es : List Event)
    → numbers (events_above id k es) ≡ above k (sequences id es)
unfolding events_above above sequences
numbers-events_above id k [] = refl
numbers-events_above id k (e ∷ es) = ground (arith, numbers-events_above id k es)

Rising-mono : (j k : ℕ) (ns : List ℕ) → j ≤ k → Rising k ns → Rising j ns
Rising-mono j k [] h r = tt
Rising-mono j k (n ∷ ns) h r = (omega arith, r.1)

above-Rising : (b k : ℕ) (ns : List ℕ) → Rising b ns → Rising b (above k ns)
unfolding above
above-Rising b k [] r = tt
above-Rising b k (n ∷ ns) r = elim (Bool-cases (ltb k n)) [
  | inl y ↦ rw y (r.0, above-Rising n k ns r.1)
  | inr y ↦ rw y (Rising-mono b n (above k ns) (omega arith) (above-Rising n k ns r.1))
]

-- Events that rise are in order.
place_front :
    (e : Event) (es : List Event) → Rising e.sequence (numbers es) → place_event e es ≡ e ∷ es
unfolding place_event
place_front e [] r = refl
place_front e (f ∷ es) r =
    let first : ltb f.sequence e.sequence ≡ false = ground arith in rw first refl

order-Rising : (b : ℕ) (es : List Event) → Rising b (numbers es) → order_events es ≡ es
unfolding order_events
order-Rising b [] r = refl
order-Rising b (e ∷ es) r =
    ap (place_event e) (order-Rising e.sequence es r.1) ∙ place_front e es r.1

-- counted from another start: b + 1, …, b + n.
counted_from : ℕ → ℕ → List ℕ
counted_from b zero = []
counted_from b (suc n) = suc b ∷ counted_from (suc b) n

counted_from-snoc : (b n : ℕ) → counted_from b (suc n) ≡ counted_from b n ++ suc (b + n) ∷ []
unfolding counted_from
counted_from-snoc b zero = let same : b + 0 ≡ b = omega arith in rw same refl
counted_from-snoc b (suc n) =
    let same : b + suc n ≡ suc b + n = omega arith in
    rw same (ap (λ l. suc b ∷ l) (counted_from-snoc (suc b) n))

counted-from : (n : ℕ) → counted n ≡ counted_from 0 n
unfolding counted counted_from
counted-from zero = refl
counted-from (suc n) =
    let same : 0 + n ≡ n = omega arith in
    ap (λ l. l ++ suc n ∷ []) (counted-from n)
    ∙ ap (λ k. counted_from 0 n ++ suc k ∷ []) (sym same)
    ∙ sym (counted_from-snoc 0 n)

counted_from-Rising : (b n : ℕ) → Rising b (counted_from b n)
unfolding counted_from
counted_from-Rising b zero = tt
counted_from-Rising b (suc n) = (omega arith, counted_from-Rising (suc b) n)

above_none : (k b n : ℕ) → k ≤ b → above k (counted_from b n) ≡ counted_from b n
unfolding above counted_from
above_none k b zero h = refl
above_none k b (suc n) h =
    let y : ltb k (suc b) ≡ true = ground arith in
    rw y (ap (λ l. suc b ∷ l) (above_none k (suc b) n (omega arith)))

above-drop : (k b n : ℕ) → above (b + k) (counted_from b n) ≡ drop k (counted_from b n)
unfolding above counted_from
above-drop zero b n = above_none (b + 0) b n (omega arith)
above-drop (suc k) b zero = refl
above-drop (suc k) b (suc n) =
    let y : ltb (b + suc k) (suc b) ≡ false = ground arith in
    let same : b + suc k ≡ suc b + k = omega arith in
    rw y (ap (λ m. above m (counted_from (suc b) n)) same ∙ above-drop k (suc b) n)

-- A reader that has read up to revision `after` is given the events numbered `after + 1` up to the
-- operation's revision, in order, with none missing and none twice.
pub events_after-resumes :
    (api : OperationApi) (id_before : String → String → Bool) (calls : List Call) (id : String)
    (after : ℕ) (r : Row)
    → AllAllowed api id_before AnyChange calls
    → lookup id (run_calls api id_before calls empty_database).rows ≡ some r
    → map
        (λ (e : Event). e.sequence)
        (events_after id after (run_calls api id_before calls empty_database))
      ≡ drop after (counted r.operation.receipt.revision)
unfolding events_after
events_after-resumes api id_before calls id after r h found =
    let db = run_calls api id_before calls empty_database in
    let n = r.operation.receipt.revision in
    let numbered : sequences id db.events ≡ counted_from 0 n =
      (run_calls-IsLogged api id_before calls h).numbered id r found ∙ counted-from n in
    let listed : numbers (events_above id after db.events) ≡ above after (counted_from 0 n) =
      numbers-events_above id after db.events ∙ ap (above after) numbered in
    let rising : Rising 0 (numbers (events_above id after db.events)) =
      subst (Rising 0) (sym listed)
        (above-Rising 0 after (counted_from 0 n) (counted_from-Rising 0 n)) in
    let start : 0 + after ≡ after = omega arith in
    ap numbers (order-Rising 0 (events_above id after db.events) rising)
    ∙ listed
    ∙ ap (λ k. above k (counted_from 0 n)) (sym start)
    ∙ above-drop after 0 n
    ∙ ap (drop after) (sym (counted-from n))
