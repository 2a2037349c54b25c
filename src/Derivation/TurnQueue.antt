-- ===== src/Derivation/TurnQueue.antt =====
-- turnAccums and turnOrder of internal/harness/derivation.go against a bounded queue of turn ids.
use llm_bridge_server.Prelude.{
  suc, ◌≤◌, ◌<◌, ◌≡◌, refl, ◌∙◌, sym, String, Bool, true, false, ◌||◌, ◌&&◌, not, List, [], ◌∷◌,
  ◌++◌, Option, none, some, arith, lookup, lookup-insert, lookup-delete, contains, length,
  length-append, ltb, is_empty, ◌=s◌, if◌then◌else◌, Bool-cases, inl, inr, Option-cases, ap,
}
use llm_bridge_server.Msg.Event.{Event}
use llm_bridge_server.Msg.Derived.{Derived}
use llm_bridge_server.Msg.Api.{Clock}
use llm_bridge_server.Derivation.State.{Turns}
use llm_bridge_server.Derivation.Turns.{
  max_inflight_turns, is_terminator, evict, new_accumulator, open_turn, fold_call, fold_into,
  record_for_turn, remove_first, close_turn,
}

abbrev pub is_some {ℓ} : {A : Type ℓ} → Option A → Bool
is_some none = false
is_some (some a) = true

-- The ids differ from one another.
abbrev pub Distinct : List String → Type 0
Distinct [] = Unit
Distinct (k ∷ s) = (contains k s ≡ false) × Distinct s

-- The order names each open turn once, and no more of them than the cap.
pub record IsQueue (t : Turns) : Type 0 where
  pub same : (id : String) → is_some (lookup id t.turn_accums) ≡ contains id t.turn_order
  pub distinct : Distinct t.turn_order
  pub bounded : length t.turn_order ≤ max_inflight_turns

contains-append :
    (id k : String) (s : List String) → contains id (s ++ k ∷ []) ≡ (contains id s || k =s id)
unfolding contains
contains-append id k [] = ground arith
contains-append id k (j ∷ s) = ground (arith, contains-append id k s)

Distinct-append :
    (k : String) (s : List String) → contains k s ≡ false → Distinct s → Distinct (s ++ k ∷ [])
unfolding contains
Distinct-append k [] h u = (refl, tt)
Distinct-append k (j ∷ s) h u =
    (ground (arith, contains-append j k s), Distinct-append k s (ground arith) u.1)

contains-remove :
    (id j : String) (s : List String)
    → Distinct s
    → contains j (remove_first id s) ≡ (not (id =s j) && contains j s)
unfolding contains remove_first
contains-remove id j [] u = ground arith
contains-remove id j (k ∷ s) u = ground (arith, contains-remove id j s u.1)

Distinct-remove : (id : String) (s : List String) → Distinct s → Distinct (remove_first id s)
unfolding remove_first
Distinct-remove id [] u = tt
Distinct-remove id (k ∷ s) u = elim (Bool-cases (k =s id)) [
  | inl e ↦ rw e u.1
  | inr e ↦ rw e (ground (arith, contains-remove id k s u.1), Distinct-remove id s u.1)
]

length-remove : (id : String) (s : List String) → length (remove_first id s) ≤ length s
unfolding remove_first
length-remove id [] = omega arith
length-remove id (k ∷ s) = ground (arith, length-remove id s)

-- The specification: the oldest turn leaves a queue that passes the cap.
unfoldable pub bounded_queue : List String → List String
bounded_queue [] = []
bounded_queue (k ∷ s) = if ltb max_inflight_turns (suc (length s)) then s else k ∷ s

-- What an event makes of the queue of open turns.
unfoldable pub queue_after : String → Bool → List String → List String
unfolding bounded_queue remove_first
queue_after id terminates order =
    if is_empty id
    then order
    else if terminates
    then remove_first id order
    else if contains id order
    then order
    else bounded_queue (order ++ id ∷ [])

-- Both halves of derive() on the accumulators.
unfoldable pub turn_step : Clock → Event → Turns → Turns × Option Derived
turn_step now ev t =
    let t' = record_for_turn now ev t in
    if is_terminator ev.body then close_turn now ev t' else (t', none)

fold_into_order : (ev : Event) (t : Turns) → (fold_into ev t).turn_order ≡ t.turn_order
unfolding fold_into
fold_into_order ev t = ground arith

fold_into_keys :
    (ev : Event) (t : Turns) (id : String)
    → is_some (lookup id (fold_into ev t).turn_accums) ≡ is_some (lookup id t.turn_accums)
unfolding fold_into
fold_into_keys ev t id = elim (Option-cases (lookup ev.wire.turn_id t.turn_accums)) [
  | inl e ↦ rw (e, fold_into) refl
  | inr (acc, e) ↦
      rw (e, fold_into)
        (ground (arith, lookup-insert ev.wire.turn_id id (fold_call ev.body acc) t.turn_accums))
]

fold_into-IsQueue : (ev : Event) (t : Turns) → IsQueue t → IsQueue (fold_into ev t)
fold_into-IsQueue ev t q =
    let order = fold_into_order ev t in
    record {
      same = λ id. fold_into_keys ev t id ∙ q.same id ∙ ap (contains id) (sym order);
      distinct = rw order q.distinct;
      bounded = rw order q.bounded;
    }

open_turn_order :
    (now : Clock) (ev : Event) (t : Turns)
    → (open_turn now ev t).turn_order ≡ bounded_queue (t.turn_order ++ ev.wire.turn_id ∷ [])
unfolding open_turn bounded_queue
open_turn_order now ev t = ground arith

-- An id is open where the order names it: the first field of `IsQueue`.
abbrev Same : Turns → Type 0
Same t = (id : String) → is_some (lookup id t.turn_accums) ≡ contains id t.turn_order

evict-IsQueue :
    (t : Turns) (order : List String)
    → t.turn_order ≡ order
    → Same t
    → Distinct order
    → length order ≤ suc max_inflight_turns
    → 0 < length order
    → IsQueue (evict t order)
unfolding evict
evict-IsQueue t [] e same u b p = absurd (omega arith)
evict-IsQueue t (k ∷ s) e same u b p = record {
  same = λ id.
      unfold contains in
      ground (arith, lookup-delete k id t.turn_accums, same id ∙ ap (contains id) e, u.0);
  distinct = u.1;
  bounded = omega arith;
}

capped-IsQueue :
    (t : Turns)
    → Same t
    → Distinct t.turn_order
    → length t.turn_order ≤ suc max_inflight_turns
    → IsQueue (if ltb max_inflight_turns (length t.turn_order) then evict t t.turn_order else t)
capped-IsQueue t same u b = elim (Bool-cases (ltb max_inflight_turns (length t.turn_order))) [
  | inl e ↦ rw e (evict-IsQueue t t.turn_order refl same u b (ground arith))
  | inr e ↦ rw e (record { same = same; distinct = u; bounded = ground arith })
]

open_turn-IsQueue :
    (now : Clock) (ev : Event) (t : Turns)
    → contains ev.wire.turn_id t.turn_order ≡ false
    → IsQueue t
    → IsQueue (open_turn now ev t)
unfolding open_turn
open_turn-IsQueue now ev t new q =
    capped-IsQueue _
      (λ id. ground (
        arith,
        lookup-insert ev.wire.turn_id id (new_accumulator now ev) t.turn_accums,
        q.same id,
        contains-append id ev.wire.turn_id t.turn_order,
      ))
      (Distinct-append ev.wire.turn_id t.turn_order new q.distinct)
      (omega (arith, length-append t.turn_order (ev.wire.turn_id ∷ []), q.bounded))

closed-IsQueue :
    (now : Clock) (ev : Event) (t : Turns) → IsQueue t → IsQueue (close_turn now ev t).0
unfolding close_turn
closed-IsQueue now ev t q = elim (Bool-cases (is_empty ev.wire.turn_id)) [
  | inl e ↦ rw e q
  | inr e ↦ rw e (elim (Option-cases (lookup ev.wire.turn_id t.turn_accums)) [
    | inl n ↦ rw n q
    | inr (acc, n) ↦ rw n (record {
      same = λ id. ground (
        arith,
        lookup-delete ev.wire.turn_id id t.turn_accums,
        q.same id,
        contains-remove ev.wire.turn_id id t.turn_order q.distinct,
      );
      distinct = Distinct-remove ev.wire.turn_id t.turn_order q.distinct;
      bounded = omega (arith, length-remove ev.wire.turn_id t.turn_order, q.bounded);
    })
  ])
]

record-IsQueue :
    (now : Clock) (ev : Event) (t : Turns) → IsQueue t → IsQueue (record_for_turn now ev t)
unfolding record_for_turn
record-IsQueue now ev t q = elim (Bool-cases (is_empty ev.wire.turn_id)) [
  | inl e ↦ rw e q
  | inr e ↦ rw e (elim (Option-cases (lookup ev.wire.turn_id t.turn_accums)) [
    | inr (acc, n) ↦ rw n (fold_into-IsQueue ev t q)
    | inl n ↦ rw n (elim (Bool-cases (is_terminator ev.body)) [
      | inl y ↦ rw y q
      | inr y ↦ rw y (
          fold_into-IsQueue ev (open_turn now ev t)
            (open_turn-IsQueue now ev t (sym (q.same ev.wire.turn_id) ∙ ap is_some n) q))
    ])
  ])
]

pub turn_step-IsQueue :
    (now : Clock) (ev : Event) (t : Turns) → IsQueue t → IsQueue (turn_step now ev t).0
unfolding turn_step
turn_step-IsQueue now ev t q = elim (Bool-cases (is_terminator ev.body)) [
  | inl y ↦ rw y (closed-IsQueue now ev (record_for_turn now ev t) (record-IsQueue now ev t q))
  | inr y ↦ rw y (record-IsQueue now ev t q)
]

remove_first_absent :
    (id : String) (s : List String) → contains id s ≡ false → remove_first id s ≡ s
unfolding contains remove_first
remove_first_absent id [] h = refl
remove_first_absent id (k ∷ s) h = ground (arith, remove_first_absent id s)

record_order :
    (now : Clock) (ev : Event) (t : Turns)
    → IsQueue t
    → is_terminator ev.body ≡ false
    → (record_for_turn now ev t).turn_order ≡ queue_after ev.wire.turn_id false t.turn_order
unfolding record_for_turn queue_after
record_order now ev t q y = ground (
  arith,
  q.same ev.wire.turn_id,
  fold_into_order ev t,
  fold_into_order ev (open_turn now ev t),
  open_turn_order now ev t,
)

-- A terminator finds the accumulators with the order and the keys as they were.
record_at_end :
    (now : Clock) (ev : Event) (t : Turns)
    → is_terminator ev.body ≡ true
    → ((record_for_turn now ev t).turn_order ≡ t.turn_order)
      × (is_some (lookup ev.wire.turn_id (record_for_turn now ev t).turn_accums)
          ≡ is_some (lookup ev.wire.turn_id t.turn_accums))
unfolding record_for_turn
record_at_end now ev t y =
    (ground (arith, fold_into_order ev t), ground (arith, fold_into_keys ev t ev.wire.turn_id))

close_order :
    (now : Clock) (ev : Event) (t : Turns)
    → is_some (lookup ev.wire.turn_id t.turn_accums) ≡ contains ev.wire.turn_id t.turn_order
    → ((close_turn now ev t).0.turn_order ≡ queue_after ev.wire.turn_id true t.turn_order)
      × (is_some (close_turn now ev t).1
          ≡ (not (is_empty ev.wire.turn_id) && contains ev.wire.turn_id t.turn_order))
unfolding close_turn queue_after
close_order now ev t same =
    (ground (arith, remove_first_absent ev.wire.turn_id t.turn_order), ground arith)

-- The accumulators implement the bounded queue, and a turn_complete comes exactly of a terminator
-- whose turn is in it.
pub turn_step-refines :
    (now : Clock) (ev : Event) (t : Turns)
    → IsQueue t
    → ((turn_step now ev t).0.turn_order
        ≡ queue_after ev.wire.turn_id (is_terminator ev.body) t.turn_order)
      × (is_some (turn_step now ev t).1 ≡ (
          is_terminator ev.body
          && not (is_empty ev.wire.turn_id)
          && contains ev.wire.turn_id t.turn_order))
unfolding turn_step
turn_step-refines now ev t q = elim (Bool-cases (is_terminator ev.body)) [
  | inl y ↦
      let (order, here) = record_at_end now ev t y in
      let closed =
        close_order now ev (record_for_turn now ev t)
          (here ∙ q.same ev.wire.turn_id ∙ ap (contains ev.wire.turn_id) (sym order)) in
      rw y (
        closed.0 ∙ ap (queue_after ev.wire.turn_id true) order,
        closed.1 ∙ ap (λ o. not (is_empty ev.wire.turn_id) && contains ev.wire.turn_id o) order,
      )
  | inr y ↦ rw y (record_order now ev t q y, refl)
]
