-- ===== src/LogQueue/Drain.antt =====
-- How the writer of internal/harness/logstore_queue.go drains a closed channel.
use mathlib.Core.List.{append-nil}
use llm_bridge_server.Prelude.{
  ℕ, suc, ◌+◌, ◌*◌, ◌≤◌, ◌≡◌, ◌⊎◌, refl, ◌∙◌, sym, true, List, [], ◌∷◌, Option, none, some, length,
  arith, Bool-cases, Option-cases, inl, inr, if◌then◌else◌,
}
use llm_bridge_server.LogQueue.Channel.{
  Item, Queue, open_queue, Step, acquire, send, finish_send, receive, handle, unregister, close,
  exit, Reach, next,
}
use llm_bridge_server.LogQueue.Order.{IsSound, in_hand, Reach-IsSound}

-- The steps of writeLoop.
abbrev pub IsOfWriter : {E : Type 0} {depth : ℕ} {q r : Queue E} → Step depth q r → Type 0
IsOfWriter (receive q x rest e none_held front) = Unit
IsOfWriter (handle q x held) = Unit
IsOfWriter (exit q c empty none_held stays) = Unit
IsOfWriter _ = ⊥

-- A run of the writer alone, by its number of steps.
pub data Writes {E : Type 0} (depth : ℕ) (q : Queue E) : ℕ → Queue E → Type 0 where
  unmoved : Writes depth q 0 q
  moved :
      {n : ℕ} {r s : Queue E}
      → Writes depth q n r
      → (st : Step depth r s) → IsOfWriter st
      → Writes depth q (suc n) s

-- The steps that the writer has left: two for each item in the buffer, one for the item in hand, one
-- to leave.
abbrev steps_left : {E : Type 0} → Queue E → ℕ
steps_left q = 2 * length q.items + length (in_hand q.hand) + (if q.exited then 0 else 1)

-- A step of the writer takes one of those, and leaves what was sent and whether the channel is closed.
one_fewer :
    {E : Type 0} {depth : ℕ} {r s : Queue E} (st : Step depth r s)
    → IsOfWriter st
    → (suc (steps_left s) ≡ steps_left r) × (s.accepted ≡ r.accepted) × (s.closed ≡ r.closed)
one_fewer (receive q x rest e none_held front) w = (rw (none_held, front) (omega arith), refl, refl)
one_fewer (handle q x held) w = (rw held (omega arith), refl, refl)
one_fewer (exit q c empty none_held stays) w = (rw (empty, none_held, stays) refl, refl, refl)
one_fewer (acquire q reg) w = absurd w
one_fewer (send q x p room) w = absurd w
one_fewer (finish_send q p) w = absurd w
one_fewer (unregister q reg) w = absurd w
one_fewer (close q unreg idle c) w = absurd w

writer_run :
    {E : Type 0} {depth : ℕ} {q : Queue E} {n : ℕ} {r : Queue E}
    → Writes depth q n r
    → (n + steps_left r ≡ steps_left q) × (r.accepted ≡ q.accepted) × (r.closed ≡ q.closed)
writer_run unmoved = (omega arith, refl, refl)
writer_run (moved run st w) =
    let (left, accepted, closed) = writer_run run in
    let (fewer, same, still) = one_fewer st w in
    (omega (arith, left, fewer), same ∙ accepted, still ∙ closed)

Writes-Reach :
    {E : Type 0} {depth : ℕ} {s q : Queue E} {n : ℕ} {r : Queue E}
    → Reach depth s q
    → Writes depth q n r
    → Reach depth s r
Writes-Reach start unmoved = start
Writes-Reach start (moved run st w) = next (Writes-Reach start run) st

buffer_cases :
    {E : Type 0} (l : List (Item E))
    → (l ≡ []) ⊎ ((x : Item E) × (rest : List (Item E)) × (l ≡ x ∷ rest))
buffer_cases [] = inl refl
buffer_cases (x ∷ rest) = inr (x, rest, refl)

-- On a closed channel the writer is either gone, with all handled, or has a step to take.
writer_goes_on :
    {E : Type 0} (depth : ℕ) (r : Queue E)
    → IsSound depth r
    → r.closed ≡ true
    → ((r.exited ≡ true) × (r.handled ≡ r.accepted)) ⊎ ((s : Queue E) × Writes depth r 1 s)
writer_goes_on depth r h c = elim (Bool-cases r.exited) [
  | inl gone ↦
      let (closed, empty, none_held) = h.finished gone in
      let all : r.accepted ≡ r.handled = h.order ∙ rw (empty, none_held) (append-nil r.handled) in
      inl (gone, sym all)
  | inr stays ↦ elim (Option-cases r.hand) [
    | inr (x, held) ↦ inr (_, moved unmoved (handle r x held) tt)
    | inl free ↦ elim (buffer_cases r.items) [
      | inl empty ↦ inr (_, moved unmoved (exit r c empty free stays) tt)
      | inr (x, rest, front) ↦ inr (_, moved unmoved (receive r x rest stays free front) tt)
    ]
  ]
]

in_hand-length : {E : Type 0} (hand : Option (Item E)) → length (in_hand hand) ≤ 1
in_hand-length none = omega arith
in_hand-length (some x) = omega arith

-- Once the channel is closed the writer alone drains it, and cannot do otherwise: every run of its own
-- steps takes at most two for each item that was in the buffer and two more, and it stops nowhere but
-- where the writer is gone and has handled all that was sent, in the order of the sends.
pub closed-drains :
    {E : Type 0} (depth : ℕ) {q : Queue E}
    → Reach depth (open_queue E) q
    → q.closed ≡ true
    → (n : ℕ) (r : Queue E) → Writes depth q n r
    → (n ≤ 2 * length q.items + 2)
      × (((r.exited ≡ true) × (r.handled ≡ q.accepted)) ⊎ ((s : Queue E) × Writes depth r 1 s))
closed-drains depth {q} start c n r run =
    let (left, accepted, closed) = writer_run run in
    let at_most : (if q.exited then 0 else 1) ≤ 1 = ground arith in
    (
      omega (arith, left, at_most, in_hand-length q.hand),
      elim (writer_goes_on depth r (Reach-IsSound depth (Writes-Reach start run)) (closed ∙ c)) [
        | inl (gone, all) ↦ inl (gone, all ∙ accepted)
        | inr more ↦ inr more
      ],
    )
