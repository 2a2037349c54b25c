-- ===== src/LogQueue/Order.antt =====
-- The order, the bound and the end of the queue of internal/harness/logstore_queue.go.
use mathlib.Core.List.{append_assoc}
use llm_bridge_server.Prelude.{
  ℕ, ◌+◌, ◌<◌, ◌≤◌, ◌≡◌, refl, ◌∙◌, sym, ap, true, false, List, [], ◌∷◌, ◌++◌, Option, none, some,
  length, length-append, arith, Bool-cases, inl, inr,
}
use llm_bridge_server.LogQueue.Channel.{
  Item, Queue, open_queue, Step, acquire, send, finish_send, receive, handle, unregister, close,
  exit, Reach, here, next,
}

abbrev pub in_hand : {E : Type 0} → Option (Item E) → List (Item E)
in_hand none = []
in_hand (some x) = x ∷ []

-- What was sent is what was handled, then the writer's item, then the buffer, in one order; the
-- buffer is within its depth; a closed channel has no producer left and no send has met it closed;
-- the writer is gone only when all was handled.
pub record IsSound {E : Type 0} (depth : ℕ) (q : Queue E) : Type 0 where
  pub order : q.accepted ≡ q.handled ++ (in_hand q.hand ++ q.items)
  pub bounded : length q.items ≤ depth
  pub sealed : q.closed ≡ true → (q.registered ≡ false) × (q.unsent + q.undone ≡ 0)
  pub calm : q.panicked ≡ false
  pub finished : q.exited ≡ true → (q.closed ≡ true) × (q.items ≡ []) × (q.hand ≡ none)

not_closed :
    {E : Type 0} (depth : ℕ) (q : Queue E) → IsSound depth q → 0 < q.unsent → q.closed ≡ false
not_closed depth q h p = elim (Bool-cases q.closed) [
  | inl c ↦ absurd (omega (arith, (h.sealed c).1))
  | inr c ↦ c
]

send_order :
    {E : Type 0} (handled hand items : List (Item E)) (x : Item E)
    → (handled ++ (hand ++ items)) ++ x ∷ [] ≡ handled ++ (hand ++ (items ++ x ∷ []))
send_order handled hand items x = simp append_assoc

Step-IsSound :
    {E : Type 0} (depth : ℕ) {q r : Queue E} → Step depth q r → IsSound depth q → IsSound depth r
Step-IsSound depth (acquire q reg) h = record {
  order = h.order;
  bounded = h.bounded;
  sealed = λ c. absurd (cc (reg, (h.sealed c).0));
  calm = h.calm;
  finished = h.finished;
}
Step-IsSound depth (send q x p room) h =
    let open_channel = not_closed depth q h p in
    record {
      order = ap (λ l. l ++ x ∷ []) h.order ∙ send_order q.handled (in_hand q.hand) q.items x;
      bounded = omega (arith, length-append q.items (x ∷ []));
      sealed = λ c. absurd (cc (c, open_channel));
      calm = rw (h.calm, open_channel);
      finished = λ y. absurd (cc ((h.finished y).0, open_channel));
    }
Step-IsSound depth (finish_send q p) h = record {
  order = h.order;
  bounded = h.bounded;
  sealed = λ c. ((h.sealed c).0, omega (arith, (h.sealed c).1));
  calm = h.calm;
  finished = h.finished;
}
Step-IsSound depth (receive q x rest e none_held front) h = record {
  order = h.order ∙ rw (none_held, front) refl;
  bounded = omega (arith, ap length front, h.bounded);
  sealed = h.sealed;
  calm = h.calm;
  finished = λ y. absurd (cc (e, y));
}
Step-IsSound depth (handle q x held) h = record {
  order = h.order ∙ rw held (sym (append_assoc q.handled (x ∷ []) q.items));
  bounded = h.bounded;
  sealed = h.sealed;
  calm = h.calm;
  finished = λ y. absurd (cc ((h.finished y).2, held));
}
Step-IsSound depth (unregister q reg) h = record {
  order = h.order;
  bounded = h.bounded;
  sealed = λ c. (refl, (h.sealed c).1);
  calm = h.calm;
  finished = h.finished;
}
Step-IsSound depth (close q unreg idle c) h = record {
  order = h.order;
  bounded = h.bounded;
  sealed = λ y. (unreg, idle);
  calm = h.calm;
  finished = λ e. (refl, (h.finished e).1, (h.finished e).2);
}
Step-IsSound depth (exit q c empty none_held stays) h = record {
  order = h.order;
  bounded = h.bounded;
  sealed = h.sealed;
  calm = h.calm;
  finished = λ e. (c, empty, none_held);
}

-- Whatever producers, the writer and Close do, in any order, after Open: the items handled, then the
-- writer's, then those in the buffer are the items sent, in the order of their sends; the buffer
-- never passes its depth; no send meets the closed channel; and the writer is gone only once the
-- channel is closed and all was handled.
pub Reach-IsSound :
    {E : Type 0} (depth : ℕ) {q : Queue E} → Reach depth (open_queue E) q → IsSound depth q
unfolding open_queue
Reach-IsSound depth here = record {
  order = refl;
  bounded = omega arith;
  sealed = λ c. absurd (cc c);
  calm = refl;
  finished = λ e. absurd (cc e);
}
Reach-IsSound depth (next r st) = Step-IsSound depth st (Reach-IsSound depth r)
