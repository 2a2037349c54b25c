-- ===== src/LogQueue/Channel.antt =====
-- One session's queue of internal/harness/logstore_queue.go as a step relation: Open starts it, and
-- producers (Enqueue, Flush), the writer (writeLoop) and Close move it in any order.
use llm_bridge_server.Prelude.{
  ℕ, ◌+◌, ◌-◌, ◌<◌, ◌≡◌, Bool, true, false, ◌||◌, List, [], ◌∷◌, ◌++◌, Option, none, some, length,
}

-- logStoreQueueDepth
abbrev pub queue_depth : ℕ
queue_depth = 256

-- logStoreItem: an event, or the barrier of a Flush.
pub data Item (E : Type 0) : Type 0 where
  event : E → Item E
  barrier : ℕ → Item E

-- sessionLogQueue. `items` is the channel's buffer, its head the next item; `hand` is the item that
-- the writer is at; `unsent` and `undone` count the tickets of `inflight` before and after their
-- send; `panicked` is a send on the closed channel. `accepted` and `handled` record, in order, what
-- was sent and what the writer is through with.
pub record Queue (E : Type 0) : Type 0 where
  pub items : List (Item E)
  pub hand : Option (Item E)
  pub unsent : ℕ
  pub undone : ℕ
  pub registered : Bool
  pub closed : Bool
  pub exited : Bool
  pub panicked : Bool
  pub accepted : List (Item E)
  pub handled : List (Item E)

-- Open, on a session that has no queue.
unfoldable pub open_queue : (E : Type 0) → Queue E
open_queue E = record {
  items = [];
  hand = none;
  unsent = 0;
  undone = 0;
  registered = true;
  closed = false;
  exited = false;
  panicked = false;
  accepted = [];
  handled = [];
}

pub data Step {E : Type 0} (depth : ℕ) : Queue E → Queue E → Type 0 where
  -- acquire: a ticket is taken while the queue is registered.
  acquire : (q : Queue E) → q.registered ≡ true → Step depth q (record q { unsent = q.unsent + 1 })
  -- `sq.items <- item`, which waits for room.
  send :
      (q : Queue E) (x : Item E)
      → 0 < q.unsent
      → length q.items < depth
      → Step depth q (record q {
        items = q.items ++ x ∷ [];
        accepted = q.accepted ++ x ∷ [];
        unsent = q.unsent - 1;
        undone = q.undone + 1;
        panicked = q.panicked || q.closed;
      })
  -- `sq.inflight.Done()`
  finish_send : (q : Queue E) → 0 < q.undone → Step depth q (record q { undone = q.undone - 1 })
  -- writeLoop receives an item.
  receive :
      (q : Queue E) (x : Item E) (rest : List (Item E))
      → q.exited ≡ false
      → q.hand ≡ none
      → q.items ≡ x ∷ rest
      → Step depth q (record q { items = rest; hand = some x })
  -- writeLoop is through with it: pushed or dropped, or its barrier closed.
  handle :
      (q : Queue E) (x : Item E)
      → q.hand ≡ some x
      → Step depth q (record q { hand = none; handled = q.handled ++ x ∷ [] })
  -- Close takes the queue out of the map.
  unregister : (q : Queue E) → q.registered ≡ true → Step depth q (record q { registered = false })
  -- The Close that took it out, once `sq.inflight.Wait()` returns: `close(sq.items)`.
  close :
      (q : Queue E)
      → q.registered ≡ false
      → q.unsent + q.undone ≡ 0
      → q.closed ≡ false
      → Step depth q (record q { closed = true })
  -- The writer leaves its loop: `close(sq.done)`.
  exit :
      (q : Queue E)
      → q.closed ≡ true
      → q.items ≡ []
      → q.hand ≡ none
      → q.exited ≡ false
      → Step depth q (record q { exited = true })

pub data Reach {E : Type 0} (depth : ℕ) (s : Queue E) : Queue E → Type 0 where
  here : Reach depth s s
  next : {q r : Queue E} → Reach depth s q → Step depth q r → Reach depth s r
