-- ===== src/Tests/LogQueueRuns.antt =====
-- Runs of internal/harness/logstore_queue.go on the model, and the theorems at them.
use llm_bridge_server.Prelude.{
  ℕ, ◌≤◌, ◌≡◌, ◌⊎◌, refl, true, false, ◌==◌, [], ◌∷◌, none, some, arith, if◌then◌else◌,
}
use llm_bridge_server.LogQueue.Retry.{
  Attempt, DownWrite, Fate, Outcome, why_not_to_retry, judge, next_delay, push_from, push_or_drop,
}
use llm_bridge_server.LogQueue.Attempts.{
  Settles, push_or_drop-Settles, copies, push_or_drop-stores_once,
}
use llm_bridge_server.LogQueue.Channel.{
  Item, Queue, open_queue, queue_depth, acquire, send, finish_send, unregister, close, receive,
  handle, Reach, here, next,
}
use llm_bridge_server.LogQueue.Order.{IsSound, Reach-IsSound}
use llm_bridge_server.LogQueue.Drain.{Writes, unmoved, moved, closed-drains}

abbrev refused_connection : Attempt
refused_connection = record {
  error = some (record { status = none; timeout = false });
  took = 1000000;
  down_since = 0;
  overslept = 0;
}

abbrev stored : Attempt
stored = record { error = none; took = 2000000; down_since = 0; overslept = 0 }

-- log-store restarts: two refused connections, then it answers.
abbrev restart : ℕ → Attempt
restart n = if n == 3 then stored else refused_connection

abbrev third_attempt : Outcome
third_attempt = record { fate = Fate.pushed; attempts = 3; down = DownWrite.cleared }

restart_is_survived : push_or_drop restart ≡ some third_attempt
unfolding push_or_drop push_from judge next_delay why_not_to_retry
restart_is_survived = refl

-- log-store stays away: the twenty attempts end at the deadline and mark it down.
abbrev never_back : ℕ → Attempt
never_back n = refused_connection

outage_is_marked :
    push_or_drop never_back
    ≡ some (record { fate = Fate.dropped_at_deadline; attempts = 20; down = DownWrite.marked })
unfolding push_or_drop push_from judge next_delay why_not_to_retry
outage_is_marked = refl

push_or_drop-Settles_example :
    (o : Outcome) × (push_or_drop restart ≡ some o) × Settles restart 1 19 o
push_or_drop-Settles_example = push_or_drop-Settles restart

push_or_drop-stores_once_example : copies restart 1 third_attempt.attempts ≤ 1
push_or_drop-stores_once_example =
    push_or_drop-stores_once restart third_attempt restart_is_survived

-- A producer sends an event and Close runs.
abbrev one_sent : Queue ℕ
one_sent = record (open_queue ℕ) { items = Item.event 7 ∷ []; accepted = Item.event 7 ∷ [] }

abbrev one_sent_closed : Queue ℕ
one_sent_closed = record one_sent { registered = false; closed = true }

closed_run : Reach queue_depth (open_queue ℕ) one_sent_closed
unfolding open_queue
closed_run =
    let q0 = open_queue ℕ in
    let q1 : Queue ℕ = record q0 { unsent = 1 } in
    let q2 : Queue ℕ = record one_sent { undone = 1 } in
    let gone : Queue ℕ = record one_sent { registered = false } in
    next
      (next
        (next
          (next (next here (acquire q0 refl)) (send q1 (Item.event 7) (omega arith) (omega arith)))
          (finish_send q2 (omega arith)))
        (unregister one_sent refl))
      (close gone refl refl refl)

Reach-IsSound_example : IsSound queue_depth one_sent_closed
Reach-IsSound_example = Reach-IsSound queue_depth closed_run

-- The writer receives the event and is through with it.
abbrev one_handled : Queue ℕ
one_handled = record one_sent_closed { items = []; handled = Item.event 7 ∷ [] }

two_writes : Writes queue_depth one_sent_closed 2 one_handled
unfolding open_queue
two_writes =
    let held : Queue ℕ = record one_sent_closed { items = []; hand = some (Item.event 7) } in
    moved (moved unmoved (receive one_sent_closed (Item.event 7) [] refl refl refl) tt)
      (handle held (Item.event 7) refl) tt

closed-drains_example :
    (2 ≤ 4)
    × (((one_handled.exited ≡ true) × (one_handled.handled ≡ one_sent_closed.accepted))
        ⊎ ((s : Queue ℕ) × Writes queue_depth one_handled 1 s))
closed-drains_example = closed-drains queue_depth closed_run refl 2 one_handled two_writes
