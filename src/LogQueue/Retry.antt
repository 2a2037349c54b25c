-- ===== src/LogQueue/Retry.antt =====
-- pushOrDrop and whyNotToRetryLogStorePush of internal/harness/logstore_queue.go. What log-store
-- and the other sessions do is a stream of attempts, one for each call of push.
use llm_bridge_server.Prelude.{
  ℕ, zero, suc, ◌+◌, ◌*◌, Bool, not, ◌==◌, Option, none, some, ltb, if◌then◌else◌,
}

-- An error of push: the status that a logstore.StatusError in its chain carries, and whether a
-- net.Error in its chain is a timeout.
pub record PushError : Type 0 where
  pub status : Option ℕ
  pub timeout : Bool

pub data Why : Type 0 where
  rejected timed_out : Why

-- whyNotToRetryLogStorePush; `none` is its "".
unfoldable pub why_not_to_retry : PushError → Option Why
why_not_to_retry e = elim (e.status) [
  | some code ↦ if ltb code 500 then some Why.rejected else none
  | none ↦ if e.timeout then some Why.timed_out else none
]

-- The retry schedule, in nanoseconds.
abbrev pub retry_base_delay : ℕ
retry_base_delay = 50000000

abbrev pub retry_max_delay : ℕ
retry_max_delay = 2000000000

abbrev pub retry_deadline : ℕ
retry_deadline = 30000000000

-- One call of push: its error, how long it took, what downSince reads after it, and by how much the
-- sleep that follows it is longer than asked.
pub record Attempt : Type 0 where
  pub error : Option PushError
  pub took : ℕ
  pub down_since : ℕ
  pub overslept : ℕ

-- The write to downSince: Swap(0), CompareAndSwap(0, now), or none.
pub data DownWrite : Type 0 where
  cleared marked untouched : DownWrite

pub data Fate : Type 0 where
  pushed : Fate
  refused : Why → Fate
  dropped_while_down dropped_at_deadline : Fate

-- How pushOrDrop ended, after how many attempts.
pub record Outcome : Type 0 where
  pub fate : Fate
  pub attempts : ℕ
  pub down : DownWrite

-- `if delay *= 2; delay > q.retryMaxDelay { delay = q.retryMaxDelay }`
unfoldable pub next_delay : ℕ → ℕ
next_delay delay = if ltb retry_max_delay (delay * 2) then retry_max_delay else delay * 2

-- What one attempt leads to: an outcome, or another attempt.
unfoldable pub judge : Attempt → ℕ → ℕ → ℕ → Option Outcome
unfolding why_not_to_retry
judge a attempt delay elapsed = elim (a.error) [
  | none ↦ some (record { fate = Fate.pushed; attempts = attempt; down = DownWrite.cleared })
  | some e ↦ elim (why_not_to_retry e) [
    | some why ↦
        some (record { fate = Fate.refused why; attempts = attempt; down = DownWrite.untouched })
    | none ↦
        if not (a.down_since == 0)
        then some (record {
          fate = Fate.dropped_while_down;
          attempts = attempt;
          down = DownWrite.untouched;
        })
        else if ltb retry_deadline (elapsed + delay)
        then some (record {
          fate = Fate.dropped_at_deadline;
          attempts = attempt;
          down = DownWrite.marked;
        })
        else none
  ]
]

-- The loop of pushOrDrop, from attempt number `n` at `elapsed` since its start; `none` means that
-- the fuel ran out.
unfoldable pub push_from : ℕ → (ℕ → Attempt) → ℕ → ℕ → ℕ → Option Outcome
unfolding judge next_delay
push_from zero world n delay elapsed = none
push_from (suc fuel) world n delay elapsed =
    let a = world n in
    let now = elapsed + a.took in
    elim (judge a n delay now) [
      | some o ↦ some o
      | none ↦ push_from fuel world (suc n) (next_delay delay) (now + delay + a.overslept)
    ]

-- pushOrDrop. The delays of twenty rounds add up to more than the deadline.
unfoldable pub push_or_drop : (ℕ → Attempt) → Option Outcome
unfolding push_from
push_or_drop world = push_from 20 world 1 retry_base_delay 0
