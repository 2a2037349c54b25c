-- ===== src/LogQueue/Fates.antt =====
-- How an attempt of pushOrDrop in internal/harness/logstore_queue.go ends, and when: by its error, and
-- by the times of the attempts and the sleeps before it.
use llm_bridge_server.Prelude.{
  ℕ, ◌⊎◌, zero, suc, ◌+◌, ◌*◌, ◌^◌, min, ◌≤◌, ◌<◌, ◌≡◌, inl, inr, true, false, none, some, arith,
  Option-cases,
}
use llm_bridge_server.LogQueue.Retry.{PushError, Why, why_not_to_retry, Attempt, Fate}

-- Errors after which the event may be sent again: log-store answered with a server error, or the
-- request failed before it could time out.
abbrev pub MayRetry : PushError → Type 0
MayRetry e =
    ((code : ℕ) × (e.status ≡ some code) × (500 ≤ code)) ⊎ ((e.status ≡ none) × (e.timeout ≡ false))

-- Errors after which it may not: log-store rejected the event, or may have stored it unheard.
abbrev pub IsFinal : PushError → Why → Type 0
IsFinal e Why.rejected = (code : ℕ) × (e.status ≡ some code) × (code < 500)
IsFinal e Why.timed_out = (e.status ≡ none) × (e.timeout ≡ true)

pub why_not_to_retry-MayRetry : (e : PushError) → why_not_to_retry e ≡ none → MayRetry e
unfolding why_not_to_retry
why_not_to_retry-MayRetry e h = elim (Option-cases e.status) [
  | inr (code, c) ↦ inl (code, c, ground (arith, c, h))
  | inl c ↦ inr (c, ground (arith, c, h))
]

pub why_not_to_retry-IsFinal :
    (e : PushError) (why : Why) → why_not_to_retry e ≡ some why → IsFinal e why
unfolding why_not_to_retry
why_not_to_retry-IsFinal e Why.rejected h = elim (Option-cases e.status) [
  | inr (code, c) ↦ (code, c, ground (arith, c, h))
  | inl c ↦ absurd (ground (arith, c, h))
]
why_not_to_retry-IsFinal e Why.timed_out h = elim (Option-cases e.status) [
  | inr (code, c) ↦ absurd (ground (arith, c, h))
  | inl c ↦ (c, ground (arith, c, h))
]

-- A failure after which the event is sent again: log-store did not take it, and is believed up.
abbrev pub IsRetried : Attempt → Type 0
IsRetried a = (e : PushError) × (a.error ≡ some e) × MayRetry e × (a.down_since ≡ 0)

-- The sleep after an attempt: it doubles from 50 ms on, up to 2 s.
unfoldable pub delay_after : ℕ → ℕ
delay_after zero = 0
delay_after (suc n) = min 2000000000 (50000000 * 2 ^ n)

-- When an attempt begins: after the attempts before it and the sleeps after those.
unfoldable pub begins_at : (ℕ → Attempt) → ℕ → ℕ
unfolding delay_after
begins_at world zero = 0
begins_at world (suc zero) = 0
begins_at world (suc (suc n)) =
    begins_at world (suc n) + (world (suc n)).took + delay_after (suc n) + (world (suc n)).overslept

-- When the attempt after it could begin at the earliest.
abbrev pub next_at : (ℕ → Attempt) → ℕ → ℕ
next_at world n = begins_at world n + (world n).took + delay_after n

-- The end of the attempt with this number: by its error where that decides, or else by the 30 seconds
-- that the next attempt would begin after.
abbrev pub Ends : (ℕ → Attempt) → ℕ → Fate → Type 0
Ends world n Fate.pushed = (world n).error ≡ none
Ends world n (Fate.refused why) = (e : PushError) × ((world n).error ≡ some e) × IsFinal e why
Ends world n Fate.dropped_while_down =
    (e : PushError) × ((world n).error ≡ some e) × MayRetry e × (0 < (world n).down_since)
Ends world n Fate.dropped_at_deadline = IsRetried (world n) × (30000000000 < next_at world n)
