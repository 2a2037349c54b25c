-- ===== src/LogQueue/Attempts.antt =====
-- How pushOrDrop of internal/harness/logstore_queue.go ends, and what it has sent by then.
use llm_bridge_server.Prelude.{
  ℕ, zero, suc, ◌+◌, ◌*◌, ◌^◌, min, refl, ap, ◌∙◌, ◌≤◌, ◌<◌, ◌≡◌, inl, inr, Bool, true, false, ◌==◌,
  none, some, arith, if◌then◌else◌, Option-cases, Bool-cases,
}
use llm_bridge_server.LogQueue.Retry.{
  why_not_to_retry, Attempt, DownWrite, Fate, Outcome, retry_base_delay, retry_deadline, next_delay,
  judge, push_from, push_or_drop,
}
use llm_bridge_server.LogQueue.Fates.{
  why_not_to_retry-MayRetry, why_not_to_retry-IsFinal, IsRetried, delay_after, begins_at, next_at,
  Ends,
}

-- An attempt that leads to another has time left for its sleep.
judge-none :
    (a : Attempt) (n delay now : ℕ) → judge a n delay now ≡ none → now + delay ≤ retry_deadline
unfolding judge
judge-none a n delay now h = ground arith

judge-some :
    (a : Attempt) (n delay now : ℕ) (o : Outcome) → judge a n delay now ≡ some o → o.attempts ≡ n
unfolding judge
judge-some a n delay now o h = ground arith

-- How long the next `k` sleeps are at least.
total_delay : ℕ → ℕ → ℕ
total_delay zero delay = 0
total_delay (suc k) delay = delay + total_delay k (next_delay delay)

-- What each end makes of downSince: a success clears it, a passed deadline marks it.
abbrev pub down_write : Fate → DownWrite
down_write Fate.pushed = DownWrite.cleared
down_write (Fate.refused why) = DownWrite.untouched
down_write Fate.dropped_while_down = DownWrite.untouched
down_write Fate.dropped_at_deadline = DownWrite.marked

-- The run of attempts from number `n` on that an outcome reports.
pub record Settles (world : ℕ → Attempt) (n k : ℕ) (o : Outcome) : Type 0 where
  pub first : n ≤ o.attempts
  pub last : o.attempts ≤ n + k
  pub retried :
      (j : ℕ) → n ≤ j → j < o.attempts → IsRetried (world j) × (next_at world j ≤ 30000000000)
  pub ends : Ends world o.attempts o.fate
  pub down : o.down ≡ down_write o.fate

judge-IsRetried : (a : Attempt) (n delay now : ℕ) → judge a n delay now ≡ none → IsRetried a
unfolding judge
judge-IsRetried a n delay now h = elim (Option-cases a.error) [
  | inl e ↦ absurd (cc (rw (judge, e) at h))
  | inr (x, e) ↦ elim (Option-cases (why_not_to_retry x)) [
    | inr (why, w) ↦ absurd (cc (rw (judge, e, w) at h))
    | inl w ↦ (x, e, why_not_to_retry-MayRetry x w, ground arith)
  ]
]

judge-Ends :
    (world : ℕ → Attempt) (n : ℕ) (o : Outcome)
    → judge (world n) n (delay_after n) (begins_at world n + (world n).took) ≡ some o
    → Ends world n o.fate
unfolding judge
judge-Ends world n o h =
    let a = world n in
    elim (Option-cases a.error) [
      | inl e ↦ let f : o.fate ≡ Fate.pushed = ground arith in rw f e
      | inr (x, e) ↦ elim (Option-cases (why_not_to_retry x)) [
        | inr (why, w) ↦
            let f : o.fate ≡ Fate.refused why = ground arith in
            rw f (x, e, why_not_to_retry-IsFinal x why w)
        | inl w ↦ elim (Bool-cases (a.down_since == 0)) [
          | inr up ↦
              let f : o.fate ≡ Fate.dropped_while_down = ground arith in
              rw f (x, e, why_not_to_retry-MayRetry x w, ground arith)
          | inl up ↦
              let f : o.fate ≡ Fate.dropped_at_deadline = ground arith in
              rw f ((x, e, why_not_to_retry-MayRetry x w, ground arith), ground arith)
        ]
      ]
    ]

judge_down :
    (a : Attempt) (n delay now : ℕ) (o : Outcome)
    → judge a n delay now ≡ some o
    → o.down ≡ down_write o.fate
unfolding judge
judge_down a n delay now o h = ground arith

Settles-here :
    (world : ℕ → Attempt) (n k : ℕ) (o : Outcome)
    → judge (world n) n (delay_after n) (begins_at world n + (world n).took) ≡ some o
    → Settles world n k o
Settles-here world n k o h =
    let now = begins_at world n + (world n).took in
    let at = judge-some (world n) n (delay_after n) now o h in
    record {
      first = omega arith;
      last = omega arith;
      retried = λ j le lt. absurd (omega arith);
      ends = rw at (judge-Ends world n o h);
      down = judge_down (world n) n (delay_after n) now o h;
    }

Settles-later :
    (world : ℕ → Attempt) (n k : ℕ) (o : Outcome)
    → judge (world n) n (delay_after n) (begins_at world n + (world n).took) ≡ none
    → Settles world (suc n) k o
    → Settles world n (suc k) o
Settles-later world n k o h s =
    let now = begins_at world n + (world n).took in
    let again = judge-IsRetried (world n) n (delay_after n) now h in
    let time_left = judge-none (world n) n (delay_after n) now h in
    record {
      first = omega (arith, s.first);
      last = omega (arith, s.last);
      retried = λ j le lt. elim (Bool-cases (j == n)) [
        | inl e ↦ let same : j ≡ n = ground arith in rw same (again, time_left)
        | inr e ↦ s.retried j (ground arith) lt
      ];
      ends = s.ends;
      down = s.down;
    }

next_delay_doubles :
    (p : ℕ) → next_delay (min 2000000000 (50000000 * p)) ≡ min 2000000000 (50000000 * (2 * p))
unfolding next_delay
next_delay_doubles p = ground arith

pow_suc : (n : ℕ) → 2 * 2 ^ n ≡ 2 ^ suc n
pow_suc n = omega arith

begins_at-next :
    (world : ℕ → Attempt) (n : ℕ)
    → begins_at world (suc (suc n))
      ≡ begins_at world (suc n)
        + (world (suc n)).took
        + delay_after (suc n)
        + (world (suc n)).overslept
unfolding begins_at
begins_at-next world n = refl

delay_after-next : (n : ℕ) → next_delay (delay_after (suc n)) ≡ delay_after (suc (suc n))
unfolding next_delay delay_after
delay_after-next n =
    next_delay_doubles (2 ^ n) ∙ ap (λ p. min 2000000000 (50000000 * p)) (pow_suc n)

push_from-Settles :
    (k : ℕ) (world : ℕ → Attempt) (m delay elapsed : ℕ)
    → delay ≡ delay_after (suc m)
    → elapsed ≡ begins_at world (suc m)
    → retry_deadline < elapsed + total_delay (suc k) delay
    → (o : Outcome) × (push_from (suc k) world (suc m) delay elapsed ≡ some o)
      × Settles world (suc m) k o
unfolding push_from total_delay
push_from-Settles zero world m delay elapsed d b h =
    let n = suc m in
    let now = elapsed + (world n).took in
    elim (Option-cases (judge (world n) n delay now)) [
      | inl e ↦ absurd (omega (arith, judge-none (world n) n delay now e))
      | inr (o, e) ↦ (o, rw (e, push_from), Settles-here world n 0 o (cc (e, d, b)))
    ]
push_from-Settles (suc k) world m delay elapsed d b h =
    let n = suc m in
    let now = elapsed + (world n).took in
    elim (Option-cases (judge (world n) n delay now)) [
      | inr (o, e) ↦ (o, rw (e, push_from), Settles-here world n (suc k) o (cc (e, d, b)))
      | inl e ↦
          let (o, r, s) =
            push_from-Settles k world n (next_delay delay) (now + delay + (world n).overslept)
              (ap next_delay d ∙ delay_after-next m) (omega (arith, d, b, begins_at-next world m))
              (omega arith) in
          (o, rw (e, push_from) r, Settles-later world n k o (cc (e, d, b)) s)
    ]

schedule_passes_deadline : retry_deadline < 0 + total_delay 20 retry_base_delay
unfolding total_delay next_delay
schedule_passes_deadline = omega arith

-- pushOrDrop ends after at most twenty attempts, whatever log-store answers and however long it
-- takes. Each attempt but the last failed in a way that may be retried, while log-store was believed
-- up and with time left for the sleep after it; the last one succeeded, failed finally, failed while
-- log-store was down, or failed in a way that may be retried, while it was believed up, with the sleep
-- after it ending past the 30 seconds, as the outcome says. The sleeps double from 50 ms to 2 s.
-- downSince is cleared by a success and marked by the last of these.
pub push_or_drop-Settles :
    (world : ℕ → Attempt) → (o : Outcome) × (push_or_drop world ≡ some o) × Settles world 1 19 o
unfolding push_or_drop begins_at delay_after
push_or_drop-Settles world =
    push_from-Settles 19 world 0 retry_base_delay 0 refl refl schedule_passes_deadline

-- Whether an attempt may have left the event at log-store: it succeeded, or it timed out with no
-- answer. What log-store answered with a status, or what never reached it, left nothing.
unfoldable pub may_hold : Attempt → Bool
may_hold a = elim (a.error) [
  | none ↦ true
  | some e ↦ elim (e.status) [ some code ↦ false | none ↦ e.timeout ]
]

-- How many of the `k` attempts from number `n` on may have left the event at log-store.
unfoldable pub copies : (ℕ → Attempt) → ℕ → ℕ → ℕ
unfolding may_hold
copies world n zero = 0
copies world n (suc k) =
    let rest = copies world (suc n) k in if may_hold (world n) then suc rest else rest

retried_holds_nothing : (a : Attempt) → IsRetried a → may_hold a ≡ false
unfolding may_hold
retried_holds_nothing a (e, h, w, up) = ground arith

copies_le :
    (world : ℕ → Attempt) (n k : ℕ)
    → ((j : ℕ) → n ≤ j → suc j < n + k → IsRetried (world j))
    → copies world n k ≤ 1
unfolding copies
copies_le world n zero h = omega arith
copies_le world n (suc zero) h = ground arith
copies_le world n (suc (suc k)) h =
    let none_here = retried_holds_nothing (world n) (h n (omega arith) (omega arith)) in
    rw none_here (copies_le world (suc n) (suc k) (λ j le lt. h j (omega arith) (omega arith)))

-- Where log-store stores an event only by answering that it did or by timing out, all the attempts
-- of pushOrDrop together store it at most once.
pub push_or_drop-stores_once :
    (world : ℕ → Attempt) (o : Outcome)
    → push_or_drop world ≡ some o
    → copies world 1 o.attempts ≤ 1
push_or_drop-stores_once world o h =
    let (o', run, s) = push_or_drop-Settles world in
    let same : o' ≡ o = cc in
    copies_le world 1 o.attempts (λ j le lt. (s.retried j le (rw same (omega arith))).0)
