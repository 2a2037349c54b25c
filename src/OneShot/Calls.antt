-- ===== src/OneShot/Calls.antt =====
-- Which calls Router.Run of internal/oneshotrouting/router.go makes.
use mathlib.Core.Path.{subst}
use mathlib.Core.List.{append-nil}
use llm_bridge_server.Prelude.{
  Result, Result-cases, ℕ, suc, ◌≡◌, refl, sym, ap, arith, String, true, false, List, [], ◌∷◌, ◌++◌,
  Option, none, some, is_empty, Bool-cases, Option-cases, inl, inr,
}
use llm_bridge_server.OneShot.Route.{Candidate, Route}
use llm_bridge_server.OneShot.Run.{
  Instance, Harness, usage_provider_by_harness, window_skip, OneShotAttempt, OneShotRequest, World,
  exhausted_limit, Tried, outgoing, try_call, try_instance, try_admitted, refusal, try_candidate,
  run_from, run_route,
}

-- usage-store, where it is asked about a provider and answers, names no window that is used up.
abbrev pub HasNoFullWindow : World → ℕ → String → Type 0
HasNoFullWindow w index provider =
    (ask : ℕ → String → Option String) (window : String)
    → w.exhausted_window ≡ some ask
    → ask index provider ≡ some window
    → window ≡ ""

unlimited-HasNoFullWindow :
    (w : World) (index : ℕ) (i : Instance) (provider : String)
    → usage_provider_by_harness i.harness_type ≡ some provider
    → exhausted_limit w index i ≡ none
    → HasNoFullWindow w index provider
unfolding exhausted_limit window_skip
unlimited-HasNoFullWindow w index i provider p h ask window e a =
    elim (Bool-cases (is_empty window)) [
      | inl b ↦ ground (arith, b)
      | inr b ↦ absurd (cc (rw (exhausted_limit, e, p, a, window_skip, b) at h))
    ]

-- harness-store answers with the instance that is configured for the provider of the model.
abbrev pub IsConfigured : World → ℕ → Candidate → Instance → Type 0
IsConfigured w index c i =
    (get : ℕ → String → Result String Instance) × (w.get_instance ≡ some get)
    × (get index (w.instance_by_provider index c.provider) ≡ Result.ok i)

refusal-none :
    (given : Option (Candidate → String)) (c : Candidate)
    → refusal given c ≡ none
    → (admit : Candidate → String) → given ≡ some admit
    → admit c ≡ ""
unfolding refusal
refusal-none given c h admit e = elim (Bool-cases (is_empty (admit c))) [
  | inl b ↦ ground (arith, b)
  | inr b ↦ absurd (cc (rw (refusal, e, b) at h))
]

-- A call that Run may make at an index, for a model: the model is admitted, its instance enabled and
-- not at its limit, and the request names the model and no role.
pub record IsAllowed (w : World) (request : OneShotRequest) (index : ℕ) (c : Candidate)
    (made : Instance × OneShotRequest) : Type 0 where
  pub running : w.context_error index ≡ none
  pub admitted : (admit : Candidate → String) → w.admit ≡ some admit → admit c ≡ ""
  pub configured : is_empty (w.instance_by_provider index c.provider) ≡ false
  pub read : IsConfigured w index c made.0
  pub enabled : made.0.enabled ≡ true
  pub claude_within_limits :
      made.0.harness_type ≡ Harness.claude_code → HasNoFullWindow w index "anthropic"
  pub codex_within_limits : made.0.harness_type ≡ Harness.codex → HasNoFullWindow w index "codex"
  pub for_model : made.1.model ≡ c.model_id
  pub without_role : made.1.model_role ≡ ""
  pub same_prompt : made.1.prompt ≡ request.prompt

-- The calls are allowed, at most one for each model, in the order of the models.
pub data Calls (w : World) (request : OneShotRequest)
    : ℕ → List Candidate → List (Instance × OneShotRequest) → Type 0 where
  no_more : {index : ℕ} {cs : List Candidate} → Calls w request index cs []
  passed :
      {index : ℕ} {c : Candidate} {cs : List Candidate} {calls : List (Instance × OneShotRequest)}
      → Calls w request (suc index) cs calls
      → Calls w request index (c ∷ cs) calls
  made :
      {index : ℕ} {c : Candidate} {cs : List Candidate} {calls : List (Instance × OneShotRequest)}
      (call : Instance × OneShotRequest)
      → IsAllowed w request index c call
      → Calls w request (suc index) cs calls
      → Calls w request index (c ∷ cs) (call ∷ calls)

-- What one try adds to the calls that follow it.
abbrev AddsTo : World → OneShotRequest → ℕ → Candidate → Tried → Type 0
AddsTo w request index c t =
    (cs : List Candidate) (calls : List (Instance × OneShotRequest))
    → Calls w request (suc index) cs calls
    → Calls w request index (c ∷ cs) (t.calls ++ calls)

-- Whatever the harness answers, it was called once.
try_call_calls :
    (w : World) (request : OneShotRequest) (index : ℕ) (c : Candidate) (attempt : OneShotAttempt)
    (i : Instance)
    → (try_call w index c request attempt i).calls ≡ (i, outgoing c request) ∷ []
unfolding try_call
try_call_calls w request index c attempt i =
    elim (Result-cases (w.call index i (outgoing c request))) [
      | inl (e, p) ↦ rw (p, try_call) refl
      | inr (a, p) ↦ rw (p, try_call) refl
    ]

try_instance-AddsTo :
    (w : World) (request : OneShotRequest) (index : ℕ) (c : Candidate) (attempt : OneShotAttempt)
    (r : Result String Instance)
    → w.context_error index ≡ none
    → refusal w.admit c ≡ none
    → is_empty (w.instance_by_provider index c.provider) ≡ false
    → ((i : Instance) → r ≡ Result.ok i → IsConfigured w index c i)
    → AddsTo w request index c (try_instance w index c request attempt r)
unfolding try_instance try_call
try_instance-AddsTo w request index c attempt (Result.err e) running admitted configured found cs
      calls h =
    passed h
try_instance-AddsTo w request index c attempt (Result.ok i) running admitted configured found cs
      calls h =
    elim (Bool-cases i.enabled) [
      | inr off ↦ rw off (passed h)
      | inl on ↦ elim (Option-cases (exhausted_limit w index i)) [
        | inr (why, e) ↦ rw (on, e) (passed h)
        | inl e ↦
            let allowed : IsAllowed w request index c (i, outgoing c request) = record {
              running = running;
              admitted = refusal-none w.admit c admitted;
              configured = configured;
              read = found i refl;
              enabled = on;
              claude_within_limits = λ same.
                  unlimited-HasNoFullWindow w index i "anthropic"
                    (ap usage_provider_by_harness same) e;
              codex_within_limits = λ same.
                  unlimited-HasNoFullWindow w index i "codex" (ap usage_provider_by_harness same) e;
              for_model = refl;
              without_role = refl;
              same_prompt = refl;
            } in
            rw (on, e, try_call_calls w request index c attempt i)
              (made (i, outgoing c request) allowed h)
      ]
    ]

try_candidate-AddsTo :
    (w : World) (request : OneShotRequest) (index : ℕ) (c : Candidate)
    → w.context_error index ≡ none
    → AddsTo w request index c (try_candidate w index c request)
unfolding try_candidate try_admitted
try_candidate-AddsTo w request index c running cs calls h =
    elim (Option-cases (refusal w.admit c)) [
      | inr (why, r) ↦ rw (r, try_candidate) (passed h)
      | inl r ↦
          let id = w.instance_by_provider index c.provider in
          elim (Bool-cases (is_empty id)) [
            | inl e ↦ rw (r, e, try_candidate, try_admitted) (passed h)
            | inr e ↦ elim (Option-cases w.get_instance) [
              | inl g ↦
                  let uncalled : (try_candidate w index c request).calls ≡ [] =
                    rw (r, e, g, try_candidate, try_admitted) refl in
                  subst (λ l. Calls w request index (c ∷ cs) (l ++ calls)) (sym uncalled) (passed h)
              | inr (get, g) ↦
                  let attempt : OneShotAttempt = record {
                    model = c.model_id;
                    instance_id = id;
                    skipped = none;
                    error = none;
                  } in
                  let reached : try_candidate w index c request
                      ≡ try_instance w index c request attempt (get index id) =
                    rw (r, e, g, try_candidate, try_admitted) refl in
                  subst (AddsTo w request index c) (sym reached)
                    (try_instance-AddsTo w request index c attempt (get index id) running r e
                      (λ i same. (get, g, same)))
                    cs calls h
            ]
          ]
    ]

run_from-Calls :
    (w : World) (request : OneShotRequest) (index : ℕ) (cs : List Candidate)
    (attempts : List OneShotAttempt)
    → Calls w request index cs (run_from w request index cs attempts).1
unfolding run_from
run_from-Calls w request index [] attempts = no_more
run_from-Calls w request index (c ∷ cs) attempts = elim (Option-cases (w.context_error index)) [
  | inr (e, p) ↦ rw (p, run_from) no_more
  | inl p ↦
      let t = try_candidate w index c request in
      let rest = run_from-Calls w request (suc index) cs (attempts ++ t.attempt ∷ []) in
      elim (Option-cases t.answer) [
        | inl a ↦ rw (p, a, run_from) (try_candidate-AddsTo w request index c p cs _ rest)
        | inr (response, a) ↦
            let alone = try_candidate-AddsTo w request index c p cs [] no_more in
            rw (p, a, run_from) (rw (append-nil t.calls) at alone)
      ]
]

-- Run calls each model of its route at most once and in their order, and only while the context
-- lasts: with the request's prompt for that model and no role, on the enabled instance that is
-- configured for the model's provider, where the model is admitted and usage-store, asked about the
-- subscription of a Claude Code or Codex instance, names no window that is used up.
pub run_route-Calls :
    (w : World) (route : Route) (request : OneShotRequest)
    → Calls w request 0 route.candidates (run_route w route request).1
unfolding run_route
run_route-Calls w route request = run_from-Calls w request 0 route.candidates []
