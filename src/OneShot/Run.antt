-- ===== src/OneShot/Run.antt =====
-- Router.Run of internal/oneshotrouting/router.go: the walk over a route's models.
use llm_bridge_server.Prelude.{
  Result, ℕ, suc, String, Bool, not, List, [], ◌∷◌, ◌++◌, Option, none, some, is_empty,
  if◌then◌else◌,
}
use llm_bridge_server.OneShot.Route.{Candidate, Route, ModelRegistry, ResolutionError, resolve_role}

-- The harnesses that UsageProviderByHarness names, and the others.
pub data Harness : Type 0 where
  claude_code codex other_harness : Harness

abbrev pub usage_provider_by_harness : Harness → Option String
usage_provider_by_harness Harness.claude_code = some "anthropic"
usage_provider_by_harness Harness.codex = some "codex"
usage_provider_by_harness Harness.other_harness = none

-- msg.Instance, the fields that the router reads.
pub record Instance : Type 0 where
  pub id : String
  pub harness_type : Harness
  pub enabled : Bool

-- Why a model was skipped: admit's reason, or a usage provider and its full window.
pub data Skip : Type 0 where
  not_admitted : String → Skip
  exhausted : String → String → Skip

-- What an attempt's Error says.
pub data Failure : Type 0 where
  no_instance_configured no_harness_store : Failure
  instance_unreadable : String → Failure
  instance_disabled : Failure
  call_failed cancelled : String → Failure

-- msg.OneShotAttempt
pub record OneShotAttempt : Type 0 where
  pub model : String
  pub instance_id : String
  pub skipped : Option Skip
  pub error : Option Failure

-- msg.OneShotRequest, the fields that the router reads.
pub record OneShotRequest : Type 0 where
  pub model : String
  pub model_role : String
  pub prompt : String

-- msg.OneShotResponse
pub record OneShotResponse : Type 0 where
  pub model : String
  pub instance_id : String
  pub text : String
  pub attempts : List OneShotAttempt

-- What the router calls, each at the index of a candidate: the context, admit, the setting that
-- names instances, harness-store, usage-store (its outer `none` where the server has none, an inner
-- one for an error), and the instance's harness.
pub record World : Type 0 where
  pub context_error : ℕ → Option String
  pub admit : Option (Candidate → String)
  pub instance_by_provider : ℕ → String → String
  pub get_instance : Option (ℕ → String → Result String Instance)
  pub exhausted_window : Option (ℕ → String → Option String)
  pub call : ℕ → Instance → OneShotRequest → Result String OneShotResponse

-- exhaustedLimit, once usage-store was asked.
unfoldable pub window_skip : String → Option String → Option Skip
window_skip provider none = none
window_skip provider (some window) =
    if is_empty window then none else some (Skip.exhausted provider window)

-- exhaustedLimit
unfoldable pub exhausted_limit : World → ℕ → Instance → Option Skip
unfolding window_skip
exhausted_limit w index i = elim (w.exhausted_window) [
  | none ↦ none
  | some ask ↦ elim (usage_provider_by_harness i.harness_type) [
    | none ↦ none
    | some provider ↦ window_skip provider (ask index provider)
  ]
]

-- What `try` comes to, with the calls that it made: the instance and the request.
pub record Tried : Type 0 where
  pub attempt : OneShotAttempt
  pub answer : Option OneShotResponse
  pub calls : List (Instance × OneShotRequest)

abbrev pub skips : OneShotAttempt → Skip → Tried
skips attempt why = record {
  attempt = record attempt { skipped = some why };
  answer = none;
  calls = [];
}

abbrev pub fails : OneShotAttempt → Failure → Tried
fails attempt why = record {
  attempt = record attempt { error = some why };
  answer = none;
  calls = [];
}

-- The request as one model gets it.
abbrev pub outgoing : Candidate → OneShotRequest → OneShotRequest
outgoing c request = record request { model = c.model_id; model_role = "" }

-- `try` from the call on.
unfoldable pub try_call : World → ℕ → Candidate → OneShotRequest → OneShotAttempt → Instance → Tried
try_call w index c request attempt i = elim (w.call index i (outgoing c request)) [
  | Result.err e ↦ record {
    attempt = record attempt { error = some (Failure.call_failed e) };
    answer = none;
    calls = (i, outgoing c request) ∷ [];
  }
  | Result.ok response ↦ record {
    attempt = attempt;
    answer = some response;
    calls = (i, outgoing c request) ∷ [];
  }
]

-- `try` once the instance was read.
unfoldable pub try_instance :
    World → ℕ → Candidate → OneShotRequest → OneShotAttempt → Result String Instance → Tried
unfolding exhausted_limit try_call
try_instance w index c request attempt (Result.err e) =
    fails attempt (Failure.instance_unreadable e)
try_instance w index c request attempt (Result.ok i) =
    if not i.enabled
    then fails attempt Failure.instance_disabled
    else elim (exhausted_limit w index i) [
      | some why ↦ skips attempt why
      | none ↦ try_call w index c request attempt i
    ]

-- `try` once the model is admitted.
unfoldable pub try_admitted : World → ℕ → Candidate → OneShotRequest → OneShotAttempt → Tried
unfolding try_instance
try_admitted w index c request attempt =
    let id = w.instance_by_provider index c.provider in
    if is_empty id then fails attempt Failure.no_instance_configured else elim (w.get_instance) [
      | none ↦ fails (record attempt { instance_id = id }) Failure.no_harness_store
      | some get ↦
          try_instance w index c request (record attempt { instance_id = id }) (get index id)
    ]

-- admit's reason against a model; a nil admit has none.
unfoldable pub refusal : Option (Candidate → String) → Candidate → Option Skip
refusal none c = none
refusal (some admit) c = if is_empty (admit c) then none else some (Skip.not_admitted (admit c))

-- try
unfoldable pub try_candidate : World → ℕ → Candidate → OneShotRequest → Tried
unfolding try_admitted refusal
try_candidate w index c request =
    let attempt : OneShotAttempt = record {
      model = c.model_id;
      instance_id = "";
      skipped = none;
      error = none;
    } in
    elim (refusal w.admit c) [
      | some why ↦ skips attempt why
      | none ↦ try_admitted w index c request attempt
    ]

-- The response as Run returns it.
unfoldable pub completed :
    Candidate → OneShotAttempt → List OneShotAttempt → OneShotResponse → OneShotResponse
completed c attempt attempts response = record response {
  instance_id = attempt.instance_id;
  model = if is_empty response.model then c.model_id else response.model;
  attempts = attempts;
}

-- The loop of Run from a candidate's index on: AllModelsFailedError is its attempts. With it stand
-- the calls made.
unfoldable pub run_from :
    World
    → OneShotRequest
    → ℕ
    → List Candidate
    → List OneShotAttempt
    → Result (List OneShotAttempt) OneShotResponse × List (Instance × OneShotRequest)
unfolding try_candidate completed
run_from w request index [] attempts = (Result.err attempts, [])
run_from w request index (c ∷ cs) attempts = elim (w.context_error index) [
  | some e ↦ (
    Result.err (
        attempts
        ++ record {
          model = c.model_id;
          instance_id = "";
          skipped = none;
          error = some (Failure.cancelled e);
        }
          ∷ []),
    [],
  )
  | none ↦
      let t = try_candidate w index c request in
      elim (t.answer) [
        | some response ↦ (Result.ok (completed c t.attempt attempts response), t.calls)
        | none ↦
            let (result, calls) = run_from w request (suc index) cs (attempts ++ t.attempt ∷ []) in
            (result, t.calls ++ calls)
      ]
]

-- Run
unfoldable pub run_route :
    World
    → Route
    → OneShotRequest
    → Result (List OneShotAttempt) OneShotResponse × List (Instance × OneShotRequest)
unfolding run_from
run_route w route request = run_from w request 0 route.candidates []

-- RunRole, which admits every model.
unfoldable pub run_role :
    (String → Bool)
    → Option ModelRegistry
    → World
    → OneShotRequest
    → Result ResolutionError
        (Result (List OneShotAttempt) OneShotResponse × List (Instance × OneShotRequest))
unfolding resolve_role run_route
run_role is_canonical_role models w request =
    if not (is_empty request.model)
    then Result.err ResolutionError.model_and_role
    else elim (resolve_role is_canonical_role models request.model_role) [
      | Result.err e ↦ Result.err e
      | Result.ok route ↦ Result.ok (run_route (record w { admit = none }) route request)
    ]
