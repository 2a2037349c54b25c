-- ===== src/Tests/OneShotRuns.antt =====
-- Runs of internal/oneshotrouting/router.go on the model, and the theorems at them.
use llm_bridge_server.Prelude.{
  Result, ◌<◌, ◌≡◌, refl, true, ◌=s◌, List, [], ◌∷◌, none, some, length, string_discrete,
  if◌then◌else◌,
}
use llm_bridge_server.OneShot.Route.{Route, ModelRegistry, resolve_role, role_route}
use llm_bridge_server.OneShot.Run.{
  Harness, Instance, Skip, Failure, OneShotAttempt, OneShotRequest, OneShotResponse, World,
  run_route, run_role, run_from, try_candidate, try_admitted, try_instance, try_call, refusal,
  exhausted_limit, window_skip, completed,
}
use llm_bridge_server.OneShot.Calls.{Calls, run_route-Calls}
use llm_bridge_server.OneShot.Named.{run_role-names}

abbrev codex_instance : Instance
codex_instance = record { id = "i_codex"; harness_type = Harness.codex; enabled = true }

abbrev claude_instance : Instance
claude_instance = record { id = "i_claude"; harness_type = Harness.claude_code; enabled = true }

abbrev says_hello : OneShotResponse
says_hello = record { model = ""; instance_id = ""; text = "hello"; attempts = [] }

-- Claude's subscription is used up, codex answers.
abbrev week_is_full : World
week_is_full = record {
  context_error = λ index. none;
  admit = none;
  instance_by_provider = λ index provider. if provider =s "openai" then "i_codex" else "i_claude";
  get_instance =
      some (λ index id. Result.ok (if id =s "i_codex" then codex_instance else claude_instance));
  exhausted_window =
      some (λ index provider. some (if provider =s "anthropic" then "seven_day at 100%" else ""));
  call = λ index i request. Result.ok says_hello;
}

abbrev balanced : Route
balanced = record {
  requested = "balanced";
  role = "balanced";
  candidates =
      record { model_id = "sonnet"; provider = "anthropic" }
      ∷ record { model_id = "gpt"; provider = "openai" }
      ∷ [];
}

abbrev ask : OneShotRequest
ask = record { model = ""; model_role = "balanced"; prompt = "hi" }

abbrev sonnet_skipped : OneShotAttempt
sonnet_skipped = record {
  model = "sonnet";
  instance_id = "i_claude";
  skipped = some (Skip.exhausted "anthropic" "seven_day at 100%");
  error = none;
}

-- The second model answers, and only it was called.
falls_back : run_route week_is_full balanced ask ≡ (
  Result.ok (record {
    model = "gpt";
    instance_id = "i_codex";
    text = "hello";
    attempts = sonnet_skipped ∷ [];
  }),
  (codex_instance, record ask { model = "gpt"; model_role = "" }) ∷ [],
)
unfolding run_route run_from try_candidate try_admitted try_instance try_call refusal
    exhausted_limit window_skip completed string_discrete
falls_back = refl

run_route-Calls_example :
    Calls week_is_full ask 0 balanced.candidates (run_route week_is_full balanced ask).1
run_route-Calls_example = run_route-Calls week_is_full balanced ask

-- No provider has an instance.
abbrev unconfigured : World
unconfigured = record week_is_full { instance_by_provider = λ index provider. "" }

abbrev one_model : ModelRegistry
one_model = record {
  role_models = λ role. some (record { id = "sonnet"; provider = "anthropic" } ∷ []);
  resolve_model = λ name. none;
}

abbrev no_instance : List OneShotAttempt
no_instance =
    record {
      model = "sonnet";
      instance_id = "";
      skipped = none;
      error = some Failure.no_instance_configured;
    }
    ∷ []

run_role-names_example : 0 < length no_instance
unfolding run_role resolve_role role_route run_route run_from try_candidate try_admitted refusal
    string_discrete
run_role-names_example =
    run_role-names (λ role. true) (some one_model) unconfigured ask no_instance [] refl
