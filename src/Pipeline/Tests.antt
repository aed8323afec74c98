-- ===== src/Pipeline/Tests.antt =====
-- A pipeline with a primary that is overloaded, a backup that serves and one recorder that fails.
use bitrouter_ethglobal.Base.{
  All, ℕ, suc, ◌≡◌, refl, String, none, some, [], ◌∷◌, str_eq, or_else, lookup, if◌then◌else◌,
}
use bitrouter_ethglobal.Error.{BitrouterError, Result, ok, err, allow}
use bitrouter_ethglobal.Types.{RoutingTarget, ExecutionResult, usage_default, chat_completions}
use bitrouter_ethglobal.Routing
use bitrouter_ethglobal.Routing.{PromptOverrides}
use bitrouter_ethglobal.Routing.Retry.{IsRetryable}
use bitrouter_ethglobal.Routing.Tests.{primary}
use bitrouter_ethglobal.Pipeline.Model.{Prompt, Context, State, Pipeline}
use bitrouter_ethglobal.Pipeline.Stages.{apply_preset_overrides, execute_with_fallback}
use bitrouter_ethglobal.Pipeline.Execute.{execute}
use bitrouter_ethglobal.Pipeline.Overrides.{apply_preset_overrides_lem}
use bitrouter_ethglobal.Pipeline.Hops.{Walks}
use bitrouter_ethglobal.Pipeline.Hops.Trials.{
  Executed, KeptOrFailed, AnyFailure, SameResult, PermanentFailure,
}
use bitrouter_ethglobal.Pipeline.Hops.Default.{
  execute_with_fallback-Walks, execute_with_fallback-Walks_default,
}
use bitrouter_ethglobal.Pipeline.Lifecycle.{Lifecycle, execute-Lifecycle}

abbrev pub backup : RoutingTarget
backup = record primary { provider_name = "backup"; api_base = "https://backup.example" }

abbrev served : ExecutionResult String ℕ
served = record {
  provider_id = "backup";
  model_id = "gpt-5";
  account_label = none;
  result = record {
    content = "hello" ∷ [];
    usage = some (record usage_default { prompt_tokens = 10; completion_tokens = 2 });
    finish_reason = none;
    response_id = none;
    stop_details = none;
    provider_metadata = [];
  };
  latency_ms = 5;
  generation_time_ms = 3;
}

abbrev answer : RoutingTarget → Result (ExecutionResult String ℕ)
answer t =
    if str_eq t.provider_name "openai"
    then err (BitrouterError.upstream 503 "overloaded")
    else ok served

-- Its world counts the calls of the executor.
abbrev pub two_targets : Pipeline (Unit {0}) String ℕ ℕ (Unit {0})
two_targets = record {
  pre_request_hooks = (λ s. (ok allow, s)) ∷ [];
  route_hooks = [];
  execution_hooks = [];
  settlement_recorders = (λ settle w. (err (BitrouterError.internal "disk full"), settle, w)) ∷ [];
  observe = λ e w. w;
  preset_overrides = λ model w. (ok (record { system_prompt = none; params = [] }), w);
  route_table = λ model prefs w. (ok (primary ∷ backup ∷ []), w);
  classify = Routing.classify;
  execute = λ t prompt s. (answer t, suc s.world);
  execute_stream = λ t prompt s. (err BitrouterError.upstream_timeout, s.world);
  server_tool_loop = none;
  required_capabilities = λ prompt. [];
}

abbrev hello : Prompt (Unit {0}) ℕ
hello = record { model = "gpt-5"; system = none; extra = []; body = tt }

abbrev pub request : Context (Unit {0}) String ℕ
request = record {
  request_id = "r1";
  model = "gpt-5";
  prompt = hello;
  inbound_protocol = some chat_completions;
  route_chain = none;
  execution_result = none;
}

abbrev start : State (Unit {0}) String ℕ ℕ
start = record { ctx = request; world = 0 }

execute-Lifecycle_example :
    Lifecycle
      (Unit {0})
      String
      ℕ
      1
      (execute two_targets start).events
      (execute two_targets start).result
execute-Lifecycle_example = execute-Lifecycle two_targets start

execute_with_fallback-Walks_example :
    Walks KeptOrFailed AnyFailure
      (λ e. Unit {0})
      none
      (primary ∷ backup ∷ [])
      (execute_with_fallback two_targets (primary ∷ backup ∷ []) hello start).events
      (execute_with_fallback two_targets (primary ∷ backup ∷ []) hello start).result
    × All
        (Executed two_targets hello start.ctx)
        (execute_with_fallback two_targets (primary ∷ backup ∷ []) hello start).events
execute_with_fallback-Walks_example =
    execute_with_fallback-Walks two_targets (primary ∷ backup ∷ []) hello start

execute_with_fallback-Walks_default_example :
    Walks SameResult PermanentFailure IsRetryable none
      (primary ∷ backup ∷ [])
      (execute_with_fallback two_targets (primary ∷ backup ∷ []) hello start).events
      (execute_with_fallback two_targets (primary ∷ backup ∷ []) hello start).result
execute_with_fallback-Walks_default_example =
    execute_with_fallback-Walks_default two_targets refl refl (primary ∷ backup ∷ []) hello start

abbrev careful : PromptOverrides ℕ
careful = record { system_prompt = some "be careful"; params = ("top_p", 1) ∷ ("seed", 7) ∷ [] }

abbrev seeded : Prompt (Unit {0}) ℕ
seeded = record hello { extra = ("seed", 3) ∷ [] }

apply_preset_overrides_lem_example :
    ((apply_preset_overrides careful seeded).system ≡ or_else none (some "be careful"))
    × (lookup "seed" (apply_preset_overrides careful seeded).extra
        ≡ or_else (lookup "seed" seeded.extra) (lookup "seed" careful.params))
apply_preset_overrides_lem_example = apply_preset_overrides_lem careful seeded "seed"
