-- ===== src/ServerTools/Tests.antt =====
-- A loop over one toolset whose upstream calls the router's tool once and then answers. The world is a
-- clock that the upstream moves on.
use bitrouter_ethglobal.Base.{
  ℕ, suc, ◌≤◌, ◌≡◌, refl, String, none, some, true, false, List, [], ◌∷◌, length, str_eq,
  if◌then◌else◌, ltb,
}
use bitrouter_ethglobal.Error.{BitrouterError, Result, ok, err, allow}
use bitrouter_ethglobal.Types.{
  ExecutionResult, usage_default, stop, StreamPart, text_delta, tool_call_delta, server_tool_call,
  server_tool_result, usage, finish,
}
use bitrouter_ethglobal.Types.Messages.{Role, Content, ToolResultOutput, function, tool_name}
use bitrouter_ethglobal.Types.Capabilities.{Body, Capability, required_capabilities}
use bitrouter_ethglobal.Routing
use bitrouter_ethglobal.Routing.Tests.{primary}
use bitrouter_ethglobal.Pipeline.Model.{Prompt, Context, Turns, State, Pipeline}
use bitrouter_ethglobal.Pipeline.Model as Model
use bitrouter_ethglobal.Pipeline.Paths.{AllPaths}
use bitrouter_ethglobal.ServerTools.{
  RouterCall, execute, classify_turn, RouterToolset, ServerToolLoop, config_default, allow_all,
}
use bitrouter_ethglobal.ServerTools.Loop.{run}
use bitrouter_ethglobal.ServerTools.Classify.{Describes, classify_turn-Describes}
use bitrouter_ethglobal.ServerTools.Ends.{run-Ends}
use bitrouter_ethglobal.ServerTools.Stream.Merge.{Yield, run_stream}
use bitrouter_ethglobal.ServerTools.Stream.Closes.{Merged, run_stream-Merged}

abbrev pub U : Type 0
U = Unit {0}

abbrev docs : RouterToolset U ℕ
docs = record {
  list_tools = λ w. (ok (function "search" none tt none tt ∷ []), w);
  call_tool = λ name arguments w. (ok (ToolResultOutput.text "found"), w);
  owns = λ name w. str_eq name "search";
  server_name = some "docs";
}

abbrev docs_loop : ServerToolLoop U ℕ
docs_loop = record {
  registry = docs ∷ [];
  config = config_default;
  allow = allow_all;
  force_first_tool = some "search";
  system_instruction = none;
  timeout = λ limit f w. (some (f w).0, (f w).1);
  now = λ w. w;
}

abbrev show_error : BitrouterError → String
show_error e = "error"

abbrev pub question : Prompt (Body U) U
question = record {
  model = "gpt-5";
  system = none;
  extra = [];
  body = record {
    system_provider_metadata = tt;
    messages = record { role = Role.user; content = Content.text "hi" tt ∷ [] } ∷ [];
    tools = [];
    params = record {
      max_tokens = none;
      reasoning_effort = none;
      response_modalities = [];
      sampling = tt;
    };
    response_format = none;
    tool_choice = none;
    stream = false;
  };
}

abbrev pub search_block : Content U
search_block = Content.tool_call "c1" "search" "{}" false false tt

classify_turn-Describes_example :
    Describes
      ("search" ∷ [])
      (search_block ∷ [])
      (classify_turn (search_block ∷ []) ("search" ∷ []))
classify_turn-Describes_example = classify_turn-Describes ("search" ∷ []) (search_block ∷ [])

classify_turn_test :
    classify_turn (search_block ∷ []) ("search" ∷ [])
    ≡ execute (record { id = "c1"; name = "search"; arguments = "{}" } ∷ [])
unfolding classify_turn
classify_turn_test = refl

abbrev pub reply : List (Content U) → ExecutionResult (Content U) U
reply content = record {
  provider_id = "openai";
  model_id = "gpt-5";
  account_label = none;
  result = record {
    content = content;
    usage = some (record usage_default { prompt_tokens = 10 });
    finish_reason = some stop;
    response_id = none;
    stop_details = none;
    provider_metadata = [];
  };
  latency_ms = 5;
  generation_time_ms = 3;
}

-- The first answer calls the tool, the others are final.
abbrev pub tool_pipeline : Pipeline (Body U) (Content U) U ℕ Capability
tool_pipeline = record {
  pre_request_hooks = (λ s. (ok allow, s)) ∷ [];
  route_hooks = [];
  execution_hooks = [];
  settlement_recorders = [];
  observe = λ e w. w;
  preset_overrides = λ model w. (ok (record { system_prompt = none; params = [] }), w);
  route_table = λ model prefs w. (ok (primary ∷ []), w);
  classify = Routing.classify;
  execute = λ t prompt s. (
    ok (reply (if ltb s.world 1 then search_block ∷ [] else Content.text "done" tt ∷ [])),
    suc s.world,
  );
  execute_stream = λ t prompt s. (err BitrouterError.upstream_timeout, s.world);
  server_tool_loop = none;
  required_capabilities = λ prompt. required_capabilities prompt.body;
}

abbrev pub tool_state : State (Body U) (Content U) U ℕ
tool_state = record {
  ctx = record {
    request_id = "r1";
    model = "gpt-5";
    prompt = question;
    inbound_protocol = none;
    route_chain = none;
    execution_result = none;
  };
  world = 0;
}

abbrev stuck : Turns (Body U) (Content U) U ℕ
stuck = Model.finish (err (BitrouterError.internal "out of fuel"))

run-Ends_example :
    (run show_error tt docs_loop stuck question
      ≡ run show_error tt docs_loop (Model.finish (err BitrouterError.upstream_timeout)) question)
    × AllPaths (λ trace r. length trace ≤ 11) (run show_error tt docs_loop stuck question)
run-Ends_example =
    run-Ends show_error tt docs_loop stuck (Model.finish (err BitrouterError.upstream_timeout))
      question

-- The streamed upstream: the tool call in two fragments, then a text.
abbrev streamed : Prompt (Body U) U → ℕ → Result (List (Result (StreamPart String))) × ℕ
streamed prompt w = (
  ok (
      if ltb w 1
      then ok (tool_call_delta "c1" (some "search") "{")
        ∷ ok (tool_call_delta "c1" none "}")
        ∷ ok (usage (record usage_default { prompt_tokens = 10 }))
        ∷ ok (finish stop)
        ∷ []
      else ok (text_delta "done")
        ∷ ok (usage (record usage_default { prompt_tokens = 20 }))
        ∷ ok (finish stop)
        ∷ []),
  suc w,
)

abbrev text_payload : ToolResultOutput U → String
text_payload (ToolResultOutput.text value) = value
text_payload _ = ""

run_stream_test :
    run_stream show_error tt text_payload docs_loop streamed ([], 0) question 0
    ≡ ok (
      ok (server_tool_call "c1" "search" "{}" (some "docs") true)
          ∷ ok (server_tool_result "c1" (some "search") "found" true)
          ∷ ok (text_delta "done")
          ∷ ok (usage (record usage_default { prompt_tokens = 30 }))
          ∷ ok (finish stop)
          ∷ [],
      2,
    )
unfolding run_stream bitrouter_ethglobal.ServerTools.Inject.inject
    bitrouter_ethglobal.ServerTools.list_all bitrouter_ethglobal.ServerTools.Stream.Merge.merge_loop
    bitrouter_ethglobal.ServerTools.Stream.read_items
    bitrouter_ethglobal.ServerTools.Stream.read_part
    bitrouter_ethglobal.ServerTools.Stream.Merge.end_turn tool_name
    bitrouter_ethglobal.ServerTools.Stream.Merge.execute_round
    bitrouter_ethglobal.ServerTools.Stream.Merge.surface_calls
    bitrouter_ethglobal.ServerTools.resolve bitrouter_ethglobal.ServerTools.Stream.Merge.after_round
    bitrouter_ethglobal.ServerTools.Loop.call_one allow_all
    bitrouter_ethglobal.ServerTools.Loop.next_state bitrouter_ethglobal.ServerTools.Loop.add_usage
run_stream_test = refl

run_stream-Merged_example :
    Merged show_error tt text_payload docs_loop streamed question 0
      (run_stream show_error tt text_payload docs_loop streamed ([], 0) question 0)
run_stream-Merged_example =
    run_stream-Merged show_error tt text_payload docs_loop streamed ([], 0) question 0
