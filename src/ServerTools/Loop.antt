-- ===== src/ServerTools/Loop.antt =====
-- crates/bitrouter-sdk/src/language_model/server_tools/loop_controller.rs: `ServerToolLoop::run`.
use Prim.Native.String.{◌++◌ as append}
use bitrouter_ethglobal.Base.{
  ℕ, zero, suc, ◌+◌, ◌-◌, ◌^◌, ◌%◌, String, Option, none, some, Bool, true, false, List, [], ◌∷◌,
  ◌++◌, ◌||◌, ◌==◌, is_some, leb, if◌then◌else◌,
}
use bitrouter_ethglobal.Error.{BitrouterError, Result, ok, err}
use bitrouter_ethglobal.Types.{Usage, usage_default, other, ExecutionResult}
use bitrouter_ethglobal.Types.Messages.{Role, Content, ToolChoice, ToolResultOutput}
use bitrouter_ethglobal.Types.Capabilities.{Body}
use bitrouter_ethglobal.Pipeline.Model.{Prompt, Turns, finish, upstream, work}
use bitrouter_ethglobal.ServerTools.{
  RouterCall, TurnDisposition, done, hand_back, execute, classify_turn, RouterToolset,
  ServerToolLoop, resolve,
}
use bitrouter_ethglobal.ServerTools.Inject.{inject}

-- `u64` addition of a release build.
abbrev pub u64 : ℕ → ℕ
u64 n = n % 2 ^ 64

unfoldable pub add_usage : Usage → Usage → Usage
add_usage total add = record {
  prompt_tokens = u64 (total.prompt_tokens + add.prompt_tokens);
  completion_tokens = u64 (total.completion_tokens + add.completion_tokens);
  reasoning_tokens = u64 (total.reasoning_tokens + add.reasoning_tokens);
  cache_read_tokens = u64 (total.cache_read_tokens + add.cache_read_tokens);
  cache_write_tokens = u64 (total.cache_write_tokens + add.cache_write_tokens);
}

module _ {J : Type 0} where
  abbrev pub set_usage :
      Bool → Usage → ExecutionResult (Content J) J → ExecutionResult (Content J) J
  set_usage had_usage total r =
      if had_usage then record r { result = record r.result { usage = some total } } else r

  unfoldable pub truncate :
      ExecutionResult (Content J) J → Usage → Bool → String → ExecutionResult (Content J) J
  truncate r total had_usage reason =
      let r' = set_usage had_usage total r in
      record r' { result = record r'.result { finish_reason = some (other reason) } }

  unfoldable pub append_turn :
      Prompt (Body J) J → List (Content J) → List (Content J) → Prompt (Body J) J
  append_turn working assistant_content tool_results = record working {
    body = record working.body {
      messages =
          working.body.messages
          ++ (record { role = Role.assistant; content = assistant_content }
              ∷ record { role = Role.tool; content = tool_results }
              ∷ []);
    };
  }

-- The locals of `run`.
pub record LoopState (J : Type 0) : Type 0 where
  pub working : Prompt (Body J) J
  pub total : Usage
  pub had_usage : Bool
  pub consecutive_errors : ℕ
  pub rounds : ℕ

-- The usage of a turn is added to the total.
abbrev pub meter_total : Option Usage → Usage → Usage
meter_total none total = total
meter_total (some usage) total = add_usage total usage

abbrev pub meter : {J : Type 0} → Option Usage → LoopState J → LoopState J
meter usage s = record s {
  total = meter_total usage s.total;
  had_usage = is_some usage || s.had_usage;
}

module _ {J : Type 0} where
  -- The match on what `call_tool` under its timeout gave, with `BitrouterError`'s text as a parameter.
  abbrev pub call_output :
      (BitrouterError → String)
      → String
      → Option (Result (ToolResultOutput J))
      → ToolResultOutput J × Bool
  call_output show name (some (ok out)) = (out, false)
  call_output show name (some (err e)) = (ToolResultOutput.error_text (show e), true)
  call_output show name none =
      (ToolResultOutput.error_text (append "tool '" (append name "' timed out")), true)

  -- `Display` of an error is the parameter `show`.
  module _ {W : Type 0} (show : BitrouterError → String) (l : ServerToolLoop J W) where
    abbrev pub call_resolved :
        RouterCall → Option (RouterToolset J W) → W → (ToolResultOutput J × Bool) × W
    call_resolved call none w =
        ((ToolResultOutput.error_text (append "no toolset owns '" (append call.name "'")), true), w)
    call_resolved call (some set) w =
        let called = l.timeout l.config.tool_timeout (set.call_tool call.name call.arguments) w in
        (call_output show call.name called.0, called.1)

    unfoldable pub call_one : RouterCall → W → (ToolResultOutput J × Bool) × W
    call_one call w =
        let asked = l.allow call w in
        if asked.0 then call_resolved call (resolve l.registry call.name asked.1) asked.1 else (
          (ToolResultOutput.execution_denied (some "denied by approval policy"), false),
          asked.1,
        )

    -- The result of one call, and `execute_calls`: in order, whether they fail or not.
    abbrev pub result_block : RouterCall → ToolResultOutput J → J → Content J
    result_block call output empty = Content.tool_result call.id (some call.name) output false empty

    unfoldable pub execute_calls : J → List RouterCall → W → (List (Content J) × Bool) × W
    execute_calls empty [] w = (([], false), w)
    execute_calls empty (call ∷ calls) w =
        let one = call_one call w in
        let rest = execute_calls empty calls one.1 in
        ((result_block call one.0.0 empty ∷ rest.0.0, one.0.1 || rest.0.1), rest.1)

  -- The state after a round of tool calls.
  unfoldable pub next_state :
      Option ToolChoice → LoopState J → List (Content J) → List (Content J) × Bool → LoopState J
  next_state choice s content (results, had_error) =
      let appended = append_turn s.working content results in
      record s {
        consecutive_errors = if had_error then s.consecutive_errors + 1 else 0;
        working =
            if s.rounds == 0
            then record appended { body = record appended.body { tool_choice = choice } }
            else appended;
        rounds = s.rounds + 1;
      }

  -- A call of a collaborator, as a turn of the pipeline: it sees the world and leaves another.
  abbrev pub ask_world :
      {W A : Type 0}
      → (W → A × W)
      → (A → Turns (Body J) (Content J) J W)
      → Turns (Body J) (Content J) J W
  ask_world f k = work (λ w. w) (λ w. work (λ _. (f w).1) (λ _. k (f w).0))

  module _ {W : Type 0} (show : BitrouterError → String) (empty : J) (l : ServerToolLoop J W) where
    -- After the calls of a round: give up on errors, or go on.
    unfoldable pub after_calls :
        Option ToolChoice
        → (LoopState J → Turns (Body J) (Content J) J W)
        → LoopState J
        → ExecutionResult (Content J) J
        → List (Content J) × Bool
        → Turns (Body J) (Content J) J W
    after_calls choice next s r called =
        let s' = next_state choice s r.result.content called in
        let rest = next s' in
        if leb l.config.max_consecutive_errors s'.consecutive_errors
        then finish (ok (truncate r s'.total s'.had_usage "tool_errors"))
        else rest

    -- The match on the classification of a turn; `start` is when the loop began.
    unfoldable pub after_turn :
        ℕ
        → Option ToolChoice
        → (LoopState J → Turns (Body J) (Content J) J W)
        → LoopState J
        → ExecutionResult (Content J) J
        → TurnDisposition
        → Turns (Body J) (Content J) J W
    after_turn start choice next s r done = finish (ok (set_usage s.had_usage s.total r))
    after_turn start choice next s r hand_back = finish (ok (set_usage s.had_usage s.total r))
    after_turn start choice next s r (execute calls) =
        work (λ w. w)
          (λ w.
            let go = ask_world (execute_calls show l empty calls) (after_calls choice next s r) in
            if leb l.config.max_iterations s.rounds || leb l.config.total_budget (l.now w - start)
            then finish (ok (truncate r s.total s.had_usage "max_tool_iterations"))
            else go)

    unfoldable pub one_turn :
        List String
        → ℕ
        → Option ToolChoice
        → (LoopState J → Turns (Body J) (Content J) J W)
        → LoopState J
        → Result (ExecutionResult (Content J) J)
        → Turns (Body J) (Content J) J W
    one_turn owned start choice next s (err e) = finish (err e)
    one_turn owned start choice next s (ok r) =
        after_turn start choice next (meter r.result.usage s) r
          (classify_turn r.result.content owned)

    -- The loop of `run` on fuel; `out` stands where the fuel runs out.
    unfoldable pub loop_turns :
        Turns (Body J) (Content J) J W
        → List String
        → ℕ
        → Option ToolChoice
        → ℕ
        → LoopState J
        → Turns (Body J) (Content J) J W
    loop_turns out owned start choice zero s = out
    loop_turns out owned start choice (suc fuel) s =
        upstream s.working (one_turn owned start choice (loop_turns out owned start choice fuel) s)

    abbrev pub initial : Prompt (Body J) J → LoopState J
    initial working = record {
      working = working;
      total = usage_default;
      had_usage = false;
      consecutive_errors = 0;
      rounds = 0;
    }

    abbrev pub after_inject :
        Turns (Body J) (Content J) J W
        → Option ToolChoice
        → Result (Prompt (Body J) J × List String)
        → Turns (Body J) (Content J) J W
    after_inject out choice (err e) = finish (err e)
    after_inject out choice (ok (working, owned)) =
        work (λ w. w)
          (λ w.
            loop_turns out owned (l.now w) choice (suc l.config.max_iterations) (initial working))

    -- `ServerToolLoop::run`, with fuel for one turn more than `max_iterations`.
    unfoldable pub run :
        Turns (Body J) (Content J) J W → Prompt (Body J) J → Turns (Body J) (Content J) J W
    run out base = ask_world (inject l base) (after_inject out base.body.tool_choice)
