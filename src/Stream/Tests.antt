-- ===== src/Stream/Tests.antt =====
-- A streamed answer of two text deltas that the consumer drops before its usage arrives.
use bitrouter_ethglobal.Base.{
  ℕ, suc, ◌≡◌, All, refl, String, none, true, false, List, [], ◌∷◌, ◌++◌, map, min, ◌-◌, ◌^◌,
}
use bitrouter_ethglobal.Error.{ok}
use bitrouter_ethglobal.Types.{StreamPart, text_delta, usage_default}
use bitrouter_ethglobal.Types
use bitrouter_ethglobal.Pipeline.Tests.{two_targets, request}
use bitrouter_ethglobal.Stream.Accumulator.{with_prompt_chars, finalized}
use bitrouter_ethglobal.Stream.Accumulator.Estimate.{
  observe_all, last_reported, total_chars, observe_all-Totals,
}
use bitrouter_ethglobal.Stream.Processor.{StreamHook, pass, Hooks, Live}
use bitrouter_ethglobal.Stream.Drive.{Arrival, arrives, Held, pump, drive_stream}
use bitrouter_ethglobal.Stream.Start.{ToolStream, execute_stream}
use bitrouter_ethglobal.Stream.Started.{IsProgress, Returns, IsFresh, execute_stream-Starts}
use bitrouter_ethglobal.Stream.Settled.{outcome_of, StreamSettled, drive_stream-Settled}
use bitrouter_ethglobal.Types.Messages.{Content}
use bitrouter_ethglobal.Stream.PromptText.{counted_text, content_texts}

abbrev parts : List (StreamPart ℕ)
parts = text_delta "hello" ∷ text_delta " world" ∷ Types.usage usage_default ∷ []

abbrev arrivals : List (Arrival ℕ)
arrivals = map (λ part. arrives (ok part)) parts

-- A hook that passes every part, interested in text deltas.
abbrev passing : StreamHook ℕ ℕ
passing = record {
  interest = 1;
  on_part = λ ctx w part. (ok pass, (ctx, suc w));
  on_stream_end = λ ctx w outcome. (ok tt, (ctx, w));
}

abbrev hooks : Hooks ℕ ℕ
hooks = record { hooks = passing ∷ []; observers = [] }

abbrev live : Live ℕ
live = record {
  stream = record {
    request_id = "r1";
    target = none;
    accumulated_usage = with_prompt_chars 20;
    parts_emitted = 0;
    final_usage = none;
  };
  ended = false;
  world = 0;
}

abbrev held : Held (Unit {0}) String ℕ ℕ
held = record { live = live; ctx = request }

observe_all-Totals_example :
    (finalized (observe_all parts (with_prompt_chars 20)) ≡ last_reported parts)
    × ((observe_all parts (with_prompt_chars 20)).prompt_chars ≡ 20)
    × ((observe_all parts (with_prompt_chars 20)).delta_chars
        ≡ min (total_chars parts) (2 ^ 64 - 1))
observe_all-Totals_example = observe_all-Totals parts 20

drive_stream-Settled_example :
    StreamSettled
      (Unit {0})
      String
      ℕ
      1
      1
      (outcome_of (pump String hooks 2 arrivals live).left)
      (drive_stream two_targets hooks 2 true arrivals held).events
drive_stream-Settled_example = drive_stream-Settled two_targets hooks 2 arrivals held refl

abbrev no_tools : ToolStream two_targets
no_tools = none

execute_stream-Starts_example :
    All IsProgress
      (execute_stream two_targets no_tools
        (λ prompt. "hi" ∷ [])
        (record { ctx = request; world = 0 })).events
    × Returns
        (IsFresh two_targets no_tools (λ prompt. "hi" ∷ []))
        (execute_stream two_targets no_tools
          (λ prompt. "hi" ∷ [])
          (record { ctx = request; world = 0 })).result
execute_stream-Starts_example =
    execute_stream-Starts two_targets no_tools (λ prompt. "hi" ∷ [])
      (record { ctx = request; world = 0 })

-- The text and reasoning blocks of the messages count, in order, and the others do not.
abbrev spoken : List (Content Unit)
spoken =
    Content.reasoning "hm" tt
    ∷ Content.tool_call "c1" "search" "{}" false false tt
    ∷ Content.text "hello" tt
    ∷ []

prompt_texts_test :
    content_texts spoken ++ counted_text (Content.text "bye" tt) ≡ "hm" ∷ "hello" ∷ "bye" ∷ []
unfolding content_texts
prompt_texts_test = refl
