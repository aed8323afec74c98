-- ===== src/ServerTools/Stream/Merge.antt =====
-- crates/bitrouter-sdk/src/language_model/server_tools/stream.rs: the merged stream. An upstream stream
-- is the list of its items; what the consumer leaves unread is not cut off here.
use bitrouter_ethglobal.Base.{
  ℕ, zero, suc, ◌-◌, String, Option, none, some, Bool, true, false, not, List, [], ◌∷◌, ◌++◌, ◌||◌,
  map, contains, any, retain, is_empty, unwrap_or, leb, str_eq, if◌then◌else◌,
}
use bitrouter_ethglobal.Error.{BitrouterError, Result, ok, err, ◌>>=◌}
use bitrouter_ethglobal.Types.{
  Usage, FinishReason, stop, other, StreamPart, tool_call_delta, server_tool_call,
  server_tool_result, usage, finish,
}
use bitrouter_ethglobal.Types.Messages.{Content, ToolChoice, ToolResultOutput}
use bitrouter_ethglobal.Types.Capabilities.{Body}
use bitrouter_ethglobal.Pipeline.Model.{Prompt}
use bitrouter_ethglobal.ServerTools.{RouterCall, RouterToolset, ServerToolLoop, resolve}
use bitrouter_ethglobal.ServerTools.Inject.{inject}
use bitrouter_ethglobal.ServerTools.Loop.{LoopState, next_state, result_block, call_one, initial}
use bitrouter_ethglobal.ServerTools.Stream.{BufferedCall, TurnState, turn_start, read_items}

abbrev pub router_call : BufferedCall → RouterCall
router_call b = record { id = b.id; name = b.name; arguments = b.args }

abbrev pub usage_parts : {X : Type 0} → Bool → Usage → List (StreamPart X)
usage_parts had_usage total = if had_usage then usage total ∷ [] else []

abbrev pub handed_back : {X : Type 0} → List BufferedCall → List (StreamPart X)
handed_back [] = []
handed_back (b ∷ bs) = tool_call_delta b.id (some b.name) b.args ∷ handed_back bs

module _ {J : Type 0} where
  abbrev pub call_blocks : J → List RouterCall → List (Content J)
  call_blocks empty [] = []
  call_blocks empty (call ∷ calls) =
      Content.tool_call call.id call.name call.arguments false false empty ∷ call_blocks empty calls

  -- The assistant's turn as it is appended to the working prompt.
  abbrev pub assistant_content : J → String → List RouterCall → List (Content J)
  assistant_content empty text router =
      if str_eq text ""
      then call_blocks empty router
      else Content.text text empty ∷ call_blocks empty router

  abbrev pub server_of : {W : Type 0} → Option (RouterToolset J W) → Option String
  server_of none = none
  server_of (some set) = set.server_name

-- What a run yields, and the world that it leaves.
abbrev pub Yield : Type 0 → Type 0 → Type 0
Yield X W = List (Result (StreamPart X)) × W

module _ {X W : Type 0} where
  abbrev pub yields : List (StreamPart X) → Yield X W → Yield X W
  yields parts rest = (map ok parts ++ rest.0, rest.1)

  -- The end of a merged stream.
  abbrev pub end_stream : Bool → Usage → FinishReason → W → Yield X W
  end_stream had_usage total reason w =
      (map ok (usage_parts had_usage total ++ (finish reason ∷ [])), w)

-- The `?`-like exits of a turn: opening the stream, and an error among its items.
abbrev pub read_turn :
    {J X W : Type 0}
    → (TurnState → LoopState J → W → Yield X W)
    → List (StreamPart X) × Result (TurnState × LoopState J)
    → W
    → Yield X W
read_turn end (parts, ok (t, s)) w = yields parts (end t s w)
read_turn end (parts, err e) w = (map ok parts ++ (err e ∷ []), w)

abbrev pub opened_turn :
    {J X W : Type 0}
    → (TurnState → LoopState J → W → Yield X W)
    → LoopState J
    → Result (List (Result (StreamPart X))) × W
    → Yield X W
opened_turn end s (ok items, w) = read_turn end (read_items items turn_start s) w
opened_turn end s (err e, w) = (err e ∷ [], w)

-- `payload` embeds a tool's output into a part.
module _ {J X W : Type 0} (show : BitrouterError → String) (empty : J)
    (payload : ToolResultOutput J → X) (l : ServerToolLoop J W) where
  -- The loop over the router calls of a turn: the parts, the tool results, and whether one failed.
  unfoldable pub surface_calls :
      List RouterCall → W → (List (StreamPart X) × List (Content J) × Bool) × W
  surface_calls [] w = (([], [], false), w)
  surface_calls (call ∷ calls) w =
      let one = call_one show l call w in
      let rest = surface_calls calls one.1 in
      (
        (
          server_tool_call call.id call.name call.arguments
                (server_of (resolve l.registry call.name w)) true
              ∷ server_tool_result call.id (some call.name) (payload one.0.0) true
              ∷ rest.0.0,
          result_block show l call one.0.0 empty ∷ rest.0.1,
          one.0.1 || rest.0.2,
        ),
        rest.1,
      )

  -- After the calls of a round.
  unfoldable pub after_round : (LoopState J → W → Yield X W) → LoopState J → W → Yield X W
  after_round next s w =
      let rest = next s w in
      if leb l.config.max_consecutive_errors s.consecutive_errors
      then end_stream s.had_usage s.total (other "tool_errors") w
      else rest

  unfoldable pub execute_round :
      Option ToolChoice
      → (LoopState J → W → Yield X W)
      → TurnState
      → LoopState J
      → List RouterCall
      → W
      → Yield X W
  execute_round choice next t s router w =
      let called = surface_calls router w in
      yields called.0.0 (
        after_round next
          (next_state choice s (assistant_content empty t.assistant_text router)
            (called.0.1, called.0.2))
          called.1)

  -- What follows the upstream's last item.
  unfoldable pub end_turn :
      List String
      → ℕ
      → Option ToolChoice
      → (LoopState J → W → Yield X W)
      → TurnState
      → LoopState J
      → W
      → Yield X W
  end_turn owned start choice next t s w =
      let buffered = retain (λ (b : BufferedCall). not (str_eq b.name "")) t.buffered in
      let has_client = any (λ (b : BufferedCall). not (contains owned b.name)) buffered in
      let router =
        map router_call (retain (λ (b : BufferedCall). contains owned b.name) buffered) in
      let go = execute_round choice next t s router w in
      if has_client || is_empty router
      then yields (if has_client then handed_back buffered else [])
          (end_stream s.had_usage s.total (unwrap_or stop t.finish) w)
      else if leb l.config.max_iterations s.rounds || leb l.config.total_budget (l.now w - start)
      then end_stream s.had_usage s.total (other "max_tool_iterations") w
      else go

  -- The loop of `run_stream` on fuel; `out` stands where the fuel runs out.
  unfoldable pub merge_loop :
      (Prompt (Body J) J → W → Result (List (Result (StreamPart X))) × W)
      → Yield X W
      → List String
      → ℕ
      → Option ToolChoice
      → ℕ
      → LoopState J
      → W
      → Yield X W
  merge_loop upstream out owned start choice zero s w = out
  merge_loop upstream out owned start choice (suc fuel) s w =
      opened_turn (end_turn owned start choice (merge_loop upstream out owned start choice fuel)) s
        (upstream s.working w)

  -- `run_stream`: an error of the injection is returned before there is a stream.
  unfoldable pub run_stream :
      (Prompt (Body J) J → W → Result (List (Result (StreamPart X))) × W)
      → Yield X W
      → Prompt (Body J) J
      → W
      → Result (Yield X W)
  run_stream upstream out base w =
      let injected = inject l base w in
      injected.0 >>= λ i. ok (
        merge_loop upstream out i.1 (l.now injected.1) base.body.tool_choice
          (suc l.config.max_iterations) (initial show empty l i.0) injected.1)
