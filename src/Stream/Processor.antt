-- ===== src/Stream/Processor.antt =====
-- `StreamProcessor` of stream.rs: the hooks' chain on one part, and the end of a stream.
use bitrouter_ethglobal.Base.{
  ℕ, ◌+◌, String, Option, none, some, Bool, true, List, [], ◌∷◌, ◌++◌, ◌==◌, ◌&&◌, if◌then◌else◌,
}
use bitrouter_ethglobal.Error.{BitrouterError, Result}
use bitrouter_ethglobal.Types.{Usage, usage_default, RoutingTarget, StreamPart}
use bitrouter_ethglobal.Effect.{Act, pure, throw, emit, update, call, ◌>>=◌, ◌>>◌}
use bitrouter_ethglobal.Pipeline.Model.{Event, StreamOutcome, disconnected, stream_end}
use bitrouter_ethglobal.Stream.Accumulator.{
  UsageAccumulator, interest_matches, observe, finalized, estimated_output_tokens,
  estimated_prompt_tokens,
}

-- `StreamAction`.
pub data StreamAction (X : Type 0) : Type 0 where
  pass : StreamAction X
  replace : List (StreamPart X) → StreamAction X
  drop : StreamAction X
  abort : BitrouterError → StreamAction X

-- `StreamContext`; the caller, events, metadata and extensions are part of the world.
pub record StreamContext : Type 0 where
  pub request_id : String
  pub target : Option RoutingTarget
  pub accumulated_usage : UsageAccumulator
  pub parts_emitted : ℕ
  pub final_usage : Option Usage

module _ (X W : Type 0) where
  pub record StreamHook : Type 0 where
    pub interest : ℕ
    pub on_part : StreamContext → W → StreamPart X → Result (StreamAction X) × (StreamContext × W)
    pub on_stream_end : StreamContext → W → StreamOutcome → Result (Unit {0}) × (StreamContext × W)

  pub record StreamObserver : Type 0 where
    pub stream_interest : ℕ
    pub on_stream_part : StreamContext → StreamPart X → W → W

  -- `StreamProcessor` without its context, which `Live` has.
  pub record Hooks : Type 0 where
    pub hooks : List StreamHook
    pub observers : List StreamObserver

pub record Live (W : Type 0) : Type 0 where
  pub stream : StreamContext
  pub ended : Bool
  pub world : W

abbrev pub Step : Type 0 → Type 0 → Type 0 → Type 0 → Type 0
Step C X W A = Act (Live W) (Event C X) A

-- A hook's call, which may rewrite the stream's context.
abbrev pub hooked :
    {W A : Type 0} → (StreamContext → W → A × (StreamContext × W)) → Live W → A × Live W
hooked f s = let (a, (ctx, w)) = f s.stream s.world in (a, record s { stream = ctx; world = w })

module _ (C X W : Type 0) where
  -- What a hook's action makes of a part, before the rest of the parts.
  abbrev pub act_on :
      StreamPart X
      → StreamAction X
      → Step C X W (List (StreamPart X))
      → Step C X W (List (StreamPart X))
  act_on part pass rest = do next ← rest; pure (part ∷ next)
  act_on part (replace parts) rest = do next ← rest; pure (parts ++ next)
  act_on part drop rest = rest
  act_on part (abort e) rest = throw e

  unfoldable pub apply_hook :
      StreamHook X W → List (StreamPart X) → Step C X W (List (StreamPart X))
  apply_hook hook [] = pure []
  apply_hook hook (part ∷ parts) =
      let rest = apply_hook hook parts in
      if interest_matches hook.interest part
      then (call (hooked (λ ctx w. hook.on_part ctx w part)) >>= λ action. act_on part action rest)
      else act_on part pass rest

  unfoldable pub apply_hooks :
      List (StreamHook X W) → List (StreamPart X) → Step C X W (List (StreamPart X))
  apply_hooks [] parts = pure parts
  apply_hooks (hook ∷ hooks) parts = do next ← apply_hook hook parts; apply_hooks hooks next

module _ {X W : Type 0} where
  -- One part shown to the observers that are interested.
  unfoldable pub show_part : List (StreamObserver X W) → StreamPart X → Live W → Live W
  show_part [] part s = s
  show_part (obs ∷ observers) part s = show_part observers part (
      if interest_matches obs.stream_interest part
      then record s { world = obs.on_stream_part s.stream part s.world }
      else s)

  unfoldable pub fan_out : List (StreamObserver X W) → List (StreamPart X) → Live W → Live W
  fan_out observers [] s = s
  fan_out observers (part ∷ parts) s = fan_out observers parts (show_part observers part s)

  abbrev pub note_part : StreamPart X → Live W → Live W
  note_part part s = record s {
    stream = record s.stream {
      accumulated_usage = observe part s.stream.accumulated_usage;
      parts_emitted = s.stream.parts_emitted + 1;
    };
  }

module _ (C X W : Type 0) where
  unfoldable pub process_part : Hooks X W → StreamPart X → Step C X W (List (StreamPart X))
  process_part p part = do
    update (note_part part)
    current ← apply_hooks C X W p.hooks (part ∷ [])
    update (fan_out p.observers current)
    pure current

  -- Every hook is told of the end; its error is logged and dropped.
  unfoldable pub end_hooks : List (StreamHook X W) → StreamOutcome → Step C X W (Unit {0})
  end_hooks [] outcome = pure tt
  end_hooks (hook ∷ hooks) outcome = do
    update (λ s. (hooked (λ ctx w. hook.on_stream_end ctx w outcome) s).1)
    emit (stream_end outcome)
    end_hooks hooks outcome

abbrev pub estimate : ℕ → ℕ → Option Usage → Option Usage
estimate prompt_tokens completion_tokens before =
    if prompt_tokens == 0 && completion_tokens == 0
    then before
    else some (record usage_default {
      prompt_tokens = prompt_tokens;
      completion_tokens = completion_tokens;
    })

-- The last `if let` of `finish`: the usage to settle.
abbrev pub bill : Option Usage → UsageAccumulator → StreamOutcome → Option Usage → Option Usage
bill (some u) acc outcome before = some u
bill none acc disconnected before =
    estimate (estimated_prompt_tokens acc) (estimated_output_tokens acc) before
bill none acc outcome before = before

abbrev pub set_final : StreamOutcome → StreamContext → StreamContext
set_final outcome ctx = record ctx {
  final_usage =
      bill (finalized ctx.accumulated_usage) ctx.accumulated_usage outcome ctx.final_usage;
}

module _ (C X W : Type 0) where
  -- `StreamProcessor::finish`.
  unfoldable pub finish : Hooks X W → StreamOutcome → Step C X W (Unit {0})
  finish p outcome s =
      if s.ended
      then pure tt s
      else ((update (λ s. record s { ended = true })
            >> (end_hooks C X W p.hooks outcome
                >> update (λ s. record s { stream = set_final outcome s.stream })))
          s)
