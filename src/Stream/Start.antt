-- ===== src/Stream/Start.antt =====
-- `Pipeline::execute_stream` up to the stream that it returns, and `execute_stream_with_fallback`.
use bitrouter_ethglobal.Base.{String, Option, none, some, false, List, [], ◌∷◌, first, unwrap_or}
use bitrouter_ethglobal.Error.{BitrouterError, not_found, Result, ok, err}
use bitrouter_ethglobal.Types.{RoutingTarget, ExecutionResult, StreamPart}
use bitrouter_ethglobal.Routing.{try_next, fail}
use bitrouter_ethglobal.Effect.{pure, throw, update, gets, call, attempt, ◌>>=◌, ◌>>◌}
use bitrouter_ethglobal.Pipeline.Model.{
  Prompt, pre_request, route, execution, HopOutcome, stream_started, hop_failed, after_phase,
  hop_start, hop_end, State, Pipeline,
}
use bitrouter_ethglobal.Pipeline.Stages.{
  M, tell, ask, run_pre_request, resolve_route, classify_with,
}
use bitrouter_ethglobal.Stream.Drive.{stream_context, Held}

-- An upstream stream, as the items that it will yield.
abbrev pub Upstream : Type 0 → Type 0
Upstream X = List (Result (StreamPart X))

-- The placeholder that settlement takes the ids from; its usage comes with the end of the stream.
abbrev pub placeholder :
    {C X : Type 0}
    → Option RoutingTarget
    → Option (ExecutionResult C X)
    → Option (ExecutionResult C X)
placeholder none before = before
placeholder (some target) before = some (record {
  provider_id = target.provider_name;
  model_id = target.service_id;
  account_label = target.account_label;
  result = record {
    content = [];
    usage = none;
    finish_reason = none;
    response_id = none;
    stop_details = none;
    provider_metadata = [];
  };
  latency_ms = 0;
  generation_time_ms = 0;
})

module _ {B C X W K : Type 0} (p : Pipeline B C X W K) where
  abbrev pub stream_hop_outcome : Result (Upstream X) → HopOutcome C X
  stream_hop_outcome (ok upstream) = stream_started
  stream_hop_outcome (err e) = hop_failed e

  -- Once a stream has started there is no more fallback.
  abbrev pub after_stream_hop :
      Result (Upstream X) → RoutingTarget → (BitrouterError → M p (Upstream X)) → M p (Upstream X)
  after_stream_hop (ok upstream) target next = pure upstream
  after_stream_hop (err e) target next = do
    decision ← classify_with p p.execution_hooks e target
    elim decision [ try_next ↦ next e | fail e' ↦ throw e' ]

  unfoldable pub stream_loop :
      Option BitrouterError → List RoutingTarget → Prompt B X → M p (Upstream X)
  stream_loop last [] prompt = throw (unwrap_or (not_found "empty routing chain") last)
  stream_loop last (target ∷ chain) prompt = do
    tell p (hop_start target)
    outcome ← attempt (call (ask p (p.execute_stream target prompt)))
    tell p (hop_end target (stream_hop_outcome outcome))
    after_stream_hop outcome target (λ e. stream_loop (some e) chain prompt)

  -- The server-side tool loop merges the streams of its turns; its upstream calls are its own.
  abbrev pub ToolStream : Type 0
  ToolStream = Option (Prompt B X → List RoutingTarget → State B C X W → Result (Upstream X) × W)

  abbrev pub start_upstream : ToolStream → List RoutingTarget → Prompt B X → M p (Upstream X)
  start_upstream none chain prompt = stream_loop none chain prompt
  start_upstream (some loop) chain prompt = call (ask p (loop prompt chain))

  abbrev pub hold : (Prompt B X → List String) → State B C X W → Held B C X W
  hold texts s = record {
    live = record { stream = stream_context texts s.ctx; ended = false; world = s.world };
    ctx = s.ctx;
  }

  abbrev pub after_upstream :
      (Prompt B X → List String) → List RoutingTarget → Upstream X → M p (Upstream X × Held B C X W)
  after_upstream texts chain upstream = do
    update (λ s. record s {
      ctx = record s.ctx { execution_result = placeholder (first chain) s.ctx.execution_result };
    })
    tell p (after_phase execution)
    s ← gets (λ s. s)
    pure (upstream, hold texts s)

  abbrev pub after_stream_route :
      ToolStream → (Prompt B X → List String) → List RoutingTarget → M p (Upstream X × Held B C X W)
  after_stream_route tools texts chain = do
    tell p (after_phase route)
    ctx ← gets (λ s. s.ctx)
    upstream ← start_upstream tools chain ctx.prompt
    after_upstream texts chain upstream

  abbrev pub after_stream_pre_request :
      ToolStream → (Prompt B X → List String) → M p (Upstream X × Held B C X W)
  after_stream_pre_request tools texts = do
    tell p (after_phase pre_request)
    chain ← resolve_route p
    after_stream_route tools texts chain

  unfoldable pub execute_stream :
      ToolStream → (Prompt B X → List String) → M p (Upstream X × Held B C X W)
  execute_stream tools texts = do
    run_pre_request p p.pre_request_hooks
    after_stream_pre_request tools texts
