-- ===== src/Pipeline/Stages.antt =====
-- `Pipeline::execute` and its stage helpers.
use Prim.Native.String.{◌++◌ as append}
use bitrouter_ethglobal.Base.{
  String, Option, none, some, Bool, List, [], ◌∷◌, first, or_else, unwrap_or, insert, contains_key,
  if◌then◌else◌,
}
use bitrouter_ethglobal.Error.{
  BitrouterError, not_found, Result, ok, err, HookDecision, allow, deny, from_deny,
}
use bitrouter_ethglobal.Types.{Usage, usage_default, RoutingTarget, ExecutionResult}
use bitrouter_ethglobal.Routing.{
  prefs_default, PromptOverrides, overrides_empty, FallbackDecision, try_next, fail,
}
use bitrouter_ethglobal.Effect.{Act, pure, throw, emit, update, gets, call, attempt, ◌>>=◌, ◌>>◌}
use bitrouter_ethglobal.Pipeline.Model.{
  Prompt, Context, HopOutcome, generated, hop_failed, Settlement, Event, hop_start, hop_end,
  settled, recorded, Turns, finish, upstream, work, State, ExecutionHook, Pipeline,
}

-- `or_insert_with`: an explicit request value is kept.
module _ {X : Type 0} where
  unfoldable pub fill_params : List (String × X) → List (String × X) → List (String × X)
  fill_params extra [] = extra
  fill_params extra ((k, v) ∷ params) =
      fill_params (if contains_key k extra then extra else insert k v extra) params

  -- `PipelineContext::apply_preset_overrides`, on the prompt.
  unfoldable pub apply_preset_overrides : {B : Type 0} → PromptOverrides X → Prompt B X → Prompt B X
  apply_preset_overrides o p = if overrides_empty o then p else record p {
    system = or_else p.system o.system_prompt;
    extra = fill_params p.extra o.params;
  }

module _ {C X : Type 0} where
  abbrev pub usage_of : Option (ExecutionResult C X) → Usage
  usage_of none = usage_default
  usage_of (some e) = unwrap_or usage_default e.result.usage

  abbrev pub with_result :
      {A : Type 0} → A → (ExecutionResult C X → A) → Option (ExecutionResult C X) → A
  with_result d f none = d
  with_result d f (some e) = f e

module _ {B C X : Type 0} where
  -- `PipelineContext::settlement_context`, with the two fields that `run_settlement` sets.
  unfoldable pub settlement_context : Context B C X → Bool → Option BitrouterError → Settlement
  settlement_context ctx streamed error = record {
    request_id = ctx.request_id;
    target = first (unwrap_or [] ctx.route_chain);
    model_id = with_result "" (λ e. e.model_id) ctx.execution_result;
    provider_id = with_result "" (λ e. e.provider_id) ctx.execution_result;
    account_label = with_result none (λ e. e.account_label) ctx.execution_result;
    usage = usage_of ctx.execution_result;
    streamed = streamed;
    latency_ms = with_result 0 (λ e. e.latency_ms) ctx.execution_result;
    generation_time_ms = with_result 0 (λ e. e.generation_time_ms) ctx.execution_result;
    error = error;
  }

module _ {B C X W K : Type 0} (p : Pipeline B C X W K) where
  abbrev pub M : Type 0 → Type 0
  M A = Act (State B C X W) (Event C X) A

  -- `observe_after`, `observe_hop_start`, `observe_hop_end` and `observe_end`: every observer is told.
  unfoldable pub tell : Event C X → M (Unit {0})
  tell e s = record {
    result = ok tt;
    state = record s { world = p.observe e s.world };
    events = e ∷ [];
  }

  -- A collaborator that reads the context and changes the world.
  abbrev pub ask : {A : Type 0} → (State B C X W → A × W) → State B C X W → A × State B C X W
  ask f s = ((f s).0, record s { world = (f s).1 })

  unfoldable pub run_pre_request :
      List (State B C X W → Result HookDecision × State B C X W) → M (Unit {0})
  run_pre_request [] = pure tt
  run_pre_request (hook ∷ hooks) = do
    decision ← call hook
    elim decision [ allow ↦ run_pre_request hooks | deny reason ↦ throw (from_deny reason) ]

  unfoldable pub run_route_hooks :
      List (List RoutingTarget → State B C X W → Result (List RoutingTarget) × State B C X W)
      → List RoutingTarget
      → M (List RoutingTarget)
  run_route_hooks [] chain = pure chain
  run_route_hooks (hook ∷ hooks) chain = do chain' ← call (hook chain); run_route_hooks hooks chain'

  abbrev pub lift : {A : Type 0} → Result A → M A
  lift (ok a) = pure a
  lift (err e) = throw e

  abbrev pub nonempty_route : String → List RoutingTarget → M (List RoutingTarget)
  nonempty_route model [] = throw (not_found (append "no route for model '" (append model "'")))
  nonempty_route model (t ∷ ts) = do
    update (λ s. record s { ctx = record s.ctx { route_chain = some (t ∷ ts) } })
    pure (t ∷ ts)

  unfoldable pub resolve_route : M (List RoutingTarget)
  resolve_route = do
    ctx ← gets (λ s. s.ctx)
    overrides ← call (ask (λ s. p.preset_overrides ctx.model s.world))
    update (λ s. record s {
      ctx = record s.ctx { prompt = apply_preset_overrides overrides s.ctx.prompt };
    })
    s ← gets (λ s. s)
    let prefs = record prefs_default {
      require_capabilities = p.required_capabilities s.ctx.prompt;
      inbound_protocol = s.ctx.inbound_protocol;
    }
    chain ← call (ask (λ s. p.route_table s.ctx.model prefs s.world))
    chain' ← run_route_hooks p.route_hooks chain
    ctx' ← gets (λ s. s.ctx)
    nonempty_route ctx'.model chain'

  -- Any execution hook that votes to fail decides; otherwise the policy does.
  unfoldable pub classify_with :
      List (ExecutionHook B C X W) → BitrouterError → RoutingTarget → M FallbackDecision
  classify_with [] e target = pure (p.classify e target)
  classify_with (hook ∷ hooks) e target = do
    vote ← call (λ s. let r = ask (hook.on_failure e) s in (ok r.0, r.1))
    elim vote [ try_next ↦ classify_with hooks e target | fail e' ↦ pure (fail e') ]

  unfoldable pub run_success_hooks :
      List (ExecutionHook B C X W) → ExecutionResult C X → M (Unit {0})
  run_success_hooks [] result = pure tt
  run_success_hooks (hook ∷ hooks) result = do
    call (ask (hook.on_success result))
    run_success_hooks hooks result

  abbrev pub hop_outcome : Result (ExecutionResult C X) → HopOutcome C X
  hop_outcome (ok result) = generated result
  hop_outcome (err e) = hop_failed e

  -- The second match of the loop's body; `next` goes on to the next target.
  abbrev pub after_hop :
      Result (ExecutionResult C X)
      → RoutingTarget
      → (BitrouterError → M (ExecutionResult C X))
      → M (ExecutionResult C X)
  after_hop (ok result) target next = do run_success_hooks p.execution_hooks result; pure result
  after_hop (err e) target next = do
    decision ← classify_with p.execution_hooks e target
    elim decision [ try_next ↦ next e | fail e' ↦ throw e' ]

  unfoldable pub fallback_loop :
      Option BitrouterError → List RoutingTarget → Prompt B X → M (ExecutionResult C X)
  fallback_loop last [] prompt = throw (unwrap_or (not_found "empty routing chain") last)
  fallback_loop last (target ∷ chain) prompt = do
    tell (hop_start target)
    outcome ← attempt (call (ask (p.execute target prompt)))
    tell (hop_end target (hop_outcome outcome))
    after_hop outcome target (λ e. fallback_loop (some e) chain prompt)

  unfoldable pub execute_with_fallback : List RoutingTarget → Prompt B X → M (ExecutionResult C X)
  execute_with_fallback chain prompt = fallback_loop none chain prompt

  -- `PipelineUpstream` under the server-side tool loop.
  unfoldable pub run_turns : List RoutingTarget → Turns B C X W → M (ExecutionResult C X)
  run_turns chain (finish r) = lift r
  run_turns chain (upstream prompt k) = do
    r ← attempt (execute_with_fallback chain prompt)
    run_turns chain (k r)
  run_turns chain (work f k) = do
    update (λ s. record s { world = f s.world })
    s ← gets (λ s. s)
    run_turns chain (k s.world)

  abbrev pub stage_three :
      Option (Prompt B X → Turns B C X W)
      → List RoutingTarget
      → Prompt B X
      → M (ExecutionResult C X)
  stage_three none chain prompt = execute_with_fallback chain prompt
  stage_three (some loop) chain prompt = run_turns chain (loop prompt)

  -- One recorder's call: it may rewrite the settlement, and its error is logged and dropped.
  abbrev pub run_recorder :
      (Settlement → W → Result (Unit {0}) × Settlement × W) → Settlement → M Settlement
  run_recorder recorder settle s =
      let out = recorder settle s.world in
      record {
        result = ok (out.1);
        state = record s { world = out.2 };
        events = recorded settle ∷ [];
      }

  unfoldable pub run_recorders :
      List (Settlement → W → Result (Unit {0}) × Settlement × W) → Settlement → M (Unit {0})
  run_recorders [] settle = pure tt
  run_recorders (recorder ∷ recorders) settle = do
    settle' ← run_recorder recorder settle
    run_recorders recorders settle'

  unfoldable pub run_settlement : Bool → Option BitrouterError → M (Unit {0})
  run_settlement streamed error = do
    ctx ← gets (λ s. s.ctx)
    let settle = settlement_context ctx streamed error
    emit (settled settle)
    run_recorders p.settlement_recorders settle
