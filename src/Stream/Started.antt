-- ===== src/Stream/Started.antt =====
-- What a streaming request has done when its stream starts, or fails to.
use bitrouter_ethglobal.Base.{
  ◌≡◌, refl, sym, subst, String, Option, none, some, false, List, [], ◌∷◌, All,
}
use bitrouter_ethglobal.Error.{BitrouterError, Result, ok, err}
use bitrouter_ethglobal.Types.{RoutingTarget}
use bitrouter_ethglobal.Routing.{FallbackDecision, try_next, fail}
use bitrouter_ethglobal.Effect.{Act, throw, continue, ◌>>=◌}
use bitrouter_ethglobal.Pipeline.Model.{
  Prompt, Event, after_phase, hop_start, hop_end, State, Pipeline,
}
use bitrouter_ethglobal.Pipeline.Stages.{M, tell, run_pre_request, resolve_route, classify_with}
use bitrouter_ethglobal.Pipeline.StageEvents.{bind-All, run_pre_request-quiet, resolve_route-quiet}
use bitrouter_ethglobal.Pipeline.Hops.Trials.{classify_with-Quiet}
use bitrouter_ethglobal.Stream.Accumulator.{with_prompt_chars}
use bitrouter_ethglobal.Stream.Drive.{prompt_text_chars, stream_context, Held}
use bitrouter_ethglobal.Stream.Start.{
  Upstream, after_stream_hop, stream_loop, ToolStream, start_upstream, after_upstream,
  after_stream_route, after_stream_pre_request, execute_stream,
}

-- Neither a settlement nor an end.
abbrev pub IsProgress : {C X : Type 0} → Event C X → Type 0
IsProgress (after_phase phase) = Unit {0}
IsProgress (hop_start t) = Unit {0}
IsProgress (hop_end t o) = Unit {0}
IsProgress _ = ⊥

-- What holds of a result's value, if it has one.
abbrev pub Returns : {A : Type 0} → (A → Type 0) → Result A → Type 0
Returns P (ok a) = P a
Returns P (err e) = Unit {0}

bind-Returns :
    {S E A D : Type 0} (P : D → Type 0) (m : Act S E A) (k : A → Act S E D) (s : S)
    → ((a : A) (s' : S) → Returns P (k a s').result)
    → Returns P ((m >>= k) s).result
bind-Returns P m k s h = next (m s).result (m s).state
  where
    next : (r : Result _) (s' : _) → Returns P (continue r k s').result
    next (ok a) s' = h a s'
    next (err e) s' = tt

module _ {B C X W K : Type 0} (p : Pipeline B C X W K) where
  tell-IsProgress :
      (e : Event C X) (s : State B C X W) → IsProgress e → All IsProgress (tell p e s).events
  unfolding tell
  tell-IsProgress e s h = (h, tt)

  abbrev decided :
      (BitrouterError → M p (Upstream X)) → BitrouterError → FallbackDecision → M p (Upstream X)
  decided next e d = elim d [ try_next ↦ next e | fail e' ↦ throw e' ]

  decided-IsProgress :
      (next : BitrouterError → M p (Upstream X)) (e : BitrouterError) (d : FallbackDecision)
      (s : State B C X W)
      → ((s' : State B C X W) → All IsProgress (next e s').events)
      → All IsProgress (decided next e d s).events
  decided-IsProgress next e try_next s h = h s
  decided-IsProgress next e (fail e') s h = tt

  after_stream_hop-IsProgress :
      (r : Result (Upstream X)) (t : RoutingTarget) (next : BitrouterError → M p (Upstream X))
      (s : State B C X W)
      → ((e : BitrouterError) (s' : State B C X W) → All IsProgress (next e s').events)
      → All IsProgress (after_stream_hop p r t next s).events
  after_stream_hop-IsProgress (ok upstream) t next s h = tt
  after_stream_hop-IsProgress (err e) t next s h =
      bind-All IsProgress (classify_with p p.execution_hooks e t) (decided next e) s
        (subst (All IsProgress) (sym (classify_with-Quiet p p.execution_hooks e t s).0) tt)
        (λ d s'. decided-IsProgress next e d s' (h e))

  stream_loop-IsProgress :
      (last : Option BitrouterError) (chain : List RoutingTarget) (prompt : Prompt B X)
      (s : State B C X W)
      → All IsProgress (stream_loop p last chain prompt s).events
  unfolding stream_loop tell
  stream_loop-IsProgress last [] prompt s = tt
  stream_loop-IsProgress last (t ∷ chain) prompt s = (
    tt,
    (
      tt,
      after_stream_hop-IsProgress _ t (λ e. stream_loop p (some e) chain prompt) _
          (λ e s'. stream_loop-IsProgress (some e) chain prompt s'),
    ),
  )

  start_upstream-IsProgress :
      (tools : ToolStream p) (chain : List RoutingTarget) (prompt : Prompt B X) (s : State B C X W)
      → All IsProgress (start_upstream p tools chain prompt s).events
  start_upstream-IsProgress none chain prompt s = stream_loop-IsProgress none chain prompt s
  start_upstream-IsProgress (some loop) chain prompt s = tt

  module _ (tools : ToolStream p) (texts : Prompt B X → List String) where
    after_upstream-IsProgress :
        (chain : List RoutingTarget) (upstream : Upstream X) (s : State B C X W)
        → All IsProgress (after_upstream p texts chain upstream s).events
    unfolding tell
    after_upstream-IsProgress chain upstream s = (tt, tt)

    after_stream_route-IsProgress :
        (chain : List RoutingTarget) (s : State B C X W)
        → All IsProgress (after_stream_route p tools texts chain s).events
    unfolding tell
    after_stream_route-IsProgress chain s = (
      tt,
      bind-All IsProgress (start_upstream p tools chain s.ctx.prompt) (after_upstream p texts chain)
          _ (start_upstream-IsProgress tools chain s.ctx.prompt _)
          (λ upstream s'. after_upstream-IsProgress chain upstream s'),
    )

    after_stream_pre_request-IsProgress :
        (s : State B C X W) → All IsProgress (after_stream_pre_request p tools texts s).events
    unfolding tell
    after_stream_pre_request-IsProgress s = (
      tt,
      bind-All IsProgress (resolve_route p) (after_stream_route p tools texts) _
          (subst (All IsProgress) (sym (resolve_route-quiet p _)) tt)
          (λ chain s'. after_stream_route-IsProgress chain s'),
    )

    -- A stream that starts has a live context: it has not ended, has seen nothing, and knows the
    -- characters of the prompt.
    abbrev pub IsFresh : Upstream X × Held B C X W → Type 0
    IsFresh (upstream, held) =
        (held.live.ended ≡ false)
        × (held.live.stream.accumulated_usage
            ≡ with_prompt_chars (prompt_text_chars texts held.ctx.prompt))
        × (held.live.stream.final_usage ≡ none)
        × (held.live.stream.parts_emitted ≡ 0)

    after_upstream-IsFresh :
        (chain : List RoutingTarget) (upstream : Upstream X) (s : State B C X W)
        → Returns IsFresh (after_upstream p texts chain upstream s).result
    unfolding tell stream_context
    after_upstream-IsFresh chain upstream s = (refl, refl, refl, refl)

    -- Until a streaming request hands out its stream, observers are told of phases and hops only:
    -- nothing is settled and no end is told, also when the request fails. A stream that is handed out
    -- has not ended, has seen no parts, and has its estimate seeded with the prompt's characters.
    pub execute_stream-Starts :
        (s : State B C X W)
        → All IsProgress (execute_stream p tools texts s).events
          × Returns IsFresh (execute_stream p tools texts s).result
    unfolding execute_stream tell
    execute_stream-Starts s = (
      bind-All IsProgress (run_pre_request p p.pre_request_hooks)
          (λ u. after_stream_pre_request p tools texts) s
          (subst (All IsProgress) (sym (run_pre_request-quiet p p.pre_request_hooks s)) tt)
          (λ u s'. after_stream_pre_request-IsProgress s'),
      bind-Returns IsFresh (run_pre_request p p.pre_request_hooks)
          (λ u. after_stream_pre_request p tools texts) s
          (λ u s1.
            bind-Returns IsFresh (resolve_route p) (after_stream_route p tools texts) _ (λ chain s2.
              bind-Returns IsFresh (start_upstream p tools chain s2.ctx.prompt)
                (after_upstream p texts chain) _
                (λ upstream s3. after_upstream-IsFresh chain upstream s3))),
    )
