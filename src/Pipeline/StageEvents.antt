-- ===== src/Pipeline/StageEvents.antt =====
-- What each stage of the pipeline tells observers and recorders.
use bitrouter_ethglobal.Base.{
  ◌≡◌, refl, ap, sym, ◌∙◌, subst, String, Option, none, some, List, [], ◌∷◌, ◌++◌, append-nil, All,
  All-append,
}
use bitrouter_ethglobal.Error.{Result, ok, err, HookDecision, allow, deny, from_deny}
use bitrouter_ethglobal.Types.{RoutingTarget}
use bitrouter_ethglobal.Effect.{Act, throw, call, continue, attempt, ◌>>=◌}
use bitrouter_ethglobal.Pipeline.Model.{
  Prompt, Event, hop_start, hop_end, Turns, finish, upstream, work, State, Pipeline,
}
use bitrouter_ethglobal.Pipeline.Stages.{
  apply_preset_overrides, ask, M, run_pre_request, run_route_hooks, nonempty_route, lift,
  resolve_route, execute_with_fallback, run_turns, stage_three,
}
use bitrouter_ethglobal.Routing.{RoutingPrefs, prefs_default}
use bitrouter_ethglobal.Pipeline.Hops.{Hop, hop_events}
use bitrouter_ethglobal.Pipeline.Hops.Default.{execute_with_fallback-Walks}

module _ {S E A B : Type 0} where
  pub bind-quiet :
      (m : Act S E A) (k : A → Act S E B) (s : S)
      → (m s).events ≡ []
      → ((a : A) (s' : S) → (k a s').events ≡ [])
      → ((m >>= k) s).events ≡ []
  bind-quiet m k s h next = quiet (m s).result (m s).state (m s).events h
    where
      quiet : (r : Result A) (s' : S) (es : List E) → es ≡ [] → es ++ (continue r k s').events ≡ []
      quiet (ok a) s' es h = ap (λ l. l ++ (k a s').events) h ∙ next a s'
      quiet (err e) s' es h = append-nil es ∙ h

  pub bind-All :
      (P : E → Type 0) (m : Act S E A) (k : A → Act S E B) (s : S)
      → All P (m s).events
      → ((a : A) (s' : S) → All P (k a s').events)
      → All P ((m >>= k) s).events
  bind-All P m k s h next = All-append P (m s).events _ h (rest (m s).result (m s).state)
    where
      rest : (r : Result A) (s' : S) → All P (continue r k s').events
      rest (ok a) s' = next a s'
      rest (err e) s' = tt

module _ {C X : Type 0} where
  abbrev pub IsHopEvent : Event C X → Type 0
  IsHopEvent (hop_start t) = Unit {0}
  IsHopEvent (hop_end t o) = Unit {0}
  IsHopEvent _ = ⊥

  hop_events-All : (hops : List (Hop C X)) → All IsHopEvent (hop_events hops)
  hop_events-All [] = tt
  hop_events-All ((t, o) ∷ hops) = (tt, (tt, hop_events-All hops))

module _ {B C X W K : Type 0} (p : Pipeline B C X W K) where
  abbrev decided :
      List (State B C X W → Result HookDecision × State B C X W) → HookDecision → M p (Unit {0})
  decided hooks d = elim d [
    | allow ↦ run_pre_request p hooks
    | deny reason ↦ throw (from_deny reason)
  ]

  decision_quiet :
      (hooks : List (State B C X W → Result HookDecision × State B C X W)) (d : HookDecision)
      → ((s : State B C X W) → (run_pre_request p hooks s).events ≡ [])
      → (s : State B C X W) → (decided hooks d s).events ≡ []
  decision_quiet hooks allow ih s = ih s
  decision_quiet hooks (deny reason) ih s = refl

  pub run_pre_request-quiet :
      (hooks : List (State B C X W → Result HookDecision × State B C X W)) (s : State B C X W)
      → (run_pre_request p hooks s).events ≡ []
  unfolding run_pre_request
  run_pre_request-quiet [] s = refl
  run_pre_request-quiet (hook ∷ hooks) s =
      bind-quiet (call hook) _ s refl
        (λ d s'. decision_quiet hooks d (run_pre_request-quiet hooks) s')

  run_route_hooks-quiet :
      (hooks : List
        (List RoutingTarget → State B C X W → Result (List RoutingTarget) × State B C X W))
      (chain : List RoutingTarget) (s : State B C X W)
      → (run_route_hooks p hooks chain s).events ≡ []
  unfolding run_route_hooks
  run_route_hooks-quiet [] chain s = refl
  run_route_hooks-quiet (hook ∷ hooks) chain s =
      bind-quiet (call (hook chain)) _ s refl (λ chain' s'. run_route_hooks-quiet hooks chain' s')

  nonempty_route-quiet :
      (model : String) (chain : List RoutingTarget) (s : State B C X W)
      → (nonempty_route p model chain s).events ≡ []
  nonempty_route-quiet model [] s = refl
  nonempty_route-quiet model (t ∷ ts) s = refl

  lift-quiet : {A : Type 0} (r : Result A) (s : State B C X W) → (lift p r s).events ≡ []
  lift-quiet (ok a) s = refl
  lift-quiet (err e) s = refl

  pub resolve_route-quiet : (s : State B C X W) → (resolve_route p s).events ≡ []
  unfolding resolve_route
  resolve_route-quiet s =
      bind-quiet (call (ask p (λ s. p.preset_overrides s.ctx.model s.world))) _ s refl (λ o s1.
        let overridden : State B C X W = record s1 {
          ctx = record s1.ctx { prompt = apply_preset_overrides o s1.ctx.prompt };
        } in
        let prefs : RoutingPrefs K = record prefs_default {
          require_capabilities = p.required_capabilities overridden.ctx.prompt;
          inbound_protocol = s1.ctx.inbound_protocol;
        } in
        bind-quiet (call (ask p (λ s. p.route_table s.ctx.model prefs s.world))) _ overridden refl
          (λ chain s2.
            bind-quiet (run_route_hooks p p.route_hooks chain) _ s2
              (run_route_hooks-quiet _ chain s2) (λ chain' s3. nonempty_route-quiet _ chain' s3)))

  pub execute_with_fallback-hops :
      (chain : List RoutingTarget) (prompt : Prompt B X) (s : State B C X W)
      → All IsHopEvent (execute_with_fallback p chain prompt s).events
  execute_with_fallback-hops chain prompt s =
      let (hops, told, walk) = (execute_with_fallback-Walks p chain prompt s).0 in
      subst (All IsHopEvent) (sym told) (hop_events-All hops)

  run_turns-hops :
      (chain : List RoutingTarget) (turns : Turns B C X W) (s : State B C X W)
      → All IsHopEvent (run_turns p chain turns s).events
  unfolding run_turns
  run_turns-hops chain (finish r) s = subst (All IsHopEvent) (sym (lift-quiet r s)) tt
  run_turns-hops chain (upstream prompt k) s =
      bind-All IsHopEvent (attempt (execute_with_fallback p chain prompt))
        (λ r. run_turns p chain (k r)) s (execute_with_fallback-hops chain prompt s)
        (λ r s'. run_turns-hops chain (k r) s')
  run_turns-hops chain (work f k) s = run_turns-hops chain (k (f s.world)) _

  pub stage_three-hops :
      (loop : Option (Prompt B X → Turns B C X W)) (chain : List RoutingTarget)
      (prompt : Prompt B X) (s : State B C X W)
      → All IsHopEvent (stage_three p loop chain prompt s).events
  stage_three-hops none chain prompt s = execute_with_fallback-hops chain prompt s
  stage_three-hops (some loop) chain prompt s = run_turns-hops chain (loop prompt) s
