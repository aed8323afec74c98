-- ===== src/Pipeline/Hops/Trials.antt =====
-- The votes of the execution hooks on one try of the fallback loop, and what the executor is asked.
use bitrouter_ethglobal.Base.{
  ◌≡◌, ◌⊎◌, inl, inr, refl, List, [], ◌∷◌, Option, some, All, All-append, subst, sym,
}
use bitrouter_ethglobal.Error.{BitrouterError, Result, ok, err}
use bitrouter_ethglobal.Types.{RoutingTarget, ExecutionResult}
use bitrouter_ethglobal.Routing.{FallbackDecision, try_next, fail}
use bitrouter_ethglobal.Routing.Retry.{IsRetryable}
use bitrouter_ethglobal.Effect.{Outcome, pure, throw, continue, ◌>>◌}
use bitrouter_ethglobal.Pipeline.Model.{
  Prompt, Context, Event, hop_start, hop_end, State, ExecutionHook, Pipeline,
}
use bitrouter_ethglobal.Pipeline.Stages.{
  M, tell, classify_with, run_success_hooks, hop_outcome, after_hop, fallback_loop,
}

module _ {C X : Type 0} where
  -- A generated result stays, or a success hook turns it into a failure.
  abbrev pub KeptOrFailed : ExecutionResult C X → Result (ExecutionResult C X) → Type 0
  KeptOrFailed result r = (r ≡ ok result) ⊎ ((e : BitrouterError) × (r ≡ err e))

  abbrev pub AnyFailure : BitrouterError → Result (ExecutionResult C X) → Type 0
  AnyFailure e r = (e' : BitrouterError) × (r ≡ err e')

  abbrev pub SameResult : ExecutionResult C X → Result (ExecutionResult C X) → Type 0
  SameResult result r = r ≡ ok result

  abbrev pub PermanentFailure : BitrouterError → Result (ExecutionResult C X) → Type 0
  PermanentFailure e r = (¬ (IsRetryable e)) × (r ≡ err e)

module _ {B C X W K : Type 0} (p : Pipeline B C X W K) where
  -- A decision, whatever it is.
  abbrev pub IsDecision : Result FallbackDecision → Type 0
  IsDecision d = (d ≡ ok try_next) ⊎ ((e : BitrouterError) × (d ≡ ok (fail e)))

  is_decision : (d : FallbackDecision) → IsDecision (ok d)
  is_decision try_next = inl refl
  is_decision (fail e) = inr (e, refl)

  abbrev voted : M p FallbackDecision → FallbackDecision → M p FallbackDecision
  voted rest vote = elim vote [ try_next ↦ rest | fail e' ↦ pure (fail e') ]

  abbrev pub Quiet : M p FallbackDecision → State B C X W → Type 0
  Quiet m s = ((m s).events ≡ []) × IsDecision (m s).result

  voted-Quiet :
      (rest : M p FallbackDecision) (vote : FallbackDecision) (s : State B C X W)
      → Quiet rest s
      → Quiet (voted rest vote) s
  voted-Quiet rest try_next s q = q
  voted-Quiet rest (fail e) s q = (refl, inr (e, refl))

  pub classify_with-Quiet :
      (hooks : List (ExecutionHook B C X W)) (e : BitrouterError) (t : RoutingTarget)
      (s : State B C X W)
      → Quiet (classify_with p hooks e t) s
  unfolding classify_with
  classify_with-Quiet [] e t s = (refl, is_decision (p.classify e t))
  classify_with-Quiet (hook ∷ hooks) e t s =
      voted-Quiet (classify_with p hooks e t) (hook.on_failure e s).0 _
        (classify_with-Quiet hooks e t _)

  abbrev pub Finished : List (ExecutionHook B C X W) → ExecutionResult C X → State B C X W → Type 0
  Finished hooks result s =
      ((run_success_hooks p hooks result >> pure result) s).events ≡ []
      × KeptOrFailed result ((run_success_hooks p hooks result >> pure result) s).result

  finish_step :
      (hook : ExecutionHook B C X W) (hooks : List (ExecutionHook B C X W))
      (result : ExecutionResult C X) (s : State B C X W) (r : Result (Unit {0}))
      → ((s' : State B C X W) → Finished hooks result s')
      → (hook.on_success result s).0 ≡ r
      → Finished (hook ∷ hooks) result s
  unfolding run_success_hooks
  finish_step hook hooks result s (ok u) ih h = rw h (ih _)
  finish_step hook hooks result s (err e) ih h = rw h (refl, inr (e, refl))

  pub run_success_hooks-Finished :
      (hooks : List (ExecutionHook B C X W)) (result : ExecutionResult C X) (s : State B C X W)
      → Finished hooks result s
  unfolding run_success_hooks
  run_success_hooks-Finished [] result s = (refl, inl refl)
  run_success_hooks-Finished (hook ∷ hooks) result s =
      finish_step hook hooks result s _ (λ s'. run_success_hooks-Finished hooks result s') refl

  pub judged :
      (e : BitrouterError) (d : Result FallbackDecision)
      → IsDecision d
      → ((d ≡ ok try_next) × Unit {0})
        ⊎ ((e' : BitrouterError) × (d ≡ ok (fail e')) × AnyFailure {C = C} {X = X} e (err e'))
  judged e d (inl h) = inl (h, tt)
  judged e d (inr (e', h)) = inr (e', h, (e', refl))

  -- What observers are told of a hop's end is what the executor answers for that very target, with
  -- this prompt, in this context and some world.
  abbrev pub Executed : Prompt B X → Context B C X → Event C X → Type 0
  Executed prompt ctx (hop_end t outcome) =
      (w : W) × (outcome ≡ hop_outcome p (p.execute t prompt (record { ctx = ctx; world = w })).0)
  Executed prompt ctx _ = Unit

  Quiet-Executed :
      (prompt : Prompt B X) (ctx : Context B C X) (events : List (Event C X))
      → events ≡ []
      → All (Executed prompt ctx) events
  Quiet-Executed prompt ctx events e = subst (All (Executed prompt ctx)) (sym e) tt

  -- An action that keeps the request's context.
  abbrev Still : {A : Type 0} → Context B C X → Outcome (State B C X W) (Event C X) A → Type 0
  Still ctx out = out.state.ctx ≡ ctx

  voted-Still :
      (rest : M p FallbackDecision) (vote : FallbackDecision) (s : State B C X W)
      → Still s.ctx (rest s)
      → Still s.ctx (voted rest vote s)
  voted-Still rest try_next s h = h
  voted-Still rest (fail e) s h = refl

  classify_with-Still :
      (hooks : List (ExecutionHook B C X W)) (e : BitrouterError) (t : RoutingTarget)
      (s : State B C X W)
      → Still s.ctx (classify_with p hooks e t s)
  unfolding classify_with
  classify_with-Still [] e t s = refl
  classify_with-Still (hook ∷ hooks) e t s =
      voted-Still (classify_with p hooks e t) (hook.on_failure e s).0 _
        (classify_with-Still hooks e t (record s { world = (hook.on_failure e s).1 }))

  decided_events :
      (prompt : Prompt B X) (ctx : Context B C X) (d : Result FallbackDecision) (e : BitrouterError)
      (next : BitrouterError → M p (ExecutionResult C X)) (s : State B C X W)
      → s.ctx ≡ ctx
      → ((s' : State B C X W) → s'.ctx ≡ ctx → All (Executed prompt ctx) (next e s').events)
      → All
          (Executed prompt ctx)
          (continue d (λ v. elim v [ try_next ↦ next e | fail e' ↦ throw e' ]) s).events
  decided_events prompt ctx (ok try_next) e next s h ih = ih s h
  decided_events prompt ctx (ok (fail e')) e next s h ih = tt
  decided_events prompt ctx (err e') e next s h ih = tt

  after_hop-Executed :
      (prompt : Prompt B X) (t : RoutingTarget) (r : Result (ExecutionResult C X))
      (next : BitrouterError → M p (ExecutionResult C X)) (s : State B C X W)
      → ((e : BitrouterError) (s' : State B C X W)
          → s'.ctx ≡ s.ctx
          → All (Executed prompt s.ctx) (next e s').events)
      → All (Executed prompt s.ctx) (after_hop p r t next s).events
  after_hop-Executed prompt t (ok result) next s ih =
      Quiet-Executed prompt s.ctx _ (run_success_hooks-Finished p.execution_hooks result s).0
  after_hop-Executed prompt t (err e) next s ih =
      let judged_out = classify_with p p.execution_hooks e t s in
      All-append (Executed prompt s.ctx) judged_out.events _
        (Quiet-Executed prompt s.ctx _ (classify_with-Quiet p.execution_hooks e t s).0)
        (decided_events prompt s.ctx judged_out.result e next judged_out.state
          (classify_with-Still p.execution_hooks e t s) (λ s' h. ih e s' h))

  pub fallback_loop-Executed :
      (last : Option BitrouterError) (chain : List RoutingTarget) (prompt : Prompt B X)
      (s : State B C X W)
      → All (Executed prompt s.ctx) (fallback_loop p last chain prompt s).events
  unfolding fallback_loop tell
  fallback_loop-Executed last [] prompt s = tt
  fallback_loop-Executed last (t ∷ chain) prompt s =
      let told = p.observe (hop_start t) s.world in
      let r = p.execute t prompt (record s { world = told }) in
      (
        tt,
        (
          (told, refl),
          after_hop-Executed prompt t r.0 (λ e. fallback_loop p (some e) chain prompt)
              (record s { world = p.observe (hop_end t (hop_outcome p r.0)) r.1 })
              (λ e s' h.
                subst
                  (λ c. All (Executed prompt c) (fallback_loop p (some e) chain prompt s').events) h
                  (fallback_loop-Executed (some e) chain prompt s')),
        ),
      )
