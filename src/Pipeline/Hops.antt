-- ===== src/Pipeline/Hops.antt =====
-- The hops of a fallback chain: which upstreams are tried, what observers are told, and what the
-- request gets.
pub mod Trials
pub mod Default
use bitrouter_ethglobal.Base.{
  ◌≡◌, ◌≢◌, ◌⊎◌, inl, inr, refl, subst, ap, sym, ◌∙◌, Option, none, some, List, [], ◌∷◌, ◌++◌,
  append-nil, unwrap_or, arith,
}
use bitrouter_ethglobal.Error.{BitrouterError, not_found, Result, ok, err}
use bitrouter_ethglobal.Types.{RoutingTarget, ExecutionResult}
use bitrouter_ethglobal.Routing.{FallbackDecision, try_next, fail}
use bitrouter_ethglobal.Effect.{pure, throw, continue, ◌>>=◌, ◌>>◌}
use bitrouter_ethglobal.Pipeline.Model.{
  Prompt, HopOutcome, generated, stream_started, hop_failed, Event, hop_start, hop_end, State,
  Pipeline,
}
use bitrouter_ethglobal.Pipeline.Stages.{
  M, tell, classify_with, run_success_hooks, hop_outcome, after_hop, fallback_loop,
  execute_with_fallback,
}

abbrev pub Hop : Type 0 → Type 0 → Type 0
Hop C X = RoutingTarget × HopOutcome C X

module _ {C X : Type 0} where
  -- What observers are told of hops that were made one after the other.
  abbrev pub hop_events : List (Hop C X) → List (Event C X)
  hop_events [] = []
  hop_events ((t, o) ∷ hops) = hop_start t ∷ hop_end t o ∷ hop_events hops

  -- A walk along a chain: the targets are tried in order, each once, until one serves or a failure
  -- stops the walk; at the end of the chain the last failure is the result. `Served r` is what a
  -- generated result may turn into, `Stopped e` what a failure may that ends the walk, and `Moved e`
  -- holds of the failures that go on.
  module _ (Served : ExecutionResult C X → Result (ExecutionResult C X) → Type 0)
      (Stopped : BitrouterError → Result (ExecutionResult C X) → Type 0)
      (Moved : BitrouterError → Type 0) where
    abbrev pub Walk :
        Option BitrouterError
        → List RoutingTarget
        → List (Hop C X)
        → Result (ExecutionResult C X)
        → Type 0
    Walk last [] [] r = r ≡ err (unwrap_or (not_found "empty routing chain") last)
    Walk last [] (hop ∷ hops) r = ⊥
    Walk last (t ∷ chain) [] r = ⊥
    Walk last (t ∷ chain) ((u, generated result) ∷ hops) r = (u ≡ t) × (hops ≡ []) × Served result r
    Walk last (t ∷ chain) ((u, hop_failed e) ∷ hops) r =
        (u ≡ t) × (((hops ≡ []) × Stopped e r) ⊎ (Moved e × Walk (some e) chain hops r))
    Walk last (t ∷ chain) ((u, stream_started) ∷ hops) r = ⊥

    -- The events and the result of a part of the loop are those of a walk.
    abbrev pub Walks :
        Option BitrouterError
        → List RoutingTarget
        → List (Event C X)
        → Result (ExecutionResult C X)
        → Type 0
    Walks last chain events r =
        (hops : List (Hop C X)) × (events ≡ hop_events hops) × Walk last chain hops r

fail-eq :
    {a b : BitrouterError} → ◌≡◌ {A = Result FallbackDecision} (ok (fail a)) (ok (fail b)) → a ≡ b
fail-eq h = cc

module _ {B C X W K : Type 0} (p : Pipeline B C X W K)
    (Served : ExecutionResult C X → Result (ExecutionResult C X) → Type 0)
    (Stopped : BitrouterError → Result (ExecutionResult C X) → Type 0)
    (Moved : BitrouterError → Type 0)
    (served : (result : ExecutionResult C X) (s : State B C X W)
      → ((run_success_hooks p p.execution_hooks result >> pure result) s).events ≡ []
        × Served result ((run_success_hooks p p.execution_hooks result >> pure result) s).result)
    (judged : (e : BitrouterError) (t : RoutingTarget) (s : State B C X W)
      → ((classify_with p p.execution_hooks e t s).events ≡ [])
        × (((classify_with p p.execution_hooks e t s).result ≡ ok try_next) × Moved e
            ⊎ ((e' : BitrouterError) × ((classify_with p p.execution_hooks e t s).result
                  ≡ ok (fail e'))
                × Stopped e (err e')))) where
  abbrev decided :
      BitrouterError
      → (BitrouterError → M p (ExecutionResult C X))
      → FallbackDecision
      → M p (ExecutionResult C X)
  decided e next d = elim d [ try_next ↦ next e | fail e' ↦ throw e' ]

  decide-Walks :
      (last : Option BitrouterError) (t : RoutingTarget) (chain : List RoutingTarget)
      (e : BitrouterError) (next : BitrouterError → M p (ExecutionResult C X))
      (events : List (Event C X)) (d : Result FallbackDecision) (s : State B C X W)
      → ((s' : State B C X W)
          → Walks Served Stopped Moved (some e) chain (next e s').events (next e s').result)
      → events ≡ []
      → ((d ≡ ok try_next) × Moved e)
        ⊎ ((e' : BitrouterError) × (d ≡ ok (fail e')) × Stopped e (err e'))
      → Walks Served Stopped Moved last
          (t ∷ chain)
          (hop_start t
            ∷ hop_end t (hop_failed e)
            ∷ (events ++ (continue d (decided e next) s).events))
          (continue d (decided e next) s).result
  decide-Walks last t chain e next events (ok try_next) s ih quiet (inl (same, moved)) =
      let (hops, told, walk) = ih s in
      (
        (t, hop_failed e) ∷ hops,
        ap (λ l. hop_start t ∷ hop_end t (hop_failed e) ∷ l)
            (ap (λ l. l ++ (next e s).events) quiet ∙ told),
        (refl, inr (moved, walk)),
      )
  decide-Walks last t chain e next events (ok (fail e'')) s ih quiet (inr (e', same, stopped)) = (
    (t, hop_failed e) ∷ [],
    ap (λ l. hop_start t ∷ hop_end t (hop_failed e) ∷ l) (append-nil events ∙ quiet),
    (refl, inl (refl, subst (λ x. Stopped e (err x)) (fail-eq (sym same)) stopped)),
  )
  decide-Walks last t chain e next events (ok try_next) s ih quiet (inr (e', same, stopped)) = cc
  decide-Walks last t chain e next events (ok (fail e'')) s ih quiet (inl (same, moved)) = cc
  decide-Walks last t chain e next events (err e'') s ih quiet (inl (same, moved)) = cc
  decide-Walks last t chain e next events (err e'') s ih quiet (inr (e', same, stopped)) = cc

  after_hop-Walks :
      (last : Option BitrouterError) (t : RoutingTarget) (chain : List RoutingTarget)
      (r : Result (ExecutionResult C X)) (next : BitrouterError → M p (ExecutionResult C X))
      (s : State B C X W)
      → ((e : BitrouterError) (s' : State B C X W)
          → Walks Served Stopped Moved (some e) chain (next e s').events (next e s').result)
      → Walks Served Stopped Moved last
          (t ∷ chain)
          (hop_start t ∷ hop_end t (hop_outcome p r) ∷ (after_hop p r t next s).events)
          (after_hop p r t next s).result
  after_hop-Walks last t chain (ok result) next s ih =
      let (quiet, good) = served result s in
      (
        (t, generated result) ∷ [],
        ap (λ l. hop_start t ∷ hop_end t (generated result) ∷ l) quiet,
        (refl, refl, good),
      )
  after_hop-Walks last t chain (err e) next s ih =
      let (quiet, verdict) = judged e t s in
      decide-Walks last t chain e next _ _ _ (λ s'. ih e s') quiet verdict

  pub fallback_loop-Walks :
      (last : Option BitrouterError) (chain : List RoutingTarget) (prompt : Prompt B X)
      (s : State B C X W)
      → Walks Served Stopped Moved last chain
          (fallback_loop p last chain prompt s).events
          (fallback_loop p last chain prompt s).result
  unfolding fallback_loop tell
  fallback_loop-Walks last [] prompt s = ([], refl, refl)
  fallback_loop-Walks last (t ∷ chain) prompt s =
      after_hop-Walks last t chain _ (λ e. fallback_loop p (some e) chain prompt) _
        (λ e s'. fallback_loop-Walks (some e) chain prompt s')
