-- ===== src/Pipeline/Hops/Default.antt =====
-- The walk of a chain under any execution hooks, and under none with the default policy.
use bitrouter_ethglobal.Base.{◌≡◌, ◌⊎◌, inl, inr, refl, ap, none, List, [], ◌↔◌, All}
use bitrouter_ethglobal.Error.{BitrouterError, Result, ok, err}
use bitrouter_ethglobal.Types.{RoutingTarget}
use bitrouter_ethglobal.Routing
use bitrouter_ethglobal.Routing.{FallbackDecision, try_next, fail}
use bitrouter_ethglobal.Routing.Retry.{IsRetryable, classify-IsRetryable}
use bitrouter_ethglobal.Pipeline.Model.{Prompt, State, Pipeline}
use bitrouter_ethglobal.Pipeline.Stages.{classify_with, run_success_hooks, execute_with_fallback}
use bitrouter_ethglobal.Pipeline.Hops.{Walks, fallback_loop-Walks}
use bitrouter_ethglobal.Pipeline.Hops.Trials.{
  KeptOrFailed, AnyFailure, SameResult, PermanentFailure, classify_with-Quiet,
  run_success_hooks-Finished, judged, Executed, fallback_loop-Executed,
}

fail-ne-try_next : {e : BitrouterError} → fail e ≡ try_next → ⊥
fail-ne-try_next h = cc

abbrev decision_error : FallbackDecision → BitrouterError → BitrouterError
decision_error try_next e = e
decision_error (fail e') e = e'

module _ {B C X W K : Type 0} (p : Pipeline B C X W K) where
  -- Whatever the execution hooks and the fallback policy answer, the fallback loop tries the chain's
  -- targets in order from the head, each at most once, and tells observers of exactly one start and
  -- one end per try. The outcome told with the end of a try is what the executor answered for that
  -- target, with this prompt and this request's context. The first target that generates ends it, with
  -- that result unless a success hook fails; a failure ends it with some error or goes on to the next
  -- target; a chain that runs out ends with the last failure, an empty one with `NotFound`.
  pub execute_with_fallback-Walks :
      (chain : List RoutingTarget) (prompt : Prompt B X) (s : State B C X W)
      → Walks KeptOrFailed AnyFailure
          (λ e. Unit {0})
          none
          chain
          (execute_with_fallback p chain prompt s).events
          (execute_with_fallback p chain prompt s).result
        × All (Executed p prompt s.ctx) (execute_with_fallback p chain prompt s).events
  unfolding execute_with_fallback
  execute_with_fallback-Walks chain prompt s = (
    fallback_loop-Walks p KeptOrFailed AnyFailure (λ e. Unit {0})
        (λ result s'. run_success_hooks-Finished p p.execution_hooks result s')
        (λ e t s'.
          let (quiet, decision) = classify_with-Quiet p p.execution_hooks e t s' in
          (quiet, judged p e _ decision))
        none chain prompt s,
    fallback_loop-Executed p none chain prompt s,
  )

  abbrev Judged : BitrouterError → Result FallbackDecision → Type 0
  Judged e d =
      ((d ≡ ok try_next) × IsRetryable e)
      ⊎ ((e' : BitrouterError) × (d ≡ ok (fail e')) × PermanentFailure {C = C} {X = X} e (err e'))

  Judged-by :
      (e : BitrouterError) (d : FallbackDecision)
      → ((d ≡ try_next) ↔ IsRetryable e)
      → ((d ≡ fail e) ↔ (¬ (IsRetryable e)))
      → Judged e (ok d)
  Judged-by e try_next (go, _) _ = inl (refl, go refl)
  Judged-by e (fail e') (_, back) (_, same) =
      let permanent : ¬ (IsRetryable e) = λ h. fail-ne-try_next (back h) in
      inr (e', refl, (permanent, ap (λ d. err (decision_error d e)) (same permanent)))

  -- With no execution hooks and the default fallback policy, the fallback loop goes past a failed
  -- target exactly on a retryable error: a server error of the upstream (5xx, 408, 429), a timeout, a
  -- rate limit or exhausted funds. Any other error ends the chain and is returned as it is; the
  -- first generated result is returned as it is; a chain that runs out returns its last failure, an
  -- empty one `NotFound`.
  pub execute_with_fallback-Walks_default :
      p.execution_hooks ≡ []
      → p.classify ≡ Routing.classify
      → (chain : List RoutingTarget) (prompt : Prompt B X) (s : State B C X W)
      → Walks SameResult PermanentFailure IsRetryable none chain
          (execute_with_fallback p chain prompt s).events
          (execute_with_fallback p chain prompt s).result
  unfolding execute_with_fallback classify_with run_success_hooks
  execute_with_fallback-Walks_default no_hooks default chain prompt s =
      fallback_loop-Walks p SameResult PermanentFailure IsRetryable
        (λ result s'. rw no_hooks (refl, refl))
        (λ e t s'.
          rw (no_hooks, default)
            (refl, Judged-by e _ (classify-IsRetryable e t).0 (classify-IsRetryable e t).1))
        none chain prompt s
