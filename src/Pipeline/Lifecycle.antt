-- ===== src/Pipeline/Lifecycle.antt =====
-- The life of a non-streaming request: what `Pipeline::execute` tells observers and recorders, in
-- which order, and how that agrees with what the caller gets.
use bitrouter_ethglobal.Base.{
  ℕ, ◌≡◌, ◌⊎◌, inl, inr, refl, ap, sym, subst, none, some, false, List, [], ◌∷◌, ◌++◌, length, All,
}
use bitrouter_ethglobal.Error.{BitrouterError, Result, ok, err}
use bitrouter_ethglobal.Types.{RoutingTarget, ExecutionResult}
use bitrouter_ethglobal.Pipeline.Model.{
  Context, pre_request, route, execution, settlement, completed, failed, Event, after_phase,
  request_end, State, Pipeline,
}
use bitrouter_ethglobal.Pipeline.Stages.{tell, run_pre_request, resolve_route, run_settlement}
use bitrouter_ethglobal.Pipeline.Execute.{
  Response, into_response, settle_success, settle_failure, after_execution, after_route,
  after_pre_request, execute,
}
use bitrouter_ethglobal.Pipeline.StageEvents.{
  IsHopEvent, run_pre_request-quiet, resolve_route-quiet, stage_three-hops,
}
use bitrouter_ethglobal.Pipeline.Settlement.{SettlementEvents, run_settlement-Settles}

module _ (B C X : Type 0) (n : ℕ) where
  -- Stage 3 failed with `e`: the failure is settled, then the request ends failed.
  abbrev pub FailedEnd : List (Event C X) → Result (Response C X) → Type 0
  FailedEnd events r =
      (e : BitrouterError) × (ctx : Context B C X) × (books : List (Event C X)) × SettlementEvents n
        ctx false (some e) books
      × (events ≡ books ++ (after_phase settlement ∷ request_end (failed e) ∷ []))
      × (r ≡ err e)

  -- Stage 3 gave `result`: it is settled without an error, the request ends completed, and the
  -- response is made of it.
  abbrev pub CompletedEnd : List (Event C X) → Result (Response C X) → Type 0
  CompletedEnd events r =
      (result : ExecutionResult C X) × (ctx : Context B C X) × (books : List (Event C X))
      × (ctx.execution_result ≡ some result)
      × SettlementEvents n ctx false none books
      × (events
          ≡ after_phase execution
            ∷ (books ++ (after_phase settlement ∷ request_end completed ∷ [])))
      × (r ≡ ok (into_response ctx))

  abbrev pub Ended : List (Event C X) → Result (Response C X) → Type 0
  Ended events r = FailedEnd events r ⊎ CompletedEnd events r

  abbrev pub EndedAfterHops : List (Event C X) → Result (Response C X) → Type 0
  EndedAfterHops events r =
      (hops : List (Event C X)) × (rest : List (Event C X)) × (events ≡ hops ++ rest)
      × All IsHopEvent hops
      × Ended rest r

  -- The request was turned away by a stage before execution, with nothing to settle.
  abbrev pub Rejected : List (Event C X) → Result (Response C X) → Type 0
  Rejected events r = (e : BitrouterError) × (events ≡ request_end (failed e) ∷ []) × (r ≡ err e)

  abbrev pub Routed : List (Event C X) → Result (Response C X) → Type 0
  Routed events r =
      Rejected events r
      ⊎ ((rest : List (Event C X)) × (events ≡ after_phase route ∷ rest) × EndedAfterHops rest r)

  abbrev pub Lifecycle : List (Event C X) → Result (Response C X) → Type 0
  Lifecycle events r =
      Rejected events r
      ⊎ ((rest : List (Event C X)) × (events ≡ after_phase pre_request ∷ rest) × Routed rest r)

module _ {B C X W K : Type 0} (p : Pipeline B C X W K) where
  settle_failure-FailedEnd :
      (e : BitrouterError) (s : State B C X W)
      → FailedEnd B C X
          (length p.settlement_recorders)
          (settle_failure p e s).events
          (settle_failure p e s).result
  unfolding tell
  settle_failure-FailedEnd e s =
      let (good, same, books) = run_settlement-Settles p false (some e) s in
      rw good (e, s.ctx, (run_settlement p false (some e) s).events, books, refl, refl)

  settle_success-CompletedEnd :
      (result : ExecutionResult C X) (s : State B C X W)
      → CompletedEnd B C X
          (length p.settlement_recorders)
          (settle_success p result s).events
          (settle_success p result s).result
  unfolding tell
  settle_success-CompletedEnd result s =
      let ctx = record s.ctx { execution_result = some result } in
      let before = record s { ctx = ctx; world = p.observe (after_phase execution) s.world } in
      let (good, same, books) = run_settlement-Settles p false none before in
      rw good (
        result,
        ctx,
        (run_settlement p false none before).events,
        refl,
        books,
        refl,
        ap (λ c. ok (into_response c)) same,
      )

  after_execution-Ended :
      (r : Result (ExecutionResult C X)) (s : State B C X W)
      → Ended B C X
          (length p.settlement_recorders)
          (after_execution p r s).events
          (after_execution p r s).result
  after_execution-Ended (ok result) s = inr (settle_success-CompletedEnd result s)
  after_execution-Ended (err e) s = inl (settle_failure-FailedEnd e s)

  after_route-Routed :
      (r : Result (List RoutingTarget)) (s : State B C X W)
      → Routed B C X
          (length p.settlement_recorders)
          (after_route p r s).events
          (after_route p r s).result
  unfolding tell
  after_route-Routed (err e) s = inl (e, refl, refl)
  after_route-Routed (ok chain) s = inr (
    _,
    refl,
    (
      _,
      _,
      refl,
      stage_three-hops p p.server_tool_loop chain s.ctx.prompt _,
      after_execution-Ended _ _,
    ),
  )

  after_pre_request-Lifecycle :
      (r : Result (Unit {0})) (s : State B C X W)
      → Lifecycle B C X
          (length p.settlement_recorders)
          (after_pre_request p r s).events
          (after_pre_request p r s).result
  unfolding tell
  after_pre_request-Lifecycle (err e) s = inl (e, refl, refl)
  after_pre_request-Lifecycle (ok u) s =
      let before = (tell p (after_phase pre_request) s).state in
      let routed = resolve_route p before in
      let rest = (after_route p routed.result routed.state).events in
      inr (
        rest,
        ap (λ l. after_phase pre_request ∷ (l ++ rest)) (resolve_route-quiet p before),
        after_route-Routed routed.result routed.state,
      )

  -- Whatever the hooks, the routing table, the executor, the tool loop, the policy and the recorders
  -- answer, a non-streaming request lives as follows. It is rejected by the pre-request stage or by
  -- routing, then nothing is settled; or, after both phases were told, hops are made and the request
  -- is settled once, with every recorder called once, with the error exactly when stage 3 failed. The
  -- last event, and the only one of its kind, is the request's end, and it says completed exactly
  -- when the caller gets a response, and failed with the very error that the caller gets otherwise.
  pub execute-Lifecycle :
      (s : State B C X W)
      → Lifecycle B C X (length p.settlement_recorders) (execute p s).events (execute p s).result
  unfolding execute
  execute-Lifecycle s =
      let checked = run_pre_request p p.pre_request_hooks s in
      let rest = after_pre_request p checked.result checked.state in
      subst (λ l. Lifecycle B C X (length p.settlement_recorders) (l ++ rest.events) rest.result)
        (sym (run_pre_request-quiet p p.pre_request_hooks s))
        (after_pre_request-Lifecycle checked.result checked.state)
