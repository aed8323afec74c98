-- ===== src/Pipeline/Execute.antt =====
-- `Pipeline::execute`: a non-streaming request through the four stages.
use bitrouter_ethglobal.Base.{String, Option, none, some, false, List, []}
use bitrouter_ethglobal.Error.{BitrouterError, Result, ok, err}
use bitrouter_ethglobal.Types.{RoutingTarget, ExecutionResult, GenerateResult}
use bitrouter_ethglobal.Effect.{pure, throw, update, gets, attempt, ◌>>=◌, ◌>>◌}
use bitrouter_ethglobal.Pipeline.Model.{
  Context, pre_request, route, execution, settlement, completed, failed, after_phase, request_end,
  Pipeline,
}
use bitrouter_ethglobal.Pipeline.Stages.{
  M, tell, run_pre_request, resolve_route, stage_three, run_settlement,
}

pub record Response (C X : Type 0) : Type 0 where
  pub request_id : String
  pub result : GenerateResult C X

abbrev pub generation : {C X : Type 0} → Option (ExecutionResult C X) → GenerateResult C X
generation none = record {
  content = [];
  usage = none;
  finish_reason = none;
  response_id = none;
  stop_details = none;
  provider_metadata = [];
}
generation (some e) = e.result

-- `PipelineContext::into_response`.
unfoldable pub into_response : {B C X : Type 0} → Context B C X → Response C X
into_response ctx = record { request_id = ctx.request_id; result = generation ctx.execution_result }

module _ {B C X W K : Type 0} (p : Pipeline B C X W K) where
  -- An error before stage 3 ends the request.
  abbrev pub reject : {A : Type 0} → BitrouterError → M p A
  reject e = do tell p (request_end (failed e)); throw e

  -- The `Ok` arm of stage 3, and stage 4.
  abbrev pub settle_success : ExecutionResult C X → M p (Response C X)
  settle_success result = do
    update (λ s. record s { ctx = record s.ctx { execution_result = some result } })
    tell p (after_phase execution)
    run_settlement p false none
    tell p (after_phase settlement)
    tell p (request_end completed)
    ctx ← gets (λ s. s.ctx)
    pure (into_response ctx)

  -- The `Err` arm of stage 3: the failed request is settled too.
  abbrev pub settle_failure : BitrouterError → M p (Response C X)
  settle_failure e = do run_settlement p false (some e); tell p (after_phase settlement); reject e

  abbrev pub after_execution : Result (ExecutionResult C X) → M p (Response C X)
  after_execution (ok result) = settle_success result
  after_execution (err e) = settle_failure e

  abbrev pub after_route : Result (List RoutingTarget) → M p (Response C X)
  after_route (err e) = reject e
  after_route (ok chain) = do
    tell p (after_phase route)
    ctx ← gets (λ s. s.ctx)
    outcome ← attempt (stage_three p p.server_tool_loop chain ctx.prompt)
    after_execution outcome

  abbrev pub after_pre_request : Result (Unit {0}) → M p (Response C X)
  after_pre_request (err e) = reject e
  after_pre_request (ok u) = do
    tell p (after_phase pre_request)
    resolved ← attempt (resolve_route p)
    after_route resolved

  unfoldable pub execute : M p (Response C X)
  execute = do checked ← attempt (run_pre_request p p.pre_request_hooks); after_pre_request checked
