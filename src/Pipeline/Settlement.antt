-- ===== src/Pipeline/Settlement.antt =====
-- `Pipeline::run_settlement`: every recorder is called, whatever the others answer.
use bitrouter_ethglobal.Base.{ℕ, suc, ◌≡◌, refl, ap, Option, Bool, List, [], ◌∷◌, map, length}
use bitrouter_ethglobal.Error.{BitrouterError, Result, ok}
use bitrouter_ethglobal.Pipeline.Model.{
  Context, Settlement, Event, settled, recorded, State, Pipeline,
}
use bitrouter_ethglobal.Pipeline.Stages.{settlement_context, run_recorders, run_settlement}

module _ {C X : Type 0} where
  -- Calls of `n` recorders.
  abbrev pub RecorderCalls : ℕ → List (Event C X) → Type 0
  RecorderCalls n events =
      (calls : List Settlement) × (length calls ≡ n) × (events ≡ map recorded calls)

  -- One settlement of the request in `ctx`, with the calls of `n` recorders.
  abbrev pub SettlementEvents :
      {B : Type 0} → ℕ → Context B C X → Bool → Option BitrouterError → List (Event C X) → Type 0
  SettlementEvents n ctx streamed error events =
      (calls : List (Event C X)) × RecorderCalls n calls
      × (events ≡ settled (settlement_context ctx streamed error) ∷ calls)

module _ {B C X W K : Type 0} (p : Pipeline B C X W K) where
  run_recorders_lem :
      (recorders : List (Settlement → W → Result (Unit {0}) × Settlement × W)) (settle : Settlement)
      (s : State B C X W)
      → ((run_recorders p recorders settle s).result ≡ ok tt)
        × ((run_recorders p recorders settle s).state.ctx ≡ s.ctx)
        × RecorderCalls (length recorders) (run_recorders p recorders settle s).events
  unfolding run_recorders
  run_recorders_lem [] settle s = (refl, refl, ([], refl, refl))
  run_recorders_lem (recorder ∷ recorders) settle s =
      let (good, same, (calls, count, told)) =
        run_recorders_lem recorders (recorder settle s.world).1
          (record s { world = (recorder settle s.world).2 }) in
      (good, same, (settle ∷ calls, ap suc count, ap (λ l. recorded settle ∷ l) told))

  -- Settlement never fails and leaves the context's fields alone (its event bus is in the world); it
  -- is one settlement, made of the context as it stands, after which each registered recorder is called exactly once, also when
  -- recorders before it returned errors.
  pub run_settlement-Settles :
      (streamed : Bool) (error : Option BitrouterError) (s : State B C X W)
      → ((run_settlement p streamed error s).result ≡ ok tt)
        × ((run_settlement p streamed error s).state.ctx ≡ s.ctx)
        × SettlementEvents
            (length p.settlement_recorders)
            s.ctx
            streamed
            error
            (run_settlement p streamed error s).events
  unfolding run_settlement
  run_settlement-Settles streamed error s =
      let settle = settlement_context s.ctx streamed error in
      let (good, same, calls) = run_recorders_lem p.settlement_recorders settle s in
      (good, same, (_, calls, refl))
