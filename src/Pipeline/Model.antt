-- ===== src/Pipeline/Model.antt =====
-- The pipeline's data, its events, and the collaborators that it is built from.
use bitrouter_ethglobal.Base.{ℕ, String, Option, Bool, List}
use bitrouter_ethglobal.Error.{BitrouterError, Result, HookDecision}
use bitrouter_ethglobal.Types.{Usage, ApiProtocol, RoutingTarget, ExecutionResult, StreamPart}
use bitrouter_ethglobal.Routing.{RoutingPrefs, PromptOverrides, FallbackDecision}

-- The parts of a `Prompt` that the pipeline touches; `B` is the rest of it.
pub record Prompt (B X : Type 0) : Type 0 where
  pub model : String
  pub system : Option String
  pub extra : List (String × X)
  pub body : B

-- `PipelineContext`. The caller, headers, metadata, extensions and the event bus are part of the
-- world below: only hooks look at them.
-- The event bus that a settlement takes and gives back is there all the time: what a recorder emits
-- is in the world that it leaves, and so in the context after the settlement (`absorb_settlement`).
pub record Context (B C X : Type 0) : Type 0 where
  pub request_id : String
  pub model : String
  pub prompt : Prompt B X
  pub inbound_protocol : Option ApiProtocol
  pub route_chain : Option (List RoutingTarget)
  pub execution_result : Option (ExecutionResult C X)

pub data Phase : Type 0 where
  pre_request route execution settlement : Phase

pub data RequestOutcome : Type 0 where
  completed : RequestOutcome
  failed : BitrouterError → RequestOutcome
  client_disconnected : RequestOutcome

pub data HopOutcome (C X : Type 0) : Type 0 where
  generated : ExecutionResult C X → HopOutcome C X
  stream_started : HopOutcome C X
  hop_failed : BitrouterError → HopOutcome C X

pub data StreamOutcome : Type 0 where
  stream_completed : StreamOutcome
  disconnected : StreamOutcome
  aborted upstream_error : BitrouterError → StreamOutcome

-- `SettlementContext` without the caller, the attestation evidence and the event bus.
pub record Settlement : Type 0 where
  pub request_id : String
  pub target : Option RoutingTarget
  pub model_id : String
  pub provider_id : String
  pub account_label : Option String
  pub usage : Usage
  pub streamed : Bool
  pub latency_ms : ℕ
  pub generation_time_ms : ℕ
  pub error : Option BitrouterError

-- What the pipeline tells its observers and recorders. One event stands for the calls of every
-- observer in turn; a panic of an observer is swallowed.
pub data Event (C X : Type 0) : Type 0 where
  after_phase : Phase → Event C X
  hop_start : RoutingTarget → Event C X
  hop_end : RoutingTarget → HopOutcome C X → Event C X
  stream_end : StreamOutcome → Event C X
  -- The start of a settlement, and the call of one recorder.
  settled : Settlement → Event C X
  recorded : Settlement → Event C X
  request_end : RequestOutcome → Event C X

-- A server-side tool loop, as far as the pipeline sees it: it calls the upstream with a prompt, does
-- something to the world, or finishes.
pub data Turns (B C X W : Type 0) : Type 0 where
  finish : Result (ExecutionResult C X) → Turns B C X W
  upstream : Prompt B X → (Result (ExecutionResult C X) → Turns B C X W) → Turns B C X W
  work : (W → W) → (W → Turns B C X W) → Turns B C X W

module _ (B C X W : Type 0) where
  pub record State : Type 0 where
    pub ctx : Context B C X
    pub world : W

  pub record ExecutionHook : Type 0 where
    pub on_success : ExecutionResult C X → State → Result (Unit {0}) × W
    pub on_failure : BitrouterError → State → FallbackDecision × W

  -- `Pipeline`: its hooks, routing table, fallback policy, executor and tool loop are trait objects.
  -- `W` is everything that they may change.
  pub record Pipeline (Capability : Type 0) : Type 0 where
    pub pre_request_hooks : List (State → Result HookDecision × State)
    pub route_hooks : List (List RoutingTarget → State → Result (List RoutingTarget) × State)
    pub execution_hooks : List ExecutionHook
    pub settlement_recorders : List (Settlement → W → Result (Unit {0}) × Settlement × W)
    pub observe : Event C X → W → W
    pub preset_overrides : String → W → Result (PromptOverrides X) × W
    pub route_table : String → RoutingPrefs Capability → W → Result (List RoutingTarget) × W
    pub classify : BitrouterError → RoutingTarget → FallbackDecision
    pub execute : RoutingTarget → Prompt B X → State → Result (ExecutionResult C X) × W
    pub execute_stream :
        RoutingTarget → Prompt B X → State → Result (List (Result (StreamPart X))) × W
    pub server_tool_loop : Option (Prompt B X → Turns B C X W)
    -- `Prompt::required_capabilities` of types.rs.
    pub required_capabilities : Prompt B X → List Capability
