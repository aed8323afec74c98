-- ===== src/Mcp.antt =====
-- crates/bitrouter-sdk/src/mcp/mod.rs: requests, targets and invalidation events. `X` stands for
-- `serde_json::Value`, `C` for the caller and the headers of a request, `T` for `McpTransport`.
pub mod Store
pub mod Cache
pub mod Tests
use bitrouter_ethglobal.Base.{String, List}

pub data ServerSelector : Type 0 where
  direct : String → ServerSelector
  aggregate : ServerSelector

pub record McpRequest (X C : Type 0) : Type 0 where
  pub request_id : String
  pub selector : ServerSelector
  pub method : String
  pub params : X
  pub context : C

pub record McpResponse (X : Type 0) : Type 0 where
  pub request_id : String
  pub result : X

pub record AggregateMember (T : Type 0) : Type 0 where
  pub server_name : String
  pub tool_prefix : String
  pub transport : T

pub data McpTarget (T : Type 0) : Type 0 where
  direct : String → T → McpTarget T
  aggregate : List (AggregateMember T) → McpTarget T

pub data InvalidationKind : Type 0 where
  tools_list_changed resources_list_changed prompts_list_changed reinitialized : InvalidationKind

pub record InvalidationEvent : Type 0 where
  pub server_name : String
  pub kind : InvalidationKind

-- A frame of a streaming execution.
pub data McpStreamPart (X : Type 0) : Type 0 where
  notification : String → X → McpStreamPart X
  final : McpResponse X → McpStreamPart X
