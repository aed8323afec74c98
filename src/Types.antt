-- ===== src/Types.antt =====
-- crates/bitrouter-sdk/src/language_model/types.rs: the values that the components share.
pub mod Messages
pub mod Capabilities
mod Pushed
mod FileParts
mod Requirements
mod Tests
use bitrouter_ethglobal.Base.{ℕ, String, Option, List, Bool, true, false, str_eq}

pub record Usage : Type 0 where
  pub prompt_tokens : ℕ
  pub completion_tokens : ℕ
  pub reasoning_tokens : ℕ
  pub cache_read_tokens : ℕ
  pub cache_write_tokens : ℕ

abbrev pub usage_default : Usage
usage_default = record {
  prompt_tokens = 0;
  completion_tokens = 0;
  reasoning_tokens = 0;
  cache_read_tokens = 0;
  cache_write_tokens = 0;
}

pub data ApiProtocol : Type 0 where
  chat_completions messages generate_content responses : ApiProtocol
  custom : String → ApiProtocol

-- `ApiProtocol::as_str`.
unfoldable pub as_str : ApiProtocol → String
as_str chat_completions = "chat_completions"
as_str messages = "messages"
as_str generate_content = "generate_content"
as_str responses = "responses"
as_str (custom name) = name

-- The derived `PartialEq`.
unfoldable pub same_protocol : ApiProtocol → ApiProtocol → Bool
same_protocol chat_completions chat_completions = true
same_protocol messages messages = true
same_protocol generate_content generate_content = true
same_protocol responses responses = true
same_protocol (custom a) (custom b) = str_eq a b
same_protocol _ _ = false

pub data AuthScheme : Type 0 where
  x_api_key bearer : AuthScheme

pub record RoutingTarget : Type 0 where
  pub provider_name : String
  pub service_id : String
  pub api_base : String
  pub api_key : String
  pub api_protocol : ApiProtocol
  pub account_label : Option String
  pub api_key_override : Option String
  pub api_base_override : Option String
  pub auth_scheme : AuthScheme

pub data FinishReason : Type 0 where
  stop length tool_calls content_filter : FinishReason
  other error : String → FinishReason

-- The result of a generation. `C` is the type of its content blocks, and `X` stands for the payloads
-- that are carried along and never inspected here.
pub record GenerateResult (C X : Type 0) : Type 0 where
  pub content : List C
  pub usage : Option Usage
  pub finish_reason : Option FinishReason
  pub response_id : Option String
  pub stop_details : Option X
  pub provider_metadata : List (String × X)

pub record ExecutionResult (C X : Type 0) : Type 0 where
  pub provider_id : String
  pub model_id : String
  pub account_label : Option String
  pub result : GenerateResult C X
  pub latency_ms : ℕ
  pub generation_time_ms : ℕ

-- A part of a response stream. `X` stands for the payloads that are passed through.
pub data StreamPart (X : Type 0) : Type 0 where
  text_start text_delta text_end reasoning_start reasoning_delta reasoning_end :
      String → StreamPart X
  tool_call_delta : String → Option String → String → StreamPart X
  server_tool_call : String → String → String → Option String → Bool → StreamPart X
  server_tool_result : String → Option String → X → Bool → StreamPart X
  file : String → X → StreamPart X
  source : X → StreamPart X
  usage : Usage → StreamPart X
  response_started : String → StreamPart X
  finish : FinishReason → StreamPart X
  response_completed : String → String → Option Usage → StreamPart X

-- `StreamPart::is_terminal`.
unfoldable pub is_terminal : {X : Type 0} → StreamPart X → Bool
is_terminal (finish reason) = true
is_terminal (response_completed id status u) = true
is_terminal _ = false
