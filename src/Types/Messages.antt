-- ===== src/Types/Messages.antt =====
-- crates/bitrouter-sdk/src/language_model/types.rs: content blocks, messages and tools. `J` is the
-- type of a JSON value; provider metadata is a JSON value here.
use Prim.Native.String.{◌++◌ as append}
use bitrouter_ethglobal.Base.{String, Option, Bool, true, false, List, [], ◌∷◌, unwrap_or}

pub data Role : Type 0 where
  system user assistant tool : Role

pub data DataContent : Type 0 where
  base64 url : String → DataContent

pub data ToolResultContentPart : Type 0 where
  text : String → ToolResultContentPart
  media : String → DataContent → ToolResultContentPart
  file_id : Option String → String → ToolResultContentPart

pub data ToolResultOutput (J : Type 0) : Type 0 where
  text error_text : String → ToolResultOutput J
  json error_json : J → ToolResultOutput J
  content : List ToolResultContentPart → ToolResultOutput J
  execution_denied : Option String → ToolResultOutput J

pub data Source : Type 0 where
  url : String → String → Option String → Source
  document : String → String → String → Option String → Source

pub data Content (J : Type 0) : Type 0 where
  text reasoning : String → J → Content J
  file : String → DataContent → Option String → J → Content J
  -- The id, the name, the arguments, `provider_executed` and `dynamic`.
  tool_call : String → String → String → Bool → Bool → J → Content J
  tool_result : String → Option String → ToolResultOutput J → Bool → J → Content J
  source : Source → J → Content J
  tool_approval_request : String → String → J → Content J
  tool_approval_response : String → Bool → Option String → J → Content J

pub record Message (J : Type 0) : Type 0 where
  pub role : Role
  pub content : List (Content J)

pub data Tool (J : Type 0) : Type 0 where
  function : String → Option String → J → Option Bool → J → Tool J
  provider_defined : String → String → J → J → Tool J

pub data ToolChoice : Type 0 where
  auto required none : ToolChoice
  tool : String → ToolChoice

-- The text parts, joined; media and file references drop out.
abbrev pub text_parts : List ToolResultContentPart → String
text_parts [] = ""
text_parts (ToolResultContentPart.text t ∷ parts) = append t (text_parts parts)
text_parts (ToolResultContentPart.media m d ∷ parts) = text_parts parts
text_parts (ToolResultContentPart.file_id m i ∷ parts) = text_parts parts

module _ {J : Type 0} where
  -- `Tool::name`.
  unfoldable pub tool_name : Tool J → String
  tool_name (function name description parameters strict meta) = name
  tool_name (provider_defined id name args meta) = name

  -- `ToolResultOutput::is_error`.
  unfoldable pub is_error : ToolResultOutput J → Bool
  is_error (ToolResultOutput.error_text value) = true
  is_error (ToolResultOutput.error_json value) = true
  is_error _ = false

  -- `ToolResultOutput::to_provider_string`; `show` is `serde_json::Value::to_string`.
  unfoldable pub to_provider_string : (J → String) → ToolResultOutput J → String
  to_provider_string show (ToolResultOutput.text value) = value
  to_provider_string show (ToolResultOutput.error_text value) = value
  to_provider_string show (ToolResultOutput.json value) = show value
  to_provider_string show (ToolResultOutput.error_json value) = show value
  to_provider_string show (ToolResultOutput.content value) = text_parts value
  to_provider_string show (ToolResultOutput.execution_denied reason) =
      unwrap_or "Tool call execution denied." reason
