-- ===== src/Types/Capabilities.antt =====
-- crates/bitrouter-sdk/src/language_model/types.rs: capabilities, the body of a prompt, and the
-- capabilities that a prompt requires.
use Prim.Native.Char.{code}
use bitrouter_ethglobal.Base.{
  ℕ, String, Option, none, some, Bool, true, false, List, [], ◌∷◌, ◌++◌, ◌==◌, not, str_eq,
  if◌then◌else◌, is_some, is_empty,
}
use bitrouter_ethglobal.Types.Messages.{Content, file, Message, Tool, ToolChoice}

pub data Capability : Type 0 where
  structured_outputs tools reasoning web_search logprobs image_input audio_input video_input
        file_input image_output audio_output :
      Capability

-- The derived `PartialEq`.
pub Capability-discrete : Discrete Capability
Capability-discrete = hlevel

pub data Modality : Type 0 where
  text image audio : Modality

pub record ResponseFormat (J : Type 0) : Type 0 where
  pub name : Option String
  pub description : Option String
  pub strict : Option Bool
  pub schema : J

-- `sampling` stands for the numbers and stop texts that are carried along; `extra` is a field of the
-- pipeline's prompt.
pub record GenerationParams (J : Type 0) : Type 0 where
  pub max_tokens : Option ℕ
  pub reasoning_effort : Option String
  pub response_modalities : List Modality
  pub sampling : J

-- The rest of `Prompt`, next to the fields that the pipeline touches.
pub record Body (J : Type 0) : Type 0 where
  pub system_provider_metadata : J
  pub messages : List (Message J)
  pub tools : List (Tool J)
  pub params : GenerationParams J
  pub response_format : Option (ResponseFormat J)
  pub tool_choice : Option ToolChoice
  pub stream : Bool

-- `media_type.split('/').next()`.
unfoldable pub main_type : String → String
main_type String.[] = ""
main_type (String.◌∷◌ c s) =
    let rest = main_type s in if code c == b'/' then "" else String.◌∷◌ c rest

-- `Capability::from_input_media_type` and `Capability::from_output_modality`.
unfoldable pub from_input_media_type : String → Capability
unfolding main_type
from_input_media_type media_type =
    if str_eq (main_type media_type) "image"
    then image_input
    else if str_eq (main_type media_type) "audio"
    then audio_input
    else if str_eq (main_type media_type) "video"
    then video_input
    else file_input

unfoldable pub from_output_modality : Modality → Option Capability
from_output_modality image = some image_output
from_output_modality audio = some audio_output
from_output_modality text = none

-- `caps.contains(&cap)`.
unfoldable pub has : List Capability → Capability → Bool
unfolding Capability-discrete
has [] c = false
has (d ∷ caps) c = elim (Capability-discrete d c) [ yes _ ↦ true | no _ ↦ has caps c ]

abbrev pub push_capability : List Capability → Option Capability → List Capability
push_capability caps none = caps
push_capability caps (some c) = if has caps c then caps else caps ++ (c ∷ [])

-- The two loops of `required_capabilities`: each element may imply a capability.
unfoldable pub push_all :
    {A : Type 0} → (A → Option Capability) → List Capability → List A → List Capability
push_all f caps [] = caps
push_all f caps (x ∷ xs) = push_all f (push_capability caps (f x)) xs

abbrev pub when : Bool → Capability → List Capability
when b c = if b then c ∷ [] else []

module _ {J : Type 0} where
  unfoldable pub input_capability : Content J → Option Capability
  input_capability (file media_type d filename meta) = some (from_input_media_type media_type)
  input_capability _ = none

  abbrev pub contents : List (Message J) → List (Content J)
  contents [] = []
  contents (m ∷ ms) = m.content ++ contents ms

  -- `Prompt::required_capabilities`.
  unfoldable pub required_capabilities : Body J → List Capability
  unfolding push_all input_capability from_output_modality has from_input_media_type
  required_capabilities b =
      let caps =
        when (is_some b.response_format) structured_outputs
        ++ (when (not (is_empty b.tools)) tools
            ++ when (is_some b.params.reasoning_effort) reasoning) in
      push_all from_output_modality (push_all input_capability caps (contents b.messages))
        b.params.response_modalities
