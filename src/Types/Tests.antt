-- ===== src/Types/Tests.antt =====
-- Examples of the capabilities that a prompt requires.
use bitrouter_ethglobal.Base.{none, [], ◌∷◌, ◌≡◌, refl, ◌↔◌, IsIn, Distinct, true}
use bitrouter_ethglobal.Types.Messages.{Role, Content, file, base64, function}
use bitrouter_ethglobal.Types.Capabilities.{
  Capability, tools, image_input, file_input, text, image, image_output, Body,
  required_capabilities,
}
use bitrouter_ethglobal.Types.Requirements.{Requires, required_capabilities_iff}

abbrev picture_request : Body (Unit {0})
picture_request = record {
  system_provider_metadata = tt;
  messages =
      record {
        role = Role.user;
        content =
            Content.text "hi" tt
            ∷ file "image/png" (base64 "AA") none tt
            ∷ file "image/jpeg" (base64 "BB") none tt
            ∷ file "application/pdf" (base64 "CC") none tt
            ∷ [];
      }
      ∷ [];
  tools = function "search" none tt none tt ∷ [];
  params = record {
    max_tokens = none;
    reasoning_effort = none;
    response_modalities = text ∷ image ∷ [];
    sampling = tt;
  };
  response_format = none;
  tool_choice = none;
  stream = true;
}

picture_request_test :
    required_capabilities picture_request ≡ tools ∷ image_input ∷ file_input ∷ image_output ∷ []
unfolding required_capabilities
picture_request_test = refl

required_capabilities_iff_example :
    ((c : Capability) → IsIn c (required_capabilities picture_request) ↔ Requires picture_request c)
    × Distinct (required_capabilities picture_request)
required_capabilities_iff_example = required_capabilities_iff picture_request
