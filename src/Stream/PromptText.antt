-- ===== src/Stream/PromptText.antt =====
-- crates/bitrouter-sdk/src/language_model/context.rs: the texts that `prompt_text_chars` counts.
use bitrouter_ethglobal.Base.{String, List, [], ◌∷◌, ◌++◌}
use bitrouter_ethglobal.Types.Messages.{Content, file, Message}
use bitrouter_ethglobal.Types.Capabilities.{Body}
use bitrouter_ethglobal.Pipeline.Model.{Prompt}

module _ {J : Type 0} where
  -- The text of a block, if it is a text or a reasoning block.
  abbrev pub counted_text : Content J → List String
  counted_text (Content.text text meta) = text ∷ []
  counted_text (Content.reasoning text meta) = text ∷ []
  counted_text (Content.tool_result call_id name output dynamic meta) = []
  counted_text (Content.tool_call id name arguments executed dynamic meta) = []
  counted_text (file media_type d filename meta) = []
  counted_text (Content.source s meta) = []
  counted_text (Content.tool_approval_response id approved reason meta) = []
  counted_text (Content.tool_approval_request id call_id meta) = []

  unfoldable pub content_texts : List (Content J) → List String
  content_texts [] = []
  content_texts (c ∷ cs) = counted_text c ++ content_texts cs

  unfoldable pub message_texts : List (Message J) → List String
  message_texts [] = []
  message_texts (m ∷ ms) = content_texts m.content ++ message_texts ms

  -- The two loops over the messages and their blocks, in order.
  unfoldable pub prompt_texts : Prompt (Body J) J → List String
  unfolding message_texts content_texts
  prompt_texts prompt = message_texts prompt.body.messages
