-- ===== src/Types/FileParts.antt =====
-- crates/bitrouter-sdk/src/language_model/types.rs: the capabilities that file parts imply.
use bitrouter_ethglobal.Base.{
  Any, Any-append_iff, Any-iff, String, some, List, [], ◌∷◌, ◌≡◌, ap, ◌≢◌, ◌↔◌, ◌⊎◌, inl, inr,
  arith, eq_of_some, none-ne-some, eq_iff,
}
use bitrouter_ethglobal.Types.Messages.{Content, file, Message}
use bitrouter_ethglobal.Types.Capabilities.{
  Capability, image_input, audio_input, video_input, file_input, Body, main_type,
  from_input_media_type, input_capability, contents,
}

module _ {J : Type 0} where
  -- A file part whose media type stands for the capability.
  abbrev pub IsFile : (String → Type 0) → Content J → Type 0
  IsFile P (file media_type d filename meta) = P media_type
  IsFile P (Content.text t m) = ⊥
  IsFile P (Content.reasoning t m) = ⊥
  IsFile P (Content.tool_call i n a p d m) = ⊥
  IsFile P (Content.tool_result i n o d m) = ⊥
  IsFile P (Content.source s m) = ⊥
  IsFile P (Content.tool_approval_request i t m) = ⊥
  IsFile P (Content.tool_approval_response i a r m) = ⊥

  abbrev pub SomeFile : Body J → (String → Type 0) → Type 0
  SomeFile b P = Any (λ (m : Message J). Any (IsFile P) m.content) b.messages

  pub Any-contents_iff :
      (P : Content J → Type 0) (ms : List (Message J))
      → Any P (contents ms) ↔ Any (λ m. Any P m.content) ms
  Any-contents_iff P [] = (λ h. h, λ h. h)
  Any-contents_iff P (m ∷ ms) =
      let split = Any-append_iff P m.content (contents ms) in
      let ih = Any-contents_iff P ms in
      (
        λ h. elim (split.0 h) [ inl k ↦ inl k | inr k ↦ inr (ih.0 k) ],
        elim [ inl h ↦ split.1 (inl h) | inr h ↦ split.1 (inr (ih.1 h)) ],
      )

  pub input_capability_iff :
      (c : Capability) (P : String → Type 0)
      → ((t : String) → (from_input_media_type t ≡ c) ↔ P t)
      → (x : Content J) → (input_capability x ≡ some c) ↔ IsFile P x
  unfolding input_capability
  input_capability_iff c P e (file t d f m) =
      (λ h. (e t).0 (eq_of_some h), λ h. ap some ((e t).1 h))
  input_capability_iff c P e (Content.text t m) = (λ h. none-ne-some h, λ h. absurd h)
  input_capability_iff c P e (Content.reasoning t m) = (λ h. none-ne-some h, λ h. absurd h)
  input_capability_iff c P e (Content.tool_call i n a p d m) = (λ h. none-ne-some h, λ h. absurd h)
  input_capability_iff c P e (Content.tool_result i n o d m) = (λ h. none-ne-some h, λ h. absurd h)
  input_capability_iff c P e (Content.source s m) = (λ h. none-ne-some h, λ h. absurd h)
  input_capability_iff c P e (Content.tool_approval_request i t m) =
      (λ h. none-ne-some h, λ h. absurd h)
  input_capability_iff c P e (Content.tool_approval_response i a r m) =
      (λ h. none-ne-some h, λ h. absurd h)

  -- The files of a request that imply a capability.
  pub files_iff :
      (b : Body J) (c : Capability) (P : String → Type 0)
      → ((t : String) → (from_input_media_type t ≡ c) ↔ P t)
      → Any (λ x. input_capability x ≡ some c) (contents b.messages) ↔ SomeFile b P
  files_iff b c P e =
      let flat = Any-contents_iff (λ x. input_capability x ≡ some c) b.messages in
      let each =
        Any-iff (λ (m : Message J). Any (λ x. input_capability x ≡ some c) m.content)
          (λ m. Any (IsFile P) m.content)
          (λ m.
            Any-iff (λ x. input_capability x ≡ some c) (IsFile P) (input_capability_iff c P e)
              m.content)
          b.messages in
      (λ h. each.0 (flat.0 h), λ h. flat.1 (each.1 h))

pub from_input_media_type-image_iff :
    (t : String) → (from_input_media_type t ≡ image_input) ↔ (main_type t ≡ "image")
unfolding from_input_media_type
from_input_media_type-image_iff t = ground (arith, eq_iff (main_type t) "image")

pub from_input_media_type-audio_iff :
    (t : String) → (from_input_media_type t ≡ audio_input) ↔ (main_type t ≡ "audio")
unfolding from_input_media_type
from_input_media_type-audio_iff t =
    ground
      (arith, eq_iff (main_type t) "image", eq_iff (main_type t) "audio", eq_iff "audio" "image")

pub from_input_media_type-video_iff :
    (t : String) → (from_input_media_type t ≡ video_input) ↔ (main_type t ≡ "video")
unfolding from_input_media_type
from_input_media_type-video_iff t = ground (
  arith,
  eq_iff (main_type t) "image",
  eq_iff (main_type t) "audio",
  eq_iff (main_type t) "video",
  eq_iff "video" "image",
  eq_iff "video" "audio",
)

pub from_input_media_type-file_iff :
    (t : String)
    → (from_input_media_type t ≡ file_input)
      ↔ ((main_type t ≢ "image") × (main_type t ≢ "audio") × (main_type t ≢ "video"))
unfolding from_input_media_type
from_input_media_type-file_iff t = ground (
  arith,
  eq_iff (main_type t) "image",
  eq_iff (main_type t) "audio",
  eq_iff (main_type t) "video",
)

-- The flags of a request: a response format, tools, a reasoning effort.
-- A media type implies an input capability only.
pub input_only :
    (t : String) (c : Capability)
    → from_input_media_type t ≡ c
    → (c ≡ image_input) ⊎ ((c ≡ audio_input) ⊎ ((c ≡ video_input) ⊎ (c ≡ file_input)))
unfolding from_input_media_type
input_only t c h = ground arith
