-- ===== src/Types/Requirements.antt =====
-- crates/bitrouter-sdk/src/language_model/types.rs: which capabilities a prompt requires.
use bitrouter_ethglobal.Base.{
  Any, Distinct, never, String, some, Bool, true, List, [], ◌∷◌, ◌++◌, ◌≡◌, refl, ◌≢◌, ◌↔◌, ◌⊎◌,
  inl, inr, IsIn, is_some, is_empty, arith, not,
}
use bitrouter_ethglobal.Types.Messages.{Content}
use bitrouter_ethglobal.Types.Capabilities.{
  Capability, structured_outputs, tools, reasoning, web_search, logprobs, image_input, audio_input,
  video_input, file_input, image_output, audio_output, Modality, image, audio, Body, main_type,
  from_input_media_type, from_output_modality, push_all, input_capability, contents, when,
  required_capabilities,
}
use bitrouter_ethglobal.Types.FileParts.{
  SomeFile, IsFile, input_capability_iff, files_iff, from_input_media_type-image_iff,
  from_input_media_type-audio_iff, from_input_media_type-video_iff, from_input_media_type-file_iff,
  input_only,
}
use bitrouter_ethglobal.Types.Pushed.{push_all_iff, push_all-Distinct}

module _ {J : Type 0} where
  -- The feature of a request that a capability stands for.
  abbrev pub Requires : Body J → Capability → Type 0
  Requires b structured_outputs = is_some b.response_format ≡ true
  Requires b tools = b.tools ≢ []
  Requires b reasoning = is_some b.params.reasoning_effort ≡ true
  Requires b web_search = ⊥
  Requires b logprobs = ⊥
  Requires b image_input = SomeFile b (λ t. main_type t ≡ "image")
  Requires b audio_input = SomeFile b (λ t. main_type t ≡ "audio")
  Requires b video_input = SomeFile b (λ t. main_type t ≡ "video")
  Requires b file_input =
      SomeFile b (λ t. (main_type t ≢ "image") × (main_type t ≢ "audio") × (main_type t ≢ "video"))
  Requires b image_output = IsIn image b.params.response_modalities
  Requires b audio_output = IsIn audio b.params.response_modalities

Modality_iff :
    (c : Capability) (m : Modality)
    → ((n : Modality) → (from_output_modality n ≡ some c) ↔ (n ≡ m))
    → (ms : List Modality) → Any (λ n. from_output_modality n ≡ some c) ms ↔ IsIn m ms
Modality_iff c m e [] = (λ h. h, λ h. h)
Modality_iff c m e (n ∷ ms) =
    let ih = Modality_iff c m e ms in
    (
      elim [ inl h ↦ inl ((e n).0 h) | inr h ↦ inr (ih.0 h) ],
      elim [ inl h ↦ inl ((e n).1 h) | inr h ↦ inr (ih.1 h) ],
    )

-- Which media types imply which capability.
abbrev flags : Bool → Bool → Bool → List Capability
flags x y z = when x structured_outputs ++ (when y tools ++ when z reasoning)

abbrev Flagged : Bool → Bool → Bool → Capability → Type 0
Flagged x y z c =
    ((x ≡ true) × (structured_outputs ≡ c))
    ⊎ (((y ≡ true) × (tools ≡ c)) ⊎ ((z ≡ true) × (reasoning ≡ c)))

flags_iff : (x y z : Bool) (c : Capability) → IsIn c (flags x y z) ↔ Flagged x y z c
flags_iff x y z c = ground arith

flags-Distinct : (x y z : Bool) → Distinct (flags x y z)
flags-Distinct x y z = ground arith

nonempty_iff : {A : Type 0} (xs : List A) → (not (is_empty xs) ≡ true) ↔ (xs ≢ [])
nonempty_iff [] = (λ h. cc, λ h. absurd (h refl))
nonempty_iff (x ∷ xs) = (λ h e. cc, λ h. refl)

module _ {J : Type 0} where
  abbrev FromFile : Body J → Capability → Type 0
  FromFile b c = Any (λ x. input_capability x ≡ some c) (contents b.messages)

  abbrev FromModality : Body J → Capability → Type 0
  FromModality b c = Any (λ n. from_output_modality n ≡ some c) b.params.response_modalities

  abbrev FromFlag : Body J → Capability → Type 0
  FromFlag b c =
      Flagged (is_some b.response_format) (not (is_empty b.tools))
        (is_some b.params.reasoning_effort) c

  sources_iff :
      (b : Body J) (c : Capability)
      → IsIn c (required_capabilities b) ↔ ((FromFlag b c ⊎ FromFile b c) ⊎ FromModality b c)
  unfolding required_capabilities
  sources_iff b c =
      let x = is_some b.response_format in
      let y = not (is_empty b.tools) in
      let z = is_some b.params.reasoning_effort in
      let inner = push_all_iff input_capability (flags x y z) (contents b.messages) c in
      let outer =
        push_all_iff from_output_modality
          (push_all input_capability (flags x y z) (contents b.messages))
          b.params.response_modalities c in
      let flag = flags_iff x y z c in
      (
        λ h. elim (outer.0 h) [
          | inl k ↦ elim (inner.0 k) [ inl a ↦ inl (inl (flag.0 a)) | inr a ↦ inl (inr a) ]
          | inr k ↦ inr k
        ],
        elim [
          | inl h ↦ outer.1 (inl (inner.1 (elim h [ inl a ↦ inl (flag.1 a) | inr a ↦ inr a ])))
          | inr h ↦ outer.1 (inr h)
        ],
      )

module _ {J : Type 0} where
  -- A capability that no input stands for comes from no file.
  no_file :
      (b : Body J) (c : Capability)
      → ((t : String) → from_input_media_type t ≡ c → ⊥)
      → FromFile b c
      → ⊥
  no_file b c n h =
      never (λ x. input_capability x ≡ some c)
        (λ x e. unsatisfied x ((input_capability_iff c (λ _. ⊥) (λ t. (n t, λ k. absurd k)) x).0 e))
        (contents b.messages) h
    where
      unsatisfied : (x : Content J) → IsFile (λ _. ⊥) x → ⊥
      unsatisfied x k = ground arith

  no_modality :
      (b : Body J) (c : Capability)
      → ((n : Modality) → from_output_modality n ≡ some c → ⊥)
      → FromModality b c
      → ⊥
  no_modality b c n h =
      never (λ m. from_output_modality m ≡ some c) n b.params.response_modalities h

  only_flag :
      (b : Body J) (c : Capability)
      → ((t : String) → from_input_media_type t ≡ c → ⊥)
      → ((n : Modality) → from_output_modality n ≡ some c → ⊥)
      → IsIn c (required_capabilities b) ↔ FromFlag b c
  only_flag b c i o = ground (arith, sources_iff b c, no_file b c i, no_modality b c o)

  only_file :
      (b : Body J) (c : Capability) (P : String → Type 0)
      → ((t : String) → (from_input_media_type t ≡ c) ↔ P t)
      → (FromFlag b c → ⊥)
      → ((n : Modality) → from_output_modality n ≡ some c → ⊥)
      → IsIn c (required_capabilities b) ↔ SomeFile b P
  only_file b c P e f o =
      let all = sources_iff b c in
      let files = files_iff b c P e in
      (
        λ h. elim (all.0 h) [
          | inl k ↦ elim k [ inl a ↦ absurd (f a) | inr a ↦ files.0 a ]
          | inr k ↦ absurd (no_modality b c o k)
        ],
        λ h. all.1 (inl (inr (files.1 h))),
      )

  only_modality :
      (b : Body J) (c : Capability) (m : Modality)
      → ((t : String) → from_input_media_type t ≡ c → ⊥)
      → ((n : Modality) → (from_output_modality n ≡ some c) ↔ (n ≡ m))
      → (FromFlag b c → ⊥)
      → IsIn c (required_capabilities b) ↔ IsIn m b.params.response_modalities
  only_modality b c m i e f =
      let all = sources_iff b c in
      let chosen = Modality_iff c m e b.params.response_modalities in
      (
        λ h. elim (all.0 h) [
          | inl k ↦ elim k [ inl a ↦ absurd (f a) | inr a ↦ absurd (no_file b c i a) ]
          | inr k ↦ chosen.0 k
        ],
        λ h. all.1 (inr (chosen.1 h)),
      )

  required_iff : (b : Body J) (c : Capability) → IsIn c (required_capabilities b) ↔ Requires b c
  unfolding from_output_modality
  required_iff b structured_outputs = ground (
    arith,
    only_flag b structured_outputs (λ t h. ground (arith, input_only t _ h)) (λ n h. ground arith),
  )
  required_iff b tools = ground (
    arith,
    nonempty_iff b.tools,
    only_flag b tools (λ t h. ground (arith, input_only t _ h)) (λ n h. ground arith),
  )
  required_iff b reasoning =
      ground (
        arith,
        only_flag b reasoning (λ t h. ground (arith, input_only t _ h)) (λ n h. ground arith),
      )
  required_iff b web_search = ground (
    arith,
    only_flag b web_search (λ t h. ground (arith, input_only t _ h)) (λ n h. ground arith),
  )
  required_iff b logprobs =
      ground (
        arith,
        only_flag b logprobs (λ t h. ground (arith, input_only t _ h)) (λ n h. ground arith),
      )
  required_iff b image_input =
      only_file b image_input (λ t. main_type t ≡ "image") from_input_media_type-image_iff
        (λ h. ground arith) (λ n h. ground arith)
  required_iff b audio_input =
      only_file b audio_input (λ t. main_type t ≡ "audio") from_input_media_type-audio_iff
        (λ h. ground arith) (λ n h. ground arith)
  required_iff b video_input =
      only_file b video_input (λ t. main_type t ≡ "video") from_input_media_type-video_iff
        (λ h. ground arith) (λ n h. ground arith)
  required_iff b file_input =
      only_file b file_input _ from_input_media_type-file_iff (λ h. ground arith)
        (λ n h. ground arith)
  required_iff b image_output =
      only_modality b image_output image (λ t h. ground (arith, input_only t _ h))
        (λ n. ground arith) (λ h. ground arith)
  required_iff b audio_output =
      only_modality b audio_output audio (λ t h. ground (arith, input_only t _ h))
        (λ n. ground arith) (λ h. ground arith)

  -- The required capabilities are those that the request's own features ask for: a response format, a
  -- tool, a reasoning effort, a file part of that main media type, an output modality; web search and
  -- log probabilities are never required. None is listed twice.
  pub required_capabilities_iff :
      (b : Body J)
      → ((c : Capability) → IsIn c (required_capabilities b) ↔ Requires b c)
        × Distinct (required_capabilities b)
  unfolding required_capabilities
  required_capabilities_iff b = (
    required_iff b,
    push_all-Distinct from_output_modality _ b.params.response_modalities (
        push_all-Distinct input_capability _ (contents b.messages) (
          flags-Distinct (is_some b.response_format) (not (is_empty b.tools))
            (is_some b.params.reasoning_effort))),
  )
