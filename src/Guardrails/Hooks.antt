-- ===== src/Guardrails/Hooks.antt =====
-- plugins/bitrouter-guardrails/src/hooks.rs: the request text, the pre-request hooks and the stream hook.
use Prim.Native.String.{◌++◌ as append}
use bitrouter_ethglobal.Base.{
  String, Option, none, some, List, [], ◌∷◌, is_empty, unwrap_or, str_eq, if◌then◌else◌,
}
use bitrouter_ethglobal.Error.{bad_request, Result, ok, HookDecision, allow, deny, DenyReason}
use bitrouter_ethglobal.Types.{StreamPart, text_delta, reasoning_delta}
use bitrouter_ethglobal.Types.Messages.{Content, file, Message, to_provider_string}
use bitrouter_ethglobal.Types.Capabilities.{Body}
use bitrouter_ethglobal.Pipeline.Model.{Prompt, State}
use bitrouter_ethglobal.Stream.Processor.{StreamAction, pass, replace, abort, StreamHook}
use bitrouter_ethglobal.Guardrails.{
  GuardrailRule, first_block, WindowResult, emit, blocked, with_carry, carry_text, feed,
}

-- The rule set in the request's extensions, and the plugin's metadata of the stream.
pub record Guarded : Type 0 where
  pub rules : Option (List GuardrailRule)
  pub carry : Option String

abbrev pub line : String → String
line text = append text "\n"

abbrev pub optional_line : Option String → String
optional_line none = ""
optional_line (some text) = line text

abbrev pub decide : Option String → HookDecision
decide none = allow
decide (some rule_name) = deny (
    DenyReason.guardrail_violation
      (append "request blocked by guardrail rule '" (append rule_name "'")))

module _ {J : Type 0} where
  -- The match on one content block; `show` prints a JSON value.
  unfoldable pub content_text : (J → String) → Content J → String
  content_text show (Content.text text meta) = line text
  content_text show (Content.reasoning text meta) = line text
  content_text show (Content.tool_result call_id name output dynamic meta) =
      line (to_provider_string show output)
  content_text show (Content.tool_call id name arguments executed dynamic meta) = line arguments
  content_text show (file media_type d filename meta) = ""
  content_text show (Content.source s meta) = ""
  content_text show (Content.tool_approval_response id approved reason meta) = optional_line reason
  content_text show (Content.tool_approval_request id call_id meta) = ""

  unfoldable pub contents_text : (J → String) → List (Content J) → String
  contents_text show [] = ""
  contents_text show (c ∷ cs) = append (content_text show c) (contents_text show cs)

  unfoldable pub messages_text : (J → String) → List (Message J) → String
  messages_text show [] = ""
  messages_text show (m ∷ ms) = append (contents_text show m.content) (messages_text show ms)

  unfoldable pub request_text : (J → String) → Prompt (Body J) J → String
  unfolding messages_text contents_text content_text
  request_text show p = append (optional_line p.system) (messages_text show p.body.messages)

  -- `GuardrailPreHook::check`.
  unfoldable pub guard_check :
      (J → String) → Option (List GuardrailRule) → Prompt (Body J) J → HookDecision
  guard_check show none p = allow
  guard_check show (some rules) p =
      if is_empty rules then allow else decide (first_block rules (request_text show p))

  -- `GuardrailPreHook` as a hook of the pipeline; `rules` reads the extension with the rule set.
  abbrev pub guard_pre :
      {W : Type 0}
      → (J → String)
      → (W → Option (List GuardrailRule))
      → State (Body J) (Content J) J W
      → Result HookDecision × State (Body J) (Content J) J W
  guard_pre show rules s = (ok (guard_check show (rules s.world) s.ctx.prompt), s)

-- `DepositRulesHook::check`.
unfoldable pub deposit_check : List GuardrailRule → Guarded → HookDecision × Guarded
deposit_check rules g = (allow, record g { rules = some rules })

module _ {X : Type 0} where
  -- The text of a part, and how a part is built again.
  abbrev pub part_text : StreamPart X → Option (String × (String → StreamPart X))
  part_text (text_delta text) = some (text, text_delta)
  part_text (reasoning_delta text) = some (text, reasoning_delta)
  part_text _ = none

  abbrev pub verdict_action : String → (String → StreamPart X) → WindowResult → StreamAction X
  verdict_action text rebuild (blocked rule_name) =
      abort (bad_request (append "response blocked by guardrail rule '" (append rule_name "'")))
  verdict_action text rebuild (emit emitted) =
      if str_eq emitted text then pass else replace (rebuild emitted ∷ [])

  -- The scan of a text-bearing part, with the stored window.
  abbrev pub scan_part :
      List GuardrailRule
      → Option (String × (String → StreamPart X))
      → Guarded
      → StreamAction X × Guarded
  scan_part rules none g = (pass, g)
  scan_part rules (some (text, rebuild)) g =
      let fed = feed (with_carry rules (unwrap_or "" g.carry)) text in
      (verdict_action text rebuild fed.0, record g { carry = some (carry_text fed.1) })

  abbrev pub guard_with :
      Option (List GuardrailRule) → StreamPart X → Guarded → StreamAction X × Guarded
  guard_with none part g = (pass, g)
  guard_with (some rules) part g =
      if is_empty rules then (pass, g) else scan_part rules (part_text part) g

  -- `GuardrailStreamHook::on_part`.
  unfoldable pub guard_part : StreamPart X → Guarded → StreamAction X × Guarded
  guard_part part g = guard_with g.rules part g

  -- `GuardrailStreamHook`: its interest is the text and the reasoning deltas.
  abbrev pub guard_hook : StreamHook X Guarded
  guard_hook = record {
    interest = 3;
    on_part = λ ctx g part. (ok (guard_part part g).0, (ctx, (guard_part part g).1));
    on_stream_end = λ ctx g outcome. (ok tt, (ctx, g));
  }

-- `DepositRulesHook` as a hook of the pipeline; the request's extensions are a part of the world.
abbrev pub deposit_pre :
    {B C X W : Type 0}
    → List GuardrailRule
    → (W → Guarded)
    → (Guarded → W → W)
    → State B C X W
    → Result HookDecision × State B C X W
deposit_pre rules get put s =
    let r = deposit_check rules (get s.world) in (ok r.0, record s { world = put r.1 s.world })
