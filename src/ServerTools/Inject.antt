-- ===== src/ServerTools/Inject.antt =====
-- crates/bitrouter-sdk/src/language_model/server_tools/loop_controller.rs: `ServerToolLoop::inject`.
use Prim.Native.String.{◌++◌ as append}
use bitrouter_ethglobal.Base.{
  String, Option, none, some, Bool, false, List, [], ◌∷◌, ◌++◌, contains, retain, any, not, str_eq,
  if◌then◌else◌,
}
use bitrouter_ethglobal.Error.{internal, Result, ok, err, ◌>>=◌}
use bitrouter_ethglobal.Types.Messages.{Tool, function, provider_defined, tool_name, ToolChoice}
use bitrouter_ethglobal.Types.Capabilities.{Body}
use bitrouter_ethglobal.Pipeline.Model.{Prompt}
use bitrouter_ethglobal.ServerTools.{ServerToolLoop, list_all}

abbrev pub with_instruction : Option String → Option String → Option String
with_instruction none system = system
with_instruction (some instruction) none = some instruction
with_instruction (some instruction) (some existing) =
    some (append instruction (append "\n\n" existing))

abbrev pub with_forced : Option String → List String → Option ToolChoice → Option ToolChoice
with_forced none owned choice = choice
with_forced (some name) owned choice =
    if contains owned name then some (ToolChoice.tool name) else choice

module _ {J : Type 0} where
  -- A caller's provider-defined tool gives way to the router's tool of that name.
  abbrev pub replaced : List String → Tool J → Bool
  replaced owned (provider_defined id name args meta) = contains owned name
  replaced owned (function name description parameters strict meta) = false

  unfoldable pub collide : List (Tool J) → List (Tool J) → Result (Unit {0})
  collide tools [] = ok tt
  collide tools (t ∷ injected) =
      let rest = collide tools injected in
      if any (λ u. str_eq (tool_name u) (tool_name t)) tools
      then err (internal (append "router tool name collides with a caller tool: " (tool_name t)))
      else rest

  -- `inject` after the registry has listed the tools.
  unfoldable pub inject_tools :
      Option String
      → Option String
      → Prompt (Body J) J
      → List (Tool J) × List String
      → Result (Prompt (Body J) J × List String)
  unfolding collide
  inject_tools instruction forced base (injected, owned) =
      let kept = retain (λ t. not (replaced owned t)) base.body.tools in
      collide kept injected >>= λ _. ok (
        record base {
          system = with_instruction instruction base.system;
          body = record base.body {
            tools = kept ++ injected;
            tool_choice = with_forced forced owned base.body.tool_choice;
          };
        },
        owned,
      )

  unfoldable pub inject :
      {W : Type 0}
      → ServerToolLoop J W
      → Prompt (Body J) J
      → W
      → Result (Prompt (Body J) J × List String) × W
  unfolding inject_tools
  inject l base w =
      let listed = list_all l.registry w in
      (listed.0 >>= inject_tools l.system_instruction l.force_first_tool base, listed.1)
