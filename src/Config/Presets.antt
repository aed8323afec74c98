-- ===== src/Config/Presets.antt =====
-- crates/bitrouter-sdk/src/config/presets.rs: `@preset` and `:variant` in a request's model name.
pub mod Names
mod Tests
use Prim.Native.Char.{code}
use Prim.Native.String.{◌++◌ as append}
use bitrouter_ethglobal.Base.{
  String, Option, none, some, List, [], ◌==◌, str_eq, if◌then◌else◌, unwrap_or, or_else, lookup,
  contains_key,
}
use bitrouter_ethglobal.Error.{bad_request, Result, ok, err, ◌>>=◌}
use bitrouter_ethglobal.Policy.{push_new}
use bitrouter_ethglobal.Routing.{RoutingPrefs, prefs_default, PromptOverrides}
use bitrouter_ethglobal.Config.Model.{RoutingConfig, PresetConfig}

-- `split_once(':')`, at the first colon, and `rsplit_once(':')`, at the last one.
abbrev pub prefix_left : String → Option (String × String) → Option (String × String)
prefix_left c none = none
prefix_left c (some split) = some (append c split.0, split.1)

unfoldable pub split_once : String → Option (String × String)
split_once String.[] = none
split_once (String.◌∷◌ c s) =
    let rest = split_once s in
    if code c == b':' then some ("", s) else prefix_left (String.◌∷◌ c "") rest

unfoldable pub rsplit_once : String → Option (String × String)
rsplit_once String.[] = none
rsplit_once (String.◌∷◌ c s) =
    or_else (prefix_left (String.◌∷◌ c "") (rsplit_once s))
      (if code c == b':' then some ("", s) else none)

-- `strip_prefix('@')`.
unfoldable pub strip_at : String → Option String
strip_at String.[] = none
strip_at (String.◌∷◌ c s) = if code c == b'@' then some s else none

unfoldable pub apply_routing : {K : Type 0} → RoutingPrefs K → RoutingConfig → RoutingPrefs K
apply_routing prefs routing = record prefs {
  sort = unwrap_or prefs.sort routing.sort;
  require_tags = push_new prefs.require_tags routing.require_tags;
  only = push_new prefs.only routing.only;
  ignore = push_new prefs.ignore routing.ignore;
}

pub record PresetResolution (X K : Type 0) : Type 0 where
  pub clean_model : String
  pub prefs : RoutingPrefs K
  pub overrides : PromptOverrides X

-- Step 1: the head of the name, and the routing of the variant that it names.
abbrev pub variant_of :
    List (String × RoutingConfig)
    → String
    → Option (String × String)
    → String × Option RoutingConfig
variant_of variants raw none = (raw, none)
variant_of variants raw (some (left, right)) =
    if contains_key right variants then (left, lookup right variants) else (raw, none)

abbrev pub apply_opt : {K : Type 0} → Option RoutingConfig → RoutingPrefs K → RoutingPrefs K
apply_opt none prefs = prefs
apply_opt (some routing) prefs = apply_routing prefs routing

module _ {X : Type 0} where
  abbrev pub preset_model : Option (PresetConfig X) → Option String
  preset_model none = none
  preset_model (some p) = p.model

  abbrev pub preset_routing : Option (PresetConfig X) → Option RoutingConfig
  preset_routing none = none
  preset_routing (some p) = some p.routing

  abbrev pub preset_prompt : Option (PresetConfig X) → PromptOverrides X
  preset_prompt none = record { system_prompt = none; params = [] }
  preset_prompt (some p) = record { system_prompt = p.system_prompt; params = p.params }

module _ {X : Type 0} where
  abbrev pub found_preset : String → Option (PresetConfig X) → Result (Option (PresetConfig X))
  found_preset name none = err (bad_request (append "unknown preset '@" (append name "'")))
  found_preset name (some p) = ok (some p)

  -- Step 3.
  abbrev pub find_preset :
      List (String × PresetConfig X) → Option String → Result (Option (PresetConfig X))
  find_preset presets none = ok none
  find_preset presets (some name) = found_preset name (lookup name presets)

-- Step 4.
abbrev pub chosen_name : Option String → Option String → Result String
chosen_name preset_name none = err (
    bad_request (
      append "preset '"
        (append (unwrap_or "" preset_name) "' defines no model: and the request gave none")))
chosen_name preset_name (some name) =
    if str_eq name "" then err (bad_request "empty model name") else ok name

abbrev pub clean_name : Option String → Option String → Option String → Result String
clean_name preset_model base preset_name = chosen_name preset_name (or_else preset_model base)

-- Step 2: the name of a preset, or the literal base.
abbrev pub base_of : String → Option String → Option String
base_of head none = some head
base_of head (some name) = none

unfoldable pub resolve_presets :
    {X : Type 0} (K : Type 0)
    → String
    → List (String × PresetConfig X)
    → List (String × RoutingConfig)
    → Result (PresetResolution X K)
resolve_presets K raw_model presets variants = do
  let (head, variant) = variant_of variants raw_model (rsplit_once raw_model)
  let preset_name = strip_at head
  preset ← find_preset presets preset_name
  name ← clean_name (preset_model preset) (base_of head preset_name) preset_name
  ok (record {
    clean_model = name;
    prefs = apply_opt variant (apply_opt (preset_routing preset) prefs_default);
    overrides = preset_prompt preset;
  })
