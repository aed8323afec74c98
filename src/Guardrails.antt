-- ===== src/Guardrails.antt =====
-- plugins/bitrouter-guardrails/src/rules.rs and config.rs: rules, and the sliding window over a
-- streamed response. A compiled regular expression of the regex crate is a record of what is used of it.
pub mod Hooks
pub mod Window
pub mod Catches
pub mod Requests
mod Tests
use Prim.Native.Char.{Char}
use Prim.Native.String.{◌++◌ as append}
use bitrouter_ethglobal.Base.{
  ℕ, ◌-◌, min, String, Option, none, some, Bool, true, false, List, [], ◌∷◌, ◌++◌, ◌&&◌, not, find,
  drop, length, str_eq, is_empty, unwrap_or, if◌then◌else◌,
}
use mathlib.Core.Option

pub data Action : Type 0 where
  block redact : Action

-- `Regex::is_match`, and `Regex::replace_all` with the text and the replacement.
pub record Regex : Type 0 where
  pub is_match : String → Bool
  pub replace_all : String → String → String

pub record GuardrailRule : Type 0 where
  pub name : String
  pub pattern : Regex
  pub action : Action

abbrev pub redaction : String
redaction = "[REDACTED]"

abbrev pub is_block : Action → Bool
is_block block = true
is_block redact = false

-- `RuleSet` is its list of rules.
abbrev pub blocks : String → GuardrailRule → Bool
blocks text r = is_block r.action && r.pattern.is_match text

unfoldable pub first_block : List GuardrailRule → String → Option String
first_block rules text = Option.map (λ (r : GuardrailRule). r.name) (find (blocks text) rules)

-- One round of the loop of `RuleSet::redact`.
abbrev pub redact_step : GuardrailRule → String × Bool → String × Bool
redact_step rule (out, changed) =
    let replaced = rule.pattern.replace_all out redaction in
    if is_block rule.action
    then (out, changed)
    else if str_eq replaced out
    then (out, changed)
    else (replaced, true)

unfoldable pub redact_from : List GuardrailRule → String × Bool → String × Bool
redact_from [] r = r
redact_from (rule ∷ rules) r = redact_from rules (redact_step rule r)

-- `RuleSet::redact`.
unfoldable pub redact_text : List GuardrailRule → String → String × Bool
unfolding redact_from
redact_text rules text = redact_from rules (text, false)

pub data WindowResult : Type 0 where
  emit blocked : String → WindowResult

abbrev pub carry_chars : ℕ
carry_chars = 128

-- `SlidingWindowMatcher`.
pub record Matcher : Type 0 where
  pub rules : List GuardrailRule
  pub carry : List Char

-- `str::chars` and `iter().collect()`.
unfoldable pub chars : String → List Char
chars String.[] = []
chars (String.◌∷◌ c s) = c ∷ chars s

unfoldable pub collect : List Char → String
collect [] = ""
collect (c ∷ cs) = String.◌∷◌ c (collect cs)

-- `with_carry`, and the accessor `carry`.
unfoldable pub with_carry : List GuardrailRule → String → Matcher
with_carry rules carry = record { rules = rules; carry = chars carry }

unfoldable pub carry_text : Matcher → String
carry_text m = collect m.carry

-- The last characters of the combined text.
unfoldable pub slide : List Char → List Char
slide cs = drop (length cs - min (length cs) carry_chars) cs

abbrev pub verdict : Matcher → String → String → Option String → WindowResult × Matcher
verdict m combined delta (some name) = (blocked name, m)
verdict m combined delta none =
    (emit (redact_text m.rules delta).0, record m { carry = slide (chars combined) })

-- `SlidingWindowMatcher::feed`.
unfoldable pub feed : Matcher → String → WindowResult × Matcher
feed m delta =
    let combined = append (collect m.carry) delta in
    verdict m combined delta (first_block m.rules combined)

-- config.rs: `RuleSpec`, with the default of a missing action, and `GuardrailConfig::compile`. `build`
-- compiles a pattern under the size limit, or fails with an error of the regex crate.
pub record RuleSpec : Type 0 where
  pub name : String
  pub pattern : String
  pub action : Option Action

unfoldable pub compile_rule : (String → Option Regex) → RuleSpec → Option GuardrailRule
compile_rule build spec =
    Option.map
      (λ pattern. record {
        name = spec.name;
        pattern = pattern;
        action = unwrap_or block spec.action;
      })
      (build spec.pattern)

unfoldable pub compile : (String → Option Regex) → List RuleSpec → Option (List GuardrailRule)
compile build [] = some []
compile build (spec ∷ specs) = elim (compile_rule build spec) [
  | none ↦ none
  | some rule ↦ Option.map (λ rules. rule ∷ rules) (compile build specs)
]
