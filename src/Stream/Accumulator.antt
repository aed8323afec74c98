-- ===== src/Stream/Accumulator.antt =====
-- `StreamInterest` and `UsageAccumulator` of stream.rs.
pub mod Estimate
use Prim.Native.String.{count}
use bitrouter_ethglobal.Base.{
  ℕ, ◌+◌, ◌-◌, ◌/◌, ◌%◌, ◌^◌, min, String, Option, none, some, Bool, true, false, List, [], ◌∷◌,
  ◌==◌, if◌then◌else◌,
}
use bitrouter_ethglobal.Types.{
  Usage, usage_default, StreamPart, text_delta, reasoning_delta, tool_call_delta, response_started,
  finish, response_completed,
}
use bitrouter_ethglobal.Types

abbrev pub u64_max : ℕ
u64_max = 2 ^ 64 - 1

-- `u64::saturating_add`.
abbrev pub saturating_add : ℕ → ℕ → ℕ
saturating_add a b = min (a + b) u64_max

-- The bit of an interest set that a part tests; `none` is the mask 0.
unfoldable pub interest_bit : {X : Type 0} → StreamPart X → Option ℕ
interest_bit (text_delta t) = some 0
interest_bit (reasoning_delta t) = some 1
interest_bit (tool_call_delta id name arguments) = some 2
interest_bit (Types.usage u) = some 3
interest_bit (finish reason) = some 4
interest_bit (response_completed id status u) = some 4
interest_bit (response_started id) = some 5
interest_bit _ = none

abbrev pub has_bit : ℕ → Option ℕ → Bool
has_bit bits none = false
has_bit bits (some i) = (bits / 2 ^ i) % 2 == 1

-- `StreamInterest::matches`, on the set's byte.
unfoldable pub interest_matches : {X : Type 0} → ℕ → StreamPart X → Bool
interest_matches bits part = has_bit bits (interest_bit part)

pub record UsageAccumulator : Type 0 where
  pub usage : Usage
  pub seen : Bool
  pub delta_chars : ℕ
  pub prompt_chars : ℕ

unfoldable pub with_prompt_chars : ℕ → UsageAccumulator
with_prompt_chars prompt_chars = record {
  usage = usage_default;
  seen = false;
  delta_chars = 0;
  prompt_chars = prompt_chars;
}

abbrev pub note_usage : Usage → UsageAccumulator → UsageAccumulator
note_usage u acc = record acc { usage = u; seen = true }

abbrev pub note_text : String → UsageAccumulator → UsageAccumulator
note_text text acc = record acc { delta_chars = saturating_add acc.delta_chars (count text) }

-- `UsageAccumulator::observe`.
unfoldable pub observe : {X : Type 0} → StreamPart X → UsageAccumulator → UsageAccumulator
observe (Types.usage u) acc = note_usage u acc
observe (response_completed id status (some u)) acc = note_usage u acc
observe (text_delta text) acc = note_text text acc
observe (reasoning_delta text) acc = note_text text acc
observe _ acc = acc

unfoldable pub finalized : UsageAccumulator → Option Usage
finalized acc = if acc.seen then some acc.usage else none

-- `u64::div_ceil` by `CHARS_PER_TOKEN_ESTIMATE`.
abbrev pub tokens_of_chars : ℕ → ℕ
tokens_of_chars chars = (chars + 3) / 4

unfoldable pub estimated_output_tokens : UsageAccumulator → ℕ
estimated_output_tokens acc = tokens_of_chars acc.delta_chars

unfoldable pub estimated_prompt_tokens : UsageAccumulator → ℕ
estimated_prompt_tokens acc = tokens_of_chars acc.prompt_chars
