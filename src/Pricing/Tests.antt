-- ===== src/Pricing/Tests.antt =====
-- Charges at concrete prices, with numbers in place of `f64`.
use bitrouter_ethglobal.Base.{
  ℕ, ◌+◌, ◌*◌, ◌≡◌, refl, ◌↔◌, ◌⊎◌, none, some, String, List, [], ◌∷◌, arith,
}
use bitrouter_ethglobal.Base.Int.{pos}
use bitrouter_ethglobal.Types.{Usage}
use bitrouter_ethglobal.Pricing.{
  Float, ModelPricing, pricing_new, resolve_for_input_tokens, table_insert, table_resolve,
  calculate_charge_micro_usd,
}
use bitrouter_ethglobal.Pricing.Brackets.{Bracket, resolve_for_input_tokens-Bracket}
use bitrouter_ethglobal.Pricing.Charge.{
  Unpriced, clamp_usage, calculate_charge-eq-none_iff, calculate_charge-clamp_usage,
}

abbrev whole : Float
whole = record {
  F = ℕ;
  zero_f = 0;
  of_u64 = λ n. n;
  add = λ a b. a + b;
  mul = λ a b. a * b;
  round = λ a. a;
  max_f = λ a b. a;
  to_i64 = pos;
}

abbrev tiered : ModelPricing ℕ
tiered = record (pricing_new 3 15) {
  context_tiers =
      record {
        above_input_tokens = 128_000;
        input_micro_usd_per_token = some 6;
        output_micro_usd_per_token = none;
      }
      ∷ [];
}

abbrev long_prompt : Usage
long_prompt = record {
  prompt_tokens = 200_000;
  completion_tokens = 10;
  reasoning_tokens = 0;
  cache_read_tokens = 0;
  cache_write_tokens = 0;
}

resolve_for_input_tokens-Bracket_example :
    Bracket tiered 200_000 (resolve_for_input_tokens tiered 200_000)
resolve_for_input_tokens-Bracket_example = resolve_for_input_tokens-Bracket tiered 200_000

abbrev table : List ((String × String) × ModelPricing ℕ)
table = (("openai", "gpt-5"), tiered) ∷ []

table_insert_test :
    table_resolve (table_insert table "openai" "gpt-5" (pricing_new 1 2)) "openai" "gpt-5"
    ≡ some (pricing_new 1 2)
unfolding table_resolve table_insert
table_insert_test = refl

calculate_charge-eq-none_iff_example :
    (calculate_charge_micro_usd whole long_prompt tiered ≡ none) ↔ (
      Unpriced whole 200_000 (resolve_for_input_tokens tiered 200_000).input_micro_usd_per_token
      ⊎ Unpriced whole 10 (resolve_for_input_tokens tiered 200_000).output_micro_usd_per_token)
calculate_charge-eq-none_iff_example = calculate_charge-eq-none_iff whole long_prompt tiered

calculate_charge-clamp_usage_example :
    calculate_charge_micro_usd whole (clamp_usage whole long_prompt) tiered
    ≡ calculate_charge_micro_usd whole long_prompt tiered
calculate_charge-clamp_usage_example =
    calculate_charge-clamp_usage whole long_prompt tiered (omega arith, tt)
