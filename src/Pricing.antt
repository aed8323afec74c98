-- ===== src/Pricing.antt =====
-- apps/bitrouter/src/metering/pricing.rs: rates with context tiers, the table of rates and the
-- charge of a request. `f64` is the parameter `Float`: the code only applies its operations.
pub mod Brackets
pub mod Charge
mod Tests
use bitrouter_ethglobal.Base.{
  ℕ, zero, suc, min, String, Option, none, some, Bool, List, [], ◌∷◌, ◌&&◌, not, ltb, retain,
  max_by_key, is_some, str_eq, if◌then◌else◌,
}
use bitrouter_ethglobal.Base.Int.{ℤ}
use bitrouter_ethglobal.Types.{Usage}

-- `f64` and the operations that the charge applies to it; `to_i64` is the saturating cast.
pub record Float : Type 1 where
  pub F : Type 0
  pub zero_f : F
  pub of_u64 : ℕ → F
  pub add : F → F → F
  pub mul : F → F → F
  pub round : F → F
  pub max_f : F → F → F
  pub to_i64 : F → ℤ

pub record ContextTier (F : Type 0) : Type 0 where
  pub above_input_tokens : ℕ
  pub input_micro_usd_per_token : Option F
  pub output_micro_usd_per_token : Option F

pub record ModelPricing (F : Type 0) : Type 0 where
  pub input_micro_usd_per_token : Option F
  pub output_micro_usd_per_token : Option F
  pub context_tiers : List (ContextTier F)

module _ {F : Type 0} where
  -- `ModelPricing::new` and `ModelPricing::partial`.
  abbrev pub pricing_new : F → F → ModelPricing F
  pricing_new input output = record {
    input_micro_usd_per_token = some input;
    output_micro_usd_per_token = some output;
    context_tiers = [];
  }

  abbrev pub pricing_partial : Option F → Option F → ModelPricing F
  pricing_partial input output = record {
    input_micro_usd_per_token = input;
    output_micro_usd_per_token = output;
    context_tiers = [];
  }

  abbrev pub enters : ℕ → ContextTier F → Bool
  enters input_tokens t = ltb t.above_input_tokens input_tokens

  abbrev pub threshold : ContextTier F → ℕ
  threshold t = t.above_input_tokens

  -- The tier that `resolve_for_input_tokens` selects.
  unfoldable pub tier_for : ModelPricing F → ℕ → Option (ContextTier F)
  tier_for p input_tokens = max_by_key threshold (retain (enters input_tokens) p.context_tiers)

  abbrev pub flat_pricing : ModelPricing F → Option (ContextTier F) → ModelPricing F
  flat_pricing p none = pricing_partial p.input_micro_usd_per_token p.output_micro_usd_per_token
  flat_pricing p (some tier) =
      pricing_partial tier.input_micro_usd_per_token tier.output_micro_usd_per_token

  unfoldable pub resolve_for_input_tokens : ModelPricing F → ℕ → ModelPricing F
  unfolding tier_for
  resolve_for_input_tokens p input_tokens = flat_pricing p (tier_for p input_tokens)

  unfoldable pub is_unconfigured : ModelPricing F → Bool
  is_unconfigured p =
      not (is_some p.input_micro_usd_per_token) && not (is_some p.output_micro_usd_per_token)

  unfoldable pub is_complete : ModelPricing F → Bool
  is_complete p = is_some p.input_micro_usd_per_token && is_some p.output_micro_usd_per_token

-- `PricingTable`: a map keyed by (provider, service id).
abbrev pub same_key : String → String → String × String → Bool
same_key provider service_id k = str_eq k.0 provider && str_eq k.1 service_id

module _ {F : Type 0} where
  unfoldable pub table_insert :
      List ((String × String) × ModelPricing F)
      → String
      → String
      → ModelPricing F
      → List ((String × String) × ModelPricing F)
  table_insert [] provider service_id p = ((provider, service_id), p) ∷ []
  table_insert ((k, q) ∷ entries) provider service_id p =
      if same_key provider service_id k
      then ((provider, service_id), p) ∷ entries
      else (k, q) ∷ table_insert entries provider service_id p

  unfoldable pub table_resolve :
      List ((String × String) × ModelPricing F) → String → String → Option (ModelPricing F)
  table_resolve [] provider service_id = none
  table_resolve ((k, q) ∷ entries) provider service_id =
      if same_key provider service_id k then some q else table_resolve entries provider service_id

abbrev pub max_trusted_tokens : ℕ
max_trusted_tokens = 10_000_000

infixl 5 ◌>>=◌
abbrev ◌>>=◌ {ℓ κ} : {A : Type ℓ} {B : Type κ} → Option A → (A → Option B) → Option B
none >>= k = none
some a >>= k = k a

module _ (f : Float) where
  open f use {F, zero_f, of_u64, add, mul, round, max_f, to_i64}

  -- The match on the clamped token count.
  bucket_of : ℕ → Option F → Option F
  bucket_of zero rate = some zero_f
  bucket_of (suc n) (some r) = some (mul (of_u64 (suc n)) r)
  bucket_of (suc n) none = none

  unfoldable pub bucket_charge : ℕ → Option F → Option F
  unfolding bucket_of
  bucket_charge tokens rate = bucket_of (min tokens max_trusted_tokens) rate

  unfoldable pub calculate_charge_micro_usd : Usage → ModelPricing F → Option ℤ
  calculate_charge_micro_usd usage pricing = do
    let p = resolve_for_input_tokens pricing usage.prompt_tokens
    input ← bucket_charge usage.prompt_tokens p.input_micro_usd_per_token
    output ← bucket_charge usage.completion_tokens p.output_micro_usd_per_token
    some (to_i64 (max_f (round (add input output)) zero_f))
