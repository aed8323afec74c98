-- ===== src/Pricing/Charge.antt =====
-- When a request is charged, and that the charge does not see more than the trusted token counts.
use bitrouter_ethglobal.Base.{
  ℕ, zero, suc, ◌≡◌, ◌≢◌, ◌<◌, ◌↔◌, ◌⊎◌, refl, Option, none, some, String, List, [], ◌∷◌, All, min,
  arith, retain, if◌then◌else◌, eq_iff, inl, inr, str_eq, ◌&&◌,
}
use bitrouter_ethglobal.Types.{Usage}
use bitrouter_ethglobal.Pricing.{
  Float, ContextTier, ModelPricing, enters, tier_for, resolve_for_input_tokens, max_trusted_tokens,
  bucket_of, bucket_charge, calculate_charge_micro_usd, table_insert, table_resolve, ◌>>=◌,
}

-- A lookup sees the last price that was registered for its provider and service id, and every other
-- entry is unchanged.
pub table_resolve-table_insert :
    {F : Type 0} (t : List ((String × String) × ModelPricing F)) (provider service p' s' : String)
    (v : ModelPricing F)
    → table_resolve (table_insert t provider service v) p' s'
      ≡ (if str_eq provider p' && str_eq service s' then some v else table_resolve t p' s')
unfolding table_resolve table_insert
table_resolve-table_insert [] provider service p' s' v = refl
table_resolve-table_insert (((a, b), q) ∷ t) provider service p' s' v = ground (
  arith,
  eq_iff a provider,
  eq_iff b service,
  eq_iff a p',
  eq_iff b s',
  eq_iff provider p',
  eq_iff service s',
  table_resolve-table_insert t provider service p' s' v,
)

min-min : (n : ℕ) → min (min n max_trusted_tokens) max_trusted_tokens ≡ min n max_trusted_tokens
min-min n = omega arith

both_some_iff :
    {A B : Type 0} (o o' : Option A) (g : A → A → B)
    → ((o >>= λ a. o' >>= λ b. some (g a b)) ≡ none) ↔ ((o ≡ none) ⊎ (o' ≡ none))
both_some_iff none o' g = ground arith
both_some_iff (some a) none g = ground arith
both_some_iff (some a) (some b) g = ground arith

module _ (f : Float) where
  open f use {F}

  -- A token count is unpriced if it is positive and its rate is missing.
  abbrev pub Unpriced : ℕ → Option F → Type 0
  Unpriced tokens rate = (tokens ≢ 0) × (rate ≡ none)

  bucket_of-eq-none_iff :
      (tokens : ℕ) (rate : Option F) → (bucket_of f tokens rate ≡ none) ↔ Unpriced tokens rate
  unfolding bucket_of
  bucket_of-eq-none_iff zero rate = ground arith
  bucket_of-eq-none_iff (suc n) none = ground arith
  bucket_of-eq-none_iff (suc n) (some r) = ground arith

  bucket_charge-eq-none_iff :
      (tokens : ℕ) (rate : Option F) → (bucket_charge f tokens rate ≡ none) ↔ Unpriced tokens rate
  unfolding bucket_charge
  bucket_charge-eq-none_iff tokens rate =
      let (to, from) = bucket_of-eq-none_iff (min tokens max_trusted_tokens) rate in
      (λ h. ((λ e. (to h).0 (omega arith)), (to h).1), λ u. from ((λ e. u.0 (omega arith)), u.1))

  -- A charge is refused exactly if a positive token count has no rate in the bracket of the request.
  pub calculate_charge-eq-none_iff :
      (usage : Usage) (pricing : ModelPricing F)
      → (calculate_charge_micro_usd f usage pricing ≡ none) ↔ (
          Unpriced usage.prompt_tokens
            (resolve_for_input_tokens pricing usage.prompt_tokens).input_micro_usd_per_token
          ⊎ Unpriced usage.completion_tokens
              (resolve_for_input_tokens pricing usage.prompt_tokens).output_micro_usd_per_token)
  unfolding calculate_charge_micro_usd
  calculate_charge-eq-none_iff usage pricing =
      let p = resolve_for_input_tokens pricing usage.prompt_tokens in
      let (in_to, in_from) =
        bucket_charge-eq-none_iff usage.prompt_tokens p.input_micro_usd_per_token in
      let (out_to, out_from) =
        bucket_charge-eq-none_iff usage.completion_tokens p.output_micro_usd_per_token in
      let (to, from) =
        both_some_iff (bucket_charge f usage.prompt_tokens p.input_micro_usd_per_token)
          (bucket_charge f usage.completion_tokens p.output_micro_usd_per_token) _ in
      (
        λ h. elim (to h) [ inl e ↦ inl (in_to e) | inr e ↦ inr (out_to e) ],
        λ h. from (elim h [ inl u ↦ inl (in_from u) | inr u ↦ inr (out_from u) ]),
      )

  -- The usage with both counts cut off at the trusted maximum.
  abbrev pub clamp_usage : Usage → Usage
  clamp_usage u = record u {
    prompt_tokens = min u.prompt_tokens max_trusted_tokens;
    completion_tokens = min u.completion_tokens max_trusted_tokens;
  }

  tier_for-min :
      (tiers : List (ContextTier F)) (tokens : ℕ)
      → All (λ (t : ContextTier F). t.above_input_tokens < max_trusted_tokens) tiers
      → retain (enters (min tokens max_trusted_tokens)) tiers ≡ retain (enters tokens) tiers
  tier_for-min [] tokens h = refl
  tier_for-min (t ∷ ts) tokens h = ground (arith, tier_for-min ts tokens h.1)

  -- The charge of a request is the charge of its usage cut off at the trusted maximum, if every tier
  -- begins below that maximum: a token count beyond it changes neither the bracket nor the amount.
  pub calculate_charge-clamp_usage :
      (usage : Usage) (pricing : ModelPricing F)
      → All (λ (t : ContextTier F). t.above_input_tokens < max_trusted_tokens) pricing.context_tiers
      → calculate_charge_micro_usd f (clamp_usage usage) pricing
        ≡ calculate_charge_micro_usd f usage pricing
  unfolding calculate_charge_micro_usd resolve_for_input_tokens tier_for bucket_charge
  calculate_charge-clamp_usage usage pricing h =
      rw (tier_for-min pricing.context_tiers usage.prompt_tokens h) (simp min-min)
