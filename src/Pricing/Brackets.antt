-- ===== src/Pricing/Brackets.antt =====
-- Which context tier prices a request.
use bitrouter_ethglobal.Base.{
  ℕ, ◌≡◌, refl, ◌≤◌, ◌<◌, ◌⊎◌, inl, inr, Option, none, some, false, List, [], ◌∷◌, ◌++◌, All, Picks,
  max_by_key-retain, max_by_key-retain-eq-none, ltb→lt, arith,
}
use bitrouter_ethglobal.Pricing.{
  ContextTier, ModelPricing, enters, threshold, tier_for, flat_pricing, resolve_for_input_tokens,
}

module _ {F : Type 0} (tokens : ℕ) where
  -- A tier that a request does not reach, or whose threshold is bounded.
  abbrev pub NoHigher : ContextTier F → ContextTier F → Type 0
  NoHigher t u = (tokens ≤ u.above_input_tokens) ⊎ (u.above_input_tokens ≤ t.above_input_tokens)

  abbrev pub Lower : ContextTier F → ContextTier F → Type 0
  Lower t u = (tokens ≤ u.above_input_tokens) ⊎ (u.above_input_tokens < t.above_input_tokens)

  not_entered : (t : ContextTier F) → enters tokens t ≡ false → tokens ≤ t.above_input_tokens
  not_entered t h = ground arith

  All-not_entered :
      (ts : List (ContextTier F))
      → All (λ t. enters tokens t ≡ false) ts
      → All (λ (t : ContextTier F). tokens ≤ t.above_input_tokens) ts
  All-not_entered [] h = tt
  All-not_entered (t ∷ ts) h = (not_entered t h.0, All-not_entered ts h.1)

  All-NoHigher :
      (t : ContextTier F) (ts : List (ContextTier F))
      → All (λ u. (enters tokens u ≡ false) ⊎ (threshold u ≤ threshold t)) ts
      → All (NoHigher t) ts
  All-NoHigher t [] h = tt
  All-NoHigher t (u ∷ us) (inl h, r) = (inl (not_entered u h), All-NoHigher t us r)
  All-NoHigher t (u ∷ us) (inr h, r) = (inr h, All-NoHigher t us r)

  All-Lower :
      (t : ContextTier F) (ts : List (ContextTier F))
      → All (λ u. (enters tokens u ≡ false) ⊎ (threshold u < threshold t)) ts
      → All (Lower t) ts
  All-Lower t [] h = tt
  All-Lower t (u ∷ us) (inl h, r) = (inl (not_entered u h), All-Lower t us r)
  All-Lower t (u ∷ us) (inr h, r) = (inr h, All-Lower t us r)

  -- `t` is exceeded, and of the exceeded tiers none before it has a greater threshold and every one
  -- after it a lesser one.
  pub record Greatest (tiers : List (ContextTier F)) (t : ContextTier F) : Type 0 where
    pub before : List (ContextTier F)
    pub after : List (ContextTier F)
    pub split : tiers ≡ before ++ (t ∷ after)
    pub exceeded : t.above_input_tokens < tokens
    pub no_higher : All (NoHigher t) before
    pub lower : All (Lower t) after

  Greatest-of_Picks :
      (tiers : List (ContextTier F)) (t : ContextTier F)
      → Picks (enters tokens) threshold tiers t
      → Greatest tiers t
  Greatest-of_Picks tiers t m = record {
    before = m.before;
    after = m.after;
    split = m.split;
    exceeded = ltb→lt t.above_input_tokens tokens m.kept;
    no_higher = All-NoHigher t m.before m.le_before;
    lower = All-Lower t m.after m.lt_after;
  }

module _ {F : Type 0} (p : ModelPricing F) (tokens : ℕ) where
  abbrev pub Chosen : Option (ContextTier F) → Type 0
  Chosen none = All (λ (t : ContextTier F). tokens ≤ t.above_input_tokens) p.context_tiers
  Chosen (some t) = Greatest tokens p.context_tiers t

  abbrev pub Bracket : ModelPricing F → Type 0
  Bracket r = (tier : Option (ContextTier F)) × (r ≡ flat_pricing p tier) × Chosen tier

  tier_for-Chosen : (tier : Option (ContextTier F)) → tier_for p tokens ≡ tier → Chosen tier
  unfolding tier_for
  tier_for-Chosen none e =
      All-not_entered tokens p.context_tiers
        (max_by_key-retain-eq-none (enters tokens) threshold p.context_tiers e)
  tier_for-Chosen (some t) e =
      Greatest-of_Picks tokens p.context_tiers t
        (max_by_key-retain (enters tokens) threshold p.context_tiers e)

  -- The resolved pricing of a request has the base rates if its prompt is longer than the threshold of
  -- no tier, and else the rates of a tier with the greatest threshold that the prompt exceeds, the
  -- last one of several with that threshold. A prompt as long as a threshold does not exceed it.
  pub resolve_for_input_tokens-Bracket : Bracket (resolve_for_input_tokens p tokens)
  unfolding resolve_for_input_tokens
  resolve_for_input_tokens-Bracket = (tier_for p tokens, refl, tier_for-Chosen _ refl)
