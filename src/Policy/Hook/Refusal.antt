-- ===== src/Policy/Hook/Refusal.antt =====
-- How the policy hook turns requests away.
use bitrouter_ethglobal.Base.{
  ℕ, ◌≡◌, ◌⊎◌, inl, inr, refl, String, Option, none, some, Bool, true, false, List, is_some,
  if◌then◌else◌, subst,
}
use bitrouter_ethglobal.Error.{
  DenyReason, Result, ok, err, HookDecision, allow, deny, ◌>>=◌, status, from_deny,
}
use bitrouter_ethglobal.Policy.{
  Policy, EffectivePolicy, Check, check_model, check_expiry, check_spend, check_tools, check_rate,
  has_tool_restriction, effective_for,
}
use bitrouter_ethglobal.Policy.Hook.{
  Metering, PolicyRequest, ids_of, forbid_on, limit_on, rate_step, spend_step, checks, policy_check,
}

abbrev pub Fails : Check → Type 0
Fails c = is_some c ≡ true

module _ (p : EffectivePolicy) (metering : Option Metering) (r : PolicyRequest) where
  -- The model, the expiry, a tool or the spend that the metering store reports violates the policy.
  abbrev pub Forbidden : Type 0
  Forbidden =
      Fails (check_model p r.model)
      ⊎ (Fails (check_expiry p r.now)
          ⊎ (Fails (check_tools p r.tools)
              ⊎ ((m : Metering) × (spent : ℕ) × (metering ≡ some m)
                  × (m.get_spend ≡ ok spent)
                  × Fails (check_spend p spent))))

  -- The rate that the metering store reports violates the policy.
  abbrev pub TooFast : Type 0
  TooFast =
      (m : Metering) × (observed : ℕ) × (metering ≡ some m)
      × (m.get_rate ≡ ok observed)
      × Fails (check_rate p observed)

  -- A denial is a 403 for a violation of the first kind, or asks to retry after 60 s for one of the
  -- second.
  abbrev pub Refused : DenyReason → Type 0
  Refused reason =
      ((status (from_deny reason) ≡ 403) × Forbidden)
      ⊎ ((reason ≡ DenyReason.rate_limited (some 60)) × TooFast)

  abbrev Sound : Result HookDecision → Type 0
  Sound (ok allow) = Unit
  Sound (ok (deny reason)) = Refused reason
  Sound (err e) = Unit

  forbid_on-Sound :
      (c : Check) (next : Result HookDecision)
      → (Fails c → Forbidden)
      → Sound next
      → Sound (forbid_on c next)
  unfolding status from_deny
  forbid_on-Sound none next f h = h
  forbid_on-Sound (some v) next f h = inl (refl, f refl)

  limit_on-Sound : (c : Check) → (Fails c → TooFast) → Sound (limit_on c (ok allow))
  limit_on-Sound none f = tt
  limit_on-Sound (some v) f = inr (refl, f refl)

  if-Sound : (b : Bool) (x y : Result HookDecision) → Sound x → Sound y → Sound (if b then x else y)
  if-Sound true x y h k = h
  if-Sound false x y h k = k

  bind-Sound :
      (g : Result ℕ) (f : ℕ → Result HookDecision)
      → ((n : ℕ) → g ≡ ok n → Sound (f n))
      → Sound (g >>= f)
  bind-Sound (ok n) f h = h n refl
  bind-Sound (err e) f h = tt

  rate_step-Sound : (o : Option Metering) → metering ≡ o → Sound (rate_step p o)
  unfolding rate_step
  rate_step-Sound none e = tt
  rate_step-Sound (some m) e =
      if-Sound (is_some p.max_requests_per_minute) _ _
        (bind-Sound m.get_rate _ (λ n g. limit_on-Sound (check_rate p n) (λ f. (m, n, e, g, f)))) tt

  spend_step-Sound : (o : Option Metering) → metering ≡ o → Sound (spend_step p o)
  unfolding spend_step
  spend_step-Sound none e = rate_step-Sound none e
  spend_step-Sound (some m) e =
      let rest = rate_step-Sound (some m) e in
      if-Sound (is_some p.max_spend_micro_usd) _ _
        (bind-Sound m.get_spend _
          (λ n g. forbid_on-Sound (check_spend p n) _ (λ f. inr (inr (inr (m, n, e, g, f)))) rest))
        rest

  checks-Sound : Sound (checks p metering r)
  unfolding checks
  checks-Sound =
      let rest = spend_step-Sound metering refl in
      forbid_on-Sound (check_model p r.model) _ (λ f. inl f)
        (forbid_on-Sound (check_expiry p r.now) _ (λ f. inr (inl f))
          (if-Sound (has_tool_restriction p) _ _
            (forbid_on-Sound (check_tools p r.tools) _ (λ f. inr (inr (inl f))) rest) rest))

-- A request that the hook turns away is told 403 because its model, a tool, the expiry or the reported
-- spend violates the effective policy, or it is told to retry after 60 seconds, which is a 429, because
-- the reported rate does.
pub policy_check-eq-deny :
    (store : List (String × Policy)) (metering : Option Metering) (r : PolicyRequest)
    (reason : DenyReason)
    → policy_check store metering r ≡ ok (deny reason)
    → Refused (effective_for store (ids_of r.policy_id)) metering r reason
unfolding policy_check
policy_check-eq-deny store metering r reason h =
    subst (Sound (effective_for store (ids_of r.policy_id)) metering r) h
      (checks-Sound (effective_for store (ids_of r.policy_id)) metering r)
