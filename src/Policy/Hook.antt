-- ===== src/Policy/Hook.antt =====
-- apps/bitrouter/src/policy/hook.rs: the pre-request hook that enforces a caller's policy.
pub mod Admission
pub mod Refusal
mod Tests
use Prim.Native.String.{◌++◌}
use bitrouter_ethglobal.Base.{
  ℕ, ◌≡◌, ◌⊎◌, inl, inr, refl, String, Option, none, some, Bool, true, false, List, [], ◌∷◌,
  is_some, lookup, decimal, if◌then◌else◌, arith,
}
use bitrouter_ethglobal.Error.{
  BitrouterError, DenyReason, Result, ok, err, HookDecision, allow, deny, ◌>>=◌, status, from_deny,
}
use bitrouter_ethglobal.Policy.{
  Policy, PolicyViolation, model_not_allowed, spend_limit_exceeded, expired, tool_not_allowed,
  rate_limit_exceeded, EffectivePolicy, check_model, check_expiry, check_spend, check_tools,
  check_rate, has_tool_restriction, known_policies, effective_for, combine, fold_policies, Check,
}

-- `impl Display for PolicyViolation`.
violation_text : PolicyViolation → String
violation_text (model_not_allowed m) = "model '" ++ (m ++ "' is not permitted by policy")
violation_text (spend_limit_exceeded spent limit) =
    "spend limit reached (" ++ (decimal spent ++ (" / " ++ (decimal limit ++ " micro-USD)")))
violation_text expired = "policy has expired"
violation_text (tool_not_allowed t) = "tool '" ++ (t ++ "' is not permitted by policy")
violation_text (rate_limit_exceeded observed limit) =
    "rate limit reached (" ++ (decimal observed ++ (" / " ++ (decimal limit ++ " req/min)")))

-- The metering store's two queries for the caller's key: the month's spend, and the observed
-- requests per minute, rounded. Both read a database and may fail.
pub record Metering : Type 0 where
  pub get_spend : Result ℕ
  pub get_rate : Result ℕ

-- What the hook reads from the pipeline context, and the current instant.
pub record PolicyRequest : Type 0 where
  pub policy_id : Option String
  pub model : String
  pub tools : List String
  pub now : ℕ

-- A violation denies with 403; otherwise the next check runs.
abbrev forbid_on : Check → Result HookDecision → Result HookDecision
forbid_on none next = next
forbid_on (some v) next = ok (deny (DenyReason.forbidden (violation_text v)))

abbrev limit_on : Check → Result HookDecision → Result HookDecision
limit_on none next = next
limit_on (some v) next = ok (deny (DenyReason.rate_limited (some 60)))

-- Steps 5 and 4, which need a ceiling and a metering store.
rate_step : EffectivePolicy → Option Metering → Result HookDecision
rate_step p none = ok allow
rate_step p (some m) =
    if is_some p.max_requests_per_minute
    then (do observed ← m.get_rate; limit_on (check_rate p observed) (ok allow))
    else ok allow

spend_step : EffectivePolicy → Option Metering → Result HookDecision
spend_step p none = rate_step p none
spend_step p (some m) =
    if is_some p.max_spend_micro_usd
    then (do spent ← m.get_spend; forbid_on (check_spend p spent) (rate_step p (some m)))
    else rate_step p (some m)

-- `policy_id.as_deref().into_iter().collect()`.
abbrev ids_of : Option String → List String
ids_of none = []
ids_of (some id) = id ∷ []

checks : EffectivePolicy → Option Metering → PolicyRequest → Result HookDecision
checks p metering r = forbid_on (check_model p r.model) (
    forbid_on (check_expiry p r.now) (
      if has_tool_restriction p
      then forbid_on (check_tools p r.tools) (spend_step p metering)
      else spend_step p metering))

unfoldable pub policy_check :
    List (String × Policy) → Option Metering → PolicyRequest → Result HookDecision
unfolding checks spend_step rate_step violation_text
policy_check store metering r = checks (effective_for store (ids_of r.policy_id)) metering r
