-- ===== src/Policy/Hook/Tests.antt =====
-- Policies and the policy hook at a concrete policy, store and request.
use bitrouter_ethglobal.Base.{◌≡◌, ◌↔◌, ◌⊎◌, inr, refl, String, none, some, List, [], ◌∷◌, All}
use bitrouter_ethglobal.Error.{DenyReason, ok, deny, allow}
use bitrouter_ethglobal.Policy.{
  Policy, effective_for, fold_policies, fold_policy, push_new, has_tool_restriction, check_model,
  check_expiry, check_spend, check_rate, check_tools, combine,
}
use bitrouter_ethglobal.Policy.Combine.{Within, AllowedBy, Any}
use bitrouter_ethglobal.Policy.Access.{
  Permits, check_model-combine_iff, check_limits-combine_iff, check_tools-combine_iff,
}
use bitrouter_ethglobal.Policy.Hook.{Metering, PolicyRequest, policy_check}
use bitrouter_ethglobal.Policy.Hook.Admission.{
  Admitted, policy_check-Admitted, policy_check-unknown,
}
use bitrouter_ethglobal.Policy.Hook.Refusal.{Refused, policy_check-eq-deny}

abbrev team : Policy
team = record {
  id = "team";
  allowed_models = some ("gpt-5" ∷ []);
  denied_models = "o1-pro" ∷ [];
  max_spend_micro_usd = some 1000;
  expires_at = some 50;
  allowed_tools = some ("search" ∷ []);
  max_requests_per_minute = some 60;
}

abbrev store : List (String × Policy)
store = ("team", team) ∷ []

abbrev metering : Metering
metering = record { get_spend = ok 10; get_rate = ok 5 }

abbrev request : PolicyRequest
request = record { policy_id = some "team"; model = "gpt-5"; tools = "search" ∷ []; now = 10 }

check_model-combine_iff_example :
    (check_model (combine (team ∷ [])) "gpt-5" ≡ none) ↔ All (Permits "gpt-5") (team ∷ [])
check_model-combine_iff_example = check_model-combine_iff (team ∷ []) "gpt-5"

admits : policy_check store (some metering) request ≡ ok allow
unfolding policy_check check_model effective_for combine fold_policies fold_policy push_new
    check_expiry has_tool_restriction check_tools check_spend check_rate
admits = refl

policy_check-Admitted_example : Admitted team metering request
policy_check-Admitted_example =
    policy_check-Admitted store metering request "team" team refl refl admits

abbrev late : PolicyRequest
late = record request { now = 60 }

refuses :
    policy_check store (some metering) late ≡ ok (deny (DenyReason.forbidden "policy has expired"))
unfolding policy_check check_model effective_for combine fold_policies fold_policy push_new
    check_expiry
refuses = refl

policy_check-eq-deny_example :
    Refused
      (effective_for store ("team" ∷ []))
      (some metering)
      late
      (DenyReason.forbidden "policy has expired")
policy_check-eq-deny_example =
    policy_check-eq-deny store (some metering) late (DenyReason.forbidden "policy has expired")
      refuses

policy_check-unknown_example :
    policy_check store none (record request { policy_id = some "gone" }) ≡ ok allow
policy_check-unknown_example =
    policy_check-unknown store none (record request { policy_id = some "gone" }) "gone"
      (inr (refl, refl))

check_limits-combine_iff_example :
    ((check_expiry (combine (team ∷ [])) 60 ≡ none) ↔ All (λ p. Within p.expires_at 60) (team ∷ []))
    × ((check_spend (combine (team ∷ [])) 60 ≡ none)
        ↔ All (λ p. Within p.max_spend_micro_usd 60) (team ∷ []))
    × ((check_rate (combine (team ∷ [])) 60 ≡ none)
        ↔ All (λ p. Within p.max_requests_per_minute 60) (team ∷ []))
check_limits-combine_iff_example = check_limits-combine_iff (team ∷ []) 60

check_tools-combine_iff_example : (check_tools (combine (team ∷ [])) ("search" ∷ []) ≡ none) ↔ (
    (team ∷ [] ≡ [])
    ⊎ All (λ t. Any (λ p. AllowedBy p.allowed_tools t) (team ∷ [])) ("search" ∷ []))
check_tools-combine_iff_example = check_tools-combine_iff (team ∷ []) ("search" ∷ [])
