-- ===== src/Policy.antt =====
-- apps/bitrouter/src/policy/policy.rs, store.rs and hook.rs: policies, their combination, the checks
-- of the combined policy and the pre-request hook. Instants (`DateTime<Utc>`) are numbers.
pub mod Combine
pub mod Access
pub mod Hook
use bitrouter_ethglobal.Base.{
  ℕ, String, Option, none, some, Bool, true, false, List, [], ◌∷◌, ◌++◌, ◌&&◌, ◌||◌, not, min, leb,
  contains, retain, is_some, lookup, insert, if◌then◌else◌,
}
use bitrouter_ethglobal.Error.{DenyReason, BitrouterError}

pub record Policy : Type 0 where
  pub id : String
  pub allowed_models : Option (List String)
  pub denied_models : List String
  pub max_spend_micro_usd : Option ℕ
  pub expires_at : Option ℕ
  pub allowed_tools : Option (List String)
  pub max_requests_per_minute : Option ℕ

pub data PolicyViolation : Type 0 where
  model_not_allowed : String → PolicyViolation
  spend_limit_exceeded : ℕ → ℕ → PolicyViolation
  expired : PolicyViolation
  tool_not_allowed : String → PolicyViolation
  rate_limit_exceeded : ℕ → ℕ → PolicyViolation

pub record EffectivePolicy : Type 0 where
  pub allowed_models : Option (List String)
  pub denied_models : List String
  pub max_spend_micro_usd : Option ℕ
  pub expires_at : Option ℕ
  pub allowed_tools : Option (List String)
  pub max_requests_per_minute : Option ℕ

-- `if !xs.contains(x) { xs.push(x) }` for each `x`.
unfoldable pub push_new : List String → List String → List String
push_new xs [] = xs
push_new xs (y ∷ ys) = push_new (if contains xs y then xs else xs ++ (y ∷ [])) ys

-- `Some(match existing { None => limit, Some(e) => e.min(limit) })`, where there is a limit.
abbrev pub tighten : Option ℕ → Option ℕ → Option ℕ
tighten existing none = existing
tighten none (some limit) = some limit
tighten (some e) (some limit) = some (min e limit)

abbrev pub intersect : Option (List String) → Option (List String) → Option (List String)
intersect existing none = existing
intersect none (some allow) = some allow
intersect (some e) (some allow) = some (retain (contains allow) e)

-- The loop's variables: the effective policy, the union of tools and the two flags.
pub record Fold : Type 0 where
  pub eff : EffectivePolicy
  pub tool_union : List String
  pub any_tool_unrestricted : Bool
  pub any_tool_restricted : Bool

abbrev pub fold_tools : Option (List String) → List String → List String
fold_tools none union = union
fold_tools (some tools) union = push_new union tools

unfoldable pub fold_policy : Fold → Policy → Fold
fold_policy s p = record {
  eff = record s.eff {
    denied_models = push_new s.eff.denied_models p.denied_models;
    allowed_models = intersect s.eff.allowed_models p.allowed_models;
    max_spend_micro_usd = tighten s.eff.max_spend_micro_usd p.max_spend_micro_usd;
    max_requests_per_minute = tighten s.eff.max_requests_per_minute p.max_requests_per_minute;
    expires_at = tighten s.eff.expires_at p.expires_at;
  };
  tool_union = fold_tools p.allowed_tools s.tool_union;
  any_tool_unrestricted = s.any_tool_unrestricted || not (is_some p.allowed_tools);
  any_tool_restricted = s.any_tool_restricted || is_some p.allowed_tools;
}

unfoldable pub fold_policies : Fold → List Policy → Fold
fold_policies s [] = s
fold_policies s (p ∷ ps) = fold_policies (fold_policy s p) ps

abbrev pub fold_start : Fold
fold_start = record {
  eff = record {
    allowed_models = none;
    denied_models = [];
    max_spend_micro_usd = none;
    expires_at = none;
    allowed_tools = none;
    max_requests_per_minute = none;
  };
  tool_union = [];
  any_tool_unrestricted = false;
  any_tool_restricted = false;
}

-- The lines behind the loop of `EffectivePolicy::combine`.
abbrev pub finish : Fold → EffectivePolicy
finish s = record s.eff {
  allowed_tools =
      if s.any_tool_restricted && not s.any_tool_unrestricted then some s.tool_union else none;
}

unfoldable pub combine : List Policy → EffectivePolicy
combine policies = finish (fold_policies fold_start policies)

-- `Result<(), PolicyViolation>`: `none` is `Ok(())`.
abbrev pub Check : Type 0
Check = Option PolicyViolation

-- Each check is a match on one field of the policy; the field's cases come first.
abbrev pub allowlist_check : Option (List String) → String → Check
allowlist_check none model = none
allowlist_check (some allow) model =
    if contains allow model then none else some (model_not_allowed model)

unfoldable pub check_model : EffectivePolicy → String → Check
check_model p model =
    if contains p.denied_models model
    then some (model_not_allowed model)
    else allowlist_check p.allowed_models model

abbrev pub expiry_check : Option ℕ → ℕ → Check
expiry_check none now = none
expiry_check (some exp) now = if leb exp now then some expired else none

unfoldable pub check_expiry : EffectivePolicy → ℕ → Check
check_expiry p now = expiry_check p.expires_at now

abbrev pub spend_check : Option ℕ → ℕ → Check
spend_check none spent = none
spend_check (some limit) spent =
    if leb limit spent then some (spend_limit_exceeded spent limit) else none

unfoldable pub check_spend : EffectivePolicy → ℕ → Check
check_spend p spent = spend_check p.max_spend_micro_usd spent

-- The loop of `check_tools`.
unfoldable pub check_listed : List String → List String → Check
check_listed allow [] = none
check_listed allow (tool ∷ tools) =
    if contains allow tool then check_listed allow tools else some (tool_not_allowed tool)

abbrev pub tools_check : Option (List String) → List String → Check
tools_check none tools = none
tools_check (some allow) tools = check_listed allow tools

unfoldable pub check_tools : EffectivePolicy → List String → Check
unfolding check_listed
check_tools p tools = tools_check p.allowed_tools tools

abbrev pub rate_check : Option ℕ → ℕ → Check
rate_check none observed = none
rate_check (some limit) observed =
    if leb limit observed then some (rate_limit_exceeded observed limit) else none

unfoldable pub check_rate : EffectivePolicy → ℕ → Check
check_rate p observed = rate_check p.max_requests_per_minute observed

unfoldable pub has_tool_restriction : EffectivePolicy → Bool
has_tool_restriction p = is_some p.allowed_tools

-- `PolicyStore`: policies by id. Unknown ids are skipped.
unfoldable pub insert_policy : List (String × Policy) → Policy → List (String × Policy)
insert_policy store policy = insert policy.id policy store

unfoldable pub from_policies : List (String × Policy) → List Policy → List (String × Policy)
unfolding insert_policy
from_policies store [] = store
from_policies store (p ∷ ps) = from_policies (insert_policy store p) ps

unfoldable pub known_policies : List (String × Policy) → List String → List Policy
known_policies store [] = []
known_policies store (id ∷ ids) = elim (lookup id store) [
  | none ↦ known_policies store ids
  | some p ↦ p ∷ known_policies store ids
]

unfoldable pub effective_for : List (String × Policy) → List String → EffectivePolicy
unfolding known_policies
effective_for store ids = combine (known_policies store ids)
