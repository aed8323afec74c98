-- ===== src/Routing.antt =====
-- crates/bitrouter-sdk/src/language_model/routing.rs: routing preferences, preset overrides, the
-- default fallback policy and the static routing table.
pub mod Retry
pub mod StaticTable
pub mod Tests
use bitrouter_ethglobal.Base.{
  ℕ, String, Option, none, some, Bool, true, List, [], leb, ◌==◌, ◌||◌, ◌&&◌, not, is_empty,
  is_some, if◌then◌else◌,
}
use bitrouter_ethglobal.Error.{BitrouterError}
use bitrouter_ethglobal.Types.{ApiProtocol, RoutingTarget}

pub data SortOrder : Type 0 where
  alphabetical latency cost : SortOrder

pub record RoutingPrefs (Capability : Type 0) : Type 0 where
  pub sort : SortOrder
  pub require_tags : List String
  pub only : List String
  pub ignore : List String
  pub require_capabilities : List Capability
  pub inbound_protocol : Option ApiProtocol

abbrev pub prefs_default : {Capability : Type 0} → RoutingPrefs Capability
prefs_default = record {
  sort = alphabetical;
  require_tags = [];
  only = [];
  ignore = [];
  require_capabilities = [];
  inbound_protocol = none;
}

-- `X` stands for `serde_json::Value`.
pub record PromptOverrides (X : Type 0) : Type 0 where
  pub system_prompt : Option String
  pub params : List (String × X)

unfoldable pub overrides_empty : {X : Type 0} → PromptOverrides X → Bool
overrides_empty o = not (is_some o.system_prompt) && is_empty o.params

-- What to do after an upstream attempt fails (hooks.rs).
pub data FallbackDecision : Type 0 where
  try_next : FallbackDecision
  fail : BitrouterError → FallbackDecision

-- `DefaultFallbackPolicy::classify`; the attempted target is not looked at.
unfoldable pub classify : BitrouterError → RoutingTarget → FallbackDecision
classify (BitrouterError.upstream status message) attempted =
    if leb 500 status
    then try_next
    else if status == 408 || status == 429
    then try_next
    else fail (BitrouterError.upstream status message)
classify BitrouterError.upstream_timeout attempted = try_next
classify (BitrouterError.rate_limited retry_after) attempted = try_next
classify (BitrouterError.payment_required m) attempted = try_next
classify other attempted = fail other
