-- ===== src/Config/RoutingTable/Tests.antt =====
-- The routing table of a configuration with an active and an inactive provider.
use bitrouter_ethglobal.Base.{ℕ, ◌≡◌, ◌↔◌, ◌⊎◌, refl, none, true, false, [], ◌∷◌, IsIn, or_else}
use bitrouter_ethglobal.Routing.{RoutingPrefs, prefs_default}
use bitrouter_ethglobal.Config.Model.{
  AccountStrategy, ProviderConfig, VirtualModelStrategy, VirtualModel, Config,
}
use bitrouter_ethglobal.Config.RoutingTable.{
  merge_prefs, resolve_virtual_model, resolve_route_chain,
}
use bitrouter_ethglobal.Config.RoutingTable.Chains.{RoutesOk}
use bitrouter_ethglobal.Config.RoutingTable.Prefs.{merge_prefs_lem}
use bitrouter_ethglobal.Config.RoutingTable.Active.{resolve_route_chain-RoutesOk}
use bitrouter_ethglobal.Config.RoutingTable.Priority.{resolve_virtual_model-priority}

abbrev openai : ProviderConfig
openai = record {
  api_base = "https://api.openai.com/v1";
  api_key = "";
  api_protocol = [];
  protocol_endpoints = [];
  models = record { id = "gpt-5"; api_protocol = none } ∷ [];
  active = true;
  tags = "fast" ∷ [];
  accounts =
      record { api_key = "a"; api_base = ""; label = "" }
      ∷ record { api_key = "b"; api_base = ""; label = "team" }
      ∷ [];
  account_strategy = AccountStrategy.balance;
}

abbrev smart : VirtualModel
smart = record {
  strategy = VirtualModelStrategy.priority;
  endpoints = record { provider = "openai"; service_id = "gpt-5" } ∷ [];
}

abbrev config : Config ℕ
config = record {
  providers = ("openai", openai) ∷ ("old", record openai { active = false }) ∷ [];
  models = ("smart", smart) ∷ [];
  presets = [];
  variants = [];
}

abbrev plain : RoutingPrefs (Unit {0})
plain = prefs_default

abbrev avoiding : RoutingPrefs (Unit {0})
avoiding = record prefs_default { ignore = "openai" ∷ []; only = "old" ∷ [] }

resolve_route_chain-RoutesOk_example :
    RoutesOk config plain (resolve_route_chain config "gpt-5" plain []).0
resolve_route_chain-RoutesOk_example = resolve_route_chain-RoutesOk config "gpt-5" plain []

resolve_virtual_model-priority_example :
    resolve_virtual_model config plain "smart" smart []
    ≡ resolve_virtual_model config avoiding "smart" smart []
resolve_virtual_model-priority_example =
    resolve_virtual_model-priority config plain avoiding refl "smart" smart [] refl

merge_prefs_lem_example :
    (IsIn "old" (merge_prefs plain avoiding).require_tags
      ↔ (IsIn "old" plain.require_tags ⊎ IsIn "old" avoiding.require_tags))
    × (IsIn "old" (merge_prefs plain avoiding).only
        ↔ (IsIn "old" plain.only ⊎ IsIn "old" avoiding.only))
    × (IsIn "old" (merge_prefs plain avoiding).ignore
        ↔ (IsIn "old" plain.ignore ⊎ IsIn "old" avoiding.ignore))
    × ((merge_prefs plain avoiding).inbound_protocol
        ≡ or_else avoiding.inbound_protocol plain.inbound_protocol)
merge_prefs_lem_example = merge_prefs_lem plain avoiding "old"
