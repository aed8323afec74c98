-- ===== src/Routing/Tests.antt =====
-- The static routing table at a concrete chain.
use bitrouter_ethglobal.Base.{[], ◌∷◌, ◌≡◌, none, refl}
use bitrouter_ethglobal.Error.{ok}
use bitrouter_ethglobal.Types.{RoutingTarget, chat_completions, bearer}
use bitrouter_ethglobal.Routing.{SortOrder, RoutingPrefs, prefs_default}
use bitrouter_ethglobal.Routing.StaticTable.{static_insert, static_route_chain}

abbrev pub primary : RoutingTarget
primary = record {
  provider_name = "openai";
  service_id = "gpt-5";
  api_base = "https://api.openai.com/v1";
  api_key = "key";
  api_protocol = chat_completions;
  account_label = none;
  api_key_override = none;
  api_base_override = none;
  auth_scheme = bearer;
}

abbrev fallback : RoutingTarget
fallback = record primary { provider_name = "backup" }

abbrev avoiding : RoutingPrefs (Unit {0})
avoiding = record prefs_default { ignore = "openai" ∷ []; sort = SortOrder.latency }

static_route_chain_test :
    static_route_chain (static_insert [] "gpt-5" (primary ∷ fallback ∷ [])) "gpt-5" avoiding
    ≡ ok (fallback ∷ [])
unfolding static_route_chain static_insert
static_route_chain_test = refl
