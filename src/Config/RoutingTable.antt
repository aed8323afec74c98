-- ===== src/Config/RoutingTable.antt =====
-- crates/bitrouter-sdk/src/config/routing_table.rs: from a model name and preferences to the chain of
-- targets. The round-robin counters of `balance` providers are passed along.
pub mod Prefs
pub mod Chains
pub mod Active
pub mod Priority
mod Tests
use Prim.Native.String.{◌++◌ as append, compare}
use Prim.Native.Nat.{Ordering}
use bitrouter_ethglobal.Base.{
  sort_by, String, Option, none, some, Bool, true, false, List, [], ◌∷◌, ◌++◌, ◌&&◌, ◌||◌, not,
  is_empty, contains, all, any, first, str_eq, if◌then◌else◌, lookup, or_else,
}
use bitrouter_ethglobal.Error.{BitrouterError, not_found, Result, ok, err}
use bitrouter_ethglobal.Types.{ApiProtocol, same_protocol, RoutingTarget}
use bitrouter_ethglobal.Policy.{push_new}
use bitrouter_ethglobal.Routing.{SortOrder, alphabetical, RoutingPrefs}
use bitrouter_ethglobal.Config.Model.{
  ProviderConfig, VirtualEndpoint, VirtualModelStrategy, priority, cascade, VirtualModel, Config,
}
use bitrouter_ethglobal.Config.Targets.{Counters, build_targets}
use bitrouter_ethglobal.Config.Presets.{PresetResolution, resolve_presets, split_once}

-- A sort other than the default one wins.
abbrev pub merge_sort : SortOrder → SortOrder → SortOrder
merge_sort base SortOrder.alphabetical = base
merge_sort base extra = extra

unfoldable pub provider_matches_tags : ProviderConfig → List String → Bool
provider_matches_tags provider require = all (contains provider.tags) require

module _ {K : Type 0} where
  unfoldable pub merge_prefs : RoutingPrefs K → RoutingPrefs K → RoutingPrefs K
  merge_prefs base extra = record base {
    sort = merge_sort base.sort extra.sort;
    require_tags = push_new base.require_tags extra.require_tags;
    only = push_new base.only extra.only;
    ignore = push_new base.ignore extra.ignore;
    inbound_protocol = or_else extra.inbound_protocol base.inbound_protocol;
  }

  -- The filters of a cascade.
  abbrev pub passes : RoutingPrefs K → String → ProviderConfig → Bool
  passes prefs id provider =
      (is_empty prefs.only || contains prefs.only id)
      && (not (contains prefs.ignore id) && provider_matches_tags provider prefs.require_tags)

-- The targets of one candidate, with the provider's id.
abbrev pub Candidate : Type 0
Candidate = String × List RoutingTarget

abbrev pub flat : List Candidate → List RoutingTarget
flat [] = []
flat ((id, targets) ∷ cs) = targets ++ flat cs

abbrev pub id_le : Candidate → Candidate → Bool
id_le a b = elim (compare a.0 b.0) [ Ordering.gt ↦ false | _ ↦ true ]

abbrev pub serves_natively : Option ApiProtocol → Option RoutingTarget → Bool
serves_natively none t = false
serves_natively (some p) none = false
serves_natively (some p) (some t) = same_protocol t.api_protocol p

-- By id, then those that serve the inbound protocol natively first.
abbrev pub cascade_le : Option ApiProtocol → Candidate → Candidate → Bool
cascade_le inbound a b = elim (compare a.0 b.0) [
  | Ordering.gt ↦ false
  | Ordering.lt ↦ true
  | Ordering.eq ↦ serves_natively inbound (first a.1) || not (serves_natively inbound (first b.1))
]

module _ {X K : Type 0} (config : Config X) (prefs : RoutingPrefs K) where
  -- Whether a virtual model's endpoint at a provider takes part.
  abbrev pub takes_part : VirtualModelStrategy → String → ProviderConfig → Bool
  takes_part priority id provider = provider.active
  takes_part cascade id provider = provider.active && passes prefs id provider

  abbrev pub add_candidate :
      Bool
      → String
      → (Counters → List RoutingTarget × Counters)
      → (Counters → List Candidate × Counters)
      → Counters
      → List Candidate × Counters
  add_candidate false id targets rest counters = rest counters
  add_candidate true id targets rest counters =
      let (ts, counters') = targets counters in
      let (cs, counters'') = rest counters' in ((id, ts) ∷ cs, counters'')

  -- An endpoint whose provider is unknown is skipped.
  abbrev pub add_endpoint :
      VirtualModelStrategy
      → VirtualEndpoint
      → Option ProviderConfig
      → (Counters → List Candidate × Counters)
      → Counters
      → List Candidate × Counters
  add_endpoint strategy endpoint none rest = rest
  add_endpoint strategy endpoint (some provider) rest =
      add_candidate (takes_part strategy endpoint.provider provider) endpoint.provider
        (build_targets endpoint.provider provider endpoint.service_id prefs.inbound_protocol) rest

  unfoldable pub endpoint_candidates :
      VirtualModelStrategy → List VirtualEndpoint → Counters → List Candidate × Counters
  endpoint_candidates strategy [] counters = ([], counters)
  endpoint_candidates strategy (e ∷ es) counters =
      add_endpoint strategy e (lookup e.provider config.providers) (endpoint_candidates strategy es)
        counters

  abbrev pub order : VirtualModelStrategy → List Candidate → List Candidate
  order priority cs = cs
  order cascade cs = sort_by id_le cs

  abbrev pub chain_or : BitrouterError → List RoutingTarget → Result (List RoutingTarget)
  chain_or e [] = err e
  chain_or e (t ∷ ts) = ok (t ∷ ts)

  unfoldable pub resolve_virtual_model :
      String → VirtualModel → Counters → Result (List RoutingTarget) × Counters
  resolve_virtual_model clean vm counters =
      let (cs, counters') = endpoint_candidates vm.strategy vm.endpoints counters in
      (
        chain_or (not_found (append "virtual model '" (append clean "' has no active endpoints")))
            (flat (order vm.strategy cs)),
        counters',
      )

  abbrev pub declares : String → ProviderConfig → Bool
  declares clean provider = any (λ m. str_eq m.id clean) provider.models

  unfoldable pub cascade_candidates :
      String → List (String × ProviderConfig) → Counters → List Candidate × Counters
  cascade_candidates clean [] counters = ([], counters)
  cascade_candidates clean ((id, provider) ∷ providers) counters =
      add_candidate (provider.active && (passes prefs id provider && declares clean provider)) id
        (build_targets id provider clean prefs.inbound_protocol)
        (cascade_candidates clean providers) counters

  -- Strategy 3.
  unfoldable pub auto_cascade : String → Counters → Result (List RoutingTarget) × Counters
  auto_cascade clean counters =
      let (cs, counters') = cascade_candidates clean config.providers counters in
      (
        (if is_empty cs
            then err (not_found (append "no active provider declares model '" (append clean "'")))
            else ok (flat (sort_by (cascade_le prefs.inbound_protocol) cs))),
        counters',
      )

  -- Strategy 1 applies to `provider:model` when the provider is there and active.
  abbrev pub direct_provider :
      Option (String × String) → Option (String × (String × ProviderConfig))
  direct_provider none = none
  direct_provider (some (id, model)) = elim (lookup id config.providers) [
    | none ↦ none
    | some provider ↦ if provider.active then some (id, (model, provider)) else none
  ]

  abbrev pub virtual_or_cascade :
      String → Option VirtualModel → Counters → Result (List RoutingTarget) × Counters
  virtual_or_cascade clean (some vm) counters = resolve_virtual_model clean vm counters
  virtual_or_cascade clean none counters = auto_cascade clean counters

  abbrev pub direct_or :
      Option (String × (String × ProviderConfig))
      → String
      → Counters
      → Result (List RoutingTarget) × Counters
  direct_or none clean counters = virtual_or_cascade clean (lookup clean config.models) counters
  direct_or (some (id, (model, provider))) clean counters =
      let (targets, counters') = build_targets id provider model prefs.inbound_protocol counters in
      (ok targets, counters')

  -- Strategies 1 to 3, for a clean name.
  unfoldable pub resolve_clean : String → Counters → Result (List RoutingTarget) × Counters
  resolve_clean clean counters = direct_or (direct_provider (split_once clean)) clean counters

module _ {X K : Type 0} (config : Config X) where
  abbrev pub route_resolved :
      Result (PresetResolution X K)
      → RoutingPrefs K
      → Counters
      → Result (List RoutingTarget) × Counters
  route_resolved (err e) caller_prefs counters = (err e, counters)
  route_resolved (ok r) caller_prefs counters =
      resolve_clean config (merge_prefs r.prefs caller_prefs) r.clean_model counters

  unfoldable pub resolve_route_chain :
      String → RoutingPrefs K → Counters → Result (List RoutingTarget) × Counters
  resolve_route_chain model caller_prefs counters =
      route_resolved (resolve_presets K model config.presets config.variants) caller_prefs counters
