-- ===== src/Config/RoutingTable/Active.antt =====
-- The configuration's routing table never routes to a provider that is not active.
use bitrouter_ethglobal.Base.{
  ◌≡◌, refl, String, Option, none, some, Bool, true, false, lookup, if◌then◌else◌,
}
use bitrouter_ethglobal.Error.{Result, ok, err}
use bitrouter_ethglobal.Routing.{RoutingPrefs}
use bitrouter_ethglobal.Config.Model.{ProviderConfig, Config}
use bitrouter_ethglobal.Config.Targets.{Counters}
use bitrouter_ethglobal.Config.Presets.{PresetResolution, resolve_presets, split_once}
use bitrouter_ethglobal.Config.RoutingTable.{
  direct_provider, direct_or, resolve_clean, route_resolved, resolve_route_chain, merge_prefs,
}
use bitrouter_ethglobal.Config.RoutingTable.Chains.{
  ActiveProvider, RoutesOk, lookup-IsIn, build-Routable, virtual_or_cascade-RoutesOk,
}

module _ {X K : Type 0} (config : Config X) where
  module _ (prefs : RoutingPrefs K) where
    abbrev FoundActive : Option (String × (String × ProviderConfig)) → Type 0
    FoundActive none = Unit {0}
    FoundActive (some (id, (model, provider))) = ActiveProvider config id

    if-FoundActive :
        (b : Bool) (id model : String) (provider : ProviderConfig)
        → provider.active ≡ b
        → lookup id config.providers ≡ some provider
        → FoundActive (if b then some (id, (model, provider)) else none)
    if-FoundActive true id model provider h found =
        (provider, lookup-IsIn id config.providers provider found, h)
    if-FoundActive false id model provider h found = tt

    abbrev checked :
        String → String → Option ProviderConfig → Option (String × (String × ProviderConfig))
    checked id model o = elim o [
      | none ↦ none
      | some provider ↦ if provider.active then some (id, (model, provider)) else none
    ]

    checked-FoundActive :
        (id model : String) (o : Option ProviderConfig)
        → lookup id config.providers ≡ o
        → FoundActive (checked id model o)
    checked-FoundActive id model none found = tt
    checked-FoundActive id model (some provider) found =
        if-FoundActive provider.active id model provider refl found

    direct_provider-FoundActive :
        (split : Option (String × String)) → FoundActive (direct_provider config prefs split)
    direct_provider-FoundActive none = tt
    direct_provider-FoundActive (some (id, model)) = checked-FoundActive id model _ refl

    direct_or-RoutesOk :
        (direct : Option (String × (String × ProviderConfig))) (clean : String)
        (counters : Counters)
        → FoundActive direct
        → RoutesOk config prefs (direct_or config prefs direct clean counters).0
    direct_or-RoutesOk none clean counters h =
        virtual_or_cascade-RoutesOk config prefs clean _ counters
    direct_or-RoutesOk (some (id, (model, provider))) clean counters h =
        build-Routable config prefs id provider model counters h

    resolve_clean-RoutesOk :
        (clean : String) (counters : Counters)
        → RoutesOk config prefs (resolve_clean config prefs clean counters).0
    unfolding resolve_clean
    resolve_clean-RoutesOk clean counters =
        direct_or-RoutesOk (direct_provider config prefs (split_once clean)) clean counters
          (direct_provider-FoundActive (split_once clean))

  route_resolved-RoutesOk :
      (r : Result (PresetResolution X K)) (prefs : RoutingPrefs K) (counters : Counters)
      → RoutesOk config prefs (route_resolved config r prefs counters).0
  route_resolved-RoutesOk (err e) prefs counters = tt
  route_resolved-RoutesOk (ok r) prefs counters =
      resolve_clean-RoutesOk (merge_prefs r.prefs prefs) r.clean_model counters

  -- Whatever the model name, its preset and variant, the caller's preferences and the state of the
  -- round-robin counters, every target of a resolved chain is a target of a provider of the
  -- configuration that is active.
  pub resolve_route_chain-RoutesOk :
      (model : String) (prefs : RoutingPrefs K) (counters : Counters)
      → RoutesOk config prefs (resolve_route_chain config model prefs counters).0
  unfolding resolve_route_chain
  resolve_route_chain-RoutesOk model prefs counters =
      route_resolved-RoutesOk (resolve_presets K model config.presets config.variants) prefs
        counters
