-- ===== src/Config/RoutingTable/Priority.antt =====
-- Routing preferences do not change the chain of a virtual model with the priority strategy.
use bitrouter_ethglobal.Base.{
  ◌≡◌, refl, String, Option, none, some, Bool, true, false, List, [], ◌∷◌, lookup,
}
use bitrouter_ethglobal.Routing.{RoutingPrefs}
use bitrouter_ethglobal.Config.Model.{
  ProviderConfig, VirtualEndpoint, priority, VirtualModel, Config,
}
use bitrouter_ethglobal.Config.Targets.{Counters, build_targets}
use bitrouter_ethglobal.Config.RoutingTable.{
  Candidate, add_endpoint, add_candidate, endpoint_candidates, resolve_virtual_model,
}

module _ {X K : Type 0} (config : Config X) (prefs prefs' : RoutingPrefs K)
    (same : prefs.inbound_protocol ≡ prefs'.inbound_protocol) where
  add_candidate-cong :
      (b : Bool) (id model : String) (provider : ProviderConfig)
      (rest rest' : Counters → List Candidate × Counters) (counters : Counters)
      → ((c : Counters) → rest c ≡ rest' c)
      → add_candidate config prefs b id
          (build_targets id provider model prefs.inbound_protocol)
          rest
          counters
        ≡ add_candidate config prefs' b id
            (build_targets id provider model prefs'.inbound_protocol)
            rest'
            counters
  add_candidate-cong false id model provider rest rest' counters h = h counters
  add_candidate-cong true id model provider rest rest' counters h =
      rw (same, h (build_targets id provider model prefs'.inbound_protocol counters).1) refl

  add_endpoint-cong :
      (e : VirtualEndpoint) (o : Option ProviderConfig)
      (rest rest' : Counters → List Candidate × Counters) (counters : Counters)
      → ((c : Counters) → rest c ≡ rest' c)
      → add_endpoint config prefs priority e o rest counters
        ≡ add_endpoint config prefs' priority e o rest' counters
  add_endpoint-cong e none rest rest' counters h = h counters
  add_endpoint-cong e (some provider) rest rest' counters h =
      add_candidate-cong provider.active e.provider e.service_id provider rest rest' counters h

  endpoint_candidates-priority :
      (es : List VirtualEndpoint) (counters : Counters)
      → endpoint_candidates config prefs priority es counters
        ≡ endpoint_candidates config prefs' priority es counters
  unfolding endpoint_candidates
  endpoint_candidates-priority [] counters = refl
  endpoint_candidates-priority (e ∷ es) counters =
      add_endpoint-cong e (lookup e.provider config.providers) _ _ counters
        (λ c. endpoint_candidates-priority es c)

  -- The chain of a virtual model with the priority strategy is the same under any two sets of routing
  -- preferences with the same inbound protocol: sort order, tags, allowed and ignored providers do not
  -- change it.
  pub resolve_virtual_model-priority :
      (clean : String) (vm : VirtualModel) (counters : Counters)
      → vm.strategy ≡ priority
      → resolve_virtual_model config prefs clean vm counters
        ≡ resolve_virtual_model config prefs' clean vm counters
  unfolding resolve_virtual_model
  resolve_virtual_model-priority clean vm counters declared =
      rw (declared, endpoint_candidates-priority vm.endpoints counters) refl
