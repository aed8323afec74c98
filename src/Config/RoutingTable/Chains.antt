-- ===== src/Config/RoutingTable/Chains.antt =====
-- What a resolved chain consists of.
use bitrouter_ethglobal.Base.{
  All-sort_by, ◌≡◌, inl, inr, refl, sym, ◌∙◌, subst, ℕ, zero, suc, ◌+◌, String, Option, none, some,
  Bool, true, false, List, [], ◌∷◌, ◌&&◌, IsIn, All, All-append, Bool-cases, lookup, str_eq, eq_iff,
  is_empty, if◌then◌else◌, length,
}
use bitrouter_ethglobal.Error.{BitrouterError, Result, ok, err}
use bitrouter_ethglobal.Types.{ApiProtocol, RoutingTarget}
use bitrouter_ethglobal.Routing.{RoutingPrefs}
use bitrouter_ethglobal.Config.Model.{
  ProviderAccount, ProviderConfig, VirtualEndpoint, VirtualModelStrategy, priority, cascade,
  VirtualModel, Config,
}
use bitrouter_ethglobal.Config.Targets.{
  Counters, account_target, push_account, rotate_accounts, targets_with, build_targets,
}
use bitrouter_ethglobal.Config.RoutingTable.{
  Candidate, flat, id_le, takes_part, passes, declares, add_candidate, add_endpoint,
  endpoint_candidates, order, chain_or, resolve_virtual_model, cascade_candidates, auto_cascade,
  virtual_or_cascade,
}

-- The targets are all of one provider.
abbrev pub Of : String → RoutingTarget → Type 0
Of id t = t.provider_name ≡ id

push_account-Of :
    (id : String) (provider : ProviderConfig) (model : String) (protocol : ApiProtocol) (idx : ℕ)
    (o : Option ProviderAccount) (rest : List RoutingTarget)
    → All (Of id) rest
    → All (Of id) (push_account (account_target id provider model protocol) idx o rest)
push_account-Of id provider model protocol idx none rest h = h
push_account-Of id provider model protocol idx (some a) rest h = (refl, h)

rotate_accounts-Of :
    (id : String) (provider : ProviderConfig) (model : String) (protocol : ApiProtocol)
    (accounts : List ProviderAccount) (offset count i : ℕ)
    → All
        (Of id)
        (rotate_accounts (account_target id provider model protocol) accounts offset count i)
unfolding rotate_accounts
rotate_accounts-Of id provider model protocol accounts offset zero i = tt
rotate_accounts-Of id provider model protocol accounts offset (suc count) i =
    push_account-Of id provider model protocol _ _ _
      (rotate_accounts-Of id provider model protocol accounts offset count (i + 1))

targets_with-Of :
    (id : String) (provider : ProviderConfig) (model : String) (protocol : ApiProtocol)
    (counters : Counters) (accounts : List ProviderAccount)
    → All (Of id) (targets_with id provider model protocol counters accounts).0
targets_with-Of id provider model protocol counters [] = (refl, tt)
targets_with-Of id provider model protocol counters (a ∷ accounts) =
    rotate_accounts-Of id provider model protocol (a ∷ accounts) _ (suc (length accounts)) 0

build_targets-Of :
    (id : String) (provider : ProviderConfig) (model : String) (inbound : Option ApiProtocol)
    (counters : Counters)
    → All (Of id) (build_targets id provider model inbound counters).0
unfolding build_targets
build_targets-Of id provider model inbound counters =
    targets_with-Of id provider model _ counters provider.accounts

pub lookup-IsIn :
    {V : Type 0} (k : String) (m : List (String × V)) (v : V) → lookup k m ≡ some v → IsIn (k, v) m
lookup-IsIn k [] v h = cc
lookup-IsIn k ((j, w) ∷ m) v h = elim (Bool-cases (str_eq j k)) [
  | inl e ↦ inl (pair-eq ((eq_iff j k).0 e) (some_eq (sym (here e) ∙ h)))
  | inr e ↦ inr (lookup-IsIn k m v (sym (there e) ∙ h))
]
  where
    pair-eq :
        {A B : Type 0} {a a' : A} {b b' : B} → a ≡ a' → b ≡ b' → ◌≡◌ {A = A × B} (a, b) (a', b')
    pair-eq p q = cc

    some_eq : {A : Type 0} {a b : A} → some a ≡ some b → a ≡ b
    some_eq p = cc

    here : str_eq j k ≡ true → lookup k ((j, w) ∷ m) ≡ some w
    here e = rw e refl

    there : str_eq j k ≡ false → lookup k ((j, w) ∷ m) ≡ lookup k m
    there e = rw e refl

module _ {X : Type 0} (config : Config X) where
  -- A provider of the configuration that is active.
  abbrev pub ActiveProvider : String → Type 0
  ActiveProvider id =
      (provider : ProviderConfig) × IsIn (id, provider) config.providers × (provider.active ≡ true)

  abbrev pub Routable : RoutingTarget → Type 0
  Routable t = ActiveProvider t.provider_name

  abbrev Good : Candidate → Type 0
  Good c = All Routable c.1

  All-Of :
      (id : String) (ts : List RoutingTarget) → ActiveProvider id → All (Of id) ts → All Routable ts
  All-Of id [] active h = tt
  All-Of id (t ∷ ts) active h = (subst ActiveProvider (sym h.0) active, All-Of id ts active h.1)

  flat-Routable : (cs : List Candidate) → All Good cs → All Routable (flat cs)
  flat-Routable [] h = tt
  flat-Routable ((id, ts) ∷ cs) h = All-append Routable ts (flat cs) h.0 (flat-Routable cs h.1)

  module _ {K : Type 0} (prefs : RoutingPrefs K) where
    add_candidate-Good :
        (b : Bool) (id : String) (targets : Counters → List RoutingTarget × Counters)
        (rest : Counters → List Candidate × Counters) (counters : Counters)
        → (b ≡ true → (c : Counters) → All Routable (targets c).0)
        → ((c : Counters) → All Good (rest c).0)
        → All Good (add_candidate config prefs b id targets rest counters).0
    add_candidate-Good false id targets rest counters h hs = hs counters
    add_candidate-Good true id targets rest counters h hs = (h refl counters, hs _)

    pub build-Routable :
        (id : String) (provider : ProviderConfig) (model : String) (counters : Counters)
        → ActiveProvider id
        → All Routable (build_targets id provider model prefs.inbound_protocol counters).0
    build-Routable id provider model counters active =
        All-Of id _ active (build_targets-Of id provider model prefs.inbound_protocol counters)

    and_left : (a b : Bool) → (a && b) ≡ true → a ≡ true
    and_left true b h = refl
    and_left false b h = h

    takes_part-active :
        (strategy : VirtualModelStrategy) (id : String) (provider : ProviderConfig)
        → takes_part config prefs strategy id provider ≡ true
        → provider.active ≡ true
    takes_part-active priority id provider h = h
    takes_part-active cascade id provider h = and_left provider.active _ h

    add_endpoint-Good :
        (strategy : VirtualModelStrategy) (e : VirtualEndpoint) (o : Option ProviderConfig)
        (rest : Counters → List Candidate × Counters) (counters : Counters)
        → lookup e.provider config.providers ≡ o
        → ((c : Counters) → All Good (rest c).0)
        → All Good (add_endpoint config prefs strategy e o rest counters).0
    add_endpoint-Good strategy e none rest counters found hs = hs counters
    add_endpoint-Good strategy e (some provider) rest counters found hs =
        add_candidate-Good (takes_part config prefs strategy e.provider provider) e.provider _ rest
          counters
          (λ h c. build-Routable e.provider provider e.service_id c (
            provider,
            lookup-IsIn e.provider config.providers provider found,
            takes_part-active strategy e.provider provider h,
          ))
          hs

    endpoint_candidates-Good :
        (strategy : VirtualModelStrategy) (es : List VirtualEndpoint) (counters : Counters)
        → All Good (endpoint_candidates config prefs strategy es counters).0
    unfolding endpoint_candidates
    endpoint_candidates-Good strategy [] counters = tt
    endpoint_candidates-Good strategy (e ∷ es) counters =
        add_endpoint-Good strategy e _ (endpoint_candidates config prefs strategy es) counters refl
          (λ c. endpoint_candidates-Good strategy es c)

    cascade_candidates-Good :
        (clean : String) (providers : List (String × ProviderConfig)) (counters : Counters)
        → ((e : String × ProviderConfig) → IsIn e providers → IsIn e config.providers)
        → All Good (cascade_candidates config prefs clean providers counters).0
    unfolding cascade_candidates
    cascade_candidates-Good clean [] counters sub = tt
    cascade_candidates-Good clean ((id, provider) ∷ providers) counters sub =
        add_candidate-Good
          (provider.active && (passes prefs id provider && declares config prefs clean provider)) id
          _ (cascade_candidates config prefs clean providers) counters
          (λ h c.
            build-Routable id provider clean c
              (provider, sub (id, provider) (inl refl), and_left provider.active _ h))
          (λ c. cascade_candidates-Good clean providers c (λ e i. sub e (inr i)))

    -- An error, or a chain of active providers' targets.
    abbrev pub RoutesOk : Result (List RoutingTarget) → Type 0
    RoutesOk (ok chain) = All Routable chain
    RoutesOk (err e) = Unit {0}

    order-Good :
        (strategy : VirtualModelStrategy) (cs : List Candidate)
        → All Good cs
        → All Good (order config prefs strategy cs)
    order-Good priority cs h = h
    order-Good cascade cs h = All-sort_by Good id_le cs h

    chain_or-RoutesOk :
        (e : BitrouterError) (chain : List RoutingTarget)
        → All Routable chain
        → RoutesOk (chain_or config prefs e chain)
    chain_or-RoutesOk e [] h = tt
    chain_or-RoutesOk e (t ∷ ts) h = h

    if-RoutesOk :
        (b : Bool) (e : BitrouterError) (chain : List RoutingTarget)
        → All Routable chain
        → RoutesOk (if b then err e else ok chain)
    if-RoutesOk true e chain h = tt
    if-RoutesOk false e chain h = h

    pub virtual_or_cascade-RoutesOk :
        (clean : String) (vm : Option VirtualModel) (counters : Counters)
        → RoutesOk (virtual_or_cascade config prefs clean vm counters).0
    unfolding resolve_virtual_model auto_cascade
    virtual_or_cascade-RoutesOk clean (some vm) counters = chain_or-RoutesOk _ _ (
        flat-Routable _
          (order-Good vm.strategy _ (endpoint_candidates-Good vm.strategy vm.endpoints counters)))
    virtual_or_cascade-RoutesOk clean none counters =
        if-RoutesOk (is_empty (cascade_candidates config prefs clean config.providers counters).0) _
          _
          (flat-Routable _ (
            All-sort_by Good _ _
              (cascade_candidates-Good clean config.providers counters (λ e i. i))))
