-- ===== src/Routing/StaticTable.antt =====
-- `StaticRoutingTable` of routing.rs: a map from models to chains, filtered by preferences.
use Prim.Native.String.{◌++◌ as append, compare}
use Prim.Native.Nat.{Ordering}
use bitrouter_ethglobal.Base.{
  ◌≡◌, ◌↔◌, ◌⊎◌, inl, inr, refl, String, Option, none, some, Bool, true, false, List, [], ◌∷◌, not,
  contains, contains_iff, retain, retain_iff, IsIn, lookup, insert, lookup-insert, eq_iff, sort_by,
  sort_by_iff, arith,
}
use bitrouter_ethglobal.Error.{not_found, Result, ok, err}
use bitrouter_ethglobal.Types.{RoutingTarget}
use bitrouter_ethglobal.Routing.{SortOrder, RoutingPrefs}

abbrev pub Routes : Type 0
Routes = List (String × List RoutingTarget)

unfoldable pub static_insert : Routes → String → List RoutingTarget → Routes
static_insert routes model chain = insert model chain routes

abbrev pub name_le : RoutingTarget → RoutingTarget → Bool
name_le a b = elim (compare a.provider_name b.provider_name) [ Ordering.gt ↦ false | _ ↦ true ]

-- The three steps on the chain.
abbrev pub keep_only : List String → List RoutingTarget → List RoutingTarget
keep_only [] chain = chain
keep_only (p ∷ ps) chain = retain (λ t. contains (p ∷ ps) t.provider_name) chain

abbrev pub drop_ignored : List String → List RoutingTarget → List RoutingTarget
drop_ignored ignore chain = retain (λ t. not (contains ignore t.provider_name)) chain

abbrev pub in_order : SortOrder → List RoutingTarget → List RoutingTarget
in_order SortOrder.alphabetical chain = sort_by name_le chain
in_order SortOrder.latency chain = chain
in_order SortOrder.cost chain = chain

abbrev pub or_not_found : String → List RoutingTarget → Result (List RoutingTarget)
or_not_found model [] = err (
    not_found (append "no route for model '" (append model "' after applying routing preferences")))
or_not_found model (t ∷ ts) = ok (t ∷ ts)

module _ {K : Type 0} where
  abbrev pub filter_chain :
      String → RoutingPrefs K → Option (List RoutingTarget) → Result (List RoutingTarget)
  filter_chain model prefs none = err (not_found (append "no route for model '" (append model "'")))
  filter_chain model prefs (some chain) =
      or_not_found model
        (in_order prefs.sort (drop_ignored prefs.ignore (keep_only prefs.only chain)))

  unfoldable pub static_route_chain : Routes → String → RoutingPrefs K → Result (List RoutingTarget)
  static_route_chain routes model prefs = filter_chain model prefs (lookup model routes)

  -- What the table looks at in the preferences for a target; it never reads `require_tags` or the
  -- required capabilities.
  abbrev pub Allowed : RoutingPrefs K → RoutingTarget → Type 0
  Allowed prefs t =
      ((prefs.only ≡ []) ⊎ IsIn t.provider_name prefs.only)
      × (¬ (IsIn t.provider_name prefs.ignore))

  -- A chain has exactly the registered targets that are allowed, and an error means that none is.
  abbrev pub Filtered :
      List RoutingTarget → RoutingPrefs K → RoutingTarget → Result (List RoutingTarget) → Type 0
  Filtered chain prefs t (ok found) = IsIn t found ↔ (IsIn t chain × Allowed prefs t)
  Filtered chain prefs t (err e) = ¬ (IsIn t chain × Allowed prefs t)

keep_only_iff :
    (only : List String) (chain : List RoutingTarget) (t : RoutingTarget)
    → IsIn t (keep_only only chain) ↔ (IsIn t chain × ((only ≡ []) ⊎ IsIn t.provider_name only))
keep_only_iff [] chain t = (λ h. (h, inl refl), λ h. h.0)
keep_only_iff (p ∷ ps) chain t =
    let (to, from) = retain_iff (λ u. contains (p ∷ ps) u.provider_name) t chain in
    let (there, back) = contains_iff (p ∷ ps) t.provider_name in
    (
      λ h. ((to h).0, inr (there (to h).1)),
      λ h. from (h.0, back (elim h.1 [ inl e ↦ cc | inr k ↦ k ])),
    )

not_iff : (b : Bool) (P : Type 0) → ((b ≡ true) ↔ P) → (not b ≡ true) ↔ (¬ P)
not_iff true P h = ground arith
not_iff false P h = ground arith

drop_ignored_iff :
    (ignore : List String) (chain : List RoutingTarget) (t : RoutingTarget)
    → IsIn t (drop_ignored ignore chain) ↔ (IsIn t chain × (¬ (IsIn t.provider_name ignore)))
drop_ignored_iff ignore chain t =
    let (to, from) = retain_iff (λ u. not (contains ignore u.provider_name)) t chain in
    let (there, back) =
      not_iff (contains ignore t.provider_name) (IsIn t.provider_name ignore)
        (contains_iff ignore t.provider_name) in
    (λ h. ((to h).0, there (to h).1), λ h. from (h.0, back h.1))

in_order_iff :
    (sort : SortOrder) (chain : List RoutingTarget) (t : RoutingTarget)
    → IsIn t (in_order sort chain) ↔ IsIn t chain
in_order_iff SortOrder.alphabetical chain t = sort_by_iff name_le t chain
in_order_iff SortOrder.latency chain t = (λ h. h, λ h. h)
in_order_iff SortOrder.cost chain t = (λ h. h, λ h. h)

module _ {K : Type 0} (prefs : RoutingPrefs K) (model : String) where
  chain_iff :
      (chain : List RoutingTarget) (t : RoutingTarget)
      → IsIn t (in_order prefs.sort (drop_ignored prefs.ignore (keep_only prefs.only chain)))
        ↔ (IsIn t chain × Allowed prefs t)
  chain_iff chain t =
      let (o_to, o_from) =
        in_order_iff prefs.sort (drop_ignored prefs.ignore (keep_only prefs.only chain)) t in
      let (d_to, d_from) = drop_ignored_iff prefs.ignore (keep_only prefs.only chain) t in
      let (k_to, k_from) = keep_only_iff prefs.only chain t in
      (
        λ h. let (kept, free) = d_to (o_to h) in ((k_to kept).0, ((k_to kept).1, free)),
        λ h. o_from (d_from (k_from (h.0, h.1.0), h.1.1)),
      )

  or_not_found-Filtered :
      (chain : List RoutingTarget) (t : RoutingTarget) (found : List RoutingTarget)
      → (IsIn t found ↔ (IsIn t chain × Allowed prefs t))
      → Filtered chain prefs t (or_not_found model found)
  or_not_found-Filtered chain t [] (to, from) = from
  or_not_found-Filtered chain t (f ∷ fs) h = h

  -- Once a chain is registered for a model, the static table answers for that model with exactly the
  -- chain's targets that the preferences allow: those of a provider on the list of allowed providers,
  -- if there is one, that is not ignored. It answers with an error only if there is no such target.
  pub static_route_chain-static_insert :
      (routes : Routes) (chain : List RoutingTarget) (t : RoutingTarget)
      → Filtered chain prefs t (static_route_chain (static_insert routes model chain) model prefs)
  unfolding static_route_chain static_insert
  static_route_chain-static_insert routes chain t =
      rw (lookup-insert model model chain routes, (eq_iff model model).1 refl)
        (or_not_found-Filtered chain t _ (chain_iff chain t))
