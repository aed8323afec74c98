-- ===== src/Config/RoutingTable/Prefs.antt =====
-- How the caller's preferences refine those of a preset.
use bitrouter_ethglobal.Base.{◌≡◌, ◌↔◌, ◌⊎◌, refl, String, IsIn, or_else}
use bitrouter_ethglobal.Policy.Combine.{push_new_iff}
use bitrouter_ethglobal.Routing.{RoutingPrefs}
use bitrouter_ethglobal.Config.RoutingTable.{merge_prefs}

-- Merged preferences have the tags, the allowed and the ignored providers of both sides and no others,
-- and the caller's inbound protocol before the preset's.
pub merge_prefs_lem :
    {K : Type 0} (base extra : RoutingPrefs K) (a : String)
    → (IsIn a (merge_prefs base extra).require_tags
        ↔ (IsIn a base.require_tags ⊎ IsIn a extra.require_tags))
      × (IsIn a (merge_prefs base extra).only ↔ (IsIn a base.only ⊎ IsIn a extra.only))
      × (IsIn a (merge_prefs base extra).ignore ↔ (IsIn a base.ignore ⊎ IsIn a extra.ignore))
      × ((merge_prefs base extra).inbound_protocol
          ≡ or_else extra.inbound_protocol base.inbound_protocol)
unfolding merge_prefs
merge_prefs_lem base extra a = (
  push_new_iff a base.require_tags extra.require_tags,
  push_new_iff a base.only extra.only,
  push_new_iff a base.ignore extra.ignore,
  refl,
)
