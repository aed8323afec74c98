-- ===== src/Mcp/Cache/Evicts.antt =====
-- What an invalidation event takes out of the caches of caching_executor.rs, and what it leaves.
use mathlib.Core.Path.{sym}
use bitrouter_ethglobal.Base.{
  ℕ, String, Option, none, some, Bool, true, not, List, [], ◌∷◌, ◌≡◌, ◌∙◌, ap, ◌&&◌, ◌||◌, refl,
  inl, inr, lookup, lookup-insert, Bool-cases, str_eq, eq_iff, arith, if◌then◌else◌,
}
use bitrouter_ethglobal.Mcp.{
  InvalidationKind, tools_list_changed, resources_list_changed, prompts_list_changed, reinitialized,
  InvalidationEvent,
}
use bitrouter_ethglobal.Mcp.Store as Store
use bitrouter_ethglobal.Mcp.Store.{
  CacheKey, key_eq, CacheEntry, ServerCache, get_entry, retain_keys, fresh_value,
}
use bitrouter_ethglobal.Mcp.Store.Linked.{key_eq_iff}
use bitrouter_ethglobal.Mcp.Cache.{
  get_from, update_server, cache_lookup, invalidate, apply_invalidation,
}

-- Whether an event of this kind is about a method.
abbrev pub covers : InvalidationKind → String → Bool
covers tools_list_changed method = str_eq method "tools/list"
covers resources_list_changed method =
    str_eq method "resources/list" || str_eq method "resources/templates/list"
covers prompts_list_changed method = str_eq method "prompts/list"
covers reinitialized method = true

abbrev pub invalidates : InvalidationEvent → CacheKey → Bool
invalidates event key = str_eq event.server_name key.server_name && covers event.kind key.method

module _ {X : Type 0} where
  get_entry-retain :
      (p : CacheKey → Bool) (k : CacheKey) (es : List (CacheKey × CacheEntry X))
      → get_entry k (retain_keys p es) ≡ (if p k then get_entry k es else none)
  get_entry-retain p k [] = elim (Bool-cases (p k)) [ inl e ↦ rw e refl | inr e ↦ rw e refl ]
  get_entry-retain p k ((j, e) ∷ es) = elim (Bool-cases (key_eq j k)) [
    | inl h ↦ elim (Bool-cases (p k)) [
      | inl q ↦ rw (ap p ((key_eq_iff j k).0 h)) (rw q (rw h refl))
      | inr q ↦ rw (ap p ((key_eq_iff j k).0 h)) (rw q (get_entry-retain p k es ∙ rw q refl))
    ]
    | inr h ↦ elim (Bool-cases (p j)) [
      | inl q ↦ rw q (rw h (get_entry-retain p k es))
      | inr q ↦ rw q (rw h (get_entry-retain p k es))
    ]
  ]

  get-evict_method :
      (m : String) (k : CacheKey) (now : ℕ) (c : ServerCache X)
      → Store.get k now (Store.evict_method m c)
        ≡ (if str_eq k.method m then none else Store.get k now c)
  unfolding Store.get Store.evict_method
  get-evict_method m k now c =
      ap (fresh_value now) (get_entry-retain (λ j. not (str_eq j.method m)) k c.entries)
      ∙ elim (Bool-cases (str_eq k.method m)) [ inl e ↦ rw e refl | inr e ↦ rw e refl ]

  get-invalidate :
      (kind : InvalidationKind) (k : CacheKey) (now : ℕ) (c : ServerCache X)
      → Store.get k now (invalidate kind c)
        ≡ (if covers kind k.method then none else Store.get k now c)
  unfolding invalidate
  get-invalidate tools_list_changed k now c = get-evict_method "tools/list" k now c
  get-invalidate resources_list_changed k now c =
      get-evict_method "resources/templates/list" k now (Store.evict_method "resources/list" c)
      ∙ rw (get-evict_method "resources/list" k now c) (ground arith)
  get-invalidate prompts_list_changed k now c = get-evict_method "prompts/list" k now c
  get-invalidate reinitialized k now c = unfold Store.get Store.clear in refl

  same_server :
      (event : InvalidationEvent) (key : CacheKey) (caches : List (String × ServerCache X))
      → str_eq event.server_name key.server_name ≡ true
      → lookup key.server_name caches ≡ lookup event.server_name caches
  same_server event key caches e =
      ap (λ s. lookup s caches) (sym ((eq_iff event.server_name key.server_name).0 e))

  get_from-update_server :
      (event : InvalidationEvent) (key : CacheKey) (now : ℕ)
      (caches : List (String × ServerCache X)) (o : Option (ServerCache X))
      → lookup event.server_name caches ≡ o
      → get_from key now (lookup key.server_name (update_server event o caches))
        ≡ (if invalidates event key then none else get_from key now (lookup key.server_name caches))
  get_from-update_server event key now caches none found =
      elim (Bool-cases (str_eq event.server_name key.server_name)) [
        | inl e ↦
            rw (same_server event key caches e ∙ found)
              (elim (Bool-cases (invalidates event key)) [ inl q ↦ rw q refl | inr q ↦ rw q refl ])
        | inr e ↦ rw e refl
      ]
  get_from-update_server event key now caches (some sc) found =
      rw (lookup-insert event.server_name key.server_name (invalidate event.kind sc) caches)
        (elim (Bool-cases (str_eq event.server_name key.server_name)) [
          | inl e ↦
              rw (same_server event key caches e ∙ found)
                (rw e (get-invalidate event.kind key now sc))
          | inr e ↦ rw e refl
        ])

  -- After an invalidation event, a lookup finds nothing for the keys of the event's server whose
  -- method the event is about, and for every other key what it found before.
  pub cache_lookup-apply_invalidation :
      (event : InvalidationEvent) (key : CacheKey) (now : ℕ)
      (caches : List (String × ServerCache X))
      → cache_lookup key now (apply_invalidation event caches)
        ≡ (if invalidates event key then none else cache_lookup key now caches)
  unfolding cache_lookup apply_invalidation
  cache_lookup-apply_invalidation event key now caches =
      get_from-update_server event key now caches (lookup event.server_name caches) refl
