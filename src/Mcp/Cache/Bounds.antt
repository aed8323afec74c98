-- ===== src/Mcp/Cache/Bounds.antt =====
-- The bound of every server's cache under each operation of caching_executor.rs.
use bitrouter_ethglobal.Base.{
  ℕ, String, Option, none, some, List, [], ◌∷◌, ◌≡◌, refl, inl, inr, lookup, insert, lookup-insert,
  unwrap_or, Bool-cases, eq_of_some, none-ne-some, str_eq, subst, sym, ◌∙◌,
}
use bitrouter_ethglobal.Error.{Result, ok, err}
use bitrouter_ethglobal.Mcp.{
  McpRequest, McpResponse, McpTarget, direct, aggregate, InvalidationKind, tools_list_changed,
  resources_list_changed, prompts_list_changed, reinitialized, InvalidationEvent,
}
use bitrouter_ethglobal.Mcp.Store as Store
use bitrouter_ethglobal.Mcp.Store.{CacheKey, CacheEntry, ServerCache}
use bitrouter_ethglobal.Mcp.Store.Bounded.{
  Bounded, new-Bounded, insert-Bounded, evict_method-Bounded, clear-Bounded,
}
use bitrouter_ethglobal.Mcp.Cache.{
  CacheTtls, Upstream, cache_insert, cache_lookup, invalidate, update_server, clear_all, stamp,
  hit_or_miss, cached, cached_execute, cached_method, method_ttl, key_of,
}

module _ {X : Type 0} where
  -- Every server's cache is bounded, its order listing the keys of its entries once each.
  abbrev pub AllBounded : ℕ → List (String × ServerCache X) → Type 0
  AllBounded m caches =
      (server : String) (sc : ServerCache X) → lookup server caches ≡ some sc → Bounded m sc

  pub insert-AllBounded :
      (m : ℕ) (s : String) (sc : ServerCache X) (caches : List (String × ServerCache X))
      → AllBounded m caches
      → Bounded m sc
      → AllBounded m (insert s sc caches)
  insert-AllBounded m s sc caches h b server c found = elim (Bool-cases (str_eq s server)) [
    | inl e ↦
        subst (Bounded m) (eq_of_some (sym (lookup-insert s server sc caches ∙ rw e refl) ∙ found))
          b
    | inr e ↦ h server c (sym (lookup-insert s server sc caches ∙ rw e refl) ∙ found)
  ]

  invalidate-Bounded :
      (m : ℕ) (kind : InvalidationKind) (sc : ServerCache X)
      → Bounded m sc
      → Bounded m (invalidate kind sc)
  unfolding invalidate
  invalidate-Bounded m tools_list_changed sc b = evict_method-Bounded m _ sc b
  invalidate-Bounded m resources_list_changed sc b =
      evict_method-Bounded m _ _ (evict_method-Bounded m _ sc b)
  invalidate-Bounded m prompts_list_changed sc b = evict_method-Bounded m _ sc b
  invalidate-Bounded m reinitialized sc b = clear-Bounded m sc b

  pub update_server-AllBounded :
      (m : ℕ) (event : InvalidationEvent) (o : Option (ServerCache X))
      (caches : List (String × ServerCache X))
      → lookup event.server_name caches ≡ o
      → AllBounded m caches
      → AllBounded m (update_server event o caches)
  update_server-AllBounded m event none caches found h = h
  update_server-AllBounded m event (some sc) caches found h =
      insert-AllBounded m event.server_name _ caches h
        (invalidate-Bounded m event.kind sc (h _ sc found))

  unfoldable cleared : Option (ServerCache X) → Option (ServerCache X)
  cleared none = none
  cleared (some sc) = some (Store.clear sc)

  lookup-clear_all :
      (server : String) (caches : List (String × ServerCache X))
      → lookup server (clear_all caches) ≡ cleared (lookup server caches)
  unfolding clear_all cleared
  lookup-clear_all server [] = refl
  lookup-clear_all server ((s, sc) ∷ caches) = elim (Bool-cases (str_eq s server)) [
    | inl e ↦ rw e refl
    | inr e ↦ rw e (lookup-clear_all server caches)
  ]

  cleared-Bounded :
      (m : ℕ) (o : Option (ServerCache X)) (c : ServerCache X)
      → ((sc : ServerCache X) → o ≡ some sc → Bounded m sc)
      → cleared o ≡ some c
      → Bounded m c
  unfolding cleared
  cleared-Bounded m none c h found = absurd (none-ne-some found)
  cleared-Bounded m (some sc) c h found =
      subst (Bounded m) (eq_of_some found) (clear-Bounded m sc (h sc refl))

  pub clear_all-AllBounded :
      (m : ℕ) (caches : List (String × ServerCache X))
      → AllBounded m caches
      → AllBounded m (clear_all caches)
  clear_all-AllBounded m caches h server c found =
      cleared-Bounded m (lookup server caches) c (h server)
        (sym (lookup-clear_all server caches) ∙ found)

  entry-Bounded :
      (m : ℕ) (s : String) (o : Option (ServerCache X)) (caches : List (String × ServerCache X))
      → lookup s caches ≡ o
      → AllBounded m caches
      → Bounded m (unwrap_or (Store.new m) o)
  entry-Bounded m s none caches found h = new-Bounded X m
  entry-Bounded m s (some sc) caches found h = h s sc found

  pub cache_insert-AllBounded :
      (m : ℕ) (key : CacheKey) (value : X) (ttl now : ℕ) (caches : List (String × ServerCache X))
      → AllBounded m caches
      → AllBounded m (cache_insert m key value ttl now caches)
  unfolding cache_insert
  cache_insert-AllBounded m key value ttl now caches h =
      insert-AllBounded m key.server_name _ caches h
        (insert-Bounded m key _ _ (entry-Bounded m key.server_name _ caches refl h))

module _ {X C T W : Type 0} where
  stamp-AllBounded :
      (u : Upstream X C T W) (m : ℕ) (key : CacheKey) (default_ttl stored : ℕ)
      (caches : List (String × ServerCache X)) (answer : Result (McpResponse X) × W)
      → AllBounded m caches
      → AllBounded m (stamp u m key default_ttl stored caches answer).1.0
  unfolding stamp
  stamp-AllBounded u m key d stored caches (err e, w) h = h
  stamp-AllBounded u m key d stored caches (ok r, w) h =
      cache_insert-AllBounded m key r.result _ stored caches h

  hit_or_miss-AllBounded :
      (u : Upstream X C T W) (m : ℕ) (target : McpTarget T) (request : McpRequest X C)
      (key : CacheKey) (default_ttl stored : ℕ) (caches : List (String × ServerCache X)) (w : W)
      (hit : Option X)
      → AllBounded m caches
      → AllBounded m (hit_or_miss u m target request key default_ttl stored caches w hit).1.0
  unfolding hit_or_miss
  hit_or_miss-AllBounded u m target request key d stored caches w none h =
      stamp-AllBounded u m key d stored caches (u.execute target request w) h
  hit_or_miss-AllBounded u m target request key d stored caches w (some value) h = h

  cached-AllBounded :
      (u : Upstream X C T W) (t : CacheTtls) (now stored : ℕ) (target : McpTarget T)
      (request : McpRequest X C) (s : String) (method : Option String) (ttl : Option ℕ)
      (caches : List (String × ServerCache X)) (w : W)
      → AllBounded t.max_entries_per_server caches
      → AllBounded t.max_entries_per_server
          (cached u t now stored target request s method ttl caches w).1.0
  unfolding cached
  cached-AllBounded u t now stored target request s none ttl caches w h = h
  cached-AllBounded u t now stored target request s (some method) none caches w h = h
  cached-AllBounded u t now stored target request s (some method) (some ttl) caches w h =
      let key = key_of s method (u.params_hash request.params) in
      hit_or_miss-AllBounded u t.max_entries_per_server target request key ttl stored caches w
        (cache_lookup key now caches) h

  pub execute-AllBounded :
      (u : Upstream X C T W) (t : CacheTtls) (now stored : ℕ) (target : McpTarget T)
      (request : McpRequest X C) (caches : List (String × ServerCache X)) (w : W)
      → AllBounded t.max_entries_per_server caches
      → AllBounded t.max_entries_per_server
          (cached_execute u t now stored target request caches w).1.0
  unfolding cached_execute
  execute-AllBounded u t now stored (direct s transport) request caches w h =
      let method = cached_method request.method in
      cached-AllBounded u t now stored (direct s transport) request s method (method_ttl t method)
        caches w h
  execute-AllBounded u t now stored (aggregate members) request caches w h = h
