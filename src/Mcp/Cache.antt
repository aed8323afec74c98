-- ===== src/Mcp/Cache.antt =====
-- crates/bitrouter-sdk/src/mcp/caching_executor.rs: `CachingExecutor`. The caches of all servers are an
-- association list; `W` is what the inner executor changes. Durations are in milliseconds, and the
-- clock's readings are arguments. No code panics while it holds the lock, so locking never fails.
pub mod Evicts
pub mod Streaming
pub mod Bounds
pub mod StreamBounds
pub mod Runs
use bitrouter_ethglobal.Base.{
  ℕ, String, Option, none, some, Bool, true, false, List, [], ◌∷◌, ◌*◌, ◌==◌, lookup, insert,
  unwrap_or, str_eq, if◌then◌else◌,
}
use bitrouter_ethglobal.Error.{Result, ok, err}
use bitrouter_ethglobal.Mcp.{
  McpRequest, McpResponse, McpStreamPart, McpTarget, direct, aggregate, InvalidationKind,
  tools_list_changed, resources_list_changed, prompts_list_changed, reinitialized,
  InvalidationEvent,
}
use bitrouter_ethglobal.Mcp.Store as Store
use bitrouter_ethglobal.Mcp.Store.{CacheKey, CacheEntry, ServerCache}

pub record CacheTtls : Type 0 where
  pub tools_list : ℕ
  pub resources_list : ℕ
  pub resources_templates_list : ℕ
  pub prompts_list : ℕ
  pub max_entries_per_server : ℕ

abbrev pub ttls_default : CacheTtls
ttls_default = record {
  tools_list = 60 * 1000;
  resources_list = 60 * 1000;
  resources_templates_list = 300 * 1000;
  prompts_list = 300 * 1000;
  max_entries_per_server = 64;
}

-- The zero test at the end of `ttl_for`.
abbrev pub nonzero : ℕ → Option ℕ
nonzero d = if d == 0 then none else some d

unfoldable pub ttl_for : String → CacheTtls → Option ℕ
ttl_for method t =
    if str_eq method "tools/list"
    then nonzero t.tools_list
    else if str_eq method "resources/list"
    then nonzero t.resources_list
    else if str_eq method "resources/templates/list"
    then nonzero t.resources_templates_list
    else if str_eq method "prompts/list"
    then nonzero t.prompts_list
    else none

unfoldable pub cached_method : String → Option String
cached_method method =
    if str_eq method "tools/list"
    then some "tools/list"
    else if str_eq method "resources/list"
    then some "resources/list"
    else if str_eq method "resources/templates/list"
    then some "resources/templates/list"
    else if str_eq method "prompts/list"
    then some "prompts/list"
    else none

module _ {X : Type 0} where
  -- `HashMap<String, ServerCache>` of `caches`, a lookup in one of them, and the store.
  abbrev pub get_from : CacheKey → ℕ → Option (ServerCache X) → Option X
  get_from key now none = none
  get_from key now (some sc) = Store.get key now sc

  unfoldable pub cache_lookup : CacheKey → ℕ → List (String × ServerCache X) → Option X
  unfolding Store.get
  cache_lookup key now caches = get_from key now (lookup key.server_name caches)

  unfoldable pub cache_insert :
      ℕ → CacheKey → X → ℕ → ℕ → List (String × ServerCache X) → List (String × ServerCache X)
  unfolding Store.new Store.insert
  cache_insert max_entries key value ttl now caches =
      insert key.server_name
        (Store.insert key (record { value = value; inserted_at = now; ttl = ttl })
          (unwrap_or (Store.new max_entries) (lookup key.server_name caches)))
        caches

  -- The match on the event's kind.
  unfoldable pub invalidate : InvalidationKind → ServerCache X → ServerCache X
  unfolding Store.evict_method Store.clear
  invalidate tools_list_changed sc = Store.evict_method "tools/list" sc
  invalidate resources_list_changed sc =
      Store.evict_method "resources/templates/list" (Store.evict_method "resources/list" sc)
  invalidate prompts_list_changed sc = Store.evict_method "prompts/list" sc
  invalidate reinitialized sc = Store.clear sc

  abbrev pub update_server :
      InvalidationEvent
      → Option (ServerCache X)
      → List (String × ServerCache X)
      → List (String × ServerCache X)
  update_server event none caches = caches
  update_server event (some sc) caches = insert event.server_name (invalidate event.kind sc) caches

  unfoldable pub apply_invalidation :
      InvalidationEvent → List (String × ServerCache X) → List (String × ServerCache X)
  unfolding invalidate
  apply_invalidation event caches = update_server event (lookup event.server_name caches) caches

  -- The answer to a lagged receiver: every cache is cleared.
  unfoldable pub clear_all : List (String × ServerCache X) → List (String × ServerCache X)
  unfolding Store.clear
  clear_all [] = []
  clear_all ((s, sc) ∷ caches) = (s, Store.clear sc) ∷ clear_all caches

-- `serde_json`'s `Value::get` and `Value::as_u64`, the hash of the parameters, and the inner executor.
pub record Upstream (X C T W : Type 0) : Type 0 where
  pub field : String → X → Option X
  pub as_u64 : X → Option ℕ
  pub params_hash : X → ℕ
  pub execute : McpTarget T → McpRequest X C → W → Result (McpResponse X) × W
  pub execute_streaming :
      McpTarget T → McpRequest X C → W → Result (List (Result (McpStreamPart X))) × W

-- `Option::and_then`.
abbrev pub and_then : {A B : Type 0} → (A → Option B) → Option A → Option B
and_then f none = none
and_then f (some x) = f x

-- The inner executor's answer as it is.
abbrev pub pass_through : {R M W : Type 0} → M → R × W → R × (M × W)
pass_through caches (r, w) = (r, (caches, w))

-- `ttls.ttl_for` of the cached method's name.
abbrev pub method_ttl : CacheTtls → Option String → Option ℕ
method_ttl t none = none
method_ttl t (some method) = ttl_for method t

abbrev pub key_of : String → String → ℕ → CacheKey
key_of server_name method params_hash = record {
  server_name = server_name;
  method = method;
  params_hash = params_hash;
}

module _ {X C T W : Type 0} where
  unfoldable pub extract_ttl_hint : Upstream X C T W → X → Option ℕ
  extract_ttl_hint u result =
      and_then (λ m. and_then u.as_u64 (u.field "ttlMs" m)) (u.field "_meta" result)

  -- After a miss: a success is stored, an error is not.
  unfoldable pub stamp :
      Upstream X C T W
      → ℕ
      → CacheKey
      → ℕ
      → ℕ
      → List (String × ServerCache X)
      → Result (McpResponse X) × W
      → Result (McpResponse X) × (List (String × ServerCache X) × W)
  unfolding cache_insert extract_ttl_hint
  stamp u max_entries key default_ttl stored caches (err e, w) = (err e, (caches, w))
  stamp u max_entries key default_ttl stored caches (ok r, w) = (
    ok r,
    (
      cache_insert max_entries key r.result (unwrap_or default_ttl (extract_ttl_hint u r.result))
          stored caches,
      w,
    ),
  )

  -- The match on what the cache has: a hit answers with the request's own id.
  unfoldable pub hit_or_miss :
      Upstream X C T W
      → ℕ
      → McpTarget T
      → McpRequest X C
      → CacheKey
      → ℕ
      → ℕ
      → List (String × ServerCache X)
      → W
      → Option X
      → Result (McpResponse X) × (List (String × ServerCache X) × W)
  unfolding stamp
  hit_or_miss u max_entries target request key default_ttl stored caches w (some value) =
      (ok (record { request_id = request.request_id; result = value }), (caches, w))
  hit_or_miss u max_entries target request key default_ttl stored caches w none =
      stamp u max_entries key default_ttl stored caches (u.execute target request w)

  -- A method that is listed and has a lifetime goes through the cache. `now` is the clock at the
  -- lookup, `stored` the clock when the answer is stored.
  unfoldable pub cached :
      Upstream X C T W
      → CacheTtls
      → ℕ
      → ℕ
      → McpTarget T
      → McpRequest X C
      → String
      → Option String
      → Option ℕ
      → List (String × ServerCache X)
      → W
      → Result (McpResponse X) × (List (String × ServerCache X) × W)
  unfolding hit_or_miss cache_lookup
  cached u t now stored target request server_name (some method) (some default_ttl) caches w =
      let key = key_of server_name method (u.params_hash request.params) in
      hit_or_miss u t.max_entries_per_server target request key default_ttl stored caches w
        (cache_lookup key now caches)
  cached u t now stored target request server_name (some method) none caches w =
      pass_through caches (u.execute target request w)
  cached u t now stored target request server_name none ttl caches w =
      pass_through caches (u.execute target request w)

  unfoldable pub cached_execute :
      Upstream X C T W
      → CacheTtls
      → ℕ
      → ℕ
      → McpTarget T
      → McpRequest X C
      → List (String × ServerCache X)
      → W
      → Result (McpResponse X) × (List (String × ServerCache X) × W)
  unfolding cached cached_method ttl_for
  cached_execute u t now stored (direct server_name transport) request caches w =
      let method = cached_method request.method in
      cached u t now stored (direct server_name transport) request server_name method
        (method_ttl t method) caches w
  cached_execute u t now stored (aggregate members) request caches w =
      pass_through caches (u.execute (aggregate members) request w)
