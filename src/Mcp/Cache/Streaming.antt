-- ===== src/Mcp/Cache/Streaming.antt =====
-- crates/bitrouter-sdk/src/mcp/caching_executor.rs: `CachingExecutor::execute_streaming`. The stream is
-- the list of its items; the clock's readings at the polls say how far the consumer reads it.
use bitrouter_ethglobal.Base.{ℕ, String, Option, none, some, List, [], ◌∷◌, unwrap_or, length, take}
use bitrouter_ethglobal.Error.{Result, ok, err}
use bitrouter_ethglobal.Mcp.{
  McpRequest, McpStreamPart, notification, final, McpTarget, direct, aggregate,
}
use bitrouter_ethglobal.Mcp.Store.{CacheKey, ServerCache}
use bitrouter_ethglobal.Mcp.Cache.{
  CacheTtls, ttl_for, cached_method, cache_lookup, cache_insert, Upstream, method_ttl, key_of,
  extract_ttl_hint,
}

-- The inner stream as it is.
abbrev pub unwrapped :
    {X W : Type 0}
    → List ℕ
    → List (String × ServerCache X)
    → Result (List (Result (McpStreamPart X))) × W
    → Result (List (Result (McpStreamPart X))) × (List (String × ServerCache X) × W)
unwrapped polls caches (err e, w) = (err e, (caches, w))
unwrapped polls caches (ok items, w) = (ok (take (length polls) items), (caches, w))

module _ {X C T W : Type 0} where
  -- The closure on one item: a terminal frame is stored.
  unfoldable pub stamp_item :
      Upstream X C T W
      → ℕ
      → CacheKey
      → ℕ
      → ℕ
      → Result (McpStreamPart X)
      → List (String × ServerCache X)
      → List (String × ServerCache X)
  unfolding cache_insert extract_ttl_hint
  stamp_item u max_entries key default_ttl stored (ok (final response)) caches =
      cache_insert max_entries key response.result
        (unwrap_or default_ttl (extract_ttl_hint u response.result)) stored caches
  stamp_item u max_entries key default_ttl stored (ok (notification method params)) caches = caches
  stamp_item u max_entries key default_ttl stored (err e) caches = caches

  -- `inner_stream.map(..)` under the polls.
  unfoldable pub stamp_items :
      Upstream X C T W
      → ℕ
      → CacheKey
      → ℕ
      → List ℕ
      → List (Result (McpStreamPart X))
      → List (String × ServerCache X)
      → List (String × ServerCache X)
  unfolding stamp_item
  stamp_items u max_entries key default_ttl [] items caches = caches
  stamp_items u max_entries key default_ttl (poll ∷ polls) [] caches = caches
  stamp_items u max_entries key default_ttl (poll ∷ polls) (item ∷ items) caches =
      stamp_items u max_entries key default_ttl polls items
        (stamp_item u max_entries key default_ttl poll item caches)

  -- The items that the polls get, the caches and the inner executor's state.
  unfoldable pub wrapped :
      Upstream X C T W
      → ℕ
      → CacheKey
      → ℕ
      → List ℕ
      → List (String × ServerCache X)
      → Result (List (Result (McpStreamPart X))) × W
      → Result (List (Result (McpStreamPart X))) × (List (String × ServerCache X) × W)
  unfolding stamp_items
  wrapped u max_entries key default_ttl polls caches (err e, w) = (err e, (caches, w))
  wrapped u max_entries key default_ttl polls caches (ok items, w) = (
    ok (take (length polls) items),
    (stamp_items u max_entries key default_ttl polls items caches, w),
  )

  -- A hit is a stream of one terminal frame with the request's own id.
  unfoldable pub hit_or_stream :
      Upstream X C T W
      → ℕ
      → McpTarget T
      → McpRequest X C
      → CacheKey
      → ℕ
      → List ℕ
      → List (String × ServerCache X)
      → W
      → Option X
      → Result (List (Result (McpStreamPart X))) × (List (String × ServerCache X) × W)
  unfolding wrapped
  hit_or_stream u max_entries target request key default_ttl polls caches w (some value) = (
    ok (
        take (length polls)
          (ok (final (record { request_id = request.request_id; result = value })) ∷ [])),
    (caches, w),
  )
  hit_or_stream u max_entries target request key default_ttl polls caches w none =
      wrapped u max_entries key default_ttl polls caches (u.execute_streaming target request w)

  unfoldable pub streamed :
      Upstream X C T W
      → CacheTtls
      → ℕ
      → List ℕ
      → McpTarget T
      → McpRequest X C
      → String
      → Option String
      → Option ℕ
      → List (String × ServerCache X)
      → W
      → Result (List (Result (McpStreamPart X))) × (List (String × ServerCache X) × W)
  unfolding hit_or_stream cache_lookup
  streamed u t now polls target request server_name (some method) (some default_ttl) caches w =
      let key = key_of server_name method (u.params_hash request.params) in
      hit_or_stream u t.max_entries_per_server target request key default_ttl polls caches w
        (cache_lookup key now caches)
  streamed u t now polls target request server_name (some method) none caches w =
      unwrapped polls caches (u.execute_streaming target request w)
  streamed u t now polls target request server_name none ttl caches w =
      unwrapped polls caches (u.execute_streaming target request w)

  unfoldable pub cached_execute_streaming :
      Upstream X C T W
      → CacheTtls
      → ℕ
      → List ℕ
      → McpTarget T
      → McpRequest X C
      → List (String × ServerCache X)
      → W
      → Result (List (Result (McpStreamPart X))) × (List (String × ServerCache X) × W)
  unfolding streamed cached_method ttl_for
  cached_execute_streaming u t now polls (direct server_name transport) request caches w =
      let method = cached_method request.method in
      streamed u t now polls (direct server_name transport) request server_name method
        (method_ttl t method) caches w
  cached_execute_streaming u t now polls (aggregate members) request caches w =
      unwrapped polls caches (u.execute_streaming (aggregate members) request w)
