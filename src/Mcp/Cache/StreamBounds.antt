-- ===== src/Mcp/Cache/StreamBounds.antt =====
-- The bound of every server's cache under `execute_streaming` of caching_executor.rs.
use bitrouter_ethglobal.Base.{ℕ, String, Option, none, some, List, [], ◌∷◌}
use bitrouter_ethglobal.Error.{Result, ok, err}
use bitrouter_ethglobal.Mcp.{
  McpRequest, McpStreamPart, notification, final, McpTarget, direct, aggregate,
}
use bitrouter_ethglobal.Mcp.Store.{CacheKey, ServerCache}
use bitrouter_ethglobal.Mcp.Cache.{
  CacheTtls, Upstream, cache_lookup, cached_method, method_ttl, key_of,
}
use bitrouter_ethglobal.Mcp.Cache.Streaming.{
  stamp_item, stamp_items, wrapped, unwrapped, hit_or_stream, streamed, cached_execute_streaming,
}
use bitrouter_ethglobal.Mcp.Cache.Bounds.{AllBounded, cache_insert-AllBounded}

module _ {X : Type 0} where
  unwrapped-AllBounded :
      {W : Type 0} (m : ℕ) (polls : List ℕ) (caches : List (String × ServerCache X))
      (answer : Result (List (Result (McpStreamPart X))) × W)
      → AllBounded m caches
      → AllBounded m (unwrapped polls caches answer).1.0
  unwrapped-AllBounded m polls caches (err e, w) h = h
  unwrapped-AllBounded m polls caches (ok items, w) h = h

module _ {X C T W : Type 0} where
  stamp_items-AllBounded :
      (u : Upstream X C T W) (m : ℕ) (key : CacheKey) (default_ttl : ℕ) (polls : List ℕ)
      (items : List (Result (McpStreamPart X))) (caches : List (String × ServerCache X))
      → AllBounded m caches
      → AllBounded m (stamp_items u m key default_ttl polls items caches)
  unfolding stamp_items stamp_item
  stamp_items-AllBounded u m key d [] items caches h = h
  stamp_items-AllBounded u m key d (poll ∷ polls) [] caches h = h
  stamp_items-AllBounded u m key d (poll ∷ polls) (ok (final r) ∷ items) caches h =
      stamp_items-AllBounded u m key d polls items _
        (cache_insert-AllBounded m key r.result _ poll caches h)
  stamp_items-AllBounded u m key d (poll ∷ polls) (ok (notification n x) ∷ items) caches h =
      stamp_items-AllBounded u m key d polls items caches h
  stamp_items-AllBounded u m key d (poll ∷ polls) (err e ∷ items) caches h =
      stamp_items-AllBounded u m key d polls items caches h

  wrapped-AllBounded :
      (u : Upstream X C T W) (m : ℕ) (key : CacheKey) (default_ttl : ℕ) (polls : List ℕ)
      (caches : List (String × ServerCache X))
      (answer : Result (List (Result (McpStreamPart X))) × W)
      → AllBounded m caches
      → AllBounded m (wrapped u m key default_ttl polls caches answer).1.0
  unfolding wrapped
  wrapped-AllBounded u m key d polls caches (err e, w) h = h
  wrapped-AllBounded u m key d polls caches (ok items, w) h =
      stamp_items-AllBounded u m key d polls items caches h

  hit_or_stream-AllBounded :
      (u : Upstream X C T W) (m : ℕ) (target : McpTarget T) (request : McpRequest X C)
      (key : CacheKey) (default_ttl : ℕ) (polls : List ℕ) (caches : List (String × ServerCache X))
      (w : W) (hit : Option X)
      → AllBounded m caches
      → AllBounded m (hit_or_stream u m target request key default_ttl polls caches w hit).1.0
  unfolding hit_or_stream
  hit_or_stream-AllBounded u m target request key d polls caches w none h =
      wrapped-AllBounded u m key d polls caches (u.execute_streaming target request w) h
  hit_or_stream-AllBounded u m target request key d polls caches w (some value) h = h

  streamed-AllBounded :
      (u : Upstream X C T W) (t : CacheTtls) (now : ℕ) (polls : List ℕ) (target : McpTarget T)
      (request : McpRequest X C) (s : String) (method : Option String) (ttl : Option ℕ)
      (caches : List (String × ServerCache X)) (w : W)
      → AllBounded t.max_entries_per_server caches
      → AllBounded t.max_entries_per_server
          (streamed u t now polls target request s method ttl caches w).1.0
  unfolding streamed
  streamed-AllBounded u t now polls target request s none ttl caches w h =
      unwrapped-AllBounded t.max_entries_per_server polls caches
        (u.execute_streaming target request w) h
  streamed-AllBounded u t now polls target request s (some method) none caches w h =
      unwrapped-AllBounded t.max_entries_per_server polls caches
        (u.execute_streaming target request w) h
  streamed-AllBounded u t now polls target request s (some method) (some ttl) caches w h =
      let key = key_of s method (u.params_hash request.params) in
      hit_or_stream-AllBounded u t.max_entries_per_server target request key ttl polls caches w
        (cache_lookup key now caches) h

  pub execute_streaming-AllBounded :
      (u : Upstream X C T W) (t : CacheTtls) (now : ℕ) (polls : List ℕ) (target : McpTarget T)
      (request : McpRequest X C) (caches : List (String × ServerCache X)) (w : W)
      → AllBounded t.max_entries_per_server caches
      → AllBounded t.max_entries_per_server
          (cached_execute_streaming u t now polls target request caches w).1.0
  unfolding cached_execute_streaming
  execute_streaming-AllBounded u t now polls (direct s transport) request caches w h =
      let method = cached_method request.method in
      streamed-AllBounded u t now polls (direct s transport) request s method (method_ttl t method)
        caches w h
  execute_streaming-AllBounded u t now polls (aggregate members) request caches w h =
      unwrapped-AllBounded t.max_entries_per_server polls caches
        (u.execute_streaming (aggregate members) request w) h
