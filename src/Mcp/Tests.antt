-- ===== src/Mcp/Tests.antt =====
-- A cache of one entry per server: two lists in turn, so that the second takes the first one's place.
use bitrouter_ethglobal.Base.{ℕ, String, none, some, [], ◌∷◌, ◌≡◌, refl, str_eq, suc, if◌then◌else◌}
use bitrouter_ethglobal.Error.{ok}
use bitrouter_ethglobal.Mcp.{
  McpRequest, direct, notification, final, ServerSelector, tools_list_changed,
}
use bitrouter_ethglobal.Mcp.Store.{CacheKey, ServerCache}
use bitrouter_ethglobal.Mcp.Store.Bounded.{Bounded}
use bitrouter_ethglobal.Mcp.Cache.{
  CacheTtls, ttls_default, Upstream, cache_lookup, apply_invalidation, cached_execute,
}
use bitrouter_ethglobal.Mcp.Cache.Streaming.{cached_execute_streaming}
use bitrouter_ethglobal.Mcp.Cache.Evicts.{cache_lookup-apply_invalidation}
use bitrouter_ethglobal.Mcp.Cache.Runs.{Event, call, steps, steps-AllBounded}

-- The answer is the method's name; the state counts the calls. A "_meta" of `resources/list` asks for
-- 5 ms.
abbrev counting : Upstream String Unit Unit ℕ
counting = record {
  field = λ name x. some x;
  as_u64 = λ x. if str_eq x "resources/list" then some 5 else none;
  params_hash = λ x. 7;
  execute = λ target r w. (ok (record { request_id = r.request_id; result = r.method }), suc w);
  execute_streaming = λ target r w. (
    ok (
        ok (notification "progress" "")
        ∷ ok (final (record { request_id = r.request_id; result = r.method }))
        ∷ []),
    suc w,
  );
}

abbrev list_of : String → McpRequest String Unit
list_of method = record {
  request_id = "r1";
  selector = ServerSelector.direct "files";
  method = method;
  params = "";
  context = tt;
}

abbrev ask : ℕ → String → Event String Unit Unit
ask now method = call now now (direct "files" tt) (list_of method)

abbrev key : String → CacheKey
key method = record { server_name = "files"; method = method; params_hash = 7 }

abbrev small : CacheTtls
small = record ttls_default { max_entries_per_server = 1 }

abbrev holding : String → ℕ → ℕ → ServerCache String
holding method now ttl = record {
  entries = (key method, record { value = method; inserted_at = now; ttl = ttl }) ∷ [];
  order = key method ∷ [];
  max_entries = 1;
}

-- The third call is a hit, so the executor is called twice; the hint sets the lifetime.
steps_test :
    steps counting small
      (ask 10 "tools/list" ∷ ask 20 "resources/list" ∷ ask 24 "resources/list" ∷ [])
      ([], 0)
    ≡ (("files", holding "resources/list" 20 5) ∷ [], 2)
unfolding cached_execute
steps_test = refl

-- The terminal frame of a stream is stored when it is polled, and not before.
streaming_test :
    steps counting small
      (Event.streaming 10 (11 ∷ []) (direct "files" tt) (list_of "tools/list") ∷ [])
      ([], 0)
    ≡ ([], 1)
unfolding cached_execute_streaming
streaming_test = refl

polled_test :
    steps counting small
      (Event.streaming 10 (11 ∷ 12 ∷ []) (direct "files" tt) (list_of "tools/list") ∷ [])
      ([], 0)
    ≡ (("files", holding "tools/list" 12 60000) ∷ [], 1)
unfolding cached_execute_streaming
polled_test = refl

steps-AllBounded_example : Bounded 1 (holding "resources/list" 20 5)
unfolding cached_execute
steps-AllBounded_example =
    steps-AllBounded counting small (ask 10 "tools/list" ∷ ask 20 "resources/list" ∷ []) 0 "files"
      (holding "resources/list" 20 5) refl

cache_lookup-apply_invalidation_example :
    cache_lookup (key "tools/list") 12 (
      apply_invalidation
        (record { server_name = "files"; kind = tools_list_changed })
        (("files", holding "tools/list" 10 60000) ∷ []))
    ≡ none
cache_lookup-apply_invalidation_example =
    cache_lookup-apply_invalidation (record { server_name = "files"; kind = tools_list_changed })
      (key "tools/list") 12 (("files", holding "tools/list" 10 60000) ∷ [])
