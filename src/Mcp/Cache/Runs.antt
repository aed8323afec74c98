-- ===== src/Mcp/Cache/Runs.antt =====
-- Runs of caching_executor.rs: calls, invalidation events and a lagged receiver, in any order.
use bitrouter_ethglobal.Base.{ℕ, String, List, [], ◌∷◌, refl, none-ne-some}
use bitrouter_ethglobal.Mcp.{McpRequest, McpTarget, InvalidationEvent}
use bitrouter_ethglobal.Mcp.Store.{ServerCache}
use bitrouter_ethglobal.Mcp.Cache.{
  CacheTtls, Upstream, apply_invalidation, clear_all, cached_execute,
}
use bitrouter_ethglobal.Mcp.Cache.Streaming.{cached_execute_streaming}
use bitrouter_ethglobal.Mcp.Cache.Bounds.{
  AllBounded, update_server-AllBounded, clear_all-AllBounded, execute-AllBounded,
}
use bitrouter_ethglobal.Mcp.Cache.StreamBounds.{execute_streaming-AllBounded}

-- One thing that happens to a caching executor.
pub data Event (X C T : Type 0) : Type 0 where
  call : ℕ → ℕ → McpTarget T → McpRequest X C → Event X C T
  streaming : ℕ → List ℕ → McpTarget T → McpRequest X C → Event X C T
  invalidation : InvalidationEvent → Event X C T
  lagged : Event X C T

module _ {X C T W : Type 0} where
  -- One event's effect on the caches and on the inner executor.
  abbrev pub step :
      Upstream X C T W
      → CacheTtls
      → Event X C T
      → List (String × ServerCache X) × W
      → List (String × ServerCache X) × W
  step u t (call now stored target request) (caches, w) =
      (cached_execute u t now stored target request caches w).1
  step u t (streaming now polls target request) (caches, w) =
      (cached_execute_streaming u t now polls target request caches w).1
  step u t (invalidation event) (caches, w) = (apply_invalidation event caches, w)
  step u t lagged (caches, w) = (clear_all caches, w)

  abbrev pub steps :
      Upstream X C T W
      → CacheTtls
      → List (Event X C T)
      → List (String × ServerCache X) × W
      → List (String × ServerCache X) × W
  steps u t [] s = s
  steps u t (event ∷ events) s = steps u t events (step u t event s)

  step-AllBounded :
      (u : Upstream X C T W) (t : CacheTtls) (event : Event X C T)
      (caches : List (String × ServerCache X)) (w : W)
      → AllBounded t.max_entries_per_server caches
      → AllBounded t.max_entries_per_server (step u t event (caches, w)).0
  unfolding apply_invalidation
  step-AllBounded u t (call now stored target request) caches w h =
      execute-AllBounded u t now stored target request caches w h
  step-AllBounded u t (streaming now polls target request) caches w h =
      execute_streaming-AllBounded u t now polls target request caches w h
  step-AllBounded u t (invalidation event) caches w h =
      update_server-AllBounded t.max_entries_per_server event _ caches refl h
  step-AllBounded u t lagged caches w h = clear_all-AllBounded t.max_entries_per_server caches h

  steps_from :
      (u : Upstream X C T W) (t : CacheTtls) (events : List (Event X C T))
      (caches : List (String × ServerCache X)) (w : W)
      → AllBounded t.max_entries_per_server caches
      → AllBounded t.max_entries_per_server (steps u t events (caches, w)).0
  steps_from u t [] caches w h = h
  steps_from u t (event ∷ events) caches w h =
      let s = step u t event (caches, w) in
      steps_from u t events s.0 s.1 (step-AllBounded u t event caches w h)

  -- From no caches, after any sequence of calls, plain or streaming, invalidation events and lags, the cache of every
  -- server has at most `max_entries_per_server` entries, and its order lists the keys of its entries,
  -- each key once.
  pub steps-AllBounded :
      (u : Upstream X C T W) (t : CacheTtls) (events : List (Event X C T)) (w : W)
      → AllBounded t.max_entries_per_server (steps u t events ([], w)).0
  steps-AllBounded u t events w =
      steps_from u t events [] w (λ server sc found. absurd (none-ne-some found))
