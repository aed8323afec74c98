-- ===== src/Routing/Retry.antt =====
-- When the default fallback policy goes on to the next target.
use bitrouter_ethglobal.Base.{◌≡◌, ◌↔◌, ◌≤◌, ◌⊎◌, arith}
use bitrouter_ethglobal.Error.{BitrouterError}
use bitrouter_ethglobal.Types.{RoutingTarget}
use bitrouter_ethglobal.Routing.{try_next, fail, classify}

-- Errors that another target may not have: server errors, timeouts, rate limits and exhausted funds.
abbrev pub IsRetryable : BitrouterError → Type 0
IsRetryable (BitrouterError.upstream status m) = (500 ≤ status) ⊎ (status ≡ 408) ⊎ (status ≡ 429)
IsRetryable BitrouterError.upstream_timeout = Unit
IsRetryable (BitrouterError.rate_limited r) = Unit
IsRetryable (BitrouterError.payment_required m) = Unit
IsRetryable _ = ⊥

-- The default policy tries the next target exactly for the retryable errors, and for every other
-- error it fails with that very error.
pub classify-IsRetryable :
    (e : BitrouterError) (t : RoutingTarget)
    → ((classify e t ≡ try_next) ↔ IsRetryable e) × ((classify e t ≡ fail e) ↔ (¬ (IsRetryable e)))
unfolding classify
classify-IsRetryable (BitrouterError.upstream status m) t = ground arith
classify-IsRetryable _ t = ground arith
