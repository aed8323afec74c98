-- ===== src/Error/Tests.antt =====
-- Denials at concrete values.
use bitrouter_ethglobal.Base.{◌≡◌, refl}
use bitrouter_ethglobal.Error.{DenyReason, status, from_deny}

-- A custom status outside the client errors that have a variant becomes 400.
teapot_test : status (from_deny (DenyReason.custom 418 "no tea")) ≡ 400
unfolding status from_deny
teapot_test = refl

outage_test : status (from_deny (DenyReason.custom 503 "down")) ≡ 400
unfolding status from_deny
outage_test = refl
