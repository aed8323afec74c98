-- ===== src/Error.antt =====
-- crates/bitrouter-sdk/src/error.rs: the crate-wide error, and the deny reasons of
-- crates/bitrouter-sdk/src/language_model/hooks.rs that become errors.
pub mod Status
mod Tests
use Prim.Native.String.{◌++◌}
use bitrouter_ethglobal.Base.{ℕ, String, Option, none, some, ◌==◌, if◌then◌else◌}

pub data BitrouterError : Type 0 where
  bad_request unauthorized payment_required forbidden not_found internal : String → BitrouterError
  rate_limited : Option ℕ → BitrouterError
  upstream : ℕ → String → BitrouterError
  upstream_auth : ℕ → Option String → Option String → BitrouterError
  upstream_timeout : BitrouterError

unfoldable pub status : BitrouterError → ℕ
status (bad_request message) = 400
status (unauthorized m) = 401
status (payment_required m) = 402
status (forbidden m) = 403
status (not_found m) = 404
status (rate_limited retry_after) = 429
status (upstream code message) = 502
status (upstream_auth code www_authenticate required_scope) = code
status upstream_timeout = 504
status (internal m) = 500

unfoldable pub error_type : BitrouterError → String
error_type (bad_request message) = "invalid_request_error"
error_type (unauthorized m) = "authentication_error"
error_type (payment_required m) = "payment_required"
error_type (forbidden m) = "permission_error"
error_type (not_found m) = "not_found_error"
error_type (rate_limited retry_after) = "rate_limit_error"
error_type (upstream code message) = "upstream_error"
error_type upstream_timeout = "upstream_error"
error_type (upstream_auth code www_authenticate required_scope) =
    if code == 403 then "permission_error" else "authentication_error"
error_type (internal m) = "internal_error"

pub data DenyReason : Type 0 where
  unauthorized forbidden payment_required guardrail_violation bad_request : String → DenyReason
  rate_limited : Option ℕ → DenyReason
  custom : ℕ → String → DenyReason

-- The inner match on the status of a custom reason.
custom_error : ℕ → String → BitrouterError
custom_error code m =
    if code == 401
    then BitrouterError.unauthorized m
    else if code == 402
    then BitrouterError.payment_required m
    else if code == 403
    then BitrouterError.forbidden m
    else if code == 404
    then BitrouterError.not_found m
    else if code == 429
    then BitrouterError.rate_limited none
    else BitrouterError.bad_request m

-- `impl From<DenyReason> for BitrouterError`.
unfoldable pub from_deny : DenyReason → BitrouterError
unfolding custom_error
from_deny (DenyReason.unauthorized m) = BitrouterError.unauthorized m
from_deny (DenyReason.forbidden m) = BitrouterError.forbidden m
from_deny (DenyReason.payment_required m) = BitrouterError.payment_required m
from_deny (DenyReason.rate_limited retry_after) = BitrouterError.rate_limited retry_after
from_deny (DenyReason.guardrail_violation m) = BitrouterError.bad_request m
from_deny (DenyReason.bad_request m) = BitrouterError.bad_request m
from_deny (DenyReason.custom code m) = custom_error code m

-- `error::Result`.
pub data Result {ℓ} (A : Type ℓ) : Type ℓ where
  ok : A → Result A
  err : BitrouterError → Result A

-- A pre-request hook's verdict (hooks.rs).
pub data HookDecision : Type 0 where
  allow : HookDecision
  deny : DenyReason → HookDecision

infixl 5 ◌>>=◌
-- The `?` operator.
abbrev pub ◌>>=◌ {ℓ κ} : {A : Type ℓ} {B : Type κ} → Result A → (A → Result B) → Result B
ok a >>= f = f a
err e >>= f = err e
