-- ===== src/Error/Status.antt =====
-- The statuses that denials and errors render as.
use bitrouter_ethglobal.Base.{ℕ, ◌≡◌, ◌⊎◌, String, arith, ◌==◌, if◌then◌else◌, ◌||◌, refl}
use bitrouter_ethglobal.Error.{BitrouterError, status, error_type, DenyReason, from_deny}

-- The status that a denial is rendered with. A custom status is kept if a client error has a variant
-- for it, and is otherwise 400.
abbrev pub rendered_status : DenyReason → ℕ
rendered_status (DenyReason.bad_request m) = 400
rendered_status (DenyReason.guardrail_violation m) = 400
rendered_status (DenyReason.unauthorized m) = 401
rendered_status (DenyReason.payment_required m) = 402
rendered_status (DenyReason.forbidden m) = 403
rendered_status (DenyReason.rate_limited r) = 429
rendered_status (DenyReason.custom code m) =
    if code == 400 || code == 401 || code == 402 || code == 403 || code == 404 || code == 429
    then code
    else 400

-- A denial of a pre-request hook becomes an error with the status above; a custom denial with a status
-- other than 400, 401, 402, 403, 404 and 429, also a 418 or a 503, becomes a 400.
pub status-from_deny : (reason : DenyReason) → status (from_deny reason) ≡ rendered_status reason
unfolding status from_deny
status-from_deny (DenyReason.custom c n) = ground arith
status-from_deny _ = refl

-- The status and the tag of the two upstream authorization errors are 401 and 403.
abbrev pub HasDocumentedStatus : BitrouterError → Type 0
HasDocumentedStatus (BitrouterError.upstream_auth code w s) = (code ≡ 401) ⊎ (code ≡ 403)
HasDocumentedStatus _ = Unit

-- The OpenAI-compatible tag of each HTTP status.
abbrev pub type_of_status : ℕ → String
type_of_status n =
    if n == 400
    then "invalid_request_error"
    else if n == 401
    then "authentication_error"
    else if n == 402
    then "payment_required"
    else if n == 403
    then "permission_error"
    else if n == 404
    then "not_found_error"
    else if n == 429
    then "rate_limit_error"
    else if n == 500
    then "internal_error"
    else "upstream_error"

-- The tag of an error is a function of the HTTP status that it renders as, if an upstream
-- authorization error carries one of its documented statuses, 401 and 403.
pub error_type-eq-type_of_status :
    (e : BitrouterError) → HasDocumentedStatus e → error_type e ≡ type_of_status (status e)
unfolding status error_type
error_type-eq-type_of_status (BitrouterError.upstream_auth code w s) h = ground arith
error_type-eq-type_of_status _ h = refl
