-- ===== src/Auth.antt =====
-- apps/bitrouter/src/auth: hook.rs, keys.rs, db.rs and events.rs, the hook that authenticates a request
-- by its virtual key; and crates/bitrouter-sdk/src/caller.rs.
pub mod Identity
pub mod Requests
mod Tests
use Prim.Native.Char.{Char, code}
use Prim.Native.String.{◌++◌ as append}
use bitrouter_ethglobal.Base.{
  ℕ, String, Option, none, some, Bool, true, false, not, List, [], ◌∷◌, ◌++◌, ◌==◌, ◌||◌, ◌&&◌, leb,
  is_empty, unwrap_or, str_eq, if◌then◌else◌, ◌⊎◌, inl, inr,
}
use bitrouter_ethglobal.Base.Int.{ℤ, pos, negsuc}
use bitrouter_ethglobal.Error.{internal, DenyReason, Result, ok, err, HookDecision, allow, deny}
use bitrouter_ethglobal.Pipeline.Model.{State}

-- `CallerContext`, and its constructor for an authenticated caller.
pub record CallerContext : Type 0 where
  pub api_key_id : String
  pub user_id : String
  pub local : Bool

abbrev pub caller_new : String → String → CallerContext
caller_new api_key_id user_id = record { api_key_id = api_key_id; user_id = user_id; local = false }

-- A row of `api_keys`, as far as it is read.
pub record KeyModel : Type 0 where
  pub id : String
  pub key_hash : String
  pub user_id : String
  pub policy_id : Option String
  pub expires_at : Option String
  pub active : ℤ

-- `ApiKeyRecord` without its two limits, which the hook does not read.
pub record ApiKeyRecord : Type 0 where
  pub id : String
  pub user_id : String
  pub policy_id : Option String
  pub expires_at : Option ℕ
  pub active : Bool

pub record Authenticated : Type 0 where
  pub api_key_id : String
  pub user_id : String
  pub policy_id : Option String

-- The database's query for the row with a hash (or its error's text), chrono's reading of a timestamp,
-- and SHA-256 in hexadecimal.
pub record KeyStore : Type 0 where
  pub query : String → String ⊎ Option KeyModel
  pub parse_from_rfc3339 : String → Option ℕ
  pub hash_key : String → String

-- `char::is_whitespace` on ASCII, which the text of a header value is.
abbrev pub is_whitespace : Char → Bool
is_whitespace c = (code c == 32) || (leb 9 (code c) && leb (code c) 13)

-- `str::trim` from both ends, and `str::strip_prefix`.
unfoldable pub trim_start : String → String
trim_start String.[] = ""
trim_start (String.◌∷◌ c s) =
    let rest = trim_start s in if is_whitespace c then rest else String.◌∷◌ c s

unfoldable pub trim_end : String → String
trim_end String.[] = ""
trim_end (String.◌∷◌ c s) =
    let rest = trim_end s in if is_whitespace c && str_eq rest "" then "" else String.◌∷◌ c rest

abbrev pub trimmed : String → String
trimmed s = trim_end (trim_start s)

unfoldable pub strip_prefix : String → String → Option String
strip_prefix String.[] s = some s
strip_prefix (String.◌∷◌ p ps) String.[] = none
strip_prefix (String.◌∷◌ p ps) (String.◌∷◌ c s) =
    let rest = strip_prefix ps s in if code p == code c then rest else none

-- A header's text that is not empty once trimmed; otherwise the next source.
abbrev pub credential_or : String → Option String → Option String
credential_or token next = if str_eq token "" then next else some token

abbrev pub from_api_key : Option String → Option String
from_api_key none = none
from_api_key (some key) = credential_or (trimmed key) none

abbrev pub from_headers : Option String → Option String → Option String
from_headers none api_key = from_api_key api_key
from_headers (some auth) api_key =
    credential_or (trimmed (unwrap_or auth (strip_prefix "Bearer " auth))) (from_api_key api_key)

-- `headers` is `get` and `to_str` of the request's header map.
unfoldable pub extract_credential : (String → Option String) → Option String
unfolding trim_start trim_end strip_prefix
extract_credential headers = from_headers (headers "authorization") (headers "x-api-key")

abbrev pub has_body : Option String → Bool
has_body none = false
has_body (some body) = not (str_eq body "")

unfoldable pub looks_like_virtual_key : String → Bool
unfolding strip_prefix
looks_like_virtual_key s = has_body (strip_prefix "brvk_" s)

-- A timestamp that cannot be read counts as none.
abbrev pub expiry_of : KeyStore → Option String → Option ℕ
expiry_of k none = none
expiry_of k (some text) = k.parse_from_rfc3339 text

abbrev pub nonzero : ℤ → Bool
nonzero (pos n) = not (n == 0)
nonzero (negsuc n) = true

unfoldable pub record_of : KeyStore → KeyModel → ApiKeyRecord
record_of k row = record {
  id = row.id;
  user_id = row.user_id;
  policy_id = row.policy_id;
  expires_at = expiry_of k row.expires_at;
  active = nonzero row.active;
}

abbrev pub found_row : KeyStore → String ⊎ Option KeyModel → Result (Option ApiKeyRecord)
found_row k (inl e) = err (internal (append "api_keys lookup: " e))
found_row k (inr none) = ok none
found_row k (inr (some row)) = ok (some (record_of k row))

unfoldable pub find_key_by_hash : KeyStore → String → Result (Option ApiKeyRecord)
unfolding record_of
find_key_by_hash k hash = found_row k (k.query hash)

-- The parts of a `PipelineContext` that the hook reads and sets.
pub record Session : Type 0 where
  pub caller : CallerContext
  pub headers : String → Option String
  pub metadata : Option Authenticated
  pub emitted : List Authenticated

abbrev pub denied : String → Session → Result HookDecision × Session
denied message s = (ok (deny (DenyReason.unauthorized message)), s)

abbrev pub identity : ApiKeyRecord → Authenticated
identity r = record { api_key_id = r.id; user_id = r.user_id; policy_id = r.policy_id }

unfoldable pub establish : ApiKeyRecord → Session → Session
establish r s = record s {
  caller = caller_new r.id r.user_id;
  metadata = some (identity r);
  emitted = s.emitted ++ (identity r ∷ []);
}

-- `expires_at <= Utc::now()`.
abbrev pub expired : ℕ → Option ℕ → Bool
expired now none = false
expired now (some expires_at) = leb expires_at now

-- `check` from the outcome of the lookup on.
unfoldable pub admit : ℕ → Result (Option ApiKeyRecord) → Session → Result HookDecision × Session
unfolding establish
admit now (err e) s = (err e, s)
admit now (ok none) s = denied "unknown API key" s
admit now (ok (some r)) s =
    if not r.active
    then denied "API key is inactive" s
    else if expired now r.expires_at
    then denied "API key has expired" s
    else (ok allow, establish r s)

unfoldable pub check_credential :
    KeyStore → ℕ → Option String → Session → Result HookDecision × Session
unfolding looks_like_virtual_key find_key_by_hash admit
check_credential k now none s = denied "missing API key" s
check_credential k now (some credential) s =
    if not (looks_like_virtual_key credential)
    then denied "credential is not a brvk_ virtual key" s
    else admit now (find_key_by_hash k (k.hash_key credential)) s

-- `AuthHook::check`.
unfoldable pub auth_check : KeyStore → ℕ → Session → Result HookDecision × Session
unfolding check_credential extract_credential
auth_check k now s =
    if s.caller.local
    then (ok allow, s)
    else check_credential k now (extract_credential s.headers) s

-- `AuthHook` as a hook of the pipeline; the session is a part of the world.
abbrev pub auth_pre :
    {B C X W : Type 0}
    → KeyStore
    → ℕ
    → (W → Session)
    → (Session → W → W)
    → State B C X W
    → Result HookDecision × State B C X W
auth_pre k now get put s =
    let r = auth_check k now (get s.world) in (r.0, record s { world = put r.1 s.world })
