-- ===== src/Config/Targets.antt =====
-- The wire protocol and the targets of one provider: `ProviderConfig::protocols_for`, `endpoint_for`
-- and `infer_protocol` of mod.rs, `build_targets`, `select_protocol` and `balance_offset` of
-- routing_table.rs.
pub mod Accounts
mod Tests
use Prim.Native.Char.{code}
use Prim.Native.String.{◌++◌ as append}
use bitrouter_ethglobal.Base.{
  ℕ, zero, suc, ◌+◌, ◌%◌, ◌^◌, String, Option, none, some, Bool, true, false, List, [], ◌∷◌, ◌==◌,
  ◌&&◌, ◌||◌, leb, str_eq, if◌then◌else◌, is_empty, length, find, get_elem?, unwrap_or, first, any,
  lookup, insert, decimal,
}
use bitrouter_ethglobal.Types.{
  ApiProtocol, chat_completions, messages, generate_content, as_str, same_protocol, RoutingTarget,
  x_api_key,
}
use bitrouter_ethglobal.Config.Pattern.{resolve}
use bitrouter_ethglobal.Config.Model.{
  ProviderModel, ProviderAccount, AccountStrategy, failover, balance, ProviderConfig,
}

-- `to_ascii_lowercase` and `str::contains`, on the characters' numbers.
lower_code : ℕ → ℕ
lower_code n = if leb 65 n && leb n 90 then n + 32 else n

codes : String → List ℕ
codes String.[] = []
codes (String.◌∷◌ c s) = code c ∷ codes s

lower_codes : String → List ℕ
unfolding lower_code
lower_codes String.[] = []
lower_codes (String.◌∷◌ c s) = lower_code (code c) ∷ lower_codes s

has_prefix : List ℕ → List ℕ → Bool
has_prefix [] text = true
has_prefix (n ∷ needle) [] = false
has_prefix (n ∷ needle) (c ∷ text) = n == c && has_prefix needle text

has_infix : List ℕ → List ℕ → Bool
unfolding has_prefix
has_infix needle [] = is_empty needle
has_infix needle (c ∷ text) = has_prefix needle (c ∷ text) || has_infix needle text

abbrev host_has : String → String → Bool
unfolding has_infix codes lower_codes
host_has needle api_base = has_infix (codes needle) (lower_codes api_base)

unfoldable pub infer_protocol : String → ApiProtocol
unfolding host_has
infer_protocol api_base =
    if host_has "anthropic.com" api_base
    then messages
    else if host_has "googleapis.com" api_base || host_has "generativelanguage" api_base
    then generate_content
    else chat_completions

-- A list counts only if it is there and not empty.
abbrev pub nonempty : Option (List ApiProtocol) → Option (List ApiProtocol)
nonempty none = none
nonempty (some []) = none
nonempty (some (p ∷ ps)) = some (p ∷ ps)

abbrev pub model_protocols : Option ProviderModel → Option (List ApiProtocol)
model_protocols none = none
model_protocols (some m) = m.api_protocol

abbrev pub first_some : {A : Type 0} → Option A → Option A → A → A
first_some (some a) o d = a
first_some none (some a) d = a
first_some none none d = d

unfoldable pub protocols_for : ProviderConfig → String → List ApiProtocol
protocols_for provider model_id =
    first_some (nonempty (model_protocols (find (λ m. str_eq m.id model_id) provider.models)))
      (nonempty (resolve provider.api_protocol model_id)) (infer_protocol provider.api_base ∷ [])

unfoldable pub endpoint_for : ProviderConfig → ApiProtocol → Option String
endpoint_for provider protocol = lookup (as_str protocol) provider.protocol_endpoints

abbrev pub head_or_default : Option ApiProtocol → ApiProtocol
head_or_default o = unwrap_or chat_completions o

unfoldable pub select_protocol : List ApiProtocol → Option ApiProtocol → ApiProtocol
select_protocol protocols none = head_or_default (first protocols)
select_protocol protocols (some p) =
    if any (same_protocol p) protocols then p else head_or_default (first protocols)

-- The process-wide `COUNTERS`, by provider id.
abbrev pub Counters : Type 0
Counters = List (String × ℕ)

-- The offset, and the counters after the call; the counter is a `usize` that wraps.
unfoldable pub balance_offset : String → ℕ → Counters → ℕ × Counters
balance_offset provider_id n counters =
    let counter = unwrap_or 0 (lookup provider_id counters) in
    if leb n 1
    then (0, counters)
    else (counter % n, insert provider_id ((counter + 1) % 2 ^ 64) counters)

abbrev pub offset_for : AccountStrategy → String → ℕ → Counters → ℕ × Counters
offset_for failover provider_id n counters = (0, counters)
offset_for balance provider_id n counters = balance_offset provider_id n counters

abbrev pub plain_target : String → ProviderConfig → String → ApiProtocol → RoutingTarget
plain_target provider_id provider model_id protocol = record {
  provider_name = provider_id;
  service_id = model_id;
  api_base = unwrap_or provider.api_base (endpoint_for provider protocol);
  api_key = provider.api_key;
  api_protocol = protocol;
  account_label = none;
  api_key_override = none;
  api_base_override = none;
  auth_scheme = x_api_key;
}

abbrev pub account_target :
    String → ProviderConfig → String → ApiProtocol → ℕ → ProviderAccount → RoutingTarget
account_target provider_id provider model_id protocol idx account =
    record (plain_target provider_id provider model_id protocol) {
      api_base =
          if str_eq account.api_base ""
          then unwrap_or provider.api_base (endpoint_for provider protocol)
          else account.api_base;
      api_key = account.api_key;
      account_label = some (
          if str_eq account.label "" then append "account-" (decimal (idx + 1)) else account.label);
    }

-- `(i..i + count)` mapped to the targets of the accounts at `(i + offset) % n`; an index out of range
-- is a panic, which yields no target here.
abbrev pub push_account :
    (ℕ → ProviderAccount → RoutingTarget)
    → ℕ
    → Option ProviderAccount
    → List RoutingTarget
    → List RoutingTarget
push_account make idx none rest = rest
push_account make idx (some account) rest = make idx account ∷ rest

unfoldable pub rotate_accounts :
    (ℕ → ProviderAccount → RoutingTarget) → List ProviderAccount → ℕ → ℕ → ℕ → List RoutingTarget
rotate_accounts make accounts offset zero i = []
rotate_accounts make accounts offset (suc count) i =
    let idx = (i + offset) % length accounts in
    push_account make idx (get_elem? accounts idx)
      (rotate_accounts make accounts offset count (i + 1))

abbrev pub targets_with :
    String
    → ProviderConfig
    → String
    → ApiProtocol
    → Counters
    → List ProviderAccount
    → List RoutingTarget × Counters
targets_with provider_id provider model_id protocol counters [] =
    (plain_target provider_id provider model_id protocol ∷ [], counters)
targets_with provider_id provider model_id protocol counters (a ∷ accounts) =
    let n = suc (length accounts) in
    let (offset, counters') = offset_for provider.account_strategy provider_id n counters in
    (
      rotate_accounts (account_target provider_id provider model_id protocol) (a ∷ accounts) offset
          n 0,
      counters',
    )

unfoldable pub build_targets :
    String → ProviderConfig → String → Option ApiProtocol → Counters → List RoutingTarget × Counters
build_targets provider_id provider model_id inbound counters =
    targets_with provider_id provider model_id
      (select_protocol (protocols_for provider model_id) inbound) counters provider.accounts
