-- ===== src/Config/Targets/Tests.antt =====
-- A balanced provider with three accounts, at its second request.
use bitrouter_ethglobal.Base.{String, ◌≡◌, none, true, List, [], ◌∷◌, length}
use bitrouter_ethglobal.Config.Model.{ProviderAccount, AccountStrategy, ProviderConfig}
use bitrouter_ethglobal.Config.Targets.{Counters, offset_for, build_targets}
use bitrouter_ethglobal.Config.Targets.Accounts.{Rotated, build_targets-Rotated}

abbrev account : String → ProviderAccount
account key = record { api_key = key; api_base = ""; label = "" }

abbrev pool : ProviderConfig
pool = record {
  api_base = "https://api.openai.com/v1";
  api_key = "";
  api_protocol = [];
  protocol_endpoints = [];
  models = [];
  active = true;
  tags = [];
  accounts = account "a" ∷ account "b" ∷ account "c" ∷ [];
  account_strategy = AccountStrategy.balance;
}

abbrev second : Counters
second = ("pool", 1) ∷ []

not-empty : {A : Type 0} {x : A} {xs : List A} → ¬ (x ∷ xs ≡ [])
not-empty h = cc

build_targets-Rotated_example :
    Rotated pool.accounts
      (offset_for pool.account_strategy "pool" (length pool.accounts) second).0
      (build_targets "pool" pool "gpt-5" none second).0
build_targets-Rotated_example = build_targets-Rotated "pool" pool "gpt-5" none second not-empty
