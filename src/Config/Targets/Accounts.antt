-- ===== src/Config/Targets/Accounts.antt =====
-- The targets of a provider with several accounts: one per account, rotated by the offset.
use native.Mathlib.Nat.{mod-eq_of_lt, mod-lt, add-mod_left}
use bitrouter_ethglobal.Base.{
  ℕ, zero, suc, ◌+◌, ◌%◌, ◌<◌, ◌≡◌, ◌≢◌, refl, ap, sym, ◌∙◌, subst, String, Option, some, List, [],
  ◌∷◌, ◌++◌, map, length, length-append, get_elem?, arith, append_assoc, append-nil, inl, inr,
  Bool-cases, leb, unwrap_or, lookup,
}
use bitrouter_ethglobal.Types.{ApiProtocol, RoutingTarget}
use bitrouter_ethglobal.Config.Model.{
  ProviderAccount, AccountStrategy, failover, balance, ProviderConfig,
}
use bitrouter_ethglobal.Config.Targets.{
  Counters, balance_offset, offset_for, account_target, push_account, rotate_accounts, targets_with,
  build_targets, protocols_for, select_protocol,
}

abbrev pub target_keys : List RoutingTarget → List String
target_keys targets = map (λ t. t.api_key) targets

abbrev pub account_keys : List ProviderAccount → List String
account_keys accounts = map (λ a. a.api_key) accounts

count_of : {A : Type 0} → List A → ℕ → ℕ
count_of [] c = c
count_of (x ∷ xs) c = suc (count_of xs c)

count_of-eq : {A : Type 0} (xs : List A) (c : ℕ) → count_of xs c ≡ length xs + c
unfolding count_of
count_of-eq [] c = omega arith
count_of-eq (x ∷ xs) c = omega (arith, count_of-eq xs c)

get_elem?-append :
    {A : Type 0} (pre : List A) (a : A) (post : List A)
    → get_elem? (pre ++ (a ∷ post)) (length pre) ≡ some a
get_elem?-append [] a post = refl
get_elem?-append (x ∷ pre) a post = get_elem?-append pre a post

length-lt :
    {A : Type 0} (all pre : List A) (a : A) (post : List A)
    → all ≡ pre ++ (a ∷ post)
    → length pre < length all
length-lt all pre a post h =
    subst (λ l. length pre < length l) (sym h) (omega (arith, length-append pre (a ∷ post)))

-- A list split at a position.
split_at :
    {A : Type 0} (k : ℕ) (xs : List A)
    → k < length xs
    → (pre : List A) × (suf : List A) × (xs ≡ pre ++ suf) × (length pre ≡ k)
split_at zero xs h = ([], xs, refl, refl)
split_at (suc k) [] h = absurd (omega arith)
split_at (suc k) (x ∷ xs) h =
    let (pre, suf, same, count) = split_at k xs (omega arith) in
    (x ∷ pre, suf, ap (λ l. x ∷ l) same, ap suc count)

module _ (make : ℕ → ProviderAccount → RoutingTarget)
    (keeps_key : (idx : ℕ) (a : ProviderAccount) → (make idx a).api_key ≡ a.api_key)
    (accounts : List ProviderAccount) (offset : ℕ) where
  push_account-key :
      (idx : ℕ) (o : Option ProviderAccount) (a : ProviderAccount) (rest : List RoutingTarget)
      → o ≡ some a
      → target_keys (push_account make idx o rest) ≡ a.api_key ∷ target_keys rest
  push_account-key idx o a rest h = rw h (ap (λ k. k ∷ target_keys rest) (keeps_key idx a))

  -- A run of accounts that does not wrap around.
  rotate_accounts-run :
      (q : ℕ)
      → ((j : ℕ) → j < length accounts → (q + j) % length accounts ≡ j)
      → (pre mid post : List ProviderAccount) (c i : ℕ) → accounts ≡ pre ++ (mid ++ post)
      → i + offset ≡ q + length pre
      → target_keys (rotate_accounts make accounts offset (count_of mid c) i)
        ≡ account_keys mid ++ target_keys (rotate_accounts make accounts offset c (i + length mid))
  unfolding rotate_accounts count_of
  rotate_accounts-run q wraps pre [] post c i all at =
      ap (λ k. target_keys (rotate_accounts make accounts offset c k)) (omega arith)
  rotate_accounts-run q wraps pre (a ∷ mid) post c i all at =
      let here : (i + offset) % length accounts ≡ length pre =
        ap (λ k. k % length accounts) at
        ∙ wraps (length pre) (length-lt accounts pre a (mid ++ post) all) in
      let found : get_elem? accounts ((i + offset) % length accounts) ≡ some a =
        ap (get_elem? accounts) here
        ∙ ap (λ l. get_elem? l (length pre)) all
        ∙ get_elem?-append pre a (mid ++ post) in
      let next =
        rotate_accounts-run q wraps (pre ++ (a ∷ [])) mid post c (i + 1)
          (all ∙ sym (append_assoc pre (a ∷ []) (mid ++ post)))
          (omega (arith, length-append pre (a ∷ []))) in
      push_account-key _ _ a _ found
      ∙ ap (λ l. a.api_key ∷ l)
          (next
            ∙ ap (λ k. account_keys mid ++ target_keys (rotate_accounts make accounts offset c k))
                (omega arith))

  rotate_accounts-all :
      (pre suf : List ProviderAccount)
      → accounts ≡ pre ++ suf
      → length pre ≡ offset
      → target_keys (rotate_accounts make accounts offset (length accounts) 0)
        ≡ account_keys suf ++ account_keys pre
  unfolding rotate_accounts
  rotate_accounts-all pre suf all at =
      let whole : length accounts ≡ length pre + length suf =
        ap length all ∙ length-append pre suf in
      let total : length accounts ≡ count_of suf (count_of pre 0) =
        omega (arith, whole, count_of-eq suf (count_of pre 0), count_of-eq pre 0) in
      let first_run =
        rotate_accounts-run 0 (λ j h. ap (λ k. k % length accounts) (omega arith) ∙ mod-eq_of_lt h)
          pre suf [] (count_of pre 0) 0 (all ∙ ap (λ l. pre ++ l) (sym (append-nil suf)))
          (omega arith) in
      let second_run =
        rotate_accounts-run (length accounts)
          (λ j h. add-mod_left (length accounts) j ∙ mod-eq_of_lt h) [] pre suf 0 (0 + length suf)
          all (omega arith) in
      ap (λ k. target_keys (rotate_accounts make accounts offset k 0)) total
      ∙ first_run
      ∙ ap (λ l. account_keys suf ++ l) (second_run ∙ append-nil (account_keys pre))

-- The targets of a list of accounts begin with the account at an offset, go on to the end of the list
-- and then from its start to the offset.
abbrev pub Rotated : List ProviderAccount → ℕ → List RoutingTarget → Type 0
Rotated accounts offset targets =
    (pre : List ProviderAccount) × (suf : List ProviderAccount) × (accounts ≡ pre ++ suf)
    × (length pre ≡ offset)
    × (target_keys targets ≡ account_keys suf ++ account_keys pre)

offset_for-lt :
    (strategy : AccountStrategy) (id : String) (n : ℕ) (counters : Counters)
    → 0 < n
    → (offset_for strategy id n counters).0 < n
unfolding balance_offset
offset_for-lt failover id n counters h = h
offset_for-lt balance id n counters h = elim (Bool-cases (leb n 1)) [
  | inl e ↦ rw e h
  | inr e ↦ rw e (mod-lt (unwrap_or 0 (lookup id counters)) h)
]

targets_with-Rotated :
    (id : String) (provider : ProviderConfig) (model : String) (protocol : ApiProtocol)
    (counters : Counters) (a : ProviderAccount) (accounts : List ProviderAccount)
    → Rotated
        (a ∷ accounts)
        (offset_for provider.account_strategy id (length (a ∷ accounts)) counters).0
        (targets_with id provider model protocol counters (a ∷ accounts)).0
targets_with-Rotated id provider model protocol counters a accounts =
    let all : List ProviderAccount = a ∷ accounts in
    let offset = (offset_for provider.account_strategy id (length all) counters).0 in
    let (pre, suf, same, at) =
      split_at offset all
        (offset_for-lt provider.account_strategy id (length all) counters (omega arith)) in
    (
      pre,
      suf,
      same,
      at,
      rotate_accounts-all (account_target id provider model protocol) (λ idx a. refl) all offset pre
          suf same at,
    )

-- A provider with accounts yields exactly one target per account: the accounts in declared order for
-- the failover strategy, and for the balance strategy in that order rotated by the offset that the
-- provider's round-robin counter gives, so that each request starts at some account and every other
-- account comes later in its chain.
pub build_targets-Rotated :
    (id : String) (provider : ProviderConfig) (model : String) (inbound : Option ApiProtocol)
    (counters : Counters)
    → provider.accounts ≢ []
    → Rotated provider.accounts
        (offset_for provider.account_strategy id (length provider.accounts) counters).0
        (build_targets id provider model inbound counters).0
unfolding build_targets
build_targets-Rotated id provider model inbound counters some_accounts =
    by_accounts provider.accounts some_accounts
  where
    by_accounts :
        (accounts : List ProviderAccount)
        → accounts ≢ []
        → Rotated accounts
            (offset_for provider.account_strategy id (length accounts) counters).0
            (targets_with id provider model
              (select_protocol (protocols_for provider model) inbound)
              counters
              accounts).0
    by_accounts [] h = absurd (h refl)
    by_accounts (a ∷ accounts) h = targets_with-Rotated id provider model _ counters a accounts
