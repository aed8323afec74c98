-- ===== src/Policy/Hook/Admission.antt =====
-- What the policy hook guarantees of the requests that it admits.
use bitrouter_ethglobal.Base.{
  ℕ, ◌≡◌, ◌<◌, ◌⊎◌, inl, inr, refl, String, Option, none, some, Bool, true, false, List, [], ◌∷◌,
  is_some, lookup, if◌then◌else◌, All, Bool-cases, Option-cases, sym, subst, ap, ◌∙◌,
}
use bitrouter_ethglobal.Error.{BitrouterError, Result, ok, err, HookDecision, allow, ◌>>=◌}
use bitrouter_ethglobal.Policy.{
  Policy, EffectivePolicy, Check, check_model, check_expiry, check_spend, check_tools, check_rate,
  has_tool_restriction, known_policies, effective_for, combine, fold_policies, fold_policy,
}
use bitrouter_ethglobal.Policy.Combine.{Within, AllowedBy}
use bitrouter_ethglobal.Policy.Access.{
  All-map, cons-ne-nil, Permits, check_model-combine_iff, check_limits-combine_iff,
  check_tools-combine_iff,
}
use bitrouter_ethglobal.Policy.Hook.{
  Metering, PolicyRequest, ids_of, forbid_on, limit_on, rate_step, spend_step, checks, policy_check,
}

true-ne-false : ¬ (true ≡ false)
true-ne-false h = cc

err-ne-ok : {A : Type 0} {a : A} {e : BitrouterError} → ¬ (err e ≡ ok a)
err-ne-ok h = cc

forbid_on-eq-allow :
    (c : Check) (next : Result HookDecision)
    → forbid_on c next ≡ ok allow
    → (c ≡ none) × (next ≡ ok allow)
forbid_on-eq-allow none next h = (refl, h)
forbid_on-eq-allow (some v) next h = cc

-- The checks that an admitted request has passed, in terms of the combined policy.
record Passed (p : EffectivePolicy) (m : Metering) (r : PolicyRequest) : Type 0 where
  model : check_model p r.model ≡ none
  expiry : check_expiry p r.now ≡ none
  tools : (has_tool_restriction p ≡ true) → check_tools p r.tools ≡ none
  spend :
      (is_some p.max_spend_micro_usd ≡ true)
      → (spent : ℕ) × (m.get_spend ≡ ok spent) × (check_spend p spent ≡ none)
  rate :
      (is_some p.max_requests_per_minute ≡ true)
      → (observed : ℕ) × (m.get_rate ≡ ok observed) × (check_rate p observed ≡ none)

limit_on-eq-allow :
    (c : Check) (next : Result HookDecision)
    → limit_on c next ≡ ok allow
    → (c ≡ none) × (next ≡ ok allow)
limit_on-eq-allow none next h = (refl, h)
limit_on-eq-allow (some v) next h = cc

-- The three shapes of a conditional step, inverted.
guarded_check :
    (b : Bool) (c : Check) (rest : Result HookDecision)
    → (if b then forbid_on c rest else rest) ≡ ok allow
    → (b ≡ true → c ≡ none) × (rest ≡ ok allow)
guarded_check true c rest h = let (e, k) = forbid_on-eq-allow c rest h in ((λ t. e), k)
guarded_check false c rest h = ((λ t. cc), h)

guarded_spend :
    (b : Bool) (g : Result ℕ) (c : ℕ → Check) (rest : Result HookDecision)
    → (if b then (g >>= λ s. forbid_on (c s) rest) else rest) ≡ ok allow
    → (rest ≡ ok allow) × (b ≡ true → (s : ℕ) × (g ≡ ok s) × (c s ≡ none))
guarded_spend true (ok s) c rest h =
    let (e, k) = forbid_on-eq-allow (c s) rest h in (k, λ t. (s, refl, e))
guarded_spend true (err e) c rest h = absurd (err-ne-ok h)
guarded_spend false g c rest h = (h, λ t. cc)

guarded_rate :
    (b : Bool) (g : Result ℕ) (c : ℕ → Check)
    → (if b then (g >>= λ s. limit_on (c s) (ok allow)) else ok allow) ≡ ok allow
    → b ≡ true
    → (s : ℕ) × (g ≡ ok s) × (c s ≡ none)
guarded_rate true (ok s) c h t = (s, refl, (limit_on-eq-allow (c s) (ok allow) h).0)
guarded_rate true (err e) c h t = absurd (err-ne-ok h)
guarded_rate false g c h t = cc

checks-Passed :
    (p : EffectivePolicy) (m : Metering) (r : PolicyRequest)
    → checks p (some m) r ≡ ok allow
    → Passed p m r
unfolding checks spend_step rate_step
checks-Passed p m r h =
    let (model_ok, h1) = forbid_on-eq-allow (check_model p r.model) _ h in
    let (live, h2) = forbid_on-eq-allow (check_expiry p r.now) _ h1 in
    let (tools_ok, h3) =
      guarded_check (has_tool_restriction p) (check_tools p r.tools) (spend_step p (some m)) h2 in
    let (h4, spend_ok) =
      guarded_spend (is_some p.max_spend_micro_usd) m.get_spend (check_spend p)
        (rate_step p (some m)) h3 in
    record {
      model = model_ok;
      expiry = live;
      tools = tools_ok;
      spend = spend_ok;
      rate = guarded_rate (is_some p.max_requests_per_minute) m.get_rate (check_rate p) h4;
    }

-- A reading that stays below a ceiling, if there is one.
abbrev pub Below : Option ℕ → Result ℕ → Type 0
Below none reading = Unit {0}
Below (some limit) reading = (n : ℕ) × (reading ≡ ok n) × (n < limit)

Below-of_check :
    (ceiling : Option ℕ) (reading : Result ℕ)
    → ((limit : ℕ) → ceiling ≡ some limit → (n : ℕ) × (reading ≡ ok n) × (n < limit))
    → Below ceiling reading
Below-of_check none reading h = tt
Below-of_check (some limit) reading h = h limit refl

-- What the owner of a policy expects of every request that is let through under it.
pub record Admitted (p : Policy) (m : Metering) (r : PolicyRequest) : Type 0 where
  pub model : Permits r.model p
  pub live : Within p.expires_at r.now
  pub tools : All (λ t. AllowedBy p.allowed_tools t) r.tools
  pub spend : Below p.max_spend_micro_usd m.get_spend
  pub rate : Below p.max_requests_per_minute m.get_rate

effective_for_one :
    (store : List (String × Policy)) (id : String) (p : Policy)
    → lookup id store ≡ some p
    → effective_for store (id ∷ []) ≡ combine (p ∷ [])
unfolding effective_for known_policies
effective_for_one store id p e = rw (e, known_policies)

effective_for_unknown :
    (store : List (String × Policy)) (id : String)
    → lookup id store ≡ none
    → effective_for store (id ∷ []) ≡ combine []
unfolding effective_for known_policies
effective_for_unknown store id e = rw (e, known_policies)

unrestricted_check :
    (q : EffectivePolicy) (tools : List String)
    → has_tool_restriction q ≡ false
    → check_tools q tools ≡ none
unfolding has_tool_restriction check_tools
unrestricted_check q tools h = elim (Option-cases q.allowed_tools) [
  | inl e ↦ rw e refl
  | inr (l, e) ↦ absurd (true-ne-false (subst (λ o. is_some o ≡ false) e h))
]

Admitted-of_Passed :
    (p : Policy) (m : Metering) (r : PolicyRequest) → Passed (combine (p ∷ [])) m r → Admitted p m r
unfolding combine fold_policies fold_policy
Admitted-of_Passed p m r h = record {
  model = ((check_model-combine_iff (p ∷ []) r.model).0 h.model).0;
  live = ((check_limits-combine_iff (p ∷ []) r.now).0.0 h.expiry).0;
  tools =
      let q = combine (p ∷ []) in
      let checked : check_tools q r.tools ≡ none = elim (Bool-cases (has_tool_restriction q)) [
        | inl e ↦ h.tools e
        | inr e ↦ unrestricted_check q r.tools e
      ] in
      elim ((check_tools-combine_iff (p ∷ []) r.tools).0 checked) [
        | inl e ↦ absurd (cons-ne-nil e)
        | inr a ↦
            All-map (λ t. AllowedBy p.allowed_tools t ⊎ ⊥) (λ t. AllowedBy p.allowed_tools t)
              (λ t k. elim k [ inl x ↦ x | inr b ↦ absurd b ]) r.tools a
      ];
  spend = Below-of_check p.max_spend_micro_usd m.get_spend λ limit e.
      let (spent, read, c) = h.spend (rw e refl) in
      let w = ((check_limits-combine_iff (p ∷ []) spent).1.0 c).0 in
      (spent, read, subst (λ o. Within o spent) e w);
  rate = Below-of_check p.max_requests_per_minute m.get_rate λ limit e.
      let (observed, read, c) = h.rate (rw e refl) in
      let w = ((check_limits-combine_iff (p ∷ []) observed).2.0 c).0 in
      (observed, read, subst (λ o. Within o observed) e w);
}

checks_of_none :
    (metering : Option Metering) (r : PolicyRequest) → checks (combine []) metering r ≡ ok allow
unfolding checks spend_step rate_step combine fold_policies check_model check_expiry
    has_tool_restriction
checks_of_none none r = refl
checks_of_none (some m) r = refl

-- With a metering store, a request of a key that is bound to a stored policy is admitted only if the
-- policy permits its model and each of its tools, has not expired, and the month's spend and the
-- request rate, which were read without an error, lie below the policy's ceilings.
pub policy_check-Admitted :
    (store : List (String × Policy)) (m : Metering) (r : PolicyRequest) (id : String) (p : Policy)
    → r.policy_id ≡ some id
    → lookup id store ≡ some p
    → policy_check store (some m) r ≡ ok allow
    → Admitted p m r
unfolding policy_check
policy_check-Admitted store m r id p bound stored h =
    let e : policy_check store (some m) r ≡ checks (combine (p ∷ [])) (some m) r =
      ap (λ q. checks q (some m) r)
        (ap (λ o. effective_for store (ids_of o)) bound ∙ effective_for_one store id p stored) in
    Admitted-of_Passed p m r (checks-Passed (combine (p ∷ [])) m r (sym e ∙ h))

-- A request whose key has no policy, or a policy that the store does not know, is admitted without a
-- look at the metering store.
pub policy_check-unknown :
    (store : List (String × Policy)) (metering : Option Metering) (r : PolicyRequest) (id : String)
    → (r.policy_id ≡ none) ⊎ ((r.policy_id ≡ some id) × (lookup id store ≡ none))
    → policy_check store metering r ≡ ok allow
unfolding policy_check effective_for known_policies
policy_check-unknown store metering r id (inl h) =
    ap (λ o. checks (effective_for store (ids_of o)) metering r) h ∙ checks_of_none metering r
policy_check-unknown store metering r id (inr (h, e)) =
    ap (λ o. checks (effective_for store (ids_of o)) metering r) h
    ∙ (ap (λ q. checks q metering r) (effective_for_unknown store id e) ∙ checks_of_none metering r)
