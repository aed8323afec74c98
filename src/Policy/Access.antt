-- ===== src/Policy/Access.antt =====
-- What the checks of a combined policy mean for the policies that it combines.
use bitrouter_ethglobal.Base.{
  ℕ, ◌≡◌, ◌↔◌, ◌⊎◌, inl, inr, refl, sym, subst, ◌≢◌, Option-cases, String, Option, none, some, true,
  List, [], ◌∷◌, All, IsIn, contains_iff, arith, is_some,
}
use bitrouter_ethglobal.Policy.{
  Policy, EffectivePolicy, Fold, fold_start, fold_policies, finish, combine, check_model,
  check_expiry, check_spend, check_rate, check_tools, check_listed, allowlist_check, expiry_check,
  spend_check, rate_check,
}
use bitrouter_ethglobal.Policy.Combine.{
  Any, Within, AllowedBy, ListedBy, denied_iff, allowed_iff, spend_iff, expires_iff, rate_iff,
  union_iff, unrestricted_iff, restricted_iff,
}

iff_trans : {A B C : Type 0} → A ↔ B → B ↔ C → A ↔ C
iff_trans f g = ((λ a. g.0 (f.0 a)), λ c. f.1 (g.1 c))

drop_start : {A B : Type 0} → A ↔ (Unit {0} × B) → A ↔ B
drop_start f = ((λ a. (f.0 a).1), λ b. f.1 (tt, b))

from_start : {A : Type 0} → ⊥ ⊎ A → A
from_start (inl h) = absurd h
from_start (inr a) = a

pub cons-ne-nil : {A : Type 0} {x : A} {xs : List A} → ¬ (x ∷ xs ≡ [])
cons-ne-nil e = cc

Not-Any : {A : Type 0} (P : A → Type 0) (xs : List A) → (¬ (Any P xs)) ↔ All (λ x. ¬ (P x)) xs
Not-Any P [] = ((λ h. tt), λ h a. a)
Not-Any P (x ∷ xs) = (
  λ h. ((λ p. h (inl p)), (Not-Any P xs).0 (λ a. h (inr a))),
  λ h a. elim a [ inl p ↦ h.0 p | inr r ↦ (Not-Any P xs).1 h.1 r ],
)

All-zip :
    {A : Type 0} (P Q : A → Type 0) (xs : List A) → (All P xs × All Q xs) ↔ All (λ x. P x × Q x) xs
All-zip P Q [] = ((λ h. tt), λ h. (tt, tt))
All-zip P Q (x ∷ xs) = (
  λ h. ((h.0.0, h.1.0), (All-zip P Q xs).0 (h.0.1, h.1.1)),
  λ h. let (a, b) = (All-zip P Q xs).1 h.1 in ((h.0.0, a), (h.0.1, b)),
)

-- What one policy says of a model.
abbrev pub Permits : String → Policy → Type 0
Permits model p = (¬ (IsIn model p.denied_models)) × AllowedBy p.allowed_models model

allowlist_check_iff :
    (o : Option (List String)) (model : String)
    → (allowlist_check o model ≡ none) ↔ AllowedBy o model
allowlist_check_iff none model = ground arith
allowlist_check_iff (some l) model = ground (arith, contains_iff l model)

expiry_check_iff : (o : Option ℕ) (x : ℕ) → (expiry_check o x ≡ none) ↔ Within o x
expiry_check_iff none x = ground arith
expiry_check_iff (some l) x = ground arith

spend_check_iff : (o : Option ℕ) (x : ℕ) → (spend_check o x ≡ none) ↔ Within o x
spend_check_iff none x = ground arith
spend_check_iff (some l) x = ground arith

rate_check_iff : (o : Option ℕ) (x : ℕ) → (rate_check o x ≡ none) ↔ Within o x
rate_check_iff none x = ground arith
rate_check_iff (some l) x = ground arith

check_model_iff :
    (p : EffectivePolicy) (model : String)
    → (check_model p model ≡ none)
      ↔ ((¬ (IsIn model p.denied_models)) × AllowedBy p.allowed_models model)
unfolding check_model
check_model_iff p model =
    ground (arith, contains_iff p.denied_models model, allowlist_check_iff p.allowed_models model)

-- The combined policy passes a model exactly if every policy permits it: none denies it, and each
-- one that has an allowlist lists it. So denylists unite, allowlists intersect and a denial wins.
pub check_model-combine_iff :
    (ps : List Policy) (model : String)
    → (check_model (combine ps) model ≡ none) ↔ All (Permits model) ps
unfolding combine
check_model-combine_iff ps model =
    let (to, from) = check_model_iff (finish (fold_policies fold_start ps)) model in
    let (dto, dfrom) = denied_iff fold_start ps model in
    let (ato, afrom) = allowed_iff fold_start ps model in
    let (zip, unzip) =
      All-zip (λ p. ¬ (IsIn model p.denied_models)) (λ p. AllowedBy p.allowed_models model) ps in
    let (nto, nfrom) = Not-Any (λ p. IsIn model p.denied_models) ps in
    (
      λ h. zip (nto (λ a. (to h).0 (dfrom (inr a))), (ato (to h).1).1),
      λ h. from (
        (λ d. elim (dto d) [ inl b ↦ b | inr a ↦ nfrom (unzip h).0 a ]),
        afrom (tt, (unzip h).1),
      ),
    )

-- The three ceilings of a combined policy are the strictest: a request passes the expiry, spend or
-- rate check exactly if it stays below that bound of every policy that sets one.
pub check_limits-combine_iff :
    (ps : List Policy) (x : ℕ)
    → ((check_expiry (combine ps) x ≡ none) ↔ All (λ p. Within p.expires_at x) ps)
      × ((check_spend (combine ps) x ≡ none) ↔ All (λ p. Within p.max_spend_micro_usd x) ps)
      × ((check_rate (combine ps) x ≡ none) ↔ All (λ p. Within p.max_requests_per_minute x) ps)
unfolding combine check_expiry check_spend check_rate
check_limits-combine_iff ps x =
    let eff = fold_policies fold_start ps in
    (
      iff_trans (expiry_check_iff eff.eff.expires_at x) (drop_start (expires_iff fold_start ps x)),
      iff_trans (spend_check_iff eff.eff.max_spend_micro_usd x)
          (drop_start (spend_iff fold_start ps x)),
      iff_trans (rate_check_iff eff.eff.max_requests_per_minute x)
          (drop_start (rate_iff fold_start ps x)),
    )

check_listed_iff :
    (allow tools : List String) → (check_listed allow tools ≡ none) ↔ All (λ t. IsIn t allow) tools
unfolding check_listed
check_listed_iff allow [] = ground arith
check_listed_iff allow (t ∷ ts) = ground (arith, contains_iff allow t, check_listed_iff allow ts)

-- Policies of which none leaves tools unrestricted, or some do.
restriction_cases :
    (ps : List Policy)
    → Any (λ p. p.allowed_tools ≡ none) ps ⊎ All (λ p. is_some p.allowed_tools ≡ true) ps
restriction_cases [] = inr tt
restriction_cases (p ∷ ps) = elim (Option-cases p.allowed_tools) [
  | inl e ↦ inl (inl e)
  | inr (l, e) ↦ elim (restriction_cases ps) [ inl u ↦ inl (inr u) | inr r ↦ inr (rw e refl, r) ]
]

Any-AllowedBy_of_none :
    (t : String) (ps : List Policy)
    → Any (λ p. p.allowed_tools ≡ none) ps
    → Any (λ p. AllowedBy p.allowed_tools t) ps
Any-AllowedBy_of_none t [] u = u
Any-AllowedBy_of_none t (p ∷ ps) u = elim u [
  | inl e ↦ inl (subst (λ o. AllowedBy o t) (sym e) tt)
  | inr r ↦ inr (Any-AllowedBy_of_none t ps r)
]

All-of_each : {A : Type 0} (P : A → Type 0) → ((a : A) → P a) → (xs : List A) → All P xs
All-of_each P f [] = tt
All-of_each P f (x ∷ xs) = (f x, All-of_each P f xs)

pub All-map :
    {A : Type 0} (P Q : A → Type 0) → ((a : A) → P a → Q a) → (xs : List A) → All P xs → All Q xs
All-map P Q f [] h = tt
All-map P Q f (x ∷ xs) h = (f x h.0, All-map P Q f xs h.1)

listed_iff_allowed :
    (o : Option (List String)) (t : String) → is_some o ≡ true → ListedBy o t ↔ AllowedBy o t
listed_iff_allowed none t h = cc
listed_iff_allowed (some l) t h = ((λ k. k), λ k. k)

Any-ListedBy_iff :
    (t : String) (ps : List Policy)
    → All (λ p. is_some p.allowed_tools ≡ true) ps
    → Any (λ p. ListedBy p.allowed_tools t) ps ↔ Any (λ p. AllowedBy p.allowed_tools t) ps
Any-ListedBy_iff t [] h = ((λ k. k), λ k. k)
Any-ListedBy_iff t (p ∷ ps) h =
    let (to, from) = Any-ListedBy_iff t ps h.1 in
    let (here, back) = listed_iff_allowed p.allowed_tools t h.0 in
    (
      elim [ inl k ↦ inl (here k) | inr k ↦ inr (to k) ],
      elim [ inl k ↦ inl (back k) | inr k ↦ inr (from k) ],
    )

none-Any_restricted :
    (ps : List Policy)
    → All (λ p. is_some p.allowed_tools ≡ true) ps
    → ¬ (Any (λ p. p.allowed_tools ≡ none) ps)
none-Any_restricted [] h u = u
none-Any_restricted (p ∷ ps) h u = elim u [
  | inl e ↦
      absurd
        (let k : is_some {A = List String} none ≡ true = subst (λ o. is_some o ≡ true) e h.0 in cc)
  | inr r ↦ none-Any_restricted ps h.1 r
]

-- The combined policy has the union as its tool list if all of its policies have lists, and none if
-- some have not.
module _ (s : Fold) where
  tools_open : s.any_tool_unrestricted ≡ true → (finish s).allowed_tools ≡ none
  tools_open h = ground arith

  tools_closed :
      s.any_tool_unrestricted ≢ true
      → s.any_tool_restricted ≡ true
      → (finish s).allowed_tools ≡ some s.tool_union
  tools_closed u r = ground arith

-- The combined policy passes a list of tools exactly if there is no policy or each tool is allowed
-- by some policy, by listing it or by having no tool list: tool access is a union.
pub check_tools-combine_iff :
    (ps : List Policy) (tools : List String)
    → (check_tools (combine ps) tools ≡ none)
      ↔ ((ps ≡ []) ⊎ All (λ t. Any (λ p. AllowedBy p.allowed_tools t) ps) tools)
unfolding combine check_tools fold_policies
check_tools-combine_iff [] tools = ((λ h. inl refl), λ h. refl)
check_tools-combine_iff (p ∷ ps) tools =
    let qs : List Policy = p ∷ ps in
    let s = fold_policies fold_start qs in
    elim (restriction_cases qs) [
      | inl u ↦ (
        λ h. inr (
            All-of_each (λ t. Any (λ p. AllowedBy p.allowed_tools t) qs)
              (λ t. Any-AllowedBy_of_none t qs u) tools),
        λ h. rw (tools_open s ((unrestricted_iff fold_start qs).1 (inr u))),
      )
      | inr r ↦
          let closed =
            tools_closed s
              (λ e. elim ((unrestricted_iff fold_start qs).0 e) [
                | inl k ↦ cc
                | inr k ↦ none-Any_restricted qs r k
              ])
              ((restricted_iff fold_start qs).1 (inr (inl r.0))) in
          rw closed (
            λ h. inr (
                All-map (λ t. IsIn t s.tool_union) (λ t. Any (λ p. AllowedBy p.allowed_tools t) qs)
                  (λ t k.
                    (Any-ListedBy_iff t qs r).0 (from_start ((union_iff fold_start qs t).0 k)))
                  tools ((check_listed_iff s.tool_union tools).0 h)),
            elim [
              | inl e ↦ absurd (cons-ne-nil e)
              | inr h ↦ (check_listed_iff s.tool_union tools).1 (
                  All-map (λ t. Any (λ p. AllowedBy p.allowed_tools t) qs)
                    (λ t. IsIn t s.tool_union)
                    (λ t k. (union_iff fold_start qs t).1 (inr ((Any-ListedBy_iff t qs r).1 k)))
                    tools h)
            ],
          )
    ]
