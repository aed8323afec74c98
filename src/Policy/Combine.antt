-- ===== src/Policy/Combine.antt =====
-- The loop of `combine`, field by field.
use bitrouter_ethglobal.Base.{
  ℕ, ◌≡◌, ◌<◌, ◌↔◌, ◌⊎◌, inl, inr, subst, String, Option, none, some, true, List, [], ◌∷◌, ◌++◌,
  All, IsIn, contains, contains_iff, retain_iff, IsIn-append_iff, arith, Bool-cases, is_some,
}
use bitrouter_ethglobal.Policy.{
  Policy, Fold, push_new, tighten, intersect, fold_tools, fold_policy, fold_policies,
}

abbrev pub Any : {A : Type 0} → (A → Type 0) → List A → Type 0
Any P [] = ⊥
Any P (x ∷ xs) = P x ⊎ Any P xs

-- `none` sets no bound, and no list allows everything.
abbrev pub Within : Option ℕ → ℕ → Type 0
Within none x = Unit
Within (some limit) x = x < limit

abbrev pub AllowedBy : Option (List String) → String → Type 0
AllowedBy none a = Unit
AllowedBy (some allow) a = IsIn a allow

abbrev pub ListedBy : Option (List String) → String → Type 0
ListedBy none a = ⊥
ListedBy (some allow) a = IsIn a allow

pub push_new_iff :
    (a : String) (xs ys : List String) → IsIn a (push_new xs ys) ↔ (IsIn a xs ⊎ IsIn a ys)
unfolding push_new
push_new_iff a xs [] = ground arith
push_new_iff a xs (y ∷ ys) = elim (Bool-cases (contains xs y)) [
  | inl e ↦ rw e (
      let ih = push_new_iff a xs ys in
      let y_in = (contains_iff xs y).0 e in
      (
        λ h. elim (ih.0 h) [ inl k ↦ inl k | inr k ↦ inr (inr k) ],
        elim [
          | inl k ↦ ih.1 (inl k)
          | inr h ↦ elim h [
            | inl q ↦ ih.1 (inl (subst (λ z. IsIn z xs) q y_in))
            | inr k ↦ ih.1 (inr k)
          ]
        ],
      ))
  | inr e ↦ rw e (ground (arith, push_new_iff a (xs ++ (y ∷ [])) ys, IsIn-append_iff a xs (y ∷ [])))
]

tighten_iff : (e p : Option ℕ) (x : ℕ) → Within (tighten e p) x ↔ (Within e x × Within p x)
tighten_iff e none x = ground arith
tighten_iff none (some l) x = ground arith
tighten_iff (some e) (some l) x = ground arith

intersect_iff :
    (e p : Option (List String)) (a : String)
    → AllowedBy (intersect e p) a ↔ (AllowedBy e a × AllowedBy p a)
intersect_iff e none a = ground arith
intersect_iff none (some l) a = ground arith
intersect_iff (some e) (some l) a = ground (arith, retain_iff (contains l) a e, contains_iff l a)

fold_tools_iff :
    (p : Option (List String)) (union : List String) (a : String)
    → IsIn a (fold_tools p union) ↔ (IsIn a union ⊎ ListedBy p a)
fold_tools_iff none union a = ground arith
fold_tools_iff (some l) union a = push_new_iff a union l

-- A field that the loop accumulates so that the meaning of the result is that of both parts.
fold-All :
    (M : Fold → Type 0) (P : Policy → Type 0)
    → ((s : Fold) (p : Policy) → M (fold_policy s p) ↔ (M s × P p))
    → (s : Fold) (ps : List Policy) → M (fold_policies s ps) ↔ (M s × All P ps)
unfolding fold_policies
fold-All M P step s [] = ((λ m. (m, tt)), λ h. h.0)
fold-All M P step s (p ∷ ps) =
    let (to, from) = fold-All M P step (fold_policy s p) ps in
    let (here, back) = step s p in
    (
      λ m. let (m', rest) = to m in let (m'', h) = here m' in (m'', (h, rest)),
      λ h. from (back (h.0, h.1.0), h.1.1),
    )

fold-Any :
    (M : Fold → Type 0) (P : Policy → Type 0)
    → ((s : Fold) (p : Policy) → M (fold_policy s p) ↔ (M s ⊎ P p))
    → (s : Fold) (ps : List Policy) → M (fold_policies s ps) ↔ (M s ⊎ Any P ps)
unfolding fold_policies
fold-Any M P step s [] = ((λ m. inl m), elim [ inl m ↦ m | inr h ↦ absurd h ])
fold-Any M P step s (p ∷ ps) =
    let (to, from) = fold-Any M P step (fold_policy s p) ps in
    let (here, back) = step s p in
    (
      λ m. elim (to m) [
        | inl m' ↦ elim (here m') [ inl m'' ↦ inl m'' | inr h ↦ inr (inl h) ]
        | inr h ↦ inr (inr h)
      ],
      elim [
        | inl m ↦ from (inl (back (inl m)))
        | inr h ↦ elim h [ inl k ↦ from (inl (back (inr k))) | inr k ↦ from (inr k) ]
      ],
    )

-- Each field of the folded state.
module _ (s : Fold) (ps : List Policy) where
  pub denied_iff :
      (a : String)
      → IsIn a (fold_policies s ps).eff.denied_models
        ↔ (IsIn a s.eff.denied_models ⊎ Any (λ p. IsIn a p.denied_models) ps)
  unfolding fold_policy
  denied_iff a =
      fold-Any (λ t. IsIn a t.eff.denied_models) (λ p. IsIn a p.denied_models)
        (λ t p. push_new_iff a t.eff.denied_models p.denied_models) s ps

  pub allowed_iff :
      (a : String)
      → AllowedBy (fold_policies s ps).eff.allowed_models a
        ↔ (AllowedBy s.eff.allowed_models a × All (λ p. AllowedBy p.allowed_models a) ps)
  unfolding fold_policy
  allowed_iff a =
      fold-All (λ t. AllowedBy t.eff.allowed_models a) (λ p. AllowedBy p.allowed_models a)
        (λ t p. intersect_iff t.eff.allowed_models p.allowed_models a) s ps

  pub spend_iff :
      (x : ℕ)
      → Within (fold_policies s ps).eff.max_spend_micro_usd x
        ↔ (Within s.eff.max_spend_micro_usd x × All (λ p. Within p.max_spend_micro_usd x) ps)
  unfolding fold_policy
  spend_iff x =
      fold-All (λ t. Within t.eff.max_spend_micro_usd x) (λ p. Within p.max_spend_micro_usd x)
        (λ t p. tighten_iff t.eff.max_spend_micro_usd p.max_spend_micro_usd x) s ps

  pub expires_iff :
      (x : ℕ)
      → Within (fold_policies s ps).eff.expires_at x
        ↔ (Within s.eff.expires_at x × All (λ p. Within p.expires_at x) ps)
  unfolding fold_policy
  expires_iff x =
      fold-All (λ t. Within t.eff.expires_at x) (λ p. Within p.expires_at x)
        (λ t p. tighten_iff t.eff.expires_at p.expires_at x) s ps

  pub rate_iff :
      (x : ℕ)
      → Within (fold_policies s ps).eff.max_requests_per_minute x ↔ (
          Within s.eff.max_requests_per_minute x × All (λ p. Within p.max_requests_per_minute x) ps)
  unfolding fold_policy
  rate_iff x =
      fold-All (λ t. Within t.eff.max_requests_per_minute x)
        (λ p. Within p.max_requests_per_minute x)
        (λ t p. tighten_iff t.eff.max_requests_per_minute p.max_requests_per_minute x) s ps

  pub union_iff :
      (a : String)
      → IsIn a (fold_policies s ps).tool_union
        ↔ (IsIn a s.tool_union ⊎ Any (λ p. ListedBy p.allowed_tools a) ps)
  unfolding fold_policy
  union_iff a =
      fold-Any (λ t. IsIn a t.tool_union) (λ p. ListedBy p.allowed_tools a)
        (λ t p. fold_tools_iff p.allowed_tools t.tool_union a) s ps

  pub unrestricted_iff :
      ((fold_policies s ps).any_tool_unrestricted ≡ true)
      ↔ ((s.any_tool_unrestricted ≡ true) ⊎ Any (λ p. p.allowed_tools ≡ none) ps)
  unfolding fold_policy
  unrestricted_iff =
      fold-Any (λ t. t.any_tool_unrestricted ≡ true) (λ p. p.allowed_tools ≡ none)
        (λ t p. ground arith) s ps

  pub restricted_iff :
      ((fold_policies s ps).any_tool_restricted ≡ true)
      ↔ ((s.any_tool_restricted ≡ true) ⊎ Any (λ p. is_some p.allowed_tools ≡ true) ps)
  unfolding fold_policy
  restricted_iff =
      fold-Any (λ t. t.any_tool_restricted ≡ true) (λ p. is_some p.allowed_tools ≡ true)
        (λ t p. ground arith) s ps
