-- ===== src/Base/Sort.antt =====
-- A stable insertion sort, for `sort_by`.
use mathlib.Core.Path.{◌≡◌}
use mathlib.Core.Logic.{◌↔◌, ◌⊎◌, inl, inr}
use mathlib.Core.Bool.{Bool, true, false}
use mathlib.Core.List.{List, [], ◌∷◌}
use native.Mathlib.Omega.{arith}
use bitrouter_ethglobal.Base.Tests.{if◌then◌else◌}
use bitrouter_ethglobal.Base.Lists.{IsIn, All}

module _ {A : Type 0} where
  -- The test says whether its first argument comes no later than the second.
  unfoldable pub insert_by : (A → A → Bool) → A → List A → List A
  insert_by le c [] = c ∷ []
  insert_by le c (d ∷ ds) = let rest = insert_by le c ds in if le c d then c ∷ d ∷ ds else d ∷ rest

  unfoldable pub sort_by : (A → A → Bool) → List A → List A
  sort_by le [] = []
  sort_by le (c ∷ cs) = insert_by le c (sort_by le cs)

  insert_by_iff :
      (le : A → A → Bool) (a c : A) (cs : List A)
      → IsIn a (insert_by le c cs) ↔ ((c ≡ a) ⊎ IsIn a cs)
  unfolding insert_by
  insert_by_iff le a c [] = ground arith
  insert_by_iff le a c (d ∷ ds) = chosen (le c d) (insert_by_iff le a c ds)
    where
      chosen :
          (b : Bool)
          → (IsIn a (insert_by le c ds) ↔ ((c ≡ a) ⊎ IsIn a ds))
          → IsIn a (if b then c ∷ d ∷ ds else d ∷ insert_by le c ds) ↔ ((c ≡ a) ⊎ IsIn a (d ∷ ds))
      chosen true ih = (λ h. h, λ h. h)
      chosen false (to, from) = (
        elim [ inl e ↦ inr (inl e) | inr h ↦ elim (to h) [ inl e ↦ inl e | inr k ↦ inr (inr k) ] ],
        elim [
          | inl e ↦ inr (from (inl e))
          | inr h ↦ elim h [ inl e ↦ inl e | inr k ↦ inr (from (inr k)) ]
        ],
      )

  -- A sorted list has the elements of the list.
  pub sort_by_iff : (le : A → A → Bool) (a : A) (cs : List A) → IsIn a (sort_by le cs) ↔ IsIn a cs
  unfolding sort_by
  sort_by_iff le a [] = (λ h. h, λ h. h)
  sort_by_iff le a (c ∷ cs) =
      let (to, from) = insert_by_iff le a c (sort_by le cs) in
      let (there, back) = sort_by_iff le a cs in
      (
        λ h. elim (to h) [ inl e ↦ inl e | inr k ↦ inr (there k) ],
        elim [ inl e ↦ from (inl e) | inr k ↦ from (inr (back k)) ],
      )

  All-insert_by :
      (P : A → Type 0) (le : A → A → Bool) (c : A) (cs : List A)
      → P c
      → All P cs
      → All P (insert_by le c cs)
  unfolding insert_by
  All-insert_by P le c [] h hs = (h, tt)
  All-insert_by P le c (d ∷ ds) h hs = choose (le c d) (All-insert_by P le c ds h hs.1)
    where
      choose :
          (b : Bool)
          → All P (insert_by le c ds)
          → All P (if b then c ∷ d ∷ ds else d ∷ insert_by le c ds)
      choose true k = (h, hs)
      choose false k = (hs.0, k)

  pub All-sort_by :
      (P : A → Type 0) (le : A → A → Bool) (cs : List A) → All P cs → All P (sort_by le cs)
  unfolding sort_by
  All-sort_by P le [] h = tt
  All-sort_by P le (c ∷ cs) h = All-insert_by P le c (sort_by le cs) h.0 (All-sort_by P le cs h.1)
