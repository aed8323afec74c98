-- ===== src/Base/Lists.antt =====
-- Lists: predicates over their elements, Boolean tests, and what Rust's `Vec` methods do.
use Prim.Native.Nat.{ℕ, zero, suc, ◌+◌}
use Prim.Native.String.{String}
use mathlib.Core.Path.{◌≡◌}
use mathlib.Core.Logic.{◌↔◌, ◌⊎◌, inl, inr}
use mathlib.Core.Bool.{Bool, true, false, ◌&&◌, ◌||◌}
use mathlib.Core.Option.{Option, none, some}
use mathlib.Core.List.{List, [], ◌∷◌, ◌++◌}
use native.Mathlib.Omega.{arith}
use text.Mathlib.Text.{◌==◌ as str_eq}
use text.Mathlib.TextEquality.{eq_iff}
use bitrouter_ethglobal.Base.Tests.{if◌then◌else◌, Bool-cases}

module _ {ℓ} {A : Type ℓ} where
  abbrev pub length : List A → ℕ
  length [] = 0
  length (x ∷ xs) = suc (length xs)

  abbrev pub first : List A → Option A
  first [] = none
  first (x ∷ xs) = some x

  abbrev pub is_empty : List A → Bool
  is_empty [] = true
  is_empty (x ∷ xs) = false

  abbrev pub take : ℕ → List A → List A
  take zero xs = []
  take (suc n) [] = []
  take (suc n) (x ∷ xs) = x ∷ take n xs

  abbrev pub drop : ℕ → List A → List A
  drop zero xs = xs
  drop (suc n) [] = []
  drop (suc n) (x ∷ xs) = drop n xs

  abbrev pub get_elem? : List A → ℕ → Option A
  get_elem? [] i = none
  get_elem? (x ∷ xs) zero = some x
  get_elem? (x ∷ xs) (suc i) = get_elem? xs i

  -- `Vec::retain`, and `Iterator::filter` followed by `collect`.
  abbrev pub retain : (A → Bool) → List A → List A
  retain p [] = []
  retain p (x ∷ xs) = let rest = retain p xs in if p x then x ∷ rest else rest

  abbrev pub any : (A → Bool) → List A → Bool
  any p [] = false
  any p (x ∷ xs) = p x || any p xs

  abbrev pub all : (A → Bool) → List A → Bool
  all p [] = true
  all p (x ∷ xs) = p x && all p xs

  abbrev pub find : (A → Bool) → List A → Option A
  find p [] = none
  find p (x ∷ xs) = let rest = find p xs in if p x then some x else rest

  pub length-append : (xs ys : List A) → length (xs ++ ys) ≡ length xs + length ys
  length-append [] ys = omega arith
  length-append (x ∷ xs) ys = omega (arith, length-append xs ys)

-- Membership by recursion, which the tactics take apart.
abbrev pub IsIn : {A : Type 0} → A → List A → Type 0
IsIn a [] = ⊥
IsIn a (x ∷ xs) = (x ≡ a) ⊎ IsIn a xs

-- `Vec<String>::contains`.
abbrev pub contains : List String → String → Bool
contains [] a = false
contains (x ∷ xs) a = str_eq x a || contains xs a

module _ {ℓ κ} {A : Type ℓ} where
  abbrev pub All : (A → Type κ) → List A → Type κ
  All P [] = Unit
  All P (x ∷ xs) = P x × All P xs

  pub All-append : (P : A → Type κ) (xs ys : List A) → All P xs → All P ys → All P (xs ++ ys)
  All-append P [] ys hx hy = hy
  All-append P (x ∷ xs) ys hx hy = (hx.0, All-append P xs ys hx.1 hy)

pub contains_iff : (xs : List String) (a : String) → (contains xs a ≡ true) ↔ IsIn a xs
contains_iff [] a = ground arith
contains_iff (x ∷ xs) a = ground (arith, eq_iff x a, contains_iff xs a)

pub IsIn-append_iff :
    {A : Type 0} (a : A) (xs ys : List A) → IsIn a (xs ++ ys) ↔ (IsIn a xs ⊎ IsIn a ys)
IsIn-append_iff a [] ys = (λ h. inr h, λ h. ground arith)
IsIn-append_iff a (x ∷ xs) ys = ground (arith, IsIn-append_iff a xs ys)

pub retain_iff :
    {A : Type 0} (p : A → Bool) (a : A) (xs : List A)
    → IsIn a (retain p xs) ↔ (IsIn a xs × (p a ≡ true))
retain_iff p a [] = ground arith
retain_iff p a (x ∷ xs) = elim (Bool-cases (p x)) [
  | inl e ↦ rw e (ground (arith, retain_iff p a xs))
  | inr e ↦ rw e (ground (arith, retain_iff p a xs))
]
