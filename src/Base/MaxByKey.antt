-- ===== src/Base/MaxByKey.antt =====
-- `Iterator::max_by_key`: of several elements with the greatest key it returns the last.
use Prim.Native.Nat.{ℕ, ◌≤◌, ◌<◌}
use mathlib.Core.Path.{◌≡◌, refl, ap, subst}
use mathlib.Core.Bool.{Bool, true, false}
use mathlib.Core.Logic.{◌⊎◌, inl, inr}
use mathlib.Core.Option.{Option, none, some}
use mathlib.Core.List.{List, [], ◌∷◌, ◌++◌}
use native.Mathlib.Omega.{arith}
use bitrouter_ethglobal.Base.Tests.{leb, if◌then◌else◌, leb→le, Bool-cases}
use bitrouter_ethglobal.Base.Lists.{All, retain}

head-eq : {A : Type 0} {x y : A} {xs ys : List A} → x ∷ xs ≡ y ∷ ys → x ≡ y
head-eq e = cc

module _ {A : Type 0} (key : A → ℕ) where
  -- A later element replaces the best one so far unless its key is less.
  max_from : A → List A → A
  max_from best [] = best
  max_from best (x ∷ xs) = max_from (if leb (key best) (key x) then x else best) xs

  unfoldable pub max_by_key : List A → Option A
  unfolding max_from
  max_by_key [] = none
  max_by_key (x ∷ xs) = some (max_from x xs)

  -- `a` stands in the list, no key before it is greater and every key after it is less.
  pub record IsLastMax (xs : List A) (a : A) : Type 0 where
    pub before : List A
    pub after : List A
    pub split : xs ≡ before ++ (a ∷ after)
    pub le_before : All (λ x. key x ≤ key a) before
    pub lt_after : All (λ x. key x < key a) after

  All-le_trans : (xs : List A) {m n : ℕ} → m ≤ n → All (λ x. key x ≤ m) xs → All (λ x. key x ≤ n) xs
  All-le_trans [] h a = tt
  All-le_trans (x ∷ xs) h (p, a) = (omega arith, All-le_trans xs h a)

  -- `best` is the head of a list with last maximum `a`, and an element with a lesser key is put
  -- behind it.
  IsLastMax-skip :
      (best x : A) (xs before after : List A) {a : A}
      → best ∷ xs ≡ before ++ (a ∷ after)
      → All (λ y. key y ≤ key a) before
      → All (λ y. key y < key a) after
      → key x < key best
      → IsLastMax (best ∷ x ∷ xs) a
  IsLastMax-skip best x xs [] after {a} e l r h = record {
    before = [];
    after = x ∷ after;
    split = cc;
    le_before = tt;
    lt_after = (subst (λ b. key x < key b) (head-eq e) h, r);
  }
  IsLastMax-skip best x xs (b ∷ bs) after {a} e l r h = record {
    before = best ∷ x ∷ bs;
    after = after;
    split = cc;
    le_before = let p : key best ≤ key a = rw (head-eq e) l.0 in (p, (omega arith, l.1));
    lt_after = r;
  }

  head-le : (x : A) (xs : List A) {a : A} (m : IsLastMax (x ∷ xs) a) → key x ≤ key a
  head-le x xs {a} m = go m.before m.split m.le_before
    where
      go :
          (before : List A)
          → x ∷ xs ≡ before ++ (a ∷ m.after)
          → All (λ y. key y ≤ key a) before
          → key x ≤ key a
      go [] e l = rw (head-eq e) (omega arith)
      go (b ∷ bs) e l = rw (head-eq e) l.0

  max_from-IsLastMax : (best : A) (xs : List A) → IsLastMax (best ∷ xs) (max_from best xs)
  unfolding max_from
  max_from-IsLastMax best [] = record {
    before = [];
    after = [];
    split = refl;
    le_before = tt;
    lt_after = tt;
  }
  max_from-IsLastMax best (x ∷ xs) = elim (Bool-cases (leb (key best) (key x))) [
    | inl e ↦ rw e (
        let m = max_from-IsLastMax x xs in
        record {
          before = best ∷ m.before;
          after = m.after;
          split = ap (λ l. best ∷ l) m.split;
          le_before = (omega (arith, leb→le (key best) (key x) e, head-le x xs m), m.le_before);
          lt_after = m.lt_after;
        })
    | inr e ↦ rw e (
        let m = max_from-IsLastMax best xs in
        IsLastMax-skip best x xs m.before m.after m.split m.le_before m.lt_after (ground arith))
  ]

  pub max_by_key-IsLastMax : (xs : List A) {a : A} → max_by_key xs ≡ some a → IsLastMax xs a
  unfolding max_by_key
  max_by_key-IsLastMax [] h = cc
  max_by_key-IsLastMax (x ∷ xs) {a} h = subst (IsLastMax (x ∷ xs)) (cc) (max_from-IsLastMax x xs)

  pub max_by_key-eq-none : (xs : List A) → max_by_key xs ≡ none → xs ≡ []
  unfolding max_by_key
  max_by_key-eq-none [] h = refl
  max_by_key-eq-none (x ∷ xs) h = cc

tail-eq : {A : Type 0} {x y : A} {xs ys : List A} → x ∷ xs ≡ y ∷ ys → xs ≡ ys
tail-eq e = cc

All-of_retain :
    {A : Type 0} (p : A → Bool) (P : A → Type 0) (xs : List A)
    → All P (retain p xs)
    → All (λ x. (p x ≡ false) ⊎ P x) xs
All-of_retain p P [] h = tt
All-of_retain p P (x ∷ xs) h = elim (Bool-cases (p x)) [
  | inl e ↦ let h' : All P (x ∷ retain p xs) = rw e at h in (inr h'.0, All-of_retain p P xs h'.1)
  | inr e ↦ (inl e, All-of_retain p P xs (rw e at h))
]

-- The last element with the greatest key among those that a test keeps, seen in the whole list.
module _ {A : Type 0} (p : A → Bool) (key : A → ℕ) where
  pub record Picks (xs : List A) (a : A) : Type 0 where
    pub before : List A
    pub after : List A
    pub split : xs ≡ before ++ (a ∷ after)
    pub kept : p a ≡ true
    pub le_before : All (λ x. (p x ≡ false) ⊎ (key x ≤ key a)) before
    pub lt_after : All (λ x. (p x ≡ false) ⊎ (key x < key a)) after

  Picks-cons :
      (x : A) {xs : List A} {a : A} (m : Picks xs a)
      → (p x ≡ false) ⊎ (key x ≤ key a)
      → Picks (x ∷ xs) a
  Picks-cons x m h = record {
    before = x ∷ m.before;
    after = m.after;
    split = ap (λ l. x ∷ l) m.split;
    kept = m.kept;
    le_before = (h, m.le_before);
    lt_after = m.lt_after;
  }

  Picks-of_split :
      (xs before after : List A) {a : A}
      → retain p xs ≡ before ++ (a ∷ after)
      → All (λ x. key x ≤ key a) before
      → All (λ x. key x < key a) after
      → Picks xs a
  Picks-of_split [] [] after e l r = cc
  Picks-of_split [] (b ∷ bs) after e l r = cc
  Picks-of_split (x ∷ xs) [] after {a} e l r = elim (Bool-cases (p x)) [
    | inl k ↦
        let e' : x ∷ retain p xs ≡ a ∷ after = rw k at e in
        record {
          before = [];
          after = xs;
          split = ap (λ y. y ∷ xs) (head-eq e');
          kept = subst (λ y. p y ≡ true) (head-eq e') k;
          le_before = tt;
          lt_after = All-of_retain p (λ y. key y < key a) xs (rw (tail-eq e') r);
        }
    | inr k ↦ Picks-cons x (Picks-of_split xs [] after (rw k at e) l r) (inl k)
  ]
  Picks-of_split (x ∷ xs) (b ∷ bs) after {a} e l r = elim (Bool-cases (p x)) [
    | inl k ↦
        let e' : x ∷ retain p xs ≡ b ∷ (bs ++ (a ∷ after)) = rw k at e in
        Picks-cons x (Picks-of_split xs bs after (tail-eq e') l.1 r) (inr (rw (head-eq e') l.0))
    | inr k ↦ Picks-cons x (Picks-of_split xs (b ∷ bs) after (rw k at e) l r) (inl k)
  ]

  pub max_by_key-retain : (xs : List A) {a : A} → max_by_key key (retain p xs) ≡ some a → Picks xs a
  max_by_key-retain xs h =
      let m = max_by_key-IsLastMax key (retain p xs) h in
      Picks-of_split xs m.before m.after m.split m.le_before m.lt_after

  pub max_by_key-retain-eq-none :
      (xs : List A) → max_by_key key (retain p xs) ≡ none → All (λ x. p x ≡ false) xs
  max_by_key-retain-eq-none [] h = tt
  max_by_key-retain-eq-none (x ∷ xs) h = elim (Bool-cases (p x)) [
    | inl e ↦ absurd (let n : x ∷ retain p xs ≡ [] = max_by_key-eq-none key _ (rw e at h) in cc)
    | inr e ↦ (e, max_by_key-retain-eq-none xs (rw e at h))
  ]
