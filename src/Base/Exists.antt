-- ===== src/Base/Exists.antt =====
-- Lists: some element with a property, and lists without repetitions.
use mathlib.Core.Path.{sym}
use mathlib.Core.Logic.{◌↔◌, ◌⊎◌, inl, inr}
use mathlib.Core.List.{List, [], ◌∷◌, ◌++◌}
use bitrouter_ethglobal.Base.Lists.{IsIn, IsIn-append_iff}

-- Some element has the property.
abbrev pub Any : {A : Type 0} → (A → Type 0) → List A → Type 0
Any P [] = ⊥
Any P (x ∷ xs) = P x ⊎ Any P xs

abbrev pub Distinct : {A : Type 0} → List A → Type 0
Distinct [] = Unit
Distinct (x ∷ xs) = (IsIn x xs → ⊥) × Distinct xs

pub Distinct-snoc :
    {A : Type 0} (c : A) (xs : List A) → Distinct xs → (IsIn c xs → ⊥) → Distinct (xs ++ (c ∷ []))
Distinct-snoc c [] d n = (λ h. h, tt)
Distinct-snoc c (x ∷ xs) d n = (
  λ h. elim ((IsIn-append_iff x xs (c ∷ [])).0 h) [
    | inl k ↦ d.0 k
    | inr k ↦ elim k [ inl e ↦ n (inl (sym e)) | inr e ↦ e ]
  ],
  Distinct-snoc c xs d.1 (λ h. n (inr h)),
)

pub Any-append_iff :
    {A : Type 0} (P : A → Type 0) (xs ys : List A) → Any P (xs ++ ys) ↔ (Any P xs ⊎ Any P ys)
Any-append_iff P [] ys = (λ h. inr h, elim [ inl h ↦ absurd h | inr h ↦ h ])
Any-append_iff P (x ∷ xs) ys =
    let ih = Any-append_iff P xs ys in
    (
      elim [ inl h ↦ inl (inl h) | inr h ↦ elim (ih.0 h) [ inl k ↦ inl (inr k) | inr k ↦ inr k ] ],
      elim [
        | inl h ↦ elim h [ inl k ↦ inl k | inr k ↦ inr (ih.1 (inl k)) ]
        | inr h ↦ inr (ih.1 (inr h))
      ],
    )

pub Any-iff :
    {A : Type 0} (P Q : A → Type 0) → ((x : A) → P x ↔ Q x) → (xs : List A) → Any P xs ↔ Any Q xs
Any-iff P Q e [] = (λ h. h, λ h. h)
Any-iff P Q e (x ∷ xs) =
    let ih = Any-iff P Q e xs in
    (
      elim [ inl h ↦ inl ((e x).0 h) | inr h ↦ inr (ih.0 h) ],
      elim [ inl h ↦ inl ((e x).1 h) | inr h ↦ inr (ih.1 h) ],
    )

pub never : {A : Type 0} (P : A → Type 0) → ((x : A) → P x → ⊥) → (xs : List A) → Any P xs → ⊥
never P n [] h = h
never P n (x ∷ xs) h = elim h [ inl k ↦ n x k | inr k ↦ never P n xs k ]
