-- ===== src/Types/Pushed.antt =====
-- crates/bitrouter-sdk/src/language_model/types.rs: lists of capabilities that grow without repetition.
use bitrouter_ethglobal.Base.{
  Any, Distinct, Distinct-snoc, Option, none, some, Bool, true, false, List, [], ◌∷◌, ◌≡◌, refl, ap,
  ◌↔◌, ◌⊎◌, inl, inr, IsIn, IsIn-append_iff, arith, Bool-cases, eq_of_some, none-ne-some,
}
use bitrouter_ethglobal.Types.Capabilities.{
  Capability, Capability-discrete, has, push_capability, push_all,
}

pub has_iff : (caps : List Capability) (c : Capability) → (has caps c ≡ true) ↔ IsIn c caps
unfolding has
has_iff [] c = ground arith
has_iff (d ∷ caps) c =
    elim (Capability-discrete d c)
      as (λ e. (elim e [ yes _ ↦ true | no _ ↦ has caps c ] ≡ true) ↔ ((d ≡ c) ⊎ IsIn c caps)) [
        | yes e ↦ (λ h. inl e, λ h. refl)
        | no n ↦ (
          λ h. inr ((has_iff caps c).0 h),
          elim [ inl e ↦ absurd (n e) | inr h ↦ (has_iff caps c).1 h ],
        )
      ]

pub push_new_lem :
    (caps : List Capability) (o : Option Capability) (c : Capability)
    → IsIn c (push_capability caps o) ↔ (IsIn c caps ⊎ (o ≡ some c))
push_new_lem caps none c = (λ h. inl h, elim [ inl h ↦ h | inr e ↦ absurd (none-ne-some e) ])
push_new_lem caps (some d) c = elim (Bool-cases (has caps d)) [
  | inl e ↦
      rw e (λ h. inl h, elim [ inl h ↦ h | inr k ↦ rw (eq_of_some k) at ((has_iff caps d).0 e) ])
  | inr e ↦ rw e (
    λ h. elim ((IsIn-append_iff c caps (d ∷ [])).0 h) [
      | inl k ↦ inl k
      | inr k ↦ elim k [ inl p ↦ inr (ap some p) | inr p ↦ absurd p ]
    ],
    elim [
      | inl h ↦ (IsIn-append_iff c caps (d ∷ [])).1 (inl h)
      | inr k ↦ (IsIn-append_iff c caps (d ∷ [])).1 (inr (inl (eq_of_some k)))
    ],
  )
]

pub push_capability-Distinct :
    (caps : List Capability) (o : Option Capability)
    → Distinct caps
    → Distinct (push_capability caps o)
push_capability-Distinct caps none d = d
push_capability-Distinct caps (some c) d = elim (Bool-cases (has caps c)) [
  | inl e ↦ rw e d
  | inr e ↦ rw e (Distinct-snoc c caps d (λ h. absent e ((has_iff caps c).1 h)))
]
  where
    absent : {b : Bool} → b ≡ false → b ≡ true → ⊥
    absent p q = cc

pub push_all_iff :
    {A : Type 0} (f : A → Option Capability) (caps : List Capability) (xs : List A) (c : Capability)
    → IsIn c (push_all f caps xs) ↔ (IsIn c caps ⊎ Any (λ x. f x ≡ some c) xs)
unfolding push_all
push_all_iff f caps [] c = (λ h. inl h, elim [ inl h ↦ h | inr h ↦ absurd h ])
push_all_iff f caps (x ∷ xs) c =
    let ih = push_all_iff f (push_capability caps (f x)) xs c in
    let step = push_new_lem caps (f x) c in
    (
      λ h. elim (ih.0 h) [
        | inl k ↦ elim (step.0 k) [ inl a ↦ inl a | inr e ↦ inr (inl e) ]
        | inr k ↦ inr (inr k)
      ],
      elim [
        | inl h ↦ ih.1 (inl (step.1 (inl h)))
        | inr h ↦ elim h [ inl e ↦ ih.1 (inl (step.1 (inr e))) | inr k ↦ ih.1 (inr k) ]
      ],
    )

pub push_all-Distinct :
    {A : Type 0} (f : A → Option Capability) (caps : List Capability) (xs : List A)
    → Distinct caps
    → Distinct (push_all f caps xs)
unfolding push_all
push_all-Distinct f caps [] d = d
push_all-Distinct f caps (x ∷ xs) d =
    push_all-Distinct f (push_capability caps (f x)) xs (push_capability-Distinct caps (f x) d)
