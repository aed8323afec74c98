-- ===== src/Mcp/Store/Linked.antt =====
-- The keys of the entries and their order in caching_executor.rs: what each change does to them.
use mathlib.Core.Path.{sym}
use bitrouter_ethglobal.Base.{
  Bool, true, List, [], ◌∷◌, ◌≡◌, ◌↔◌, ◌⊎◌, refl, inl, inr, retain, retain_iff, IsIn, Distinct,
  Bool-cases, is_some, eq_iff, ==_iff, arith,
}
use bitrouter_ethglobal.Mcp.Store.{CacheKey, key_eq, CacheEntry, get_entry, put_entry, retain_keys}

pub key_eq_iff : (a b : CacheKey) → (key_eq a b ≡ true) ↔ (a ≡ b)
key_eq_iff a b = (
  λ h. ground (
    arith,
    eq_iff a.server_name b.server_name,
    eq_iff a.method b.method,
    ==_iff a.params_hash b.params_hash,
  ),
  λ h. rw h (
      ground (
        arith,
        eq_iff b.server_name b.server_name,
        eq_iff b.method b.method,
        ==_iff b.params_hash b.params_hash,
      )),
)

module _ {X : Type 0} where
  abbrev pub keys : List (CacheKey × CacheEntry X) → List CacheKey
  keys [] = []
  keys ((k, e) ∷ es) = k ∷ keys es

  pub keys-retain :
      (p : CacheKey → Bool) (es : List (CacheKey × CacheEntry X))
      → keys (retain_keys p es) ≡ retain p (keys es)
  keys-retain p [] = refl
  keys-retain p ((k, e) ∷ es) = elim (Bool-cases (p k)) [
    | inl h ↦ rw h (rw (keys-retain p es) refl)
    | inr h ↦ rw h (keys-retain p es)
  ]

  pub keys-put_iff :
      (k : CacheKey) (e : CacheEntry X) (es : List (CacheKey × CacheEntry X)) (j : CacheKey)
      → IsIn j (keys (put_entry k e es)) ↔ ((k ≡ j) ⊎ IsIn j (keys es))
  keys-put_iff k e [] j = ground arith
  keys-put_iff k e ((i, d) ∷ es) j = elim (Bool-cases (key_eq i k)) [
    | inl h ↦ rw h (ground (arith, (key_eq_iff i k).0 h))
    | inr h ↦ rw h (ground (arith, keys-put_iff k e es j))
  ]

  pub contains_key_iff :
      (k : CacheKey) (es : List (CacheKey × CacheEntry X))
      → (is_some (get_entry k es) ≡ true) ↔ IsIn k (keys es)
  contains_key_iff k [] = ground arith
  contains_key_iff k ((i, d) ∷ es) = elim (Bool-cases (key_eq i k)) [
    | inl h ↦ rw h (ground (arith, (key_eq_iff i k).0 h))
    | inr h ↦ rw h (ground (arith, key_eq_iff i k, contains_key_iff k es))
  ]

  pub put-Distinct :
      (k : CacheKey) (e : CacheEntry X) (es : List (CacheKey × CacheEntry X))
      → Distinct (keys es)
      → Distinct (keys (put_entry k e es))
  put-Distinct k e [] d = (λ h. h, tt)
  put-Distinct k e ((i, c) ∷ es) d = elim (Bool-cases (key_eq i k)) [
    | inl h ↦ rw h (rw (sym ((key_eq_iff i k).0 h)) d)
    | inr h ↦ rw h (
      λ n. elim ((keys-put_iff k e es i).0 n) [
        | inl q ↦ ground (arith, key_eq_iff i k, sym q)
        | inr q ↦ d.0 q
      ],
      put-Distinct k e es d.1,
    )
  ]

pub retain-Distinct :
    {A : Type 0} (p : A → Bool) (xs : List A) → Distinct xs → Distinct (retain p xs)
retain-Distinct p [] d = tt
retain-Distinct p (x ∷ xs) d = elim (Bool-cases (p x)) [
  | inl h ↦ rw h (λ n. d.0 ((retain_iff p x xs).0 n).0, retain-Distinct p xs d.1)
  | inr h ↦ rw h (retain-Distinct p xs d.1)
]
