-- ===== src/Mcp/Store/Bounded.antt =====
-- The bound of the cache of one server (caching_executor.rs) as an invariant of its operations.
use mathlib.Core.Path.{sym}
use bitrouter_ethglobal.Base.{
  ℕ, String, Bool, not, List, [], ◌∷◌, ◌≡◌, ◌↔◌, ◌≤◌, leb, subst, leb→le, refl, inl, inr, length,
  retain, retain_iff, IsIn, IsIn-append_iff, Distinct, Distinct-snoc, Bool-cases, is_some, str_eq,
  arith,
}
use bitrouter_ethglobal.Mcp.Store.{
  CacheKey, key_eq, CacheEntry, ServerCache, get_entry, put_entry, retain_keys, remove_entry,
  push_order, new, trim, insert, evict_method, clear,
}
use bitrouter_ethglobal.Mcp.Store.Linked.{
  key_eq_iff, keys, keys-retain, keys-put_iff, contains_key_iff, put-Distinct, retain-Distinct,
}

module _ {X : Type 0} where
  -- The order lists the keys of the entries, each once.
  abbrev pub Linked : List CacheKey → List (CacheKey × CacheEntry X) → Type 0
  Linked ks es =
      Distinct ks × (Distinct (keys es) × ((j : CacheKey) → IsIn j ks ↔ IsIn j (keys es)))

  retain-Linked :
      (p : CacheKey → Bool) (ks : List CacheKey) (es : List (CacheKey × CacheEntry X))
      → Linked ks es
      → Linked (retain p ks) (retain_keys p es)
  retain-Linked p ks es (dk, (de, link)) = rw (keys-retain p es) (
    retain-Distinct p ks dk,
    (
      retain-Distinct p (keys es) de,
      λ j. (
        λ h.
            (retain_iff p j (keys es)).1
              ((link j).0 ((retain_iff p j ks).0 h).0, ((retain_iff p j ks).0 h).1),
        λ h.
            (retain_iff p j ks).1
              ((link j).1 ((retain_iff p j (keys es)).0 h).0, ((retain_iff p j (keys es)).0 h).1),
      ),
    ),
  )

  -- Taking the oldest key and its entry.
  pop-Linked :
      (k : CacheKey) (ks : List CacheKey) (es : List (CacheKey × CacheEntry X))
      → Linked (k ∷ ks) es
      → Linked ks (remove_entry k es)
  pop-Linked k ks es (dk, (de, link)) = rw (keys-retain (λ j. not (key_eq j k)) es) (
    dk.1,
    (
      retain-Distinct (λ j. not (key_eq j k)) (keys es) de,
      λ j. (
        λ h. (retain_iff (λ j. not (key_eq j k)) j (keys es)).1 (
          (link j).0 (inr h),
          elim (Bool-cases (key_eq j k)) [
            | inl e ↦ absurd (dk.0 (subst (λ i. IsIn i ks) ((key_eq_iff j k).0 e) h))
            | inr e ↦ rw e refl
          ],
        ),
        λ h.
            let (m, n) = (retain_iff (λ j. not (key_eq j k)) j (keys es)).0 h in
            elim ((link j).1 m) [ inl e ↦ ground (arith, key_eq_iff j k, sym e) | inr i ↦ i ],
      ),
    ),
  )

  no_keys :
      (es : List (CacheKey × CacheEntry X))
      → ((j : CacheKey) → IsIn j (keys es) → ⊥)
      → length es ≤ 0
  no_keys [] n = omega arith
  no_keys ((k, e) ∷ es) n = absurd (n k (inl refl))

  abbrev pub Bounded : ℕ → ServerCache X → Type 0
  Bounded m c = Linked c.order c.entries × ((length c.entries ≤ m) × (c.max_entries ≡ m))

  trim-Bounded :
      (m : ℕ) (ks : List CacheKey) (es : List (CacheKey × CacheEntry X))
      → Linked ks es
      → Bounded m (trim m ks es)
  unfolding trim
  trim-Bounded m [] es h = let e = no_keys es (λ j. (h.1.1 j).1) in (h, (omega (arith, e), refl))
  trim-Bounded m (k ∷ ks) es h = elim (Bool-cases (leb (length es) m)) [
    | inl e ↦ rw e (h, (leb→le (length es) m e, refl))
    | inr e ↦ rw e (trim-Bounded m ks (remove_entry k es) (pop-Linked k ks es h))
  ]

  put-Linked :
      (k : CacheKey) (e : CacheEntry X) (ks : List CacheKey) (es : List (CacheKey × CacheEntry X))
      → Linked ks es
      → Linked (push_order (is_some (get_entry k es)) k ks) (put_entry k e es)
  put-Linked k e ks es (dk, (de, link)) = elim (Bool-cases (is_some (get_entry k es))) [
    | inl p ↦ rw p (
      dk,
      (
        put-Distinct k e es de,
        λ j. (
          λ h. (keys-put_iff k e es j).1 (inr ((link j).0 h)),
          λ h. elim ((keys-put_iff k e es j).0 h) [
            | inl q ↦ subst (λ i. IsIn i ks) q ((link k).1 ((contains_key_iff k es).0 p))
            | inr q ↦ (link j).1 q
          ],
        ),
      ),
    )
    | inr p ↦ rw p (
      Distinct-snoc k ks dk (λ h. ground (arith, contains_key_iff k es, (link k).0 h)),
      (
        put-Distinct k e es de,
        λ j. (
          λ h. (keys-put_iff k e es j).1 (elim ((IsIn-append_iff j ks (k ∷ [])).0 h) [
            | inl q ↦ inr ((link j).0 q)
            | inr q ↦ elim q [ inl r ↦ inl r | inr r ↦ absurd r ]
          ]),
          λ h. (IsIn-append_iff j ks (k ∷ [])).1 (elim ((keys-put_iff k e es j).0 h) [
            | inl q ↦ inr (inl q)
            | inr q ↦ inl ((link j).1 q)
          ]),
        ),
      ),
    )
  ]

  pub insert-Bounded :
      (m : ℕ) (k : CacheKey) (e : CacheEntry X) (c : ServerCache X)
      → Bounded m c
      → Bounded m (insert k e c)
  unfolding insert
  insert-Bounded m k e c (l, (b, q)) =
      subst (λ n. Bounded n (insert k e c)) q
        (trim-Bounded c.max_entries _ _ (put-Linked k e c.order c.entries l))

  length-retain :
      (p : CacheKey → Bool) (es : List (CacheKey × CacheEntry X))
      → length (retain_keys p es) ≤ length es
  length-retain p [] = omega arith
  length-retain p ((k, e) ∷ es) = ground (arith, length-retain p es)

  pub evict_method-Bounded :
      (m : ℕ) (method : String) (c : ServerCache X)
      → Bounded m c
      → Bounded m (evict_method method c)
  unfolding evict_method
  evict_method-Bounded m method c (l, (b, q)) =
      let p = λ (k : CacheKey). not (str_eq k.method method) in
      (retain-Linked p c.order c.entries l, (omega (arith, b, length-retain p c.entries), q))

  pub clear-Bounded : (m : ℕ) (c : ServerCache X) → Bounded m c → Bounded m (clear c)
  unfolding clear
  clear-Bounded m c (l, (b, q)) = ((tt, (tt, λ j. (λ h. h, λ h. h))), (omega arith, q))

pub new-Bounded : (X : Type 0) (m : ℕ) → Bounded {X = X} m (new m)
unfolding new
new-Bounded X m = ((tt, (tt, λ j. (λ h. h, λ h. h))), (omega arith, refl))
