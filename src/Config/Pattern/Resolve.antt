-- ===== src/Config/Pattern/Resolve.antt =====
-- Which entry of a pattern map answers for a name.
use Prim.Native.String.{len}
use mathlib.Core.Option
use bitrouter_ethglobal.Base.{
  ℕ, ◌^◌, ◌≤◌, ◌<◌, ◌≡◌, ◌⊎◌, inl, inr, refl, String, Option, none, some, true, false, List, [],
  ◌∷◌, ◌++◌, subst, retain, All, max_by_key, Picks, max_by_key-retain, max_by_key-retain-eq-none,
  arith,
}
use bitrouter_ethglobal.Config.Pattern.{
  Pattern, wildcard, prefix, exact, matches, specificity, entry_matches, entry_specificity, resolve,
}

-- The first pattern is no more, or less, specific than the second: an exact name comes before every
-- prefix, a longer prefix before a shorter one, and the wildcard last.
abbrev pub NoMoreSpecific : Pattern → Pattern → Type 0
NoMoreSpecific wildcard b = Unit
NoMoreSpecific (prefix p) wildcard = ⊥
NoMoreSpecific (prefix p) (prefix q) = len p ≤ len q
NoMoreSpecific (prefix p) (exact f) = Unit
NoMoreSpecific (exact e) (exact f) = Unit
NoMoreSpecific (exact e) b = ⊥

abbrev pub LessSpecific : Pattern → Pattern → Type 0
LessSpecific wildcard wildcard = ⊥
LessSpecific wildcard b = Unit
LessSpecific (prefix p) wildcard = ⊥
LessSpecific (prefix p) (prefix q) = len p < len q
LessSpecific (prefix p) (exact f) = Unit
LessSpecific (exact e) b = ⊥

-- A string of Rust has fewer than 2 ^ 63 bytes.
abbrev pub Sized : Pattern → Type 0
Sized (prefix p) = len p < 2 ^ 63
Sized p = Unit

le-NoMoreSpecific :
    (a b : Pattern) → Sized a → Sized b → specificity a ≤ specificity b → NoMoreSpecific a b
unfolding specificity
le-NoMoreSpecific wildcard b s t h = tt
le-NoMoreSpecific (prefix p) wildcard s t h = omega arith
le-NoMoreSpecific (prefix p) (prefix q) s t h = omega arith
le-NoMoreSpecific (prefix p) (exact f) s t h = tt
le-NoMoreSpecific (exact e) wildcard s t h = omega arith
le-NoMoreSpecific (exact e) (prefix q) s t h = omega arith
le-NoMoreSpecific (exact e) (exact f) s t h = tt

lt-LessSpecific :
    (a b : Pattern) → Sized a → Sized b → specificity a < specificity b → LessSpecific a b
unfolding specificity
lt-LessSpecific wildcard wildcard s t h = omega arith
lt-LessSpecific wildcard (prefix q) s t h = tt
lt-LessSpecific wildcard (exact f) s t h = tt
lt-LessSpecific (prefix p) wildcard s t h = omega arith
lt-LessSpecific (prefix p) (prefix q) s t h = omega arith
lt-LessSpecific (prefix p) (exact f) s t h = tt
lt-LessSpecific (exact e) wildcard s t h = omega arith
lt-LessSpecific (exact e) (prefix q) s t h = omega arith
lt-LessSpecific (exact e) (exact f) s t h = omega arith

module _ {T : Type 0} (name : String) where
  abbrev pub Misses : Pattern × T → Type 0
  Misses e = matches e.0 name ≡ false

  -- The entry matches; of the matching entries none before it is more specific, and every one after
  -- it is less specific.
  pub record MostSpecific (entries : List (Pattern × T)) (a : Pattern × T) : Type 0 where
    pub before : List (Pattern × T)
    pub after : List (Pattern × T)
    pub split : entries ≡ before ++ (a ∷ after)
    pub matching : matches a.0 name ≡ true
    pub no_more : All (λ e. Misses e ⊎ NoMoreSpecific e.0 a.0) before
    pub less : All (λ e. Misses e ⊎ LessSpecific e.0 a.0) after

  All-ranks :
      (Less : ℕ → ℕ → Type 0) (Ranks : Pattern → Pattern → Type 0)
      → ((a b : Pattern) → Sized a → Sized b → Less (specificity a) (specificity b) → Ranks a b)
      → (a : Pattern) (es : List (Pattern × T)) → Sized a
      → All (λ e. Sized e.0) es
      → All (λ e. Misses e ⊎ Less (entry_specificity e) (specificity a)) es
      → All (λ e. Misses e ⊎ Ranks e.0 a) es
  All-ranks Less Ranks f a [] s t h = tt
  All-ranks Less Ranks f a (e ∷ es) s t (inl m, h) = (inl m, All-ranks Less Ranks f a es s t.1 h)
  All-ranks Less Ranks f a (e ∷ es) s t (inr k, h) =
      (inr (f e.0 a t.0 s k), All-ranks Less Ranks f a es s t.1 h)

  All-split :
      (P : Pattern × T → Type 0) (xs ys : List (Pattern × T))
      → All P (xs ++ ys)
      → All P xs × All P ys
  All-split P [] ys h = (tt, h)
  All-split P (x ∷ xs) ys h = let r = All-split P xs ys h.1 in ((h.0, r.0), r.1)

  MostSpecific-of_Picks :
      (entries : List (Pattern × T)) (a : Pattern × T)
      → All (λ e. Sized e.0) entries
      → Picks (entry_matches name) entry_specificity entries a
      → MostSpecific entries a
  MostSpecific-of_Picks entries a s m =
      let parts =
        All-split (λ e. Sized e.0) m.before (a ∷ m.after)
          (subst (All (λ e. Sized e.0)) m.split s) in
      record {
        before = m.before;
        after = m.after;
        split = m.split;
        matching = m.kept;
        no_more =
            All-ranks (λ x y. x ≤ y) NoMoreSpecific le-NoMoreSpecific a.0 m.before parts.1.0 parts.0
              m.le_before;
        less =
            All-ranks (λ x y. x < y) LessSpecific lt-LessSpecific a.0 m.after parts.1.0 parts.1.1
              m.lt_after;
      }

module _ {T : Type 0} (entries : List (Pattern × T)) (name : String) where
  abbrev pub Answers : Option T → Type 0
  Answers none = All (Misses name) entries
  Answers (some v) = (pattern : Pattern) × MostSpecific name entries (pattern, v)

  Answers-of_pick :
      (o : Option (Pattern × T))
      → All (λ e. Sized e.0) entries
      → max_by_key entry_specificity (retain (entry_matches name) entries) ≡ o
      → Answers (Option.map (λ e. e.1) o)
  Answers-of_pick none s e =
      max_by_key-retain-eq-none (entry_matches name) entry_specificity entries e
  Answers-of_pick (some (pattern, v)) s e = (
    pattern,
    MostSpecific-of_Picks name entries (pattern, v) s
        (max_by_key-retain (entry_matches name) entry_specificity entries e),
  )

  -- Resolving a name answers with the value of the most specific matching entry, the last of several
  -- that are equally specific, and with nothing exactly if no entry matches. An exact name is more
  -- specific than a prefix, a longer prefix more than a shorter one, and every other pattern more
  -- than the wildcard. The prefixes have fewer than 2 ^ 63 bytes.
  pub resolve-Answers :
      All (λ (e : Pattern × T). Sized e.0) entries → Answers (resolve entries name)
  unfolding resolve
  resolve-Answers sized = Answers-of_pick _ sized refl
