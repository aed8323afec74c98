-- ===== src/Guardrails/Window.antt =====
-- plugins/bitrouter-guardrails/src/rules.rs: what the window of a SlidingWindowMatcher holds.
use Prim.Native.Char.{Char}
use Prim.Native.String.{◌++◌ as append}
use text.Mathlib.TextLemmas.{nil-append, cons-append}
use bitrouter_ethglobal.Base.{
  ℕ, zero, suc, ◌+◌, ◌-◌, ◌≤◌, ◌<◌, min, String, List, [], ◌∷◌, ◌++◌, ◌≡◌, ◌≢◌, refl, sym, ap, ◌∙◌,
  ◌⊎◌, inl, inr, drop, length, length-append, append_assoc, append-nil, arith,
}
use bitrouter_ethglobal.Guardrails.{chars, collect, slide, carry_chars}

pub chars-append : (s t : String) → chars (append s t) ≡ chars s ++ chars t
unfolding chars
chars-append String.[] t = ap chars (nil-append t)
chars-append (String.◌∷◌ c s) t =
    ap chars (cons-append c s t) ∙ ap (λ cs. c ∷ cs) (chars-append s t)

pub chars-collect : (cs : List Char) → chars (collect cs) ≡ cs
unfolding chars collect
chars-collect [] = refl
chars-collect (c ∷ cs) = ap (λ ds. c ∷ ds) (chars-collect cs)

module _ {A : Type 0} where
  -- A dropped prefix can be put back.
  drop_lem :
      (n : ℕ) (xs : List A)
      → n ≤ length xs
      → (pre : List A) × (xs ≡ pre ++ drop n xs) × (length pre ≡ n)
  drop_lem zero xs h = ([], refl, refl)
  drop_lem (suc n) [] h = absurd (omega arith)
  drop_lem (suc n) (x ∷ xs) h =
      let ih = drop_lem n xs (omega arith) in (x ∷ ih.0, ap (λ ys. x ∷ ys) ih.1, ap suc ih.2)

  -- Where two ways to cut a list meet.
  pub append-split :
      (x y u v : List A)
      → x ++ y ≡ u ++ v
      → ((t : List A) × (u ≡ x ++ t) × (y ≡ t ++ v)) ⊎ ((t : List A) × (x ≡ u ++ t) × (v ≡ t ++ y))
  append-split [] y u v e = inl (u, refl, e)
  append-split (a ∷ x) y [] v e = inr (a ∷ x, refl, sym e)
  append-split (a ∷ x) y (b ∷ u) v e =
      let same : a ≡ b = cc in
      let ih = append-split x y u v cc in
      elim ih [
        | inl (t, p, q) ↦ inl (t, λ i. sym same i ∷ p i, q)
        | inr (t, p, q) ↦ inr (t, λ i. same i ∷ p i, q)
      ]

  abbrev pub Occurs : List A → List A → Type 0
  Occurs w t = (a : List A) × (b : List A) × (t ≡ a ++ (w ++ b))

  -- The window is a suffix of what was seen, of full length unless it is all of it.
  abbrev pub Window : List A → List A → Type 0
  Window seen carry =
      (pre : List A) × (seen ≡ pre ++ carry) × ((pre ≡ []) ⊎ (length carry ≡ carry_chars))

  nil_of_length : (xs : List A) → length xs ≡ 0 → xs ≡ []
  nil_of_length [] h = refl
  nil_of_length (x ∷ xs) h = absurd (omega arith)

  -- An occurrence that the next text completes lies in the window and that text.
  pub Occurs-Window :
      (w seen carry ds : List A)
      → Window seen carry
      → (Occurs w seen → ⊥)
      → length w ≤ carry_chars + 1
      → Occurs w (seen ++ ds)
      → Occurs w (carry ++ ds)
  Occurs-Window w seen carry ds (pre, e, full) new short (a, b, o) =
      elim (append-split pre (carry ++ ds) a (w ++ b)
        (sym (append_assoc pre carry ds) ∙ (ap (λ ys. ys ++ ds) (sym e) ∙ o))) [
          | inl (t, p, q) ↦ (t, b, q)
          | inr (t, p, q) ↦ inside t p q
        ]
    where
      inside : (t : List A) → pre ≡ a ++ t → w ++ b ≡ t ++ (carry ++ ds) → Occurs w (carry ++ ds)
      inside [] p q = ([], b, sym q)
      inside (x ∷ t) p q =
          let long : length carry ≡ carry_chars = elim full [
            | inl z ↦ absurd (nonempty a (sym p ∙ z))
            | inr f ↦ f
          ] in
          let seen_cut : seen ≡ a ++ ((x ∷ t) ++ carry) =
            e ∙ (ap (λ ys. ys ++ carry) p ∙ append_assoc a (x ∷ t) carry) in
          absurd (
            new
              (elim (append-split w b ((x ∷ t) ++ carry) ds
                (q ∙ sym (append_assoc (x ∷ t) carry ds))) [
                  | inl (u, f, g) ↦ (a, u, seen_cut ∙ ap (λ ys. a ++ ys) f)
                  | inr (u, f, g) ↦
                      let over : length w ≡ length ((x ∷ t) ++ carry) + length u =
                        ap length f ∙ length-append ((x ∷ t) ++ carry) u in
                      let all : length (t ++ carry) ≡ length t + length carry =
                        length-append t carry in
                      let none_over : u ≡ [] = nil_of_length u (omega arith) in
                      (
                        a,
                        [],
                        seen_cut
                            ∙ ap (λ ys. a ++ ys)
                                (sym (append-nil ((x ∷ t) ++ carry))
                                  ∙ (ap (λ ys. ((x ∷ t) ++ carry) ++ ys) (sym none_over)
                                      ∙ (sym f ∙ sym (append-nil w)))),
                      )
                ]))
        where
          nonempty : (ys : List A) → ys ++ (x ∷ t) ≡ [] → ⊥
          nonempty [] h = cc
          nonempty (y ∷ ys) h = cc

pub Occurs-nil : {A : Type 0} (w : List A) → w ≢ [] → Occurs w [] → ⊥
Occurs-nil [] n o = n refl
Occurs-nil (x ∷ w) n ([], b, h) = cc
Occurs-nil (x ∷ w) n (y ∷ a, b, h) = cc

below : (a b : ℕ) → (a < b) ⊎ (b ≤ a)
below a b = grind arith

-- The window after a delta is again a window on what was seen.
pub slide-Window :
    (seen carry ds : List Char) → Window seen carry → Window (seen ++ ds) (slide (carry ++ ds))
unfolding slide
slide-Window seen carry ds (pre, e, full) =
    let cs = carry ++ ds in
    let kept = drop (length cs - min (length cs) carry_chars) cs in
    let cut = drop_lem (length cs - min (length cs) carry_chars) cs (omega arith) in
    let sizes : length cs ≡ length cut.0 + length kept =
      ap length cut.1 ∙ length-append cut.0 kept in
    (
      pre ++ cut.0,
      rw e (
          append_assoc pre carry ds
          ∙ (ap (λ ys. pre ++ ys) cut.1 ∙ sym (append_assoc pre cut.0 kept))),
      fullness pre cut.0 kept full sizes cut.2,
    )
  where
    fullness :
        (pre cut kept : List Char)
        → ((pre ≡ []) ⊎ (length carry ≡ carry_chars))
        → length (carry ++ ds) ≡ length cut + length kept
        → length cut ≡ length (carry ++ ds) - min (length (carry ++ ds)) carry_chars
        → ((pre ++ cut) ≡ []) ⊎ (length kept ≡ carry_chars)
    fullness pre cut kept f p q = elim (below (length (carry ++ ds)) carry_chars) [
      | inl short ↦ elim f [
        | inl none_before ↦ inl (rw none_before (nil_of_length cut (omega arith)))
        | inr long ↦ absurd (omega (arith, length-append carry ds))
      ]
      | inr long ↦ inr (omega arith)
    ]
