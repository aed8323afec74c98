-- ===== src/Config/Pattern/Parse.antt =====
-- Parsing a pattern loses nothing.
use Prim.Native.Char.{code}
use Prim.Native.String.{◌++◌}
use text.Mathlib.TextEquality.{Char-path, starts_with_iff}
use text.Mathlib.TextLemmas.{nil-append, cons-append}
use text.Mathlib.TextBridge.{IsPrefix}
use mathlib.Core.Option
use bitrouter_ethglobal.Base.{
  String, Option, none, some, true, ◌==◌, str_eq, eq_iff, ◌≡◌, refl, ap, sym, ◌∙◌, inl, inr,
  Bool-cases, Option-cases, eq_of_some, none-ne-some, ◌⊎◌, ◌≢◌, ==_iff, ◌↔◌,
}
use bitrouter_ethglobal.Config.Pattern.{
  Pattern, wildcard, prefix, exact, strip_star, prefix_or_exact, parse, matches,
}

-- The text of a pattern.
abbrev pub text_of : Pattern → String
text_of wildcard = "*"
text_of (prefix p) = p ++ "*"
text_of (exact e) = e

strip_star_sound : (s p : String) → strip_star s ≡ some p → p ++ "*" ≡ s
unfolding strip_star
strip_star_sound String.[] p h = cc
strip_star_sound (String.◌∷◌ c String.[]) p h = elim (Bool-cases (code c == b'*')) [
  | inl e ↦
      let c_star : c ≡ "*" = Char-path c "*" ((==_iff (code c) b'*').0 e) in
      let p_nil : "" ≡ p = eq_of_some (rw e at h) in
      rw (← p_nil) (nil-append "*" ∙ ap (λ d. String.◌∷◌ d "") (sym c_star))
  | inr e ↦ absurd (none-ne-some (rw e at h))
]
strip_star_sound (String.◌∷◌ c (String.◌∷◌ d s)) p h =
    elim (Option-cases (strip_star (String.◌∷◌ d s))) [
      | inl e ↦ absurd (none-ne-some (rw e at h))
      | inr (r, e) ↦
          let p_cons : String.◌∷◌ c r ≡ p = eq_of_some (rw e at h) in
          rw (← p_cons)
            (cons-append c r "*" ∙ ap (λ t. String.◌∷◌ c t) (strip_star_sound (String.◌∷◌ d s) r e))
    ]

text_of-prefix_or_exact :
    (s : String) (o : Option String) → strip_star s ≡ o → text_of (prefix_or_exact s o) ≡ s
text_of-prefix_or_exact s none e = refl
text_of-prefix_or_exact s (some p) e = strip_star_sound s p e

-- Every pattern text is recovered from its pattern.
pub text_of-parse : (s : String) → text_of (parse s) ≡ s
unfolding parse
text_of-parse s = elim (Bool-cases (str_eq s "*")) [
  | inl e ↦ rw e (sym ((eq_iff s "*").0 e))
  | inr e ↦ rw e (text_of-prefix_or_exact s (strip_star s) refl)
]

-- A text with the glob suffix parses to a prefix pattern or to the wildcard.
strip_star-star : (p : String) → strip_star (p ++ "*") ≡ some p
unfolding strip_star
strip_star-star String.[] = refl
strip_star-star (String.◌∷◌ c String.[]) = ap strip_star (cons-append c "" "*")
strip_star-star (String.◌∷◌ c (String.◌∷◌ d s)) =
    let ih : strip_star (String.◌∷◌ d (s ++ "*")) ≡ some (String.◌∷◌ d s) =
      ap strip_star (sym (cons-append d s "*")) ∙ strip_star-star (String.◌∷◌ d s) in
    ap strip_star (cons-append c (String.◌∷◌ d s) "*")
    ∙ (ap (λ t. strip_star (String.◌∷◌ c t)) (cons-append d s "*")
        ∙ ap (λ o. Option.map (λ r. String.◌∷◌ c r) o) ih)

-- What a glob text means: a text `p*` stands for the names with the prefix `p`, any other for itself.
abbrev pub Globs : String → String → Type 0
Globs s name =
    ((p : String) × (s ≡ p ++ "*") × IsPrefix p name) ⊎ (((p : String) → s ≢ p ++ "*") × (s ≡ name))

matches_suffix :
    (s name : String) (o : Option String)
    → strip_star s ≡ o
    → (matches (prefix_or_exact s o) name ≡ true) ↔ Globs s name
unfolding matches
matches_suffix s name none e =
    let no_star : (p : String) → s ≢ p ++ "*" =
      λ p h. none-ne-some (sym e ∙ (ap strip_star h ∙ strip_star-star p)) in
    (
      λ m. inr (no_star, (eq_iff s name).0 m),
      elim [ inl (p, h, pre) ↦ absurd (no_star p h) | inr (n, h) ↦ (eq_iff s name).1 h ],
    )
matches_suffix s name (some q) e =
    let sound : s ≡ q ++ "*" = sym (strip_star_sound s q e) in
    (
      λ m. inl (q, sound, (starts_with_iff name q).0 m),
      elim [
        | inl (p, h, pre) ↦
            rw (eq_of_some (sym e ∙ (ap strip_star h ∙ strip_star-star p)))
              ((starts_with_iff name p).1 pre)
        | inr (n, h) ↦ absurd (n q sound)
      ],
    )

-- A parsed pattern matches a name exactly if the pattern's text stands for the name.
pub matches-parse_iff : (s name : String) → (matches (parse s) name ≡ true) ↔ Globs s name
unfolding matches parse
matches-parse_iff s name = elim (Bool-cases (str_eq s "*")) [
  | inl e ↦
      rw e (
        λ m. inl ("", (eq_iff s "*").0 e ∙ sym (nil-append "*"), (name, nil-append name)),
        λ g. refl,
      )
  | inr e ↦ rw e (matches_suffix s name (strip_star s) refl)
]
