-- ===== src/Pipeline/Overrides.antt =====
-- A preset's prompt overrides are defaults.
use bitrouter_ethglobal.Base.{
  ◌≡◌, refl, sym, ◌∙◌, ap, String, Option, none, some, Bool, true, false, List, [], ◌∷◌, ◌&&◌, not,
  is_some, is_empty, or_else, lookup, insert, contains_key, lookup-insert, if◌then◌else◌, arith,
  eq_iff, str_eq, Option-cases, inl, inr,
}
use bitrouter_ethglobal.Routing.{PromptOverrides, overrides_empty}
use bitrouter_ethglobal.Pipeline.Model.{Prompt}
use bitrouter_ethglobal.Pipeline.Stages.{fill_params, apply_preset_overrides}

module _ {A : Type 0} where
  or_else-none : (o : Option A) → or_else o none ≡ o
  or_else-none none = refl
  or_else-none (some a) = refl

  or_else_if :
      (l : Option A) (b : Bool) (v : A) (m : Option A)
      → or_else (or_else l (if b then some v else none)) m ≡ or_else l (if b then some v else m)
  or_else_if none true v m = refl
  or_else_if none false v m = refl
  or_else_if (some a) b v m = refl

module _ {X : Type 0} where
  abbrev filled : {B : Type 0} → PromptOverrides X → Prompt B X → Prompt B X
  filled o p = record p {
    system = or_else p.system o.system_prompt;
    extra = fill_params p.extra o.params;
  }

  lookup-fill :
      (extra : List (String × X)) (k j : String) (v : X)
      → lookup j (if contains_key k extra then extra else insert k v extra)
        ≡ or_else (lookup j extra) (if str_eq k j then some v else none)
  lookup-fill extra k j v = elim (Option-cases (lookup k extra)) [
    | inl e ↦ rw e (lookup-insert k j v extra ∙ ground (arith, eq_iff k j))
    | inr (a, e) ↦ rw e (ground (arith, eq_iff k j))
  ]

  lookup-fill_params :
      (extra params : List (String × X)) (j : String)
      → lookup j (fill_params extra params) ≡ or_else (lookup j extra) (lookup j params)
  unfolding fill_params
  lookup-fill_params extra [] j = sym (or_else-none (lookup j extra))
  lookup-fill_params extra ((k, v) ∷ params) j =
      lookup-fill_params (if contains_key k extra then extra else insert k v extra) params j
      ∙ ap (λ o. or_else o (lookup j params)) (lookup-fill extra k j v)
      ∙ or_else_if (lookup j extra) (str_eq k j) v (lookup j params)

  apply_nonempty :
      {B : Type 0} (b : Bool) (o : PromptOverrides X) (p : Prompt B X) (j : String)
      → overrides_empty o ≡ b
      → (((if b then p else filled o p).system ≡ or_else p.system o.system_prompt)
          × (lookup j (if b then p else filled o p).extra
              ≡ or_else (lookup j p.extra) (lookup j o.params)))
  unfolding overrides_empty
  apply_nonempty false o p j h = (refl, lookup-fill_params p.extra o.params j)
  apply_nonempty true o p j h = untouched o.system_prompt o.params p.system (lookup j p.extra) h
    where
      untouched :
          (system : Option String) (params : List (String × X)) (s : Option String) (e : Option X)
          → (not (is_some system) && is_empty params) ≡ true
          → (s ≡ or_else s system) × (e ≡ or_else e (lookup j params))
      untouched none [] s e h = (sym (or_else-none s), sym (or_else-none e))
      untouched none (x ∷ params) s e h = cc
      untouched (some system) params s e h = cc

  -- Applying a preset's overrides keeps the system prompt and every extra parameter that the request
  -- sets itself, takes the preset's where the request sets none, and adds nothing else.
  pub apply_preset_overrides_lem :
      {B : Type 0} (o : PromptOverrides X) (p : Prompt B X) (j : String)
      → ((apply_preset_overrides o p).system ≡ or_else p.system o.system_prompt)
        × (lookup j (apply_preset_overrides o p).extra
            ≡ or_else (lookup j p.extra) (lookup j o.params))
  unfolding apply_preset_overrides
  apply_preset_overrides_lem o p j = apply_nonempty (overrides_empty o) o p j refl
