-- ===== src/Config/Presets/Names.antt =====
-- What the resolution of a model name guarantees.
use bitrouter_ethglobal.Base.{
  ◌≡◌, ◌≢◌, refl, sym, ◌∙◌, String, Option, none, some, true, false, List, str_eq, eq_iff,
  Bool-cases, inl, inr, or_else, lookup,
}
use bitrouter_ethglobal.Error.{status, Result, ok, err, ◌>>=◌}
use bitrouter_ethglobal.Config.Model.{RoutingConfig, PresetConfig}
use bitrouter_ethglobal.Config.Presets.{
  PresetResolution, found_preset, find_preset, chosen_name, clean_name, resolve_presets, variant_of,
  rsplit_once, strip_at, base_of, preset_model,
}

true-ne-false : ¬ (true ≡ false)
true-ne-false h = cc

-- An error is a client error with status 400.
abbrev pub Rejects400 : {A : Type 0} → (A → Type 0) → Result A → Type 0
Rejects400 P (ok a) = P a
Rejects400 P (err e) = status e ≡ 400

bind-Rejects400 :
    {A D : Type 0} (P : A → Type 0) (Q : D → Type 0) (r : Result A) (k : A → Result D)
    → Rejects400 P r
    → ((a : A) → P a → Rejects400 Q (k a))
    → Rejects400 Q (r >>= k)
bind-Rejects400 P Q (ok a) k h next = next a h
bind-Rejects400 P Q (err e) k h next = h

found_preset-Rejects400 :
    {X : Type 0} (name : String) (o : Option (PresetConfig X))
    → Rejects400 (λ p. Unit {0}) (found_preset name o)
unfolding status
found_preset-Rejects400 name none = refl
found_preset-Rejects400 name (some p) = tt

find_preset-Rejects400 :
    {X : Type 0} (presets : List (String × PresetConfig X)) (name : Option String)
    → Rejects400 (λ p. Unit {0}) (find_preset presets name)
find_preset-Rejects400 presets none = tt
find_preset-Rejects400 presets (some name) = found_preset-Rejects400 name (lookup name presets)

chosen_name-Rejects400 :
    (preset_name o : Option String) → Rejects400 (λ name. name ≢ "") (chosen_name preset_name o)
unfolding status
chosen_name-Rejects400 preset_name none = refl
chosen_name-Rejects400 preset_name (some name) = elim (Bool-cases (str_eq name "")) [
  | inl e ↦ rw e refl
  | inr e ↦ rw e (λ h. true-ne-false (sym ((eq_iff name "").1 h) ∙ e))
]

-- Whatever a request's model name, and the presets and variants that are configured, the name either
-- resolves to a clean name that is not empty, or the request is rejected with status 400.
pub resolve_presets-Rejects400 :
    {X : Type 0} (K : Type 0) (raw : String) (presets : List (String × PresetConfig X))
    (variants : List (String × RoutingConfig))
    → Rejects400
        (λ (r : PresetResolution X K). r.clean_model ≢ "")
        (resolve_presets K raw presets variants)
unfolding resolve_presets
resolve_presets-Rejects400 K raw presets variants =
    let head = (variant_of variants raw (rsplit_once raw)).0 in
    let preset_name = strip_at head in
    bind-Rejects400 (λ p. Unit {0}) _ (find_preset presets preset_name) _
      (find_preset-Rejects400 presets preset_name)
      (λ preset u.
        bind-Rejects400 (λ name. name ≢ "") _
          (clean_name (preset_model preset) (base_of head preset_name) preset_name) _
          (chosen_name-Rejects400 preset_name
            (or_else (preset_model preset) (base_of head preset_name)))
          (λ name h. h))
