-- ===== src/Config/Presets/Tests.antt =====
-- A preset with a variant of the configuration.
use bitrouter_ethglobal.Base.{ℕ, String, ◌≢◌, none, some, List, [], ◌∷◌}
use bitrouter_ethglobal.Routing.{SortOrder}
use bitrouter_ethglobal.Config.Model.{RoutingConfig, PresetConfig}
use bitrouter_ethglobal.Config.Presets.{PresetResolution, resolve_presets}
use bitrouter_ethglobal.Config.Presets.Names.{Rejects400, resolve_presets-Rejects400}

abbrev quiet : RoutingConfig
quiet = record { sort = none; require_tags = []; only = []; ignore = [] }

abbrev presets : List (String × PresetConfig ℕ)
presets =
    (
      "careful",
      record {
        model = some "gpt-5";
        system_prompt = some "be careful";
        params = [];
        routing = quiet;
      },
    )
    ∷ []

abbrev variants : List (String × RoutingConfig)
variants = ("free", record quiet { sort = some SortOrder.cost }) ∷ []

resolve_presets-Rejects400_example :
    Rejects400
      (λ (r : PresetResolution ℕ (Unit {0})). r.clean_model ≢ "")
      (resolve_presets (Unit {0}) "@careful:free" presets variants)
resolve_presets-Rejects400_example =
    resolve_presets-Rejects400 (Unit {0}) "@careful:free" presets variants
