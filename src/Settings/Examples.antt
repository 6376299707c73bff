-- ===== src/Settings/Examples.antt =====
-- Runs of the configuration and of the strategy catalog.
use cheburnet.Base.{true, List, [], ◌∷◌, ◌++◌, ◌≡◌, refl, Bytes, codes}
use cheburnet.Json.Parser.{parser_code}
use cheburnet.Settings.Config.{
  Config, config, IsValid, parse_config, serialize_config, default_ui, default_update, all, off,
  settings_code,
}
use cheburnet.Settings.Config.Valid.{parse_config-IsValid}
use cheburnet.Settings.Strategies.{
  RuntimeStrategy, valid_template_token, valid_source_name, build_argument, strategies_code,
}
use cheburnet.Settings.Strategies.Catalog.{load_catalog-IsCatalog, IsCatalog, ids_of}
use cheburnet.Update.Package.{member}

abbrev legacy_config : Config
legacy_config = record {
  strategy_id = codes "general";
  game_filter = all;
  update = default_update;
  ui = record default_ui { speed = codes "fast" };
}

parse_config-IsValid_example : IsValid legacy_config
unfolding parser_code settings_code
parse_config-IsValid_example =
    parse_config-IsValid
      (codes "{\"strategy\":\"general\",\"gameFilter\":true,\"ui\":{\"animation_speed\":\"fast\"}}")
      {c = legacy_config} refl

-- The conversion of ASCII text.
abbrev same : Bytes → Bytes
same text = text

abbrev one_strategy : List RuntimeStrategy
one_strategy =
    record {
      id = codes "general";
      source_file = codes "a.bat";
      display_name = codes "A";
      description = codes "from a.bat";
      recommended = true;
      arg_template = codes "--x=%BIN%f" ∷ [];
    }
    ∷ []

load_catalog-IsCatalog_example :
    IsCatalog one_strategy × (member (codes "general") (ids_of [] one_strategy) ≡ true)
unfolding parser_code strategies_code
load_catalog-IsCatalog_example =
    load_catalog-IsCatalog same (codes "from ") 1
      (codes
        "{\"schema\":1,\"strategies\":[{\"id\":\"general\",\"source\":\"a.bat\",\"name\":\"A\",\"recommended\":true,\"argv\":[\"--x=%BIN%f\"]}]}")
      {ss = one_strategy} refl

-- A placeholder inside another is erased first, and what is left joins to one that is erased next;
-- but only the inner one is replaced for the launch, and a percent sign is left.
nested_placeholder :
    (valid_template_token (codes "%LI%BIN%STS%") ≡ true)
    × (build_argument (codes "b") (codes "l") off [] (codes "%LI%BIN%STS%") ≡ codes "%LIb\\STS%")
unfolding strategies_code
nested_placeholder = (refl, refl)

-- A NUL in the name of a source passes.
nul_in_source : valid_source_name (codes "a" ++ (0 ∷ codes ".bat")) ≡ true
unfolding strategies_code
nul_in_source = refl

-- What is saved is read back.
saved : parse_config (serialize_config (codes "1.0.0-rc.3") legacy_config) ≡ config legacy_config
unfolding parser_code settings_code
saved = refl
