-- ===== src/Settings/Config.antt =====
-- config/Config.h and the pure part of config/Config.cpp: `ParseConfig` and `SerializeConfig`.
pub mod Valid
use cheburnet.Base.{
  ℕ, zero, suc, ◌+◌, ◌*◌, ◌≤◌, ◌≡◌, refl, ◌≢◌, ◌↔◌, ◌⊎◌, inl, inr, Bool, true, false, not, ◌&&◌,
  ◌||◌, Option, none, some, List, [], ◌∷◌, ◌++◌, arith, Bytes, codes, length, is_empty, every,
  bytes_eq, ltb, ◌==◌, within, if◌then◌else◌,
}
use cheburnet.Json.{
  lookup, JsonError, Result, ok, err, Value, Fields, find, as_object, as_string, as_bool, is_null,
}
use cheburnet.Json.Text.{quote}
use cheburnet.Json.Parser.{ParseOptions, parse}

pub data GameFilterMode : Type 0 where
  off all tcp udp : GameFilterMode

pub data UpdateMode : Type 0 where
  notify download automatic disabled : UpdateMode

pub record UiSettings : Type 0 where
  pub animations : Bool
  pub reduced_motion : Bool
  pub glitch : Bool
  pub mascot_idle : Bool
  pub speed : Bytes
  pub unicode_mode : Bytes

pub record UpdateSettings : Type 0 where
  pub channel : Bytes
  pub mode : UpdateMode
  pub check_on_start : Bool
  pub skipped_payload_version : Bytes

pub record Config : Type 0 where
  pub strategy_id : Bytes
  pub game_filter : GameFilterMode
  pub update : UpdateSettings
  pub ui : UiSettings

-- The defaults of the members.
abbrev pub default_ui : UiSettings
default_ui = record {
  animations = true;
  reduced_motion = false;
  glitch = true;
  mascot_idle = true;
  speed = codes "normal";
  unicode_mode = codes "auto";
}

abbrev pub default_update : UpdateSettings
default_update = record {
  channel = codes "stable";
  mode = notify;
  check_on_start = true;
  skipped_payload_version = [];
}

unfoldable pub parse_game_filter : Bytes → Option GameFilterMode
parse_game_filter value =
    if bytes_eq value (codes "off")
    then some off
    else if bytes_eq value (codes "all")
    then some all
    else if bytes_eq value (codes "tcp")
    then some tcp
    else if bytes_eq value (codes "udp")
    then some udp
    else none

unfoldable pub parse_update_mode : Bytes → Option UpdateMode
parse_update_mode value =
    if bytes_eq value (codes "notify")
    then some notify
    else if bytes_eq value (codes "download")
    then some download
    else if bytes_eq value (codes "automatic")
    then some automatic
    else if bytes_eq value (codes "disabled")
    then some disabled
    else none

unfoldable pub game_filter_mode_name : GameFilterMode → Bytes
game_filter_mode_name off = codes "off"
game_filter_mode_name all = codes "all"
game_filter_mode_name tcp = codes "tcp"
game_filter_mode_name udp = codes "udp"

unfoldable pub update_mode_name : UpdateMode → Bytes
update_mode_name notify = codes "notify"
update_mode_name download = codes "download"
update_mode_name automatic = codes "automatic"
update_mode_name disabled = codes "disabled"

abbrev pub is_id_char : ℕ → Bool
is_id_char c =
    within b'a' b'z' c || (within b'A' b'Z' c || (within b'0' b'9' c || (c == b'_' || c == b'-')))

unfoldable pub is_valid_strategy_id_syntax : Bytes → Bool
is_valid_strategy_id_syntax id = not (is_empty id || ltb 64 (length id)) && every is_id_char id

abbrev then_string : Option Value → Option Bytes
then_string none = none
then_string (some v) = as_string v

abbrev then_bool : Option Value → Option Bool
then_bool none = none
then_bool (some v) = as_bool v

unfoldable pub string_member : Value → Bytes → Option Bytes
string_member members key = then_string (find members key)

unfoldable pub bool_member : Value → Bytes → Option Bool
bool_member members key = then_bool (find members key)

pub data ConfigError : Type 0 where
  unreadable : JsonError → ConfigError
  not_an_object bad_strategy bad_game_filter bad_game_filter_type bad_ui bad_update : ConfigError

pub data ConfigResult (A : Type 0) : Type 0 where
  config : A → ConfigResult A
  refused : ConfigError → ConfigResult A

infixl 5 ◌>>=◌
abbrev pub ◌>>=◌ : {A B : Type 0} → ConfigResult A → (A → ConfigResult B) → ConfigResult B
config a >>= f = f a
refused why >>= f = refused why

-- `if (value) target = *value`
abbrev or_default : {A : Type 0} → A → Option A → A
or_default a none = a
or_default a (some b) = b

-- `if (value && allowed) target = *value`
abbrev if_allowed : Bytes → (Bytes → Bool) → Option Bytes → Bytes
if_allowed a p none = a
if_allowed a p (some b) = if p b then b else a

abbrev one_of : List Bytes → Bytes → Bool
one_of [] value = false
one_of (x ∷ xs) value = bytes_eq value x || one_of xs value

abbrev speeds : List Bytes
speeds = codes "slow" ∷ codes "normal" ∷ codes "fast" ∷ []

abbrev unicode_modes : List Bytes
unicode_modes = codes "auto" ∷ codes "unicode" ∷ codes "ascii" ∷ []

abbrev from_mode : Option GameFilterMode → ConfigResult GameFilterMode
from_mode none = refused bad_game_filter
from_mode (some mode) = config mode

unfoldable pub read_game_filter : Option Value → ConfigResult GameFilterMode
read_game_filter none = config off
read_game_filter (some game) = elim (as_string game) [
  | some mode ↦ from_mode (parse_game_filter mode)
  | none ↦ elim (as_bool game) [
    | some legacy ↦ config (if legacy then all else off)
    | none ↦ refused bad_game_filter_type
  ]
]

unfoldable pub read_ui : Option Value → ConfigResult UiSettings
read_ui none = config default_ui
read_ui (some ui) = elim (as_object ui) [
  | none ↦ refused bad_ui
  | some fields ↦ config (record {
    animations = or_default true (bool_member ui (codes "animations"));
    reduced_motion = or_default false (bool_member ui (codes "reduced_motion"));
    glitch = or_default true (bool_member ui (codes "glitch_effects"));
    mascot_idle = or_default true (bool_member ui (codes "mascot_idle"));
    speed =
        if_allowed (codes "normal") (one_of speeds) (string_member ui (codes "animation_speed"));
    unicode_mode =
        if_allowed (codes "auto") (one_of unicode_modes) (string_member ui (codes "unicode_mode"));
  })
]

-- A member that is neither a string nor null clears the version, which is empty already.
abbrev skipped_version : Option Value → Bytes
skipped_version none = []
skipped_version (some skipped) = elim (as_string skipped) [ some value ↦ value | none ↦ [] ]

abbrev mode_or_notify : Option Bytes → UpdateMode
mode_or_notify none = notify
mode_or_notify (some mode) = or_default notify (parse_update_mode mode)

unfoldable pub read_update : Option Value → ConfigResult UpdateSettings
read_update none = config default_update
read_update (some update) = elim (as_object update) [
  | none ↦ refused bad_update
  | some fields ↦ config (record {
    channel =
        if_allowed (codes "stable") (one_of (codes "stable" ∷ []))
          (string_member update (codes "channel"));
    mode = mode_or_notify (string_member update (codes "mode"));
    check_on_start = or_default true (bool_member update (codes "check_on_start"));
    skipped_payload_version = skipped_version (find update (codes "skipped_payload_version"));
  })
]

unfoldable pub read_strategy : Option Bytes → ConfigResult Bytes
read_strategy none = refused bad_strategy
read_strategy (some id) = if is_valid_strategy_id_syntax id then config id else refused bad_strategy

-- `ParseConfig` behind the parse.
unfoldable pub read_config : Value → ConfigResult Config
read_config root = elim (as_object root) [
  | none ↦ refused not_an_object
  | some fields ↦ do
    strategy ← read_strategy (string_member root (codes "strategy"))
    game_filter ← read_game_filter (find root (codes "gameFilter"))
    ui ← read_ui (find root (codes "ui"))
    update ← read_update (find root (codes "update"))
    config (record { strategy_id = strategy; game_filter = game_filter; update = update; ui = ui })
]

abbrev pub config_options : ParseOptions
config_options = record { max_bytes = 1024 * 1024; max_depth = 16; max_values = 512 }

unfoldable pub parse_config : Bytes → ConfigResult Config
parse_config input = elim (parse config_options input) [
  | err why rest ↦ refused (unreadable why)
  | ok root ↦ read_config root
]

abbrev bool_text : Bool → Bytes
bool_text true = codes "true"
bool_text false = codes "false"

-- The member `update` of the text.
unfoldable pub serialize_update : UpdateSettings → Bytes
serialize_update u =
    codes "  \"update\": {\n    \"channel\": \"stable\",\n    \"mode\": "
    ++ (quote (update_mode_name u.mode)
        ++ (codes ",\n    \"check_on_start\": "
            ++ (bool_text u.check_on_start
                ++ (codes ",\n    \"skipped_payload_version\": "
                    ++ ((if is_empty u.skipped_payload_version
                          then codes "null"
                          else quote u.skipped_payload_version)
                        ++ codes "\n  },\n")))))

-- The member `ui` of the text.
unfoldable pub serialize_ui : UiSettings → Bytes
serialize_ui ui =
    codes "  \"ui\": {\n    \"animations\": "
    ++ (bool_text ui.animations
        ++ (codes ",\n    \"animation_speed\": "
            ++ (quote ui.speed
                ++ (codes ",\n    \"reduced_motion\": "
                    ++ (bool_text ui.reduced_motion
                        ++ (codes ",\n    \"glitch_effects\": "
                            ++ (bool_text ui.glitch
                                ++ (codes ",\n    \"mascot_idle\": "
                                    ++ (bool_text ui.mascot_idle
                                        ++ (codes ",\n    \"unicode_mode\": "
                                            ++ (quote ui.unicode_mode ++ codes "\n  }\n")))))))))))

-- `SerializeConfig`; `version` is CHEBURNET_VERSION_STR, which the build generates.
unfoldable pub serialize_config : Bytes → Config → Bytes
serialize_config version c =
    codes "{\n  \"version\": \""
    ++ (version
        ++ (codes "\",\n  \"strategy\": "
            ++ (quote c.strategy_id
                ++ (codes ",\n  \"gameFilter\": "
                    ++ (quote (game_filter_mode_name c.game_filter)
                        ++ (codes ",\n"
                            ++ (serialize_update c.update
                                ++ (serialize_ui c.ui ++ codes "}\n"))))))))

-- Every setting is one that the program offers.
pub record IsValid (c : Config) : Type 0 where
  pub strategy_valid : is_valid_strategy_id_syntax c.strategy_id ≡ true
  pub channel_stable : c.update.channel ≡ codes "stable"
  pub speed_valid : one_of speeds c.ui.speed ≡ true
  pub unicode_mode_valid : one_of unicode_modes c.ui.unicode_mode ≡ true

-- All the code of this file, for the runs of other modules.
unfoldable pub settings_code : Unit {0}
unfolding serialize_config serialize_update serialize_ui game_filter_mode_name update_mode_name
    parse_game_filter parse_update_mode is_valid_strategy_id_syntax string_member bool_member
    read_game_filter read_ui read_update read_strategy read_config parse_config find lookup bytes_eq
settings_code = tt
