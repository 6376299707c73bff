-- ===== src/Settings/Config/Valid.antt =====
-- What `ParseConfig` guarantees of the configuration that it returns.
use cheburnet.Base.{
  true, ◌≡◌, refl, inl, inr, Option, none, some, List, [], ◌∷◌, arith, Bytes, codes, bytes_eq,
  bytes_eq_iff, Option-cases,
}
use cheburnet.Json.{Value, Result-cases, find, as_object}
use cheburnet.Json.Parser.{parse}
use cheburnet.Settings.Config.{
  Config, ConfigResult, config, refused, ◌>>=◌, IsValid, UiSettings, UpdateSettings, if_allowed,
  one_of, speeds, unicode_modes, is_valid_strategy_id_syntax, string_member, read_strategy,
  read_game_filter, read_ui, read_update, read_config, parse_config, config_options, GameFilterMode,
}

if_allowed-one_of :
    (xs : List Bytes) (a : Bytes) (o : Option Bytes)
    → one_of xs a ≡ true
    → one_of xs (if_allowed a (one_of xs) o) ≡ true
if_allowed-one_of xs a none h = h
if_allowed-one_of xs a (some b) h = ground arith

read_strategy-valid :
    (o : Option Bytes) {id : Bytes}
    → read_strategy o ≡ config id
    → is_valid_strategy_id_syntax id ≡ true
unfolding read_strategy
read_strategy-valid none h = absurd (ground arith)
read_strategy-valid (some s) h = ground arith

-- The two settings of `ui` that are words are among those allowed.
read_ui-valid :
    (o : Option Value) {ui : UiSettings}
    → read_ui o ≡ config ui
    → (one_of speeds ui.speed ≡ true) × (one_of unicode_modes ui.unicode_mode ≡ true)
unfolding read_ui bytes_eq
read_ui-valid none h = ground arith
read_ui-valid (some v) h = ground (
  arith,
  if_allowed-one_of speeds (codes "normal") (string_member v (codes "animation_speed")) refl,
  if_allowed-one_of unicode_modes (codes "auto") (string_member v (codes "unicode_mode")) refl,
)

only_stable : (a : Bytes) (o : Option Bytes) → if_allowed a (one_of (a ∷ [])) o ≡ a
only_stable a none = refl
only_stable a (some b) = ground (arith, bytes_eq_iff b a)

read_update-valid :
    (o : Option Value) {update : UpdateSettings}
    → read_update o ≡ config update
    → update.channel ≡ codes "stable"
unfolding read_update
read_update-valid none h = ground arith
read_update-valid (some v) h =
    ground (arith, only_stable (codes "stable") (string_member v (codes "channel")))

-- The members read one after the other, as `read_config` does.
with_members :
    (strategy : ConfigResult Bytes) (filter : ConfigResult GameFilterMode)
    (ui : ConfigResult UiSettings) (update : ConfigResult UpdateSettings)
    → ((id : Bytes) → strategy ≡ config id → is_valid_strategy_id_syntax id ≡ true)
    → ((u : UiSettings)
        → ui ≡ config u
        → (one_of speeds u.speed ≡ true) × (one_of unicode_modes u.unicode_mode ≡ true))
    → ((u : UpdateSettings) → update ≡ config u → u.channel ≡ codes "stable")
    → {c : Config}
    → (strategy >>= λ id. filter >>= λ mode. ui >>= λ u. update >>= λ v.
        config (record { strategy_id = id; game_filter = mode; update = v; ui = u }))
      ≡ config c
    → IsValid c
with_members (config id) (config mode) (config u) (config v) hs hu hv {c = c} h =
    let one = hs id refl in let two = hu u refl in let three = hv v refl in ground arith
with_members (refused why) filter ui update hs hu hv h = absurd (ground arith)
with_members (config id) (refused why) ui update hs hu hv h = absurd (ground arith)
with_members (config id) (config mode) (refused why) update hs hu hv h = absurd (ground arith)
with_members (config id) (config mode) (config u) (refused why) hs hu hv h = absurd (ground arith)

read_config-IsValid : (root : Value) {c : Config} → read_config root ≡ config c → IsValid c
unfolding read_config
read_config-IsValid root {c = c} h = elim (Option-cases (as_object root)) [
  | inl e ↦ absurd (ground arith)
  | inr (fields, e) ↦
      with_members (read_strategy (string_member root (codes "strategy")))
        (read_game_filter (find root (codes "gameFilter"))) (read_ui (find root (codes "ui")))
        (read_update (find root (codes "update"))) (λ id e. read_strategy-valid _ {id = id} e)
        (λ u e. read_ui-valid _ {ui = u} e) (λ u e. read_update-valid _ {update = u} e) {c = c}
        (ground arith)
]

-- A configuration that `ParseConfig` returns has a strategy id of the allowed syntax, the channel
-- `stable`, and an animation speed and a unicode mode among those allowed.
pub parse_config-IsValid : (input : Bytes) {c : Config} → parse_config input ≡ config c → IsValid c
unfolding parse_config read_config
parse_config-IsValid input h = elim (Result-cases (parse config_options input)) [
  | inl (why, rest, e) ↦ absurd (ground arith)
  | inr (root, e) ↦ read_config-IsValid root (ground arith)
]
