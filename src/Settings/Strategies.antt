-- ===== src/Settings/Strategies.antt =====
-- config/Strategies.cpp: `ReplaceAll`, the catalog file behind its reading (`LoadCatalogFile`), and
-- the arguments built from a strategy. `str::ToUtf16` asks the system and is a parameter.
pub mod Catalog
use cheburnet.Base.{
  ℕ, zero, suc, ◌+◌, ◌-◌, ◌*◌, ◌≤◌, ◌≡◌, refl, ◌⊎◌, inl, inr, Bool, true, false, not, ◌&&◌, ◌||◌,
  Option, none, some, List, [], ◌∷◌, ◌++◌, arith, Bytes, codes, length, is_empty, every, bytes_eq,
  ltb, leb, ◌==◌, within, take, drop, if◌then◌else◌,
}
use cheburnet.Json.{
  lookup, as_uint64, whole_u64, Value, Items, nil, cons, Result, ok, err, find, size, as_object,
  as_array, as_string, as_bool,
}
use cheburnet.Json.Parser.{ParseOptions, parse}
use cheburnet.Update.Manifest.{◌>>=◌, ◌>>◌, require, read_uint}
use cheburnet.Update.StateStore.{text}
use cheburnet.Update.Package.{contains, starts_with, folded, member}
use cheburnet.Settings.Config.{GameFilterMode, off, all, tcp, udp, is_valid_strategy_id_syntax}

-- The loop of `ReplaceAll`: `skip` units of an occurrence of `from` are left to pass over. The search
-- goes on behind the replacement.
unfoldable pub replace_from : Bytes → Bytes → ℕ → Bytes → Bytes
replace_from from to skip [] = []
replace_from from to (suc skip) (c ∷ s) = replace_from from to skip s
replace_from from to zero (c ∷ s) = elim (starts_with (c ∷ s) from) [
  | true ↦ to ++ replace_from from to (length from - 1) s
  | false ↦ c ∷ replace_from from to 0 s
]

unfoldable pub replace_all : Bytes → Bytes → Bytes → Bytes
replace_all from to s = if is_empty from then s else replace_from from to 0 s

abbrev line_end : ℕ → Bool
line_end c = c == b'\r' || c == b'\n'

-- `find_first_of("\\/:\r\n\0")`: the literal ends at its NUL, which is not searched for.
abbrev source_char : ℕ → Bool
source_char c = not (c == b'\\' || (c == b'/' || (c == b':' || line_end c)))

unfoldable pub valid_source_name : Bytes → Bool
valid_source_name source =
    not (
      is_empty source
      || (ltb 180 (length source) || (bytes_eq source (codes ".") || bytes_eq source (codes ".."))))
    && (every source_char source
        && (ltb 4 (length source)
            && bytes_eq (drop (length source - 4) (folded source)) (codes ".bat")))

abbrev pub placeholders : List Bytes
placeholders =
    codes "%BIN%"
    ∷ codes "%LISTS%"
    ∷ codes "%USER_LISTS%"
    ∷ codes "%GAME_TCP%"
    ∷ codes "%GAME_UDP%"
    ∷ codes "%GAME_BOTH%"
    ∷ []

-- The loop that erases the placeholders, one after the other.
abbrev pub erase_all : List Bytes → Bytes → Bytes
erase_all [] token = token
erase_all (p ∷ ps) token = erase_all ps (replace_all p [] token)

unfoldable pub valid_template_token : Bytes → Bool
valid_template_token token =
    not (
      is_empty token
      || (ltb 4096 (length token)
          || (contains 0 token || not (every (λ c. not (line_end c)) token))))
    && not (contains b'%' (erase_all placeholders token))

pub record RuntimeStrategy : Type 0 where
  pub id : Bytes
  pub source_file : Bytes
  pub display_name : Bytes
  pub description : Bytes
  pub recommended : Bool
  pub arg_template : List Bytes

abbrev pub items_length : Items → ℕ
items_length nil = 0
items_length (cons v vs) = suc (items_length vs)

-- An entry of the catalog whose arguments are still to be read.
pub record CatalogEntry : Type 0 where
  pub id : Bytes
  pub source : Bytes
  pub name : Bytes
  pub recommended : Bool
  pub argv : Items

unfoldable pub read_catalog_entry : Value → Option CatalogEntry
read_catalog_entry entry = do
  fields ← as_object entry
  id ← text entry (codes "id")
  source ← text entry (codes "source")
  name ← text entry (codes "name")
  recommended_value ← find entry (codes "recommended")
  recommended ← as_bool recommended_value
  argv_value ← find entry (codes "argv")
  argv ← as_array argv_value
  require (size fields == 5)
  require (is_valid_strategy_id_syntax id)
  require (valid_source_name source)
  require (not (is_empty name) && leb (length name) 160)
  require (not (items_length argv == 0) && leb (items_length argv) 1024)
  some (record { id = id; source = source; name = name; recommended = recommended; argv = argv })

-- What the loop over the entries keeps.
pub record CatalogScan : Type 0 where
  pub ids : List Bytes
  pub total_tokens : ℕ
  pub candidate : List RuntimeStrategy

abbrev pub new_catalog_scan : CatalogScan
new_catalog_scan = record { ids = []; total_tokens = 0; candidate = [] }

abbrev pub catalog_options : ParseOptions
catalog_options = record { max_bytes = 4 * 1024 * 1024; max_depth = 8; max_values = 300000 }

abbrev pub parsed_catalog : Result Value → Option Value
parsed_catalog (ok root) = some root
parsed_catalog (err why rest) = none

-- The entries of a catalog of the right schema; `strategy_schema` is CHEBURNET_STRATEGY_SCHEMA.
unfoldable pub catalog_entries : ℕ → Value → Option Items
catalog_entries strategy_schema root = do
  fields ← as_object root
  require (size fields == 2)
  schema ← read_uint root (codes "schema")
  require (schema == strategy_schema)
  strategies ← find root (codes "strategies")
  entries ← as_array strategies
  require (not (items_length entries == 0) && leb (items_length entries) 256)
  some entries

module _ (to_utf16 : Bytes → Bytes) where
  -- The loop over `argv`.
  unfoldable pub read_arguments : Items → Option (List Bytes)
  read_arguments nil = some []
  read_arguments (cons value values) = do
    token ← as_string value
    require (valid_template_token token)
    rest ← read_arguments values
    some (to_utf16 token ∷ rest)

  abbrev pub runtime_strategy : Bytes → CatalogEntry → List Bytes → RuntimeStrategy
  runtime_strategy imported entry arguments = record {
    id = entry.id;
    source_file = to_utf16 entry.source;
    display_name = to_utf16 entry.name;
    description = imported ++ to_utf16 entry.source;
    recommended = entry.recommended;
    arg_template = arguments;
  }

  -- What a round of the loop keeps of an entry.
  abbrev pub add_strategy : Bytes → CatalogEntry → List Bytes → CatalogScan → CatalogScan
  add_strategy imported entry arguments s = record {
    ids = folded entry.id ∷ s.ids;
    total_tokens = s.total_tokens + items_length entry.argv;
    candidate = s.candidate ++ (runtime_strategy imported entry arguments ∷ []);
  }

  -- A round of the loop over the entries; `imported` is the text in front of the source file.
  unfoldable pub scan_strategy : Bytes → Value → CatalogScan → Option CatalogScan
  scan_strategy imported value s = do
    entry ← read_catalog_entry value
    require (not (member (folded entry.id) s.ids))
    require (leb s.total_tokens (100000 - items_length entry.argv))
    arguments ← read_arguments entry.argv
    some (add_strategy imported entry arguments s)

  unfoldable pub scan_strategies : Bytes → Items → CatalogScan → Option CatalogScan
  scan_strategies imported nil s = some s
  scan_strategies imported (cons value values) s =
      scan_strategy imported value s >>= scan_strategies imported values

  -- `LoadCatalogFile` behind the reading; `none` for every error.
  unfoldable pub load_catalog : ℕ → Bytes → Bytes → Option (List RuntimeStrategy)
  load_catalog strategy_schema imported bytes = do
    root ← parsed_catalog (parse catalog_options bytes)
    entries ← catalog_entries strategy_schema root
    scan ← scan_strategies imported entries new_catalog_scan
    require (member (codes "general") scan.ids)
    some scan.candidate

unfoldable pub game_filter_tcp_value : GameFilterMode → Bytes
game_filter_tcp_value all = codes "1024-65535"
game_filter_tcp_value tcp = codes "1024-65535"
game_filter_tcp_value _ = codes "12"

unfoldable pub game_filter_udp_value : GameFilterMode → Bytes
game_filter_udp_value all = codes "1024-65535"
game_filter_udp_value udp = codes "1024-65535"
game_filter_udp_value _ = codes "12"

abbrev legacy_value : GameFilterMode → Bytes
legacy_value off = codes "12"
legacy_value _ = codes "1024-65535"

-- A round of the loop of `BuildArguments`.
unfoldable pub build_argument : Bytes → Bytes → GameFilterMode → Bytes → Bytes → Bytes
build_argument bin_dir lists_dir game_filter user_lists_dir token =
    let user = (if is_empty user_lists_dir then lists_dir else user_lists_dir) ++ (b'\\' ∷ []) in
    let t₁ = replace_all (codes "%BIN%") (bin_dir ++ (b'\\' ∷ [])) token in
    let t₂ = replace_all (codes "%LISTS%") (lists_dir ++ (b'\\' ∷ [])) t₁ in
    let t₃ = replace_all (codes "%USER_LISTS%") user t₂ in
    let t₄ = replace_all (codes "%GAME_TCP%") (game_filter_tcp_value game_filter) t₃ in
    let t₅ = replace_all (codes "%GAME_UDP%") (game_filter_udp_value game_filter) t₄ in
    replace_all (codes "%GAME_BOTH%") (legacy_value game_filter) t₅

abbrev pub build_arguments : Bytes → Bytes → GameFilterMode → Bytes → List Bytes → List Bytes
build_arguments bin_dir lists_dir game_filter user_lists_dir [] = []
build_arguments bin_dir lists_dir game_filter user_lists_dir (token ∷ tokens) =
    build_argument bin_dir lists_dir game_filter user_lists_dir token
    ∷ build_arguments bin_dir lists_dir game_filter user_lists_dir tokens

-- All the code of this file, for the runs of other modules.
unfoldable pub strategies_code : Unit {0}
unfolding replace_from replace_all valid_source_name valid_template_token read_catalog_entry
    catalog_entries read_arguments scan_strategy scan_strategies load_catalog game_filter_tcp_value
    game_filter_udp_value build_argument text find lookup bytes_eq read_uint as_uint64 whole_u64
    is_valid_strategy_id_syntax
strategies_code = tt
