-- ===== src/Core/Paths.antt =====
-- core/RuntimePaths.cpp: where the files of the program lie. The folder of the program data is asked
-- of the system and is an argument, as are the state that was loaded and the version text of the
-- build. The build of the end-to-end tests, which appends an instance name, is not modelled.
use cheburnet.Base.{Option, none, some, [], ◌++◌, Bytes, codes, is_empty, if◌then◌else◌}
use cheburnet.Update.StateStore.{StoredRuntimeState}

pub record RuntimePaths : Type 0 where
  pub root : Bytes
  pub logs_dir : Bytes
  pub config_path : Bytes
  pub runtime_root : Bytes
  pub updates_dir : Bytes
  pub user_dir : Bytes
  pub version_dir : Bytes
  pub bin_dir : Bytes
  pub lists_dir : Bytes
  pub runtime_version : Bytes

-- Nothing is set when the system does not name the folder.
abbrev no_paths : RuntimePaths
no_paths = record {
  root = [];
  logs_dir = [];
  config_path = [];
  runtime_root = [];
  updates_dir = [];
  user_dir = [];
  version_dir = [];
  bin_dir = [];
  lists_dir = [];
  runtime_version = [];
}

-- The directories below a root; shared by the constructor and `ForOwnedRoot`.
unfoldable pub for_owned_root : Bytes → Bytes → RuntimePaths
for_owned_root root version =
    let runtime_root = root ++ codes "\\runtime" in
    let version_dir = (runtime_root ++ codes "\\") ++ version in
    record {
      root = root;
      logs_dir = root ++ codes "\\logs";
      config_path = root ++ codes "\\user\\config.json";
      runtime_root = runtime_root;
      updates_dir = root ++ codes "\\updates";
      user_dir = root ++ codes "\\user";
      version_dir = version_dir;
      bin_dir = version_dir ++ codes "\\bin";
      lists_dir = version_dir ++ codes "\\lists";
      runtime_version = version;
    }

module _ (to_utf16 : Bytes → Bytes) (upstream_version : Bytes) where
  -- The version that the constructor settles on: the one asked for, or else the committed one, or
  -- else the one of the build. A pending version is never chosen.
  unfoldable pub choose_version : Bytes → Option StoredRuntimeState → Bytes
  choose_version asked loaded =
      let committed =
        if is_empty asked
        then elim loaded [ none ↦ [] | some state ↦ to_utf16 state.current ]
        else asked in
      if is_empty committed then upstream_version else committed

  -- The constructor, with what `LoadRuntimeState` gives.
  unfoldable pub runtime_paths : Bytes → Bytes → Option StoredRuntimeState → RuntimePaths
  runtime_paths program_data asked loaded =
      if is_empty program_data
      then no_paths
      else for_owned_root (program_data ++ codes "\\CHEBURNET") (choose_version asked loaded)

unfoldable pub winws_exe_path : RuntimePaths → Bytes
winws_exe_path paths = paths.bin_dir ++ codes "\\winws.exe"

unfoldable pub active_runtime_path : RuntimePaths → Bytes
active_runtime_path paths = paths.root ++ codes "\\active-runtime.json"

unfoldable pub strategy_catalog_path : RuntimePaths → Bytes
strategy_catalog_path paths = paths.version_dir ++ codes "\\strategies\\catalog.json"
