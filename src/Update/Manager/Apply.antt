-- ===== src/Update/Manager/Apply.antt =====
-- `ApplyPayload` of update/UpdateManager.cpp: the checks of a staged package, its extraction, and the
-- switch to it through `ActivateRuntime`. The messages are left out, but for the statuses; processes,
-- `VerifyInstalledRuntime` and the registry of strategies are operations of a `Machine`.

pub mod Switch
pub mod Candidate
pub mod Guards
pub mod Switched
pub mod Prepared
pub mod Installed
pub mod Applied
use Prim.Native.Nat.Ordering.{lt, eq, gt}
use cheburnet.Base.{
  ℕ, ◌==◌, Bool, true, false, not, ◌&&◌, ◌||◌, Option, none, some, List, [], ◌∷◌, ◌++◌, Bytes,
  codes, is_empty, bytes_eq, if◌then◌else◌,
}
use cheburnet.Version.{parse_version, compare_versions}
use cheburnet.Core.Files.{Files}
use cheburnet.Core.Paths.{RuntimePaths, runtime_paths}
use cheburnet.Core.SecureFs.{
  before_last, is_strict_descendant, validate_path_components, remove_tree_under,
}
use cheburnet.Update.Manifest.{Artifact, Manifest}
use cheburnet.Update.Eligibility.{supported_payload_schema, supported_strategy_schema}
use cheburnet.Update.StateStore.{StoredRuntimeState, load_state, save_state}
use cheburnet.Update.Package.{default_limits}
use cheburnet.Update.Package.Header.{PackageInfo, parse_package_file}
use cheburnet.Update.Package.Extract.{
  validate_artifact_file, extract_package, verify_extracted_package,
}
use cheburnet.Update.Manager.{
  CheckResult, StateFile, missing, read, System, Build, Session, with_world, same_artifact,
}
use cheburnet.Settings.Strategies.{RuntimeStrategy}

pub data PayloadApplyStatus : Type 0 where
  applied download_rejected package_rejected preflight_rejected stop_rejected : PayloadApplyStatus
  start_rejected health_rejected commit_rejected payload_rolled_back payload_rollback_failed :
      PayloadApplyStatus

pub record PayloadApplyResult : Type 0 where
  pub status : PayloadApplyStatus
  pub previous_version : Bytes
  pub candidate_version : Bytes

-- What the switch asks of the machine; `P` stands for a `ProcessManager`.
pub record Machine (W P : Type 0) : Type 0 where
  -- `AtomicWrite` of the file of the runtime state.
  pub write_state : Bytes → W → Bool × W
  -- `VerifyInstalledRuntime`: the catalog, if the runtime of these paths is sound.
  pub installed : RuntimePaths → W → Option (List RuntimeStrategy)
  -- `IsConnectedByUs`; `Stop` with the status `Stopped` or `NotRunning`; `Detach`.
  pub connected : P → W → Bool
  pub stop : P → W → Bool × W
  pub detach : P → W → W
  -- `Start` of a new manager on these paths, with the arguments, if its status is `Ok`.
  pub start : RuntimePaths → List Bytes → W → Option P × W
  -- The saved record of these paths is valid and names a process with its identity.
  pub recorded_alive : RuntimePaths → W → Bool
  -- `strategies::All` and `strategies::ActivateCatalog`.
  pub registry : W → List RuntimeStrategy
  pub activate_catalog : List RuntimeStrategy → W → W
  pub program_data : Bytes

-- The last strategy with this id.
abbrev pub last_with_id : Bytes → List RuntimeStrategy → Option RuntimeStrategy
last_with_id id [] = none
last_with_id id (strategy ∷ rest) = elim (last_with_id id rest) [
  | some found ↦ some found
  | none ↦ if bytes_eq strategy.id id then some strategy else none
]

abbrev or_else : {A : Type 0} → Option A → Option A → Option A
or_else (some a) other = some a
or_else none other = other

abbrev pub selected : Bytes → List RuntimeStrategy → Option RuntimeStrategy
selected id catalog = or_else (last_with_id id catalog) (last_with_id (codes "general") catalog)

-- The payload is that of the cached manifest, under the id of its key.
abbrev pub is_trusted : Artifact → Bytes → Option CheckResult → Bool
is_trusted artifact key_id none = false
is_trusted artifact key_id (some result) = elim result.manifest [
  | none ↦ false
  | some m ↦ bytes_eq key_id m.key_id && same_artifact m.payload artifact
]

-- The candidate is newer than what is stored, and its schemas are supported.
unfoldable pub is_newer : Bytes → Artifact → Bool
is_newer installed artifact = elim (parse_version installed) [
  | none ↦ false
  | some now ↦ elim (parse_version artifact.version) [
    | none ↦ false
    | some candidate ↦
        elim (compare_versions candidate now) [ gt ↦ true | _ ↦ false ]
        && (artifact.payload_schema == supported_payload_schema
            && artifact.strategy_schema == supported_strategy_schema)
  ]
]

abbrev pub matches_header : PackageInfo → Artifact → Bool
matches_header info artifact =
    bytes_eq info.payload_version artifact.version
    && (bytes_eq info.provider artifact.provider
        && (info.payload_schema == artifact.payload_schema
            && info.strategy_schema == artifact.strategy_schema))

module _ {W : Type 0} (sys : System W) (build : Build) (paths : RuntimePaths) where
  -- The state to start from: that of the build when there is no file, nothing when it is refused.
  abbrev pub stored_state : StateFile → Option StoredRuntimeState
  stored_state missing = some (record {
    current = build.upstream_version;
    previous_known_good = [];
    pending = [];
    package_sha256 = [];
    manifest_key_id = [];
    last_result = [];
  })
  stored_state (read none) = none
  stored_state (read (some bytes)) = load_state bytes

  -- The staged file lies below the directory of the updates, in directories, and is the artifact's.
  unfoldable pub is_staged : Artifact → Bytes → W → Bool
  is_staged artifact staged w =
      is_strict_descendant sys.files paths.updates_dir staged
      && (elim (before_last staged) [
        | none ↦ false
        | some folder ↦ validate_path_components sys.files folder w
      ]
          && validate_artifact_file sys.files staged artifact.size artifact.sha256 w)

  -- The package, if it can be read and its header is the artifact's.
  unfoldable pub read_package : Artifact → Bytes → W → Option PackageInfo
  read_package artifact staged w = elim (sys.files.open_package staged w) [
    | none ↦ none
    | some bytes ↦ elim (parse_package_file default_limits bytes) [
      | none ↦ none
      | some info ↦ if matches_header info artifact then some info else none
    ]
  ]

module _ {W P : Type 0} (sys : System W) (machine : Machine W P) (build : Build) where
  -- `RuntimePaths(version)`
  unfoldable pub paths_of : Bytes → W → RuntimePaths
  paths_of version w =
      runtime_paths sys.to_utf16 (sys.to_utf16 build.upstream_version) machine.program_data
        (sys.to_utf16 version)
        (elim (sys.state_file w) [
          | missing ↦ none
          | read none ↦ none
          | read (some bytes) ↦ load_state bytes
        ])

  -- `SaveRuntimeState`
  unfoldable pub save : StoredRuntimeState → W → Bool × W
  save state w = elim (save_state state) [
    | none ↦ (false, w)
    | some text ↦ machine.write_state text w
  ]
