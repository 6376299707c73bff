-- ===== src/Update/Manager/Apply/Candidate.antt =====
-- `ApplyPayload` from its first check to the switch.
use cheburnet.Base.{
  Bool, true, false, not, Option, none, some, List, [], ◌∷◌, Bytes, codes, is_empty, bytes_eq,
  if◌then◌else◌,
}
use cheburnet.Core.Paths.{RuntimePaths}
use cheburnet.Core.SecureFs.{remove_tree_under}
use cheburnet.Settings.Config.{GameFilterMode}
use cheburnet.Settings.Strategies.{RuntimeStrategy}
use cheburnet.Update.Manifest.{Artifact}
use cheburnet.Update.StateStore.{StoredRuntimeState}
use cheburnet.Update.Package.Header.{PackageInfo}
use cheburnet.Update.Package.Extract.{extract_package, verify_extracted_package}
use cheburnet.Update.Manager.{System, Build, Session, with_world}
use cheburnet.Update.Manager.Apply.{
  Machine, PayloadApplyStatus, package_rejected, preflight_rejected, payload_rollback_failed,
  PayloadApplyResult, last_with_id, selected, is_trusted, is_newer, stored_state, is_staged,
  read_package, paths_of, save,
}
use cheburnet.Update.Manager.Apply.Switch.{Plan, switch_payload}

abbrev first_of : List RuntimeStrategy → Option RuntimeStrategy
first_of [] = none
first_of (strategy ∷ rest) = some strategy

-- The last strategy with this id, or else the first one.
abbrev pub rollback_choice : Bytes → List RuntimeStrategy → Option RuntimeStrategy
rollback_choice id catalog = elim (last_with_id id catalog) [
  | some strategy ↦ some strategy
  | none ↦ first_of catalog
]

-- The arguments of `ApplyPayload`.
pub record Request (P : Type 0) : Type 0 where
  pub artifact : Artifact
  pub staged : Bytes
  pub manager : P
  pub strategy_id : Bytes
  pub game_filter : GameFilterMode
  pub key_id : Bytes

module _ {W P : Type 0} (sys : System W) (machine : Machine W P) (build : Build)
    (paths : RuntimePaths) (q : Request P) where
  abbrev pub candidate_paths : W → RuntimePaths
  candidate_paths w = paths_of sys machine build q.artifact.version w

  abbrev pub pending_state : StoredRuntimeState → StoredRuntimeState
  pending_state stored = record stored {
    pending = q.artifact.version;
    package_sha256 = q.artifact.sha256;
    manifest_key_id = q.key_id;
    last_result = codes "candidate-preflight-ok";
  }

  abbrev pub cleared_state : StoredRuntimeState → StoredRuntimeState
  cleared_state stored = record (pending_state stored) {
    pending = [];
    last_result = codes "previous-runtime-preflight-failed";
  }

  abbrev if_cleared : Bool × W → PayloadApplyStatus × W
  if_cleared (true, w) = (preflight_rejected, w)
  if_cleared (false, w) = (payload_rollback_failed, w)

  -- The strategies to roll back with, of a runtime that was running; nothing if its check fails.
  unfoldable pub rollback_catalog :
      StoredRuntimeState → RuntimePaths → W → Option (List RuntimeStrategy)
  rollback_catalog stored previous w =
      if bytes_eq stored.current build.upstream_version
      then some (machine.registry w)
      else machine.installed previous w

  abbrev pub plan_with :
      StoredRuntimeState
      → List RuntimeStrategy
      → RuntimeStrategy
      → Bool
      → RuntimePaths
      → RuntimePaths
      → List RuntimeStrategy
      → Plan P
  plan_with stored catalog strategy was_running candidate previous rollback = record {
    artifact = q.artifact;
    key_id = q.key_id;
    stored = stored;
    catalog = catalog;
    strategy = strategy;
    rollback_strategy = if was_running then rollback_choice q.strategy_id rollback else none;
    was_running = was_running;
    manager = q.manager;
    game_filter = q.game_filter;
    candidate_paths = candidate;
    previous_paths = previous;
  }

  abbrev pub switch_with : Plan P → W → PayloadApplyStatus × W
  switch_with plan w = switch_payload sys machine build plan w

  -- With what the check of a previous runtime gave.
  abbrev pub with_rollback :
      StoredRuntimeState
      → List RuntimeStrategy
      → RuntimeStrategy
      → RuntimePaths
      → RuntimePaths
      → Option (List RuntimeStrategy)
      → W
      → PayloadApplyStatus × W
  with_rollback stored catalog strategy candidate previous none w =
      if_cleared (save sys machine build (cleared_state stored) w)
  with_rollback stored catalog strategy candidate previous (some rollback) w =
      switch_with (plan_with stored catalog strategy true candidate previous rollback) w

  -- With whether the runtime was running, once the pending state was saved.
  abbrev pub with_saved :
      StoredRuntimeState
      → List RuntimeStrategy
      → RuntimeStrategy
      → RuntimePaths
      → Bool
      → W
      → PayloadApplyStatus × W
  with_saved stored catalog strategy candidate false w =
      switch_with
        (plan_with stored catalog strategy false candidate
          (paths_of sys machine build stored.current w) [])
        w
  with_saved stored catalog strategy candidate true w =
      let previous = paths_of sys machine build stored.current w in
      with_rollback stored catalog strategy candidate previous (rollback_catalog stored previous w)
        w

  -- The candidate's tree is removed, and the update refused.
  unfoldable pub discard : RuntimePaths → W → PayloadApplyStatus × W
  discard candidate w = (
    preflight_rejected,
    (remove_tree_under sys.files paths.runtime_root candidate.version_dir w).1,
  )

  abbrev pub if_saved :
      StoredRuntimeState
      → List RuntimeStrategy
      → RuntimeStrategy
      → RuntimePaths
      → Bool
      → Bool × W
      → PayloadApplyStatus × W
  if_saved stored catalog strategy candidate was_running (false, w) = discard candidate w
  if_saved stored catalog strategy candidate was_running (true, w) =
      with_saved stored catalog strategy candidate was_running w

  abbrev pub with_strategy :
      StoredRuntimeState
      → List RuntimeStrategy
      → RuntimePaths
      → Option RuntimeStrategy
      → W
      → PayloadApplyStatus × W
  with_strategy stored catalog candidate none w = discard candidate w
  with_strategy stored catalog candidate (some strategy) w =
      if_saved stored catalog strategy candidate (machine.connected q.manager w)
        (save sys machine build (pending_state stored) w)

  -- With the catalog of the candidate, where it and the extracted files were found sound.
  abbrev pub with_catalog :
      StoredRuntimeState
      → RuntimePaths
      → Bool
      → Option (List RuntimeStrategy)
      → W
      → PayloadApplyStatus × W
  with_catalog stored candidate true (some catalog) w =
      if is_empty catalog
      then discard candidate w
      else with_strategy stored catalog candidate (selected q.strategy_id catalog) w
  with_catalog stored candidate verified catalog w = discard candidate w

  abbrev pub if_extracted :
      StoredRuntimeState → PackageInfo → RuntimePaths → Bool × W → PayloadApplyStatus × W
  if_extracted stored info candidate (false, w) = (package_rejected, w)
  if_extracted stored info candidate (true, w) =
      with_catalog stored candidate
        (verify_extracted_package sys.files info candidate.version_dir w)
        (machine.installed candidate w) w

  abbrev pub if_cleaned :
      StoredRuntimeState → PackageInfo → RuntimePaths → Bool × W → PayloadApplyStatus × W
  if_cleaned stored info candidate (false, w) = (package_rejected, w)
  if_cleaned stored info candidate (true, w) =
      if_extracted stored info candidate
        (extract_package sys.files q.staged info paths.runtime_root candidate.version_dir w)

  -- An older tree of the candidate is removed first.
  abbrev pub clean : RuntimePaths → W → Bool × W
  clean candidate w =
      if sys.files.exists candidate.version_dir w
      then remove_tree_under sys.files paths.runtime_root candidate.version_dir w
      else (true, w)

  abbrev pub with_package : StoredRuntimeState → Option PackageInfo → W → PayloadApplyStatus × W
  with_package stored none w = (package_rejected, w)
  with_package stored (some info) w =
      if_cleaned stored info (candidate_paths w) (clean (candidate_paths w) w)

  unfoldable pub apply_stored : StoredRuntimeState → W → PayloadApplyStatus × W
  apply_stored stored w =
      if not (is_newer stored.current q.artifact)
      then (preflight_rejected, w)
      else if not (is_staged sys build paths q.artifact q.staged w)
      then (package_rejected, w)
      else with_package stored (read_package sys build paths q.artifact q.staged w) w

  abbrev pub with_state : Option StoredRuntimeState → W → PayloadApplyResult × W
  with_state none w = (
    record {
      status = preflight_rejected;
      previous_version = [];
      candidate_version = q.artifact.version;
    },
    w,
  )
  with_state (some stored) w =
      let (status, w₁) = apply_stored stored w in
      (
        record {
          status = status;
          previous_version = stored.current;
          candidate_version = q.artifact.version;
        },
        w₁,
      )

  unfoldable pub apply_payload : Session W → PayloadApplyResult × Session W
  apply_payload s =
      if is_trusted q.artifact q.key_id s.verified
      then (let (result, w) =
            with_state (stored_state sys build paths (sys.state_file s.world)) s.world in
          (result, with_world s w))
      else (
        record {
          status = preflight_rejected;
          previous_version = [];
          candidate_version = q.artifact.version;
        },
        s,
      )
