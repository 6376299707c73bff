-- ===== src/Update/Manager/Apply/Switch.antt =====
-- `ApplyPayload` once the candidate lies in its place and the pending state is saved: the hooks that
-- it gives to `ActivateRuntime`, and what it makes of the outcome.
use cheburnet.Base.{
  Bool, true, false, not, Option, none, some, List, [], ◌++◌, Bytes, codes, bytes_eq, if◌then◌else◌,
}
use cheburnet.Core.Paths.{RuntimePaths}
use cheburnet.Settings.Config.{GameFilterMode}
use cheburnet.Settings.Strategies.{RuntimeStrategy, build_arguments}
use cheburnet.Update.Manifest.{Artifact}
use cheburnet.Update.StateStore.{StoredRuntimeState}
use cheburnet.Update.Activation.{
  RuntimeState, ActivationStatus, activated, stop_failed, preflight_failed, rollback_failed, Hooks,
  activate_runtime,
}
use cheburnet.Update.Manager.{System, Build}
use cheburnet.Update.Manager.Apply.{
  Machine, PayloadApplyStatus, applied, stop_rejected, preflight_rejected, payload_rolled_back,
  payload_rollback_failed, save,
}

-- What is settled before the switch.
pub record Plan (P : Type 0) : Type 0 where
  pub artifact : Artifact
  pub key_id : Bytes
  pub stored : StoredRuntimeState
  pub catalog : List RuntimeStrategy
  pub strategy : RuntimeStrategy
  pub rollback_strategy : Option RuntimeStrategy
  pub was_running : Bool
  pub manager : P
  pub game_filter : GameFilterMode
  pub candidate_paths : RuntimePaths
  pub previous_paths : RuntimePaths

-- The world of the hooks: `candidateManager` beside the machine's.
abbrev pub Switching : Type 0 → Type 0 → Type 0
Switching W P = W × Option P

module _ {W P : Type 0} (sys : System W) (machine : Machine W P) (build : Build)
    (plan : Plan P) where
  abbrev pub is_candidate : Bytes → Bool
  is_candidate version = bytes_eq version plan.artifact.version

  abbrev pub arguments : RuntimePaths → RuntimeStrategy → List Bytes
  arguments paths strategy =
      build_arguments paths.bin_dir paths.lists_dir plan.game_filter
        (paths.user_dir ++ codes "\\lists") strategy.arg_template

  -- The candidate is started and kept.
  abbrev start_candidate : Switching W P → Bool × Switching W P
  start_candidate (w, kept) =
      let (made, w₁) =
        machine.start plan.candidate_paths (arguments plan.candidate_paths plan.strategy) w in
      elim made [ none ↦ (false, (w₁, kept)) | some p ↦ (true, (w₁, some p)) ]

  -- The previous runtime is started and let go, once the candidate was stopped.
  abbrev start_previous : Option RuntimeStrategy → Option P → Bool × W → Bool × Switching W P
  start_previous strategy kept (false, w) = (false, (w, kept))
  start_previous none kept (true, w) = (false, (w, kept))
  start_previous (some strategy) kept (true, w) =
      let (made, w₁) =
        machine.start plan.previous_paths (arguments plan.previous_paths strategy) w in
      elim made [ none ↦ (false, (w₁, kept)) | some p ↦ (true, (machine.detach p w₁, kept)) ]

  abbrev stop_kept : Option P → W → Bool × W
  stop_kept none w = (true, w)
  stop_kept (some p) w = machine.stop p w

  -- `launchVersion`
  unfoldable pub launch_version : Bytes → Switching W P → Bool × Switching W P
  launch_version version (w, kept) =
      if not plan.was_running
      then (true, (w, kept))
      else if is_candidate version
      then start_candidate (w, kept)
      else start_previous plan.rollback_strategy kept (stop_kept kept w)

  -- `healthVersion`
  unfoldable pub health_version : Bytes → Switching W P → Bool × Switching W P
  health_version version (w, kept) =
      let alive =
        if not plan.was_running
        then true
        else if is_candidate version
        then elim kept [ none ↦ false | some p ↦ machine.connected p w ]
        else machine.recorded_alive plan.previous_paths w in
      (alive, (w, kept))

  abbrev pub final_state : RuntimeState → StoredRuntimeState
  final_state committed = record {
    current = committed.current;
    previous_known_good = committed.previous_known_good;
    pending = [];
    package_sha256 = plan.artifact.sha256;
    manifest_key_id = plan.key_id;
    last_result = codes "payload-update-committed";
  }

  abbrev beside : Option P → Bool × W → Bool × Switching W P
  beside kept (done, w) = (done, (w, kept))

  abbrev pub hooks : Hooks (Switching W P)
  hooks = record {
    preflight = some (λ version s. (is_candidate version, s));
    stop_current = some (λ _ (w, kept). elim plan.was_running [
      | false ↦ (true, (w, kept))
      | true ↦ beside kept (machine.stop plan.manager w)
    ]);
    start = some launch_version;
    health = some health_version;
    commit =
        some
          (λ committed (w, kept). beside kept (save sys machine build (final_state committed) w));
  }

  abbrev pub before : RuntimeState
  before = record {
    current = plan.stored.current;
    previous_known_good = plan.stored.previous_known_good;
  }

  abbrev pub detach_kept : Option P → W → W
  detach_kept none w = w
  detach_kept (some p) w = machine.detach p w

  abbrev stop_connected : Option P → W → W
  stop_connected none w = w
  stop_connected (some p) w = if machine.connected p w then (machine.stop p w).1 else w

  abbrev is_rollback_failed : ActivationStatus → Bool
  is_rollback_failed rollback_failed = true
  is_rollback_failed _ = false

  abbrev pub rolled_back_state : ActivationStatus → StoredRuntimeState
  rolled_back_state status = record plan.stored {
    pending = [];
    package_sha256 = plan.artifact.sha256;
    last_result =
        if is_rollback_failed status
        then codes "payload-rollback-failed"
        else codes "payload-update-rolled-back";
  }

  -- The status of a switch that did not go through, with whether the state was saved again.
  abbrev pub failed_status : Bool → ActivationStatus → PayloadApplyStatus
  failed_status false status = payload_rollback_failed
  failed_status true rollback_failed = payload_rollback_failed
  failed_status true stop_failed = stop_rejected
  failed_status true preflight_failed = preflight_rejected
  failed_status true status = payload_rolled_back

  abbrev revert : ActivationStatus → Bool × W → PayloadApplyStatus × W
  revert status (restored, w) = (failed_status restored status, w)

  -- With the outcome of `ActivateRuntime`.
  abbrev pub finish_switch : ActivationStatus → Switching W P → PayloadApplyStatus × W
  finish_switch activated (w, kept) =
      (applied, machine.activate_catalog plan.catalog (detach_kept kept w))
  finish_switch status (w, kept) =
      revert status (save sys machine build (rolled_back_state status) (stop_connected kept w))

  unfoldable pub switch_payload : W → PayloadApplyStatus × W
  switch_payload w =
      let (outcome, s) = activate_runtime before plan.artifact.version hooks (w, none) in
      finish_switch outcome.status s
