-- ===== src/Update/Activation.antt =====
-- update/RuntimeActivation.cpp. A hook is a function of the outside world, and may be missing, as a
-- `std::function` may be empty; `ActivateRuntime` passes the world through its calls.
pub mod Calls
use cheburnet.Base.{
  ℕ, Bool, true, false, not, ◌&&◌, List, [], ◌∷◌, ◌++◌, Option, none, some, Bytes, is_empty,
  if◌then◌else◌,
}

pub record RuntimeState : Type 0 where
  pub current : Bytes
  pub previous_known_good : Bytes

pub data ActivationStatus : Type 0 where
  activated preflight_failed stop_failed start_failed : ActivationStatus
  health_failed commit_failed rolled_back rollback_failed : ActivationStatus

pub record ActivationResult : Type 0 where
  pub status : ActivationStatus
  pub state : RuntimeState

abbrev pub Hook : Type 0 → Type 0 → Type 0
Hook W A = Option (A → W → Bool × W)

pub record Hooks (W : Type 0) : Type 0 where
  pub preflight : Hook W Bytes
  pub stop_current : Hook W (Unit {0})
  pub start : Hook W Bytes
  pub health : Hook W Bytes
  pub commit : Hook W RuntimeState

-- `hook && hook(argument)`
unfoldable pub call : {W A : Type 0} → Hook W A → A → W → Bool × W
call none a w = (false, w)
call (some f) a w = f a w

module _ {W : Type 0} (before : RuntimeState) (candidate : Bytes) (hooks : Hooks W) where
  -- The lambda `rollback`: whether the runtime from before is started and healthy again.
  unfoldable pub restore : W → Bool × W
  restore w =
      if is_empty before.current
      then (false, w)
      else let (started, w₁) = call hooks.start before.current w in
        elim started [ false ↦ (false, w₁) | true ↦ call hooks.health before.current w₁ ]

  unfoldable pub rollback : W → ActivationResult × W
  rollback w =
      let (restored, w₁) = restore w in
      (record { status = if restored then rolled_back else rollback_failed; state = before }, w₁)

  abbrev pub committed_state : RuntimeState
  committed_state = record { current = candidate; previous_known_good = before.current }

  unfoldable pub commit_candidate : W → ActivationResult × W
  commit_candidate w =
      let (committed, w₁) = call hooks.commit committed_state w in
      elim committed [
        | false ↦ rollback w₁
        | true ↦ (record { status = activated; state = committed_state }, w₁)
      ]

  unfoldable pub switch_over : W → ActivationResult × W
  switch_over w =
      let (started, w₁) = call hooks.start candidate w in
      elim started [
        | false ↦ rollback w₁
        | true ↦
            let (healthy, w₂) = call hooks.health candidate w₁ in
            elim healthy [ false ↦ rollback w₂ | true ↦ commit_candidate w₂ ]
      ]

  unfoldable pub activate_runtime : W → ActivationResult × W
  activate_runtime w =
      let (passed, w₁) = call hooks.preflight candidate w in
      elim passed [
        | false ↦ (record { status = preflight_failed; state = before }, w₁)
        | true ↦
            let (stopped, w₂) = call hooks.stop_current tt w₁ in
            elim stopped [
              | false ↦ (record { status = stop_failed; state = before }, w₂)
              | true ↦ switch_over w₂
            ]
      ]
