-- ===== src/Update/Eligibility.antt =====
-- `EvaluatePayload` and `EvaluateLauncher` of update/UpdateManifest.cpp.
pub mod Chain
use Prim.Native.Nat.{Ordering}
use Prim.Native.Nat.Ordering.{lt, eq, gt}
use cheburnet.Base.{
  ℕ, Bool, true, false, not, ◌&&◌, ◌||◌, Option, none, some, Bytes, ◌≡◌, ◌==◌, if◌then◌else◌, arith,
  ◌⊎◌, inl, inr,
}
use cheburnet.Version.{Version, parse_version, compare_versions}
use cheburnet.Update.Manifest.{Manifest, Artifact}

pub data Eligibility : Type 0 where
  current upgrade downgrade_rejected prerelease_rejected launcher_too_old : Eligibility
  schema_unsupported invalid_version : Eligibility

-- CHEBURNET_PAYLOAD_SCHEMA and CHEBURNET_STRATEGY_SCHEMA of util/Version.h.
abbrev pub supported_payload_schema : ℕ
supported_payload_schema = 1

abbrev pub supported_strategy_schema : ℕ
supported_strategy_schema = 1

abbrev pub is_lt : Ordering → Bool
is_lt lt = true
is_lt _ = false

-- `EvaluatePayload` on the versions that were parsed; the numbers are the schemas of the payload.
unfoldable pub judge_payload : Version → Version → Version → Version → ℕ → ℕ → Bool → Eligibility
judge_payload now candidate launcher minimum payload_schema strategy_schema stable =
    if stable && candidate.prerelease
    then prerelease_rejected
    else elim (compare_versions candidate now) [
      | lt ↦ downgrade_rejected
      | eq ↦ current
      | gt ↦
          if is_lt (compare_versions launcher minimum)
          then launcher_too_old
          else if not (payload_schema == supported_payload_schema)
              || not (strategy_schema == supported_strategy_schema)
          then schema_unsupported
          else upgrade
    ]

unfoldable pub evaluate_payload : Manifest → Bytes → Bytes → Bool → Eligibility
evaluate_payload m current_payload launcher_version stable = elim (parse_version current_payload) [
  | none ↦ invalid_version
  | some now ↦ elim (parse_version m.payload.version) [
    | none ↦ invalid_version
    | some candidate ↦ elim (parse_version launcher_version) [
      | none ↦ invalid_version
      | some launcher ↦ elim (parse_version m.payload.minimum_launcher_version) [
        | none ↦ invalid_version
        | some minimum ↦
            judge_payload now candidate launcher minimum m.payload.payload_schema
              m.payload.strategy_schema stable
      ]
    ]
  ]
]

unfoldable pub judge_launcher : Version → Version → Version → Bool → Eligibility
judge_launcher now candidate minimum stable =
    if stable && candidate.prerelease
    then prerelease_rejected
    else elim (compare_versions candidate now) [
      | lt ↦ downgrade_rejected
      | eq ↦ current
      | gt ↦ if is_lt (compare_versions now minimum) then launcher_too_old else upgrade
    ]

unfoldable pub evaluate_launcher : Manifest → Bytes → Bool → Eligibility
evaluate_launcher m current_launcher stable = elim (parse_version current_launcher) [
  | none ↦ invalid_version
  | some now ↦ elim (parse_version m.launcher.version) [
    | none ↦ invalid_version
    | some candidate ↦ elim (parse_version m.launcher.minimum_supported_version) [
      | none ↦ invalid_version
      | some minimum ↦ judge_launcher now candidate minimum stable
    ]
  ]
]
