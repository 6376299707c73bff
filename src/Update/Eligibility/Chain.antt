-- ===== src/Update/Eligibility/Chain.antt =====
-- What an update that is offered satisfies, and that a chain of them never comes back.
use Prim.Native.Nat.Ordering.{lt, gt}
use cheburnet.Base.{ℕ, Bool, false, ◌&&◌, some, Bytes, ◌≡◌, ◌≢◌, arith, Option-cases, inl, inr}
use cheburnet.Version.{Version, parse_version, compare_versions}
use cheburnet.Version.Order.{Fits, compare_versions-IsPreorder}
use cheburnet.Update.Manifest.{Manifest}
use cheburnet.Update.Eligibility.{
  upgrade, judge_payload, evaluate_payload, supported_payload_schema, supported_strategy_schema,
}

-- All that the payload of a manifest needs to be offered.
pub record IsUpgrade (m : Manifest) (current_payload launcher_version : Bytes) (stable : Bool)
    : Type 0 where
  pub now : Version
  pub candidate : Version
  pub launcher : Version
  pub minimum : Version
  pub now_parsed : parse_version current_payload ≡ some now
  pub candidate_parsed : parse_version m.payload.version ≡ some candidate
  pub launcher_parsed : parse_version launcher_version ≡ some launcher
  pub minimum_parsed : parse_version m.payload.minimum_launcher_version ≡ some minimum
  pub newer : compare_versions now candidate ≡ lt
  pub launcher_suffices : compare_versions launcher minimum ≢ lt
  pub channel : (stable && candidate.prerelease) ≡ false
  pub payload_schema : m.payload.payload_schema ≡ supported_payload_schema
  pub strategy_schema : m.payload.strategy_schema ≡ supported_strategy_schema

judge_payload-upgrade :
    (now candidate launcher minimum : Version) (p s : ℕ) (stable : Bool)
    → judge_payload now candidate launcher minimum p s stable ≡ upgrade
    → (compare_versions candidate now ≡ gt)
      × (compare_versions launcher minimum ≢ lt)
      × ((stable && candidate.prerelease) ≡ false)
      × (p ≡ supported_payload_schema)
      × (s ≡ supported_strategy_schema)
unfolding judge_payload
judge_payload-upgrade now candidate launcher minimum p s stable h = ground arith

-- A payload is offered only if all that `IsUpgrade` names holds: every version is parsed, the
-- candidate is strictly newer than what is installed, the launcher is at least the minimum that the
-- payload asks for, a stable build is offered no prerelease, and both schemas are the supported ones.
pub evaluate_payload-IsUpgrade :
    (m : Manifest) (current_payload launcher_version : Bytes) (stable : Bool)
    → evaluate_payload m current_payload launcher_version stable ≡ upgrade
    → IsUpgrade m current_payload launcher_version stable
unfolding evaluate_payload
evaluate_payload-IsUpgrade m cur l stable h = elim (Option-cases (parse_version cur)) [
  | inl e ↦ absurd (ground arith)
  | inr (now, e₁) ↦ elim (Option-cases (parse_version m.payload.version)) [
    | inl e ↦ absurd (ground arith)
    | inr (candidate, e₂) ↦ elim (Option-cases (parse_version l)) [
      | inl e ↦ absurd (ground arith)
      | inr (launcher, e₃) ↦
          elim (Option-cases (parse_version m.payload.minimum_launcher_version)) [
            | inl e ↦ absurd (ground arith)
            | inr (minimum, e₄) ↦
                let judged =
                  judge_payload-upgrade now candidate launcher minimum m.payload.payload_schema
                    m.payload.strategy_schema stable (ground arith) in
                record {
                  now = now;
                  candidate = candidate;
                  launcher = launcher;
                  minimum = minimum;
                  now_parsed = e₁;
                  candidate_parsed = e₂;
                  launcher_parsed = e₃;
                  minimum_parsed = e₄;
                  newer = ground (arith, compare_versions-IsPreorder.flip candidate now, judged.0);
                  launcher_suffices = judged.1;
                  channel = judged.2;
                  payload_schema = judged.3;
                  strategy_schema = judged.4;
                }
          ]
    ]
  ]
]

-- The text is a version whose numeric prerelease identifiers are below 2^64.
pub record HasFit (text : Bytes) (v : Version) : Type 0 where
  pub parsed : parse_version text ≡ some v
  pub fits : Fits v

-- The payload goes from one version to another by offers that are accepted, one after the other.
pub data Upgrades : Version → Version → Type 0 where
  one :
      (m : Manifest) (installed launcher_version : Bytes) (stable : Bool) {v w : Version}
      → HasFit installed v
      → HasFit m.payload.version w
      → evaluate_payload m installed launcher_version stable ≡ upgrade
      → Upgrades v w
  more :
      (m : Manifest) (installed launcher_version : Bytes) (stable : Bool) {v w u : Version}
      → HasFit installed v
      → HasFit m.payload.version w
      → evaluate_payload m installed launcher_version stable ≡ upgrade
      → Upgrades w u
      → Upgrades v u

step_newer :
    (m : Manifest) (installed launcher_version : Bytes) (stable : Bool) {v w : Version}
    → HasFit installed v
    → HasFit m.payload.version w
    → evaluate_payload m installed launcher_version stable ≡ upgrade
    → compare_versions v w ≡ lt
step_newer m installed l stable {v} {w} hv hw h =
    let u = evaluate_payload-IsUpgrade m installed l stable h in
    let ev : v ≡ u.now = ground (arith, hv.parsed, u.now_parsed) in
    let ew : w ≡ u.candidate = ground (arith, hw.parsed, u.candidate_parsed) in rw (ev, ew) u.newer

Upgrades-Fits : {v w : Version} → Upgrades v w → Fits v × Fits w
Upgrades-Fits (one m i l s hv hw h) = (hv.fits, hw.fits)
Upgrades-Fits (more m i l s hv hw h rest) = (hv.fits, (Upgrades-Fits rest).1)

-- No chain of offers leads to an older version, or back to the one that it began with, as long as
-- the numeric prerelease identifiers in it are below 2^64.
pub Upgrades-newer : {v w : Version} → Upgrades v w → compare_versions v w ≡ lt
Upgrades-newer (one m i l s hv hw h) = step_newer m i l s hv hw h
Upgrades-newer (more m i l s {v} {w} {u} hv hw h rest) =
    compare_versions-IsPreorder.lt_trans v w u hv.fits hw.fits (Upgrades-Fits rest).1
      (step_newer m i l s hv hw h) (Upgrades-newer rest)
