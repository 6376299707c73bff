-- ===== src/Update/Examples.antt =====
-- Runs of the updater.
use Prim.Native.Nat.Ordering.{lt}
use cheburnet.Base.{
  ltb, ℕ, suc, ◌≢◌, ◌≡◌, ◌↔◌, refl, arith, Bool, true, false, List, [], ◌∷◌, ◌++◌, some, none,
  Bytes, codes, bytes_eq,
}
use cheburnet.Json.{lookup, find, as_uint64, whole_u64}
use cheburnet.Json.Parser.{parser_code}
use cheburnet.Version.{Version, compare_versions, version_code, break_at}
use cheburnet.Update.Manifest.{Manifest, Artifact, read_uint}
use cheburnet.Update.Eligibility.{evaluate_payload, judge_payload, upgrade}
use cheburnet.Update.Eligibility.Chain.{
  IsUpgrade, evaluate_payload-IsUpgrade, HasFit, one, Upgrades-newer,
}
use cheburnet.Update.Package.{
  PackageEntry, regular, default_limits, validate_package_entries, normalize_package_path,
  normalize_from, good_component, reserved, allowlisted, scan_entry, scan_entries,
}
use cheburnet.Update.Package.Safe.{IsSafe, normalize_package_path-IsSafe}
use cheburnet.Update.Package.Entries.{AreSafe, AreSensible, validate_package_entries-AreSafe}
use cheburnet.Update.Package.Header.{
  PackageInfo, read_header, read_entry, list_entry, list_entries, read_members, finish_package,
  parse_package_file,
}
use cheburnet.Update.Package.Header.Layout.{IsLaidOut, parse_package_file-IsLaidOut}
use cheburnet.Update.StateStore.{
  StoredRuntimeState, valid_optional_version, valid_sha, safe_text, text, read_optional, read_state,
  load_state, save_state, serialize_runtime_state,
}
use cheburnet.Update.Activation.{
  RuntimeState, activated, call, restore, rollback, commit_candidate, switch_over, activate_runtime,
}
use cheburnet.Update.Activation.Calls.{
  Environment, recorded, all_succeed, last_two, start, health, activated-calls, rolled_back-calls,
}
use cheburnet.Update.CheckService.{
  running, ready, taken, finished, at_work, new_service, start_check, finish, try_take_result,
}
use cheburnet.Update.CheckService.Life.{
  Ledger, Reach, fresh, next, starts, takes, works, IsOrderly, Reach-IsOrderly,
}
use cheburnet.Update.StateStore.Valid.{load_state-save_state}

abbrev entry : Bytes → PackageEntry
entry path = record {
  path = path;
  type = regular;
  size = 1;
  sha256 = codes "0000000000000000000000000000000000000000000000000000000000000000";
}

abbrev four_entries : List PackageEntry
four_entries =
    entry (codes "bin/winws.exe")
    ∷ entry (codes "provenance.json")
    ∷ entry (codes "strategies/catalog.json")
    ∷ entry (codes "runtime-manifest.json")
    ∷ []

default_limits-AreSensible : AreSensible default_limits
default_limits-AreSensible = record { file_le = omega arith; total_lt = omega arith }

normalize_package_path-IsSafe_example :
    (codes "bin/winws.exe" ≡ codes "bin/winws.exe") × IsSafe (codes "bin/winws.exe")
unfolding normalize_package_path normalize_from good_component reserved allowlisted break_at
    bytes_eq
normalize_package_path-IsSafe_example =
    normalize_package_path-IsSafe (codes "bin/winws.exe") {path = codes "bin/winws.exe"} refl

validate_package_entries-AreSafe_example : AreSafe default_limits four_entries
unfolding validate_package_entries scan_entries scan_entry normalize_package_path normalize_from
    good_component reserved allowlisted break_at bytes_eq
validate_package_entries-AreSafe_example =
    validate_package_entries-AreSafe default_limits four_entries default_limits-AreSensible refl

-- A header of 664 bytes and four files of one byte.
abbrev package_bytes : Bytes
package_bytes =
    codes "CBPKG1\r\n"
    ++ ((152 ∷ 2 ∷ 0 ∷ 0 ∷ [])
        ++ (codes
              "{\"schema\":1,\"payload_schema\":1,\"strategy_schema\":1,\"payload_version\":\"1.10.1a\",\"provider\":\"p\",\"files\":[{\"path\":\"bin/winws.exe\",\"type\":\"file\",\"size\":1,\"offset\":0,\"sha256\":\"0000000000000000000000000000000000000000000000000000000000000000\"},{\"path\":\"provenance.json\",\"type\":\"file\",\"size\":1,\"offset\":1,\"sha256\":\"0000000000000000000000000000000000000000000000000000000000000000\"},{\"path\":\"strategies/catalog.json\",\"type\":\"file\",\"size\":1,\"offset\":2,\"sha256\":\"0000000000000000000000000000000000000000000000000000000000000000\"},{\"path\":\"runtime-manifest.json\",\"type\":\"file\",\"size\":1,\"offset\":3,\"sha256\":\"0000000000000000000000000000000000000000000000000000000000000000\"}]}"
            ++ codes "abcd"))

abbrev package_info : PackageInfo
package_info = record {
  schema = 1;
  payload_version = codes "1.10.1a";
  provider = codes "p";
  payload_schema = 1;
  strategy_schema = 1;
  data_offset = 676;
  runtime_manifest_index = some 3;
  entries = four_entries;
}

parse_package_file-IsLaidOut_example : IsLaidOut default_limits package_bytes package_info
unfolding parser_code version_code parse_package_file read_header read_entry list_entry list_entries
    read_members finish_package validate_package_entries scan_entries scan_entry
    normalize_package_path normalize_from good_component reserved allowlisted text read_uint find
    lookup as_uint64 whole_u64 bytes_eq
parse_package_file-IsLaidOut_example =
    parse_package_file-IsLaidOut default_limits package_bytes {p = package_info}
      default_limits-AreSensible refl

abbrev state : StoredRuntimeState
state = record {
  current = codes "1.10.1";
  previous_known_good = [];
  pending = [];
  package_sha256 = [];
  manifest_key_id = codes "key";
  last_result = [];
}

-- The text that was saved for this state.
state_loaded : load_state (serialize_runtime_state state) ≡ some state
unfolding parser_code version_code serialize_runtime_state load_state read_state read_optional text
    read_uint find lookup as_uint64 whole_u64 valid_optional_version valid_sha safe_text
state_loaded = refl

load_state-save_state_example : save_state state ≡ some (serialize_runtime_state state)
load_state-save_state_example =
    load_state-save_state (serialize_runtime_state state) {s = state} state_loaded

abbrev launcher_artifact : Artifact
launcher_artifact = record {
  version = codes "1.0.0";
  url = [];
  sha256 = [];
  size = 1;
  minimum_supported_version = codes "1.0.0";
  minimum_launcher_version = [];
  payload_schema = 0;
  strategy_schema = 0;
  provider = [];
  upstream_release_url = [];
}

abbrev offer : Manifest
offer = record {
  schema = 1;
  channel = codes "stable";
  generated_at = [];
  key_id = [];
  launcher = launcher_artifact;
  payload = record launcher_artifact {
    version = codes "1.10.1a";
    minimum_launcher_version = codes "1.0.0";
    payload_schema = 1;
    strategy_schema = 1;
  };
}

abbrev installed_version : Version
installed_version = record {
  parts = 1 ∷ 10 ∷ 1 ∷ [];
  suffix = [];
  prerelease = false;
  revision = [];
  prerelease_ids = [];
}

abbrev offered_version : Version
offered_version = record installed_version { suffix = codes "a"; revision = codes "a" }

offer_accepted : evaluate_payload offer (codes "1.10.1") (codes "1.0.0") true ≡ upgrade
unfolding version_code evaluate_payload judge_payload
offer_accepted = refl

evaluate_payload-IsUpgrade_example : IsUpgrade offer (codes "1.10.1") (codes "1.0.0") true
evaluate_payload-IsUpgrade_example =
    evaluate_payload-IsUpgrade offer (codes "1.10.1") (codes "1.0.0") true offer_accepted

installed_fits : HasFit (codes "1.10.1") installed_version
unfolding version_code
installed_fits = record { parsed = refl; fits = tt }

offered_fits : HasFit (codes "1.10.1a") offered_version
unfolding version_code
offered_fits = record { parsed = refl; fits = tt }

Upgrades-newer_example : compare_versions installed_version offered_version ≡ lt
Upgrades-newer_example =
    Upgrades-newer {v = installed_version} {w = offered_version}
      (one offer (codes "1.10.1") (codes "1.0.0") true installed_fits offered_fits offer_accepted)

abbrev before_state : RuntimeState
before_state = record { current = codes "old"; previous_known_good = [] }

-- An environment in which every hook succeeds, and one whose health check fails at first.
abbrev always : {A : Type 0} → A → ℕ → Bool × ℕ
always a n = (true, suc n)

abbrev healthy_later : Bytes → ℕ → Bool × ℕ
healthy_later a n = (ltb 0 n, suc n)

abbrev sound : Environment ℕ
sound = record {
  on_preflight = always;
  on_stop = always;
  on_start = always;
  on_health = always;
  on_commit = always;
}

abbrev unhealthy : Environment ℕ
unhealthy = record sound {
  on_preflight = λ a n. (true, n);
  on_stop = λ a n. (true, n);
  on_start = λ a n. (true, n);
  on_health = healthy_later;
}

activated-calls_example :
    ((activate_runtime before_state (codes "new") (recorded sound) (0, [])).0.status ≡ activated)
    ↔ ((activate_runtime before_state (codes "new") (recorded sound) (0, [])).1.1
        ≡ all_succeed before_state (codes "new") sound 0)
activated-calls_example = activated-calls before_state (codes "new") sound 0

rolled_back-calls_example :
    (before_state.current ≢ [])
    × (last_two (activate_runtime before_state (codes "new") (recorded unhealthy) (0, [])).1.1
        ≡ some (start (codes "old") true, health (codes "old") true))
unfolding activate_runtime switch_over commit_candidate rollback restore call
rolled_back-calls_example = rolled_back-calls before_state (codes "new") unhealthy 0 refl

abbrev taken_ledger : Ledger ℕ
taken_ledger = record {
  service = record {
    has_check = true;
    cancel = false;
    result = none;
    phase = taken;
    worker = finished;
  };
  started = 1;
  delivered = 1;
}

abbrev running_ledger : Ledger ℕ
running_ledger = record taken_ledger {
  service = record taken_ledger.service { phase = running; worker = at_work };
  delivered = 0;
}

abbrev ready_ledger : Ledger ℕ
ready_ledger = record running_ledger {
  service = record taken_ledger.service { phase = ready; result = some 7 };
}

taken_reached : Reach taken_ledger
unfolding new_service start_check finish try_take_result
taken_reached =
    next
      (next
        (next (fresh true)
          (starts (record { service = new_service true; started = 0; delivered = 0 })))
        (works running_ledger 7 refl))
      (takes ready_ledger)

Reach-IsOrderly_example : IsOrderly taken_ledger
Reach-IsOrderly_example = Reach-IsOrderly {l = taken_ledger} taken_reached
