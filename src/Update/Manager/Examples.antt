-- ===== src/Update/Manager/Examples.antt =====
-- Runs of the update manager, on a machine whose files are all in order.
use cheburnet.Base.{
  ◌≡◌, ◌≢◌, ◌↔◌, refl, arith, Bool, true, false, [], ◌∷◌, ◌++◌, some, none, Bytes, codes, bytes_eq,
  All, not, ◌&&◌, if◌then◌else◌,
}
use cheburnet.Json.{lookup, find, as_uint64, whole_u64}
use cheburnet.Json.Parser.{parser_code}
use cheburnet.Version.{version_code, break_at}
use cheburnet.Core.Files.{Files}
use cheburnet.Core.Paths.{RuntimePaths, for_owned_root, runtime_paths, choose_version}
use cheburnet.Settings.Config.{off}
use cheburnet.Settings.Strategies.{RuntimeStrategy}
use cheburnet.Update.Manifest.{
  Artifact, read_string, read_uint, valid_sha, valid_generated_at, valid_key_id, is_https_url,
  parse_common, parse_payload, parse_launcher, parse_envelope, parse_artifacts, read_manifest,
  parse_manifest,
}
use cheburnet.Update.Eligibility.{
  evaluate_payload, evaluate_launcher, judge_payload, judge_launcher, upgrade,
}
use cheburnet.Update.Manager.{
  System, Build, Session, HttpResult, http_ok, missing, CheckResult, available, current_payload,
  evaluate, check_signature, fetch_signature, check_now, is_safe_staging_file_name,
  download_verified, staged_path,
}
use cheburnet.Update.Manager.Trust.{IsOutcome, Reach, opened, checked, check_now-IsOutcome}
use cheburnet.Launch.Recovery.{iequals_ascii}
use cheburnet.Core.SecureFs.{
  fold_path, folded_path, is_below, is_strict_descendant, validate_from, validate_path_components,
  parent_of, remove_tree_under,
}
use cheburnet.Update.Package.{
  normalize_package_path, normalize_from, good_component, reserved, allowlisted, scan_entry,
  scan_entries, validate_package_entries,
}
use cheburnet.Update.Package.Header.{
  read_header, read_entry, list_entry, list_entries, read_members, finish_package,
  parse_package_file,
}
use cheburnet.Update.Package.Extract.{
  to_windows_path, read_exact, validate_artifact_file, entry_content, extract_entry,
  extract_entries, extract_package, is_entry_file, entry_in_place, entries_in_place,
  verify_extracted_package,
}
use cheburnet.Update.StateStore.{
  save_state, valid_state, valid_optional_version, can_save_text, find_first_not_of, text,
  serialize_runtime_state,
}
use cheburnet.Update.StateStore
use cheburnet.Update.Activation.{
  call, restore, rollback, commit_candidate, switch_over, activate_runtime,
}
use cheburnet.Update.Manager.Apply.{Machine, is_newer, is_staged, read_package, paths_of, save}
use cheburnet.Update.Manager.Apply.Switch.{launch_version, health_version, switch_payload}
use cheburnet.Update.Manager.Apply.Candidate.{
  Request, rollback_catalog, discard, apply_stored, apply_payload,
}
use cheburnet.Update.Manager.Apply.Applied.{IsApplied, apply_payload-IsApplied}
use cheburnet.Update.Eligibility.{current}
use cheburnet.Update.Package.{contains, regular}
use cheburnet.Update.Package.Header.{PackageInfo}
use cheburnet.Update.Package.Extract.Frame.{
  IsInPlace, IsFrame, extract_package-frame, verify_extracted_package-IsInPlace,
}
use cheburnet.Core.Files.{a_directory}
use cheburnet.Core.SecureFs.Folded.{IsUnder}
use cheburnet.Core.SecureFs.Below.{
  is_strict_descendant_trans, is_strict_descendant-IsUnder, validate_path_components-ancestors,
}
use cheburnet.Update.Manager.{is_upgrade}
use cheburnet.Update.Manager.Names.{is_safe_staging_file_name-good_component}
use cheburnet.Update.Manager.Notify.{payload_version, should_notify, should_notify-skipped}
use cheburnet.Update.Manager.Download.{IsSigned, IsFileOf, download_verified_sound}

-- The code that a check runs through.
unfoldable check_code : Unit {0}
unfolding parser_code version_code check_now fetch_signature check_signature evaluate
    current_payload parse_manifest read_manifest parse_envelope parse_artifacts parse_launcher
    parse_payload parse_common is_https_url valid_key_id valid_generated_at valid_sha read_uint
    read_string find lookup as_uint64 whole_u64 evaluate_payload evaluate_launcher judge_payload
    judge_launcher bytes_eq break_at validate_artifact_file iequals_ascii
check_code = tt

-- The code that an update runs through, behind the check.
unfoldable apply_code : Unit {0}
unfolding fold_path is_below is_strict_descendant validate_from validate_path_components parent_of
    remove_tree_under normalize_package_path normalize_from good_component reserved allowlisted
    scan_entry scan_entries validate_package_entries read_header read_entry list_entry list_entries
    read_members finish_package parse_package_file to_windows_path read_exact entry_content
    extract_entry extract_entries extract_package is_entry_file entry_in_place entries_in_place
    verify_extracted_package save_state valid_state valid_optional_version can_save_text
    find_first_not_of text call restore rollback commit_candidate switch_over activate_runtime
    is_newer is_staged read_package paths_of save launch_version health_version switch_payload
    rollback_catalog discard apply_stored apply_payload
apply_code = tt

abbrev W : Type 0
W = Unit {0}

abbrev staged_file : Bytes
staged_file = codes "C:\\P\\CHEBURNET\\updates\\payload.bin"

abbrev hash : Bytes
hash = codes "0000000000000000000000000000000000000000000000000000000000000000"

-- A package of this payload: a header of 694 bytes and four files of one byte.
abbrev package_bytes : Bytes
package_bytes =
    codes "CBPKG1\r\n"
    ++ ((182 ∷ 2 ∷ 0 ∷ 0 ∷ [])
        ++ (codes
              "{\"schema\":1,\"payload_schema\":1,\"strategy_schema\":1,\"payload_version\":\"1.10.1a\",\"provider\":\"Flowseal/zapret-discord-youtube\",\"files\":[{\"path\":\"bin/winws.exe\",\"type\":\"file\",\"size\":1,\"offset\":0,\"sha256\":\"0000000000000000000000000000000000000000000000000000000000000000\"},{\"path\":\"provenance.json\",\"type\":\"file\",\"size\":1,\"offset\":1,\"sha256\":\"0000000000000000000000000000000000000000000000000000000000000000\"},{\"path\":\"strategies/catalog.json\",\"type\":\"file\",\"size\":1,\"offset\":2,\"sha256\":\"0000000000000000000000000000000000000000000000000000000000000000\"},{\"path\":\"runtime-manifest.json\",\"type\":\"file\",\"size\":1,\"offset\":3,\"sha256\":\"0000000000000000000000000000000000000000000000000000000000000000\"}]}"
            ++ codes "abcd"))

abbrev files : Files W
files = record {
  full_path = λ path. path;
  to_lower = λ c. c;
  exists = λ path w. false;
  validate_object = λ path kind single w. true;
  validate_protected = λ path kind single w. true;
  ensure_protected = λ path w. (true, w);
  remove_tree = λ path w. (true, w);
  atomic_write = λ path content sha256 w. (true, w);
  open_package = λ path w. some package_bytes;
  file_size = λ path w. if bytes_eq path staged_file then some 710 else some 1;
  sha256_file = λ path w. some hash;
  sha256_hex = λ content. some hash;
}

-- The manifest of a release with a new payload.
abbrev manifest_text : Bytes
manifest_text =
    codes
      "{\"schema\":1,\"channel\":\"stable\",\"generated_at\":\"2025-01-01T00:00:00Z\",\"key_id\":\"k\",\"launcher\":{\"version\":\"1.0.0\",\"url\":\"https://h/l\",\"sha256\":\"0000000000000000000000000000000000000000000000000000000000000000\",\"size\":1,\"minimum_supported_version\":\"1.0.0\"},\"payload\":{\"version\":\"1.10.1a\",\"url\":\"https://h/p\",\"sha256\":\"0000000000000000000000000000000000000000000000000000000000000000\",\"size\":710,\"provider\":\"Flowseal/zapret-discord-youtube\",\"minimum_launcher_version\":\"1.0.0\",\"upstream_release_url\":\"https://h/u\",\"payload_schema\":1,\"strategy_schema\":1}}"

abbrev answer : HttpResult
answer = record { status = http_ok; etag = codes "e"; body = manifest_text }

abbrev sys : System W
sys = record {
  get = λ url limit etag w. (answer, w);
  download = λ url path size sha256 w. (http_ok, w);
  verify = λ bytes signature key_id. true;
  state_file = λ w. missing;
  files = files;
  to_utf16 = λ s. s;
}

abbrev build : Build
build = record { version = codes "1.0.0"; stable_channel = true; upstream_version = codes "1.10.1" }

abbrev start : Session W
start = record { etag = []; verified = none; world = tt }

abbrev payload_artifact : Artifact
payload_artifact = record {
  version = codes "1.10.1a";
  url = codes "https://h/p";
  sha256 = hash;
  size = 710;
  minimum_supported_version = [];
  minimum_launcher_version = codes "1.0.0";
  payload_schema = 1;
  strategy_schema = 1;
  provider = codes "Flowseal/zapret-discord-youtube";
  upstream_release_url = codes "https://h/u";
}

-- The manifest is accepted, and its payload offered.
offered : (check_now sys build true start).0.status ≡ available
unfolding check_code
offered = refl

check_now-IsOutcome_example : IsOutcome sys build start (check_now sys build true start)
check_now-IsOutcome_example = check_now-IsOutcome sys build true start tt

-- The session after the check.
abbrev checked_session : Session W
checked_session = (check_now sys build true start).1

abbrev staging_dir : Bytes
staging_dir = codes "C:\\P\\CHEBURNET\\updates"

checked_session-Reach : Reach sys build checked_session
checked_session-Reach = checked {s = start} true (opened tt)

download_verified_sound_example :
    IsSigned sys build payload_artifact
    × ((is_safe_staging_file_name (codes "payload.bin") ≡ true)
        × ((staged_file ≡ staged_path sys build staging_dir (codes "payload.bin"))
            × IsFileOf sys build payload_artifact staged_file
                (download_verified sys build staging_dir payload_artifact
                  (codes "payload.bin")
                  checked_session).1.world))
unfolding check_code download_verified is_safe_staging_file_name
download_verified_sound_example =
    download_verified_sound sys build staging_dir payload_artifact (codes "payload.bin")
      {s = checked_session} {path = staged_file} checked_session-Reach refl

abbrev general : RuntimeStrategy
general = record {
  id = codes "general";
  source_file = [];
  display_name = [];
  description = [];
  recommended = true;
  arg_template = [];
}

abbrev machine : Machine W W
machine = record {
  write_state = λ text w. (true, w);
  installed = λ paths w. some (general ∷ []);
  connected = λ p w. true;
  stop = λ p w. (true, w);
  detach = λ p w. w;
  start = λ paths arguments w. (some tt, w);
  recorded_alive = λ paths w. true;
  registry = λ w. general ∷ [];
  activate_catalog = λ catalog w. w;
  program_data = codes "C:\\P";
}

abbrev here : RuntimePaths
here = for_owned_root (codes "C:\\P\\CHEBURNET") (codes "1.10.1")

abbrev request : Request W
request = record {
  artifact = payload_artifact;
  staged = staged_file;
  manager = tt;
  strategy_id = codes "general";
  game_filter = off;
  key_id = codes "k";
}

apply_payload-IsApplied_example :
    IsApplied sys machine build here request tt
      (apply_payload sys machine build here request checked_session).0
      (apply_payload sys machine build here request checked_session).1.world
unfolding check_code apply_code StateStore.can_save_sha for_owned_root runtime_paths choose_version
apply_payload-IsApplied_example =
    apply_payload-IsApplied sys machine build here request {s = checked_session}
      checked_session-Reach refl

is_safe_staging_file_name-good_component_example :
    (good_component (codes "payload.bin") ≡ true)
    × ((contains b'/' (codes "payload.bin") ≡ false)
        × ((contains b'\\' (codes "payload.bin") ≡ false)
            × (contains b':' (codes "payload.bin") ≡ false)))
unfolding check_code is_safe_staging_file_name
is_safe_staging_file_name-good_component_example =
    is_safe_staging_file_name-good_component (codes "payload.bin") refl

-- The result of the check, which offers the payload.
abbrev offer : CheckResult
offer = record {
  status = available;
  message = [];
  manifest = some (record {
    schema = 1;
    channel = codes "stable";
    generated_at = [];
    key_id = codes "k";
    launcher = payload_artifact;
    payload = payload_artifact;
  });
  launcher = current;
  payload = upgrade;
}

should_notify-skipped_example :
    (offer.status ≡ available)
    × ((is_upgrade offer.launcher ≡ false)
        × ((is_upgrade offer.payload ≡ true) × (payload_version offer ≡ codes "1.10.1a")))
unfolding should_notify bytes_eq
should_notify-skipped_example =
    should_notify-skipped offer (codes "1.10.1") (codes "1.10.1a") refl refl

abbrev info : PackageInfo
info = record {
  schema = 1;
  payload_version = codes "1.10.1a";
  provider = codes "Flowseal/zapret-discord-youtube";
  payload_schema = 1;
  strategy_schema = 1;
  data_offset = 706;
  runtime_manifest_index = some 1;
  entries =
      record { path = codes "bin/winws.exe"; type = regular; size = 1; sha256 = hash }
      ∷ record { path = codes "runtime-manifest.json"; type = regular; size = 1; sha256 = hash }
      ∷ [];
}

abbrev destination : Bytes
destination = codes "C:\\P\\CHEBURNET\\runtime\\1.10.1a"

verify_extracted_package-IsInPlace_example :
    (validate_path_components files destination tt ≡ true)
    × All (IsInPlace files destination tt) info.entries
unfolding check_code apply_code
verify_extracted_package-IsInPlace_example =
    verify_extracted_package-IsInPlace files info destination tt refl

-- A machine that only knows whether a file of somebody else is still there.
abbrev foreign_file : Bytes
foreign_file = codes "C:\\other.txt"

abbrev watched : Files Bool
watched = record {
  full_path = λ path. path;
  to_lower = λ c. c;
  exists = λ path w. false;
  validate_object = λ path kind single w. true;
  validate_protected = λ path kind single w. true;
  ensure_protected = λ path w. (true, w);
  remove_tree = λ path w. (true, w && not (bytes_eq path foreign_file));
  atomic_write = λ path content sha256 w. (true, w && not (bytes_eq path foreign_file));
  open_package = λ path w. some package_bytes;
  file_size = λ path w. some 1;
  sha256_file = λ path w. some hash;
  sha256_hex = λ content. some hash;
}

still_there : (w : Bool) → w ≡ true → (w && true) ≡ true
still_there w p = ground arith

watched-IsFrame : IsFrame watched destination info.entries (λ w. w ≡ true)
unfolding to_windows_path bytes_eq
watched-IsFrame = record {
  on_destination = λ w p. p;
  on_folders = (λ folder w e p. p, (λ folder w e p. p, tt));
  on_files = (λ content w c p. still_there w p, (λ content w c p. still_there w p, tt));
  on_removal = λ w p. still_there w p;
}

extract_package-frame_example :
    (extract_package watched staged_file info
      (codes "C:\\P\\CHEBURNET\\runtime")
      destination
      true).1
    ≡ true
extract_package-frame_example =
    extract_package-frame watched (λ w. w ≡ true) destination staged_file
      (codes "C:\\P\\CHEBURNET\\runtime") info true watched-IsFrame refl

is_strict_descendant_trans_example :
    (is_strict_descendant files (codes "C:\\P") (codes "C:\\P\\a\\b") ≡ true)
    × (IsUnder (folded_path files (codes "C:\\P")) (folded_path files (codes "C:\\P\\a\\b"))
        × (is_strict_descendant files (codes "C:\\P\\a\\b") (codes "C:\\P") ≡ false))
unfolding check_code apply_code
is_strict_descendant_trans_example =
    is_strict_descendant_trans files (codes "C:\\P") (codes "C:\\P\\a") (codes "C:\\P\\a\\b") refl
      refl

is_strict_descendant-IsUnder_example :
    (is_strict_descendant files (codes "C:\\P") (codes "C:\\P\\a") ≡ true) ↔ (
      (folded_path files (codes "C:\\P") ≢ [])
      × IsUnder (folded_path files (codes "C:\\P")) (folded_path files (codes "C:\\P\\a")))
is_strict_descendant-IsUnder_example =
    is_strict_descendant-IsUnder files (codes "C:\\P") (codes "C:\\P\\a")

validate_path_components-ancestors_example :
    (files.validate_object (codes "C:\\P") a_directory false tt ≡ true)
    × (files.validate_object (codes "C:\\P\\a") a_directory false tt ≡ true)
unfolding check_code apply_code
validate_path_components-ancestors_example =
    validate_path_components-ancestors files (codes "C:\\P\\a") b'C' (codes "P") (codes "a") tt refl
      refl
