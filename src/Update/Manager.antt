-- ===== src/Update/Manager.antt =====
-- update/UpdateManager.cpp: `CheckNow` and `DownloadVerified`; `ApplyPayload` is in Manager/Apply. The
-- network, the files and the signature check are operations on a world, and the cache of the verified
-- manifest, three globals under a mutex, is part of the state that the calls pass on.
pub mod Trust
pub mod Download
pub mod Names
pub mod Notify
pub mod Apply
mod Examples
use cheburnet.Base.{
  ℕ, ◌*◌, ◌-◌, Bool, true, false, not, ◌&&◌, ◌||◌, Option, none, some, List, [], ◌∷◌, ◌++◌, Bytes,
  codes, length, is_empty, every, bytes_eq, ltb, ◌==◌, within, take, drop, if◌then◌else◌,
}
use cheburnet.Version.{break_at}
use cheburnet.Update.Manifest.{
  Artifact, Manifest, ManifestResult, manifest, refused, parse_manifest,
}
use cheburnet.Update.Eligibility.{
  Eligibility, current, upgrade, downgrade_rejected, prerelease_rejected, launcher_too_old,
  schema_unsupported, invalid_version, evaluate_payload, evaluate_launcher,
}
use cheburnet.Update.StateStore.{StoredRuntimeState, load_state}
use cheburnet.Core.Files.{Files}
use cheburnet.Update.Package.Extract.{validate_artifact_file}

pub data CheckStatus : Type 0 where
  up_to_date available offline disabled rejected unmodified : CheckStatus

pub record CheckResult : Type 0 where
  pub status : CheckStatus
  pub message : Bytes
  pub manifest : Option Manifest
  pub launcher : Eligibility
  pub payload : Eligibility

abbrev new_result : CheckResult
new_result = record {
  status = offline;
  message = [];
  manifest = none;
  launcher = invalid_version;
  payload = invalid_version;
}

pub data HttpStatus : Type 0 where
  http_ok not_modified cancelled invalid_url insecure_redirect redirect_limit : HttpStatus
  timeout too_large truncated http_error win_http_error : HttpStatus

pub record HttpResult : Type 0 where
  pub status : HttpStatus
  pub etag : Bytes
  pub body : Bytes

-- The file of the runtime state: `missing`, or what was read of it, where `none` stands for a file
-- that the checks of its path, its object or its size refuse, or that cannot be read.
pub data StateFile : Type 0 where
  missing : StateFile
  read : Option Bytes → StateFile

pub record System (W : Type 0) : Type 0 where
  -- `Get` of a URL, with the limit of the body and the etag to send.
  pub get : Bytes → ℕ → Bytes → W → HttpResult × W
  -- `DownloadToProtectedFile` of a URL, with the path, the size and the SHA-256.
  pub download : Bytes → Bytes → ℕ → Bytes → W → HttpStatus × W
  -- `VerifyManifestSignature` of a text, its signature and the id of the key.
  pub verify : Bytes → Bytes → Bytes → Bool
  pub state_file : W → StateFile
  pub files : Files W
  pub to_utf16 : Bytes → Bytes

-- What the build settles.
pub record Build : Type 0 where
  pub version : Bytes
  pub stable_channel : Bool
  pub upstream_version : Bytes

-- What lasts from one call to the next.
pub record Session (W : Type 0) : Type 0 where
  pub etag : Bytes
  pub verified : Option CheckResult
  pub world : W

abbrev pub with_world : {W : Type 0} → Session W → W → Session W
with_world s w = record s { world = w }

abbrev pub same_artifact : Artifact → Artifact → Bool
same_artifact a b =
    bytes_eq a.version b.version
    && (bytes_eq a.url b.url
        && (bytes_eq a.sha256 b.sha256
            && (a.size == b.size
                && (bytes_eq a.minimum_supported_version b.minimum_supported_version
                    && (bytes_eq a.minimum_launcher_version b.minimum_launcher_version
                        && (a.payload_schema == b.payload_schema
                            && (a.strategy_schema == b.strategy_schema
                                && (bytes_eq a.provider b.provider
                                    && bytes_eq a.upstream_release_url
                                        b.upstream_release_url))))))))

-- `ErrorFor`
abbrev error_for : HttpStatus → Bytes
error_for timeout = codes "тайм-аут"
error_for cancelled = codes "отменено"
error_for too_large = codes "превышен лимит размера"
error_for insecure_redirect = codes "небезопасная переадресация отклонена"
error_for redirect_limit = codes "слишком много переадресаций"
error_for truncated = codes "усечённый ответ"
error_for _ = codes "сеть недоступна"

abbrev pub to_upper : ℕ → ℕ
to_upper c = if within b'a' b'z' c then c - 32 else c

abbrev pub upper : Bytes → Bytes
upper [] = []
upper (c ∷ s) = to_upper c ∷ upper s

abbrev pub last_is : ℕ → Bytes → Bool
last_is c [] = false
last_is c (x ∷ []) = x == c
last_is c (x ∷ y ∷ s) = last_is c (y ∷ s)

abbrev pub first_is : ℕ → Bytes → Bool
first_is c [] = false
first_is c (x ∷ s) = x == c

abbrev pub staging_char : ℕ → Bool
staging_char c =
    within b'a' b'z' c
    || (within b'A' b'Z' c || (within b'0' b'9' c || (c == b'.' || (c == b'_' || c == b'-'))))

abbrev pub device_name : Bytes → Bool
device_name base =
    bytes_eq base (codes "CON")
    || (bytes_eq base (codes "PRN")
        || (bytes_eq base (codes "AUX")
            || (bytes_eq base (codes "NUL")
                || (length base == 4
                    && ((bytes_eq (take 3 base) (codes "COM")
                          || bytes_eq (take 3 base) (codes "LPT"))
                        && every (within b'1' b'9') (drop 3 base))))))

unfoldable pub is_safe_staging_file_name : Bytes → Bool
is_safe_staging_file_name name =
    not (
      is_empty name
      || (ltb 128 (length name)
          || (first_is b'.' name || (last_is b'.' name || last_is b' ' name))))
    && (every staging_char name && not (device_name (upper (break_at b'.' name).0)))

abbrev default_manifest_url : Bytes
default_manifest_url =
    codes "https://github.com/Jacksony100/CHEBURNET/releases/latest/download/update-manifest.json"

abbrev default_signature_url : Bytes
default_signature_url =
    codes
      "https://github.com/Jacksony100/CHEBURNET/releases/latest/download/update-manifest.json.sig"

abbrev refuse : CheckStatus → Bytes → CheckResult
refuse status message = record new_result { status = status; message = message }

-- The two verdicts under which a manifest is refused.
abbrev pub launcher_refused : Eligibility → Bool
launcher_refused downgrade_rejected = true
launcher_refused prerelease_rejected = true
launcher_refused launcher_too_old = true
launcher_refused invalid_version = true
launcher_refused _ = false

abbrev pub payload_refused : Eligibility → Bool
payload_refused schema_unsupported = true
payload_refused e = launcher_refused e

abbrev pub is_upgrade : Eligibility → Bool
is_upgrade upgrade = true
is_upgrade _ = false

module _ {W : Type 0} (sys : System W) (build : Build) where
  -- `LoadRuntimeState` as `CheckNow` uses it: the version of the payload, or nothing.
  unfoldable pub current_payload : W → Option Bytes
  current_payload w = elim (sys.state_file w) [
    | missing ↦ some build.upstream_version
    | read none ↦ none
    | read (some bytes) ↦ elim (load_state bytes) [ none ↦ none | some state ↦ some state.current ]
  ]

  -- The verdict on a verified manifest.
  abbrev pub judged : Manifest → Eligibility → Eligibility → CheckResult
  judged m launcher payload =
      if launcher_refused launcher || payload_refused payload
      then record {
        status = rejected;
        message =
            codes
              "ОБНОВЛЕНИЕ ОТКЛОНЕНО: запрещено понижение/предварительная версия либо несовместима схема.";
        manifest = some m;
        launcher = launcher;
        payload = payload;
      }
      else if is_upgrade launcher || is_upgrade payload
      then record {
        status = available;
        message = codes "Доступно проверенное обновление.";
        manifest = some m;
        launcher = launcher;
        payload = payload;
      }
      else record {
        status = up_to_date;
        message = codes "CHEBURNET и движок актуальны.";
        manifest = some m;
        launcher = launcher;
        payload = payload;
      }

  -- The cache takes a result unless it is a refusal.
  abbrev pub keep : CheckResult → Bytes → Session W → Session W
  keep result etag s =
      if launcher_refused result.launcher || payload_refused result.payload
      then s
      else record s { etag = etag; verified = some result }

  -- `CheckNow` behind the signature check, with the version of the payload that is installed.
  abbrev pub evaluate_at : Manifest → Bytes → Session W → Option Bytes → CheckResult × Session W
  evaluate_at m etag s none = (
    record {
      status = rejected;
      message = codes "ОБНОВЛЕНИЕ ОТКЛОНЕНО: доверенное состояние среды недействительно.";
      manifest = some m;
      launcher = evaluate_launcher m build.version build.stable_channel;
      payload = invalid_version;
    },
    s,
  )
  evaluate_at m etag s (some now) =
      let result =
        judged m (evaluate_launcher m build.version build.stable_channel)
          (evaluate_payload m now build.version build.stable_channel) in
      (result, keep result etag s)

  unfoldable pub evaluate : Manifest → Bytes → Session W → CheckResult × Session W
  evaluate m etag s = evaluate_at m etag s (current_payload s.world)

  abbrev pub bad_signature : CheckResult
  bad_signature = refuse rejected (codes "ОБНОВЛЕНИЕ ОТКЛОНЕНО: подпись манифеста недействительна.")

  -- With what `ParseManifest` made of the bytes, for the id of the key.
  abbrev pub check_parsed :
      Bytes → Bytes → Bytes → Session W → ManifestResult → CheckResult × Session W
  check_parsed bytes signature etag s (refused why) = (bad_signature, s)
  check_parsed bytes signature etag s (manifest m) = elim (sys.verify bytes signature m.key_id) [
    | true ↦ evaluate m etag s
    | false ↦ (bad_signature, s)
  ]

  unfoldable pub check_signature : Bytes → Bytes → Bytes → Session W → CheckResult × Session W
  check_signature bytes signature etag s =
      check_parsed bytes signature etag s (parse_manifest bytes (64 * 1024))

  -- With the status and the body of the answer to the request for the signature.
  abbrev pub use_signature : HttpResult → HttpStatus → Bytes → Session W → CheckResult × Session W
  use_signature answer http_ok signature s = check_signature answer.body signature answer.etag s
  use_signature answer _ signature s =
      (refuse rejected (codes "ОБНОВЛЕНИЕ ОТКЛОНЕНО: отдельная подпись недоступна."), s)

  unfoldable pub fetch_signature : HttpResult → Session W → CheckResult × Session W
  fetch_signature answer s =
      let (signature, w) = sys.get default_signature_url 1024 [] s.world in
      use_signature answer signature.status signature.body (with_world s w)

  -- HTTP 304: the cached result.
  abbrev pub use_cache : Option CheckResult → CheckResult
  use_cache none =
      refuse rejected (codes "ОБНОВЛЕНИЕ ОТКЛОНЕНО: HTTP 304 без проверенного кэша манифеста.")
  use_cache (some result) = record result {
    message = result.message ++ codes " (проверенный кэш ETag, HTTP 304)";
  }

  -- With the answer to the request for the manifest and its status.
  abbrev pub use_answer : HttpResult → HttpStatus → Session W → CheckResult × Session W
  use_answer answer not_modified s = (use_cache s.verified, s)
  use_answer answer http_ok s = fetch_signature answer s
  use_answer answer status s =
      (refuse offline (codes "Проверка обновлений: " ++ error_for status), s)

  unfoldable pub check_now : Bool → Session W → CheckResult × Session W
  check_now false s = (refuse disabled (codes "Проверка обновлений отключена."), s)
  check_now true s =
      let (answer, w) = sys.get default_manifest_url (64 * 1024) s.etag s.world in
      use_answer answer answer.status (with_world s w)

  -- Whether the artifact is one of the two of the verified manifest.
  abbrev pub in_manifest : Artifact → Option Manifest → Bool
  in_manifest artifact none = false
  in_manifest artifact (some m) =
      same_artifact artifact m.launcher || same_artifact artifact m.payload

  abbrev pub is_bound : Artifact → Option CheckResult → Bool
  is_bound artifact none = false
  is_bound artifact (some result) = in_manifest artifact result.manifest

  abbrev pub if_valid : Bytes → Artifact → W → Option Bytes
  if_valid path artifact w =
      if validate_artifact_file sys.files path artifact.size artifact.sha256 w
      then some path
      else none

  -- With the outcome of the download.
  abbrev pub use_download : Bytes → Artifact → HttpStatus → W → Option Bytes
  use_download path artifact http_ok w = if_valid path artifact w
  use_download path artifact _ w = none

  abbrev pub staged_path : Bytes → Bytes → Bytes
  staged_path updates name = (updates ++ codes "\\") ++ name

  -- The download, once the directory was asked for.
  abbrev pub download_into : Bytes → Artifact → Bytes → Bool × W → Option Bytes × W
  download_into updates artifact name (false, w) = (none, w)
  download_into updates artifact name (true, w) =
      let path = staged_path updates name in
      let (status, w₁) =
        sys.download (sys.to_utf16 artifact.url) path artifact.size artifact.sha256 w in
      (use_download path artifact status w₁, w₁)

  -- `DownloadVerified` into the directory `updates`: the staged path, or nothing.
  unfoldable pub download_verified : Bytes → Artifact → Bytes → Session W → Option Bytes × Session W
  download_verified updates artifact name s =
      if not (is_bound artifact s.verified) || not (is_safe_staging_file_name name)
      then (none, s)
      else let (staged, w) =
          download_into updates artifact name (sys.files.ensure_protected updates s.world) in
        (staged, with_world s w)
