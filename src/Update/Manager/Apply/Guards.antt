-- ===== src/Update/Manager/Apply/Guards.antt =====
-- What the checks of `ApplyPayload` before the extraction find out.
use Prim.Native.Nat.Ordering.{gt}
use cheburnet.Base.{
  ◌≡◌, sym, ap, ◌∙◌, inl, inr, true, some, Bytes, bytes_eq_iff, arith, Option-cases,
}
use cheburnet.Version.{Version, parse_version, compare_versions}
use cheburnet.Core.Paths.{RuntimePaths}
use cheburnet.Core.SecureFs.{before_last, is_strict_descendant, validate_path_components}
use cheburnet.Update.Manifest.{Artifact}
use cheburnet.Update.Eligibility.{supported_payload_schema, supported_strategy_schema}
use cheburnet.Update.Package.{default_limits}
use cheburnet.Update.Package.Header.{PackageInfo, parse_package_file}
use cheburnet.Update.Manager.{System, Build}
use cheburnet.Update.Manager.Download.{IsFileOf, validate_artifact_file-IsFileOf}
use cheburnet.Update.Manager.Apply.{is_newer, is_staged, matches_header, read_package}

-- Both versions are parsed, the artifact's is the greater one, and its schemas are supported.
pub record IsNewer (installed : Bytes) (artifact : Artifact) : Type 0 where
  pub now : Version
  pub candidate : Version
  pub now_parsed : parse_version installed ≡ some now
  pub candidate_parsed : parse_version artifact.version ≡ some candidate
  pub greater : compare_versions candidate now ≡ gt
  pub payload_schema : artifact.payload_schema ≡ supported_payload_schema
  pub strategy_schema : artifact.strategy_schema ≡ supported_strategy_schema

pub is_newer-IsNewer :
    (installed : Bytes) (artifact : Artifact)
    → is_newer installed artifact ≡ true
    → IsNewer installed artifact
unfolding is_newer
is_newer-IsNewer installed artifact h = elim (Option-cases (parse_version installed)) [
  | inl e ↦ absurd (ground arith)
  | inr (now, e) ↦ elim (Option-cases (parse_version artifact.version)) [
    | inl f ↦ absurd (ground arith)
    | inr (candidate, f) ↦ record {
      now = now;
      candidate = candidate;
      now_parsed = e;
      candidate_parsed = f;
      greater = ground arith;
      payload_schema = ground arith;
      strategy_schema = ground arith;
    }
  ]
]

matches_header-parts :
    (info : PackageInfo) (artifact : Artifact)
    → matches_header info artifact ≡ true
    → (info.payload_version ≡ artifact.version)
      × ((info.provider ≡ artifact.provider)
          × ((info.payload_schema ≡ artifact.payload_schema)
              × (info.strategy_schema ≡ artifact.strategy_schema)))
matches_header-parts info artifact h = (
  (bytes_eq_iff info.payload_version artifact.version).0 (ground arith),
  ((bytes_eq_iff info.provider artifact.provider).0 (ground arith), ground arith),
)

module _ {W : Type 0} (sys : System W) (build : Build) (paths : RuntimePaths) (artifact : Artifact)
    (staged : Bytes) (w : W) where
  -- The staged file is the artifact's, and lies below the directory of the updates in directories that
  -- are no reparse points.
  pub record IsStaged : Type 0 where
    pub below : is_strict_descendant sys.files paths.updates_dir staged ≡ true
    pub folder : Bytes
    pub in_folder : before_last staged ≡ some folder
    pub folder_valid : validate_path_components sys.files folder w ≡ true
    pub file : IsFileOf sys build artifact staged w

  pub is_staged-IsStaged : is_staged sys build paths artifact staged w ≡ true → IsStaged
  unfolding is_staged
  is_staged-IsStaged h = elim (Option-cases (before_last staged)) [
    | inl e ↦ absurd (ground arith)
    | inr (folder, e) ↦ record {
      below = ground arith;
      folder = folder;
      in_folder = e;
      folder_valid = ground arith;
      file = validate_artifact_file-IsFileOf sys build staged artifact w (ground arith);
    }
  ]

  -- The package was parsed from the bytes of the staged file, and agrees with the artifact.
  pub record HasHeader (info : PackageInfo) : Type 0 where
    pub bytes : Bytes
    pub opened : sys.files.open_package staged w ≡ some bytes
    pub parsed : parse_package_file default_limits bytes ≡ some info
    pub version : info.payload_version ≡ artifact.version
    pub provider : info.provider ≡ artifact.provider
    pub payload_schema : info.payload_schema ≡ artifact.payload_schema
    pub strategy_schema : info.strategy_schema ≡ artifact.strategy_schema

  pub read_package-HasHeader :
      {info : PackageInfo}
      → read_package sys build paths artifact staged w ≡ some info
      → HasHeader info
  unfolding read_package
  read_package-HasHeader {info = info} h = elim (Option-cases (sys.files.open_package staged w)) [
    | inl e ↦ absurd (ground arith)
    | inr (bytes, e) ↦ elim (Option-cases (parse_package_file default_limits bytes)) [
      | inl f ↦ absurd (ground arith)
      | inr (found, f) ↦
          let matched : matches_header found artifact ≡ true = ground arith in
          let same : found ≡ info = ground arith in
          let (version, (provider, (payload, strategy))) =
            matches_header-parts found artifact matched in
          record {
            bytes = bytes;
            opened = e;
            parsed = f ∙ ap some same;
            version = ap (λ i. i.payload_version) (sym same) ∙ version;
            provider = ap (λ i. i.provider) (sym same) ∙ provider;
            payload_schema = ap (λ i. i.payload_schema) (sym same) ∙ payload;
            strategy_schema = ap (λ i. i.strategy_schema) (sym same) ∙ strategy;
          }
    ]
  ]
