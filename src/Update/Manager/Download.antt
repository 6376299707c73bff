-- ===== src/Update/Manager/Download.antt =====
-- What `DownloadVerified` has made sure of when it returns a staged file.
use cheburnet.Base.{
  ◌≡◌, sym, ◌∙◌, ap, subst, ◌⊎◌, inl, inr, Bool, true, false, Option, none, some, arith, Bytes,
  length, bytes_eq_iff, ==_iff, Bool-cases, Option-cases,
}
use cheburnet.Update.Manifest.{Artifact, Manifest}
use cheburnet.Launch.Recovery.{iequals_ascii}
use cheburnet.Update.Package.Extract.{validate_artifact_file}
use cheburnet.Update.Manager.{
  CheckResult, HttpStatus, http_ok, System, Build, Session, same_artifact,
  is_safe_staging_file_name, in_manifest, is_bound, use_download, staged_path, download_into,
  download_verified,
}
use cheburnet.Update.Manager.Trust.{IsVerified, IsCache, Reach, Reach-IsCache}

pub same_artifact-eq : (a b : Artifact) → same_artifact a b ≡ true → a ≡ b
same_artifact-eq a b h = ground (
  arith,
  bytes_eq_iff a.version b.version,
  bytes_eq_iff a.url b.url,
  bytes_eq_iff a.sha256 b.sha256,
  bytes_eq_iff a.minimum_supported_version b.minimum_supported_version,
  bytes_eq_iff a.minimum_launcher_version b.minimum_launcher_version,
  bytes_eq_iff a.provider b.provider,
  bytes_eq_iff a.upstream_release_url b.upstream_release_url,
)

module _ {W : Type 0} (sys : System W) (build : Build) where
  -- A file that has the size and the hash of the artifact.
  pub record IsFileOf (artifact : Artifact) (path : Bytes) (w : W) : Type 0 where
    pub size : sys.files.file_size path w ≡ some artifact.size
    pub hash : Bytes
    pub hashed : sys.files.sha256_file path w ≡ some hash
    pub same : iequals_ascii hash artifact.sha256 ≡ true
    pub whole : length artifact.sha256 ≡ 64

  pub validate_artifact_file-IsFileOf :
      (path : Bytes) (artifact : Artifact) (w : W)
      → validate_artifact_file sys.files path artifact.size artifact.sha256 w ≡ true
      → IsFileOf artifact path w
  unfolding validate_artifact_file
  validate_artifact_file-IsFileOf path artifact w h =
      elim (Option-cases (sys.files.file_size path w)) [
        | inl n ↦ absurd (ground arith)
        | inr (found, f) ↦ elim (Option-cases (sys.files.sha256_file path w)) [
          | inl n ↦ absurd (ground arith)
          | inr (hash, g) ↦ record {
            size = ground (arith, ==_iff found artifact.size);
            hash = hash;
            hashed = g;
            same = ground arith;
            whole = ground arith;
          }
        ]
      ]

  -- The artifact of a manifest whose signature was verified.
  pub record IsSigned (artifact : Artifact) : Type 0 where
    pub source : Manifest
    pub verified : IsVerified sys build source
    pub part : (artifact ≡ source.launcher) ⊎ (artifact ≡ source.payload)

  in_manifest-part :
      (artifact : Artifact) (m : Manifest)
      → in_manifest sys build artifact (some m) ≡ true
      → (artifact ≡ m.launcher) ⊎ (artifact ≡ m.payload)
  in_manifest-part artifact m h = elim (Bool-cases (same_artifact artifact m.launcher)) [
    | inl e ↦ inl (same_artifact-eq artifact m.launcher e)
    | inr n ↦ inr (same_artifact-eq artifact m.payload (ground arith))
  ]

  is_bound-IsSigned :
      (artifact : Artifact) (cached : Option CheckResult)
      → IsCache sys build cached
      → is_bound sys build artifact cached ≡ true
      → IsSigned artifact
  is_bound-IsSigned artifact none c h = absurd (ground arith)
  is_bound-IsSigned artifact (some r) c h = record {
    source = c.source;
    verified = c.verified;
    part =
        in_manifest-part artifact c.source (ap (in_manifest sys build artifact) (sym c.kept) ∙ h);
  }

  use_download-IsFileOf :
      (target : Bytes) (artifact : Artifact) (status : HttpStatus) (w : W) {path : Bytes}
      → use_download sys build target artifact status w ≡ some path
      → (path ≡ target) × IsFileOf artifact path w
  use_download-IsFileOf target artifact http_ok w {path = path} h =
      let valid : validate_artifact_file sys.files target artifact.size artifact.sha256 w ≡ true =
        ground arith in
      let same : path ≡ target = ground arith in
      (
        same,
        subst (λ p. IsFileOf artifact p w) (sym same)
            (validate_artifact_file-IsFileOf target artifact w valid),
      )
  use_download-IsFileOf target artifact _ w h = absurd (ground arith)

  download_into-IsFileOf :
      (updates : Bytes) (artifact : Artifact) (name : Bytes) (answer : Bool × W) {path : Bytes}
      → (download_into sys build updates artifact name answer).0 ≡ some path
      → (path ≡ staged_path sys build updates name)
        × IsFileOf artifact path (download_into sys build updates artifact name answer).1
  download_into-IsFileOf updates artifact name (false, w) h = absurd (ground arith)
  download_into-IsFileOf updates artifact name (true, w) {path = path} h =
      let target = staged_path sys build updates name in
      let (status, w₁) =
        sys.download (sys.to_utf16 artifact.url) target artifact.size artifact.sha256 w in
      use_download-IsFileOf target artifact status w₁ {path = path} h

  download_verified-guards :
      (updates : Bytes) (artifact : Artifact) (name : Bytes) (s : Session W) {path : Bytes}
      → (download_verified sys build updates artifact name s).0 ≡ some path
      → let r =
          download_into sys build updates artifact name
            (sys.files.ensure_protected updates s.world) in
        (is_bound sys build artifact s.verified ≡ true)
        × ((is_safe_staging_file_name name ≡ true)
            × ((r.0 ≡ some path)
                × ((download_verified sys build updates artifact name s).1.world ≡ r.1)))
  unfolding download_verified
  download_verified-guards updates artifact name s {path = path} h = ground arith

  -- In a session that is reached, a download that returns a path was made for an artifact of a
  -- manifest whose signature was verified, under a safe name in the directory of the updates; and
  -- the file there has the size and, without regard to case, the SHA-256 of the artifact.
  pub download_verified_sound :
      (updates : Bytes) (artifact : Artifact) (name : Bytes) {s : Session W} {path : Bytes}
      → Reach sys build s
      → (download_verified sys build updates artifact name s).0 ≡ some path
      → IsSigned artifact
        × ((is_safe_staging_file_name name ≡ true)
            × ((path ≡ staged_path sys build updates name)
                × IsFileOf artifact path
                    (download_verified sys build updates artifact name s).1.world))
  download_verified_sound updates artifact name {s = s} {path = path} r h =
      let (bound, (safe, (got, after))) =
        download_verified-guards updates artifact name s {path = path} h in
      let (same, file) =
        download_into-IsFileOf updates artifact name (sys.files.ensure_protected updates s.world)
          {path = path} got in
      (
        is_bound-IsSigned artifact s.verified (Reach-IsCache sys build r) bound,
        (safe, (same, subst (IsFileOf artifact path) (sym after) file)),
      )
