-- ===== src/Update/Manager/Apply/Installed.antt =====
-- What `ApplyPayload` has done to put the candidate in its place.
use cheburnet.Base.{◌≡◌, refl, ◌⊎◌, inl, inr, Bool, true, false, arith, All, Bool-cases}
use cheburnet.Core.Paths.{RuntimePaths}
use cheburnet.Update.StateStore.{StoredRuntimeState}
use cheburnet.Update.Package.Header.{PackageInfo}
use cheburnet.Core.SecureFs.{remove_tree_under}
use cheburnet.Update.Package.Extract.{extract_package, verify_extracted_package}
use cheburnet.Update.Package.Extract.Frame.{IsInPlace, verify_extracted_package-IsInPlace}
use cheburnet.Update.Manager.{System, Build}
use cheburnet.Update.Manager.Apply.{Machine, applied}
use cheburnet.Update.Manager.Apply.Candidate.{Request, if_extracted, if_cleaned, clean}
use cheburnet.Update.Manager.Apply.Prepared.{IsPrepared, with_catalog-IsPrepared}

module _ {W P : Type 0} (sys : System W) (machine : Machine W P) (build : Build)
    (paths : RuntimePaths) (q : Request P) where
  -- From the world `w` to the world `after`, in the directory of the candidate: what lay there before was
  -- removed; the package was extracted to it from the staged file; in the world that this left, every
  -- entry was found in its place below that directory; and from there the candidate was switched to.
  pub record IsInstalled (stored : StoredRuntimeState) (info : PackageInfo) (home : RuntimePaths)
      (w after : W) : Type 0 where
    pub cleaned : W
    pub removed :
        ((sys.files.exists home.version_dir w ≡ false) × (cleaned ≡ w))
        ⊎ (remove_tree_under sys.files paths.runtime_root home.version_dir w ≡ (true, cleaned))
    pub extracted : W
    pub extraction :
        extract_package sys.files q.staged info paths.runtime_root home.version_dir cleaned
        ≡ (true, extracted)
    pub in_place : All (IsInPlace sys.files home.version_dir extracted) info.entries
    pub prepared : IsPrepared sys machine build paths q stored home extracted after

  if_extracted-IsInstalled :
      (stored : StoredRuntimeState) (info : PackageInfo) (home : RuntimePaths) (w cleaned : W)
      (answer : Bool × W)
      → ((sys.files.exists home.version_dir w ≡ false) × (cleaned ≡ w))
        ⊎ (remove_tree_under sys.files paths.runtime_root home.version_dir w ≡ (true, cleaned))
      → extract_package sys.files q.staged info paths.runtime_root home.version_dir cleaned ≡ answer
      → let end = if_extracted sys machine build paths q stored info home answer in
        (end.0 ≡ applied) → IsInstalled stored info home w end.1
  if_extracted-IsInstalled stored info home w cleaned (false, v) r e h = absurd (ground arith)
  if_extracted-IsInstalled stored info home w cleaned (true, v) r e h =
      let (verified, prepared) =
        with_catalog-IsPrepared sys machine build paths q stored home
          (verify_extracted_package sys.files info home.version_dir v) (machine.installed home v) v
          refl h in
      record {
        cleaned = cleaned;
        removed = r;
        extracted = v;
        extraction = e;
        in_place =
            (verify_extracted_package-IsInPlace sys.files info home.version_dir v verified).1;
        prepared = prepared;
      }

  clean-removed :
      (home : RuntimePaths) (w cleaned : W)
      → clean sys machine build paths q home w ≡ (true, cleaned)
      → ((sys.files.exists home.version_dir w ≡ false) × (cleaned ≡ w))
        ⊎ (remove_tree_under sys.files paths.runtime_root home.version_dir w ≡ (true, cleaned))
  clean-removed home w cleaned h = elim (Bool-cases (sys.files.exists home.version_dir w)) [
    | inl e ↦ inr (ground arith)
    | inr e ↦ inl (e, ground arith)
  ]

  pub if_cleaned-IsInstalled :
      (stored : StoredRuntimeState) (info : PackageInfo) (home : RuntimePaths) (w : W)
      (answer : Bool × W)
      → clean sys machine build paths q home w ≡ answer
      → let end = if_cleaned sys machine build paths q stored info home answer in
        (end.0 ≡ applied) → IsInstalled stored info home w end.1
  if_cleaned-IsInstalled stored info home w (false, v) e h = absurd (ground arith)
  if_cleaned-IsInstalled stored info home w (true, v) e h =
      if_extracted-IsInstalled stored info home w v
        (extract_package sys.files q.staged info paths.runtime_root home.version_dir v)
        (clean-removed home w v e) refl h
