-- ===== src/Update/Package/Extract/Frame.antt =====
-- What an extraction may touch, and what the check behind it establishes.
use cheburnet.Base.{
  ℕ, ◌+◌, ◌%◌, ◌^◌, ◌≡◌, refl, subst, Bool, true, false, not, ◌&&◌, ◌||◌, inl, inr, Option, none,
  some, List, [], ◌∷◌, arith, Bytes, All, Option-cases, ==_iff, take, drop, length, if◌then◌else◌,
}
use cheburnet.Core.Files.{Files, a_file, a_directory}
use cheburnet.Core.SecureFs.{remove_tree_under, is_strict_descendant, validate_path_components}
use cheburnet.Launch.Recovery.{iequals_ascii}
use cheburnet.Update.Package.{PackageEntry, normalize_package_path}
use cheburnet.Update.Package.Header.{PackageInfo}
use cheburnet.Update.Package.Safe.{IsSafe, normalize_package_path-IsSafe}
use cheburnet.Update.Package.Extract.{
  below, folder_of, read_exact, entry_content, write_entry, write_below, extract_entry,
  extract_entries, or_remove, extract_opened, extract_into, extract_package, is_entry_file,
  entry_in_place, entries_in_place, verify_extracted_package,
}

module _ {W : Type 0} (files : Files W) where
  -- The bytes are those that the entry's hash was made of, as far as the hash tells.
  pub record IsContentOf (entry : PackageEntry) (content : Bytes) : Type 0 where
    pub size : length content ≡ entry.size
    pub hash : Bytes
    pub hashed : files.sha256_hex content ≡ some hash
    pub same : iequals_ascii hash entry.sha256 ≡ true

  -- A property of the world that no step of an extraction to `destination` changes: neither asking
  -- for the destination or for the folder of one of the entries, nor writing, at the place of one of
  -- the entries, bytes with its size and hash, nor removing the destination.
  pub record IsFrame (destination : Bytes) (entries : List PackageEntry) (P : W → Type 0)
      : Type 0 where
    pub on_destination : (w : W) → P w → P (files.ensure_protected destination w).1
    pub on_folders :
        All
          (λ entry.
            (folder : Bytes) (w : W)
            → folder_of (below destination entry.path) ≡ some folder
            → P w
            → P (files.ensure_protected folder w).1)
          entries
    pub on_files :
        All
          (λ entry.
            (content : Bytes) (w : W)
            → IsContentOf entry content
            → P w
            → P (files.atomic_write (below destination entry.path) content entry.sha256 w).1)
          entries
    pub on_removal : (w : W) → P w → P (files.remove_tree (files.full_path destination) w).1

  read_exact-length :
      (bytes : Bytes) (place size : ℕ) {content : Bytes}
      → read_exact bytes place size ≡ some content
      → length content ≡ size
  unfolding read_exact
  read_exact-length bytes place size {content = content} h =
      ground (arith, ==_iff (length (take size (drop place bytes))) size)

  entry_content-IsContentOf :
      (bytes : Bytes) (place : ℕ) (entry : PackageEntry) {content : Bytes}
      → entry_content files bytes place entry ≡ some content
      → IsContentOf entry content
  unfolding entry_content
  entry_content-IsContentOf bytes place entry {content = content} h =
      elim (Option-cases (read_exact bytes place entry.size)) [
        | inl n ↦ absurd (ground arith)
        | inr (found, r) ↦ elim (Option-cases (files.sha256_hex found)) [
          | inl n ↦ absurd (ground arith)
          | inr (hash, g) ↦
              let same : found ≡ content = ground arith in
              subst (IsContentOf entry) same (record {
                size = read_exact-length bytes place entry.size {content = found} r;
                hash = hash;
                hashed = g;
                same = ground arith;
              })
        ]
      ]

  module _ (P : W → Type 0) (destination : Bytes) where
    write_entry-keeps :
        (entry : PackageEntry) (content : Option Bytes) (answer : Bool × W)
        → ((c : Bytes) → content ≡ some c → IsContentOf entry c)
        → ((c : Bytes) (w : W)
            → IsContentOf entry c
            → P w
            → P (files.atomic_write (below destination entry.path) c entry.sha256 w).1)
        → P answer.1
        → P (write_entry files (below destination entry.path) content entry.sha256 answer).1
    write_entry-keeps entry content (false, w) h k p = p
    write_entry-keeps entry none (true, w) h k p = p
    write_entry-keeps entry (some c) (true, w) h k p = k c w (h c refl) p

    write_below-keeps :
        (entry : PackageEntry) (place folder content : Option Bytes) (w : W)
        → place ≡ folder
        → ((c : Bytes) → content ≡ some c → IsContentOf entry c)
        → ((f : Bytes) (w : W) → place ≡ some f → P w → P (files.ensure_protected f w).1)
        → ((c : Bytes) (w : W)
            → IsContentOf entry c
            → P w
            → P (files.atomic_write (below destination entry.path) c entry.sha256 w).1)
        → P w
        → P (write_below files (below destination entry.path) folder content entry.sha256 w).1
    write_below-keeps entry place none content w e h g k p = p
    write_below-keeps entry place (some f) content w e h g k p =
        write_entry-keeps entry content (files.ensure_protected f w) h k (g f w e p)

    if-keeps : (b : Bool) (x y : Bool × W) → P x.1 → P y.1 → P (if b then x else y).1
    if-keeps true x y p q = p
    if-keeps false x y p q = q

    branch-keeps :
        (b : Bool) (x y : Bool × W)
        → P x.1
        → P y.1
        → P (elim b as (λ _. Bool × W) [ false ↦ x | true ↦ y ]).1
    branch-keeps false x y p q = p
    branch-keeps true x y p q = q

    extract_entry-keeps :
        (bytes : Bytes) (place : ℕ) (entry : PackageEntry) (w : W)
        → ((f : Bytes) (w : W)
            → folder_of (below destination entry.path) ≡ some f
            → P w
            → P (files.ensure_protected f w).1)
        → ((c : Bytes) (w : W)
            → IsContentOf entry c
            → P w
            → P (files.atomic_write (below destination entry.path) c entry.sha256 w).1)
        → P w
        → P (extract_entry files destination bytes place entry w).1
    unfolding extract_entry
    extract_entry-keeps bytes place entry w g k p =
        let target = folder_of (below destination entry.path) in
        write_below-keeps entry target target (entry_content files bytes place entry) w refl
          (λ c e. entry_content-IsContentOf bytes place entry {content = c} e) g k p

    extract_entries-keeps :
        (bytes : Bytes) (start offset : ℕ) (entries : List PackageEntry) (w : W)
        → IsFrame destination entries P
        → P w
        → P (extract_entries files destination bytes start offset entries w).1
    unfolding extract_entries
    extract_entries-keeps bytes start offset [] w f p = p
    extract_entries-keeps bytes start offset (entry ∷ entries) w f p =
        let place = (start + offset) % 2 ^ 64 in
        let (written, w₁) = extract_entry files destination bytes place entry w in
        let first = extract_entry-keeps bytes place entry w f.on_folders.0 f.on_files.0 p in
        let later =
          extract_entries-keeps bytes start ((offset + entry.size) % 2 ^ 64) entries w₁
            (record {
              on_destination = f.on_destination;
              on_folders = f.on_folders.1;
              on_files = f.on_files.1;
              on_removal = f.on_removal;
            })
            first in
        branch-keeps written (false, w₁)
          (extract_entries files destination bytes start ((offset + entry.size) % 2 ^ 64) entries
            w₁)
          first later

    remove_tree_under-keeps :
        (root : Bytes) (w : W)
        → P (files.remove_tree (files.full_path destination) w).1
        → P w
        → P (remove_tree_under files root destination w).1
    remove_tree_under-keeps root w q p = unfold remove_tree_under in if-keeps _ _ _ q p

    or_remove-keeps :
        (root : Bytes) (entries : List PackageEntry) (answer : Bool × W)
        → IsFrame destination entries P
        → P answer.1
        → P (or_remove files root destination answer).1
    or_remove-keeps root entries (true, w) f p = p
    or_remove-keeps root entries (false, w) f p =
        remove_tree_under-keeps root w (f.on_removal w p) p

    extract_opened-keeps :
        (opened : Option Bytes) (info : PackageInfo) (w : W)
        → IsFrame destination info.entries P
        → P w
        → P (extract_opened files opened destination info w).1
    extract_opened-keeps none info w f p = p
    extract_opened-keeps (some bytes) info w f p =
        extract_entries-keeps bytes info.data_offset 0 info.entries w f p

    extract_into-keeps :
        (archive root : Bytes) (info : PackageInfo) (answer : Bool × W)
        → IsFrame destination info.entries P
        → P answer.1
        → P (extract_into files archive info root destination answer).1
    extract_into-keeps archive root info (false, w) f p = p
    extract_into-keeps archive root info (true, w) f p =
        let opened = files.open_package archive w in
        or_remove-keeps root info.entries (extract_opened files opened destination info w) f
          (extract_opened-keeps opened info w f p)

    -- An extraction, whether it succeeds or fails, changes nothing that its own steps leave alone:
    -- a property of the world that holds before, and that survives asking for the destination and for
    -- the folders of the entries, writing at the place of an entry bytes of its size and hash, and
    -- removing the destination, holds afterwards.
    pub extract_package-frame :
        (archive root : Bytes) (info : PackageInfo) (w : W)
        → IsFrame destination info.entries P
        → P w
        → P (extract_package files archive info root destination w).1
    unfolding extract_package
    extract_package-frame archive root info w f p =
        let taken =
          extract_into files archive info root destination (files.ensure_protected destination w) in
        let unsafe = not (
          validate_path_components files root w
          && files.validate_protected root a_directory false w) in
        if-keeps (not (is_strict_descendant files root destination) || files.exists destination w)
          (false, w) (if unsafe then (false, w) else taken) p
          (if-keeps unsafe (false, w) taken p
            (extract_into-keeps archive root info (files.ensure_protected destination w) f
              (f.on_destination w p)))

  -- A file with the size and the hash of an entry.
  pub record IsFileOf (target : Bytes) (entry : PackageEntry) (w : W) : Type 0 where
    pub object : files.validate_object target a_file true w ≡ true
    pub size : files.file_size target w ≡ some entry.size
    pub hash : Bytes
    pub hashed : files.sha256_file target w ≡ some hash
    pub same : iequals_ascii hash entry.sha256 ≡ true

  is_entry_file-IsFileOf :
      (target : Bytes) (entry : PackageEntry) (w : W)
      → is_entry_file files target entry w ≡ true
      → IsFileOf target entry w
  unfolding is_entry_file
  is_entry_file-IsFileOf target entry w h = elim (Option-cases (files.file_size target w)) [
    | inl n ↦ absurd (ground arith)
    | inr (size, f) ↦ elim (Option-cases (files.sha256_file target w)) [
      | inl n ↦ absurd (ground arith)
      | inr (hash, g) ↦ record {
        object = ground arith;
        size = ground (arith, ==_iff size entry.size);
        hash = hash;
        hashed = g;
        same = ground arith;
      }
    ]
  ]

  -- An entry with a safe path whose file lies in its place below the destination.
  abbrev pub IsInPlace : Bytes → W → PackageEntry → Type 0
  IsInPlace destination w entry =
      IsSafe entry.path × IsFileOf (below destination entry.path) entry w

  entry_in_place-IsInPlace :
      (destination : Bytes) (entry : PackageEntry) (w : W)
      → entry_in_place files destination entry w ≡ true
      → IsInPlace destination w entry
  unfolding entry_in_place
  entry_in_place-IsInPlace destination entry w h =
      elim (Option-cases (normalize_package_path entry.path)) [
        | inl n ↦ absurd (ground arith)
        | inr (path, n) ↦
            let (same, safe) = normalize_package_path-IsSafe entry.path {path = path} n in
            let found = is_entry_file-IsFileOf (below destination path) entry w (ground arith) in
            (subst IsSafe same safe, subst (λ p. IsFileOf (below destination p) entry w) same found)
      ]

  entries_in_place-IsInPlace :
      (destination : Bytes) (entries : List PackageEntry) (w : W)
      → entries_in_place files destination entries w ≡ true
      → All (IsInPlace destination w) entries
  unfolding entries_in_place
  entries_in_place-IsInPlace destination [] w h = tt
  entries_in_place-IsInPlace destination (entry ∷ entries) w h = (
    entry_in_place-IsInPlace destination entry w (ground arith),
    entries_in_place-IsInPlace destination entries w (ground arith),
  )

  -- Where `VerifyExtractedPackage` succeeds, the destination consists of directories, and every entry
  -- of the package has a safe path and a plain file with its size and hash below the destination.
  pub verify_extracted_package-IsInPlace :
      (info : PackageInfo) (destination : Bytes) (w : W)
      → verify_extracted_package files info destination w ≡ true
      → (validate_path_components files destination w ≡ true)
        × All (IsInPlace destination w) info.entries
  unfolding verify_extracted_package
  verify_extracted_package-IsInPlace info destination w h =
      (ground arith, entries_in_place-IsInPlace destination info.entries w (ground arith))
