-- ===== src/Update/Package/Extract.antt =====
-- update/UpdatePackage.cpp: `ValidateArtifactFile`, `ExtractPackage` and `VerifyExtractedPackage`, over
-- the operations of Core/Files.
pub mod Frame
use cheburnet.Base.{
  ℕ, suc, ◌+◌, ◌%◌, ◌^◌, Bool, true, false, not, ◌&&◌, ◌||◌, Option, none, some, List, [], ◌∷◌,
  ◌++◌, Bytes, codes, length, ltb, leb, ◌==◌, take, drop, if◌then◌else◌,
}
use cheburnet.Core.Files.{Files, a_file, a_directory}
use cheburnet.Core.SecureFs.{is_strict_descendant, validate_path_components, remove_tree_under}
use cheburnet.Launch.Recovery.{iequals_ascii}
use cheburnet.Update.Package.{PackageEntry, normalize_package_path}
use cheburnet.Update.Package.Header.{PackageInfo}

abbrev windows_char : ℕ → ℕ
windows_char c = if c == b'/' then b'\\' else c

unfoldable pub to_windows_path : Bytes → Bytes
to_windows_path [] = []
to_windows_path (c ∷ s) = windows_char c ∷ to_windows_path s

-- The path of an entry below the destination.
abbrev pub below : Bytes → Bytes → Bytes
below destination path = (destination ++ codes "\\") ++ to_windows_path path

-- `find_last_of(L'\\')`: the text in front of the last backslash, if there is one.
abbrev pub folder_of : Bytes → Option Bytes
folder_of [] = none
folder_of (c ∷ s) = elim (folder_of s) [
  | some front ↦ some (c ∷ front)
  | none ↦ if c == b'\\' then some [] else none
]

-- `SetFilePointerEx` and `ReadExact`: the bytes at a place of the file, if they are all there. A place
-- of 2^63 or more is a negative position.
unfoldable pub read_exact : Bytes → ℕ → ℕ → Option Bytes
read_exact bytes place size =
    let content = take size (drop place bytes) in
    if ltb place (2 ^ 63) && length content == size then some content else none

module _ {W : Type 0} (files : Files W) where
  unfoldable pub validate_artifact_file : Bytes → ℕ → Bytes → W → Bool
  validate_artifact_file path size sha256 w =
      not (size == 0 || not (length sha256 == 64)) && elim (files.file_size path w) [
        | none ↦ false
        | some found ↦ found == size && elim (files.sha256_file path w) [
          | none ↦ false
          | some hash ↦ iequals_ascii hash sha256
        ]
      ]

  -- The bytes of an entry, when their hash is the expected one.
  unfoldable pub entry_content : Bytes → ℕ → PackageEntry → Option Bytes
  entry_content bytes place entry = elim (read_exact bytes place entry.size) [
    | none ↦ none
    | some content ↦ elim (files.sha256_hex content) [
      | none ↦ none
      | some hash ↦ if iequals_ascii hash entry.sha256 then some content else none
    ]
  ]

  -- The write of an entry, once its folder was asked for.
  abbrev pub write_entry : Bytes → Option Bytes → Bytes → Bool × W → Bool × W
  write_entry target content sha256 (false, w) = (false, w)
  write_entry target none sha256 (true, w) = (false, w)
  write_entry target (some content) sha256 (true, w) = files.atomic_write target content sha256 w

  -- In the folder of the target, if it has one.
  abbrev pub write_below : Bytes → Option Bytes → Option Bytes → Bytes → W → Bool × W
  write_below target none content sha256 w = (false, w)
  write_below target (some folder) content sha256 w =
      write_entry target content sha256 (files.ensure_protected folder w)

  -- A round of the loop: the entry whose bytes lie at `place`.
  unfoldable pub extract_entry : Bytes → Bytes → ℕ → PackageEntry → W → Bool × W
  extract_entry destination bytes place entry w =
      let target = below destination entry.path in
      write_below target (folder_of target) (entry_content bytes place entry) entry.sha256 w

  -- The loop, with the offset behind `start`.
  unfoldable pub extract_entries : Bytes → Bytes → ℕ → ℕ → List PackageEntry → W → Bool × W
  extract_entries destination bytes start offset [] w = (true, w)
  extract_entries destination bytes start offset (entry ∷ entries) w =
      let (written, w₁) = extract_entry destination bytes ((start + offset) % 2 ^ 64) entry w in
      let rest =
        extract_entries destination bytes start ((offset + entry.size) % 2 ^ 64) entries w₁ in
      elim written [ false ↦ (false, w₁) | true ↦ rest ]

  -- `fail`: what was extracted is removed when the extraction fails.
  abbrev pub or_remove : Bytes → Bytes → Bool × W → Bool × W
  or_remove root destination (true, w) = (true, w)
  or_remove root destination (false, w) = (false, (remove_tree_under files root destination w).1)

  abbrev pub extract_opened : Option Bytes → Bytes → PackageInfo → W → Bool × W
  extract_opened none destination info w = (false, w)
  extract_opened (some bytes) destination info w =
      extract_entries destination bytes info.data_offset 0 info.entries w

  -- `ExtractPackage` once the destination was asked for.
  abbrev pub extract_into : Bytes → PackageInfo → Bytes → Bytes → Bool × W → Bool × W
  extract_into archive info root destination (false, w) = (false, w)
  extract_into archive info root destination (true, w) =
      or_remove root destination (extract_opened (files.open_package archive w) destination info w)

  unfoldable pub extract_package : Bytes → PackageInfo → Bytes → Bytes → W → Bool × W
  extract_package archive info root destination w =
      if not (is_strict_descendant files root destination) || files.exists destination w
      then (false, w)
      else if not (
          validate_path_components files root w
          && files.validate_protected root a_directory false w)
      then (false, w)
      else extract_into archive info root destination (files.ensure_protected destination w)

  -- Whether the file at the target is the one of the entry.
  unfoldable pub is_entry_file : Bytes → PackageEntry → W → Bool
  is_entry_file target entry w =
      files.validate_object target a_file true w
      && (elim (files.file_size target w) [ none ↦ false | some size ↦ size == entry.size ]
          && elim (files.sha256_file target w) [
            | none ↦ false
            | some hash ↦ iequals_ascii hash entry.sha256
          ])

  -- A round of the loop of `VerifyExtractedPackage`.
  unfoldable pub entry_in_place : Bytes → PackageEntry → W → Bool
  entry_in_place destination entry w = elim (normalize_package_path entry.path) [
    | none ↦ false
    | some path ↦ is_entry_file (below destination path) entry w
  ]

  unfoldable pub entries_in_place : Bytes → List PackageEntry → W → Bool
  entries_in_place destination [] w = true
  entries_in_place destination (entry ∷ entries) w =
      entry_in_place destination entry w && entries_in_place destination entries w

  unfoldable pub verify_extracted_package : PackageInfo → Bytes → W → Bool
  verify_extracted_package info destination w =
      validate_path_components files destination w && entries_in_place destination info.entries w
