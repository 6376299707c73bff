-- ===== src/Core/SecureFs.antt =====
-- core/SecureFs.cpp: the tests on paths, over the operations of Core/Files.
pub mod Folded
pub mod Below
use cheburnet.Base.{
  ℕ, suc, Bool, true, false, not, ◌&&◌, ◌||◌, List, [], ◌∷◌, ◌++◌, Bytes, length, is_empty,
  get_elem?, ltb, leb, ◌==◌, take, drop, if◌then◌else◌, Option, none, some,
}
use cheburnet.Update.Package.{starts_with}
use cheburnet.Core.Files.{Files, a_directory}

abbrev pub fold_char : (ℕ → ℕ) → ℕ → ℕ
fold_char to_lower c = if c == b'/' then to_lower b'\\' else to_lower c

abbrev pub fold_all : (ℕ → ℕ) → Bytes → Bytes
fold_all to_lower [] = []
fold_all to_lower (c ∷ s) = fold_char to_lower c ∷ fold_all to_lower s

abbrev keep_unless_end : ℕ → Bytes → Bytes
keep_unless_end c [] = if c == b'\\' then [] else c ∷ []
keep_unless_end c (d ∷ s) = c ∷ d ∷ s

-- The text without the backslashes at its end.
abbrev pub strip_end : Bytes → Bytes
strip_end [] = []
strip_end (c ∷ s) = keep_unless_end c (strip_end s)

-- `FoldPath`: the loop at its end leaves the first three characters alone.
unfoldable pub fold_path : (ℕ → ℕ) → Bytes → Bytes
fold_path to_lower value =
    let folded = fold_all to_lower value in take 3 folded ++ strip_end (drop 3 folded)

-- With a backslash at the end, if there is none.
abbrev pub ends_with_slash : Bytes → Bool
ends_with_slash [] = false
ends_with_slash (c ∷ []) = c == b'\\'
ends_with_slash (c ∷ d ∷ s) = ends_with_slash (d ∷ s)

abbrev pub with_slash : Bytes → Bytes
with_slash s = if ends_with_slash s then s else s ++ (b'\\' ∷ [])

-- `find_last_of(L"\\/")`: the text in front of the last separator, if there is one.
abbrev pub before_last : Bytes → Option Bytes
before_last [] = none
before_last (c ∷ s) = elim (before_last s) [
  | some front ↦ some (c ∷ front)
  | none ↦ if c == b'\\' || c == b'/' then some [] else none
]

abbrev drive_path : Bytes → Bool
drive_path full =
    leb 3 (length full)
    && (elim (get_elem? full 1) [ none ↦ false | some c ↦ c == b':' ]
        && elim (get_elem? full 2) [ none ↦ false | some c ↦ c == b'\\' ])

-- `IsStrictDescendant` on folded paths.
unfoldable pub is_below : Bytes → Bytes → Bool
is_below root candidate =
    not (is_empty root || (is_empty candidate || leb (length candidate) (length root)))
    && starts_with candidate (with_slash root)

module _ {W : Type 0} (files : Files W) where
  abbrev pub folded_path : Bytes → Bytes
  folded_path path = fold_path files.to_lower (files.full_path path)

  unfoldable pub is_strict_descendant : Bytes → Bytes → Bool
  is_strict_descendant root candidate = is_below (folded_path root) (folded_path candidate)

  -- The loop of `ValidatePathComponents`: the text in front of every backslash is a directory, and
  -- the whole text is one.
  unfoldable pub validate_from : Bytes → Bytes → W → Bool
  validate_from front [] w = files.validate_object front a_directory false w
  validate_from front (c ∷ s) w =
      let later = validate_from (front ++ (c ∷ [])) s w in
      if c == b'\\' then files.validate_object front a_directory false w && later else later

  unfoldable pub validate_path_components : Bytes → W → Bool
  validate_path_components path w =
      let full = files.full_path path in
      drive_path full && validate_from (take 3 full) (drop 3 full) w

  -- `ParentOf`, empty if there is none.
  unfoldable pub parent_of : Bytes → Bytes
  parent_of path = elim (before_last (files.full_path path)) [ none ↦ [] | some front ↦ front ]

  unfoldable pub remove_tree_under : Bytes → Bytes → W → Bool × W
  remove_tree_under root target w =
      if is_strict_descendant root target
        && (validate_path_components root w
            && (not (is_empty (parent_of target)) && validate_path_components (parent_of target) w))
      then files.remove_tree (files.full_path target) w
      else (false, w)
