-- ===== src/Version.antt =====
-- The version grammar and order of update/Version.cpp: `ParseVersion` and `CompareVersions`.
-- Texts are lists of bytes; `substr` and `find` on a `string_view` that shrinks from the left are
-- read as recursion on what is left of it.
pub mod Numbers
pub mod Canonical
pub mod Order
pub mod Cycle
mod Examples
use Prim.Native.Nat.{compare, Ordering}
use Prim.Native.Nat.Ordering.{lt, eq, gt}
use cheburnet.Base.{
  ℕ, zero, suc, ◌+◌, ◌-◌, ◌*◌, ◌^◌, Bool, true, false, not, ◌&&◌, ◌||◌, List, [], ◌∷◌, ◌++◌, Option,
  none, some, Bytes, codes, length, is_empty, every, ltb, leb, ◌==◌, within, if◌then◌else◌,
  bytes_eq,
}
use cheburnet.Base.Compare.{or_else, bytes_cmp}

pub record Version : Type 0 where
  pub parts : List ℕ  -- unsigned long long
  pub suffix : Bytes
  pub prerelease : Bool
  pub revision : Bytes
  pub prerelease_ids : List Bytes

abbrev pub max_core_parts : ℕ
max_core_parts = 8

abbrev pub u64_mod : ℕ
u64_mod = 2 ^ 64

unfoldable pub is_digit : ℕ → Bool
is_digit c = within b'0' b'9' c

unfoldable pub is_identifier_char : ℕ → Bool
unfolding is_digit
is_identifier_char c = is_digit c || within b'a' b'z' c || within b'A' b'Z' c || c == b'-'

-- `find(c)` with the two `substr` around it: what stands before the first `c`, and what stands
-- behind it if there is one.
abbrev pub push_front : ℕ → Bytes × Option Bytes → Bytes × Option Bytes
push_front x (before, after) = (x ∷ before, after)

unfoldable pub break_at : ℕ → Bytes → Bytes × Option Bytes
break_at c [] = ([], none)
break_at c (x ∷ s) = let rest = break_at c s in if x == c then ([], some s) else push_front x rest

-- The tests of one round of `SplitIdentifiers` on its item.
unfoldable pub valid_item : Bytes → Bool
unfolding is_identifier_char
valid_item item = not (is_empty item || ltb 48 (length item)) && every is_identifier_char item

-- One round of the loop of `SplitIdentifiers` for each unit of fuel. A round that goes on has taken
-- a byte, so the length of the text is fuel enough.
unfoldable pub split_from : ℕ → Bytes → List Bytes → Option (List Bytes)
unfolding break_at valid_item
split_from zero value output = none
split_from (suc fuel) value output =
    let (item, after) = break_at b'.' value in
    let output' = output ++ (item ∷ []) in
    elim (valid_item item) [
      | false ↦ none
      | true ↦ elim after [
        | none ↦ some output'
        | some rest ↦ elim (is_empty rest) [ true ↦ none | false ↦ split_from fuel rest output' ]
      ]
    ]

unfoldable pub split_identifiers : Bytes → Option (List Bytes)
unfolding split_from
split_identifiers value = if is_empty value then none else split_from (length value) value []

-- The value of decimal digits behind `n`, with no bound.
abbrev pub value_from : ℕ → Bytes → ℕ
value_from n [] = n
value_from n (c ∷ s) = value_from (n * 10 + (c - b'0')) s

-- `std::from_chars` into `unsigned long long`, on a text of digits: it fails if the value does not fit.
unfoldable pub from_chars : Bytes → Option ℕ
from_chars s = let n = value_from 0 s in if ltb n u64_mod then some n else none

abbrev pub starts_with_zero : Bytes → Bool
starts_with_zero [] = false
starts_with_zero (c ∷ s) = c == b'0'

unfoldable pub is_numeric_identifier : Bytes → Bool
unfolding is_digit
is_numeric_identifier value =
    every is_digit value
    && (not (is_empty value) && (length value == 1 || not (starts_with_zero value)))

abbrev number_cmp : Bytes → Bytes → Option ℕ → Option ℕ → Ordering
number_cmp left right (some l) (some r) = compare l r
number_cmp left right _ _ = bytes_cmp left right

-- One round of `CompareIdentifiers`; `eq` is `continue`.
unfoldable pub identifier_cmp : Bytes → Bytes → Ordering
identifier_cmp left right =
    let left_numeric = is_numeric_identifier left in
    let right_numeric = is_numeric_identifier right in
    if left_numeric
    then if right_numeric then number_cmp left right (from_chars left) (from_chars right) else lt
    else if right_numeric
    then gt
    else bytes_cmp left right

unfoldable pub compare_identifiers : List Bytes → List Bytes → Ordering
compare_identifiers [] [] = eq
compare_identifiers [] (r ∷ right) = lt
compare_identifiers (l ∷ left) [] = gt
compare_identifiers (l ∷ left) (r ∷ right) =
    or_else (identifier_cmp l r) (compare_identifiers left right)

-- The inner `while` of `ParseVersion`: the digits at the front, and the rest.
abbrev push_digit : ℕ → Bytes × Bytes → Bytes × Bytes
push_digit c (digits, rest) = (c ∷ digits, rest)

unfoldable pub span_digits : Bytes → Bytes × Bytes
unfolding is_digit
span_digits [] = ([], [])
span_digits (c ∷ s) =
    let rest = span_digits s in if is_digit c then push_digit c rest else ([], c ∷ s)

-- The number that one round of the outer loop reads, from the digits found.
unfoldable pub core_part : Bytes → Option ℕ
unfolding from_chars
core_part digits =
    if is_empty digits
    then none
    else if ltb 1 (length digits) && starts_with_zero digits
    then none
    else from_chars digits

-- The outer `while` of `ParseVersion`: the parts read and the text at the end of the loop. A round
-- reads a digit, so the length of the text is fuel enough.
unfoldable pub core_from : ℕ → Bytes → List ℕ → Option (List ℕ × Bytes)
core_from zero value parts = none
core_from (suc fuel) value parts =
    let (digits, rest) = span_digits value in
    elim (core_part digits) [
      | none ↦ none
      | some part ↦
          let parts' = parts ++ (part ∷ []) in
          elim (ltb max_core_parts (length parts')) [
            | true ↦ none
            | false ↦ elim rest [
              | [] ↦ some (parts', [])
              | c ∷ more ↦ elim (c == b'.') [
                | false ↦ some (parts', c ∷ more)
                | true ↦ elim (is_empty more) [ true ↦ none | false ↦ core_from fuel more parts' ]
              ]
            ]
          ]
    ]

abbrev pub strip_v : Bytes → Bytes
strip_v [] = []
strip_v (c ∷ s) = if c == b'v' || c == b'V' then s else c ∷ s

-- The revision letter at the front of the suffix, and what follows it.
unfoldable pub split_revision : Bytes → Bytes × Bytes
split_revision [] = ([], [])
split_revision (c ∷ rest) = if within b'a' b'z' c then (c ∷ [], rest) else ([], c ∷ rest)

-- The tail with its build metadata checked and taken off.
unfoldable pub strip_build : Bytes → Option Bytes
unfolding break_at split_identifiers
strip_build rest =
    let (before, after) = break_at b'+' rest in
    elim after [
      | none ↦ some before
      | some build ↦ elim (split_identifiers build) [ none ↦ none | some _ ↦ some before ]
    ]

-- The identifiers behind the `-`; none if there is no prerelease.
unfoldable pub read_prerelease : Bytes → Option (Bool × List Bytes)
unfolding split_identifiers
read_prerelease [] = some (false, [])
read_prerelease (c ∷ rest) =
    if c == b'-'
    then elim (split_identifiers rest) [ none ↦ none | some ids ↦ some (true, ids) ]
    else none

unfoldable pub finish_version : List ℕ → Bytes → Option Version
unfolding split_revision strip_build read_prerelease
finish_version parts suffix =
    let (revision, tail) = split_revision suffix in
    elim (strip_build tail) [
      | none ↦ none
      | some rest ↦ elim (read_prerelease rest) [
        | none ↦ none
        | some (prerelease, ids) ↦ some (record {
          parts = parts;
          suffix = suffix;
          prerelease = prerelease;
          revision = revision;
          prerelease_ids = ids;
        })
      ]
    ]

-- `ParseVersion` behind its first line.
unfoldable pub parse_stripped : Bytes → Option Version
parse_stripped value =
    if is_empty value || ltb 64 (length value)
    then none
    else elim (core_from (length value) value []) [
      | none ↦ none
      | some (parts, suffix) ↦ finish_version parts suffix
    ]

unfoldable pub parse_version : Bytes → Option Version
unfolding parse_stripped
parse_version text = parse_stripped (strip_v text)

-- The loop over the parts: the shorter list is continued by zeros.
unfoldable pub parts_cmp : List ℕ → List ℕ → Ordering
parts_cmp [] [] = eq
parts_cmp [] (r ∷ right) = or_else (compare 0 r) (parts_cmp [] right)
parts_cmp (l ∷ left) [] = or_else (compare l 0) (parts_cmp left [])
parts_cmp (l ∷ left) (r ∷ right) = or_else (compare l r) (parts_cmp left right)

unfoldable pub revision_cmp : Bytes → Bytes → Ordering
revision_cmp left right =
    if bytes_eq left right
    then eq
    else if is_empty left
    then lt
    else if is_empty right
    then gt
    else bytes_cmp left right

unfoldable pub prerelease_cmp : Bool → List Bytes → Bool → List Bytes → Ordering
prerelease_cmp true left true right = compare_identifiers left right
prerelease_cmp true left false right = lt
prerelease_cmp false left true right = gt
prerelease_cmp false left false right = eq

unfoldable pub compare_versions : Version → Version → Ordering
compare_versions left right = or_else (parts_cmp left.parts right.parts) (
    or_else (revision_cmp left.revision right.revision)
      (prerelease_cmp left.prerelease left.prerelease_ids right.prerelease right.prerelease_ids))

-- All the code of this file, for the runs of other modules.
unfoldable pub version_code : Unit {0}
unfolding parse_version core_from span_digits core_part finish_version compare_versions parts_cmp
    revision_cmp prerelease_cmp compare_identifiers identifier_cmp is_numeric_identifier from_chars
    bytes_cmp bytes_eq
version_code = tt
