-- ===== src/Update/Package/Header.antt =====
-- update/UpdatePackage.cpp: `ParsePackageFile` on the bytes of the file, behind the checks of the
-- file object and its opening, which belong to the system.
pub mod Layout
use cheburnet.Base.{
  ℕ, zero, suc, ◌+◌, ◌-◌, ◌*◌, ◌%◌, ◌^◌, ◌≤◌, ◌<◌, ◌≡◌, refl, ap, sym, subst, ◌∙◌, ◌⊎◌, inl, inr,
  Bool, true, false, not, ◌&&◌, ◌||◌, Option, none, some, List, [], ◌∷◌, ◌++◌, arith, Bytes, codes,
  length, is_empty, All, bytes_eq, ltb, leb, ◌==◌, if◌then◌else◌, take, drop, Option-cases,
  get_elem?, append-nil, append_assoc,
}
use cheburnet.Json.{
  Value, Items, nil, cons, Result, ok, err, find, size, as_object, as_array, as_string,
}
use cheburnet.Json.Parser.{ParseOptions, parse}
use cheburnet.Update.Manifest.{◌>>=◌, ◌>>◌, require, read_uint, has_version}
use cheburnet.Update.StateStore.{text}
use cheburnet.Update.Package.{
  PackageEntry, PackageEntryType, regular, other, PackageLimits, Checked, accepted, rejected,
  validate_package_entries, normalize_package_path, minus_u64, folded,
}
use cheburnet.Update.Package.Entries.{
  AreSafe, AreSensible, total_size, validate_package_entries-AreSafe,
}

pub record PackageInfo : Type 0 where
  pub schema : ℕ
  pub payload_version : Bytes
  pub provider : Bytes
  pub payload_schema : ℕ
  pub strategy_schema : ℕ
  pub data_offset : ℕ
  pub runtime_manifest_index : Option ℕ
  pub entries : List PackageEntry

-- `C B P K G 1 \r \n`
abbrev pub magic : Bytes
magic = codes "CBPKG1\r\n"

abbrev byte_at : Bytes → ℕ → ℕ
byte_at s i = elim (get_elem? s i) [ none ↦ 0 | some c ↦ c ]

-- The four bytes behind the magic, the least significant one first.
abbrev pub header_size : Bytes → ℕ
header_size prefix =
    byte_at prefix 8
    + byte_at prefix 9 * 2 ^ 8
    + byte_at prefix 10 * 2 ^ 16
    + byte_at prefix 11 * 2 ^ 24

-- The text of the header, when the prefix and the size are right.
unfoldable pub read_header : PackageLimits → Bytes → Option Bytes
read_header limits bytes =
    if ltb (length bytes) 12 || ltb (limits.max_total_bytes + 1024 * 1024) (length bytes)
    then none
    else if not (bytes_eq (take 8 bytes) magic)
    then none
    else let n = header_size (take 12 bytes) in
      if n == 0 || (ltb (1024 * 1024) n || ltb (length bytes) (12 + n))
      then none
      else some (take n (drop 12 bytes))

abbrev entry_type : Bytes → PackageEntryType
entry_type type = if bytes_eq type (codes "file") then regular else other

-- An item of `files`, its offset being the one expected.
unfoldable pub read_entry : Value → ℕ → Option PackageEntry
read_entry item expected_offset = do
  path ← text item (codes "path")
  sha ← text item (codes "sha256")
  type ← text item (codes "type")
  bytes ← read_uint item (codes "size")
  offset ← read_uint item (codes "offset")
  fields ← as_object item
  require (size fields == 5)
  require (offset == expected_offset)
  some (record { path = path; type = entry_type type; size = bytes; sha256 = sha })

-- What the loop over the items keeps.
pub record Listing : Type 0 where
  pub entries : List PackageEntry
  pub runtime_manifest_index : Option ℕ
  pub expected_offset : ℕ
  pub entry_index : ℕ

abbrev pub new_listing : Listing
new_listing = record {
  entries = [];
  runtime_manifest_index = none;
  expected_offset = 0;
  entry_index = 0;
}

abbrev is_runtime_manifest : Option Bytes → Bool
is_runtime_manifest none = false
is_runtime_manifest (some path) = bytes_eq (folded path) (codes "runtime-manifest.json")

abbrev index_after : PackageEntry → Listing → Option ℕ
index_after entry l =
    if is_runtime_manifest (normalize_package_path entry.path)
    then some l.entry_index
    else l.runtime_manifest_index

unfoldable pub list_entry : PackageLimits → PackageEntry → Listing → Option Listing
list_entry limits entry l =
    if ltb (minus_u64 limits.max_total_bytes entry.size) l.expected_offset
    then none
    else some (record {
      entries = l.entries ++ (entry ∷ []);
      runtime_manifest_index = index_after entry l;
      expected_offset = (l.expected_offset + entry.size) % 2 ^ 64;
      entry_index = suc l.entry_index;
    })

unfoldable pub list_entries : PackageLimits → Items → Listing → Option Listing
list_entries limits nil l = some l
list_entries limits (cons item items) l = read_entry item l.expected_offset >>= λ entry.
    list_entry limits entry l >>= λ m. list_entries limits items m

-- The members of the header but `files`.
pub record HeaderMembers : Type 0 where
  pub version : Bytes
  pub provider : Bytes
  pub payload_schema : ℕ
  pub strategy_schema : ℕ
  pub files : Items

unfoldable pub read_members : Value → Option HeaderMembers
read_members root = do
  fields ← as_object root
  require (size fields == 6)
  schema ← read_uint root (codes "schema")
  payload_schema ← read_uint root (codes "payload_schema")
  strategy_schema ← read_uint root (codes "strategy_schema")
  version ← text root (codes "payload_version")
  provider ← text root (codes "provider")
  files ← find root (codes "files")
  require (schema == 1)
  require (has_version version)
  items ← as_array files
  require (not (payload_schema == 0) && not (strategy_schema == 0))
  require (leb payload_schema 1000 && leb strategy_schema 1000)
  some (record {
    version = version;
    provider = provider;
    payload_schema = payload_schema;
    strategy_schema = strategy_schema;
    files = items;
  })

-- The last checks, in the order of the source.
abbrev is_accepted : Checked → Bool
is_accepted accepted = true
is_accepted (rejected why) = false

abbrev index_valid : Option ℕ → ℕ → Bool
index_valid none n = false
index_valid (some i) n = ltb i n

unfoldable pub finish_package : PackageLimits → ℕ → ℕ → HeaderMembers → Listing → Option PackageInfo
finish_package limits header_length file_length m l = do
  require (is_accepted (validate_package_entries limits l.entries))
  require (index_valid l.runtime_manifest_index (length l.entries))
  require (12 + header_length + l.expected_offset == file_length)
  some (record {
    schema = 1;
    payload_version = m.version;
    provider = m.provider;
    payload_schema = m.payload_schema;
    strategy_schema = m.strategy_schema;
    data_offset = 12 + header_length;
    runtime_manifest_index = l.runtime_manifest_index;
    entries = l.entries;
  })

abbrev pub header_options : PackageLimits → ParseOptions
header_options limits = record {
  max_bytes = 1024 * 1024;
  max_depth = 12;
  max_values = limits.max_files * 8 + 32;
}

abbrev parsed_header : Result Value → Option Value
parsed_header (ok root) = some root
parsed_header (err why rest) = none

-- `ParsePackageFile`; `none` for every error.
unfoldable pub parse_package_file : PackageLimits → Bytes → Option PackageInfo
parse_package_file limits bytes = do
  header ← read_header limits bytes
  root ← parsed_header (parse (header_options limits) header)
  members ← read_members root
  listing ← list_entries limits members.files new_listing
  finish_package limits (length header) (length bytes) members listing
