-- ===== src/Update/Package.antt =====
-- update/UpdatePackage.cpp: names and entries of a package (here), and the file around them
-- (Package/Header).
pub mod Safe
pub mod Entries
pub mod Header
pub mod Extract
use cheburnet.Base.{
  ℕ, zero, suc, ◌+◌, ◌-◌, ◌*◌, ◌%◌, ◌^◌, ◌≤◌, ◌≡◌, refl, ◌≢◌, ◌↔◌, ◌⊎◌, inl, inr, Bool, true, false,
  not, ◌&&◌, ◌||◌, Option, none, some, List, [], ◌∷◌, ◌++◌, arith, Bytes, codes, length, is_empty,
  every, bytes_eq, ltb, leb, ◌==◌, within, take, drop, get_elem?, if◌then◌else◌,
}
use cheburnet.Version.{break_at}

abbrev pub to_lower : ℕ → ℕ
to_lower c = if within b'A' b'Z' c then c + 32 else c

abbrev pub folded : Bytes → Bytes
folded [] = []
folded (c ∷ s) = to_lower c ∷ folded s

abbrev pub contains : ℕ → Bytes → Bool
contains c [] = false
contains c (x ∷ s) = x == c || contains c s

-- `back() == ' ' || back() == '.'`
abbrev pub bad_end : Bytes → Bool
bad_end [] = false
bad_end (c ∷ []) = c == b' ' || c == b'.'
bad_end (c ∷ d ∷ s) = bad_end (d ∷ s)

abbrev pub bad_char : ℕ → Bool
bad_char c =
    ltb c 0x20
    || (c == 0x7f
        || (c == b'*' || (c == b'?' || (c == b'"' || (c == b'<' || (c == b'>' || c == b'|'))))))

abbrev pub numbered : Bytes → Bool
numbered device =
    length device == 4
    && ((bytes_eq (take 3 device) (codes "com") || bytes_eq (take 3 device) (codes "lpt"))
        && every (within b'1' b'9') (drop 3 device))

-- The device names that Windows reserves, whatever the extension.
unfoldable pub reserved : Bytes → Bool
reserved component =
    let device = folded (break_at b'.' component).0 in
    bytes_eq device (codes "con")
    || (bytes_eq device (codes "prn")
        || (bytes_eq device (codes "aux") || (bytes_eq device (codes "nul") || numbered device)))

unfoldable pub good_component : Bytes → Bool
good_component component =
    not (
      is_empty component
      || (bytes_eq component (codes ".") || (bytes_eq component (codes "..") || bad_end component)))
    && (every (λ c. not (bad_char c)) component && not (reserved component))

-- The components between the slashes.
abbrev on_first : ℕ → List Bytes → List Bytes
on_first c [] = (c ∷ []) ∷ []
on_first c (s ∷ ss) = (c ∷ s) ∷ ss

abbrev pub components : Bytes → List Bytes
components [] = [] ∷ []
components (c ∷ s) = if c == b'/' then [] ∷ components s else on_first c (components s)

abbrev pub starts_with : Bytes → Bytes → Bool
starts_with s prefix = bytes_eq (take (length prefix) s) prefix

unfoldable pub allowlisted : Bytes → Bool
allowlisted path =
    starts_with path (codes "bin/")
    || (starts_with path (codes "lists/")
        || (bytes_eq path (codes "strategies/catalog.json")
            || (bytes_eq path (codes "provenance.json")
                || bytes_eq path (codes "runtime-manifest.json"))))

-- A round of the loop of `NormalizePackagePath` appends a component.
abbrev pub append_component : Bytes → Bytes → Bytes
append_component normalized component =
    (if is_empty normalized then [] else normalized ++ (b'/' ∷ [])) ++ component

unfoldable pub normalize_from : Bytes → List Bytes → Option Bytes
normalize_from normalized [] = some normalized
normalize_from normalized (component ∷ rest) =
    let result = normalize_from (append_component normalized component) rest in
    if good_component component then result else none

abbrev if_allowlisted : Option Bytes → Option Bytes
if_allowlisted none = none
if_allowlisted (some path) = if allowlisted path then some path else none

abbrev pub refused_at_once : Bytes → Bool
refused_at_once input =
    is_empty input
    || (ltb 240 (length input)
        || (starts_with input (codes "/")
            || (starts_with input (codes "\\")
                || (contains b'\\' input || (contains b':' input || contains 0 input)))))

unfoldable pub normalize_package_path : Bytes → Option Bytes
normalize_package_path input =
    if refused_at_once input then none else if_allowlisted (normalize_from [] (components input))

pub data PackageEntryType : Type 0 where
  regular symlink reparse other : PackageEntryType

pub record PackageEntry : Type 0 where
  pub path : Bytes
  pub type : PackageEntryType
  pub size : ℕ
  pub sha256 : Bytes

pub record PackageLimits : Type 0 where
  pub max_files : ℕ
  pub max_total_bytes : ℕ
  pub max_file_bytes : ℕ

abbrev pub default_limits : PackageLimits
default_limits = record {
  max_files = 256;
  max_total_bytes = 128 * 1024 * 1024;
  max_file_bytes = 32 * 1024 * 1024;
}

pub data PackageError : Type 0 where
  file_count non_regular unsafe_path duplicate_path size_limit bad_sha content_missing :
      PackageError

pub data Checked : Type 0 where
  accepted : Checked
  rejected : PackageError → Checked

abbrev pub is_regular : PackageEntryType → Bool
is_regular regular = true
is_regular _ = false

abbrev pub valid_sha : Bytes → Bool
valid_sha value = length value == 64 && every (λ c. within b'0' b'9' c || within b'a' b'f' c) value

abbrev pub member : Bytes → List Bytes → Bool
member x [] = false
member x (y ∷ ys) = bytes_eq y x || member x ys

-- `a - b` of `uint64_t`, for a `b` below 2^64.
abbrev pub minus_u64 : ℕ → ℕ → ℕ
minus_u64 a b = (a + 2 ^ 64 - b) % 2 ^ 64

-- The four contents that a package must have, found so far.
pub record Contents : Type 0 where
  pub winws : Bool
  pub provenance : Bool
  pub strategies : Bool
  pub runtime_manifest : Bool

abbrev pub no_contents : Contents
no_contents = record {
  winws = false;
  provenance = false;
  strategies = false;
  runtime_manifest = false;
}

abbrev pub note_content : Bytes → Contents → Contents
note_content f c = record {
  winws = c.winws || bytes_eq f (codes "bin/winws.exe");
  provenance = c.provenance || bytes_eq f (codes "provenance.json");
  strategies = c.strategies || starts_with f (codes "strategies/");
  runtime_manifest = c.runtime_manifest || bytes_eq f (codes "runtime-manifest.json");
}

abbrev pub complete : Contents → Bool
complete c = c.winws && (c.provenance && (c.strategies && c.runtime_manifest))

-- What the loop over the entries keeps.
pub record Scan : Type 0 where
  pub seen : List Bytes
  pub total : ℕ
  pub contents : Contents

abbrev pub new_scan : Scan
new_scan = record { seen = []; total = 0; contents = no_contents }

pub data Scanned : Type 0 where
  scan : Scan → Scanned
  failed : PackageError → Scanned

-- A round of the loop, with the normalized path.
abbrev pub scan_path : PackageLimits → PackageEntry → Bytes → Scan → Scanned
scan_path limits entry path s =
    let f = folded path in
    if member f s.seen
    then failed duplicate_path
    else if entry.size == 0
        || (ltb limits.max_file_bytes entry.size
            || ltb (minus_u64 limits.max_total_bytes entry.size) s.total)
    then failed size_limit
    else if not (valid_sha entry.sha256)
    then failed bad_sha
    else scan (record {
      seen = f ∷ s.seen;
      total = (s.total + entry.size) % 2 ^ 64;
      contents = note_content f s.contents;
    })

unfoldable pub scan_entry : PackageLimits → PackageEntry → Scan → Scanned
scan_entry limits entry s =
    if not (is_regular entry.type)
    then failed non_regular
    else elim (normalize_package_path entry.path) [
      | none ↦ failed unsafe_path
      | some path ↦ scan_path limits entry path s
    ]

unfoldable pub scan_entries : PackageLimits → List PackageEntry → Scan → Scanned
scan_entries limits [] s = scan s
scan_entries limits (entry ∷ entries) s = elim (scan_entry limits entry s) [
  | failed why ↦ failed why
  | scan t ↦ scan_entries limits entries t
]

abbrev finish_scan : Scanned → Checked
finish_scan (failed why) = rejected why
finish_scan (scan s) = if complete s.contents then accepted else rejected content_missing

unfoldable pub validate_package_entries : PackageLimits → List PackageEntry → Checked
validate_package_entries limits entries =
    if is_empty entries || ltb limits.max_files (length entries)
    then rejected file_count
    else finish_scan (scan_entries limits entries new_scan)
