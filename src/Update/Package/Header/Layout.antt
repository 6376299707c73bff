-- ===== src/Update/Package/Header/Layout.antt =====
-- The layout of a package file that is accepted.
use cheburnet.Base.{
  ℕ, ◌+◌, ◌%◌, ◌^◌, ◌<◌, ◌≡◌, refl, ap, sym, subst, ◌∙◌, inl, inr, true, some, List, [], ◌∷◌, ◌++◌,
  arith, Bytes, length, Bool-cases,
}
use cheburnet.Json.{Value, Items, nil, cons}
use cheburnet.Json.Parser.{parse}
use cheburnet.Update.Manifest.{>>=-eq-some, has_version}
use cheburnet.Update.Package.{
  PackageEntry, PackageLimits, Checked, accepted, rejected, validate_package_entries,
}
use cheburnet.Update.Package.Entries.{
  AreSafe, AreSensible, total_size, validate_package_entries-AreSafe,
}
use cheburnet.Update.Package.Header.{
  PackageInfo, HeaderMembers, Listing, new_listing, read_entry, list_entry, list_entries,
  read_header, read_members, finish_package, parsed_header, header_options, parse_package_file,
  is_accepted,
}

total_size-append :
    (es fs : List PackageEntry) → total_size (es ++ fs) ≡ total_size es + total_size fs
total_size-append [] fs = omega arith
total_size-append (e ∷ es) fs = omega (arith, total_size-append es fs)

-- The offset is the sum of the sizes listed so far, as 64 bits hold it.
abbrev IsSummed : Listing → Type 0
IsSummed l = l.expected_offset ≡ total_size l.entries % 2 ^ 64

mod-plus : (a b : ℕ) → (a % 2 ^ 64 + b) % 2 ^ 64 ≡ (a + b) % 2 ^ 64
mod-plus a b = omega arith

list_entry-IsSummed :
    (limits : PackageLimits) (e : PackageEntry) (l : Listing) {m : Listing}
    → IsSummed l
    → list_entry limits e l ≡ some m
    → IsSummed m
unfolding list_entry
list_entry-IsSummed limits e l s h =
    ground (arith, mod-plus (total_size l.entries) e.size, total_size-append l.entries (e ∷ []))

list_entries-IsSummed :
    (limits : PackageLimits) (items : Items) (l : Listing) {m : Listing}
    → IsSummed l
    → list_entries limits items l ≡ some m
    → IsSummed m
unfolding list_entries
list_entries-IsSummed limits nil l s h = ground arith
list_entries-IsSummed limits (cons item items) l {m = m} s h =
    let (e, read, h₁) = >>=-eq-some (read_entry item l.expected_offset) _ {b = m} h in
    let (k, listed, h₂) = >>=-eq-some (list_entry limits e l) _ {b = m} h₁ in
    list_entries-IsSummed limits items k {m = m} (list_entry-IsSummed limits e l {m = k} s listed)
      h₂

-- The header and the data fill the file, and every entry may be extracted.
pub record IsLaidOut (limits : PackageLimits) (bytes : Bytes) (p : PackageInfo) : Type 0 where
  pub safe : AreSafe limits p.entries
  pub fills : p.data_offset + total_size p.entries ≡ length bytes
  pub version_valid : has_version p.payload_version ≡ true

small-mod : (a : ℕ) → a < 2 ^ 64 → a % 2 ^ 64 ≡ a
small-mod a h = omega arith

accepted-only : (r : Checked) → is_accepted r ≡ true → r ≡ accepted
accepted-only accepted h = refl
accepted-only (rejected why) h = absurd (ground arith)

finish_package-facts :
    (limits : PackageLimits) (n size : ℕ) (m : HeaderMembers) (l : Listing) {p : PackageInfo}
    → finish_package limits n size m l ≡ some p
    → (validate_package_entries limits l.entries ≡ accepted)
      × ((p.entries ≡ l.entries)
          × ((p.data_offset + l.expected_offset ≡ size) × (p.payload_version ≡ m.version)))
unfolding finish_package
finish_package-facts limits n size m l {p = p} h =
    elim (Bool-cases (is_accepted (validate_package_entries limits l.entries))) [
      | inl e ↦ ground (arith, accepted-only (validate_package_entries limits l.entries) e)
      | inr e ↦ absurd (ground arith)
    ]

read_members-version :
    (root : Value) {m : HeaderMembers} → read_members root ≡ some m → has_version m.version ≡ true
unfolding read_members
read_members-version root h = ground arith

-- With limits below 2^64 of which the total allows a file of the largest size, the entries of a
-- package that `ParsePackageFile` accepts are safe to extract, its header and the data of the entries
-- fill the file exactly, although the offsets are added up modulo 2^64, and its payload version parses.
pub parse_package_file-IsLaidOut :
    (limits : PackageLimits) (bytes : Bytes) {p : PackageInfo}
    → AreSensible limits
    → parse_package_file limits bytes ≡ some p
    → IsLaidOut limits bytes p
unfolding parse_package_file
parse_package_file-IsLaidOut limits bytes {p = p} sensible h =
    let (header, _, h₁) = >>=-eq-some (read_header limits bytes) _ {b = p} h in
    let (root, _, h₂) =
      >>=-eq-some (parsed_header (parse (header_options limits) header)) _ {b = p} h₁ in
    let (m, members, h₃) = >>=-eq-some (read_members root) _ {b = p} h₂ in
    let (l, listed, h₄) = >>=-eq-some (list_entries limits m.files new_listing) _ {b = p} h₃ in
    let (valid, (same, (fills, version))) =
      finish_package-facts limits (length header) (length bytes) m l {p = p} h₄ in
    let safe = validate_package_entries-AreSafe limits l.entries sensible valid in
    let below : total_size l.entries < 2 ^ 64 = omega (arith, safe.total, sensible.total_lt) in
    let sum : l.expected_offset ≡ total_size l.entries =
      list_entries-IsSummed limits m.files new_listing {m = l} refl listed
      ∙ small-mod (total_size l.entries) below in
    record {
      safe = subst (AreSafe limits) (sym same) safe;
      fills =
          ap (λ es. p.data_offset + total_size es) same
          ∙ ap (λ n. p.data_offset + n) (sym sum)
          ∙ fills;
      version_valid = ap has_version version ∙ read_members-version root {m = m} members;
    }
