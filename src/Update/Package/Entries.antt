-- ===== src/Update/Package/Entries.antt =====
-- What holds of the entries of a package that `ValidatePackageEntries` accepts.
use cheburnet.Base.{
  ℕ, ◌+◌, ◌-◌, ◌%◌, ◌^◌, ◌≤◌, ◌<◌, ◌≡◌, refl, ap, subst, ◌∙◌, ◌⊎◌, inl, inr, true, false, ◌||◌,
  List, [], ◌∷◌, arith, Bytes, codes, length, All, Option-cases,
}
use cheburnet.Update.Package.{
  PackageEntry, regular, is_regular, PackageLimits, Contents, note_content, complete, no_contents,
  Scan, new_scan, Scanned, scan, failed, scan_path, scan_entry, scan_entries, PackageError,
  accepted, validate_package_entries, folded, member, minus_u64, valid_sha, normalize_package_path,
}
use cheburnet.Update.Package.Safe.{IsSafe, normalize_package_path-IsSafe}

minus_u64-eq : (a b : ℕ) → b ≤ a → a < 2 ^ 64 → minus_u64 a b ≡ a - b
minus_u64-eq a b h k = omega arith

plus_u64-eq : (a b : ℕ) → a + b < 2 ^ 64 → (a + b) % 2 ^ 64 ≡ a + b
plus_u64-eq a b h = omega arith

-- An entry that may be extracted.
pub record IsEntry (limits : PackageLimits) (e : PackageEntry) : Type 0 where
  pub is_file : e.type ≡ regular
  pub safe : IsSafe e.path
  pub nonzero : 1 ≤ e.size
  pub small : e.size ≤ limits.max_file_bytes
  pub hashed : valid_sha e.sha256 ≡ true

-- The names of the entries, without regard to case.
abbrev pub names : List PackageEntry → List Bytes
names [] = []
names (e ∷ es) = folded e.path ∷ names es

-- No name is among those seen or occurs twice.
abbrev pub AllNew : List Bytes → List Bytes → Type 0
AllNew seen [] = Unit
AllNew seen (x ∷ xs) = (member x seen ≡ false) × AllNew (x ∷ seen) xs

abbrev pub total_size : List PackageEntry → ℕ
total_size [] = 0
total_size (e ∷ es) = e.size + total_size es

-- The limits leave room for one file of the largest size.
pub record AreSensible (limits : PackageLimits) : Type 0 where
  pub file_le : limits.max_file_bytes ≤ limits.max_total_bytes
  pub total_lt : limits.max_total_bytes < 2 ^ 64

record IsRound (limits : PackageLimits) (e : PackageEntry) (s t : Scan) : Type 0 where
  entry : IsEntry limits e
  new : member (folded e.path) s.seen ≡ false
  seen : t.seen ≡ folded e.path ∷ s.seen
  total : t.total ≡ s.total + e.size
  bound : t.total ≤ limits.max_total_bytes
  contents : t.contents ≡ note_content (folded e.path) s.contents

-- The guards of a round that was completed, and what it leaves.
scan_path-guards :
    (limits : PackageLimits) (e : PackageEntry) (s : Scan) {t : Scan}
    → scan_path limits e e.path s ≡ scan t
    → (member (folded e.path) s.seen ≡ false)
      × ((1 ≤ e.size)
          × ((e.size ≤ limits.max_file_bytes)
              × ((s.total ≤ minus_u64 limits.max_total_bytes e.size)
                  × ((valid_sha e.sha256 ≡ true)
                      × ((t.seen ≡ folded e.path ∷ s.seen)
                          × ((t.total ≡ (s.total + e.size) % 2 ^ 64)
                              × (t.contents ≡ note_content (folded e.path) s.contents)))))))
scan_path-guards limits e s h = ground arith

scan_path-IsRound :
    (limits : PackageLimits) (e : PackageEntry) (s : Scan) {t : Scan}
    → AreSensible limits
    → is_regular e.type ≡ true
    → IsSafe e.path
    → scan_path limits e e.path s ≡ scan t
    → IsRound limits e s t
scan_path-IsRound limits e s {t = t} l r safe h =
    let (new, (nonzero, (small, (room, (hashed, (seen, (total, contents))))))) =
      scan_path-guards limits e s {t = t} h in
    let fits : e.size ≤ limits.max_total_bytes = omega (arith, small, l.file_le) in
    let left = minus_u64-eq limits.max_total_bytes e.size fits l.total_lt in
    let below : s.total + e.size ≤ limits.max_total_bytes = omega (arith, room, left, fits) in
    let sum = total ∙ plus_u64-eq s.total e.size (omega (arith, below, l.total_lt)) in
    record {
      entry = record {
        is_file = ground arith;
        safe = safe;
        nonzero = nonzero;
        small = small;
        hashed = hashed;
      };
      new = new;
      seen = seen;
      total = sum;
      bound = omega (arith, sum, below);
      contents = contents;
    }

scan_entry-IsRound :
    (limits : PackageLimits) (e : PackageEntry) (s : Scan) {t : Scan}
    → AreSensible limits
    → scan_entry limits e s ≡ scan t
    → IsRound limits e s t
unfolding scan_entry
scan_entry-IsRound limits e s {t = t} l h = elim (Option-cases (normalize_package_path e.path)) [
  | inl n ↦ absurd (ground arith)
  | inr (path, n) ↦
      let (same, safe) = normalize_package_path-IsSafe e.path {path = path} n in
      scan_path-IsRound limits e s {t = t} l (ground arith) (subst IsSafe same safe) (ground arith)
]

-- The contents that the names show, on top of those found before.
abbrev pub contents_of : List Bytes → Contents → Contents
contents_of [] c = c
contents_of (x ∷ xs) c = contents_of xs (note_content x c)

Scanned-cases :
    (r : Scanned) → ((why : PackageError) × (r ≡ failed why)) ⊎ ((t : Scan) × (r ≡ scan t))
Scanned-cases (scan t) = inr (t, refl)
Scanned-cases (failed why) = inl (why, refl)

scan_entries_sound :
    (limits : PackageLimits) (es : List PackageEntry) (s : Scan) {t : Scan}
    → AreSensible limits
    → s.total ≤ limits.max_total_bytes
    → scan_entries limits es s ≡ scan t
    → All (IsEntry limits) es
      × (AllNew s.seen (names es)
          × ((s.total + total_size es ≤ limits.max_total_bytes)
              × (t.contents ≡ contents_of (names es) s.contents)))
unfolding scan_entries
scan_entries_sound limits [] s l b h = (tt, (tt, (omega (arith, b), ground arith)))
scan_entries_sound limits (e ∷ es) s {t = t} l b h = elim (Scanned-cases (scan_entry limits e s)) [
  | inl (why, r) ↦ absurd (ground arith)
  | inr (u, r) ↦
      let round = scan_entry-IsRound limits e s {t = u} l r in
      let (good, (new, (sum, c))) =
        scan_entries_sound limits es u {t = t} l round.bound (ground arith) in
      (
        (round.entry, good),
        (
          (round.new, subst (λ seen. AllNew seen (names es)) round.seen new),
          (omega (arith, sum, round.total), c ∙ ap (contents_of (names es)) round.contents),
        ),
      )
]

contents_of-member :
    (xs : List Bytes) (c : Contents)
    → ((contents_of xs c).winws ≡ c.winws || member (codes "bin/winws.exe") xs)
      × (((contents_of xs c).provenance ≡ c.provenance || member (codes "provenance.json") xs)
          × ((contents_of xs c).runtime_manifest
              ≡ c.runtime_manifest || member (codes "runtime-manifest.json") xs))
contents_of-member [] c = ground arith
contents_of-member (x ∷ xs) c = ground (arith, contents_of-member xs (note_content x c))

-- A list of entries that is safe to extract.
pub record AreSafe (limits : PackageLimits) (es : List PackageEntry) : Type 0 where
  pub count : length es ≤ limits.max_files
  pub entries : All (IsEntry limits) es
  pub distinct : AllNew [] (names es)
  pub total : total_size es ≤ limits.max_total_bytes
  pub has_winws : member (codes "bin/winws.exe") (names es) ≡ true
  pub has_provenance : member (codes "provenance.json") (names es) ≡ true
  pub has_manifest : member (codes "runtime-manifest.json") (names es) ≡ true

-- With limits below 2^64 of which the total allows a file of the largest size, the entries that
-- `ValidatePackageEntries` accepts are at most the allowed number, regular files with safe paths, a
-- size within the limit and a SHA-256; no two names are equal without regard to case; the sizes
-- together stay within the total, with no wrap-around; and winws.exe, provenance.json and
-- runtime-manifest.json are among them.
pub validate_package_entries-AreSafe :
    (limits : PackageLimits) (es : List PackageEntry)
    → AreSensible limits
    → validate_package_entries limits es ≡ accepted
    → AreSafe limits es
unfolding validate_package_entries
validate_package_entries-AreSafe limits es l h =
    elim (Scanned-cases (scan_entries limits es new_scan)) [
      | inl (why, r) ↦ absurd (ground arith)
      | inr (t, r) ↦
          let (good, (new, (sum, c))) =
            scan_entries_sound limits es new_scan {t = t} l (omega arith) r in
          let (winws, (provenance, manifest)) = contents_of-member (names es) no_contents in
          let whole : complete t.contents ≡ true = ground arith in
          record {
            count = ground arith;
            entries = good;
            distinct = new;
            total = omega (arith, sum);
            has_winws = ground arith;
            has_provenance = ground arith;
            has_manifest = ground arith;
          }
    ]
