-- ===== src/Version/Order.antt =====
-- The order of `CompareVersions`: it is a total preorder on the versions whose numeric prerelease
-- identifiers fit in 64 bits. Version/Cycle.antt shows that the condition is needed.
use Prim.Native.Nat.Ordering.{lt, eq}
use cheburnet.Base.{
  ℕ, ◌<◌, true, List, [], ◌∷◌, some, Bytes, ◌≡◌, refl, All, arith, bytes_eq, bytes_eq_iff,
}
use cheburnet.Base.Compare.{
  swap, bytes_cmp, bytes_cmp_flip, bytes_cmp_trans, IsPreorder, bytes_cmp_refl, bytes_cmp-eq_left,
  or_else-IsPreorder,
}
use cheburnet.Version.{
  Version, u64_mod, value_from, from_chars, is_numeric_identifier, identifier_cmp,
  compare_identifiers, parts_cmp, revision_cmp, prerelease_cmp, compare_versions,
}

-- A numeric identifier is below 2^64.
abbrev pub FitsId : Bytes → Type 0
FitsId id = is_numeric_identifier id ≡ true → value_from 0 id < u64_mod

-- All its numeric prerelease identifiers are below 2^64.
abbrev pub Fits : Version → Type 0
Fits v = All FitsId v.prerelease_ids

from_chars-eq-some : (s : Bytes) → value_from 0 s < u64_mod → from_chars s ≡ some (value_from 0 s)
unfolding from_chars
from_chars-eq-some s h = ground arith

identifier_cmp_flip : (a b : Bytes) → identifier_cmp b a ≡ swap (identifier_cmp a b)
unfolding identifier_cmp
identifier_cmp_flip a b = ground (arith, bytes_cmp_flip a b)

identifier_cmp-eq_left :
    (a b c : Bytes)
    → FitsId a
    → FitsId b
    → FitsId c
    → identifier_cmp a b ≡ eq
    → identifier_cmp b c ≡ identifier_cmp a c
unfolding identifier_cmp
identifier_cmp-eq_left a b c fa fb fc h = ground (
  arith,
  from_chars-eq-some a,
  from_chars-eq-some b,
  from_chars-eq-some c,
  bytes_cmp-eq_left a b c,
)

identifier_cmp_trans :
    (a b c : Bytes)
    → FitsId a
    → FitsId b
    → FitsId c
    → identifier_cmp a b ≡ lt
    → identifier_cmp b c ≡ lt
    → identifier_cmp a c ≡ lt
unfolding identifier_cmp
identifier_cmp_trans a b c fa fb fc h k =
    ground (
      arith,
      from_chars-eq-some a,
      from_chars-eq-some b,
      from_chars-eq-some c,
      bytes_cmp_trans a b c,
    )

compare_identifiers_flip :
    (a b : List Bytes) → compare_identifiers b a ≡ swap (compare_identifiers a b)
unfolding compare_identifiers
compare_identifiers_flip (x ∷ a) (y ∷ b) =
    ground (arith, identifier_cmp_flip x y, compare_identifiers_flip a b)
compare_identifiers_flip _ _ = ground arith

compare_identifiers-eq_left :
    (a b c : List Bytes)
    → All FitsId a
    → All FitsId b
    → All FitsId c
    → compare_identifiers a b ≡ eq
    → compare_identifiers b c ≡ compare_identifiers a c
unfolding compare_identifiers
compare_identifiers-eq_left (x ∷ a) (y ∷ b) (z ∷ c) (fx, fa) (fy, fb) (fz, fc) h =
    ground
      (arith, identifier_cmp-eq_left x y z fx fy fz, compare_identifiers-eq_left a b c fa fb fc)
compare_identifiers-eq_left _ _ _ _ _ _ h = ground arith

compare_identifiers_trans :
    (a b c : List Bytes)
    → All FitsId a
    → All FitsId b
    → All FitsId c
    → compare_identifiers a b ≡ lt
    → compare_identifiers b c ≡ lt
    → compare_identifiers a c ≡ lt
unfolding compare_identifiers
compare_identifiers_trans (x ∷ a) (y ∷ b) (z ∷ c) (fx, fa) (fy, fb) (fz, fc) h k = ground (
  arith,
  identifier_cmp_flip x y,
  identifier_cmp_flip y z,
  identifier_cmp_flip x z,
  identifier_cmp_trans x y z fx fy fz,
  identifier_cmp-eq_left x y z fx fy fz,
  identifier_cmp-eq_left z y x fz fy fx,
  compare_identifiers_trans a b c fa fb fc,
)
compare_identifiers_trans _ _ _ _ _ _ h k = ground arith

parts_cmp_flip : (a b : List ℕ) → parts_cmp b a ≡ swap (parts_cmp a b)
unfolding parts_cmp
parts_cmp_flip (x ∷ a) (y ∷ b) = ground (arith, parts_cmp_flip a b)
parts_cmp_flip [] (y ∷ b) = ground (arith, parts_cmp_flip [] b)
parts_cmp_flip (x ∷ a) [] = ground (arith, parts_cmp_flip a [])
parts_cmp_flip [] [] = refl

parts_cmp-eq_left : (a b c : List ℕ) → parts_cmp a b ≡ eq → parts_cmp b c ≡ parts_cmp a c
unfolding parts_cmp
parts_cmp-eq_left [] [] c h = refl
parts_cmp-eq_left [] (y ∷ b) [] h = ground (arith, parts_cmp-eq_left [] b [])
parts_cmp-eq_left [] (y ∷ b) (z ∷ c) h = ground (arith, parts_cmp-eq_left [] b c)
parts_cmp-eq_left (x ∷ a) [] [] h = ground (arith, parts_cmp-eq_left a [] [])
parts_cmp-eq_left (x ∷ a) [] (z ∷ c) h = ground (arith, parts_cmp-eq_left a [] c)
parts_cmp-eq_left (x ∷ a) (y ∷ b) [] h = ground (arith, parts_cmp-eq_left a b [])
parts_cmp-eq_left (x ∷ a) (y ∷ b) (z ∷ c) h = ground (arith, parts_cmp-eq_left a b c)

parts_cmp_trans : (a b c : List ℕ) → parts_cmp a b ≡ lt → parts_cmp b c ≡ lt → parts_cmp a c ≡ lt
unfolding parts_cmp
parts_cmp_trans [] [] c h k = cc
parts_cmp_trans [] (y ∷ b) [] h k = ground (arith, parts_cmp_trans [] b [])
parts_cmp_trans [] (y ∷ b) (z ∷ c) h k = ground (
  arith,
  parts_cmp_trans [] b c,
  parts_cmp-eq_left [] b c,
  parts_cmp-eq_left c b [],
  parts_cmp_flip b c,
  parts_cmp_flip [] b,
  parts_cmp_flip [] c,
)
parts_cmp_trans (x ∷ a) [] [] h k = cc
parts_cmp_trans (x ∷ a) [] (z ∷ c) h k = ground (arith, parts_cmp_trans a [] c)
parts_cmp_trans (x ∷ a) (y ∷ b) [] h k = ground (arith, parts_cmp_trans a b [])
parts_cmp_trans (x ∷ a) (y ∷ b) (z ∷ c) h k = ground (arith, parts_cmp_trans a b c)

-- The tests for an empty revision change nothing: an empty text is the least.
pub revision_cmp-bytes_cmp : (a b : Bytes) → revision_cmp a b ≡ bytes_cmp a b
unfolding revision_cmp bytes_cmp bytes_eq
revision_cmp-bytes_cmp [] [] = refl
revision_cmp-bytes_cmp [] (y ∷ b) = refl
revision_cmp-bytes_cmp (x ∷ a) [] = refl
revision_cmp-bytes_cmp (x ∷ a) (y ∷ b) =
    ground (arith, bytes_eq_iff (x ∷ a) (y ∷ b), bytes_cmp_refl b)

parts-IsPreorder : IsPreorder Fits (λ v w. parts_cmp v.parts w.parts)
parts-IsPreorder = record {
  flip = λ a b. parts_cmp_flip a.parts b.parts;
  eq_left = λ a b c _ _ _. parts_cmp-eq_left a.parts b.parts c.parts;
  lt_trans = λ a b c _ _ _. parts_cmp_trans a.parts b.parts c.parts;
}

prerelease-IsPreorder :
    IsPreorder Fits
      (λ v w. prerelease_cmp v.prerelease v.prerelease_ids w.prerelease w.prerelease_ids)
unfolding prerelease_cmp
prerelease-IsPreorder = record {
  flip = λ a b. ground (arith, compare_identifiers_flip a.prerelease_ids b.prerelease_ids);
  eq_left = λ a b c fa fb fc h. ground (
    arith,
    compare_identifiers-eq_left a.prerelease_ids b.prerelease_ids c.prerelease_ids fa fb fc,
  );
  lt_trans = λ a b c fa fb fc h k. ground (
    arith,
    compare_identifiers_trans a.prerelease_ids b.prerelease_ids c.prerelease_ids fa fb fc,
  );
}

revision-IsPreorder : IsPreorder Fits (λ v w. revision_cmp v.revision w.revision)
revision-IsPreorder = record {
  flip = λ a b. simp revision_cmp-bytes_cmp (bytes_cmp_flip a.revision b.revision);
  eq_left = λ a b c _ _ _ h.
      simp revision_cmp-bytes_cmp
        (bytes_cmp-eq_left a.revision b.revision c.revision (rw revision_cmp-bytes_cmp at h));
  lt_trans = λ a b c _ _ _ h k. simp revision_cmp-bytes_cmp (
      bytes_cmp_trans a.revision b.revision c.revision (rw revision_cmp-bytes_cmp at h)
        (rw revision_cmp-bytes_cmp at k));
}

-- `CompareVersions` gives the opposite answer when its arguments are swapped; and on versions whose
-- numeric prerelease identifiers are below 2^64, versions that compare as equal compare alike with
-- every third, and `lt` is transitive.
pub compare_versions-IsPreorder : IsPreorder Fits compare_versions
unfolding compare_versions
compare_versions-IsPreorder =
    or_else-IsPreorder parts-IsPreorder
      (or_else-IsPreorder revision-IsPreorder prerelease-IsPreorder)

pub parts_cmp_refl : (a : List ℕ) → parts_cmp a a ≡ eq
parts_cmp_refl a = ground (arith, parts_cmp_flip a a)

pub revision_cmp_refl : (a : Bytes) → revision_cmp a a ≡ eq
revision_cmp_refl a = rw revision_cmp-bytes_cmp (bytes_cmp_refl a)
