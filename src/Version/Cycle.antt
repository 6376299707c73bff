-- ===== src/Version/Cycle.antt =====
-- What `CompareIdentifiers` does with a numeric identifier that `from_chars` refuses.
use Prim.Native.Nat.Ordering.{lt}
use cheburnet.Base.{ℕ, ◌≤◌, true, [], ◌∷◌, List, Bytes, ◌≡◌, refl, ◌∙◌, arith, none, codes, every}
use cheburnet.Base.Compare.{bytes_cmp}
use cheburnet.Version.{
  Version, u64_mod, value_from, from_chars, is_digit, is_numeric_identifier, identifier_cmp,
  compare_identifiers, prerelease_cmp, compare_versions,
}
use cheburnet.Version.Order.{parts_cmp_refl, revision_cmp_refl}

-- The version `v` with these prerelease identifiers.
abbrev pub with_ids : Version → List Bytes → Version
with_ids v ids = record v { prerelease = true; prerelease_ids = ids }

from_chars-eq-none : (s : Bytes) → u64_mod ≤ value_from 0 s → from_chars s ≡ none
unfolding from_chars
from_chars-eq-none s h = ground arith

ten_lt :
    (c d : ℕ) (s : Bytes)
    → every is_digit (b'1' ∷ c ∷ d ∷ s) ≡ true
    → bytes_cmp (codes "10") (b'1' ∷ c ∷ d ∷ s) ≡ lt
unfolding is_digit bytes_cmp
ten_lt c d s h = ground arith

lt_two : (c d : ℕ) (s : Bytes) → bytes_cmp (b'1' ∷ c ∷ d ∷ s) (codes "2") ≡ lt
unfolding bytes_cmp
lt_two c d s = refl

compare_with_ids :
    (v : Version) (a b : List Bytes)
    → compare_versions (with_ids v a) (with_ids v b) ≡ compare_identifiers a b
unfolding compare_versions prerelease_cmp
compare_with_ids v a b = rw (parts_cmp_refl v.parts) (rw (revision_cmp_refl v.revision))

overflow_cmp :
    (a o : Bytes)
    → is_numeric_identifier a ≡ true
    → is_numeric_identifier o ≡ true
    → u64_mod ≤ value_from 0 o
    → (identifier_cmp a o ≡ bytes_cmp a o) × (identifier_cmp o a ≡ bytes_cmp o a)
unfolding identifier_cmp
overflow_cmp a o num_a num_o h = ground (arith, from_chars-eq-none o)

compare_identifiers_one :
    (a b : Bytes) → identifier_cmp a b ≡ lt → compare_identifiers (a ∷ []) (b ∷ []) ≡ lt
unfolding compare_identifiers
compare_identifiers_one a b h = rw h

numeric-digits : (s : Bytes) → is_numeric_identifier s ≡ true → every is_digit s ≡ true
unfolding is_numeric_identifier
numeric-digits s h = ground arith

numbers_lt : identifier_cmp (codes "2") (codes "10") ≡ lt
unfolding identifier_cmp is_numeric_identifier from_chars
numbers_lt = refl

two_numeric :
    (is_numeric_identifier (codes "10") ≡ true) × (is_numeric_identifier (codes "2") ≡ true)
unfolding is_numeric_identifier
two_numeric = (refl, refl)

-- A numeric prerelease identifier of at least 2^64 that begins with 1 makes the order run in a
-- circle: 10 is below it, it is below 2, and 2 is below 10.
pub overflow_cycle :
    (v : Version) (c d : ℕ) (s : Bytes)
    → is_numeric_identifier (b'1' ∷ c ∷ d ∷ s) ≡ true
    → u64_mod ≤ value_from 0 (b'1' ∷ c ∷ d ∷ s)
    → (compare_versions (with_ids v (codes "10" ∷ [])) (with_ids v ((b'1' ∷ c ∷ d ∷ s) ∷ [])) ≡ lt)
      × (compare_versions (with_ids v ((b'1' ∷ c ∷ d ∷ s) ∷ [])) (with_ids v (codes "2" ∷ [])) ≡ lt)
      × (compare_versions (with_ids v (codes "2" ∷ [])) (with_ids v (codes "10" ∷ [])) ≡ lt)
overflow_cycle v c d s numeric h =
    let o = b'1' ∷ c ∷ d ∷ s in
    let above = overflow_cmp (codes "10") o two_numeric.0 numeric h in
    let below = overflow_cmp (codes "2") o two_numeric.1 numeric h in
    (
      rw compare_with_ids
          (compare_identifiers_one _ _ (above.0 ∙ ten_lt c d s (numeric-digits o numeric))),
      rw compare_with_ids (compare_identifiers_one _ _ (below.1 ∙ lt_two c d s)),
      rw compare_with_ids (compare_identifiers_one _ _ numbers_lt),
    )
