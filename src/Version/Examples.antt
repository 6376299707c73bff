-- ===== src/Version/Examples.antt =====
-- Runs of the version parser and of the order.
use Prim.Native.Nat.{Ordering}
use Prim.Native.Nat.Ordering.{lt, eq, gt}
use Prim.Native.String.{String}
use cheburnet.Base.{◌≡◌, refl, arith, [], ◌∷◌, true, Option, none, some, codes}
use cheburnet.Version.{Version, parse_version, compare_versions, strip_v, version_code}
use cheburnet.Version.Canonical.{parse_version-injective}
use cheburnet.Version.Cycle.{with_ids, overflow_cycle}

abbrev verdict : Option Version → Option Version → Option Ordering
verdict (some v) (some w) = some (compare_versions v w)
verdict _ _ = none

abbrev order : String → String → Option Ordering
order a b = verdict (parse_version (codes a)) (parse_version (codes b))

parsed :
    parse_version (codes "v1.10.1a-rc.3+b.7")
    ≡ some (record {
      parts = 1 ∷ 10 ∷ 1 ∷ [];
      suffix = codes "a-rc.3+b.7";
      prerelease = true;
      revision = codes "a";
      prerelease_ids = codes "rc" ∷ codes "3" ∷ [];
    })
unfolding version_code
parsed = refl

refused :
    (parse_version (codes "1.") ≡ none)
    × (parse_version (codes "01.0") ≡ none)
    × (parse_version (codes "1.0.0-rc.") ≡ none)
    × (parse_version (codes "1.0.0-rc..1") ≡ none)
    × (parse_version (codes "1.2.3.4.5.6.7.8.9") ≡ none)
    × (parse_version (codes "18446744073709551616") ≡ none)
unfolding version_code
refused = (refl, refl, refl, refl, refl, refl)

ordered :
    (order "1.10.1" "1.10.1a" ≡ some lt)
    × (order "1.0.0-rc.3" "1.0.0" ≡ some lt)
    × (order "1.0.0-rc.10" "1.0.0-rc.9" ≡ some gt)
    × (order "1.0" "1.0.0+x" ≡ some eq)
unfolding version_code
ordered = (refl, refl, refl, refl)

parse_version-injective_example : strip_v (codes "v1.2") ≡ strip_v (codes "1.2")
unfolding version_code
parse_version-injective_example =
    parse_version-injective (codes "v1.2") (codes "1.2") refl refl refl refl

abbrev plain : Version
plain = record {
  parts = 1 ∷ [];
  suffix = [];
  prerelease = true;
  revision = [];
  prerelease_ids = [];
}

overflow_cycle_example :
    (compare_versions
        (with_ids plain (codes "10" ∷ []))
        (with_ids plain (codes "18446744073709551616" ∷ []))
      ≡ lt)
    × (compare_versions
          (with_ids plain (codes "18446744073709551616" ∷ []))
          (with_ids plain (codes "2" ∷ []))
        ≡ lt)
    × (compare_versions (with_ids plain (codes "2" ∷ [])) (with_ids plain (codes "10" ∷ [])) ≡ lt)
unfolding version_code
overflow_cycle_example =
    overflow_cycle plain b'8' b'4' (codes "46744073709551616") refl (omega arith)
