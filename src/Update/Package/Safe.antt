-- ===== src/Update/Package/Safe.antt =====
-- What a path and a list of entries are once they are accepted.
use cheburnet.Base.{
  ℕ, ◌≤◌, ◌≡◌, refl, ap, sym, subst, ◌∙◌, ◌≢◌, inl, inr, true, false, not, some, List, [], ◌∷◌,
  ◌++◌, arith, Bytes, codes, length, every, All, append_assoc, Option-cases, bytes_eq_refl,
}
use cheburnet.Update.Package.{
  good_component, components, on_first, append_component, normalize_from, normalize_package_path,
  allowlisted, bad_char, contains,
}

-- The components joined by slashes.
abbrev joined : List Bytes → Bytes
joined [] = []
joined (s ∷ []) = s
joined (s ∷ t ∷ ss) = s ++ (b'/' ∷ joined (t ∷ ss))

on_first-joined : (c : ℕ) (ss : List Bytes) → joined (on_first c ss) ≡ c ∷ joined ss
on_first-joined c [] = refl
on_first-joined c (s ∷ []) = refl
on_first-joined c (s ∷ t ∷ ss) = refl

components-ne-nil : (s : Bytes) → components s ≢ []
components-ne-nil [] h = ground arith
components-ne-nil (c ∷ s) h = ground arith

slash-joined : (ss : List Bytes) → ss ≢ [] → joined ([] ∷ ss) ≡ b'/' ∷ joined ss
slash-joined [] h = absurd (h refl)
slash-joined (s ∷ ss) h = refl

joined-prefix : (a s : Bytes) (ss : List Bytes) → joined ((a ++ s) ∷ ss) ≡ a ++ joined (s ∷ ss)
joined-prefix a s [] = refl
joined-prefix a s (t ∷ ss) = append_assoc a s (b'/' ∷ joined (t ∷ ss))

append-ne-nil : (a b : Bytes) → b ≢ [] → (a ++ b) ≢ []
append-ne-nil [] b h k = h k
append-ne-nil (x ∷ a) b h k = absurd (ground arith)

components-joined : (s : Bytes) → joined (components s) ≡ s
components-joined [] = refl
components-joined (c ∷ s) = ground (
  arith,
  components-joined s,
  slash-joined (components s) (components-ne-nil s),
  on_first-joined c (components s),
)

-- A component that names a file or a directory below the one before it.
pub record IsGood (component : Bytes) : Type 0 where
  pub nonempty : component ≢ []
  pub not_here : component ≢ codes "."
  pub not_above : component ≢ codes ".."
  pub chars : every (λ c. not (bad_char c)) component ≡ true

good_component-IsGood : (s : Bytes) → good_component s ≡ true → IsGood s
unfolding good_component
good_component-IsGood s h = ground (arith, bytes_eq_refl (codes "."), bytes_eq_refl (codes ".."))

good_component-first :
    (n s : Bytes) (ss : List Bytes) {r : Bytes}
    → normalize_from n (s ∷ ss) ≡ some r
    → (good_component s ≡ true) × (normalize_from (append_component n s) ss ≡ some r)
unfolding normalize_from
good_component-first n s ss h = ground arith

append_component-slash : (n s : Bytes) → n ≢ [] → append_component n s ≡ (n ++ (b'/' ∷ [])) ++ s
append_component-slash [] s h = absurd (h refl)
append_component-slash (c ∷ n) s h = refl

normalize_from-joined :
    (n : Bytes) (ss : List Bytes) {r : Bytes}
    → normalize_from n ss ≡ some r
    → n ≢ []
    → (r ≡ joined (n ∷ ss)) × All IsGood ss
normalize_from-joined n [] h k = unfold normalize_from in (ground arith, tt)
normalize_from-joined n (s ∷ ss) {r = r} h k =
    let (good, later) = good_component-first n s ss {r = r} h in
    let later_slash : normalize_from ((n ++ (b'/' ∷ [])) ++ s) ss ≡ some r =
      ap (λ t. normalize_from t ss) (sym (append_component-slash n s k)) ∙ later in
    let grown = append-ne-nil (n ++ (b'/' ∷ [])) s (good_component-IsGood s good).nonempty in
    let (e, goods) = normalize_from-joined ((n ++ (b'/' ∷ [])) ++ s) ss {r = r} later_slash grown in
    (
      e ∙ joined-prefix (n ++ (b'/' ∷ [])) s ss ∙ append_assoc n (b'/' ∷ []) (joined (s ∷ ss)),
      (good_component-IsGood s good, goods),
    )

normalize_from-first :
    (ss : List Bytes) {r : Bytes}
    → ss ≢ []
    → normalize_from [] ss ≡ some r
    → (r ≡ joined ss) × All IsGood ss
normalize_from-first [] k h = absurd (k refl)
normalize_from-first (s ∷ ss) {r = r} k h =
    let (good, later) = good_component-first [] s ss {r = r} h in
    let first = good_component-IsGood s good in
    let (e, goods) = normalize_from-joined s ss {r = r} later first.nonempty in (e, (first, goods))

-- What it takes for a path of the package to stay below the directory that it is extracted to.
pub record IsSafe (path : Bytes) : Type 0 where
  pub parts : All IsGood (components path)
  pub no_backslash : contains b'\\' path ≡ false
  pub no_colon : contains b':' path ≡ false
  pub no_nul : contains 0 path ≡ false
  pub short : length path ≤ 240
  pub place : allowlisted path ≡ true

-- A path that `NormalizePackagePath` accepts is its own normal form. None of its components is empty,
-- `.` or `..`, or has a control character or a wildcard; it has no backslash, colon or NUL, is at
-- most 240 bytes long, and lies in one of the allowed places.
pub normalize_package_path-IsSafe :
    (input : Bytes) {path : Bytes}
    → normalize_package_path input ≡ some path
    → (path ≡ input) × IsSafe path
unfolding normalize_package_path
normalize_package_path-IsSafe input {path = path} h =
    elim (Option-cases (normalize_from [] (components input))) [
      | inl e ↦ absurd (ground arith)
      | inr (p, e) ↦
          let (same, parts) =
            normalize_from-first (components input) {r = p} (components-ne-nil input) e in
          let whole : p ≡ input = same ∙ components-joined input in
          let equal : path ≡ p = ground arith in
          let here : IsSafe input = record {
            parts = parts;
            no_backslash = ground arith;
            no_colon = ground arith;
            no_nul = ground arith;
            short = ground arith;
            place = ground arith;
          } in
          (equal ∙ whole, subst IsSafe (sym (equal ∙ whole)) here)
    ]
