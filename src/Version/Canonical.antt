-- ===== src/Version/Canonical.antt =====
-- No two texts are one version: the parts and the suffix of a parsed version spell its text.
use cheburnet.Base.{
  ℕ, zero, suc, ◌<◌, true, List, [], ◌∷◌, ◌++◌, append_assoc, some, Bytes, ◌≡◌, ◌≢◌, refl, sym, ap,
  ◌∙◌, arith, inl, inr, ◌⊎◌, Option-cases, length, every,
}
use cheburnet.Version.{
  Version, u64_mod, value_from, from_chars, is_digit, span_digits, core_part, core_from, strip_v,
  finish_version, parse_stripped, parse_version, parse_stripped,
}
use cheburnet.Version.Numbers.{IsCanonical, IsCanonical-injective}

-- `text` spells the parts, separated by dots, and then `rest`.
pub data Spells (rest : Bytes) : List ℕ → Bytes → Type 0 where
  last :
      (digits : Bytes) {n : ℕ} {text : Bytes}
      → IsCanonical digits
      → n ≡ value_from 0 digits
      → n < u64_mod
      → text ≡ digits ++ rest
      → Spells rest (n ∷ []) text
  more :
      (digits : Bytes) {n : ℕ} {parts : List ℕ} {tail text : Bytes}
      → IsCanonical digits
      → n ≡ value_from 0 digits
      → n < u64_mod
      → Spells rest parts tail
      → text ≡ digits ++ (b'.' ∷ tail)
      → Spells rest (n ∷ parts) text

not-Spells-nil : {rest : Bytes} {parts : List ℕ} {s : Bytes} → Spells rest parts s → parts ≢ []
not-Spells-nil (last _ _ _ _ _) e = cc
not-Spells-nil (more _ _ _ _ _ _) e = cc

Spells-injective :
    {rest : Bytes} {parts : List ℕ} {s t : Bytes}
    → Spells rest parts s
    → Spells rest parts t
    → s ≡ t
Spells-injective {rest} (last ds p e f x) (last es q e' f' y) =
    x ∙ ap (λ d. d ++ rest) (IsCanonical-injective ds es p q (sym e ∙ e')) ∙ sym y
Spells-injective (last ds p e f x) (more es q e' f' spells y) = absurd (not-Spells-nil spells refl)
Spells-injective (more ds p e f spells x) (last es q e' f' y) = absurd (not-Spells-nil spells refl)
Spells-injective (more ds p e f a x) (more es q e' f' b y) =
    cc (IsCanonical-injective ds es p q (sym e ∙ e'), Spells-injective a b)

span_digits_lem :
    (s : Bytes)
    → (every is_digit (span_digits s).0 ≡ true) × ((span_digits s).0 ++ (span_digits s).1 ≡ s)
unfolding span_digits
span_digits_lem [] = (refl, refl)
span_digits_lem (c ∷ s) = ground (arith, span_digits_lem s)

core_part-IsCanonical :
    (ds : Bytes) {n : ℕ}
    → every is_digit ds ≡ true
    → core_part ds ≡ some n
    → IsCanonical ds × (n ≡ value_from 0 ds) × (n < u64_mod)
unfolding core_part from_chars
core_part-IsCanonical [] d h = cc
core_part-IsCanonical (c ∷ ds) d h = (
  record { digits = d; nonempty = omega arith; no_leading_zero = λ l. ground arith },
  ground arith,
  ground arith,
)

-- One round of the loop that succeeds in the end.
core_from_round :
    (fuel : ℕ) (value : Bytes) (parts : List ℕ) {parts' : List ℕ} {rest : Bytes}
    → core_from (suc fuel) value parts ≡ some (parts', rest)
    → (n : ℕ) × (core_part (span_digits value).0 ≡ some n)
      × (((span_digits value).1 ≡ rest) × (parts' ≡ parts ++ (n ∷ []))
          ⊎ ((tail : Bytes) × ((span_digits value).1 ≡ b'.' ∷ tail)
              × (core_from fuel tail (parts ++ (n ∷ [])) ≡ some (parts', rest))))
unfolding core_from
core_from_round fuel value parts h = ground arith

core_from-Spells :
    (fuel : ℕ) (value : Bytes) (parts : List ℕ) {parts' : List ℕ} {rest : Bytes}
    → core_from fuel value parts ≡ some (parts', rest)
    → (added : List ℕ) × (parts' ≡ parts ++ added) × Spells rest added value
core_from-Spells zero value parts h = unfold core_from in cc
core_from-Spells (suc fuel) value parts h =
    let (n, read, next) = core_from_round fuel value parts h in
    let (digits, splits) = span_digits_lem value in
    let (canonical, is_value, fits) = core_part-IsCanonical _ digits read in
    elim next [
      | inl (ends, grown) ↦ (n ∷ [], grown, last _ canonical is_value fits (cc (splits, ends)))
      | inr (tail, dot, later) ↦
          let (added, grown, spells) = core_from-Spells fuel tail (parts ++ (n ∷ [])) later in
          (
            n ∷ added,
            grown ∙ append_assoc parts (n ∷ []) added,
            more _ canonical is_value fits spells (cc (splits, dot)),
          )
    ]

finish_version-fields :
    (parts : List ℕ) (suffix : Bytes) {v : Version}
    → finish_version parts suffix ≡ some v
    → (v.parts ≡ parts) × (v.suffix ≡ suffix)
unfolding finish_version
finish_version-fields parts suffix h = ground arith

parse_stripped-core :
    (value : Bytes) {v : Version}
    → parse_stripped value ≡ some v
    → core_from (length value) value [] ≡ some (v.parts, v.suffix)
unfolding parse_stripped
parse_stripped-core value {v} h = elim (Option-cases (core_from (length value) value [])) [
  | inl failed ↦ ground arith
  | inr ((parts, suffix), read) ↦ ground (arith, finish_version-fields parts suffix {v = v})
]

pub parse_version-Spells :
    (text : Bytes) {v : Version}
    → parse_version text ≡ some v
    → Spells v.suffix v.parts (strip_v text)
unfolding parse_version
parse_version-Spells text {v} h =
    let (added, grown, spells) =
      core_from-Spells (length (strip_v text)) (strip_v text) []
        (parse_stripped-core (strip_v text) h) in
    rw grown spells

-- Two texts that are parsed to the same parts and the same suffix are the same text, up to a `v` or
-- `V` in front.
pub parse_version-injective :
    (s t : Bytes) {v w : Version}
    → parse_version s ≡ some v
    → parse_version t ≡ some w
    → v.parts ≡ w.parts
    → v.suffix ≡ w.suffix
    → strip_v s ≡ strip_v t
parse_version-injective s t {v} {w} hs ht parts suffix =
    Spells-injective (parse_version-Spells s hs) (rw (parts, suffix) (parse_version-Spells t ht))
