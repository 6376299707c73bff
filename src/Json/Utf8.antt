-- ===== src/Json/Utf8.antt =====
-- What the string reader returns is well-formed UTF-8: the encodings of Unicode scalar values.
use cheburnet.Base.{
  ℕ, zero, suc, ◌+◌, ◌-◌, ◌*◌, ◌%◌, ◌≤◌, ◌<◌, true, false, [], ◌∷◌, ◌++◌, append_assoc, append-nil,
  Bytes, ◌≡◌, sym, ap, ◌∙◌, arith, length, ltb, within, ◌⊎◌, inl, inr, Bool-cases, ◌^◌, every,
  subst,
}
use native.Mathlib.Nat.{pow-suc, mul_assoc}
use cheburnet.Json.{ok, Result-cases}
use cheburnet.Json.Text.{
  utf8, hex4, hex_from, hex_value, continue_from, copy_tail, copy_utf8, low_surrogate,
  unicode_escape, escape, close, piece, read_piece, string_from, parse_string,
}

-- A code point that is no surrogate.
pub record IsScalar (cp : ℕ) : Type 0 where
  pub in_range : cp ≤ 0x10ffff
  pub no_surrogate : within 0xd800 0xdfff cp ≡ false

-- The bytes are the encodings of scalar values, one after the other.
pub data IsUtf8 : Bytes → Type 0 where
  nil : IsUtf8 []
  char : {s t : Bytes} (cp : ℕ) → IsScalar cp → IsUtf8 s → t ≡ utf8 cp ++ s → IsUtf8 t

pub IsUtf8-append : {s t : Bytes} → IsUtf8 s → IsUtf8 t → IsUtf8 (s ++ t)
IsUtf8-append nil h = h
IsUtf8-append {t = t} (char {s} cp scalar rest e) h =
    char cp scalar (IsUtf8-append rest h) (ap (λ x. x ++ t) e ∙ append_assoc (utf8 cp) s t)

-- The bytes of one scalar value.
abbrev pub OneChar : Bytes → Type 0
OneChar bytes = (cp : ℕ) × IsScalar cp × (bytes ≡ utf8 cp)

copy_two :
    (lead : ℕ) (s : Bytes) {bytes rest : Bytes}
    → 0xc2 ≤ lead
    → lead ≤ 0xdf
    → copy_tail lead 1 (lead % 32) 0x80 s ≡ ok (bytes, rest)
    → OneChar bytes
unfolding copy_tail continue_from utf8
copy_two lead [] lo hi h = ground arith
copy_two lead (a ∷ s) lo hi h = (lead % 32 * 64 + a % 64, ground arith, ground arith)

copy_three :
    (lead : ℕ) (s : Bytes) {bytes rest : Bytes}
    → 0xe0 ≤ lead
    → lead ≤ 0xef
    → copy_tail lead 2 (lead % 16) 0x800 s ≡ ok (bytes, rest)
    → OneChar bytes
unfolding copy_tail continue_from utf8
copy_three lead [] lo hi h = ground arith
copy_three lead (a ∷ []) lo hi h = ground arith
copy_three lead (a ∷ b ∷ s) lo hi h =
    ((lead % 16 * 64 + a % 64) * 64 + b % 64, ground arith, ground arith)

copy_four :
    (lead : ℕ) (s : Bytes) {bytes rest : Bytes}
    → 0xf0 ≤ lead
    → lead ≤ 0xf4
    → copy_tail lead 3 (lead % 8) 0x10000 s ≡ ok (bytes, rest)
    → OneChar bytes
unfolding copy_tail continue_from utf8
copy_four lead [] lo hi h = ground arith
copy_four lead (a ∷ []) lo hi h = ground arith
copy_four lead (a ∷ b ∷ []) lo hi h = ground arith
copy_four lead (a ∷ b ∷ c ∷ s) lo hi h =
    (((lead % 8 * 64 + a % 64) * 64 + b % 64) * 64 + c % 64, ground arith, ground arith)

hex_from-lt :
    (k value bound : ℕ) (s : Bytes) {n : ℕ} {rest : Bytes}
    → value < bound
    → hex_from k value s ≡ ok (n, rest)
    → n < bound * 16 ^ k
unfolding hex_from
hex_from-lt zero value bound s lt h = ground arith
hex_from-lt (suc k) value bound [] lt h = cc
hex_from-lt (suc k) value bound (c ∷ s) {n} {rest} lt h =
    let later = hex_from-lt k (value * 16 + hex_value c) (bound * 16) s {n = n} {rest = rest} in
    ground (arith, later, pow-suc 16 k, mul_assoc bound 16 (16 ^ k))

hex4-lt : (s : Bytes) {n : ℕ} {rest : Bytes} → hex4 s ≡ ok (n, rest) → n < 65536
unfolding hex4
hex4-lt s {n} {rest} h = ground (arith, hex_from-lt 4 0 1 s {n = n} {rest = rest})

copy_utf8_cases :
    (lead : ℕ) (s : Bytes) {x : Bytes × Bytes}
    → copy_utf8 lead s ≡ ok x
    → (0xc2 ≤ lead) × (lead ≤ 0xdf) × (copy_tail lead 1 (lead % 32) 0x80 s ≡ ok x)
      ⊎ ((0xe0 ≤ lead) × (lead ≤ 0xef) × (copy_tail lead 2 (lead % 16) 0x800 s ≡ ok x)
          ⊎ (0xf0 ≤ lead) × (lead ≤ 0xf4) × (copy_tail lead 3 (lead % 8) 0x10000 s ≡ ok x))
unfolding copy_utf8
copy_utf8_cases lead s h = ground arith

copy_utf8-OneChar :
    (lead : ℕ) (s : Bytes) {bytes rest : Bytes}
    → copy_utf8 lead s ≡ ok (bytes, rest)
    → OneChar bytes
copy_utf8-OneChar lead s h = elim (copy_utf8_cases lead s h) [
  | inl (lo, hi, read) ↦ copy_two lead s lo hi read
  | inr longer ↦ elim longer [
    | inl (lo, hi, read) ↦ copy_three lead s lo hi read
    | inr (lo, hi, read) ↦ copy_four lead s lo hi read
  ]
]

-- The code point of a pair of surrogates.
abbrev pair_value : ℕ → ℕ → ℕ
pair_value high low = 0x10000 + (high - 0xd800) * 1024 + (low - 0xdc00)

low_surrogate-OneChar :
    (high : ℕ) (s : Bytes) {bytes rest : Bytes}
    → 0xd800 ≤ high
    → high ≤ 0xdbff
    → low_surrogate high s ≡ ok (bytes, rest)
    → OneChar bytes
unfolding low_surrogate
low_surrogate-OneChar high [] lo hi h = cc
low_surrogate-OneChar high (a ∷ []) lo hi h = cc
low_surrogate-OneChar high (a ∷ b ∷ s) lo hi h = elim (Result-cases (hex4 s)) [
  | inl (why, rest, failed) ↦ ground arith
  | inr ((low, rest), read) ↦ (pair_value high low, ground arith, ground arith)
]

unicode_escape-OneChar :
    (s : Bytes) {bytes rest : Bytes} → unicode_escape s ≡ ok (bytes, rest) → OneChar bytes
unicode_escape-OneChar s {bytes} {rest} h = elim (Result-cases (hex4 s)) [
  | inl (why, left, failed) ↦ unfold unicode_escape in ground arith
  | inr ((first, left), read) ↦ elim (Bool-cases (within 0xd800 0xdbff first)) [
    | inl high ↦
        low_surrogate-OneChar first left {bytes = bytes} {rest = rest} (ground arith) (ground arith)
          (unfold unicode_escape in ground arith)
    | inr other ↦ (
      first,
      unfold unicode_escape in ground (arith, hex4-lt s read),
      unfold unicode_escape in ground arith,
    )
  ]
]

OneChar-ascii :
    (bytes : Bytes) → length bytes ≡ 1 → every (λ c. ltb c 0x80) bytes ≡ true → OneChar bytes
unfolding utf8
OneChar-ascii [] l h = absurd (omega arith)
OneChar-ascii (c ∷ []) l h = (c, ground arith, ground arith)
OneChar-ascii (c ∷ d ∷ s) l h = absurd (omega arith)

abbrev Ascii : Bytes → Type 0
Ascii bytes = (length bytes ≡ 1) × (every (λ c. ltb c 0x80) bytes ≡ true)

escape_cases :
    (e : ℕ) (s : Bytes) {bytes rest : Bytes}
    → escape (e ∷ s) ≡ ok (bytes, rest)
    → Ascii bytes ⊎ (unicode_escape s ≡ ok (bytes, rest))
unfolding escape
escape_cases e s h = ground arith

escape-OneChar : (s : Bytes) {bytes rest : Bytes} → escape s ≡ ok (bytes, rest) → OneChar bytes
escape-OneChar [] h = unfold escape in cc
escape-OneChar (e ∷ s) {bytes} h = elim (escape_cases e s h) [
  | inl (one, low) ↦ OneChar-ascii bytes one low
  | inr code ↦ unicode_escape-OneChar s code
]

read_piece_cases :
    (c : ℕ) (s : Bytes) {bytes rest : Bytes}
    → read_piece c s ≡ ok (piece bytes rest)
    → Ascii bytes ⊎ ((copy_utf8 c s ≡ ok (bytes, rest)) ⊎ (escape s ≡ ok (bytes, rest)))
unfolding read_piece
read_piece_cases c s h = ground arith

read_piece-OneChar :
    (c : ℕ) (s : Bytes) {bytes rest : Bytes}
    → read_piece c s ≡ ok (piece bytes rest)
    → OneChar bytes
read_piece-OneChar c s {bytes} h = elim (read_piece_cases c s h) [
  | inl (one, low) ↦ OneChar-ascii bytes one low
  | inr longer ↦ elim longer [
    | inl copied ↦ copy_utf8-OneChar c s copied
    | inr escaped ↦ escape-OneChar s escaped
  ]
]

-- One round of the loop that succeeds in the end.
string_from_round :
    (fuel : ℕ) (c : ℕ) (s out : Bytes) {x : Bytes × Bytes}
    → string_from (suc fuel) (c ∷ s) out ≡ ok x
    → ((rest : Bytes) × (read_piece c s ≡ ok (close rest)) × (x ≡ (out, rest)))
      ⊎ ((bytes : Bytes) × (rest : Bytes) × (read_piece c s ≡ ok (piece bytes rest))
          × (string_from fuel rest (out ++ bytes) ≡ ok x))
unfolding string_from
string_from_round fuel c s out h = ground arith

string_from-IsUtf8 :
    (fuel : ℕ) (s out : Bytes) {text rest : Bytes}
    → IsUtf8 out
    → string_from fuel s out ≡ ok (text, rest)
    → IsUtf8 text
string_from-IsUtf8 zero s out u h = unfold string_from in cc
string_from-IsUtf8 (suc fuel) [] out u h = unfold string_from in cc
string_from-IsUtf8 (suc fuel) (c ∷ s) out u h = elim (string_from_round fuel c s out h) [
  | inl (rest, closed, e) ↦ subst IsUtf8 (cc) u
  | inr (bytes, rest, read, later) ↦
      let (cp, scalar, is_char) = read_piece-OneChar c s read in
      string_from-IsUtf8 fuel rest (out ++ bytes)
        (IsUtf8-append u (char cp scalar nil (is_char ∙ sym (append-nil (utf8 cp))))) later
]

-- A string that `ParseString` returns is well-formed UTF-8, whatever bytes the input holds.
pub parse_string-IsUtf8 :
    (s : Bytes) {text rest : Bytes} → parse_string s ≡ ok (text, rest) → IsUtf8 text
unfolding parse_string
parse_string-IsUtf8 s h = string_from-IsUtf8 (suc (length s)) s [] nil h
