-- ===== src/Json/Text.antt =====
-- Strings of util/Json.cpp: `ParseString`, `ParseHex4`, `CopyValidatedUtf8`, `AppendUtf8`, `Quote`.
-- The bit operations are written as arithmetic: `x << k` is `x * 2^k`, `x & (2^k - 1)` is `x % 2^k`,
-- and an `|` joins disjoint bits, so it is `+`.
use cheburnet.Base.{
  ℕ, zero, suc, ◌+◌, ◌-◌, ◌*◌, ◌/◌, ◌%◌, Bool, not, ◌||◌, [], ◌∷◌, ◌++◌, Bytes, codes, length, ltb,
  leb, ◌==◌, within, if◌then◌else◌,
}
use cheburnet.Json.{
  Result, ok, err, ◌>>=◌, truncated_unicode, invalid_unicode, invalid_utf8, truncated_utf8,
  invalid_continuation, invalid_code_point, control_character, truncated_escape,
  lone_high_surrogate, invalid_low_surrogate, unexpected_low_surrogate, invalid_escape,
  unterminated_string, out_of_fuel,
}

abbrev pub is_hex : ℕ → Bool
is_hex c = within b'0' b'9' c || (within b'a' b'f' c || within b'A' b'F' c)

abbrev pub hex_value : ℕ → ℕ
hex_value c =
    if within b'0' b'9' c
    then c - b'0'
    else if within b'a' b'f' c
    then c - b'a' + 10
    else c - b'A' + 10

-- What `AppendUtf8` appends.
unfoldable pub utf8 : ℕ → Bytes
utf8 cp =
    if leb cp 0x7f
    then cp ∷ []
    else if leb cp 0x7ff
    then (0xc0 + cp / 64) ∷ (0x80 + cp % 64) ∷ []
    else if leb cp 0xffff
    then (0xe0 + cp / 4096) ∷ (0x80 + cp / 64 % 64) ∷ (0x80 + cp % 64) ∷ []
    else (0xf0 + cp / 262144)
      ∷ (0x80 + cp / 4096 % 64)
      ∷ (0x80 + cp / 64 % 64)
      ∷ (0x80 + cp % 64)
      ∷ []

-- The loop of `ParseHex4`, with the digits left to read. The test in front of it leaves no empty
-- input here.
unfoldable pub hex_from : ℕ → ℕ → Bytes → Result (ℕ × Bytes)
hex_from zero value s = ok (value, s)
hex_from (suc k) value [] = err truncated_unicode []
hex_from (suc k) value (c ∷ s) =
    let rest = hex_from k (value * 16 + hex_value c) s in
    if is_hex c then rest else err invalid_unicode s

unfoldable pub hex4 : Bytes → Result (ℕ × Bytes)
hex4 s = if ltb (length s) 4 then err truncated_unicode s else hex_from 4 0 s

-- The loop over continuation bytes: the code point, the bytes read and the rest.
abbrev keep_byte : ℕ → ℕ × Bytes × Bytes → Result (ℕ × Bytes × Bytes)
keep_byte c (cp, bytes, rest) = ok (cp, c ∷ bytes, rest)

unfoldable pub continue_from : ℕ → ℕ → Bytes → Result (ℕ × Bytes × Bytes)
continue_from zero cp s = ok (cp, [], s)
continue_from (suc k) cp [] = err truncated_utf8 []
continue_from (suc k) cp (c ∷ s) =
    let rest = continue_from k (cp * 64 + c % 64) s in
    if c / 64 == 2 then rest >>= keep_byte c else err invalid_continuation s

-- `CopyValidatedUtf8` behind the choice by the lead byte: what it appends, and the rest.
unfoldable pub copy_tail : ℕ → ℕ → ℕ → ℕ → Bytes → Result (Bytes × Bytes)
copy_tail lead continuation bits minimum s =
    if ltb (length s) continuation then err truncated_utf8 s else do
      (cp, bytes, rest) ← continue_from continuation bits s
      if ltb cp minimum || (ltb 0x10ffff cp || within 0xd800 0xdfff cp)
          then err invalid_code_point rest
          else ok (lead ∷ bytes, rest)

unfoldable pub copy_utf8 : ℕ → Bytes → Result (Bytes × Bytes)
copy_utf8 lead s =
    if within 0xc2 0xdf lead
    then copy_tail lead 1 (lead % 32) 0x80 s
    else if within 0xe0 0xef lead
    then copy_tail lead 2 (lead % 16) 0x800 s
    else if within 0xf0 0xf4 lead
    then copy_tail lead 3 (lead % 8) 0x10000 s
    else err invalid_utf8 s

-- Behind a high surrogate: the escape of a low one.
unfoldable pub low_surrogate : ℕ → Bytes → Result (Bytes × Bytes)
low_surrogate high (a ∷ b ∷ s) =
    if ltb (length (a ∷ b ∷ s)) 6 || (not (a == b'\\') || not (b == b'u'))
    then err lone_high_surrogate (a ∷ b ∷ s)
    else do
      (second, rest) ← hex4 s
      if ltb second 0xdc00 || ltb 0xdfff second
          then err invalid_low_surrogate rest
          else ok (utf8 (0x10000 + (high - 0xd800) * 1024 + (second - 0xdc00)), rest)
low_surrogate high s = err lone_high_surrogate s

unfoldable pub unicode_escape : Bytes → Result (Bytes × Bytes)
unicode_escape s = do
  (first, rest) ← hex4 s
  if within 0xd800 0xdbff first
      then low_surrogate first rest
      else if within 0xdc00 0xdfff first
      then err unexpected_low_surrogate rest
      else ok (utf8 first, rest)

unfoldable pub escape : Bytes → Result (Bytes × Bytes)
escape [] = err truncated_escape []
escape (e ∷ s) =
    if e == b'"'
    then ok (b'"' ∷ [], s)
    else if e == b'\\'
    then ok (b'\\' ∷ [], s)
    else if e == b'/'
    then ok (b'/' ∷ [], s)
    else if e == b'b'
    then ok (0x08 ∷ [], s)
    else if e == b'f'
    then ok (0x0c ∷ [], s)
    else if e == b'n'
    then ok (0x0a ∷ [], s)
    else if e == b'r'
    then ok (0x0d ∷ [], s)
    else if e == b't'
    then ok (0x09 ∷ [], s)
    else if e == b'u'
    then unicode_escape s
    else err invalid_escape s

-- One round of `ParseString`: the closing quote, or what it appends.
pub data Piece : Type 0 where
  close : Bytes → Piece
  piece : Bytes → Bytes → Piece

abbrev pub to_piece : Bytes × Bytes → Result Piece
to_piece (bytes, rest) = ok (piece bytes rest)

unfoldable pub read_piece : ℕ → Bytes → Result Piece
read_piece c s =
    if c == b'"'
    then ok (close s)
    else if ltb c 0x20
    then err control_character s
    else if leb 0x80 c
    then copy_utf8 c s >>= to_piece
    else if not (c == b'\\')
    then ok (piece (c ∷ []) s)
    else escape s >>= to_piece

-- `ParseString` behind the opening quote. A round takes a byte at least, so the length of the input
-- and one more is fuel enough.
unfoldable pub string_from : ℕ → Bytes → Bytes → Result (Bytes × Bytes)
string_from zero s out = err out_of_fuel s
string_from (suc fuel) [] out = err unterminated_string []
string_from (suc fuel) (c ∷ s) out = elim (read_piece c s) [
  | err why rest ↦ err why rest
  | ok next ↦ elim next [
    | close rest ↦ ok (out, rest)
    | piece bytes rest ↦ string_from fuel rest (out ++ bytes)
  ]
]

unfoldable pub parse_string : Bytes → Result (Bytes × Bytes)
parse_string s = string_from (suc (length s)) s []

abbrev pub hex_digit : ℕ → ℕ
hex_digit n = if ltb n 10 then b'0' + n else b'a' + (n - 10)

-- What `Quote` writes for a byte.
unfoldable pub quote_byte : ℕ → Bytes
quote_byte c =
    if c == b'"'
    then codes "\\\""
    else if c == b'\\'
    then codes "\\\\"
    else if c == 0x08
    then codes "\\b"
    else if c == 0x0c
    then codes "\\f"
    else if c == 0x0a
    then codes "\\n"
    else if c == 0x0d
    then codes "\\r"
    else if c == 0x09
    then codes "\\t"
    else if ltb c 0x20
    then codes "\\u00" ++ (hex_digit (c / 16) ∷ hex_digit (c % 16) ∷ [])
    else c ∷ []

unfoldable pub quote_bytes : Bytes → Bytes
quote_bytes [] = []
quote_bytes (c ∷ s) = quote_byte c ++ quote_bytes s

unfoldable pub quote : Bytes → Bytes
quote input = b'"' ∷ (quote_bytes input ++ (b'"' ∷ []))

-- All the code of this file, for the runs of other modules.
unfoldable pub text_code : Unit {0}
unfolding utf8 hex4 hex_from copy_utf8 copy_tail continue_from escape unicode_escape low_surrogate
    read_piece string_from parse_string quote_byte quote_bytes quote
text_code = tt
