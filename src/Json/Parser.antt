-- ===== src/Json/Parser.antt =====
-- `Parser` of util/Json.cpp: `Run`, `ParseValue`, `ParseLiteral`, `ParseObject`, `ParseArray` and
-- `ParseNumber`. The state is the unread input and the count `values_`. `ParseValue` recurs on the
-- nesting that is left, and each loop on the length of its input: Json/Limits shows that both suffice.
use cheburnet.Base.{
  ℕ, zero, suc, ◌+◌, ◌-◌, ◌*◌, Bool, true, false, ◌&&◌, ◌||◌, [], ◌∷◌, Option, none, some, Bytes,
  codes, length, is_empty, ltb, ◌==◌, within, if◌then◌else◌, bytes_eq, drop, take,
}
use cheburnet.Json.{
  byte_limit, trailing_data, nesting_limit, value_limit, unexpected_end, unexpected_token,
  invalid_literal, key_not_string, missing_colon, duplicate_key, missing_comma, truncated_number,
  leading_zero, invalid_number, missing_fraction, missing_exponent, out_of_fuel, Result, ok, err,
  ◌>>=◌, Value, null, boolean, number, string, array, object, Items, nil, Fields, end, add_field,
  add_item, lookup,
}
use cheburnet.Json.Text.{parse_string, text_code}

pub record ParseOptions : Type 0 where
  pub max_bytes : ℕ
  pub max_depth : ℕ
  pub max_values : ℕ

abbrev pub default_options : ParseOptions
default_options = record { max_bytes = 1024 * 1024; max_depth = 32; max_values = 8192 }

-- A value, the unread input behind it, and `values_`.
abbrev pub Read : Type 0
Read = Value × Bytes × ℕ

abbrev is_space : ℕ → Bool
is_space c = c == b' ' || (c == b'\t' || (c == b'\r' || c == b'\n'))

unfoldable pub skip_whitespace : Bytes → Bytes
skip_whitespace [] = []
skip_whitespace (c ∷ s) = let rest = skip_whitespace s in if is_space c then rest else c ∷ s

abbrev pub is_digit : ℕ → Bool
is_digit c = within b'0' b'9' c

abbrev pub starts_with : (ℕ → Bool) → Bytes → Bool
starts_with p [] = false
starts_with p (c ∷ s) = p c

-- `Consume(c)`: what is left behind `c`.
abbrev pub consume : ℕ → Bytes → Option Bytes
consume c [] = none
consume c (d ∷ s) = if d == c then some s else none

unfoldable pub parse_literal : Bytes → Value → ℕ → Bytes → Result Read
parse_literal literal value values s =
    if bytes_eq (take (length literal) s) literal
    then ok (value, drop (length literal) s, values)
    else err invalid_literal s

unfoldable pub skip_digits : Bytes → Bytes
skip_digits [] = []
skip_digits (c ∷ s) = let rest = skip_digits s in if is_digit c then rest else c ∷ s

-- The integer part of a number, behind the sign.
unfoldable pub integer_part : Bytes → Result Bytes
unfolding skip_digits
integer_part [] = err invalid_number []
integer_part (c ∷ s) =
    if c == b'0'
    then (if starts_with is_digit s then err leading_zero s else ok s)
    else if within b'1' b'9' c
    then ok (skip_digits s)
    else err invalid_number (c ∷ s)

unfoldable pub fraction_part : Bytes → Result Bytes
unfolding skip_digits
fraction_part [] = ok []
fraction_part (c ∷ s) =
    if c == b'.'
    then (if starts_with is_digit s then ok (skip_digits s) else err missing_fraction s)
    else ok (c ∷ s)

abbrev skip_sign : Bytes → Bytes
skip_sign [] = []
skip_sign (c ∷ s) = if c == b'+' || c == b'-' then s else c ∷ s

unfoldable pub exponent_part : Bytes → Result Bytes
unfolding skip_digits
exponent_part [] = ok []
exponent_part (c ∷ s) =
    if c == b'e' || c == b'E'
    then (let t = skip_sign s in
        if starts_with is_digit t then ok (skip_digits t) else err missing_exponent t)
    else ok (c ∷ s)

-- `Consume('-') && pos_ >= input_.size()`
unfoldable pub sign_part : Bytes → Result Bytes
sign_part [] = ok []
sign_part (c ∷ s) =
    if c == b'-' then (if is_empty s then err truncated_number s else ok s) else ok (c ∷ s)

unfoldable pub parse_number : ℕ → Bytes → Result Read
parse_number values s = do
  s₁ ← sign_part s
  s₂ ← integer_part s₁
  s₃ ← fraction_part s₂
  s₄ ← exponent_part s₃
  ok (number (take (length s - length s₄) s), s₄, values)

-- `emplace`: the members with the new one, unless the key is there.
unfoldable pub emplace : Fields → Bytes → Value → Option Fields
unfolding lookup
emplace fields key v = elim (lookup key fields) [
  | none ↦ some (add_field fields key v)
  | some _ ↦ none
]

-- The loops take the reader of a nested value, `values_` and the unread input.
abbrev pub Reader : Type 0
Reader = ℕ → Bytes → Result Read

module _ (read_value : Reader) where
  -- One member behind its key: the colon and the value; then the members with it.
  unfoldable pub parse_keyed : Fields → ℕ → Bytes × Bytes → Result (Fields × Bytes × ℕ)
  parse_keyed fields values (key, s₁) = elim (consume b':' (skip_whitespace s₁)) [
    | none ↦ err missing_colon (skip_whitespace s₁)
    | some s₂ ↦ elim (read_value values (skip_whitespace s₂)) [
      | err why rest ↦ err why rest
      | ok (v, s₃, values') ↦ elim (emplace fields key v) [
        | none ↦ err duplicate_key s₃
        | some fields' ↦ ok (fields', s₃, values')
      ]
    ]
  ]

  unfoldable pub parse_member : Fields → ℕ → Bytes → Result (Fields × Bytes × ℕ)
  parse_member fields values [] = err key_not_string []
  parse_member fields values (c ∷ s) =
      if c == b'"' then parse_string s >>= parse_keyed fields values else err key_not_string (c ∷ s)

  -- The loop of `ParseObject`.
  unfoldable pub members_from : ℕ → Fields → ℕ → Bytes → Result Read
  members_from zero fields values s = err out_of_fuel s
  members_from (suc fuel) fields values s = elim (parse_member fields values s) [
    | err why rest ↦ err why rest
    | ok (fields', s₁, values') ↦ elim (consume b'}' (skip_whitespace s₁)) [
      | some s₂ ↦ ok (object fields', s₂, values')
      | none ↦ elim (consume b',' (skip_whitespace s₁)) [
        | none ↦ err missing_comma (skip_whitespace s₁)
        | some s₂ ↦ members_from fuel fields' values' (skip_whitespace s₂)
      ]
    ]
  ]

  -- The loop of `ParseArray`.
  unfoldable pub items_from : ℕ → Items → ℕ → Bytes → Result Read
  items_from zero items values s = err out_of_fuel s
  items_from (suc fuel) items values s = elim (read_value values s) [
    | err why rest ↦ err why rest
    | ok (v, s₁, values') ↦ elim (consume b']' (skip_whitespace s₁)) [
      | some s₂ ↦ ok (array (add_item items v), s₂, values')
      | none ↦ elim (consume b',' (skip_whitespace s₁)) [
        | none ↦ err missing_comma (skip_whitespace s₁)
        | some s₂ ↦ items_from fuel (add_item items v) values' (skip_whitespace s₂)
      ]
    ]
  ]

  -- `ParseObject` and `ParseArray`, behind the opening bracket.
  unfoldable pub parse_object : ℕ → Bytes → Result Read
  parse_object values s =
      let t = skip_whitespace s in
      elim (consume b'}' t) [
        | some rest ↦ ok (object end, rest, values)
        | none ↦ members_from (suc (length t)) end values t
      ]

  unfoldable pub parse_array : ℕ → Bytes → Result Read
  parse_array values s =
      let t = skip_whitespace s in
      elim (consume b']' t) [
        | some rest ↦ ok (array nil, rest, values)
        | none ↦ items_from (suc (length t)) nil values t
      ]

abbrev pub string_value : ℕ → Bytes × Bytes → Result Read
string_value values (text, rest) = ok (string text, rest, values)

-- The `switch` of `ParseValue`.
unfoldable pub parse_token : Reader → ℕ → Bytes → Result Read
parse_token read_value values [] = err unexpected_end []
parse_token read_value values (c ∷ s) =
    if c == b'{'
    then parse_object read_value values s
    else if c == b'['
    then parse_array read_value values s
    else if c == b'"'
    then parse_string s >>= string_value values
    else if c == b't'
    then parse_literal (codes "true") (boolean true) values (c ∷ s)
    else if c == b'f'
    then parse_literal (codes "false") (boolean false) values (c ∷ s)
    else if c == b'n'
    then parse_literal (codes "null") null values (c ∷ s)
    else if c == b'-' || is_digit c
    then parse_number values (c ∷ s)
    else err unexpected_token (c ∷ s)

-- `ParseValue`, by the levels of nesting left: `depth > maxDepth` where none is left.
unfoldable pub parse_value : ℕ → ℕ → Reader
parse_value max_values zero values s = err nesting_limit s
parse_value max_values (suc levels) values s =
    if ltb max_values (values + 1)
    then err value_limit s
    else parse_token (parse_value max_values levels) (values + 1) s

abbrev pub skip_mark : Bytes → Bytes
skip_mark (a ∷ b ∷ c ∷ s) = if a == 0xef && (b == 0xbb && c == 0xbf) then s else a ∷ b ∷ c ∷ s
skip_mark s = s

-- `Parse`.
unfoldable pub parse : ParseOptions → Bytes → Result Value
parse options input = if ltb options.max_bytes (length input) then err byte_limit input else do
  (value, rest, values) ←
      parse_value options.max_values (suc options.max_depth) 0 (skip_whitespace (skip_mark input))
  if is_empty (skip_whitespace rest) then ok value else err trailing_data (skip_whitespace rest)

-- All the code of this file and of the string reader, for the runs of other modules.
unfoldable pub parser_code : Unit {0}
unfolding text_code parse parse_value parse_token parse_array parse_object items_from members_from
    parse_member parse_keyed emplace lookup parse_number sign_part exponent_part fraction_part
    integer_part skip_digits parse_literal skip_whitespace bytes_eq
parser_code = tt
