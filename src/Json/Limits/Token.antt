-- ===== src/Json/Limits/Token.antt =====
-- `ParseValue` gives sound values at every level of nesting.
use cheburnet.Base.{
  codes, ℕ, zero, suc, ◌+◌, ◌≤◌, ◌≡◌, Bytes, arith, Bool, true, false, ◌⊎◌, inl, inr, [], ◌∷◌,
  Option-cases, subst,
}
use cheburnet.Json.{
  Value, null, boolean, number, string, array, object, nil, end, ok, ◌>>=◌, >>=-eq-ok, Result-cases,
}
use cheburnet.Json.Text.{parse_string}
use cheburnet.Json.Utf8.{parse_string-IsUtf8}
use cheburnet.Json.Parser.{
  ParseOptions, Reader, Read, skip_whitespace, skip_mark, consume, parse_object, parse_array,
  string_value, parse_literal, parse_number, parse_token, parse_value, parse,
}
use cheburnet.Json.Limits.Measures.{
  nodes, depth, IsFormed, no_items, no_fields, formed_null, formed_boolean, formed_number,
  formed_string,
}
use cheburnet.Json.Limits.Loops.{
  IsSoundReader, Whole, FieldsSound, ItemsSound, FieldsSound-object, ItemsSound-array,
  members_from-Whole, items_from-Whole,
}

abbrev is_atom : Value → Bool
is_atom null = true
is_atom (boolean b) = true
is_atom (number raw) = true
is_atom _ = false

-- A value that holds no other and is no string.
Whole-atom :
    (top levels start : ℕ) (v : Value) (rest : Bytes) (values : ℕ)
    → is_atom v ≡ true
    → values ≡ start
    → values ≤ top
    → Whole top levels start (v, rest, values)
unfolding nodes depth
Whole-atom top levels start null rest values a e c = (omega arith, omega arith, c, formed_null)
Whole-atom top levels start (boolean b) rest values a e c =
    (omega arith, omega arith, c, formed_boolean b)
Whole-atom top levels start (number raw) rest values a e c =
    (omega arith, omega arith, c, formed_number raw)
Whole-atom top levels start (string s) rest values a e c = cc
Whole-atom top levels start (array xs) rest values a e c = cc
Whole-atom top levels start (object fs) rest values a e c = cc

literal-atom :
    (literal : Bytes) (v : Value) (values : ℕ) (s : Bytes) {x : Read}
    → parse_literal literal v values s ≡ ok x
    → (x.0 ≡ v) × (x.2 ≡ values)
unfolding parse_literal
literal-atom literal v values s h = ground arith

number-atom :
    (values : ℕ) (s : Bytes) {x : Read}
    → parse_number values s ≡ ok x
    → (is_atom x.0 ≡ true) × (x.2 ≡ values)
unfolding parse_number
number-atom values s h = ground arith

token_cases :
    (read : Reader) (values c : ℕ) (s : Bytes) {x : Read}
    → parse_token read values (c ∷ s) ≡ ok x
    → (parse_object read values s ≡ ok x)
      ⊎ ((parse_array read values s ≡ ok x)
          ⊎ (((parse_string s >>= string_value values) ≡ ok x)
              ⊎ ((is_atom x.0 ≡ true) × (x.2 ≡ values))))
unfolding parse_token
token_cases read values c s {x} h = ground (
  arith,
  literal-atom (codes "true") (boolean true) values (c ∷ s) {x = x},
  literal-atom (codes "false") (boolean false) values (c ∷ s) {x = x},
  literal-atom (codes "null") null values (c ∷ s) {x = x},
  number-atom values (c ∷ s) {x = x},
)

module _ (top levels : ℕ) (read : Reader) (sound : IsSoundReader top levels read) where
  parse_object-Whole :
      (values : ℕ) (s : Bytes) {x : Read}
      → values ≤ top
      → parse_object read values s ≡ ok x
      → Whole top levels values x
  unfolding parse_object
  parse_object-Whole values s {x} c h =
      let start : FieldsSound top levels values end values = record {
        shallow = unfold depth in omega arith;
        counted = unfold nodes in omega arith;
        capped = c;
        formed = no_fields;
      } in
      elim (Option-cases (consume b'}' (skip_whitespace s))) [
        | inr (rest, e) ↦
            let e' : (object end, rest, values) ≡ x = ground arith in
            subst (Whole top levels values) e' (FieldsSound-object top levels values rest start)
        | inl e ↦
            members_from-Whole top levels values read sound _ end values _ start
              (rw (e, parse_object) at h)
      ]

  parse_array-Whole :
      (values : ℕ) (s : Bytes) {x : Read}
      → values ≤ top
      → parse_array read values s ≡ ok x
      → Whole top levels values x
  unfolding parse_array
  parse_array-Whole values s {x} c h =
      let start : ItemsSound top levels values nil values = record {
        shallow = unfold depth in omega arith;
        counted = unfold nodes in omega arith;
        capped = c;
        formed = no_items;
      } in
      elim (Option-cases (consume b']' (skip_whitespace s))) [
        | inr (rest, e) ↦
            let e' : (array nil, rest, values) ≡ x = ground arith in
            subst (Whole top levels values) e' (ItemsSound-array top levels values rest start)
        | inl e ↦
            items_from-Whole top levels values read sound _ nil values _ start
              (rw (e, parse_array) at h)
      ]

  string-Whole :
      (values : ℕ) (s : Bytes) {x : Read}
      → values ≤ top
      → (parse_string s >>= string_value values) ≡ ok x
      → Whole top levels values x
  unfolding depth nodes
  string-Whole values s {x} c h =
      let ((text, rest), read_text, e) = >>=-eq-ok (parse_string s) (string_value values) h in
      let e' : (string text, rest, values) ≡ x = ground arith in
      subst (Whole top levels values) e'
        (omega arith, omega arith, c, formed_string (parse_string-IsUtf8 s read_text))

  parse_token-Whole :
      (values : ℕ) (s : Bytes) {x : Read}
      → values ≤ top
      → parse_token read values s ≡ ok x
      → Whole top levels values x
  parse_token-Whole values [] c h = unfold parse_token in cc
  parse_token-Whole values (b ∷ s) {x} c h = elim (token_cases read values b s h) [
    | inl e ↦ parse_object-Whole values s c e
    | inr other ↦ elim other [
      | inl e ↦ parse_array-Whole values s c e
      | inr other' ↦ elim other' [
        | inl e ↦ string-Whole values s c e
        | inr (atom, same) ↦
            Whole-atom top levels values x.0 x.1 x.2 atom same (omega (arith, same))
      ]
    ]
  ]

value_round :
    (top levels values : ℕ) (s : Bytes) {x : Read}
    → parse_value top (suc levels) values s ≡ ok x
    → (values + 1 ≤ top) × (parse_token (parse_value top levels) (values + 1) s ≡ ok x)
unfolding parse_value
value_round top levels values s h = ground arith

parse_round :
    (options : ParseOptions) (input : Bytes) {v : Value}
    → parse options input ≡ ok v
    → (rest : Bytes) × (values : ℕ) × (parse_value options.max_values
          (suc options.max_depth)
          0
          (skip_whitespace (skip_mark input))
        ≡ ok (v, rest, values))
unfolding parse
parse_round options input {v} h =
    elim (Result-cases (
      parse_value options.max_values (suc options.max_depth) 0
        (skip_whitespace (skip_mark input)))) [
          | inl (why, left, failed) ↦ absurd (ground arith)
          | inr ((w, rest, values), done) ↦ (rest, values, ground arith)
        ]

parse_value-IsSoundReader : (top levels : ℕ) → IsSoundReader top levels (parse_value top levels)
parse_value-IsSoundReader top zero = record {
  at = λ values s v rest values' h. unfold parse_value in cc;
}
parse_value-IsSoundReader top (suc levels) = record {
  at = λ values s v rest values' h.
      let (room, token) = value_round top levels values s h in
      let (shallow, counted, capped, formed) =
        parse_token-Whole top levels (parse_value top levels) (parse_value-IsSoundReader top levels)
          (values + 1) s room token in
      record { shallow = omega arith; counted = omega arith; capped = capped; formed = formed };
}

-- A document that is read respects the limits: `max_depth` on nesting and `max_values` on the count
-- of values. Its strings and keys are well-formed UTF-8, and no object of it has a key twice.
pub parse-IsSound :
    (options : ParseOptions) (input : Bytes) {v : Value}
    → parse options input ≡ ok v
    → (depth v ≤ options.max_depth) × (nodes v ≤ options.max_values) × IsFormed v
parse-IsSound options input {v} h =
    let (rest, values, read) = parse_round options input h in
    let sound =
      (parse_value-IsSoundReader options.max_values (suc options.max_depth)).at 0
        (skip_whitespace (skip_mark input)) v rest values read in
    (omega (arith, sound.shallow), omega (arith, sound.counted, sound.capped), sound.formed)
