-- ===== src/Json/Limits/Total.antt =====
-- The loops of the parser never run out of fuel, and no more does `parse`.
use cheburnet.Base.{
  ℕ, zero, suc, ◌+◌, ◌<◌, ◌≡◌, ◌≢◌, refl, Bytes, arith, some, true, false, length, [], ◌∷◌, codes,
  inl, inr, Option-cases,
}
use cheburnet.Json.{
  out_of_fuel, Result, err, ◌>>=◌, Result-cases, add_item, Fields, Items, end, nil, null, boolean,
}
use cheburnet.Json.Text.{parse_string}
use cheburnet.Json.Parser.{
  ParseOptions, Reader, Read, skip_whitespace, skip_mark, consume, emplace, parse_keyed,
  parse_member, members_from, items_from, parse_object, parse_array, string_value, parse_token,
  parse_value, parse,
}
use cheburnet.Json.Limits.Fuel.{
  Ends, behind, behind_read, weaken-Ends, bind-Ends, parse_string-Ends, length-skip_whitespace,
  parse_literal-Ends, parse_number-Ends,
}

-- The remaining length behind `Consume` and the white space after it.
consume-shorter : (c : ℕ) (s : Bytes) {t : Bytes} → consume c s ≡ some t → length t < length s
consume-shorter c [] h = cc
consume-shorter c (d ∷ s) h = ground arith

consume_space :
    (c : ℕ) (s : Bytes) {t : Bytes}
    → consume c (skip_whitespace s) ≡ some t
    → length (skip_whitespace t) < length s
consume_space c s {t} h = omega (
  arith,
  consume-shorter c (skip_whitespace s) h,
  length-skip_whitespace s,
  length-skip_whitespace t,
)

-- A reader of values that ends.
record Terminates (read : Reader) : Type 0 where
  at : (values : ℕ) (s : Bytes) → Ends behind_read (length s) (read values s)

abbrev behind_member : Fields × Bytes × ℕ → Bytes
behind_member x = x.1

module _ (read : Reader) (total : Terminates read) where
  parse_keyed-Ends :
      (fields : Fields) (values : ℕ) (x : Bytes × Bytes)
      → Ends behind_member (length x.1) (parse_keyed read fields values x)
  unfolding parse_keyed emplace
  parse_keyed-Ends fields values (key, s) = elim (Option-cases (consume b':' (skip_whitespace s))) [
    | inl missing ↦ ground arith
    | inr (t, colon) ↦ elim (Result-cases (read values (skip_whitespace t))) [
      | inl (why, left, failed) ↦ ground (arith, total.at values (skip_whitespace t))
      | inr ((v, left, n), done) ↦
          ground (arith, total.at values (skip_whitespace t), consume_space b':' s {t = t})
    ]
  ]

  parse_member-Ends :
      (fields : Fields) (values : ℕ) (s : Bytes)
      → Ends behind_member (length s) (parse_member read fields values s)
  unfolding parse_member
  parse_member-Ends fields values [] = refl
  parse_member-Ends fields values (c ∷ s) = elim (Result-cases (parse_string s)) [
    | inl (why, left, failed) ↦ ground (arith, parse_string-Ends s)
    | inr ((key, left), done) ↦ ground (
      arith,
      parse_string-Ends s,
      weaken-Ends behind_member (length left) (suc (length s))
          (parse_keyed read fields values (key, left)),
      parse_keyed-Ends fields values (key, left),
    )
  ]

  members_from-Ends :
      (fuel : ℕ) (fields : Fields) (values : ℕ) (s : Bytes)
      → length s < fuel
      → Ends behind_read (length s) (members_from read fuel fields values s)
  unfolding members_from
  members_from-Ends zero fields values s h = absurd (omega arith)
  members_from-Ends (suc fuel) fields values s h =
      elim (Result-cases (parse_member read fields values s)) [
        | inl (why, left, failed) ↦ ground (arith, parse_member-Ends fields values s)
        | inr ((fields', left, n), done) ↦
            elim (Option-cases (consume b'}' (skip_whitespace left))) [
              | inr (t, closed) ↦ ground (
                arith,
                parse_member-Ends fields values s,
                consume-shorter b'}' (skip_whitespace left) {t = t},
                length-skip_whitespace left,
              )
              | inl going ↦ elim (Option-cases (consume b',' (skip_whitespace left))) [
                | inl missing ↦ ground arith
                | inr (t, comma) ↦ ground (
                  arith,
                  parse_member-Ends fields values s,
                  consume_space b',' left {t = t},
                  members_from-Ends fuel fields' n (skip_whitespace t),
                  weaken-Ends behind_read (length (skip_whitespace t)) (length s)
                      (members_from read fuel fields' n (skip_whitespace t)),
                )
              ]
            ]
      ]

  items_from-Ends :
      (fuel : ℕ) (items : Items) (values : ℕ) (s : Bytes)
      → length s < fuel
      → Ends behind_read (length s) (items_from read fuel items values s)
  unfolding items_from
  items_from-Ends zero items values s h = absurd (omega arith)
  items_from-Ends (suc fuel) items values s h = elim (Result-cases (read values s)) [
    | inl (why, left, failed) ↦ ground (arith, total.at values s)
    | inr ((v, left, n), done) ↦ elim (Option-cases (consume b']' (skip_whitespace left))) [
      | inr (t, closed) ↦ ground (
        arith,
        total.at values s,
        consume-shorter b']' (skip_whitespace left) {t = t},
        length-skip_whitespace left,
      )
      | inl going ↦ elim (Option-cases (consume b',' (skip_whitespace left))) [
        | inl missing ↦ ground arith
        | inr (t, comma) ↦ ground (
          arith,
          total.at values s,
          consume_space b',' left {t = t},
          items_from-Ends fuel (add_item items v) n (skip_whitespace t),
          weaken-Ends behind_read (length (skip_whitespace t)) (length s)
              (items_from read fuel (add_item items v) n (skip_whitespace t)),
        )
      ]
    ]
  ]

  parse_object-Ends :
      (values : ℕ) (s : Bytes) → Ends behind_read (length s) (parse_object read values s)
  unfolding parse_object
  parse_object-Ends values s = elim (Option-cases (consume b'}' (skip_whitespace s))) [
    | inr (t, closed) ↦
        ground (arith, consume-shorter b'}' (skip_whitespace s) {t = t}, length-skip_whitespace s)
    | inl going ↦
        let t = skip_whitespace s in
        ground (
          arith,
          weaken-Ends behind_read (length t) (length s)
              (members_from read (suc (length t)) end values t),
          members_from-Ends (suc (length t)) end values t,
          length-skip_whitespace s,
        )
  ]

  parse_array-Ends :
      (values : ℕ) (s : Bytes) → Ends behind_read (length s) (parse_array read values s)
  unfolding parse_array
  parse_array-Ends values s = elim (Option-cases (consume b']' (skip_whitespace s))) [
    | inr (t, closed) ↦
        ground (arith, consume-shorter b']' (skip_whitespace s) {t = t}, length-skip_whitespace s)
    | inl going ↦
        let t = skip_whitespace s in
        ground (
          arith,
          weaken-Ends behind_read (length t) (length s)
              (items_from read (suc (length t)) nil values t),
          items_from-Ends (suc (length t)) nil values t,
          length-skip_whitespace s,
        )
  ]

  string-Ends :
      (values : ℕ) (s : Bytes)
      → Ends behind_read (length s) (parse_string s >>= string_value values)
  string-Ends values s =
      bind-Ends behind behind_read (length s) (parse_string s) (string_value values)
        (parse_string-Ends s) λ a l. l

  parse_token-Ends :
      (values : ℕ) (s : Bytes) → Ends behind_read (length s) (parse_token read values s)
  parse_token-Ends values [] = unfold parse_token in refl
  parse_token-Ends values (c ∷ s) =
      let longer = λ (r : Result Read). weaken-Ends behind_read (length s) (suc (length s)) r in
      unfold parse_token in
      ground (
        arith,
        longer (parse_object read values s),
        parse_object-Ends values s,
        longer (parse_array read values s),
        parse_array-Ends values s,
        longer (parse_string s >>= string_value values),
        string-Ends values s,
        parse_literal-Ends (codes "true") (boolean true) values (c ∷ s),
        parse_literal-Ends (codes "false") (boolean false) values (c ∷ s),
        parse_literal-Ends (codes "null") null values (c ∷ s),
        parse_number-Ends values (c ∷ s),
      )

parse_value-Ends :
    (top levels values : ℕ) (s : Bytes)
    → Terminates (parse_value top levels)
    → Ends behind_read (length s) (parse_value top (suc levels) values s)
unfolding parse_value
parse_value-Ends top levels values s total =
    ground (arith, parse_token-Ends (parse_value top levels) total (values + 1) s)

parse_value-Terminates : (top levels : ℕ) → Terminates (parse_value top levels)
parse_value-Terminates top zero = record { at = λ values s. unfold parse_value in refl }
parse_value-Terminates top (suc levels) = record {
  at = λ values s. parse_value-Ends top levels values s (parse_value-Terminates top levels);
}

-- Reading ends by the code's own tests, whatever the input: no loop is cut off.
pub parse-ne-out_of_fuel :
    (options : ParseOptions) (input left : Bytes) → parse options input ≢ err out_of_fuel left
unfolding parse
parse-ne-out_of_fuel options input left = ground (
  arith,
  (parse_value-Terminates options.max_values (suc options.max_depth)).at 0
      (skip_whitespace (skip_mark input)),
)
