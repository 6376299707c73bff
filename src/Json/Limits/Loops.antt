-- ===== src/Json/Limits/Loops.antt =====
-- The loops over members and items keep what a sound reader of values gives.
use cheburnet.Base.{
  ℕ, zero, suc, ◌+◌, ◌≤◌, ◌<◌, ◌≡◌, sym, Bytes, arith, none, ◌⊎◌, inl, inr, [], ◌∷◌, Option-cases,
  subst,
}
use cheburnet.Json.{
  Value, array, object, Items, Fields, lookup, add_field, add_item, ok, Result-cases,
}
use cheburnet.Json.Text.{parse_string}
use cheburnet.Json.Utf8.{parse_string-IsUtf8}
use cheburnet.Json.Parser.{
  Reader, Read, skip_whitespace, consume, emplace, parse_keyed, parse_member, members_from,
  items_from,
}
use cheburnet.Json.Limits.Measures.{
  nodes, nodes_items, nodes_fields, depth, depth_items, depth_fields, IsFormed, IsFormedItems,
  IsFormedFields, formed_array, formed_object, nodes-add_item, depth-add_item, IsFormed-add_item,
  nodes-add_field, depth-add_field, IsFormed-add_field,
}

-- What a read value satisfies: nested less than `levels` deep, counted, within the limit, formed.
pub record IsSound (top levels values : ℕ) (v : Value) (values' : ℕ) : Type 0 where
  pub shallow : depth v < levels
  pub counted : values' ≡ values + nodes v
  pub capped : values' ≤ top
  pub formed : IsFormed v

pub record IsSoundReader (top levels : ℕ) (read : Reader) : Type 0 where
  pub at :
      (values : ℕ) (s : Bytes) (v : Value) (rest : Bytes) (values' : ℕ)
      → read values s ≡ ok (v, rest, values')
      → IsSound top levels values v values'

-- One member that is read well.
keyed_round :
    (read : Reader) (fields : Fields) (values : ℕ) (key s : Bytes) {fields' : Fields} {rest : Bytes}
    {values' : ℕ}
    → parse_keyed read fields values (key, s) ≡ ok (fields', rest, values')
    → (t : Bytes) × (v : Value) × (read values t ≡ ok (v, rest, values'))
      × (lookup key fields ≡ none)
      × (fields' ≡ add_field fields key v)
unfolding parse_keyed emplace
keyed_round read fields values key s h = elim (Option-cases (consume b':' (skip_whitespace s))) [
  | inl missing ↦ absurd (ground arith)
  | inr (t, colon) ↦ elim (Result-cases (read values (skip_whitespace t))) [
    | inl (why, left, failed) ↦ absurd (ground arith)
    | inr ((v, left, n), done) ↦ (skip_whitespace t, v, ground arith, ground arith, ground arith)
  ]
]

member_round :
    (read : Reader) (fields : Fields) (values : ℕ) (s : Bytes) {x : Fields × Bytes × ℕ}
    → parse_member read fields values s ≡ ok x
    → (inside : Bytes) × (key : Bytes) × (left : Bytes) × (parse_string inside ≡ ok (key, left))
      × (parse_keyed read fields values (key, left) ≡ ok x)
unfolding parse_member
member_round read fields values [] h = cc
member_round read fields values (c ∷ s) h = elim (Result-cases (parse_string s)) [
  | inl (why, left, failed) ↦ absurd (ground arith)
  | inr ((key, left), done) ↦ (s, key, left, done, ground arith)
]

members_round :
    (read : Reader) (fuel : ℕ) (fields : Fields) (values : ℕ) (s : Bytes) {x : Read}
    → members_from read (suc fuel) fields values s ≡ ok x
    → (fields' : Fields) × (s' : Bytes) × (values' : ℕ) × (parse_member read fields values s
        ≡ ok (fields', s', values'))
      × (((rest : Bytes) × (x ≡ (object fields', rest, values')))
          ⊎ ((t : Bytes) × (members_from read fuel fields' values' t ≡ ok x)))
unfolding members_from
members_round read fuel fields values s {x} h =
    elim (Result-cases (parse_member read fields values s)) [
      | inl (why, left, failed) ↦ absurd (ground arith)
      | inr ((fields', left, values'), done) ↦ (
        fields',
        left,
        values',
        done,
        elim (Option-cases (consume b'}' (skip_whitespace left))) [
          | inr (rest, closed) ↦ inl (rest, ground arith)
          | inl open_ ↦ elim (Option-cases (consume b',' (skip_whitespace left))) [
            | inl missing ↦ absurd (ground arith)
            | inr (t, comma) ↦ inr (skip_whitespace t, ground arith)
          ]
        ],
      )
    ]

items_round :
    (read : Reader) (fuel : ℕ) (items : Items) (values : ℕ) (s : Bytes) {x : Read}
    → items_from read (suc fuel) items values s ≡ ok x
    → (v : Value) × (s' : Bytes) × (values' : ℕ) × (read values s ≡ ok (v, s', values'))
      × (((rest : Bytes) × (x ≡ (array (add_item items v), rest, values')))
          ⊎ ((t : Bytes) × (items_from read fuel (add_item items v) values' t ≡ ok x)))
unfolding items_from
items_round read fuel items values s {x} h = elim (Result-cases (read values s)) [
  | inl (why, left, failed) ↦ absurd (ground arith)
  | inr ((v, left, values'), done) ↦ (
    v,
    left,
    values',
    done,
    elim (Option-cases (consume b']' (skip_whitespace left))) [
      | inr (rest, closed) ↦ inl (rest, ground arith)
      | inl open_ ↦ elim (Option-cases (consume b',' (skip_whitespace left))) [
        | inl missing ↦ absurd (ground arith)
        | inr (t, comma) ↦ inr (skip_whitespace t, ground arith)
      ]
    ],
  )
]

-- What the members, or the items, read so far satisfy; `start` is the count in front of them.
pub record FieldsSound (top levels start : ℕ) (fields : Fields) (values : ℕ) : Type 0 where
  pub shallow : depth_fields fields ≤ levels
  pub counted : values ≡ start + nodes_fields fields
  pub capped : values ≤ top
  pub formed : IsFormedFields fields

pub record ItemsSound (top levels start : ℕ) (items : Items) (values : ℕ) : Type 0 where
  pub shallow : depth_items items ≤ levels
  pub counted : values ≡ start + nodes_items items
  pub capped : values ≤ top
  pub formed : IsFormedItems items

-- What the loops, and so the reader of one level more, give.
abbrev pub Whole : ℕ → ℕ → ℕ → Read → Type 0
Whole top levels start (v, rest, values') =
    (depth v ≤ levels) × (suc values' ≡ start + nodes v) × (values' ≤ top) × IsFormed v

pub FieldsSound-object :
    (top levels start : ℕ) {fields : Fields} {values : ℕ} (rest : Bytes)
    → FieldsSound top levels start fields values
    → Whole top levels start (object fields, rest, values)
unfolding depth nodes
FieldsSound-object top levels start rest h =
    (h.shallow, omega (arith, h.counted), h.capped, formed_object h.formed)

pub ItemsSound-array :
    (top levels start : ℕ) {items : Items} {values : ℕ} (rest : Bytes)
    → ItemsSound top levels start items values
    → Whole top levels start (array items, rest, values)
unfolding depth nodes
ItemsSound-array top levels start rest h =
    (h.shallow, omega (arith, h.counted), h.capped, formed_array h.formed)

module _ (top levels start : ℕ) (read : Reader) (sound : IsSoundReader top levels read) where
  member-FieldsSound :
      (fields : Fields) (values : ℕ) (s : Bytes) {fields' : Fields} {left : Bytes} {values' : ℕ}
      → FieldsSound top levels start fields values
      → parse_member read fields values s ≡ ok (fields', left, values')
      → FieldsSound top levels start fields' values'
  member-FieldsSound fields values s {fields'} {left} {values'} so_far h =
      let (inside, key, behind, quoted, keyed) = member_round read fields values s h in
      let (t, w, value_read, fresh, grown) = keyed_round read fields values key behind keyed in
      let w_sound = sound.at values t w left values' value_read in
      rw grown (record {
        shallow = omega (arith, depth-add_field fields key w, so_far.shallow, w_sound.shallow);
        counted = omega (arith, nodes-add_field fields key w, so_far.counted, w_sound.counted);
        capped = w_sound.capped;
        formed =
            IsFormed-add_field so_far.formed (parse_string-IsUtf8 inside quoted) w_sound.formed
              fresh;
      })

  item-ItemsSound :
      (items : Items) (values : ℕ) (s : Bytes) (v : Value) {left : Bytes} {values' : ℕ}
      → ItemsSound top levels start items values
      → read values s ≡ ok (v, left, values')
      → ItemsSound top levels start (add_item items v) values'
  item-ItemsSound items values s v {left} {values'} so_far h =
      let v_sound = sound.at values s v left values' h in
      record {
        shallow = omega (arith, depth-add_item items v, so_far.shallow, v_sound.shallow);
        counted = omega (arith, nodes-add_item items v, so_far.counted, v_sound.counted);
        capped = v_sound.capped;
        formed = IsFormed-add_item so_far.formed v_sound.formed;
      }

  pub members_from-Whole :
      (fuel : ℕ) (fields : Fields) (values : ℕ) (s : Bytes) {x : Read}
      → FieldsSound top levels start fields values
      → members_from read fuel fields values s ≡ ok x
      → Whole top levels start x
  members_from-Whole zero fields values s so_far h = unfold members_from in cc
  members_from-Whole (suc fuel) fields values s {x} so_far h =
      let (fields', left, values', done, next) = members_round read fuel fields values s h in
      let so_far' = member-FieldsSound fields values s so_far done in
      elim next [
        | inl (rest, e) ↦
            subst (Whole top levels start) (sym e)
              (FieldsSound-object top levels start rest so_far')
        | inr (t, later) ↦ members_from-Whole fuel fields' values' t so_far' later
      ]

  pub items_from-Whole :
      (fuel : ℕ) (items : Items) (values : ℕ) (s : Bytes) {x : Read}
      → ItemsSound top levels start items values
      → items_from read fuel items values s ≡ ok x
      → Whole top levels start x
  items_from-Whole zero items values s so_far h = unfold items_from in cc
  items_from-Whole (suc fuel) items values s {x} so_far h =
      let (v, left, values', done, next) = items_round read fuel items values s h in
      let so_far' = item-ItemsSound items values s v so_far done in
      elim next [
        | inl (rest, e) ↦
            subst (Whole top levels start) (sym e) (ItemsSound-array top levels start rest so_far')
        | inr (t, later) ↦ items_from-Whole fuel (add_item items v) values' t so_far' later
      ]
