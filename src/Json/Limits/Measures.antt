-- ===== src/Json/Limits/Measures.antt =====
-- The size, the nesting and the form of a JSON value.
use Prim.Native.Nat.{max}
use cheburnet.Base.{ℕ, suc, ◌+◌, ◌≡◌, refl, Bytes, arith, none, false, bytes_eq, Bool, bytes_eq_iff}
use cheburnet.Json.{
  Value, null, boolean, number, string, array, object, Items, nil, cons, Fields, end, field, lookup,
  add_field, add_item,
}
use cheburnet.Json.Utf8.{IsUtf8}

-- How many values there are, and how deep they are nested: 0 for a value that holds no other.
unfoldable mutual
  pub nodes : Value → ℕ
  nodes (array items) = suc (nodes_items items)
  nodes (object fields) = suc (nodes_fields fields)
  nodes _ = 1

  pub nodes_items : Items → ℕ
  nodes_items nil = 0
  nodes_items (cons v items) = nodes v + nodes_items items

  pub nodes_fields : Fields → ℕ
  nodes_fields end = 0
  nodes_fields (field k v fields) = nodes v + nodes_fields fields

unfoldable mutual
  pub depth : Value → ℕ
  depth (array items) = depth_items items
  depth (object fields) = depth_fields fields
  depth _ = 0

  pub depth_items : Items → ℕ
  depth_items nil = 0
  depth_items (cons v items) = max (suc (depth v)) (depth_items items)

  pub depth_fields : Fields → ℕ
  depth_fields end = 0
  depth_fields (field k v fields) = max (suc (depth v)) (depth_fields fields)

-- Strings and keys are well-formed UTF-8, and no object has a key twice, at any depth.
mutual
  pub data IsFormed : Value → Type 0 where
    formed_null : IsFormed null
    formed_boolean : (b : Bool) → IsFormed (boolean b)
    formed_number : (raw : Bytes) → IsFormed (number raw)
    formed_string : {s : Bytes} → IsUtf8 s → IsFormed (string s)
    formed_array : {items : Items} → IsFormedItems items → IsFormed (array items)
    formed_object : {fields : Fields} → IsFormedFields fields → IsFormed (object fields)

  pub data IsFormedItems : Items → Type 0 where
    no_items : IsFormedItems nil
    an_item :
        {v : Value} {items : Items}
        → IsFormed v
        → IsFormedItems items
        → IsFormedItems (cons v items)

  pub data IsFormedFields : Fields → Type 0 where
    no_fields : IsFormedFields end
    a_field :
        {k : Bytes} {v : Value} {fields : Fields}
        → IsUtf8 k
        → IsFormed v
        → lookup k fields ≡ none
        → IsFormedFields fields
        → IsFormedFields (field k v fields)

pub nodes-add_item :
    (items : Items) (v : Value) → nodes_items (add_item items v) ≡ nodes_items items + nodes v
unfolding nodes_items
nodes-add_item nil v = omega arith
nodes-add_item (cons w items) v = omega (arith, nodes-add_item items v)

pub depth-add_item :
    (items : Items) (v : Value)
    → depth_items (add_item items v) ≡ max (depth_items items) (suc (depth v))
unfolding depth_items
depth-add_item nil v = omega arith
depth-add_item (cons w items) v = omega (arith, depth-add_item items v)

pub IsFormed-add_item :
    {items : Items} {v : Value}
    → IsFormedItems items
    → IsFormed v
    → IsFormedItems (add_item items v)
IsFormed-add_item no_items h = an_item h no_items
IsFormed-add_item (an_item w items) h = an_item w (IsFormed-add_item items h)

pub nodes-add_field :
    (fields : Fields) (k : Bytes) (v : Value)
    → nodes_fields (add_field fields k v) ≡ nodes_fields fields + nodes v
unfolding nodes_fields
nodes-add_field end k v = omega arith
nodes-add_field (field j w fields) k v = omega (arith, nodes-add_field fields k v)

pub depth-add_field :
    (fields : Fields) (k : Bytes) (v : Value)
    → depth_fields (add_field fields k v) ≡ max (depth_fields fields) (suc (depth v))
unfolding depth_fields
depth-add_field end k v = omega arith
depth-add_field (field j w fields) k v = omega (arith, depth-add_field fields k v)

lookup-add_field :
    (fields : Fields) (k j : Bytes) (v : Value)
    → bytes_eq k j ≡ false
    → lookup j fields ≡ none
    → lookup j (add_field fields k v) ≡ none
unfolding lookup
lookup-add_field end k j v e h = ground arith
lookup-add_field (field i w fields) k j v e h = ground (arith, lookup-add_field fields k j v e)

pub IsFormed-add_field :
    {fields : Fields} {k : Bytes} {v : Value}
    → IsFormedFields fields
    → IsUtf8 k
    → IsFormed v
    → lookup k fields ≡ none
    → IsFormedFields (add_field fields k v)
unfolding lookup
IsFormed-add_field no_fields u h new = a_field u h refl no_fields
IsFormed-add_field {k = k} {v = v} (a_field {k = j} {v = w} {fields = fields} uj hw fresh rest) u h
      new =
    let other : bytes_eq k j ≡ false = ground (arith, bytes_eq_iff j k, bytes_eq_iff k j) in
    a_field {k = j} {v = w} {fields = add_field fields k v} uj hw
      (lookup-add_field fields k j v other fresh)
      (IsFormed-add_field {fields = fields} rest u h (ground arith))
