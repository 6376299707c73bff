-- ===== src/Json.antt =====
-- The strict JSON reader of util/Json.cpp: the values (here), strings and UTF-8 (Json/Text), and the
-- parser (Json/Parser). A result that fails carries the unread input at the time of `SetError`, which
-- gives the error's offset; only the first `SetError` counts, and each is followed by a return.
pub mod Text
pub mod Utf8
pub mod Quoted
pub mod Parser
pub mod Limits
mod Examples
use cheburnet.Base.{
  arith, ◌≡◌, refl, ◌⊎◌, inl, inr, ℕ, zero, suc, ◌+◌, ◌-◌, ◌*◌, ◌^◌, ◌<◌, Bool, true, false, not,
  ◌&&◌, ◌||◌, List, [], ◌∷◌, ◌++◌, Option, none, some, Bytes, is_empty, every, ltb, ◌==◌, within,
  if◌then◌else◌, bytes_eq,
}

pub data JsonError : Type 0 where
  byte_limit trailing_data nesting_limit value_limit unexpected_end unexpected_token : JsonError
  invalid_literal key_not_string missing_colon duplicate_key missing_comma : JsonError
  truncated_unicode invalid_unicode invalid_utf8 truncated_utf8 invalid_continuation : JsonError
  invalid_code_point control_character truncated_escape lone_high_surrogate : JsonError
  invalid_low_surrogate unexpected_low_surrogate invalid_escape unterminated_string : JsonError
  truncated_number leading_zero invalid_number missing_fraction missing_exponent : JsonError
  -- A loop of the model ran out of fuel; Json/Limits shows that `parse` never returns it.
  out_of_fuel : JsonError

pub data Result {ℓ} (A : Type ℓ) : Type ℓ where
  ok : A → Result A
  err : JsonError → Bytes → Result A

pub Result-cases {ℓ} :
    {A : Type ℓ} (r : Result A)
    → ((why : JsonError) × (rest : Bytes) × (r ≡ err why rest)) ⊎ ((a : A) × (r ≡ ok a))
Result-cases (ok a) = inr (a, refl)
Result-cases (err why rest) = inl (why, rest, refl)

-- The early returns: an error passes by what comes behind it.
module _ {ℓ κ} {A : Type ℓ} {B : Type κ} where
  infixl 5 ◌>>=◌
  abbrev pub ◌>>=◌ : Result A → (A → Result B) → Result B
  err why rest >>= next = err why rest
  ok value >>= next = next value

  -- Where two steps in a row succeed, the first has a value and the second succeeds on it.
  pub >>=-eq-ok :
      (first : Result A) (next : A → Result B) {end_value : B}
      → (first >>= next) ≡ ok end_value
      → (value : A) × (first ≡ ok value) × (next value ≡ ok end_value)
  >>=-eq-ok (err why rest) next h = absurd (ground arith)
  >>=-eq-ok (ok value) next h = (value, refl, h)

-- `Value`; a `Number` is its text. The members of an object stand in the order of reading: nothing
-- in the program depends on the order in which a `std::map` holds them.
mutual
  pub data Value : Type 0 where
    null : Value
    boolean : Bool → Value
    number : Bytes → Value
    string : Bytes → Value
    array : Items → Value
    object : Fields → Value

  pub data Items : Type 0 where
    nil : Items
    cons : Value → Items → Items

  pub data Fields : Type 0 where
    end : Fields
    field : Bytes → Value → Fields → Fields

abbrev pub as_bool : Value → Option Bool
as_bool (boolean b) = some b
as_bool _ = none

abbrev pub as_number : Value → Option Bytes
as_number (number raw) = some raw
as_number _ = none

abbrev pub as_string : Value → Option Bytes
as_string (string s) = some s
as_string _ = none

abbrev pub as_array : Value → Option Items
as_array (array items) = some items
as_array _ = none

abbrev pub as_object : Value → Option Fields
as_object (object fields) = some fields
as_object _ = none

abbrev pub is_null : Value → Bool
is_null null = true
is_null _ = false

-- `find` of the map.
unfoldable pub lookup : Bytes → Fields → Option Value
lookup key end = none
lookup key (field k v fields) = if bytes_eq k key then some v else lookup key fields

-- `size` of the map.
abbrev pub size : Fields → ℕ
size end = 0
size (field k v fields) = suc (size fields)

unfoldable pub find : Value → Bytes → Option Value
find (object fields) key = lookup key fields
find _ key = none

-- Appends a member, as `emplace` does with a new key.
abbrev pub add_field : Fields → Bytes → Value → Fields
add_field end key v = field key v end
add_field (field k w fields) key v = field k w (add_field fields key v)

abbrev pub add_item : Items → Value → Items
add_item nil v = cons v nil
add_item (cons w items) v = cons w (add_item items v)

abbrev is_decimal : ℕ → Bool
is_decimal c = within b'0' b'9' c

-- `raw.find_first_of(".eE") != npos`
abbrev pub has_fraction_mark : Bytes → Bool
has_fraction_mark [] = false
has_fraction_mark (c ∷ s) = (c == b'.' || (c == b'e' || c == b'E')) || has_fraction_mark s

abbrev pub digits_value : ℕ → Bytes → ℕ
digits_value n [] = n
digits_value n (c ∷ s) = digits_value (n * 10 + (c - b'0')) s

-- `from_chars` on the whole text: digits only, and below 2^64.
unfoldable pub whole_u64 : Bytes → Option ℕ
whole_u64 raw =
    if not (is_empty raw) && every is_decimal raw
    then (let n = digits_value 0 raw in if ltb n (2 ^ 64) then some n else none)
    else none

abbrev pub starts_with_minus : Bytes → Bool
starts_with_minus [] = false
starts_with_minus (c ∷ s) = c == b'-'

unfoldable pub as_uint64 : Bytes → Option ℕ
unfolding whole_u64
as_uint64 raw =
    if is_empty raw || (starts_with_minus raw || has_fraction_mark raw) then none else whole_u64 raw
