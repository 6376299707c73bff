-- ===== src/Update/StateStore.antt =====
-- update/RuntimeStateStore.cpp: the record of the active runtime, as text. The checks of the file
-- and its reading are not modelled: `load_state` takes the bytes.
pub mod Valid
use cheburnet.Base.{
  ℕ, zero, suc, ◌+◌, ◌*◌, ◌≤◌, ◌≡◌, refl, ◌≢◌, ◌↔◌, ◌⊎◌, inl, inr, Bool, true, false, not, ◌&&◌,
  ◌||◌, Option, none, some, List, [], ◌∷◌, ◌++◌, arith, Bytes, codes, length, is_empty, every,
  bytes_eq, ltb, leb, ◌==◌, within, if◌then◌else◌,
}
use cheburnet.Json.{
  Result, ok, err, Value, Fields, find, size, as_object, as_string, as_number, as_uint64, is_null,
}
use cheburnet.Json.Text.{quote}
use cheburnet.Json.Parser.{ParseOptions, parse}
use cheburnet.Update.Manifest.{◌>>=◌, ◌>>◌, require, read_uint, has_version}

pub record StoredRuntimeState : Type 0 where
  pub current : Bytes
  pub previous_known_good : Bytes
  pub pending : Bytes
  pub package_sha256 : Bytes
  pub manifest_key_id : Bytes
  pub last_result : Bytes

unfoldable pub valid_optional_version : Bytes → Bool
valid_optional_version version = is_empty version || has_version version

-- The lambdas `validSha` and `safeText` of `LoadRuntimeState`.
unfoldable pub valid_sha : Bytes → Bool
valid_sha value =
    is_empty value
    || (length value == 64 && every (λ c. within b'0' b'9' c || within b'a' b'f' c) value)

unfoldable pub safe_text : Bytes → ℕ → Bool
safe_text value limit = leb (length value) limit && every (λ c. not (ltb c 0x20 || c == 0x7f)) value

-- Some character passes the test.
abbrev pub any : (ℕ → Bool) → Bytes → Bool
any p [] = false
any p (c ∷ s) = p c || any p s

-- `find_first_not_of`: the index of the first character that is not among these.
unfoldable pub find_first_not_of : Bytes → Bytes → Option ℕ
find_first_not_of among [] = none
find_first_not_of among (c ∷ s) =
    let later = find_first_not_of among s in
    if any (λ d. d == c) among then elim later [ none ↦ none | some at ↦ some (suc at) ] else some 0

-- What `SaveRuntimeState` checks of the hash, and its own lambda `safeText`.
unfoldable pub can_save_sha : Bytes → Bool
can_save_sha value =
    is_empty value
    || (length value == 64 && (elim (find_first_not_of (codes "0123456789abcdef") value) [
      | none ↦ true
      | some at ↦ false
    ]))

unfoldable pub can_save_text : Bytes → ℕ → Bool
can_save_text value limit =
    if ltb limit (length value) then false else not (any (λ c. ltb c 0x20 || c == 0x7f) value)

-- The checks of `SaveRuntimeState`.
unfoldable pub valid_state : StoredRuntimeState → Bool
valid_state s =
    has_version s.current
    && (valid_optional_version s.previous_known_good
        && (valid_optional_version s.pending
            && (can_save_sha s.package_sha256
                && (can_save_text s.manifest_key_id 64 && can_save_text s.last_result 128))))

-- `Text`
abbrev as_text : Option Value → Option Bytes
as_text none = none
as_text (some v) = as_string v

unfoldable pub text : Value → Bytes → Option Bytes
text members key = as_text (find members key)

-- A round of the loop over the optional fields: missing and null leave the field empty.
unfoldable pub read_optional : Option Value → Option Bytes
read_optional none = some []
read_optional (some value) = if is_null value then some [] else as_string value

-- `LoadRuntimeState` behind the parse; `none` for every error.
unfoldable pub read_state : Value → Option StoredRuntimeState
read_state root = do
  fields ← as_object root
  require (size fields == 7)
  schema ← read_uint root (codes "schema")
  current ← text root (codes "current")
  require (schema == 1)
  require (has_version current)
  previous ← read_optional (find root (codes "previous_known_good"))
  pending ← read_optional (find root (codes "pending"))
  sha ← read_optional (find root (codes "package_sha256"))
  key_id ← read_optional (find root (codes "manifest_key_id"))
  last ← read_optional (find root (codes "last_result"))
  require (valid_optional_version previous)
  require (valid_optional_version pending)
  require (valid_sha sha)
  require (safe_text key_id 64)
  require (safe_text last 128)
  some (record {
    current = current;
    previous_known_good = previous;
    pending = pending;
    package_sha256 = sha;
    manifest_key_id = key_id;
    last_result = last;
  })

abbrev pub state_options : ParseOptions
state_options = record { max_bytes = 64 * 1024; max_depth = 8; max_values = 64 }

abbrev read_result : Result Value → Option StoredRuntimeState
read_result (ok root) = read_state root
read_result (err why rest) = none

unfoldable pub load_state : Bytes → Option StoredRuntimeState
load_state bytes = read_result (parse state_options bytes)

abbrev optional : Bytes → Bytes
optional value = if is_empty value then codes "null" else quote value

unfoldable pub serialize_runtime_state : StoredRuntimeState → Bytes
serialize_runtime_state state =
    codes "{\n  \"schema\": 1,\n  \"current\": "
    ++ (quote state.current
        ++ (codes ",\n  \"previous_known_good\": "
            ++ (optional state.previous_known_good
                ++ (codes ",\n  \"pending\": "
                    ++ (optional state.pending
                        ++ (codes ",\n  \"package_sha256\": "
                            ++ (optional state.package_sha256
                                ++ (codes ",\n  \"manifest_key_id\": "
                                    ++ (optional state.manifest_key_id
                                        ++ (codes ",\n  \"last_result\": "
                                            ++ (optional state.last_result
                                                ++ codes "\n}\n")))))))))))

-- `SaveRuntimeState`: what `AtomicWrite` is called with, and nothing when the state is refused.
unfoldable pub save_state : StoredRuntimeState → Option Bytes
save_state state = if valid_state state then some (serialize_runtime_state state) else none
