-- ===== src/Update/StateStore/Valid.antt =====
-- What is loaded can be saved again: the checks of `LoadRuntimeState` and `SaveRuntimeState`, which are
-- written twice, agree.
use cheburnet.Base.{
  ℕ, ◌≡◌, refl, inl, inr, Bool, true, false, not, ◌&&◌, ◌||◌, none, some, [], ◌∷◌, arith, Bytes,
  codes, every, within, ltb, ◌==◌,
}
use cheburnet.Json.{Value, Result-cases}
use cheburnet.Json.Parser.{parse}
use cheburnet.Update.Manifest.{has_version}
use cheburnet.Update.StateStore.{
  valid_optional_version, StoredRuntimeState, any, valid_sha, safe_text, find_first_not_of,
  can_save_sha, can_save_text, valid_state, read_state, load_state, save_state, state_options,
  serialize_runtime_state,
}

-- A digit by its range is one of the sixteen.
hex_digit-any :
    (c : ℕ)
    → (within b'0' b'9' c || within b'a' b'f' c) ≡ true
    → any (λ d. d == c) (codes "0123456789abcdef") ≡ true
hex_digit-any c h = ground arith

every-find_first_not_of :
    (value : Bytes)
    → every (λ c. within b'0' b'9' c || within b'a' b'f' c) value ≡ true
    → find_first_not_of (codes "0123456789abcdef") value ≡ none
unfolding find_first_not_of
every-find_first_not_of [] h = refl
every-find_first_not_of (c ∷ value) h =
    let here = hex_digit-any c (ground arith) in
    let later = every-find_first_not_of value (ground arith) in ground (arith, here, later)

every-any :
    (value : Bytes)
    → every (λ c. not (ltb c 0x20 || c == 0x7f)) value ≡ true
    → any (λ c. ltb c 0x20 || c == 0x7f) value ≡ false
every-any [] h = refl
every-any (c ∷ value) h = ground (arith, every-any value (ground arith))

-- What `LoadRuntimeState` takes for a hash or a text, `SaveRuntimeState` takes for one.
valid_sha-can_save_sha : (value : Bytes) → valid_sha value ≡ true → can_save_sha value ≡ true
unfolding valid_sha can_save_sha
valid_sha-can_save_sha [] h = refl
valid_sha-can_save_sha (c ∷ value) h =
    ground (arith, every-find_first_not_of (c ∷ value) (ground arith))

safe_text-can_save_text :
    (value : Bytes) (limit : ℕ) → safe_text value limit ≡ true → can_save_text value limit ≡ true
unfolding safe_text can_save_text
safe_text-can_save_text value limit h = ground (arith, every-any value (ground arith))

-- The checks of `LoadRuntimeState`.
abbrev loads : StoredRuntimeState → Bool
loads s =
    has_version s.current
    && (valid_optional_version s.previous_known_good
        && (valid_optional_version s.pending
            && (valid_sha s.package_sha256
                && (safe_text s.manifest_key_id 64 && safe_text s.last_result 128))))

read_state-loads :
    (root : Value) {s : StoredRuntimeState} → read_state root ≡ some s → loads s ≡ true
unfolding read_state
read_state-loads root h = ground arith

loads-valid_state : (s : StoredRuntimeState) → loads s ≡ true → valid_state s ≡ true
unfolding valid_state
loads-valid_state s h =
    let sha = valid_sha-can_save_sha s.package_sha256 (ground arith) in
    let key = safe_text-can_save_text s.manifest_key_id 64 (ground arith) in
    let last = safe_text-can_save_text s.last_result 128 (ground arith) in
    ground (arith, sha, key, last)

-- A state that `LoadRuntimeState` returns passes the checks of `SaveRuntimeState`, which writes its
-- serialized text.
pub load_state-save_state :
    (bytes : Bytes) {s : StoredRuntimeState}
    → load_state bytes ≡ some s
    → save_state s ≡ some (serialize_runtime_state s)
unfolding load_state save_state
load_state-save_state bytes {s = s} h = elim (Result-cases (parse state_options bytes)) [
  | inl (why, rest, e) ↦ absurd (ground arith)
  | inr (root, e) ↦
      let valid = loads-valid_state s (read_state-loads root {s = s} (ground arith)) in ground arith
]
