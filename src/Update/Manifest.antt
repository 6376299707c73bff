-- ===== src/Update/Manifest.antt =====
-- update/UpdateManifest.cpp up to `ParseManifest`: the envelope and the two artifacts.
use cheburnet.Base.{
  arith, refl, ℕ, ◌+◌, ◌-◌, ◌*◌, ◌≡◌, Bool, true, false, not, ◌&&◌, ◌||◌, List, [], ◌∷◌, Option,
  none, some, Bytes, codes, length, is_empty, every, get_elem?, ltb, leb, ◌==◌, within,
  if◌then◌else◌, bytes_eq, take, drop,
}
use cheburnet.Json.{Value, ok, err, find, size, as_object, as_string, as_number, as_uint64}
use cheburnet.Json.Parser.{ParseOptions, parse}
use cheburnet.Version.{parse_version, break_at}

pub record Artifact : Type 0 where
  pub version : Bytes
  pub url : Bytes
  pub sha256 : Bytes
  pub size : ℕ
  pub minimum_supported_version : Bytes
  pub minimum_launcher_version : Bytes
  pub payload_schema : ℕ
  pub strategy_schema : ℕ
  pub provider : Bytes
  pub upstream_release_url : Bytes

pub record Manifest : Type 0 where
  pub schema : ℕ
  pub channel : Bytes
  pub generated_at : Bytes
  pub key_id : Bytes
  pub launcher : Artifact
  pub payload : Artifact

pub data ManifestError : Type 0 where
  unreadable not_an_object bad_envelope bad_artifact : ManifestError

pub data ManifestResult : Type 0 where
  manifest : Manifest → ManifestResult
  refused : ManifestError → ManifestResult

-- The early returns of the readers.
module _ {ℓ κ} {A : Type ℓ} {B : Type κ} where
  infixl 5 ◌>>=◌
  abbrev pub ◌>>=◌ : Option A → (A → Option B) → Option B
  some value >>= next = next value
  none >>= next = none

  -- Where two steps in a row succeed, the first has a value and the second succeeds on it.
  pub >>=-eq-some :
      (first : Option A) (next : A → Option B) {b : B}
      → (first >>= next) ≡ some b
      → (value : A) × (first ≡ some value) × (next value ≡ some b)
  >>=-eq-some none next h = absurd (ground arith)
  >>=-eq-some (some value) next h = (value, refl, h)

infixl 5 ◌>>◌
abbrev pub ◌>>◌ {ℓ} : {B : Type ℓ} → Option (Unit {0}) → Option B → Option B
done >> next = done >>= (λ u. next)

-- A test that must hold: `if (!test) return false`.
abbrev pub require : Bool → Option (Unit {0})
require true = some tt
require false = none

-- `ReadString` without `allowEmpty`.
unfoldable pub read_string : Value → Bytes → Option Bytes
unfolding find
read_string members key = do
  value ← find members key
  text ← as_string value
  require (not (is_empty text))
  some text

unfoldable pub read_uint : Value → Bytes → Option ℕ
unfolding find as_uint64
read_uint members key = do value ← find members key; number ← as_number value; as_uint64 number

unfoldable pub valid_sha : Bytes → Bool
valid_sha value = length value == 64 && every (λ c. within b'0' b'9' c || within b'a' b'f' c) value

-- `value[i]`; every index of the code below lies inside the text.
abbrev char_at : Bytes → ℕ → ℕ
char_at s i = elim (get_elem? s i) [ none ↦ 0 | some c ↦ c ]

abbrev two : Bytes → ℕ → ℕ
two s i = (char_at s i - b'0') * 10 + (char_at s (i + 1) - b'0')

abbrev digit_places : List ℕ
digit_places = 0 ∷ 1 ∷ 2 ∷ 3 ∷ 5 ∷ 6 ∷ 8 ∷ 9 ∷ 11 ∷ 12 ∷ 14 ∷ 15 ∷ 17 ∷ 18 ∷ []

unfoldable pub valid_generated_at : Bytes → Bool
valid_generated_at value =
    length value == 20
    && (char_at value 4 == b'-'
        && (char_at value 7 == b'-'
            && (char_at value 10 == b'T'
                && (char_at value 13 == b':'
                    && (char_at value 16 == b':' && char_at value 19 == b'Z')))))
    && every (λ i. within b'0' b'9' (char_at value i)) digit_places
    && (within 1 12 (two value 5)
        && (within 1 31 (two value 8)
            && (leb (two value 11) 23 && (leb (two value 14) 59 && leb (two value 17) 59))))

unfoldable pub valid_key_id : Bytes → Bool
valid_key_id value =
    not (is_empty value || ltb 64 (length value))
    && every (λ c. within b'a' b'z' c || (within b'0' b'9' c || c == b'-')) value

abbrev contains : ℕ → Bytes → Bool
contains c [] = false
contains c (x ∷ s) = x == c || contains c s

unfoldable pub is_https_url : Bytes → Bool
unfolding bytes_eq break_at
is_https_url value =
    if ltb (length value) 9
      || (ltb 2048 (length value) || not (bytes_eq (take 8 value) (codes "https://")))
    then false
    else if contains b'@' (drop 8 value)
        || (contains b'\\' value
            || (contains b'\r' value || (contains b'\n' value || contains b'\t' value)))
    then false
    else let host = (break_at b'/' (drop 8 value)).0 in
      not (is_empty host) && (not (bytes_eq host (codes ".")) && not (bytes_eq host (codes "..")))

abbrev pub has_version : Bytes → Bool
has_version text = elim (parse_version text) [ none ↦ false | some _ ↦ true ]

abbrev pub mebibyte : ℕ
mebibyte = 1024 * 1024

abbrev pub provider_name : Bytes
provider_name = codes "Flowseal/zapret-discord-youtube"

-- The members that both artifacts have, with the limits on them; `members` is the count expected.
unfoldable pub parse_common : Value → ℕ → Option Artifact
parse_common value members = do
  object ← as_object value
  require (size object == members)
  version ← read_string value (codes "version")
  url ← read_string value (codes "url")
  sha256 ← read_string value (codes "sha256")
  bytes ← read_uint value (codes "size")
  require (not (bytes == 0))
  require (leb bytes (512 * mebibyte))
  require (valid_sha sha256)
  require (is_https_url url)
  require (has_version version)
  some (record {
    version = version;
    url = url;
    sha256 = sha256;
    size = bytes;
    minimum_supported_version = [];
    minimum_launcher_version = [];
    payload_schema = 0;
    strategy_schema = 0;
    provider = [];
    upstream_release_url = [];
  })

-- `ParseArtifact` with `payload`.
unfoldable pub parse_payload : Value → Option Artifact
parse_payload value = do
  artifact ← parse_common value 9
  provider ← read_string value (codes "provider")
  minimum ← read_string value (codes "minimum_launcher_version")
  upstream ← read_string value (codes "upstream_release_url")
  payload_schema ← read_uint value (codes "payload_schema")
  strategy_schema ← read_uint value (codes "strategy_schema")
  require (leb payload_schema 1000)
  require (leb strategy_schema 1000)
  require (bytes_eq provider provider_name)
  require (leb artifact.size (129 * mebibyte))
  require (is_https_url upstream)
  some (record artifact {
    provider = provider;
    minimum_launcher_version = minimum;
    upstream_release_url = upstream;
    payload_schema = payload_schema;
    strategy_schema = strategy_schema;
  })

-- `ParseArtifact` without `payload`.
unfoldable pub parse_launcher : Value → Option Artifact
parse_launcher value = do
  artifact ← parse_common value 5
  minimum ← read_string value (codes "minimum_supported_version")
  require (leb artifact.size (64 * mebibyte))
  require (has_version minimum)
  some (record artifact { minimum_supported_version = minimum })

pub record Envelope : Type 0 where
  pub schema : ℕ
  pub channel : Bytes
  pub generated_at : Bytes
  pub key_id : Bytes

unfoldable pub parse_envelope : Value → Option Envelope
parse_envelope root = do
  schema ← read_uint root (codes "schema")
  require (schema == 1)
  channel ← read_string root (codes "channel")
  require (bytes_eq channel (codes "stable"))
  generated_at ← read_string root (codes "generated_at")
  key_id ← read_string root (codes "key_id")
  require (valid_generated_at generated_at)
  require (valid_key_id key_id)
  some (record { schema = schema; channel = channel; generated_at = generated_at; key_id = key_id })

unfoldable pub parse_artifacts : Value → Option (Artifact × Artifact)
parse_artifacts root = do
  launcher_value ← find root (codes "launcher")
  payload_value ← find root (codes "payload")
  launcher ← parse_launcher launcher_value
  payload ← parse_payload payload_value
  some (launcher, payload)

abbrev pub manifest_options : ℕ → ParseOptions
manifest_options max_bytes = record { max_bytes = max_bytes; max_depth = 12; max_values = 256 }

-- `ParseManifest` behind the parse.
unfoldable pub read_manifest : Value → ManifestResult
read_manifest root = elim (as_object root) [
  | none ↦ refused not_an_object
  | some object ↦
      if not (size object == 6) then refused not_an_object else elim (parse_envelope root) [
        | none ↦ refused bad_envelope
        | some e ↦ elim (parse_artifacts root) [
          | none ↦ refused bad_artifact
          | some (launcher, payload) ↦ manifest (record {
            schema = e.schema;
            channel = e.channel;
            generated_at = e.generated_at;
            key_id = e.key_id;
            launcher = launcher;
            payload = payload;
          })
        ]
      ]
]

unfoldable pub parse_manifest : Bytes → ℕ → ManifestResult
parse_manifest bytes max_bytes = elim (parse (manifest_options max_bytes) bytes) [
  | err why rest ↦ refused unreadable
  | ok root ↦ read_manifest root
]
