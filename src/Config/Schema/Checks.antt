-- ===== src/Config/Schema/Checks.antt =====
-- The shared helpers of src/config/config_schema.cpp. An error has the path of its field as the source
-- writes it, and a value that says what the text of its reason says.
use remote_tool.Prelude.{
  ℕ, Bool, true, false, not, ◌||◌, ℤ, below, above, to_ℕ, Option, none, some, List, [], ◌∷◌, ◌++◌,
  Bytes, codes, length, contains, bytes_eq, ◌==◌, if◌then◌else◌,
}
use remote_tool.Config.Json.Value.{
  JsonValue, JsonArray, JsonObject, end, field, find, as_bool, as_int, try_as_string, try_as_array,
  try_as_object,
}
use remote_tool.Config.Json.Cursor.{JsonParseError}
use remote_tool.Protocol.Messages.Text.{natural_text}

pub data Reason : Type 0 where
  unknown_field missing_required_field root_must_be_an_object must_be_an_object must_be_an_array
        must_be_a_string must_be_an_integer must_be_a_boolean must_be_nonempty must_be_a_level
        must_be_positive must_not_be_negative must_be_1 must_be_loopback invalid_utf8
        illegal_character invalid_pairing_code duplicate json_stuck :
      Reason
  must_be_in_range must_have_length : ℕ → ℕ → Reason
  must_be_at_most must_be_at_least : ℕ → Reason
  json_parse_error : JsonParseError → Reason

pub record ConfigValidationError : Type 0 where
  pub field_path : Bytes
  pub reason : Reason

-- What a validator returns: `ok` where the source returns no error.
pub data Checked {ℓ} (A : Type ℓ) : Type ℓ where
  ok : A → Checked A
  err : ConfigValidationError → Checked A

infixl 5 ◌>>=◌ ◌>>◌
abbrev pub ◌>>=◌ {ℓ κ} : {A : Type ℓ} {B : Type κ} → Checked A → (A → Checked B) → Checked B
ok a >>= f = f a
err e >>= f = err e

abbrev pub ◌>>◌ {ℓ} : {B : Type ℓ} → Checked (Unit {0}) → Checked B → Checked B
m >> k = m >>= λ _. k

unfoldable pub make_err : Bytes → Reason → ConfigValidationError
make_err path reason = record { field_path = path; reason = reason }

-- An early return of the error, unless the test passes.
abbrev pub ensure : Bool → Bytes → Reason → Checked (Unit {0})
ensure true path reason = ok tt
ensure false path reason = err (make_err path reason)

abbrev pub or_fail {ℓ} : {A : Type ℓ} → Option A → Bytes → Reason → Checked A
or_fail none path reason = err (make_err path reason)
or_fail (some a) path reason = ok a

unfoldable pub elem_path : Bytes → ℕ → Bytes → Bytes
elem_path array_path index name =
    let out = array_path ++ b'[' ∷ (natural_text index ++ b']' ∷ []) in
    elim name [ [] ↦ out | c ∷ cs ↦ out ++ b'.' ∷ c ∷ cs ]

-- `path + "." + name`.
unfoldable pub dotted : Bytes → Bytes → Bytes
dotted path name = path ++ b'.' ∷ name

unfoldable pub is_allowed_key : Bytes → List Bytes → Bool
is_allowed_key key allowed = contains key allowed

unfoldable pub check_unknown_keys : JsonObject → List Bytes → Bytes → Checked (Unit {0})
unfolding is_allowed_key dotted
check_unknown_keys end allowed path = ok tt
check_unknown_keys (field k v o) allowed path =
    if is_allowed_key k allowed
    then check_unknown_keys o allowed path
    else err (make_err (elim path [ [] ↦ k | c ∷ cs ↦ dotted (c ∷ cs) k ]) unknown_field)

-- The pattern that each field repeats: it is there, and its value is of the right kind.
unfoldable pub required : JsonValue → Bytes → Bytes → Checked JsonValue
required v name path = or_fail (find v name) path missing_required_field

unfoldable pub string_at : JsonValue → Bytes → Bytes → Checked Bytes
unfolding required try_as_string
string_at v name path = do x ← required v name path; or_fail (try_as_string x) path must_be_a_string

unfoldable pub int_at : JsonValue → Bytes → Bytes → Checked ℤ
unfolding required as_int
int_at v name path = do x ← required v name path; or_fail (as_int x) path must_be_an_integer

unfoldable pub bool_at : JsonValue → Bytes → Bytes → Checked Bool
unfolding required as_bool
bool_at v name path = do x ← required v name path; or_fail (as_bool x) path must_be_a_boolean

unfoldable pub array_at : JsonValue → Bytes → Bytes → Checked JsonArray
unfolding required try_as_array
array_at v name path = do x ← required v name path; or_fail (try_as_array x) path must_be_an_array

-- An object, all of whose keys are allowed.
unfoldable pub keys_checked : JsonValue → List Bytes → Bytes → Reason → Checked (Unit {0})
unfolding try_as_object check_unknown_keys
keys_checked v allowed path reason = do
  o ← or_fail (try_as_object v) path reason
  check_unknown_keys o allowed path

unfoldable pub object_at : JsonValue → Bytes → List Bytes → Bytes → Checked JsonValue
unfolding required keys_checked
object_at v name allowed path = do
  x ← required v name path
  keys_checked x allowed path must_be_an_object
  ok x

unfoldable pub nonempty_at : JsonValue → Bytes → Bytes → Checked Bytes
unfolding string_at
nonempty_at v name path = do
  s ← string_at v name path
  ensure (not (length s == 0)) path must_be_nonempty
  ok s

-- An integer between two natural numbers.
unfoldable pub number_in : ℕ → ℕ → JsonValue → Bytes → Bytes → Checked ℕ
unfolding int_at
number_in lo hi v name path = do
  i ← int_at v name path
  ensure (not (below i lo || above i hi)) path (must_be_in_range lo hi)
  ok (to_ℕ i)

-- An integer with a lower limit that comes from another field and an upper one.
unfoldable pub number_from : ℕ → ℕ → JsonValue → Bytes → Bytes → Checked ℕ
unfolding int_at
number_from lo hi v name path = do
  i ← int_at v name path
  ensure (not (below i lo)) path (must_be_at_least lo)
  ensure (not (above i hi)) path (must_be_at_most hi)
  ok (to_ℕ i)

unfoldable pub number_above : ℕ → Reason → JsonValue → Bytes → Bytes → Checked ℕ
unfolding int_at
number_above lo reason v name path = do
  i ← int_at v name path
  ensure (not (below i lo)) path reason
  ok (to_ℕ i)

-- `schema_version`, which all files have.
unfoldable pub version_checked : JsonValue → Checked (Unit {0})
unfolding int_at
version_checked root = do
  i ← int_at root (codes "schema_version") (codes "schema_version")
  ensure (not (below i 1 || above i 1)) (codes "schema_version") must_be_1

unfoldable pub is_level : Bytes → Bool
is_level s =
    bytes_eq s (codes "debug")
    || bytes_eq s (codes "info")
    || bytes_eq s (codes "warn")
    || bytes_eq s (codes "error")

unfoldable pub validate_logging_block : JsonValue → Bytes → Checked (Unit {0})
unfolding keys_checked string_at number_above is_level dotted
validate_logging_block logging path = do
  keys_checked logging (codes "level" ∷ codes "max_file_bytes" ∷ codes "retained_files" ∷ []) path
      must_be_an_object
  level ← string_at logging (codes "level") (dotted path (codes "level"))
  ensure (is_level level) (dotted path (codes "level")) must_be_a_level
  bytes ←
      number_above 1 must_be_positive logging (codes "max_file_bytes")
        (dotted path (codes "max_file_bytes"))
  files ←
      number_above 1 must_be_positive logging (codes "retained_files")
        (dotted path (codes "retained_files"))
  ok tt
