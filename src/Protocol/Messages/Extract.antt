-- ===== src/Protocol/Messages/Extract.antt =====
-- The helpers of messages.cpp that take a frame's payload apart. An error is a value that says what
-- the text of the error in the source says.
use remote_tool.Prelude.{
  ℕ, ◌+◌, ◌-◌, ◌%◌, ◌^◌, Bool, true, false, not, ◌&&◌, ◌||◌, ℤ, pos, negsuc, neg, Option, none,
  some, List, [], ◌∷◌, Bytes, length, contains, ltb, leb, ◌==◌, if◌then◌else◌,
}
use remote_tool.Config.Json.Value.{
  JsonValue, string, object, JsonObject, end, field, find, as_bool, as_int, try_as_string,
}
use remote_tool.Config.Json.Cursor.{JsonParseError, Parsed}
use remote_tool.Config.Json.Parser.{parse_json}
use remote_tool.Protocol.Frame.{Frame}

pub data DecodeError : Type 0 where
  type_mismatch : ℕ → ℕ → DecodeError
  json_error : JsonParseError → DecodeError
  json_stuck not_an_object : DecodeError
  unknown_field missing_field not_a_string not_an_integer not_a_boolean : Bytes → DecodeError
  invalid_field : Bytes → DecodeError

pub data Decoded {ℓ} (A : Type ℓ) : Type ℓ where
  ok : A → Decoded A
  err : DecodeError → Decoded A

infixl 5 ◌>>=◌ ◌>>◌
abbrev pub ◌>>=◌ {ℓ κ} : {A : Type ℓ} {B : Type κ} → Decoded A → (A → Decoded B) → Decoded B
ok a >>= f = f a
err e >>= f = err e

abbrev pub ◌>>◌ {ℓ} : {B : Type ℓ} → Decoded (Unit {0}) → Decoded B → Decoded B
m >> k = m >>= λ _. k

-- An early return of the error, unless the test passes.
abbrev pub require : Bool → DecodeError → Decoded (Unit {0})
require true e = ok tt
require false e = err e

unfoldable pub check_frame_type : Frame → ℕ → Decoded (Unit {0})
check_frame_type f expected =
    require (f.header.msg_type == expected) (type_mismatch expected f.header.msg_type)

unfoldable pub from_parsed : Parsed JsonValue → Decoded JsonValue
from_parsed (Parsed.ok v c) = ok v
from_parsed (Parsed.err e) = err (json_error e)
from_parsed Parsed.stuck = err json_stuck

unfoldable pub parse_payload_json : (Bytes → Bool) → Frame → Decoded JsonValue
unfolding from_parsed
parse_payload_json strtod_ok f = from_parsed (parse_json strtod_ok f.payload)

unfoldable pub known_fields : List Bytes → JsonObject → Decoded (Unit {0})
known_fields allowed end = ok tt
known_fields allowed (field k v o) =
    if contains k allowed then known_fields allowed o else err (unknown_field k)

unfoldable pub check_unknown_fields : JsonValue → List Bytes → Decoded (Unit {0})
unfolding known_fields
check_unknown_fields (object o) allowed = known_fields allowed o
check_unknown_fields _ allowed = err not_an_object

abbrev pub or_fail {ℓ} : {A : Type ℓ} → Option A → DecodeError → Decoded A
or_fail none e = err e
or_fail (some a) e = ok a

unfoldable pub extract_string : JsonValue → Bytes → Decoded Bytes
unfolding try_as_string
extract_string obj name = do
  v ← or_fail (find obj name) (missing_field name)
  or_fail (try_as_string v) (not_a_string name)

unfoldable pub extract_int : JsonValue → Bytes → Decoded ℤ
unfolding as_int
extract_int obj name = do
  v ← or_fail (find obj name) (missing_field name)
  or_fail (as_int v) (not_an_integer name)

unfoldable pub extract_bool : JsonValue → Bytes → Decoded Bool
unfolding as_bool
extract_bool obj name = do
  v ← or_fail (find obj name) (missing_field name)
  or_fail (as_bool v) (not_a_boolean name)

-- A missing value, and one that is no string, read as the empty string.
unfoldable pub string_or_empty : Option JsonValue → Bytes
string_or_empty (some (string s)) = s
string_or_empty _ = []

unfoldable pub extract_optional_string : JsonValue → Bytes → Bytes
unfolding string_or_empty
extract_optional_string obj name = string_or_empty (find obj name)

is_letter : ℕ → Bool
is_letter c = leb b'A' c && leb c b'Z' || leb b'a' c && leb c b'z'

is_digit : ℕ → Bool
is_digit c = leb b'0' c && leb c b'9'

all_of : (ℕ → Bool) → Bytes → Bool
all_of p [] = true
all_of p (c ∷ cs) = p c && all_of p cs

unfoldable pub is_valid_device_id : Bytes → Bool
unfolding is_letter is_digit all_of
is_valid_device_id s =
    not (length s == 0)
    && leb (length s) 64
    && all_of (λ c. is_letter c || is_digit c || c == b'-' || c == b'_' || c == b'.') s

unfoldable pub is_valid_version_string : Bytes → Bool
is_valid_version_string s = not (length s == 0) && leb (length s) 32

unfoldable pub is_valid_platform : Bytes → Bool
is_valid_platform s = not (length s == 0) && leb (length s) 32

unfoldable pub is_valid_base64url : Bytes → Bool
unfolding is_letter is_digit all_of
is_valid_base64url s = all_of (λ c. is_letter c || is_digit c || c == b'-' || c == b'_') s

abbrev pub is_object : JsonValue → Bool
is_object (object o) = true
is_object _ = false

unfoldable pub decode_preamble : (Bytes → Bool) → Frame → ℕ → Decoded JsonValue
decode_preamble strtod_ok f expected = do
  check_frame_type f expected
  v ← parse_payload_json strtod_ok f
  require (is_object v) not_an_object
  ok v

abbrev signed : ℕ → ℤ
signed r = if ltb r (2 ^ 31) then pos r else neg (2 ^ 32 - r)

-- `static_cast<int>` of a 64-bit integer.
unfoldable pub cast_int : ℤ → ℤ
cast_int (pos n) = signed (n % 2 ^ 32)
cast_int (negsuc n) = signed ((2 ^ 32 - (n + 1) % 2 ^ 32) % 2 ^ 32)
