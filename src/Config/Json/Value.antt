-- ===== src/Config/Json/Value.antt =====
-- `JsonValue`: its alternatives, and the accessors and factories of strict_json.cpp. A `double` is
-- kept as the numeral that it was read from, since there are no floats here.
use remote_tool.Prelude.{
  ℕ, zero, suc, Bool, true, false, ℤ, Option, none, some, Bytes, bytes_eq, if◌then◌else◌,
}

mutual
  pub data JsonValue : Type 0 where
    null : JsonValue
    bool : Bool → JsonValue
    int : ℤ → JsonValue
    double : Bytes → JsonValue
    string : Bytes → JsonValue
    array : JsonArray → JsonValue
    object : JsonObject → JsonValue

  pub data JsonArray : Type 0 where
    nil : JsonArray
    cons : JsonValue → JsonArray → JsonArray

  pub data JsonObject : Type 0 where
    end : JsonObject
    field : Bytes → JsonValue → JsonObject → JsonObject

-- `push_back` and `emplace_back`.
unfoldable pub push_back : JsonArray → JsonValue → JsonArray
push_back nil v = cons v nil
push_back (cons x xs) v = cons x (push_back xs v)

unfoldable pub emplace_back : JsonObject → Bytes → JsonValue → JsonObject
emplace_back end k v = field k v end
emplace_back (field j x o) k v = field j x (emplace_back o k v)

unfoldable pub as_bool : JsonValue → Option Bool
as_bool (bool b) = some b
as_bool _ = none

unfoldable pub as_int : JsonValue → Option ℤ
as_int (int i) = some i
as_int _ = none

unfoldable pub try_as_string : JsonValue → Option Bytes
try_as_string (string s) = some s
try_as_string _ = none

unfoldable pub try_as_array : JsonValue → Option JsonArray
try_as_array (array a) = some a
try_as_array _ = none

unfoldable pub try_as_object : JsonValue → Option JsonObject
try_as_object (object o) = some o
try_as_object _ = none

array_at : JsonArray → ℕ → Option JsonValue
array_at nil i = none
array_at (cons x xs) zero = some x
array_at (cons x xs) (suc i) = array_at xs i

unfoldable pub at : JsonValue → ℕ → Option JsonValue
unfolding array_at
at (array a) i = array_at a i
at _ i = none

array_size : JsonArray → ℕ
array_size nil = 0
array_size (cons x xs) = suc (array_size xs)

object_size : JsonObject → ℕ
object_size end = 0
object_size (field k v o) = suc (object_size o)

unfoldable pub size : JsonValue → ℕ
unfolding array_size object_size
size (array a) = array_size a
size (object o) = object_size o
size _ = 0

unfoldable pub find_field : Bytes → JsonObject → Option JsonValue
find_field key end = none
find_field key (field k v o) = if bytes_eq k key then some v else find_field key o

unfoldable pub find : JsonValue → Bytes → Option JsonValue
unfolding find_field
find (object o) key = find_field key o
find _ key = none

unfoldable pub contains_key : JsonValue → Bytes → Bool
contains_key v key = elim (find v key) [ none ↦ false | some x ↦ true ]
