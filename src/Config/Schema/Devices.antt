-- ===== src/Config/Schema/Devices.antt =====
-- `validate_devices` of src/config/config_schema.cpp. The ids seen so far are a list.
use remote_tool.Prelude.{
  ℕ, ◌+◌, Bool, true, not, ◌&&◌, ◌||◌, List, [], ◌∷◌, Bytes, codes, length, contains, leb, ◌==◌,
}
use remote_tool.Config.Json.Value.{JsonValue, JsonArray, nil, cons}
use remote_tool.Config.Schema.Checks.{
  Checked, ok, ◌>>=◌, ◌>>◌, ensure, or_fail, elem_path, keys_checked, string_at, bool_at, array_at,
  number_above, version_checked, root_must_be_an_object, must_be_an_object, must_have_length,
  illegal_character, duplicate, invalid_utf8, must_not_be_negative,
}
use remote_tool.Config.Schema.Utf8.{count_utf8_codepoints}

unfoldable pub is_id_character : ℕ → Bool
is_id_character c =
    leb b'A' c && leb c b'Z'
    || leb b'a' c && leb c b'z'
    || leb b'0' c && leb c b'9'
    || c == b'-'
    || c == b'_'
    || c == b'.'

unfoldable pub is_valid_device_id_charset : Bytes → Bool
unfolding is_id_character
is_valid_device_id_charset [] = true
is_valid_device_id_charset (c ∷ cs) = is_id_character c && is_valid_device_id_charset cs

-- A device id of 1 to 64 allowed characters.
unfoldable pub device_id_at : JsonValue → Bytes → Bytes → Checked Bytes
unfolding string_at is_valid_device_id_charset
device_id_at v name path = do
  s ← string_at v name path
  ensure (not (length s == 0 || not (leb (length s) 64))) path (must_have_length 1 64)
  ensure (is_valid_device_id_charset s) path illegal_character
  ok s

-- A string of so many Unicode characters at most, and one at least.
unfoldable pub name_at : ℕ → JsonValue → Bytes → Bytes → Checked Bytes
unfolding string_at count_utf8_codepoints
name_at most v name path = do
  s ← string_at v name path
  n ← or_fail (count_utf8_codepoints s) path invalid_utf8
  ensure (leb 1 n && leb n most) path (must_have_length 1 most)
  ok s

-- The body of the loop: the checks of one device, which returns its id.
unfoldable pub validate_device : List Bytes → ℕ → JsonValue → Checked Bytes
unfolding keys_checked elem_path device_id_at name_at bool_at string_at number_above
validate_device seen_ids i elem_v = do
  keys_checked elem_v
      (codes "id"
        ∷ codes "display_name"
        ∷ codes "enabled"
        ∷ codes "device_key_dpapi"
        ∷ codes "created_unix_ms"
        ∷ codes "updated_unix_ms"
        ∷ [])
      (elem_path (codes "devices") i []) must_be_an_object
  id ← device_id_at elem_v (codes "id") (elem_path (codes "devices") i (codes "id"))
  ensure (not (contains id seen_ids)) (elem_path (codes "devices") i (codes "id")) duplicate
  display_name ←
      name_at 128 elem_v (codes "display_name")
        (elem_path (codes "devices") i (codes "display_name"))
  enabled ← bool_at elem_v (codes "enabled") (elem_path (codes "devices") i (codes "enabled"))
  key ←
      string_at elem_v (codes "device_key_dpapi")
        (elem_path (codes "devices") i (codes "device_key_dpapi"))
  created ←
      number_above 0 must_not_be_negative elem_v (codes "created_unix_ms")
        (elem_path (codes "devices") i (codes "created_unix_ms"))
  updated ←
      number_above 0 must_not_be_negative elem_v (codes "updated_unix_ms")
        (elem_path (codes "devices") i (codes "updated_unix_ms"))
  ok id

unfoldable pub validate_device_list : List Bytes → ℕ → JsonArray → Checked (Unit {0})
unfolding validate_device
validate_device_list seen_ids i nil = ok tt
validate_device_list seen_ids i (cons x xs) = do
  id ← validate_device seen_ids i x
  validate_device_list (id ∷ seen_ids) (i + 1) xs

unfoldable pub validate_devices : JsonValue → Checked (Unit {0})
unfolding keys_checked version_checked array_at validate_device_list
validate_devices root = do
  keys_checked root (codes "schema_version" ∷ codes "devices" ∷ []) [] root_must_be_an_object
  version_checked root
  arr ← array_at root (codes "devices") (codes "devices")
  validate_device_list [] 0 arr
