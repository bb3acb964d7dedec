-- ===== src/Config/Schema/Mappings.antt =====
-- `validate_mappings` of src/config/config_schema.cpp. The ids and ports seen so far are lists.
use remote_tool.Prelude.{
  ℕ, ◌+◌, Bool, false, not, ◌||◌, List, [], ◌∷◌, Bytes, codes, contains, ◌==◌,
}
use remote_tool.Config.Json.Value.{JsonValue, JsonArray, nil, cons}
use remote_tool.Config.Schema.Checks.{
  Checked, ok, ◌>>=◌, ◌>>◌, ensure, elem_path, keys_checked, nonempty_at, bool_at, array_at,
  number_in, version_checked, root_must_be_an_object, must_be_an_object, duplicate,
}
use remote_tool.Config.Schema.Devices.{name_at}

-- Membership in a set of ports.
unfoldable pub contains_port : ℕ → List ℕ → Bool
contains_port p [] = false
contains_port p (x ∷ xs) = x == p || contains_port p xs

-- The body of the loop: the checks of one mapping, which returns its id and its port.
unfoldable pub validate_mapping : List Bytes → List ℕ → ℕ → JsonValue → Checked (Bytes × ℕ)
unfolding keys_checked elem_path name_at nonempty_at bool_at number_in contains_port
validate_mapping seen_ids seen_local_ports i elem_v = do
  keys_checked elem_v
      (codes "id"
        ∷ codes "device_id"
        ∷ codes "name"
        ∷ codes "local_port"
        ∷ codes "target_host"
        ∷ codes "target_port"
        ∷ codes "enabled"
        ∷ codes "connect_timeout_ms"
        ∷ [])
      (elem_path (codes "mappings") i []) must_be_an_object
  id ← name_at 64 elem_v (codes "id") (elem_path (codes "mappings") i (codes "id"))
  ensure (not (contains id seen_ids)) (elem_path (codes "mappings") i (codes "id")) duplicate
  device_id ←
      nonempty_at elem_v (codes "device_id") (elem_path (codes "mappings") i (codes "device_id"))
  name ← name_at 64 elem_v (codes "name") (elem_path (codes "mappings") i (codes "name"))
  local_port ←
      number_in 1 65535 elem_v (codes "local_port")
        (elem_path (codes "mappings") i (codes "local_port"))
  ensure (not (contains_port local_port seen_local_ports))
      (elem_path (codes "mappings") i (codes "local_port")) duplicate
  target_host ←
      nonempty_at elem_v (codes "target_host")
        (elem_path (codes "mappings") i (codes "target_host"))
  target_port ←
      number_in 1 65535 elem_v (codes "target_port")
        (elem_path (codes "mappings") i (codes "target_port"))
  enabled ← bool_at elem_v (codes "enabled") (elem_path (codes "mappings") i (codes "enabled"))
  connect_timeout ←
      number_in 1000 30000 elem_v (codes "connect_timeout_ms")
        (elem_path (codes "mappings") i (codes "connect_timeout_ms"))
  ok (id, local_port)

unfoldable pub validate_mapping_list : List Bytes → List ℕ → ℕ → JsonArray → Checked (Unit {0})
unfolding validate_mapping
validate_mapping_list seen_ids seen_local_ports i nil = ok tt
validate_mapping_list seen_ids seen_local_ports i (cons x xs) = do
  entry ← validate_mapping seen_ids seen_local_ports i x
  validate_mapping_list (entry.0 ∷ seen_ids) (entry.1 ∷ seen_local_ports) (i + 1) xs

unfoldable pub validate_mappings : JsonValue → Checked (Unit {0})
unfolding keys_checked version_checked array_at validate_mapping_list
validate_mappings root = do
  keys_checked root (codes "schema_version" ∷ codes "mappings" ∷ []) [] root_must_be_an_object
  version_checked root
  arr ← array_at root (codes "mappings") (codes "mappings")
  validate_mapping_list [] [] 0 arr
