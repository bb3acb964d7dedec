-- ===== src/Config/Schema/Agent.antt =====
-- `validate_agent` of src/config/config_schema.cpp, block by block, and the choice of the validator.
use remote_tool.Prelude.{
  ℕ, ◌+◌, Bool, true, not, ◌&&◌, ◌||◌, List, [], ◌∷◌, Bytes, codes, length, ltb, above, below, to_ℕ,
  ◌==◌,
}
use remote_tool.Config.Json.Value.{JsonValue, JsonArray, nil, cons, as_int, try_as_string}
use remote_tool.Config.Json.Cursor.{Parsed}
use remote_tool.Config.Json.Parser.{parse_json}
use remote_tool.Config.Schema.Checks.{
  Checked, ok, err, ◌>>=◌, ◌>>◌, make_err, ensure, or_fail, elem_path, keys_checked, object_at,
  string_at, nonempty_at, bool_at, array_at, number_in, required, version_checked,
  validate_logging_block, root_must_be_an_object, must_be_a_string, must_be_an_integer,
  must_be_nonempty, must_be_in_range, invalid_pairing_code, duplicate, json_parse_error, json_stuck,
}
use remote_tool.Config.Schema.RemoteTool.{validate_remote_tool}
use remote_tool.Config.Schema.Devices.{device_id_at, validate_devices}
use remote_tool.Config.Schema.Mappings.{contains_port, validate_mappings}

unfoldable pub all_digits : Bytes → Bool
all_digits [] = true
all_digits (c ∷ cs) = not (ltb c b'0' || ltb b'9' c) && all_digits cs

unfoldable pub is_valid_pairing_code : Bytes → Bool
unfolding all_digits
is_valid_pairing_code s = length s == 0 || length s == 8 && all_digits s

unfoldable pub server : JsonValue → Checked (Unit {0})
unfolding object_at nonempty_at number_in
server root = do
  sv ← object_at root (codes "server") (codes "host" ∷ codes "port" ∷ []) (codes "server")
  host ← nonempty_at sv (codes "host") (codes "server.host")
  port ← number_in 1 65535 sv (codes "port") (codes "server.port")
  ok tt

unfoldable pub device : JsonValue → Checked (Unit {0})
unfolding object_at device_id_at string_at is_valid_pairing_code
device root = do
  dv ←
      object_at root (codes "device")
        (codes "id" ∷ codes "pairing_code" ∷ codes "device_key_dpapi" ∷ []) (codes "device")
  id ← device_id_at dv (codes "id") (codes "device.id")
  code ← string_at dv (codes "pairing_code") (codes "device.pairing_code")
  ensure (is_valid_pairing_code code) (codes "device.pairing_code") invalid_pairing_code
  key ← string_at dv (codes "device_key_dpapi") (codes "device.device_key_dpapi")
  ok tt

unfoldable pub allowed_cidrs : ℕ → JsonArray → Checked (Unit {0})
unfolding try_as_string elem_path
allowed_cidrs i nil = ok tt
allowed_cidrs i (cons c cs) = do
  let p = elem_path (codes "target_policy.allowed_cidrs") i []
  s ← or_fail (try_as_string c) p must_be_a_string
  ensure (not (length s == 0)) p must_be_nonempty
  allowed_cidrs (i + 1) cs

unfoldable pub allowed_ports : List ℕ → ℕ → JsonArray → Checked (Unit {0})
unfolding as_int elem_path contains_port
allowed_ports seen_ports i nil = ok tt
allowed_ports seen_ports i (cons v vs) = do
  let p = elem_path (codes "target_policy.allowed_ports") i []
  pv ← or_fail (as_int v) p must_be_an_integer
  ensure (not (below pv 1 || above pv 65535)) p (must_be_in_range 1 65535)
  ensure (not (contains_port (to_ℕ pv) seen_ports)) p duplicate
  allowed_ports (to_ℕ pv ∷ seen_ports) (i + 1) vs

unfoldable pub target_policy : JsonValue → Checked (Unit {0})
unfolding object_at array_at allowed_cidrs allowed_ports bool_at
target_policy root = do
  tp ←
      object_at root (codes "target_policy")
        (codes "allowed_cidrs" ∷ codes "allowed_ports" ∷ codes "allow_ipv6" ∷ [])
        (codes "target_policy")
  cidrs ← array_at tp (codes "allowed_cidrs") (codes "target_policy.allowed_cidrs")
  allowed_cidrs 0 cidrs
  ports ← array_at tp (codes "allowed_ports") (codes "target_policy.allowed_ports")
  allowed_ports [] 0 ports
  v6 ← bool_at tp (codes "allow_ipv6") (codes "target_policy.allow_ipv6")
  ok tt

unfoldable pub validate_agent : JsonValue → Checked (Unit {0})
unfolding keys_checked version_checked server device target_policy required validate_logging_block
validate_agent root = do
  keys_checked root
      (codes "schema_version"
        ∷ codes "server"
        ∷ codes "device"
        ∷ codes "target_policy"
        ∷ codes "logging"
        ∷ [])
      [] root_must_be_an_object
  version_checked root
  server root
  device root
  target_policy root
  logging ← required root (codes "logging") (codes "logging")
  validate_logging_block logging (codes "logging")

pub data ConfigFileKind : Type 0 where
  remote_tool_file devices_file mappings_file agent_file : ConfigFileKind

-- The validator of a kind of file: the switch.
unfoldable pub validator : ConfigFileKind → JsonValue → Checked (Unit {0})
unfolding validate_remote_tool validate_devices validate_mappings validate_agent
validator ConfigFileKind.remote_tool_file = validate_remote_tool
validator ConfigFileKind.devices_file = validate_devices
validator ConfigFileKind.mappings_file = validate_mappings
validator ConfigFileKind.agent_file = validate_agent

unfoldable pub validate_config : ConfigFileKind → JsonValue → Checked JsonValue
unfolding validator
validate_config kind root = do validator kind root; ok root

-- A parser that gets stuck is not in the source: `Parsed.stuck` stands for fuel that ran out.
unfoldable pub validate_parsed : ConfigFileKind → Parsed JsonValue → Checked JsonValue
unfolding validate_config
validate_parsed kind (Parsed.ok v c) = validate_config kind v
validate_parsed kind (Parsed.err e) = err (make_err (codes "<root>") (json_parse_error e))
validate_parsed kind Parsed.stuck = err (make_err (codes "<root>") json_stuck)

unfoldable pub validate_config_text : (Bytes → Bool) → ConfigFileKind → Bytes → Checked JsonValue
unfolding validate_parsed
validate_config_text strtod_ok kind text = validate_parsed kind (parse_json strtod_ok text)
