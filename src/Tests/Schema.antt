-- ===== src/Tests/Schema.antt =====
-- Runs of the configuration checks on concrete files, and instances of their theorems.
use remote_tool.Prelude.{
  ℕ, ◌<◌, ◌≡◌, ◌↔◌, refl, true, false, pos, some, List, [], ◌∷◌, Bytes, codes, length, All, arith,
  contains, bytes_eq,
}
use remote_tool.Config.Json.Value.{
  JsonValue, int, bool, string, array, object, nil, cons, end, field, find, find_field, as_bool,
  as_int, try_as_string, try_as_array, try_as_object,
}
use remote_tool.Config.Json.Cursor.{Cursor, Parsed}
use remote_tool.Config.Json.Parser.{parse_json}
use remote_tool.Protocol.Messages.Text.{natural_text, digits_onto}
use remote_tool.Config.Schema.Checks.{
  ok, err, make_err, duplicate, must_be_at_least, elem_path, check_unknown_keys, is_allowed_key,
  keys_checked, required, string_at, int_at, bool_at, array_at, object_at, nonempty_at, number_in,
  number_from, number_above, version_checked, is_level, validate_logging_block, dotted,
}
use remote_tool.Config.Schema.Utf8.{
  sequence_length, all_continue, is_excluded, sequence_accepted, after_sequence, next_sequence,
  count_loop, count_utf8_codepoints,
}
use remote_tool.Config.Schema.Utf8.Exact.{AreCodePoints, encode_all, count_utf8_codepoints_iff}
use remote_tool.Config.Schema.RemoteTool.{
  agent_listener, mapping_listener, heartbeat, limits, validate_remote_tool,
}
use remote_tool.Config.Schema.Devices.{
  is_id_character, is_valid_device_id_charset, device_id_at, name_at, validate_device,
  validate_device_list, validate_devices,
}
use remote_tool.Config.Schema.Mappings.{
  contains_port, validate_mapping, validate_mapping_list, validate_mappings,
}
use remote_tool.Config.Schema.Agent.{
  all_digits, is_valid_pairing_code, server, device, allowed_cidrs, allowed_ports, target_policy,
  validate_agent, ConfigFileKind, validate_config_text,
}
use remote_tool.Config.Schema.Exact.RemoteTool.{IsRemoteToolConfig, validate_remote_tool_iff}
use remote_tool.Config.Schema.Exact.Devices.{IsDevicesConfig, validate_devices_iff}
use remote_tool.Config.Schema.Exact.Agent.{IsAgentConfig, validate_agent_iff}
use remote_tool.Config.Schema.Exact.Files.{IsConfig, validate_config_text_iff}

abbrev number : ℕ → JsonValue
number n = int (pos n)

abbrev text : Bytes → JsonValue
text s = string s

abbrev logging : JsonValue
logging = object (
    field (codes "level") (text (codes "info")) (
      field (codes "max_file_bytes") (number 1048576)
        (field (codes "retained_files") (number 5) end)))

abbrev beats : ℕ → ℕ → JsonValue
beats interval timeout = object (
    field (codes "interval_ms") (number interval) (field (codes "timeout_ms") (number timeout) end))

abbrev remote_tool_config : JsonValue → JsonValue
remote_tool_config hb = object (
    field (codes "schema_version") (number 1) (
      field (codes "agent_listener")
        (object (
          field (codes "bind_host") (text (codes "0.0.0.0"))
            (field (codes "port") (number 7000) end)))
        (field (codes "mapping_listener")
          (object (field (codes "bind_host") (text (codes "127.0.0.1")) end))
          (field (codes "heartbeat") hb (
            field (codes "limits")
              (object (
                field (codes "max_sessions_per_mapping") (number 32) (
                  field (codes "max_sessions_per_agent") (number 128) (
                    field (codes "max_session_queue_bytes") (number 262144)
                      (field (codes "max_tunnel_queue_bytes") (number 4194304) end)))))
              (field (codes "logging") logging end))))))

validate_remote_tool_iff_example :
    (validate_remote_tool (remote_tool_config (beats 5000 15000)) ≡ ok tt)
    ↔ IsRemoteToolConfig (remote_tool_config (beats 5000 15000))
validate_remote_tool_iff_example = validate_remote_tool_iff (remote_tool_config (beats 5000 15000))

remote_tool_accepted : validate_remote_tool (remote_tool_config (beats 5000 15000)) ≡ ok tt
unfolding validate_remote_tool keys_checked check_unknown_keys is_allowed_key contains bytes_eq
    try_as_object version_checked int_at required find find_field as_int agent_listener object_at
    nonempty_at string_at try_as_string number_in mapping_listener heartbeat number_from limits
    validate_logging_block is_level number_above dotted
remote_tool_accepted = refl

-- A timeout that is shorter than twice the interval.
short_timeout_refused :
    validate_remote_tool (remote_tool_config (beats 5000 9999))
    ≡ err (make_err (codes "heartbeat.timeout_ms") (must_be_at_least 10000))
unfolding validate_remote_tool keys_checked check_unknown_keys is_allowed_key contains bytes_eq
    try_as_object version_checked int_at required find find_field as_int agent_listener object_at
    nonempty_at string_at try_as_string number_in mapping_listener heartbeat number_from
short_timeout_refused = refl

abbrev a_device : Bytes → JsonValue
a_device id = object (
    field (codes "id") (text id) (
      field (codes "display_name") (text (0xC3 ∷ 0xA9 ∷ [])) (
        field (codes "enabled") (bool true) (
          field (codes "device_key_dpapi") (text []) (
            field (codes "created_unix_ms") (number 0)
              (field (codes "updated_unix_ms") (number 1) end))))))

abbrev devices_config : Bytes → Bytes → JsonValue
devices_config a b = object (
    field (codes "schema_version") (number 1)
      (field (codes "devices") (array (cons (a_device a) (cons (a_device b) nil))) end))

validate_devices_iff_example :
    (validate_devices (devices_config (codes "pc-1") (codes "pc-2")) ≡ ok tt)
    ↔ IsDevicesConfig (devices_config (codes "pc-1") (codes "pc-2"))
validate_devices_iff_example = validate_devices_iff (devices_config (codes "pc-1") (codes "pc-2"))

devices_accepted : validate_devices (devices_config (codes "pc-1") (codes "pc-2")) ≡ ok tt
unfolding validate_devices keys_checked check_unknown_keys is_allowed_key contains bytes_eq
    try_as_object version_checked int_at required find find_field as_int array_at try_as_array
    validate_device_list validate_device device_id_at string_at try_as_string
    is_valid_device_id_charset is_id_character name_at count_utf8_codepoints count_loop
    next_sequence sequence_length after_sequence sequence_accepted all_continue is_excluded bool_at
    as_bool number_above
devices_accepted = refl

twin_refused :
    validate_devices (devices_config (codes "pc-1") (codes "pc-1"))
    ≡ err (make_err (codes "devices[1].id") duplicate)
unfolding validate_devices keys_checked check_unknown_keys is_allowed_key contains bytes_eq
    try_as_object version_checked int_at required find find_field as_int array_at try_as_array
    validate_device_list validate_device device_id_at string_at try_as_string
    is_valid_device_id_charset is_id_character name_at count_utf8_codepoints count_loop
    next_sequence sequence_length after_sequence sequence_accepted all_continue is_excluded bool_at
    as_bool number_above elem_path natural_text digits_onto
twin_refused = refl

abbrev a_mapping : Bytes → ℕ → JsonValue
a_mapping id port = object (
    field (codes "id") (text id) (
      field (codes "device_id") (text (codes "pc-1")) (
        field (codes "name") (text (codes "web")) (
          field (codes "local_port") (number port) (
            field (codes "target_host") (text (codes "10.0.0.5")) (
              field (codes "target_port") (number 80) (
                field (codes "enabled") (bool true)
                  (field (codes "connect_timeout_ms") (number 5000) end))))))))

abbrev mappings_config : ℕ → JsonValue
mappings_config port = object (
    field (codes "schema_version") (number 1) (
      field (codes "mappings")
        (array (cons (a_mapping (codes "m1") 8080) (cons (a_mapping (codes "m2") port) nil))) end))

shared_port_refused :
    validate_mappings (mappings_config 8080)
    ≡ err (make_err (codes "mappings[1].local_port") duplicate)
unfolding validate_mappings keys_checked check_unknown_keys is_allowed_key contains bytes_eq
    try_as_object version_checked int_at required find find_field as_int array_at try_as_array
    validate_mapping_list validate_mapping string_at try_as_string nonempty_at number_in
    contains_port name_at count_utf8_codepoints count_loop next_sequence sequence_length
    after_sequence sequence_accepted all_continue is_excluded bool_at as_bool elem_path natural_text
    digits_onto
shared_port_refused = refl

abbrev agent_config : Bytes → JsonValue
agent_config code = object (
    field (codes "schema_version") (number 1) (
      field (codes "server")
        (object (
          field (codes "host") (text (codes "example.org"))
            (field (codes "port") (number 7000) end)))
        (field (codes "device")
          (object (
            field (codes "id") (text (codes "pc-1")) (
              field (codes "pairing_code") (text code)
                (field (codes "device_key_dpapi") (text []) end))))
          (field (codes "target_policy")
            (object (
              field (codes "allowed_cidrs") (array (cons (text (codes "10.0.0.0/8")) nil)) (
                field (codes "allowed_ports") (array (cons (number 80) (cons (number 443) nil)))
                  (field (codes "allow_ipv6") (bool false) end))))
            (field (codes "logging") logging end)))))

validate_agent_iff_example :
    (validate_agent (agent_config (codes "12345678")) ≡ ok tt)
    ↔ IsAgentConfig (agent_config (codes "12345678"))
validate_agent_iff_example = validate_agent_iff (agent_config (codes "12345678"))

agent_accepted : validate_agent (agent_config (codes "12345678")) ≡ ok tt
unfolding validate_agent keys_checked check_unknown_keys is_allowed_key contains bytes_eq
    try_as_object version_checked int_at required find find_field as_int object_at server
    nonempty_at string_at try_as_string number_in device device_id_at is_valid_device_id_charset
    is_id_character is_valid_pairing_code all_digits target_policy array_at try_as_array
    allowed_cidrs allowed_ports contains_port bool_at as_bool validate_logging_block is_level
    number_above dotted
agent_accepted = refl

abbrev no_devices : JsonValue
no_devices =
    object (field (codes "schema_version") (number 1) (field (codes "devices") (array nil) end))

validate_config_text_iff_example :
    (validate_config_text
        (λ s. true)
        ConfigFileKind.devices_file
        (codes "{\"schema_version\": 1, \"devices\": []}")
      ≡ ok no_devices)
    ↔ ((c : Cursor) × (parse_json (λ s. true) (codes "{\"schema_version\": 1, \"devices\": []}")
          ≡ Parsed.ok no_devices c)
        × IsConfig ConfigFileKind.devices_file no_devices)
validate_config_text_iff_example =
    validate_config_text_iff (λ s. true) ConfigFileKind.devices_file
      (codes "{\"schema_version\": 1, \"devices\": []}") no_devices

-- A letter of one byte, and one of two.
abbrev two_letters : Bytes
two_letters = b'a' ∷ 0xC3 ∷ 0xA9 ∷ []

two_letters_bytes : All (λ x. x < 256) two_letters
two_letters_bytes = omega arith

count_utf8_codepoints_iff_example :
    (count_utf8_codepoints two_letters ≡ some 2)
    ↔ ((ps : List ℕ) × AreCodePoints ps × (two_letters ≡ encode_all ps) × (length ps ≡ 2))
count_utf8_codepoints_iff_example = count_utf8_codepoints_iff two_letters 2 two_letters_bytes

-- Half of a surrogate pair is counted as a character.
surrogate_counted : count_utf8_codepoints (0xED ∷ 0xA0 ∷ 0x80 ∷ []) ≡ some 1
unfolding count_utf8_codepoints count_loop next_sequence sequence_length after_sequence
    sequence_accepted all_continue is_excluded
surrogate_counted = refl
