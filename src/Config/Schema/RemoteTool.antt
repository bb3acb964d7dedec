-- ===== src/Config/Schema/RemoteTool.antt =====
-- `validate_remote_tool` of src/config/config_schema.cpp, block by block.
use remote_tool.Prelude.{◌*◌, [], ◌∷◌, codes, bytes_eq}
use remote_tool.Config.Json.Value.{JsonValue}
use remote_tool.Config.Schema.Checks.{
  Checked, ok, ◌>>=◌, ◌>>◌, ensure, keys_checked, object_at, string_at, nonempty_at, number_in,
  number_from, required, version_checked, validate_logging_block, root_must_be_an_object,
  must_be_loopback,
}

unfoldable pub agent_listener : JsonValue → Checked (Unit {0})
unfolding object_at nonempty_at number_in
agent_listener root = do
  al ←
      object_at root (codes "agent_listener") (codes "bind_host" ∷ codes "port" ∷ [])
        (codes "agent_listener")
  host ← nonempty_at al (codes "bind_host") (codes "agent_listener.bind_host")
  port ← number_in 1 65535 al (codes "port") (codes "agent_listener.port")
  ok tt

unfoldable pub mapping_listener : JsonValue → Checked (Unit {0})
unfolding object_at string_at
mapping_listener root = do
  ml ← object_at root (codes "mapping_listener") (codes "bind_host" ∷ []) (codes "mapping_listener")
  host ← string_at ml (codes "bind_host") (codes "mapping_listener.bind_host")
  ensure (bytes_eq host (codes "127.0.0.1")) (codes "mapping_listener.bind_host") must_be_loopback

unfoldable pub heartbeat : JsonValue → Checked (Unit {0})
unfolding object_at number_in number_from
heartbeat root = do
  hb ←
      object_at root (codes "heartbeat") (codes "interval_ms" ∷ codes "timeout_ms" ∷ [])
        (codes "heartbeat")
  interval ← number_in 1000 60000 hb (codes "interval_ms") (codes "heartbeat.interval_ms")
  timeout ← number_from (2 * interval) 180000 hb (codes "timeout_ms") (codes "heartbeat.timeout_ms")
  ok tt

unfoldable pub limits : JsonValue → Checked (Unit {0})
unfolding object_at number_in number_from
limits root = do
  lm ←
      object_at root (codes "limits")
        (codes "max_sessions_per_mapping"
          ∷ codes "max_sessions_per_agent"
          ∷ codes "max_session_queue_bytes"
          ∷ codes "max_tunnel_queue_bytes"
          ∷ [])
        (codes "limits")
  per_mapping ←
      number_in 1 1024 lm (codes "max_sessions_per_mapping")
        (codes "limits.max_sessions_per_mapping")
  per_agent ←
      number_from per_mapping 4096 lm (codes "max_sessions_per_agent")
        (codes "limits.max_sessions_per_agent")
  session_q ←
      number_in 65536 4194304 lm (codes "max_session_queue_bytes")
        (codes "limits.max_session_queue_bytes")
  tunnel_q ←
      number_from session_q 67108864 lm (codes "max_tunnel_queue_bytes")
        (codes "limits.max_tunnel_queue_bytes")
  ok tt

unfoldable pub validate_remote_tool : JsonValue → Checked (Unit {0})
unfolding keys_checked version_checked agent_listener mapping_listener heartbeat limits required
    validate_logging_block
validate_remote_tool root = do
  keys_checked root
      (codes "schema_version"
        ∷ codes "agent_listener"
        ∷ codes "mapping_listener"
        ∷ codes "heartbeat"
        ∷ codes "limits"
        ∷ codes "logging"
        ∷ [])
      [] root_must_be_an_object
  version_checked root
  agent_listener root
  mapping_listener root
  heartbeat root
  limits root
  logging ← required root (codes "logging") (codes "logging")
  validate_logging_block logging (codes "logging")
