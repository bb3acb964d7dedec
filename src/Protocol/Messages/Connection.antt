-- ===== src/Protocol/Messages/Connection.antt =====
-- The messages of a connection: HELLO, HELLO_ACK, HEARTBEAT, HEARTBEAT_ACK.
use remote_tool.Prelude.{
  ℕ, ◌*◌, Bool, not, ◌&&◌, ◌||◌, ℤ, to_ℕ, below, above, [], ◌∷◌, ◌++◌, Bytes, codes, length, ◌==◌,
  if◌then◌else◌,
}
use remote_tool.Protocol.Msg
use remote_tool.Protocol.Frame.{Frame, default_header}
use remote_tool.Protocol.Messages.Text.{json_escape, to_string}
use remote_tool.Protocol.Messages.Extract.{
  Decoded, ok, ◌>>=◌, ◌>>◌, require, invalid_field, decode_preamble, check_unknown_fields,
  extract_string, extract_int, extract_bool, extract_optional_string, is_valid_device_id,
  is_valid_version_string, is_valid_platform, is_valid_base64url, cast_int,
}

pub record HelloMessage : Type 0 where
  pub device_id : Bytes
  pub agent_version : Bytes
  pub platform : Bytes
  pub protocol_version : ℤ
  pub instance_nonce : Bytes

pub record HelloAckMessage : Type 0 where
  pub accepted : Bool
  pub server_version : Bytes
  pub heartbeat_interval_ms : ℤ
  pub heartbeat_timeout_ms : ℤ
  pub max_sessions : ℤ
  pub error_code : Bytes
  pub message : Bytes

pub record HeartbeatMessage : Type 0 where
  pub sequence : ℤ
  pub sent_unix_ms : ℤ
  pub active_sessions : ℤ

pub record HeartbeatAckMessage : Type 0 where
  pub sequence : ℤ
  pub received_unix_ms : ℤ

-- A frame of the given type with a JSON payload; its session id is 0 until the caller sets it.
unfoldable pub json_frame : ℕ → Bytes → Frame
json_frame t json = record { header = record default_header { msg_type = t }; payload = json }

unfoldable pub encode_hello : HelloMessage → Frame
unfolding json_frame
encode_hello m = json_frame Msg.hello (
    codes "{\"device_id\":\""
    ++ json_escape m.device_id
    ++ codes "\",\"agent_version\":\""
    ++ json_escape m.agent_version
    ++ codes "\",\"platform\":\""
    ++ json_escape m.platform
    ++ codes "\",\"protocol_version\":"
    ++ to_string m.protocol_version
    ++ codes ",\"instance_nonce\":\""
    ++ json_escape m.instance_nonce
    ++ codes "\"}")

unfoldable pub encode_hello_ack : HelloAckMessage → Frame
unfolding json_frame
encode_hello_ack m = json_frame Msg.hello_ack (
    codes "{\"accepted\":"
    ++ (if m.accepted then codes "true" else codes "false")
    ++ codes ",\"server_version\":\""
    ++ json_escape m.server_version
    ++ codes "\",\"heartbeat_interval_ms\":"
    ++ to_string m.heartbeat_interval_ms
    ++ codes ",\"heartbeat_timeout_ms\":"
    ++ to_string m.heartbeat_timeout_ms
    ++ codes ",\"max_sessions\":"
    ++ to_string m.max_sessions
    ++ (if not (length m.error_code == 0) || not (length m.message == 0)
        then codes ",\"error_code\":\""
          ++ json_escape m.error_code
          ++ codes "\",\"message\":\""
          ++ json_escape m.message
          ++ codes "\""
        else [])
    ++ codes "}")

unfoldable pub encode_heartbeat : HeartbeatMessage → Frame
unfolding json_frame
encode_heartbeat m = json_frame Msg.heartbeat (
    codes "{\"sequence\":"
    ++ to_string m.sequence
    ++ codes ",\"sent_unix_ms\":"
    ++ to_string m.sent_unix_ms
    ++ codes ",\"active_sessions\":"
    ++ to_string m.active_sessions
    ++ codes "}")

unfoldable pub encode_heartbeat_ack : HeartbeatAckMessage → Frame
unfolding json_frame
encode_heartbeat_ack m = json_frame Msg.heartbeat_ack (
    codes "{\"sequence\":"
    ++ to_string m.sequence
    ++ codes ",\"received_unix_ms\":"
    ++ to_string m.received_unix_ms
    ++ codes "}")

-- `timeout < 2 * interval`, for an interval that is not negative.
abbrev below_twice : ℤ → ℤ → Bool
below_twice timeout interval = below timeout (2 * to_ℕ interval)

module _ (strtod_ok : Bytes → Bool) where
  unfoldable pub decode_hello : Frame → Decoded HelloMessage
  decode_hello f = do
    obj ← decode_preamble strtod_ok f Msg.hello
    check_unknown_fields obj (
        codes "device_id"
        ∷ codes "agent_version"
        ∷ codes "platform"
        ∷ codes "protocol_version"
        ∷ codes "instance_nonce"
        ∷ [])
    device_id ← extract_string obj (codes "device_id")
    require (is_valid_device_id device_id) (invalid_field (codes "device_id"))
    agent_version ← extract_string obj (codes "agent_version")
    require (is_valid_version_string agent_version) (invalid_field (codes "agent_version"))
    platform ← extract_string obj (codes "platform")
    require (is_valid_platform platform) (invalid_field (codes "platform"))
    proto ← extract_int obj (codes "protocol_version")
    require (not (below proto 1) && not (above proto 1)) (invalid_field (codes "protocol_version"))
    nonce ← extract_string obj (codes "instance_nonce")
    require (length nonce == 0 || is_valid_base64url nonce) (invalid_field (codes "instance_nonce"))
    ok (record {
      device_id = device_id;
      agent_version = agent_version;
      platform = platform;
      protocol_version = cast_int proto;
      instance_nonce = nonce;
    })

  unfoldable pub decode_hello_ack : Frame → Decoded HelloAckMessage
  decode_hello_ack f = do
    obj ← decode_preamble strtod_ok f Msg.hello_ack
    check_unknown_fields obj (
        codes "accepted"
        ∷ codes "server_version"
        ∷ codes "heartbeat_interval_ms"
        ∷ codes "heartbeat_timeout_ms"
        ∷ codes "max_sessions"
        ∷ codes "error_code"
        ∷ codes "message"
        ∷ [])
    accepted ← extract_bool obj (codes "accepted")
    server_version ← extract_string obj (codes "server_version")
    require (is_valid_version_string server_version) (invalid_field (codes "server_version"))
    interval ← extract_int obj (codes "heartbeat_interval_ms")
    require (not (below interval 1000) && not (above interval 60000))
        (invalid_field (codes "heartbeat_interval_ms"))
    timeout ← extract_int obj (codes "heartbeat_timeout_ms")
    require (not (above timeout 180000)) (invalid_field (codes "heartbeat_timeout_ms"))
    require (not (below_twice timeout interval)) (invalid_field (codes "heartbeat_timeout_ms"))
    sessions ← extract_int obj (codes "max_sessions")
    require (not (below sessions 0)) (invalid_field (codes "max_sessions"))
    ok (record {
      accepted = accepted;
      server_version = server_version;
      heartbeat_interval_ms = cast_int interval;
      heartbeat_timeout_ms = cast_int timeout;
      max_sessions = cast_int sessions;
      error_code = extract_optional_string obj (codes "error_code");
      message = extract_optional_string obj (codes "message");
    })

  unfoldable pub decode_heartbeat : Frame → Decoded HeartbeatMessage
  decode_heartbeat f = do
    obj ← decode_preamble strtod_ok f Msg.heartbeat
    check_unknown_fields obj
        (codes "sequence" ∷ codes "sent_unix_ms" ∷ codes "active_sessions" ∷ [])
    sequence ← extract_int obj (codes "sequence")
    require (not (below sequence 0)) (invalid_field (codes "sequence"))
    sent_unix_ms ← extract_int obj (codes "sent_unix_ms")
    require (not (below sent_unix_ms 0)) (invalid_field (codes "sent_unix_ms"))
    active_sessions ← extract_int obj (codes "active_sessions")
    require (not (below active_sessions 0)) (invalid_field (codes "active_sessions"))
    ok (record {
      sequence = sequence;
      sent_unix_ms = sent_unix_ms;
      active_sessions = active_sessions;
    })

  -- The sequence number of an acknowledgement is not checked.
  unfoldable pub decode_heartbeat_ack : Frame → Decoded HeartbeatAckMessage
  decode_heartbeat_ack f = do
    obj ← decode_preamble strtod_ok f Msg.heartbeat_ack
    check_unknown_fields obj (codes "sequence" ∷ codes "received_unix_ms" ∷ [])
    sequence ← extract_int obj (codes "sequence")
    received_unix_ms ← extract_int obj (codes "received_unix_ms")
    require (not (below received_unix_ms 0)) (invalid_field (codes "received_unix_ms"))
    ok (record { sequence = sequence; received_unix_ms = received_unix_ms })
