-- ===== src/Protocol/Messages/ReadBack/Handshake.antt =====
-- The handshake, and the answer to OPEN_SESSION: what one side encodes, the other decodes.
use remote_tool.Prelude.{
  ℕ, ◌*◌, ◌^◌, ◌≤◌, ◌<◌, ◌≡◌, pos, refl, Bool, true, false, not, ◌&&◌, ◌||◌, arith, [], ◌∷◌,
  append_assoc, Bytes, codes, length, ltb, bytes_eq, contains, ◌==◌, inl, inr, Bool-cases,
}
use remote_tool.Config.Json.Value.{find, find_field, try_as_string, as_int, as_bool, emplace_back}
use remote_tool.Protocol.Messages.Text.{json_escape, escape_char, to_string}
use remote_tool.Protocol.Messages.Connection.{
  HelloMessage, HelloAckMessage, json_frame, encode_hello, decode_hello, encode_hello_ack,
  decode_hello_ack,
}
use remote_tool.Protocol.Messages.Extract.{
  ok, known_fields, check_unknown_fields, extract_string, extract_int, extract_bool,
  extract_optional_string, string_or_empty, is_valid_device_id, is_valid_version_string,
  is_valid_platform, is_valid_base64url,
}
use remote_tool.Protocol.Messages.Session.{
  SessionOpenedMessage, encode_session_opened, decode_session_opened,
}
use remote_tool.Protocol.Messages.ReadBack.Objects.{text, number, flag}
use remote_tool.Protocol.Messages.ReadBack.RoundTrip.{for_session, decode_preamble-members}
use remote_tool.Protocol.Messages.ReadBack.Wire.{cast_int-small}

-- A SESSION_OPENED for any session, whose port is a number below 2^31, is decoded to the message that
-- was encoded.
pub decode_session_opened-encode_session_opened :
    (strtod_ok : Bytes → Bool) (sid : ℕ) (mapping host : Bytes) (port : ℕ)
    → port < 2 ^ 31
    → let m : SessionOpenedMessage = record {
      mapping_id = mapping;
      connected_host = host;
      connected_port = pos port;
    } in
      decode_session_opened strtod_ok (for_session sid (encode_session_opened m)) ≡ ok m
unfolding decode_session_opened encode_session_opened json_frame to_string json_escape escape_char
    check_unknown_fields known_fields extract_int extract_string find find_field as_int
    try_as_string emplace_back contains bytes_eq
decode_session_opened-encode_session_opened strtod_ok sid mapping host port small =
    let m : SessionOpenedMessage = record {
      mapping_id = mapping;
      connected_host = host;
      connected_port = pos port;
    } in
    let read =
      decode_preamble-members strtod_ok (for_session sid (encode_session_opened m))
        (codes "mapping_id", text mapping)
        ((codes "connected_host", text host) ∷ (codes "connected_port", number port) ∷ [])
        (simp append_assoc refl) (refl, tt, (refl, tt, (refl, omega (arith, small)))) in
    rw read (rw (cast_int-small port small) refl)

-- A HELLO as the decoder requires it.
pub record IsValidHello (m : HelloMessage) : Type 0 where
  pub device : is_valid_device_id m.device_id ≡ true
  pub agent : is_valid_version_string m.agent_version ≡ true
  pub system : is_valid_platform m.platform ≡ true
  pub protocol : m.protocol_version ≡ pos 1
  pub nonce : (length m.instance_nonce == 0 || is_valid_base64url m.instance_nonce) ≡ true

-- A valid HELLO is decoded to the message that was encoded.
pub decode_hello-encode_hello :
    (strtod_ok : Bytes → Bool) (m : HelloMessage)
    → IsValidHello m
    → decode_hello strtod_ok (encode_hello m) ≡ ok m
unfolding decode_hello encode_hello json_frame to_string json_escape escape_char
    check_unknown_fields known_fields extract_int extract_string find find_field as_int
    try_as_string emplace_back contains bytes_eq
decode_hello-encode_hello strtod_ok m v =
    let n : HelloMessage = record m { protocol_version = pos 1 } in
    let same : m ≡ n = cc (v.protocol) in
    let read =
      decode_preamble-members strtod_ok (encode_hello n) (codes "device_id", text m.device_id)
        ((codes "agent_version", text m.agent_version)
          ∷ (codes "platform", text m.platform)
          ∷ (codes "protocol_version", number 1)
          ∷ (codes "instance_nonce", text m.instance_nonce)
          ∷ [])
        (simp append_assoc refl)
        (refl, tt, (refl, tt, (refl, tt, (refl, omega arith, (refl, tt))))) in
    rw same (
      rw read (
        rw (v.device)
          (rw (v.agent) (rw (v.system) (rw (v.nonce) (rw (cast_int-small 1 (omega arith)) refl))))))

is_empty : (s : Bytes) → length s ≡ 0 → s ≡ []
is_empty [] e = refl
is_empty (x ∷ s) e = absurd (omega arith)

-- A HELLO_ACK as the decoder requires it.
pub record IsValidAck (m : HelloAckMessage) (interval timeout sessions : ℕ) : Type 0 where
  pub version : is_valid_version_string m.server_version ≡ true
  pub interval_is : m.heartbeat_interval_ms ≡ pos interval
  pub interval_range : (1000 ≤ interval) × (interval ≤ 60000)
  pub timeout_is : m.heartbeat_timeout_ms ≡ pos timeout
  pub timeout_range : (2 * interval ≤ timeout) × (timeout ≤ 180000)
  pub sessions_is : m.max_sessions ≡ pos sessions
  pub sessions_range : sessions < 2 ^ 31

-- A valid HELLO_ACK is decoded to the message that was encoded, whether or not it has an error code
-- and a message; the encoder leaves out both where both are empty.
pub decode_hello_ack-encode_hello_ack :
    (strtod_ok : Bytes → Bool) (m : HelloAckMessage) (interval timeout sessions : ℕ)
    → IsValidAck m interval timeout sessions
    → decode_hello_ack strtod_ok (encode_hello_ack m) ≡ ok m
unfolding decode_hello_ack encode_hello_ack json_frame to_string json_escape escape_char
    check_unknown_fields known_fields extract_int extract_string extract_bool
    extract_optional_string string_or_empty find find_field as_int as_bool try_as_string
    emplace_back contains bytes_eq
decode_hello_ack-encode_hello_ack strtod_ok m interval timeout sessions v =
    let n : HelloAckMessage = record m {
      heartbeat_interval_ms = pos interval;
      heartbeat_timeout_ms = pos timeout;
      max_sessions = pos sessions;
    } in
    let same : m ≡ n = cc (v.interval_is, v.timeout_is, v.sessions_is) in
    let t1 : (not (ltb interval 1000) && not (ltb 60000 interval)) ≡ true =
      ground (arith, v.interval_range) in
    let t2 : ltb 180000 timeout ≡ false = ground (arith, v.timeout_range) in
    let t3 : ltb timeout (2 * interval) ≡ false = ground (arith, v.timeout_range) in
    let t4 : ltb sessions 0 ≡ false = ground arith in
    let c1 = cast_int-small interval (omega (arith, v.interval_range)) in
    let c2 = cast_int-small timeout (omega (arith, v.timeout_range)) in
    let c3 = cast_int-small sessions (v.sessions_range) in
    rw same (elim (Bool-cases (not (length m.error_code == 0) || not (length m.message == 0))) [
      | inl e ↦
          let read =
            decode_preamble-members strtod_ok (encode_hello_ack n)
              (codes "accepted", flag m.accepted)
              ((codes "server_version", text m.server_version)
                ∷ (codes "heartbeat_interval_ms", number interval)
                ∷ (codes "heartbeat_timeout_ms", number timeout)
                ∷ (codes "max_sessions", number sessions)
                ∷ (codes "error_code", text m.error_code)
                ∷ (codes "message", text m.message)
                ∷ [])
              (rw e (simp append_assoc refl))
              (
                refl,
                tt,
                (
                  refl,
                  tt,
                  (
                    refl,
                    omega (arith, v.interval_range),
                    (
                      refl,
                      omega (arith, v.timeout_range),
                      (refl, omega (arith, v.sessions_range), (refl, tt, (refl, tt))),
                    ),
                  ),
                ),
              ) in
          rw read (rw (v.version) (rw t1 (rw t2 (rw t3 (rw t4 (rw (c1, c2, c3) refl))))))
      | inr e ↦
          let read =
            decode_preamble-members strtod_ok (encode_hello_ack n)
              (codes "accepted", flag m.accepted)
              ((codes "server_version", text m.server_version)
                ∷ (codes "heartbeat_interval_ms", number interval)
                ∷ (codes "heartbeat_timeout_ms", number timeout)
                ∷ (codes "max_sessions", number sessions)
                ∷ [])
              (rw e (simp append_assoc refl))
              (
                refl,
                tt,
                (
                  refl,
                  tt,
                  (
                    refl,
                    omega (arith, v.interval_range),
                    (refl, omega (arith, v.timeout_range), (refl, omega (arith, v.sessions_range))),
                  ),
                ),
              ) in
          let no_code : m.error_code ≡ [] = is_empty m.error_code (ground (arith, e)) in
          let no_message : m.message ≡ [] = is_empty m.message (ground (arith, e)) in
          rw read (
            rw (v.version)
              (rw t1 (rw t2 (rw t3 (rw t4 (rw (c1, c2, c3) (rw (no_code, no_message) refl)))))))
    ])
