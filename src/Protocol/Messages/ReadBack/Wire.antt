-- ===== src/Protocol/Messages/ReadBack/Wire.antt =====
-- Messages with integers: what one side encodes, the other decodes.
use remote_tool.Prelude.{
  ℕ, ◌%◌, ◌^◌, ◌≤◌, ◌<◌, ◌≡◌, pos, refl, Bool, true, false, not, ◌&&◌, arith, [], ◌∷◌, append_assoc,
  Bytes, codes, length, leb, ltb, bytes_eq, contains, ◌==◌,
}
use remote_tool.Config.Json.Value.{find, find_field, try_as_string, as_int, emplace_back}
use remote_tool.Protocol.Messages.Text.{json_escape, escape_char, to_string}
use remote_tool.Protocol.Messages.Connection.{
  HeartbeatMessage, HeartbeatAckMessage, encode_heartbeat_ack, decode_heartbeat_ack, json_frame,
  encode_heartbeat, decode_heartbeat,
}
use remote_tool.Protocol.Messages.Extract.{
  ok, known_fields, check_unknown_fields, extract_string, extract_int, cast_int,
}
use remote_tool.Protocol.Messages.Session.{
  OpenSessionMessage, encode_open_session, decode_open_session,
}
use remote_tool.Protocol.Messages.ReadBack.Objects.{text, number}
use remote_tool.Protocol.Messages.ReadBack.RoundTrip.{for_session, decode_preamble-members}

pub cast_int-small : (n : ℕ) → n < 2 ^ 31 → cast_int (pos n) ≡ pos n
unfolding cast_int
cast_int-small n small =
    let same : n % 2 ^ 32 ≡ n = omega (arith, small) in
    let low : ltb n (2 ^ 31) ≡ true = ground (arith, small) in rw (same, low) refl

-- A HEARTBEAT with three numbers below 2^63 is decoded to the message that was encoded.
pub decode_heartbeat-encode_heartbeat :
    (strtod_ok : Bytes → Bool) (sequence sent active : ℕ)
    → sequence < 2 ^ 63
    → sent < 2 ^ 63
    → active < 2 ^ 63
    → let m : HeartbeatMessage = record {
      sequence = pos sequence;
      sent_unix_ms = pos sent;
      active_sessions = pos active;
    } in
      decode_heartbeat strtod_ok (encode_heartbeat m) ≡ ok m
unfolding decode_heartbeat encode_heartbeat json_frame to_string json_escape escape_char
    check_unknown_fields known_fields extract_int find find_field as_int emplace_back contains
    bytes_eq
decode_heartbeat-encode_heartbeat strtod_ok sequence sent active ha hb hc =
    let m : HeartbeatMessage = record {
      sequence = pos sequence;
      sent_unix_ms = pos sent;
      active_sessions = pos active;
    } in
    let read =
      decode_preamble-members strtod_ok (encode_heartbeat m) (codes "sequence", number sequence)
        ((codes "sent_unix_ms", number sent) ∷ (codes "active_sessions", number active) ∷ [])
        (simp append_assoc refl) (refl, ha, (refl, hb, (refl, hc))) in
    let nonneg : (n : ℕ) → ltb n 0 ≡ false = λ n. ground arith in
    rw read (rw (nonneg sequence, nonneg sent, nonneg active) refl)

-- An OPEN_SESSION as the decoder requires it.
pub record IsValidOpen (m : OpenSessionMessage) (port timeout : ℕ) : Type 0 where
  pub port_is : m.target_port ≡ pos port
  pub port_range : (1 ≤ port) × (port ≤ 65535)
  pub timeout_is : m.connect_timeout_ms ≡ pos timeout
  pub timeout_range : (1000 ≤ timeout) × (timeout ≤ 30000)
  pub mapping_length : (1 ≤ length m.mapping_id) × (length m.mapping_id ≤ 64)
  pub has_host : 1 ≤ length m.target_host

-- A valid OPEN_SESSION, for any session, is decoded to the message that was encoded.
pub decode_open_session-encode_open_session :
    (strtod_ok : Bytes → Bool) (sid : ℕ) (m : OpenSessionMessage) (port timeout : ℕ)
    → IsValidOpen m port timeout
    → decode_open_session strtod_ok (for_session sid (encode_open_session m)) ≡ ok m
unfolding decode_open_session encode_open_session json_frame to_string json_escape escape_char
    check_unknown_fields known_fields extract_int extract_string find find_field as_int
    try_as_string emplace_back contains bytes_eq
decode_open_session-encode_open_session strtod_ok sid m port timeout v =
    let n : OpenSessionMessage = record m {
      target_port = pos port;
      connect_timeout_ms = pos timeout;
    } in
    let same : m ≡ n = cc (v.port_is, v.timeout_is) in
    let read =
      decode_preamble-members strtod_ok (for_session sid (encode_open_session n))
        (codes "mapping_id", text m.mapping_id)
        ((codes "target_host", text m.target_host)
          ∷ (codes "target_port", number port)
          ∷ (codes "connect_timeout_ms", number timeout)
          ∷ [])
        (simp append_assoc refl)
        (
          refl,
          tt,
          (refl, tt, (refl, omega (arith, v.port_range), (refl, omega (arith, v.timeout_range)))),
        ) in
    let t1 : (not (length m.mapping_id == 0) && leb (length m.mapping_id) 64) ≡ true =
      ground (arith, v.mapping_length) in
    let t2 : (length m.target_host == 0) ≡ false = ground (arith, v.has_host) in
    let t3 : (not (ltb port 1) && not (ltb 65535 port)) ≡ true = ground (arith, v.port_range) in
    let t4 : (not (ltb timeout 1000) && not (ltb 30000 timeout)) ≡ true =
      ground (arith, v.timeout_range) in
    rw same (
      rw read (
        rw t1 (
          rw t2 (
            rw t3 (
              rw t4 (
                rw
                  (
                    cast_int-small port (omega (arith, v.port_range)),
                    cast_int-small timeout (omega (arith, v.timeout_range)),
                  )
                  refl))))))

-- A HEARTBEAT_ACK with two numbers below 2^63 is decoded to the message that was encoded.
pub decode_heartbeat_ack-encode_heartbeat_ack :
    (strtod_ok : Bytes → Bool) (sequence received : ℕ)
    → sequence < 2 ^ 63
    → received < 2 ^ 63
    → let m : HeartbeatAckMessage = record {
      sequence = pos sequence;
      received_unix_ms = pos received;
    } in
      decode_heartbeat_ack strtod_ok (encode_heartbeat_ack m) ≡ ok m
unfolding decode_heartbeat_ack encode_heartbeat_ack json_frame to_string json_escape escape_char
    check_unknown_fields known_fields extract_int find find_field as_int emplace_back contains
    bytes_eq
decode_heartbeat_ack-encode_heartbeat_ack strtod_ok sequence received ha hb =
    let m : HeartbeatAckMessage = record {
      sequence = pos sequence;
      received_unix_ms = pos received;
    } in
    let read =
      decode_preamble-members strtod_ok (encode_heartbeat_ack m) (codes "sequence", number sequence)
        ((codes "received_unix_ms", number received) ∷ []) (simp append_assoc refl)
        (refl, ha, (refl, hb)) in
    let nonneg : ltb received 0 ≡ false = ground arith in rw read (rw nonneg refl)
