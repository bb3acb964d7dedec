-- ===== src/Protocol/Messages/Session.antt =====
-- The messages of a session: OPEN_SESSION, SESSION_OPENED, SESSION_OPEN_FAILED, SESSION_DATA,
-- SESSION_HALF_CLOSE, CLOSE_SESSION.
use remote_tool.Prelude.{
  ℕ, Bool, not, ◌&&◌, ℤ, below, above, [], ◌∷◌, ◌++◌, Bytes, bytes_eq, codes, length, leb, ◌==◌,
}
use remote_tool.Protocol.Msg
use remote_tool.Protocol.Frame.{Frame, default_header}
use remote_tool.Protocol.Messages.Text.{json_escape, to_string}
use remote_tool.Protocol.Messages.Connection.{json_frame}
use remote_tool.Protocol.Messages.Extract.{
  Decoded, ok, ◌>>=◌, ◌>>◌, require, invalid_field, decode_preamble, check_unknown_fields,
  extract_string, extract_int, cast_int,
}

pub record OpenSessionMessage : Type 0 where
  pub mapping_id : Bytes
  pub target_host : Bytes
  pub target_port : ℤ
  pub connect_timeout_ms : ℤ

pub record SessionOpenedMessage : Type 0 where
  pub mapping_id : Bytes
  pub connected_host : Bytes
  pub connected_port : ℤ

pub record SessionOpenFailedMessage : Type 0 where
  pub error_code : Bytes
  pub message : Bytes

pub record SessionHalfCloseMessage : Type 0 where
  pub direction : Bytes

pub record CloseSessionMessage : Type 0 where
  pub reason : Bytes
  pub message : Bytes

unfoldable pub encode_open_session : OpenSessionMessage → Frame
unfolding json_frame
encode_open_session m = json_frame Msg.open_session (
    codes "{\"mapping_id\":\""
    ++ json_escape m.mapping_id
    ++ codes "\",\"target_host\":\""
    ++ json_escape m.target_host
    ++ codes "\",\"target_port\":"
    ++ to_string m.target_port
    ++ codes ",\"connect_timeout_ms\":"
    ++ to_string m.connect_timeout_ms
    ++ codes "}")

unfoldable pub encode_session_opened : SessionOpenedMessage → Frame
unfolding json_frame
encode_session_opened m = json_frame Msg.session_opened (
    codes "{\"mapping_id\":\""
    ++ json_escape m.mapping_id
    ++ codes "\",\"connected_host\":\""
    ++ json_escape m.connected_host
    ++ codes "\",\"connected_port\":"
    ++ to_string m.connected_port
    ++ codes "}")

unfoldable pub encode_session_open_failed : SessionOpenFailedMessage → Frame
unfolding json_frame
encode_session_open_failed m = json_frame Msg.session_open_failed (
    codes "{\"error_code\":\""
    ++ json_escape m.error_code
    ++ codes "\",\"message\":\""
    ++ json_escape m.message
    ++ codes "\"}")

unfoldable pub encode_session_data : ℕ → Bytes → Frame
encode_session_data sid bytes = record {
  header = record default_header { msg_type = Msg.session_data; session_id = sid };
  payload = bytes;
}

unfoldable pub decode_session_data : Frame → Bytes
decode_session_data f = f.payload

unfoldable pub encode_session_half_close : SessionHalfCloseMessage → Frame
unfolding json_frame
encode_session_half_close m =
    json_frame Msg.session_half_close
      (codes "{\"direction\":\"" ++ json_escape m.direction ++ codes "\"}")

unfoldable pub encode_close_session : CloseSessionMessage → Frame
unfolding json_frame
encode_close_session m = json_frame Msg.close_session (
    codes "{\"reason\":\""
    ++ json_escape m.reason
    ++ codes "\",\"message\":\""
    ++ json_escape m.message
    ++ codes "\"}")

module _ (strtod_ok : Bytes → Bool) where
  unfoldable pub decode_open_session : Frame → Decoded OpenSessionMessage
  decode_open_session f = do
    obj ← decode_preamble strtod_ok f Msg.open_session
    check_unknown_fields obj (
        codes "mapping_id"
        ∷ codes "target_host"
        ∷ codes "target_port"
        ∷ codes "connect_timeout_ms"
        ∷ [])
    mapping_id ← extract_string obj (codes "mapping_id")
    require (not (length mapping_id == 0) && leb (length mapping_id) 64)
        (invalid_field (codes "mapping_id"))
    target_host ← extract_string obj (codes "target_host")
    require (not (length target_host == 0)) (invalid_field (codes "target_host"))
    target_port ← extract_int obj (codes "target_port")
    require (not (below target_port 1) && not (above target_port 65535))
        (invalid_field (codes "target_port"))
    timeout ← extract_int obj (codes "connect_timeout_ms")
    require (not (below timeout 1000) && not (above timeout 30000))
        (invalid_field (codes "connect_timeout_ms"))
    ok (record {
      mapping_id = mapping_id;
      target_host = target_host;
      target_port = cast_int target_port;
      connect_timeout_ms = cast_int timeout;
    })

  unfoldable pub decode_session_opened : Frame → Decoded SessionOpenedMessage
  decode_session_opened f = do
    obj ← decode_preamble strtod_ok f Msg.session_opened
    check_unknown_fields obj
        (codes "mapping_id" ∷ codes "connected_host" ∷ codes "connected_port" ∷ [])
    mapping_id ← extract_string obj (codes "mapping_id")
    connected_host ← extract_string obj (codes "connected_host")
    port ← extract_int obj (codes "connected_port")
    ok (record {
      mapping_id = mapping_id;
      connected_host = connected_host;
      connected_port = cast_int port;
    })

  unfoldable pub decode_session_open_failed : Frame → Decoded SessionOpenFailedMessage
  decode_session_open_failed f = do
    obj ← decode_preamble strtod_ok f Msg.session_open_failed
    check_unknown_fields obj (codes "error_code" ∷ codes "message" ∷ [])
    error_code ← extract_string obj (codes "error_code")
    message ← extract_string obj (codes "message")
    ok (record { error_code = error_code; message = message })

  unfoldable pub decode_session_half_close : Frame → Decoded SessionHalfCloseMessage
  decode_session_half_close f = do
    obj ← decode_preamble strtod_ok f Msg.session_half_close
    check_unknown_fields obj (codes "direction" ∷ [])
    direction ← extract_string obj (codes "direction")
    require (bytes_eq direction (codes "write")) (invalid_field (codes "direction"))
    ok (record { direction = direction })

  unfoldable pub decode_close_session : Frame → Decoded CloseSessionMessage
  decode_close_session f = do
    obj ← decode_preamble strtod_ok f Msg.close_session
    check_unknown_fields obj (codes "reason" ∷ codes "message" ∷ [])
    reason ← extract_string obj (codes "reason")
    message ← extract_string obj (codes "message")
    ok (record { reason = reason; message = message })
