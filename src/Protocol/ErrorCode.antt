-- ===== src/Protocol/ErrorCode.antt =====
-- include/rmt/common/error_code.h: the stable protocol error codes and their wire names.
use Prim.Native.String.{String}
use remote_tool.Prelude.{ℕ, Bool, ◌&&◌, leb}

pub data ErrorCode : Type 0 where
  ok unsupported_version invalid_frame frame_too_large invalid_payload : ErrorCode
  unexpected_message device_disabled duplicate_device_connection heartbeat_timeout : ErrorCode
  internal_error session_limit_reached duplicate_session_id mapping_not_found : ErrorCode
  target_not_allowed target_connect_timeout target_connection_refused : ErrorCode
  target_network_unreachable target_io_error local_peer_closed agent_disconnected : ErrorCode
  buffer_limit_reached normal : ErrorCode

-- The value that the enumerator has: they are numbered from 0 in the order of their declaration.
pub value : ErrorCode → ℕ
value ok = 0
value unsupported_version = 1
value invalid_frame = 2
value frame_too_large = 3
value invalid_payload = 4
value unexpected_message = 5
value device_disabled = 6
value duplicate_device_connection = 7
value heartbeat_timeout = 8
value internal_error = 9
value session_limit_reached = 10
value duplicate_session_id = 11
value mapping_not_found = 12
value target_not_allowed = 13
value target_connect_timeout = 14
value target_connection_refused = 15
value target_network_unreachable = 16
value target_io_error = 17
value local_peer_closed = 18
value agent_disconnected = 19
value buffer_limit_reached = 20
value normal = 21

pub to_string : ErrorCode → String
to_string ok = "OK"
to_string unsupported_version = "UNSUPPORTED_VERSION"
to_string invalid_frame = "INVALID_FRAME"
to_string frame_too_large = "FRAME_TOO_LARGE"
to_string invalid_payload = "INVALID_PAYLOAD"
to_string unexpected_message = "UNEXPECTED_MESSAGE"
to_string device_disabled = "DEVICE_DISABLED"
to_string duplicate_device_connection = "DUPLICATE_DEVICE_CONNECTION"
to_string heartbeat_timeout = "HEARTBEAT_TIMEOUT"
to_string internal_error = "INTERNAL_ERROR"
to_string session_limit_reached = "SESSION_LIMIT_REACHED"
to_string duplicate_session_id = "DUPLICATE_SESSION_ID"
to_string mapping_not_found = "MAPPING_NOT_FOUND"
to_string target_not_allowed = "TARGET_NOT_ALLOWED"
to_string target_connect_timeout = "TARGET_CONNECT_TIMEOUT"
to_string target_connection_refused = "TARGET_CONNECTION_REFUSED"
to_string target_network_unreachable = "TARGET_NETWORK_UNREACHABLE"
to_string target_io_error = "TARGET_IO_ERROR"
to_string local_peer_closed = "LOCAL_PEER_CLOSED"
to_string agent_disconnected = "AGENT_DISCONNECTED"
to_string buffer_limit_reached = "BUFFER_LIMIT_REACHED"
to_string normal = "NORMAL"

unfoldable pub is_connection_level : ErrorCode → Bool
unfolding value
is_connection_level c =
    leb (value unsupported_version) (value c) && leb (value c) (value internal_error)
