-- ===== src/Agent/Session/Target.antt =====
-- The side of `AgentSession` to the target: writes, reads, and the connection.
use remote_tool.Prelude.{
  ℕ, ◌+◌, ◌-◌, ◌%◌, ◌^◌, Bool, true, false, not, ◌&&◌, ◌||◌, ℤ, pos, negsuc, Option, none, some,
  List, [], ◌∷◌, ◌++◌, Bytes, codes, length, ◌==◌, if◌then◌else◌,
}
use remote_tool.Protocol.Frame.{Frame}
use remote_tool.Protocol.Messages.Text.{to_string}
use remote_tool.Protocol.Messages.Session.{
  OpenSessionMessage, encode_session_opened, encode_session_open_failed, encode_session_data,
  encode_session_half_close, encode_close_session,
}
use remote_tool.Session.Manager.State.{
  SessionState, connecting, connected, half_closed_remote, closed, is_idle, is_connected,
  is_half_closed_local, is_closed,
}
use remote_tool.Agent.Session.State.{
  AgentSession, Network, waits, connects, writes, cancels_timer, reads, fin, cancels, effect,
  send_session_frame, cleanup, is_connecting,
}

unfoldable pub write_next : List Bytes → AgentSession → AgentSession
unfolding effect
write_next [] s = record s { writing_to_target = false }
write_next (entry ∷ queue) s = effect (writes entry) (record s { writing_to_target = true })

unfoldable pub do_target_write : AgentSession → AgentSession
unfolding write_next
do_target_write s = write_next s.target_write_queue s

unfoldable pub maybe_shutdown_target_write : AgentSession → AgentSession
unfolding effect
maybe_shutdown_target_write s =
    let sent = if s.target_socket && s.socket_open then effect fin s else s in
    if not s.target_write_closed || s.target_write_shutdown_done
    then s
    else if s.writing_to_target || not (length s.target_write_queue == 0)
    then s
    else record sent { target_write_shutdown_done = true }

unfoldable pub forward_data_to_target : Bytes → AgentSession → AgentSession
unfolding do_target_write
forward_data_to_target bytes s =
    let s1 = record s {
      bytes_sent = (s.bytes_sent + length bytes) % 2 ^ 64;
      target_write_queue = s.target_write_queue ++ bytes ∷ [];
    } in
    if s.target_write_closed || not s.target_socket || not s.socket_open
    then s
    else if s.writing_to_target
    then s1
    else do_target_write s1

abbrev pub io_error : Bytes → Frame
io_error message =
    encode_close_session (record { reason = codes "TARGET_IO_ERROR"; message = message })

-- A CLOSE_SESSION for an error of the target's socket, and the end of the session, if it is not closed.
unfoldable pub io_failed : Bytes → AgentSession → AgentSession
unfolding send_session_frame cleanup
io_failed message s =
    if is_closed s.state then s else cleanup (send_session_frame (io_error message) s)

-- How a write ends: well, or with an error, which an abort is too.
pub data TargetWrite : Type 0 where
  written : TargetWrite
  write_error : Bytes → TargetWrite

unfoldable pub after_write : List Bytes → TargetWrite → AgentSession → AgentSession
unfolding maybe_shutdown_target_write io_failed do_target_write
after_write [] r s = maybe_shutdown_target_write (record s { writing_to_target = false })
after_write (entry ∷ queue) (write_error message) s =
    io_failed message (record s { target_write_queue = []; writing_to_target = false })
after_write (entry ∷ queue) written s =
    maybe_shutdown_target_write (do_target_write (record s { target_write_queue = queue }))

-- The handler of `async_write`.
unfoldable pub target_write_done : TargetWrite → AgentSession → AgentSession
unfolding after_write
target_write_done r s = after_write s.target_write_queue r s

unfoldable pub forward_data_to_tunnel : Bytes → AgentSession → AgentSession
unfolding send_session_frame
forward_data_to_tunnel bytes s =
    send_session_frame (encode_session_data s.session_id bytes)
      (record s { bytes_received = (s.bytes_received + length bytes) % 2 ^ 64 })

unfoldable pub start_target_read : AgentSession → AgentSession
unfolding effect
start_target_read s = if not s.target_socket || s.target_read_closed then s else effect reads s

-- How a read ends.
pub data TargetRead : Type 0 where
  received : Bytes → TargetRead
  eof aborted : TargetRead
  read_error : Bytes → TargetRead

abbrev pub reads_on : SessionState → Bool
reads_on s = is_connected s || is_half_closed_local s

abbrev pub half_close : Frame
half_close = encode_session_half_close (record { direction = codes "write" })

-- The handler of `async_read_some`.
unfoldable pub target_read_done : TargetRead → AgentSession → AgentSession
unfolding send_session_frame cleanup io_failed forward_data_to_tunnel start_target_read
target_read_done eof s =
    let s1 = send_session_frame half_close (record s { target_read_closed = true }) in
    if not (reads_on s.state)
    then s
    else if is_half_closed_local s.state
    then cleanup (record s1 { state = closed })
    else record s1 { state = half_closed_remote }
target_read_done aborted s = s
target_read_done (read_error message) s = io_failed message s
target_read_done (received bytes) s =
    let s1 = if length bytes == 0 then s else forward_data_to_tunnel bytes s in
    if reads_on s.state then start_target_read s1 else s1

-- `static_cast<std::uint16_t>`.
abbrev pub cast_u16 : ℤ → ℕ
cast_u16 (pos n) = n % 2 ^ 16
cast_u16 (negsuc n) = (2 ^ 16 - (n + 1) % 2 ^ 16) % 2 ^ 16

abbrev pub failure : Bytes → Bytes → Frame
failure code message = encode_session_open_failed (record { error_code = code; message = message })

unfoldable pub open_failed : Bytes → Bytes → AgentSession → AgentSession
unfolding send_session_frame cleanup
open_failed code message s = cleanup (send_session_frame (failure code message) s)

unfoldable pub on_open_session : Network → OpenSessionMessage → ℕ → AgentSession → AgentSession
unfolding effect open_failed
on_open_session net msg sid s =
    let s1 = record s {
      session_id = sid;
      mapping_id = msg.mapping_id;
      target_host = msg.target_host;
      target_port = msg.target_port;
      state = connecting;
      target_socket = true;
      socket_open = false;
    } in
    let waiting = record (effect (waits msg.connect_timeout_ms) s1) { connect_timer = true } in
    if not (is_idle s.state)
    then s
    else if not (net.is_address msg.target_host)
    then open_failed (codes "TARGET_CONNECTION_REFUSED")
        (codes "invalid target address: " ++ msg.target_host) s1
    else record (effect (connects msg.target_host (cast_u16 msg.target_port)) waiting) {
      socket_open = net.opens;
    }

-- The handler of the timer, which is called with an abort or when the time is over.
unfoldable pub connect_timed_out : Bool → AgentSession → AgentSession
unfolding effect open_failed
connect_timed_out is_abort s =
    if is_abort || not (is_connecting s.state)
    then s
    else open_failed (codes "TARGET_CONNECT_TIMEOUT")
        (codes "connection to "
          ++ (s.target_host ++ (codes ":" ++ (to_string s.target_port ++ codes " timed out"))))
        (effect cancels s)

abbrev pub opened_frame : AgentSession → Bytes → ℤ → Frame
opened_frame s host port =
    encode_session_opened
      (record { mapping_id = s.mapping_id; connected_host = host; connected_port = port })

unfoldable pub on_target_connected : Bytes → ℤ → AgentSession → AgentSession
unfolding send_session_frame start_target_read
on_target_connected host port s =
    start_target_read
      (send_session_frame (opened_frame s host port) (record s { state = connected }))

-- How a connection ends: with an error, or well, and with the other end where it can be told.
pub data ConnectResult : Type 0 where
  unreachable : Bytes → ConnectResult
  reached : Option (Bytes × ℤ) → ConnectResult

unfoldable pub finish_connect : ConnectResult → AgentSession → AgentSession
unfolding open_failed on_target_connected
finish_connect (unreachable message) s = open_failed (codes "TARGET_CONNECTION_REFUSED") message s
finish_connect (reached none) s = on_target_connected s.target_host s.target_port s
finish_connect (reached (some (host, port))) s = on_target_connected host port s

-- The handler of `async_connect`.
unfoldable pub connect_done : ConnectResult → AgentSession → AgentSession
unfolding effect finish_connect
connect_done r s =
    let s1 = if s.connect_timer then effect cancels_timer s else s in
    if not (is_connecting s.state) then s1 else finish_connect r s1
