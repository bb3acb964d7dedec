-- ===== src/Agent/Session/Frames.antt =====
-- The frames that reach an `AgentSession`, and everything that can happen to one, in any order.
use remote_tool.Prelude.{ℕ, Bool, true, ◌||◌, List, [], ◌∷◌, Bytes, length, ◌==◌, if◌then◌else◌}
use remote_tool.Protocol.Msg
use remote_tool.Protocol.Frame.{Frame}
use remote_tool.Protocol.Messages.Extract.{ok, err}
use remote_tool.Protocol.Messages.Session.{
  OpenSessionMessage, decode_session_data, decode_session_half_close,
}
use remote_tool.Session.Manager.State.{
  half_closed_local, closed, is_idle, is_connected, is_half_closed_remote, is_closed,
}
use remote_tool.Agent.Session.State.{AgentSession, Network, cleanup, set_on_closed}
use remote_tool.Agent.Session.Target.{
  maybe_shutdown_target_write, forward_data_to_target, TargetWrite, target_write_done, TargetRead,
  target_read_done, on_open_session, connect_timed_out, ConnectResult, connect_done,
}

unfoldable pub handle_half_close : AgentSession → AgentSession
unfolding maybe_shutdown_target_write cleanup
handle_half_close s =
    let s1 = maybe_shutdown_target_write (record s { target_write_closed = true }) in
    if is_closed s.state
    then s
    else if is_connected s.state
    then record s1 { state = half_closed_local }
    else if is_half_closed_remote s.state
    then cleanup (record s1 { state = closed })
    else s1

unfoldable pub handle_close : AgentSession → AgentSession
unfolding cleanup
handle_close s = if is_closed s.state then s else cleanup (record s { state = closed })

-- A frame that cannot be read as a HALF_CLOSE is dropped; a CLOSE_SESSION closes in either case.
unfoldable pub frame_received : (Bytes → Bool) → Frame → AgentSession → AgentSession
unfolding forward_data_to_target handle_half_close handle_close
frame_received strtod_ok f s =
    let bytes = decode_session_data f in
    if is_idle s.state || is_closed s.state
    then s
    else if f.header.msg_type == Msg.session_data
    then (if length bytes == 0 then s else forward_data_to_target bytes s)
    else if f.header.msg_type == Msg.session_half_close
    then elim (decode_session_half_close strtod_ok f) [ err e ↦ s | ok msg ↦ handle_half_close s ]
    else if f.header.msg_type == Msg.close_session
    then handle_close s
    else s

-- The calls from outside, the handlers that asio calls, and the destructor.
pub data SessionEvent : Type 0 where
  opened : OpenSessionMessage → ℕ → SessionEvent
  frame : Frame → SessionEvent
  timer : Bool → SessionEvent
  connection : ConnectResult → SessionEvent
  target_read : TargetRead → SessionEvent
  target_write : TargetWrite → SessionEvent
  callback_set : Bool → SessionEvent
  destroyed : SessionEvent

unfoldable pub session_step : (Bytes → Bool) → Network → SessionEvent → AgentSession → AgentSession
unfolding on_open_session frame_received connect_timed_out connect_done target_read_done
    target_write_done set_on_closed cleanup
session_step strtod_ok net (opened msg sid) s = on_open_session net msg sid s
session_step strtod_ok net (frame f) s = frame_received strtod_ok f s
session_step strtod_ok net (timer is_abort) s = connect_timed_out is_abort s
session_step strtod_ok net (connection r) s = connect_done r s
session_step strtod_ok net (target_read r) s = target_read_done r s
session_step strtod_ok net (target_write r) s = target_write_done r s
session_step strtod_ok net (callback_set cb) s = set_on_closed cb s
session_step strtod_ok net destroyed s = cleanup s

unfoldable pub session_run :
    (Bytes → Bool) → List (Network × SessionEvent) → AgentSession → AgentSession
unfolding session_step
session_run strtod_ok [] s = s
session_run strtod_ok (x ∷ es) s = session_run strtod_ok es (session_step strtod_ok x.0 x.1 s)
