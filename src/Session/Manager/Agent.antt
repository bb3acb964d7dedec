-- ===== src/Session/Manager/Agent.antt =====
-- The frames that arrive from the agent, the loss of a device, and the events of the manager.
use remote_tool.Prelude.{
  ℕ, ◌+◌, ◌%◌, ◌^◌, ℤ, Bool, true, not, ◌||◌, Option, none, some, List, [], ◌∷◌, Bytes, bytes_eq,
  codes, length, ◌==◌, if◌then◌else◌,
}
use remote_tool.Protocol.Msg
use remote_tool.Protocol.Frame.{Frame}
use remote_tool.Protocol.Messages.Extract.{ok, err}
use remote_tool.Protocol.Messages.Session.{
  decode_session_opened, decode_session_data, decode_session_half_close,
}
use remote_tool.Session.Manager.State.{
  SessionState, connected, half_closed_remote, is_idle, is_connected, is_half_closed_local,
  is_closed, SessionEntry, SessionManager, Outside, find_session, modify, create_session,
  attach_local_socket, set_max_sessions, set_on_session_closed,
}
use remote_tool.Session.Manager.Local.{
  transition_to_closed, maybe_finish_local_close, do_local_write, start_local_read, data_sent,
  forward_local_to_agent, close_session, ReadResult, local_read_done, WriteResult, local_write_done,
}

-- The two states in which the agent may still send.
abbrev pub may_receive : SessionState → Bool
may_receive st = is_connected st || is_half_closed_local st

module _ (strtod_ok : Bytes → Bool) (o : Outside) where
  unfoldable pub on_opened : ℕ → SessionEntry → Frame → SessionManager → SessionManager
  on_opened sid s f m =
      if not (is_idle s.state) then m else elim (decode_session_opened strtod_ok f) [
        | err e ↦ m
        | ok msg ↦ start_local_read sid (modify sid (λ s. record s { state = connected }) m)
      ]

  -- What the message holds is only logged.
  unfoldable pub on_open_failed : ℕ → SessionEntry → Frame → SessionManager → SessionManager
  on_open_failed sid s f m = if not (is_idle s.state) then m else transition_to_closed o sid m

  unfoldable pub on_data : ℕ → SessionEntry → Frame → SessionManager → SessionManager
  on_data sid s f m =
      let payload = decode_session_data f in
      if not (may_receive s.state) then m else elim s.local_socket [
        | none ↦ m
        | some socket ↦
            if length payload == 0
            then m
            else do_local_write o sid payload (
                modify sid
                  (λ s. record s { bytes_local_in = (s.bytes_local_in + length payload) % 2 ^ 64 })
                  m)
      ]

  -- The sending side of the agent is closed. Both sides are, if the local client's was before.
  unfoldable pub remote_half_closed : ℕ → SessionEntry → SessionManager → SessionManager
  remote_half_closed sid s m =
      let both_sides = is_half_closed_local s.state in
      maybe_finish_local_close o sid (
        modify sid
          (λ s. record s {
            state = half_closed_remote;
            local_write_shutdown_pending = true;
            local_close_after_drain = both_sides || s.local_close_after_drain;
          })
          m)

  unfoldable pub on_half_close : ℕ → SessionEntry → Frame → SessionManager → SessionManager
  on_half_close sid s f m =
      if not (may_receive s.state) then m else elim (decode_session_half_close strtod_ok f) [
        | err e ↦ m
        | ok msg ↦ if bytes_eq msg.direction (codes "write") then remote_half_closed sid s m else m
      ]

  -- The reason is only logged, also where it cannot be read.
  unfoldable pub on_close : ℕ → SessionEntry → Frame → SessionManager → SessionManager
  on_close sid s f m = if is_closed s.state then m else transition_to_closed o sid m

  unfoldable pub on_session_frame : ℕ → Frame → SessionManager → SessionManager
  on_session_frame sid f m = elim (find_session sid m) [
    | none ↦ m
    | some s ↦
        if f.header.msg_type == Msg.session_opened
        then on_opened sid s f m
        else if f.header.msg_type == Msg.session_open_failed
        then on_open_failed sid s f m
        else if f.header.msg_type == Msg.session_data
        then on_data sid s f m
        else if f.header.msg_type == Msg.session_half_close
        then on_half_close sid s f m
        else if f.header.msg_type == Msg.close_session
        then on_close sid s f m
        else m
  ]

  -- The ids of a device's sessions.
  unfoldable pub ids_of_device : Bytes → List (ℕ × SessionEntry) → List ℕ
  ids_of_device device_id [] = []
  ids_of_device device_id (x ∷ xs) =
      let more = ids_of_device device_id xs in
      if bytes_eq x.1.device_id device_id then x.0 ∷ more else more

  unfoldable pub close_all : List ℕ → SessionManager → SessionManager
  close_all [] m = m
  close_all (sid ∷ sids) m = close_all sids (close_session o sid m)

  unfoldable pub remove_all_sessions_for_device : Bytes → SessionManager → SessionManager
  remove_all_sessions_for_device device_id m = close_all (ids_of_device device_id m.sessions) m

-- What can happen to the manager: the calls from outside, and the handlers that sockets and tunnels
-- call.
pub data Event : Type 0 where
  creates : Bytes → Option ℕ → Bytes → Event
  attaches : ℕ → ℕ → Event
  frame_arrives : ℕ → Frame → Event
  forwards : ℕ → Bytes → Event
  closes : ℕ → Event
  device_lost : Bytes → Event
  sent : ℕ → ℕ → Event
  local_read : ℕ → ReadResult → Event
  local_write : ℕ → WriteResult → Event
  sets_max_sessions : ℤ → Event
  sets_on_session_closed : Bool → Event

unfoldable pub step : (Bytes → Bool) → Outside → Event → SessionManager → SessionManager
step strtod_ok o (creates device tunnel mapping) m = (create_session o device tunnel mapping m).1
step strtod_ok o (attaches sid socket) m = attach_local_socket sid socket m
step strtod_ok o (frame_arrives sid f) m = on_session_frame strtod_ok o sid f m
step strtod_ok o (forwards sid bytes) m = forward_local_to_agent o sid bytes m
step strtod_ok o (closes sid) m = close_session o sid m
step strtod_ok o (device_lost device) m = remove_all_sessions_for_device strtod_ok o device m
step strtod_ok o (sent sid len) m = data_sent sid len m
step strtod_ok o (local_read sid r) m = local_read_done o sid r m
step strtod_ok o (local_write sid r) m = local_write_done o sid r m
step strtod_ok o (sets_max_sessions limit) m = set_max_sessions limit m
step strtod_ok o (sets_on_session_closed cb) m = set_on_session_closed cb m

-- A history, each event with what it finds outside.
unfoldable pub run : (Bytes → Bool) → List (Outside × Event) → SessionManager → SessionManager
run strtod_ok [] m = m
run strtod_ok (x ∷ xs) m = run strtod_ok xs (step strtod_ok x.0 x.1 m)
