-- ===== src/Agent/Session/State.antt =====
-- `AgentSession` of agent_session.h: its state, and what it does to the outside. Log lines and the
-- texts for the event log are left out. The callback on closing does not call the session.
use remote_tool.Prelude.{
  ℕ, Bool, true, false, ◌&&◌, ℤ, pos, List, [], ◌∷◌, ◌++◌, Bytes, if◌then◌else◌,
}
use remote_tool.Protocol.Frame.{Frame}
use remote_tool.Session.Manager.State.{SessionState, idle, connecting, closed, is_closed}

-- A frame handed to the tunnel; the start and the end of the wait for a connection; the start of a
-- connection, of a read and of a write; the end of the sending side; the end of all operations of the
-- socket, alone and with its closing; and the callback.
pub data SessionEffect : Type 0 where
  sends : Frame → SessionEffect
  waits : ℤ → SessionEffect
  connects : Bytes → ℕ → SessionEffect
  writes : Bytes → SessionEffect
  cancels_timer reads fin cancels shuts : SessionEffect
  calls_on_closed : ℕ → SessionEffect

-- Whether there is a tunnel, a socket, a timer and a callback is a Boolean; `effects` are all so far,
-- oldest first.
pub record AgentSession : Type 0 where
  pub state : SessionState
  pub session_id : ℕ
  pub mapping_id : Bytes
  pub target_host : Bytes
  pub target_port : ℤ
  pub bytes_sent : ℕ
  pub bytes_received : ℕ
  pub tunnel : Bool
  pub target_socket : Bool
  pub socket_open : Bool
  pub connect_timer : Bool
  pub target_write_queue : List Bytes
  pub writing_to_target : Bool
  pub target_read_closed : Bool
  pub target_write_closed : Bool
  pub target_write_shutdown_done : Bool
  pub on_closed : Bool
  pub effects : List SessionEffect

-- A session as it is constructed.
abbrev pub new_session : AgentSession
new_session = record {
  state = idle;
  session_id = 0;
  mapping_id = [];
  target_host = [];
  target_port = pos 0;
  bytes_sent = 0;
  bytes_received = 0;
  tunnel = true;
  target_socket = false;
  socket_open = false;
  connect_timer = false;
  target_write_queue = [];
  writing_to_target = false;
  target_read_closed = false;
  target_write_closed = false;
  target_write_shutdown_done = false;
  on_closed = false;
  effects = [];
}

abbrev pub is_connecting : SessionState → Bool
is_connecting connecting = true
is_connecting _ = false

-- What a call finds outside: which texts `make_address` reads, and whether `async_connect` can open
-- the socket.
pub record Network : Type 0 where
  pub is_address : Bytes → Bool
  pub opens : Bool

unfoldable pub effect : SessionEffect → AgentSession → AgentSession
effect e s = record s { effects = s.effects ++ e ∷ [] }

unfoldable pub send_session_frame : Frame → AgentSession → AgentSession
unfolding effect
send_session_frame f s =
    if s.tunnel
    then effect (sends (record f { header = record f.header { session_id = s.session_id } })) s
    else s

-- The steps of `cleanup`: the timer, the socket, the queue, and the callback.
unfoldable pub drop_timer : AgentSession → AgentSession
unfolding effect
drop_timer s =
    if s.connect_timer then record (effect cancels_timer s) { connect_timer = false } else s

unfoldable pub close_socket : AgentSession → AgentSession
unfolding effect
close_socket s =
    if s.target_socket && s.socket_open then record (effect shuts s) { socket_open = false } else s

unfoldable pub fire_on_closed : AgentSession → AgentSession
unfolding effect
fire_on_closed s =
    if s.on_closed
    then record (effect (calls_on_closed s.session_id) s) { on_closed = false }
    else s

abbrev pub emptied : AgentSession → AgentSession
emptied s = record s { target_write_queue = []; writing_to_target = false; state = closed }

unfoldable pub cleanup : AgentSession → AgentSession
unfolding drop_timer close_socket fire_on_closed
cleanup s =
    let done = emptied (close_socket (drop_timer s)) in
    if is_closed s.state then done else fire_on_closed done

unfoldable pub is_active : AgentSession → Bool
is_active s = elim s.state [ idle ↦ false | closed ↦ false | _ ↦ true ]

unfoldable pub set_on_closed : Bool → AgentSession → AgentSession
set_on_closed cb s = record s { on_closed = cb }
