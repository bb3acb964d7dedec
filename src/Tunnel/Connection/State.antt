-- ===== src/Tunnel/Connection/State.antt =====
-- `TunnelConnection` of connection.h: its state, what it is asked and does, and its end. The address,
-- which is for the log, the log lines and the TLS handshake itself are left out. The callbacks of
-- `send_frame`, of `connect` and on closing do not call the connection.
use remote_tool.Prelude.{
  ℕ, Bool, true, false, Option, none, some, List, [], ◌∷◌, ◌++◌, Bytes, if◌then◌else◌,
}
use remote_tool.Protocol.ErrorCode.{ErrorCode, normal}
use remote_tool.Protocol.Frame.{Frame, FrameDecoder, new_decoder, reset}

pub data TunnelState : Type 0 where
  disconnected connecting connected closed : TunnelState

abbrev pub is_connected : TunnelState → Bool
is_connected connected = true
is_connected _ = false

abbrev pub is_disconnected : TunnelState → Bool
is_disconnected disconnected = true
is_disconnected _ = false

-- Closed or Disconnected.
abbrev pub is_down : TunnelState → Bool
is_down closed = true
is_down disconnected = true
is_down _ = false

-- The callback is a number, which stands for the function.
pub record WriteEntry : Type 0 where
  pub data_bytes : Bytes
  pub callback : Option ℕ

pub data WriteQueue : Type 0 where
  control session : WriteQueue

-- What the connection is asked to send: an entry that a queue takes, or a callback of a frame that is
-- refused. What it does: calls of the callbacks, and operations of the socket. `writes q b` starts a
-- write of the bytes at the front of a queue.
pub data ConnectionEffect : Type 0 where
  takes : WriteQueue → WriteEntry → ConnectionEffect
  refuses : Option ℕ → ConnectionEffect
  tells tells_connect : ℕ → ErrorCode → ConnectionEffect
  writes : WriteQueue → Bytes → ConnectionEffect
  hands_over : Frame → ConnectionEffect
  tells_closed : ErrorCode → ConnectionEffect
  connects : Bytes → ℕ → ConnectionEffect
  reads closes_socket : ConnectionEffect

-- `write_pending` is the queue that the handler of a write under way has captured, and
-- `connect_pending` the callback that the handler of a connection attempt has.
pub record TunnelConnection : Type 0 where
  pub state : TunnelState
  pub decoder : FrameDecoder
  pub on_frame : Bool
  pub on_closed : Bool
  pub tls : Bool
  pub control_queue : List WriteEntry
  pub data_queue : List WriteEntry
  pub writing : Bool
  pub write_pending : Option WriteQueue
  pub connect_pending : Option (Option ℕ)
  pub effects : List ConnectionEffect

-- A connection that is still to be made, or is made from an accepted socket.
abbrev pub new_connection : Bool → TunnelConnection
new_connection is_accepted = record {
  state = if is_accepted then connected else disconnected;
  decoder = new_decoder;
  on_frame = false;
  on_closed = false;
  tls = false;
  control_queue = [];
  data_queue = [];
  writing = false;
  write_pending = none;
  connect_pending = none;
  effects = [];
}

unfoldable pub perform : List ConnectionEffect → TunnelConnection → TunnelConnection
perform es c = record c { effects = c.effects ++ es }

abbrev pub call : Option ℕ → ErrorCode → List ConnectionEffect
call none code = []
call (some id) code = tells id code ∷ []

abbrev pub call_connect : Option ℕ → ErrorCode → List ConnectionEffect
call_connect none code = []
call_connect (some id) code = tells_connect id code ∷ []

unfoldable pub drain : ErrorCode → List WriteEntry → List ConnectionEffect
drain code [] = []
drain code (e ∷ es) = call e.callback code ++ drain code es

unfoldable pub close_socket : TunnelConnection → TunnelConnection
unfolding perform
close_socket c = perform (closes_socket ∷ []) c

unfoldable pub drained : ErrorCode → TunnelConnection → TunnelConnection
unfolding drain perform
drained code c = record (perform (drain code c.control_queue ++ drain code c.data_queue) c) {
  control_queue = [];
  data_queue = [];
  writing = false;
  state = closed;
}

unfoldable pub fire_on_closed : ErrorCode → TunnelConnection → TunnelConnection
unfolding perform
fire_on_closed code c =
    if c.on_closed then record (perform (tells_closed code ∷ []) c) { on_closed = false } else c

unfoldable pub handle_error : ErrorCode → TunnelConnection → TunnelConnection
unfolding drained fire_on_closed close_socket reset
handle_error code c =
    let d = drained code c in
    close_socket
      (if is_down c.state then d else fire_on_closed code (record d { decoder = reset d.decoder }))

unfoldable pub close : TunnelConnection → TunnelConnection
unfolding handle_error
close c = if is_down c.state then c else handle_error normal c
