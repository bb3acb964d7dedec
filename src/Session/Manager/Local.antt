-- ===== src/Session/Manager/Local.antt =====
-- The end of a session, and the reads and writes of its local socket. A handler that a socket or a
-- tunnel calls later is an operation of its own, with what it is called with.
use remote_tool.Prelude.{
  ℕ, ◌+◌, ◌-◌, ◌*◌, ◌%◌, ◌^◌, Bool, true, false, not, ◌&&◌, ◌||◌, Option, none, some, List, [], ◌∷◌,
  ◌++◌, Bytes, codes, length, drop, ltb, leb, ◌==◌, if◌then◌else◌,
}
use remote_tool.Protocol.Frame.{Frame}
use remote_tool.Protocol.Messages.Session.{
  encode_session_data, encode_session_half_close, encode_close_session,
}
use remote_tool.Session.Ids.{release}
use remote_tool.Session.Manager.State.{
  SessionState, half_closed_local, closed, is_connected, is_half_closed_remote, is_closed,
  SessionEntry, Effect, send, read, fin, shut, write, session_closed, SessionManager, Outside,
  find_session, remove, modify, emit,
}

-- `f` is done to a socket that there is.
abbrev pub on_socket : (ℕ → Effect) → Option ℕ → SessionManager → SessionManager
on_socket f none m = m
on_socket f (some k) m = emit (f k) m

unfoldable pub cleanup_session : Outside → ℕ → SessionManager → SessionManager
cleanup_session o sid m = elim (find_session sid m) [
  | none ↦ m
  | some s ↦
      let m1 = on_socket shut s.local_socket m in
      record m1 {
        id_alloc = release (o.clock sid) sid m.id_alloc;
        sessions = remove sid m.sessions;
      }
]

abbrev pub fire : ℕ → SessionManager → SessionManager
fire sid m = if m.on_session_closed then emit (session_closed sid) m else m

unfoldable pub transition_to_closed : Outside → ℕ → SessionManager → SessionManager
transition_to_closed o sid m = elim (find_session sid m) [
  | none ↦ m
  | some s ↦
      if is_closed s.state
      then m
      else cleanup_session o sid (fire sid (modify sid (λ s. record s { state = closed }) m))
]

unfoldable pub maybe_finish_local_close : Outside → ℕ → SessionManager → SessionManager
maybe_finish_local_close o sid m = elim (find_session sid m) [
  | none ↦ m
  | some s ↦
      let m1 = modify sid (λ s. record s { local_write_shutdown_pending = false }) m in
      let m2 = on_socket fin s.local_socket m1 in
      if not s.local_write_shutdown_pending
      then m
      else if s.writing_local || not (length s.local_write_queue == 0)
      then m
      else if s.local_close_after_drain
      then transition_to_closed o sid m2
      else m2
]

-- The next write of `do_local_write_next`, on a socket.
unfoldable pub write_front : Outside → ℕ → ℕ → List Bytes → SessionManager → SessionManager
write_front o sid socket [] m =
    maybe_finish_local_close o sid (modify sid (λ s. record s { writing_local = false }) m)
write_front o sid socket (buf ∷ queue) m =
    emit (write socket buf) (modify sid (λ s. record s { writing_local = true }) m)

unfoldable pub do_local_write_next : Outside → ℕ → SessionManager → SessionManager
do_local_write_next o sid m = elim (find_session sid m) [
  | none ↦ m
  | some s ↦ elim s.local_socket [
    | none ↦
        maybe_finish_local_close o sid
          (modify sid (λ s. record s { local_write_queue = []; writing_local = false }) m)
    | some socket ↦ write_front o sid socket s.local_write_queue m
  ]
]

unfoldable pub do_local_write : Outside → ℕ → Bytes → SessionManager → SessionManager
do_local_write o sid bytes m = elim (find_session sid m) [
  | none ↦ m
  | some s ↦ elim s.local_socket [
    | none ↦ m
    | some socket ↦
        let m1 =
          modify sid (λ s. record s { local_write_queue = s.local_write_queue ++ bytes ∷ [] }) m in
        if not s.writing_local then do_local_write_next o sid m1 else m1
  ]
]

-- The two states in which the local client may still be read.
abbrev pub may_send : SessionState → Bool
may_send st = is_connected st || is_half_closed_remote st

unfoldable pub start_local_read : ℕ → SessionManager → SessionManager
start_local_read sid m = elim (find_session sid m) [
  | none ↦ m
  | some s ↦ elim s.local_socket [
    | none ↦ m
    | some socket ↦
        if s.reading_local
        then m
        else if s.read_paused
        then m
        else if not (may_send s.state)
        then m
        else emit (read socket) (modify sid (λ s. record s { reading_local = true }) m)
  ]
]

abbrev pub high_water : ℕ
high_water = 256 * 1024

abbrev pub low_water : ℕ
low_water = 128 * 1024

-- The handler of `send_frame` on `len` bytes of data.
unfoldable pub data_sent : ℕ → ℕ → SessionManager → SessionManager
data_sent sid len m = elim (find_session sid m) [
  | none ↦ m
  | some s ↦
      let pending = s.pending_bytes - len in
      let m1 = modify sid (λ s. record s { pending_bytes = pending }) m in
      if s.read_paused && ltb pending low_water
      then start_local_read sid (modify sid (λ s. record s { read_paused = false }) m1)
      else m1
]

-- A tunnel that is not connected calls the handler at once.
unfoldable pub send_data : Outside → ℕ → ℕ → Bytes → SessionManager → SessionManager
send_data o tunnel sid bytes m =
    if o.is_up tunnel
    then emit (send tunnel (encode_session_data sid bytes)) m
    else data_sent sid (length bytes) m

unfoldable pub forward_local_to_agent : Outside → ℕ → Bytes → SessionManager → SessionManager
forward_local_to_agent o sid bytes m = elim (find_session sid m) [
  | none ↦ m
  | some s ↦ elim s.tunnel [
    | none ↦ m
    | some tunnel ↦
        let pending = (s.pending_bytes + length bytes) % 2 ^ 64 in
        if not (may_send s.state)
        then m
        else if length bytes == 0
        then m
        else send_data o tunnel sid bytes (
            modify sid
              (λ s. record s {
                bytes_local_out = (s.bytes_local_out + length bytes) % 2 ^ 64;
                pending_bytes = pending;
                read_paused = s.read_paused || leb high_water pending;
              })
              m)
  ]
]

-- A frame that is sent where the tunnel is there and connected, with the session's id.
unfoldable pub send_if_up : Outside → Option ℕ → ℕ → Frame → SessionManager → SessionManager
send_if_up o none sid f m = m
send_if_up o (some tunnel) sid f m =
    if o.is_up tunnel
    then emit (send tunnel (record f { header = record f.header { session_id = sid } })) m
    else m

unfoldable pub close_session : Outside → ℕ → SessionManager → SessionManager
close_session o sid m = elim (find_session sid m) [
  | none ↦ m
  | some s ↦
      let goodbye = encode_close_session (record { reason = codes "NORMAL"; message = [] }) in
      if is_closed s.state
      then m
      else transition_to_closed o sid (send_if_up o s.tunnel sid goodbye m)
]

-- How a read or a write of a socket ended.
pub data ReadResult : Type 0 where
  received : Bytes → ReadResult
  eof read_aborted read_error : ReadResult

pub data WriteResult : Type 0 where
  written write_aborted write_error : WriteResult

-- The handler of `async_read_some`, on an entry whose `reading_local` is already reset.
unfoldable pub after_read :
    Outside → ℕ → SessionEntry → ReadResult → SessionManager → SessionManager
after_read o sid s (received bytes) m =
    let m1 =
      if not (length bytes == 0) && is_connected s.state
      then forward_local_to_agent o sid bytes m
      else m in
    if is_connected s.state then start_local_read sid m1 else m1
after_read o sid s eof m =
    let half = encode_session_half_close (record { direction = codes "write" }) in
    let m1 = send_if_up o s.tunnel sid half m in
    if is_connected s.state then modify sid (λ s. record s { state = half_closed_local }) m1 else m1
after_read o sid s read_aborted m = m
after_read o sid s read_error m = close_session o sid m

unfoldable pub local_read_done : Outside → ℕ → ReadResult → SessionManager → SessionManager
local_read_done o sid r m = elim (find_session sid m) [
  | none ↦ m
  | some s ↦ after_read o sid s r (modify sid (λ s. record s { reading_local = false }) m)
]

-- The handler of `async_write`, once the buffer is off the queue.
unfoldable pub after_write : Outside → ℕ → WriteResult → SessionManager → SessionManager
after_write o sid written m = do_local_write_next o sid m
after_write o sid write_aborted m =
    modify sid (λ s. record s { local_write_queue = []; writing_local = false }) m
after_write o sid write_error m = close_session o sid m

unfoldable pub local_write_done : Outside → ℕ → WriteResult → SessionManager → SessionManager
local_write_done o sid r m = elim (find_session sid m) [
  | none ↦ m
  | some s ↦
      after_write o sid r
        (modify sid (λ s. record s { local_write_queue = drop 1 s.local_write_queue }) m)
]
