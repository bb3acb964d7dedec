-- ===== src/Tunnel/Connection/Writes.antt =====
-- Sending: `send_frame`, `do_write` and the handler of a write.
use remote_tool.Prelude.{
  ℕ, Bool, true, false, ◌||◌, Option, none, some, List, [], ◌∷◌, ◌++◌, ◌==◌, if◌then◌else◌,
}
use remote_tool.Protocol.ErrorCode.{ErrorCode, internal_error}
use remote_tool.Protocol.Msg
use remote_tool.Protocol.Frame.{Frame, encode_frame}
use remote_tool.Session.Manager.Local.{WriteResult, written}
use remote_tool.Tunnel.Connection.State.{
  is_connected, WriteEntry, WriteQueue, control, session, takes, refuses, writes, TunnelConnection,
  perform, call, handle_error,
}

abbrev pub queue_of : WriteQueue → TunnelConnection → List WriteEntry
queue_of control c = c.control_queue
queue_of session c = c.data_queue

abbrev pub with_queue : WriteQueue → List WriteEntry → TunnelConnection → TunnelConnection
with_queue control es c = record c { control_queue = es }
with_queue session es c = record c { data_queue = es }

-- Of the two queues the one that is written next, by the control queue.
abbrev pub next_queue : List WriteEntry → WriteQueue
next_queue [] = session
next_queue (e ∷ es) = control

-- The write of the front of a queue.
unfoldable pub write_front : WriteQueue → List WriteEntry → TunnelConnection → TunnelConnection
unfolding perform
write_front q [] c = record c { writing = false }
write_front q (e ∷ es) c = record (perform (writes q e.data_bytes ∷ []) c) {
  writing = true;
  write_pending = some q;
}

unfoldable pub do_write : TunnelConnection → TunnelConnection
unfolding write_front
do_write c = let q = next_queue c.control_queue in write_front q (queue_of q c) c

-- The handler, on the queue that it has captured.
unfoldable pub popped :
    WriteQueue → List WriteEntry → WriteResult → TunnelConnection → TunnelConnection
unfolding perform handle_error do_write
popped q [] r c = record c { writing = false }
popped q (e ∷ es) written c = do_write (perform (call e.callback ErrorCode.ok) (with_queue q es c))
popped q (e ∷ es) r c =
    handle_error internal_error (perform (call e.callback internal_error) (with_queue q es c))

-- The write under way ends.
unfoldable pub end_write : Option WriteQueue → WriteResult → TunnelConnection → TunnelConnection
unfolding popped
end_write none r c = c
end_write (some q) r c = popped q (queue_of q c) r (record c { write_pending = none })

unfoldable pub write_done : WriteResult → TunnelConnection → TunnelConnection
unfolding end_write
write_done r c = end_write c.write_pending r c

-- The frames that may go before those of sessions.
unfoldable pub is_conn_control : ℕ → Bool
is_conn_control t =
    t == Msg.hello
    || t == Msg.hello_ack
    || t == Msg.heartbeat
    || t == Msg.heartbeat_ack
    || t == Msg.pair_provision
    || t == Msg.pair_provision_ack
    || t == Msg.protocol_error

unfoldable pub enqueue : WriteQueue → WriteEntry → TunnelConnection → TunnelConnection
unfolding perform
enqueue q e c = with_queue q (queue_of q c ++ e ∷ []) (perform (takes q e ∷ []) c)

unfoldable pub send_entry : WriteQueue → WriteEntry → TunnelConnection → TunnelConnection
unfolding enqueue do_write
send_entry q e c = if c.writing then enqueue q e c else do_write (enqueue q e c)

unfoldable pub send_frame : Frame → Option ℕ → TunnelConnection → TunnelConnection
unfolding perform is_conn_control send_entry encode_frame
send_frame f on_sent c =
    if is_connected c.state
    then send_entry (if is_conn_control f.header.msg_type then control else session)
        (record { data_bytes = encode_frame f; callback = on_sent }) c
    else perform (refuses on_sent ∷ call on_sent internal_error) c
