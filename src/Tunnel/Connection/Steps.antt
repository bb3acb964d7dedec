-- ===== src/Tunnel/Connection/Steps.antt =====
-- Connecting, reading, and all that can happen to a `TunnelConnection`.
use remote_tool.Prelude.{
  ℕ, Bool, true, false, not, ◌&&◌, ◌||◌, Option, none, some, List, [], ◌∷◌, Bytes, if◌then◌else◌,
}
use remote_tool.Protocol.ErrorCode.{ErrorCode, internal_error, local_peer_closed}
use remote_tool.Protocol.Frame.{
  Frame, DecodeStatus, protocol_error, disconnect, DecodeResult, consume,
}
use remote_tool.Session.Manager.Local.{
  ReadResult, received, eof, read_aborted, read_error, WriteResult,
}
use remote_tool.Tunnel.Connection.State.{
  connecting, connected, is_connected, is_disconnected, reads, connects, hands_over,
  TunnelConnection, perform, call_connect, handle_error, close,
}
use remote_tool.Tunnel.Connection.Writes.{write_done, send_frame}

-- `async_read_some`.
unfoldable pub do_read : TunnelConnection → TunnelConnection
unfolding perform
do_read c = perform (reads ∷ []) c

unfoldable pub begin_receive : TunnelConnection → TunnelConnection
unfolding do_read
begin_receive c = if is_connected c.state then do_read c else c

unfoldable pub connect_failed : Option ℕ → TunnelConnection → TunnelConnection
unfolding perform handle_error
connect_failed cb c = perform (call_connect cb internal_error) (handle_error internal_error c)

-- Whether the host is an address that asio reads is an argument.
unfoldable pub connect : (Bytes → Bool) → Bytes → ℕ → Option ℕ → TunnelConnection → TunnelConnection
unfolding perform connect_failed
connect is_address host port cb c =
    if not (is_disconnected c.state)
    then perform (call_connect cb internal_error) c
    else if is_address host
    then record (perform (connects host port ∷ []) c) {
      state = connecting;
      connect_pending = some cb;
    }
    else connect_failed cb (record c { state = connecting })

abbrev pub attempted : TunnelConnection → TunnelConnection
attempted c = record c { connect_pending = none }

-- The attempt under way ends: whether it succeeded, and whether the TLS handshake does.
unfoldable pub end_attempt : Option (Option ℕ) → Bool → Bool → TunnelConnection → TunnelConnection
unfolding perform connect_failed do_read
end_attempt none is_made shakes_hands c = c
end_attempt (some cb) is_made shakes_hands c =
    if not is_made || (c.tls && not shakes_hands)
    then connect_failed cb (attempted c)
    else do_read
        (perform (call_connect cb ErrorCode.ok) (record (attempted c) { state = connected }))

unfoldable pub connect_done : Bool → Bool → TunnelConnection → TunnelConnection
unfolding end_attempt
connect_done is_made shakes_hands c = end_attempt c.connect_pending is_made shakes_hands c

-- What the callback for a frame does with the connection.
pub data Call : Type 0 where
  sends : Frame → Option ℕ → Call
  closes : Call

unfoldable pub run_call : Call → TunnelConnection → TunnelConnection
unfolding send_frame close
run_call (sends f on_sent) c = send_frame f on_sent c
run_call closes c = close c

unfoldable pub run_calls : List Call → TunnelConnection → TunnelConnection
unfolding run_call
run_calls [] c = c
run_calls (k ∷ ks) c = run_calls ks (run_call k c)

abbrev pub is_fatal : DecodeStatus → Bool
is_fatal disconnect = true
is_fatal protocol_error = true
is_fatal _ = false

module _ (reacts : Frame → List Call) where
  unfoldable pub deliver : List Frame → TunnelConnection → TunnelConnection
  unfolding perform run_calls
  deliver [] c = c
  deliver (f ∷ fs) c =
      deliver fs (if c.on_frame then run_calls (reacts f) (perform (hands_over f ∷ []) c) else c)

  unfoldable pub decoded : DecodeResult → TunnelConnection → TunnelConnection
  unfolding handle_error deliver begin_receive
  decoded result c =
      if is_fatal result.status
      then handle_error result.error c
      else begin_receive (deliver result.frames c)

  unfoldable pub read_done : ReadResult → TunnelConnection → TunnelConnection
  unfolding handle_error decoded consume
  read_done read_aborted c = c
  read_done eof c = handle_error local_peer_closed c
  read_done read_error c = handle_error internal_error c
  read_done (received bytes) c =
      let (result, decoder) = consume c.decoder bytes in
      decoded result (record c { decoder = decoder })

-- What can happen: the calls of the owner, and the ends of the operations under way.
pub data ConnectionEvent : Type 0 where
  connect_called : Bytes → ℕ → Option ℕ → ConnectionEvent
  connect_ended : Bool → Bool → ConnectionEvent
  called : Call → ConnectionEvent
  receive_begun : ConnectionEvent
  read_ended : ReadResult → ConnectionEvent
  write_ended : WriteResult → ConnectionEvent
  callbacks_set : Bool → Bool → ConnectionEvent
  tls_set : Bool → ConnectionEvent

module _ (is_address : Bytes → Bool) (reacts : Frame → List Call) where
  unfoldable pub connection_step : ConnectionEvent → TunnelConnection → TunnelConnection
  unfolding connect connect_done run_call begin_receive read_done write_done
  connection_step (connect_called host port cb) c = connect is_address host port cb c
  connection_step (connect_ended is_made shakes_hands) c = connect_done is_made shakes_hands c
  connection_step (called k) c = run_call k c
  connection_step receive_begun c = begin_receive c
  connection_step (read_ended r) c = read_done reacts r c
  connection_step (write_ended r) c = write_done r c
  connection_step (callbacks_set frame closing) c = record c {
    on_frame = frame;
    on_closed = closing;
  }
  connection_step (tls_set tls) c = record c { tls = tls }

  unfoldable pub connection_run : List ConnectionEvent → TunnelConnection → TunnelConnection
  unfolding connection_step
  connection_run [] c = c
  connection_run (e ∷ es) c = connection_run es (connection_step e c)
