-- ===== src/Tunnel/Connection/Kept.antt =====
-- What holds of every step of a connection, from what holds of its parts.
use remote_tool.Prelude.{
  ℕ, ◌≡◌, refl, Bool, true, false, not, ◌&&◌, ◌||◌, Option, none, some, List, [], ◌∷◌, Bytes,
  if◌then◌else◌, All, arith,
}
use remote_tool.Protocol.ErrorCode.{ErrorCode, internal_error, local_peer_closed, normal}
use remote_tool.Protocol.Frame.{Frame, FrameDecoder, consume}
use remote_tool.Session.Manager.Local.{
  ReadResult, received, eof, read_aborted, read_error, WriteResult,
}
use remote_tool.Tunnel.Connection.State.{
  connecting, connected, is_connected, is_disconnected, is_down, ConnectionEffect, takes, refuses,
  tells, tells_connect, writes, reads, connects, hands_over, TunnelConnection, perform,
  call_connect, handle_error, close,
}
use remote_tool.Tunnel.Connection.Writes.{write_done, send_frame}
use remote_tool.Tunnel.Connection.Steps.{
  do_read, begin_receive, connect_failed, connect, attempted, end_attempt, connect_done, Call,
  sends, closes, run_call, run_calls, is_fatal, deliver, decoded, read_done, ConnectionEvent,
  connect_called, connect_ended, called, receive_begun, read_ended, write_ended, callbacks_set,
  tls_set, connection_step, connection_run,
}

-- Not about the queues, nor about a callback of `send_frame`.
abbrev pub is_quiet : ConnectionEffect → Bool
is_quiet (takes q e) = false
is_quiet (refuses cb) = false
is_quiet (tells id code) = false
is_quiet (writes q b) = false
is_quiet _ = true

abbrev pub AllQuiet : List ConnectionEffect → Type 0
AllQuiet es = All (λ e. is_quiet e ≡ true) es

-- A change of the decoder, the callbacks and the use of TLS.
abbrev pub adjusted : FrameDecoder → Bool → Bool → Bool → TunnelConnection → TunnelConnection
adjusted decoder on_frame on_closed tls c = record c {
  decoder = decoder;
  on_frame = on_frame;
  on_closed = on_closed;
  tls = tls;
}

-- A relation that every part of a step keeps.
pub record IsKept (R : TunnelConnection → TunnelConnection → Type 0) : Type 0 where
  pub same : (c : TunnelConnection) → R c c
  pub chain : (b c d : TunnelConnection) → R b c → R c d → R b d
  pub quiet :
      (es : List ConnectionEffect) → AllQuiet es → (c : TunnelConnection) → R c (perform es c)
  pub adjusts :
      (decoder : FrameDecoder) (on_frame on_closed tls : Bool) (c : TunnelConnection)
      → R c (adjusted decoder on_frame on_closed tls c)
  pub errs : (code : ErrorCode) (c : TunnelConnection) → R c (handle_error code c)
  pub sends_frame :
      (f : Frame) (on_sent : Option ℕ) (c : TunnelConnection) → R c (send_frame f on_sent c)
  pub ends_write : (r : WriteResult) (c : TunnelConnection) → R c (write_done r c)
  pub dials :
      (cb : Option ℕ) (c : TunnelConnection)
      → is_disconnected c.state ≡ true
      → R c (record c { state = connecting; connect_pending = some cb })
  pub misdials :
      (code : ErrorCode) (c : TunnelConnection)
      → is_disconnected c.state ≡ true
      → R c (handle_error code (record c { state = connecting }))
  pub arrives :
      (cb : Option ℕ) (c : TunnelConnection)
      → c.connect_pending ≡ some cb
      → R c (record (attempted c) { state = connected })
  pub misses :
      (code : ErrorCode) (cb : Option ℕ) (c : TunnelConnection)
      → c.connect_pending ≡ some cb
      → R c (handle_error code (attempted c))

module _ (R : TunnelConnection → TunnelConnection → Type 0) (k : IsKept R) where
  kept_if :
      (b : Bool) (c d e : TunnelConnection)
      → (b ≡ true → R c d)
      → (b ≡ false → R c e)
      → R c (if b then d else e)
  kept_if true c d e p q = p refl
  kept_if false c d e p q = q refl

  kept_call_connect :
      (cb : Option ℕ) (code : ErrorCode) (b c : TunnelConnection)
      → R b c
      → R b (perform (call_connect cb code) c)
  kept_call_connect none code b c p = k.chain b c _ p (k.quiet [] tt c)
  kept_call_connect (some id) code b c p =
      k.chain b c _ p (k.quiet (tells_connect id code ∷ []) (refl, tt) c)

  kept_begin_receive : (c : TunnelConnection) → R c (begin_receive c)
  unfolding begin_receive do_read
  kept_begin_receive c =
      kept_if (is_connected c.state) c (do_read c) c (λ b. k.quiet (reads ∷ []) (refl, tt) c)
        (λ b. k.same c)

  kept_connect :
      (is_address : Bytes → Bool) (host : Bytes) (port : ℕ) (cb : Option ℕ) (c : TunnelConnection)
      → R c (connect is_address host port cb c)
  unfolding connect connect_failed perform
  kept_connect is_address host port cb c =
      let dialed = connects host port ∷ [] in
      kept_if (not (is_disconnected c.state)) c _ _
        (λ b. kept_call_connect cb internal_error c c (k.same c))
        λ b.
          let off : is_disconnected c.state ≡ true = ground (arith, b) in
          kept_if (is_address host) c _ _
            (λ a.
              k.chain c (perform dialed c) _ (k.quiet dialed (refl, tt) c)
                (k.dials cb (perform dialed c) off))
            (λ a. kept_call_connect cb internal_error c _ (k.misdials internal_error c off))

  kept_end_attempt :
      (p : Option (Option ℕ)) (is_made shakes_hands : Bool) (c : TunnelConnection)
      → c.connect_pending ≡ p
      → R c (end_attempt p is_made shakes_hands c)
  unfolding end_attempt connect_failed do_read
  kept_end_attempt none is_made shakes_hands c y = k.same c
  kept_end_attempt (some cb) is_made shakes_hands c y =
      let made = record (attempted c) { state = connected } in
      kept_if (not is_made || (c.tls && not shakes_hands)) c _ _
        (λ b. kept_call_connect cb internal_error c _ (k.misses internal_error cb c y))
        (λ b.
          k.chain c (perform (call_connect cb ErrorCode.ok) made) _
            (kept_call_connect cb ErrorCode.ok c made (k.arrives cb c y))
            (k.quiet (reads ∷ []) (refl, tt) _))

  kept_run_call : (a : Call) (c : TunnelConnection) → R c (run_call a c)
  unfolding run_call close
  kept_run_call (sends f on_sent) c = k.sends_frame f on_sent c
  kept_run_call closes c =
      kept_if (is_down c.state) c c (handle_error normal c) (λ b. k.same c) (λ b. k.errs normal c)

  kept_run_calls : (ks : List Call) (c : TunnelConnection) → R c (run_calls ks c)
  unfolding run_calls
  kept_run_calls [] c = k.same c
  kept_run_calls (a ∷ ks) c =
      k.chain c (run_call a c) _ (kept_run_call a c) (kept_run_calls ks (run_call a c))

  module _ (reacts : Frame → List Call) where
    kept_deliver : (fs : List Frame) (c : TunnelConnection) → R c (deliver reacts fs c)
    unfolding deliver
    kept_deliver [] c = k.same c
    kept_deliver (f ∷ fs) c =
        let handed = perform (hands_over f ∷ []) c in
        let reacted = run_calls (reacts f) handed in
        k.chain c (if c.on_frame then reacted else c) _
          (kept_if c.on_frame c reacted c
            (λ b.
              k.chain c handed reacted (k.quiet (hands_over f ∷ []) (refl, tt) c)
                (kept_run_calls (reacts f) handed))
            (λ b. k.same c))
          (kept_deliver fs _)

    kept_read_done : (r : ReadResult) (c : TunnelConnection) → R c (read_done reacts r c)
    unfolding read_done decoded
    kept_read_done read_aborted c = k.same c
    kept_read_done eof c = k.errs local_peer_closed c
    kept_read_done read_error c = k.errs internal_error c
    kept_read_done (received bytes) c =
        let (result, decoder) = consume c.decoder bytes in
        let read = adjusted decoder c.on_frame c.on_closed c.tls c in
        let after = deliver reacts result.frames read in
        k.chain c read _ (k.adjusts decoder c.on_frame c.on_closed c.tls c) (
          kept_if (is_fatal result.status) read _ _ (λ b. k.errs result.error read)
            (λ b.
              k.chain read after _ (kept_deliver result.frames read) (kept_begin_receive after)))

    module _ (is_address : Bytes → Bool) where
      kept_step :
          (e : ConnectionEvent) (c : TunnelConnection) → R c (connection_step is_address reacts e c)
      unfolding connection_step connect_done
      kept_step (connect_called host port cb) c = kept_connect is_address host port cb c
      kept_step (connect_ended is_made shakes_hands) c =
          kept_end_attempt c.connect_pending is_made shakes_hands c refl
      kept_step (called a) c = kept_run_call a c
      kept_step receive_begun c = kept_begin_receive c
      kept_step (read_ended r) c = kept_read_done r c
      kept_step (write_ended r) c = k.ends_write r c
      kept_step (callbacks_set frame closing) c = k.adjusts c.decoder frame closing c.tls c
      kept_step (tls_set tls) c = k.adjusts c.decoder c.on_frame c.on_closed tls c

      pub kept_run :
          (es : List ConnectionEvent) (c : TunnelConnection)
          → R c (connection_run is_address reacts es c)
      unfolding connection_run
      kept_run [] c = k.same c
      kept_run (e ∷ es) c =
          k.chain c (connection_step is_address reacts e c) _ (kept_step e c) (kept_run es _)
