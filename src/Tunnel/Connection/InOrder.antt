-- ===== src/Tunnel/Connection/InOrder.antt =====
-- The queues of a connection keep their order in any history.
use remote_tool.Prelude.{ℕ, ◌≡◌, refl, Bool, true, ◌||◌, Option, some, List, ◌++◌, Bytes, arith}
use remote_tool.Protocol.Frame.{Frame, FrameDecoder}
use remote_tool.Tunnel.Connection.State.{
  is_connected, is_disconnected, WriteQueue, control, session, TunnelConnection,
}
use remote_tool.Tunnel.Connection.Writes.{write_done}
use remote_tool.Tunnel.Connection.Flow.{is_dialing, Flows}
use remote_tool.Tunnel.Connection.State.{connecting, connected, new_connection}
use remote_tool.Tunnel.Connection.Steps.{attempted, Call, ConnectionEvent, connection_run}
use remote_tool.Tunnel.Connection.Kept.{adjusted, IsKept, kept_run}
use remote_tool.Tunnel.Connection.Sending.{Flows-send_frame, Flows-write_done}
use remote_tool.Tunnel.Connection.Ended.{GoesOn, GoesOn-IsKept, Flows-new_connection}
use remote_tool.Tunnel.Connection.Queues.{
  taken, started, texts, unwritten, IsInert-AllQuiet, Ends-handle_error,
}
use remote_tool.Tunnel.Connection.Order.{IsOrdered, IsOrdered-Ends}
use remote_tool.Tunnel.Connection.Order.Send.{IsOrdered-said, IsOrdered-send_frame}
use remote_tool.Tunnel.Connection.Order.Write.{IsOrdered-end_write}

IsOrdered-adjusted :
    (k : WriteQueue) (decoder : FrameDecoder) (on_frame on_closed tls : Bool) (c : TunnelConnection)
    → IsOrdered k c
    → IsOrdered k (adjusted decoder on_frame on_closed tls c)
IsOrdered-adjusted control decoder on_frame on_closed tls c s = record {
  whole = s.whole;
  fresh = s.fresh;
}
IsOrdered-adjusted session decoder on_frame on_closed tls c s = record {
  whole = s.whole;
  fresh = s.fresh;
}

IsOrdered-dials :
    (k : WriteQueue) (cb : Option ℕ) (c : TunnelConnection)
    → is_disconnected c.state ≡ true
    → IsOrdered k c
    → IsOrdered k (record c { state = connecting; connect_pending = some cb })
IsOrdered-dials k cb c h s = record { whole = λ o. cc; fresh = λ d. s.fresh (ground (arith, h)) }

-- Both queues are empty, and nothing was taken.
IsOrdered-arrives :
    (k : WriteQueue) (cb : Option ℕ) (c : TunnelConnection)
    → c.connect_pending ≡ some cb
    → Flows c
    → IsOrdered k c
    → IsOrdered k (record (attempted c) { state = connected })
unfolding texts
IsOrdered-arrives control cb c h v s =
    let late : (is_disconnected c.state || is_dialing c.connect_pending) ≡ true =
      ground (arith, h) in
    let (t, g) = s.fresh late in
    let (w, p) = v.early late in
    let (xs, ys) = v.waiting w in record { whole = λ o. rw (w, xs, t, g) refl; fresh = λ d. cc }
IsOrdered-arrives session cb c h v s =
    let late : (is_disconnected c.state || is_dialing c.connect_pending) ≡ true =
      ground (arith, h) in
    let (t, g) = s.fresh late in
    let (w, p) = v.early late in
    let (xs, ys) = v.waiting w in record { whole = λ o. rw (w, ys, t, g) refl; fresh = λ d. cc }

-- Operations keep the flow and the order.
unfoldable KeepsOrder : WriteQueue → TunnelConnection → TunnelConnection → Type 0
KeepsOrder k c d = Flows c → IsOrdered k c → Flows d × IsOrdered k d

KeepsOrder-IsKept : (k : WriteQueue) → IsKept (KeepsOrder k)
unfolding KeepsOrder GoesOn write_done
KeepsOrder-IsKept k = record {
  same = λ c v s. (v, s);
  chain = λ b c d p q v s. let (w, t) = p v s in q w t;
  quiet = λ es q c v s.
      let i = IsInert-AllQuiet k es q in
      (GoesOn-IsKept.quiet es q c v, IsOrdered-said k es c i.takes_none i.starts_none s);
  adjusts = λ decoder on_frame on_closed tls c v s.
      (v, IsOrdered-adjusted k decoder on_frame on_closed tls c s);
  errs = λ code c v s. (
    GoesOn-IsKept.errs code c v,
    IsOrdered-Ends k c c _ refl (λ d. d) s (Ends-handle_error k code c),
  );
  sends_frame = λ f cb c v s. (Flows-send_frame f cb c v, IsOrdered-send_frame k f cb c v s);
  ends_write =
      λ r c v s. (Flows-write_done r c v, IsOrdered-end_write k c.write_pending r c refl v s);
  dials = λ cb c h v s. (GoesOn-IsKept.dials cb c h v, IsOrdered-dials k cb c h s);
  misdials = λ code c h v s.
      let b = record c { state = connecting } in
      (
        GoesOn-IsKept.misdials code c h v,
        IsOrdered-Ends k b c _ refl (λ d. d) s (Ends-handle_error k code b),
      );
  arrives = λ cb c h v s. (GoesOn-IsKept.arrives cb c h v, IsOrdered-arrives k cb c h v s);
  misses = λ code cb c h v s. (
    GoesOn-IsKept.misses code cb c h v,
    IsOrdered-Ends k (attempted c) c _ refl (λ d. cc) s (Ends-handle_error k code (attempted c)),
  );
}

IsOrdered-new_connection :
    (k : WriteQueue) (is_accepted : Bool) → IsOrdered k (new_connection is_accepted)
unfolding taken started texts
IsOrdered-new_connection control is_accepted = record {
  whole = λ o. refl;
  fresh = λ d. (refl, refl);
}
IsOrdered-new_connection session is_accepted = record {
  whole = λ o. refl;
  fresh = λ d. (refl, refl);
}

-- On a connection that is open after some history, for each queue: what it took is, in this order, what
-- its writes that were started carry and then what waits in it still.
pub in_order :
    (k : WriteQueue) (reacts : Frame → List Call) (is_address : Bytes → Bool) (is_accepted : Bool)
    (es : List ConnectionEvent)
    → is_connected (connection_run is_address reacts es (new_connection is_accepted)).state ≡ true
    → (let c = connection_run is_address reacts es (new_connection is_accepted) in
        taken k c.effects ≡ started k c.effects ++ texts (unwritten k c))
unfolding KeepsOrder
in_order k reacts is_address is_accepted es o =
    let (v, s) =
      kept_run (KeepsOrder k) (KeepsOrder-IsKept k) reacts is_address es
        (new_connection is_accepted) (Flows-new_connection is_accepted)
        (IsOrdered-new_connection k is_accepted) in
    s.whole o
