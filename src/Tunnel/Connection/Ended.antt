-- ===== src/Tunnel/Connection/Ended.antt =====
-- The flow of a connection in any history, and what is told once it is no longer open.
use remote_tool.Prelude.{ℕ, ◌≡◌, refl, ap, Bool, false, List, Bytes, arith}
use remote_tool.Protocol.Frame.{Frame}
use remote_tool.Tunnel.Connection.State.{
  connecting, is_connected, TunnelConnection, new_connection, perform,
}
use remote_tool.Tunnel.Connection.Steps.{attempted, Call, ConnectionEvent, connection_run}
use remote_tool.Tunnel.Connection.Kept.{IsKept, kept_run}
use remote_tool.Tunnel.Connection.Callbacks.{told, given, holders}
use remote_tool.Tunnel.Connection.Told.{told_or_held}
use remote_tool.Tunnel.Connection.Flow.{Flows, Flows-handle_error}
use remote_tool.Tunnel.Connection.Sending.{Flows-send_frame, Flows-write_done}

unfoldable pub GoesOn : TunnelConnection → TunnelConnection → Type 0
GoesOn c d = Flows c → Flows d

pub GoesOn-IsKept : IsKept GoesOn
unfolding GoesOn perform
GoesOn-IsKept = record {
  same = λ c v. v;
  chain = λ b c d p q v. q (p v);
  quiet = λ es q c v. v;
  adjusts = λ decoder on_frame on_closed tls c v. v;
  errs = λ code c v. Flows-handle_error code c (λ d. (v.early (ground (arith, d))).1);
  sends_frame = Flows-send_frame;
  ends_write = Flows-write_done;
  dials = λ cb c h v.
      let idle = v.early (ground (arith, h)) in
      record {
        waiting = v.waiting;
        offline = λ o. idle.0;
        flying = v.flying;
        landed = λ w o. cc;
        early = λ d. idle;
        arrived = λ o. cc;
      };
  misdials = λ code c h v.
      Flows-handle_error code (record c { state = connecting })
        (λ d. (v.early (ground (arith, h))).1);
  arrives = λ cb c h v.
      let idle = v.early (ground (arith, h)) in
      record {
        waiting = v.waiting;
        offline = λ o. idle.0;
        flying = v.flying;
        landed = λ w o. idle.1;
        early = λ d. cc;
        arrived = λ o. refl;
      };
  misses = λ code cb c h v. Flows-handle_error code (attempted c) (λ d. cc);
}

pub Flows-new_connection : (is_accepted : Bool) → Flows (new_connection is_accepted)
Flows-new_connection is_accepted = record {
  waiting = λ w. (refl, refl);
  offline = λ o. refl;
  flying = λ w. cc;
  landed = λ w o. refl;
  early = λ d. (refl, refl);
  arrived = λ o. refl;
}

Flows-run :
    (reacts : Frame → List Call) (is_address : Bytes → Bool) (is_accepted : Bool)
    (es : List ConnectionEvent)
    → Flows (connection_run is_address reacts es (new_connection is_accepted))
unfolding GoesOn
Flows-run reacts is_address is_accepted es =
    kept_run GoesOn GoesOn-IsKept reacts is_address es (new_connection is_accepted)
      (Flows-new_connection is_accepted)

-- When a connection is not open at the end of a history, each callback has been called exactly as often
-- as it was given to `send_frame`: none is left in a queue.
pub told_at_end :
    (id : ℕ) (reacts : Frame → List Call) (is_address : Bytes → Bool) (is_accepted : Bool)
    (es : List ConnectionEvent)
    → is_connected (connection_run is_address reacts es (new_connection is_accepted)).state ≡ false
    → (let c = connection_run is_address reacts es (new_connection is_accepted) in
        told id c.effects ≡ given id c.effects)
unfolding holders
told_at_end id reacts is_address is_accepted es o =
    let v = Flows-run reacts is_address is_accepted es in
    let (xs, ys) = v.waiting (v.offline o) in
    let all = told_or_held id reacts is_address is_accepted es in
    omega (arith, all, ap (holders id) xs, ap (holders id) ys)
