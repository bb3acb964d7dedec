-- ===== src/Tunnel/Connection/Told.antt =====
-- No callback of `send_frame` is lost, or called twice, in any history of a connection.
use remote_tool.Prelude.{ℕ, ◌+◌, ◌≡◌, refl, Bool, true, List, [], ◌∷◌, Bytes, arith}
use remote_tool.Protocol.Frame.{Frame}
use remote_tool.Tunnel.Connection.State.{
  connecting, ConnectionEffect, takes, refuses, tells, writes, new_connection,
}
use remote_tool.Tunnel.Connection.Steps.{attempted, Call, ConnectionEvent, connection_run}
use remote_tool.Tunnel.Connection.Kept.{is_quiet, AllQuiet, IsKept, kept_run}
use remote_tool.Tunnel.Connection.Callbacks.{tells_that, gives_that, told, given, holders, held}
use remote_tool.Tunnel.Connection.Balance.{
  Balances, Balances-refl, Balances-trans, Balances-perform, Balances-handle_error,
  Balances-send_frame, Balances-write_done,
}

module _ (id : ℕ) where
  quiet_effect :
      (e : ConnectionEffect) → is_quiet e ≡ true → (tells_that id e ≡ 0) × (gives_that id e ≡ 0)
  quiet_effect (takes q e) h = cc
  quiet_effect (refuses cb) h = cc
  quiet_effect (tells k code) h = cc
  quiet_effect (writes q b) h = cc
  quiet_effect _ h = (refl, refl)

  quiet_effects : (es : List ConnectionEffect) → AllQuiet es → (told id es ≡ 0) × (given id es ≡ 0)
  unfolding told given
  quiet_effects [] q = (refl, refl)
  quiet_effects (e ∷ es) (h, q) =
      let (t, g) = quiet_effect e h in
      let (ts, gs) = quiet_effects es q in (omega (arith, t, ts), omega (arith, g, gs))

  Balances-IsKept : IsKept (Balances id)
  Balances-IsKept = record {
    same = Balances-refl id;
    chain = λ b c d p q. Balances-trans id p q;
    quiet = λ es q c. let (t, g) = quiet_effects es q in Balances-perform id es t g c;
    adjusts = λ decoder on_frame on_closed tls c. record { even = refl };
    errs = Balances-handle_error id;
    sends_frame = Balances-send_frame id;
    ends_write = Balances-write_done id;
    dials = λ cb c h. record { even = refl };
    misdials = λ code c h.
        let p = Balances-handle_error id code (record c { state = connecting }) in
        record { even = p.even };
    arrives = λ cb c h. record { even = refl };
    misses = λ code cb c h.
        let p = Balances-handle_error id code (attempted c) in record { even = p.even };
  }

-- In any history of a connection, and whatever its callback for frames does with it, a callback has been
-- called as often as it was given to `send_frame`, less the entries of the queues that still have it.
pub told_or_held :
    (id : ℕ) (reacts : Frame → List Call) (is_address : Bytes → Bool) (is_accepted : Bool)
    (es : List ConnectionEvent)
    → (let c = connection_run is_address reacts es (new_connection is_accepted) in
        told id c.effects + held id c ≡ given id c.effects)
unfolding told given holders
told_or_held id reacts is_address is_accepted es =
    let c = new_connection is_accepted in
    let p = kept_run (Balances id) (Balances-IsKept id) reacts is_address es c in
    omega (arith, p.even)
