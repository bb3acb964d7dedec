-- ===== src/Tunnel/Connection/Balance.antt =====
-- Every operation of a connection calls, holds or was given a callback of `send_frame`, and loses none.
use remote_tool.Prelude.{
  ℕ, ◌+◌, ◌≡◌, refl, ap, Bool, true, false, Option, none, some, List, [], ◌∷◌, ◌++◌, if◌then◌else◌,
  arith,
}
use remote_tool.Protocol.ErrorCode.{ErrorCode, internal_error, normal}
use remote_tool.Protocol.Frame.{Frame, reset}
use remote_tool.Session.Manager.Local.{WriteResult, written, write_aborted, write_error}
use remote_tool.Tunnel.Connection.State.{
  is_connected, is_down, WriteEntry, WriteQueue, control, session, ConnectionEffect, takes, refuses,
  tells_connect, tells_closed, closes_socket, writes, TunnelConnection, perform, call, call_connect,
  drain, close_socket, drained, fire_on_closed, handle_error, close,
}
use remote_tool.Tunnel.Connection.Writes.{
  queue_of, with_queue, write_front, do_write, popped, end_write, write_done, enqueue, send_entry,
  send_frame,
}
use remote_tool.Tunnel.Connection.Flow.{queue_of-perform}
use remote_tool.Tunnel.Connection.Callbacks.{
  told, given, holders, held, told-append, given-append, holders-append, told-call, given-call,
  told-drain, given-drain,
}

-- Between two states as many callbacks are given as are called or newly held.
pub record Balances (id : ℕ) (c d : TunnelConnection) : Type 0 where
  pub even :
      told id d.effects + held id d + given id c.effects
      ≡ told id c.effects + held id c + given id d.effects

module _ (id : ℕ) where
  pub Balances-refl : (c : TunnelConnection) → Balances id c c
  Balances-refl c = record { even = refl }

  pub Balances-trans :
      {b c d : TunnelConnection} → Balances id b c → Balances id c d → Balances id b d
  Balances-trans p q = record { even = omega (arith, p.even, q.even) }

  pub Balances-test :
      {c d e : TunnelConnection} (b : Bool)
      → Balances id c d
      → Balances id c e
      → Balances id c (if b then d else e)
  Balances-test true p q = p
  Balances-test false p q = q

  Balances-by :
      (es : List ConnectionEffect) (c d : TunnelConnection)
      → d.effects ≡ c.effects ++ es
      → told id es + held id d ≡ held id c + given id es
      → Balances id c d
  Balances-by es c d e p = record {
    even = omega (
      arith,
      ap (told id) e,
      ap (given id) e,
      told-append id c.effects es,
      given-append id c.effects es,
      p,
    );
  }

  -- Effects that are no such calls.
  pub Balances-perform :
      (es : List ConnectionEffect)
      → told id es ≡ 0
      → given id es ≡ 0
      → (c : TunnelConnection) → Balances id c (perform es c)
  unfolding perform
  Balances-perform es p q c = Balances-by es c (perform es c) refl (omega (arith, p, q))

  pub Balances-call_connect :
      (cb : Option ℕ) (code : ErrorCode) (c : TunnelConnection)
      → Balances id c (perform (call_connect cb code) c)
  unfolding told given
  Balances-call_connect none code c = Balances-perform [] refl refl c
  Balances-call_connect (some k) code c = Balances-perform (tells_connect k code ∷ []) refl refl c

  Balances-fire_on_closed :
      (code : ErrorCode) (c : TunnelConnection) → Balances id c (fire_on_closed code c)
  unfolding fire_on_closed told given
  Balances-fire_on_closed code c =
      let fires = Balances-perform (tells_closed code ∷ []) refl refl c in
      Balances-test c.on_closed (record { even = fires.even }) (Balances-refl c)

  Balances-drained : (code : ErrorCode) (c : TunnelConnection) → Balances id c (drained code c)
  unfolding drained perform holders
  Balances-drained code c =
      let xs = drain code c.control_queue in
      let ys = drain code c.data_queue in
      Balances-by (xs ++ ys) c (drained code c) refl (
        omega (
          arith,
          told-append id xs ys,
          given-append id xs ys,
          told-drain id code c.control_queue,
          told-drain id code c.data_queue,
          given-drain id code c.control_queue,
          given-drain id code c.data_queue,
        ))

  pub Balances-handle_error :
      (code : ErrorCode) (c : TunnelConnection) → Balances id c (handle_error code c)
  unfolding handle_error close_socket told given
  Balances-handle_error code c =
      let d = drained code c in
      let r = record d { decoder = reset d.decoder } in
      let down = Balances-drained code c in
      let fired = Balances-trans (record { even = down.even }) (Balances-fire_on_closed code r) in
      Balances-trans (Balances-test (is_down c.state) down fired)
        (Balances-perform (closes_socket ∷ []) refl refl _)

  pub Balances-close : (c : TunnelConnection) → Balances id c (close c)
  unfolding close
  Balances-close c =
      Balances-test (is_down c.state) (Balances-refl c) (Balances-handle_error normal c)

  Balances-write_front :
      (q : WriteQueue) (es : List WriteEntry) (c : TunnelConnection)
      → Balances id c (write_front q es c)
  unfolding write_front told given
  Balances-write_front q [] c = record { even = refl }
  Balances-write_front q (e ∷ es) c =
      let p = Balances-perform (writes q e.data_bytes ∷ []) refl refl c in record { even = p.even }

  Balances-do_write : (c : TunnelConnection) → Balances id c (do_write c)
  unfolding do_write
  Balances-do_write c = Balances-write_front _ _ c

  -- How many hold it after a change of one queue.
  held-with_queue :
      (q : WriteQueue) (es : List WriteEntry) (c : TunnelConnection)
      → held id (with_queue q es c) + holders id (queue_of q c) ≡ held id c + holders id es
  held-with_queue control es c = omega arith
  held-with_queue session es c = omega arith

  effects-with_queue :
      (q : WriteQueue) (es : List WriteEntry) (c : TunnelConnection)
      → (with_queue q es c).effects ≡ c.effects
  effects-with_queue control es c = refl
  effects-with_queue session es c = refl

  -- The front of a queue is told.
  Balances-told :
      (q : WriteQueue) (e : WriteEntry) (es : List WriteEntry) (code : ErrorCode)
      (c : TunnelConnection)
      → queue_of q c ≡ e ∷ es
      → Balances id c (perform (call e.callback code) (with_queue q es c))
  unfolding perform holders
  Balances-told q e es code c h =
      let said = call e.callback code in
      Balances-by said c _ (ap (λ xs. xs ++ said) (effects-with_queue q es c)) (
        omega (
          arith,
          told-call id e.callback code,
          given-call id e.callback code,
          held-with_queue q es c,
          ap (holders id) h,
        ))

  Balances-enqueue :
      (q : WriteQueue) (e : WriteEntry) (c : TunnelConnection) → Balances id c (enqueue q e c)
  unfolding enqueue perform told given holders
  Balances-enqueue q e c =
      let taken = takes q e ∷ [] in
      let queue = queue_of q c in
      Balances-by taken c (enqueue q e c) (effects-with_queue q (queue ++ e ∷ []) (perform taken c))
        (omega (
          arith,
          holders-append id queue (e ∷ []),
          held-with_queue q (queue ++ e ∷ []) (perform taken c),
          ap (holders id) (queue_of-perform q taken c),
        ))

  Balances-send_entry :
      (q : WriteQueue) (e : WriteEntry) (c : TunnelConnection) → Balances id c (send_entry q e c)
  unfolding send_entry
  Balances-send_entry q e c =
      let queued = Balances-enqueue q e c in
      Balances-test c.writing queued (Balances-trans queued (Balances-do_write _))

  pub Balances-send_frame :
      (f : Frame) (on_sent : Option ℕ) (c : TunnelConnection)
      → Balances id c (send_frame f on_sent c)
  unfolding send_frame perform told given
  Balances-send_frame f on_sent c =
      let said = call on_sent internal_error in
      Balances-test (is_connected c.state) (Balances-send_entry _ _ c) (
        Balances-by (refuses on_sent ∷ said) c _ refl (
          omega (arith, told-call id on_sent internal_error, given-call id on_sent internal_error)))

  Balances-popped :
      (q : WriteQueue) (es : List WriteEntry) (r : WriteResult) (c : TunnelConnection)
      → queue_of q c ≡ es
      → Balances id c (popped q es r c)
  unfolding popped
  Balances-popped q [] r c h = record { even = refl }
  Balances-popped q (e ∷ es) written c h =
      Balances-trans (Balances-told q e es ErrorCode.ok c h) (Balances-do_write _)
  Balances-popped q (e ∷ es) write_aborted c h =
      Balances-trans (Balances-told q e es internal_error c h) (Balances-handle_error _ _)
  Balances-popped q (e ∷ es) write_error c h =
      Balances-trans (Balances-told q e es internal_error c h) (Balances-handle_error _ _)

  queue_of-pending :
      (q : WriteQueue) (c : TunnelConnection)
      → queue_of q (record c { write_pending = none }) ≡ queue_of q c
  queue_of-pending control c = refl
  queue_of-pending session c = refl

  Balances-end_write :
      (p : Option WriteQueue) (r : WriteResult) (c : TunnelConnection)
      → Balances id c (end_write p r c)
  unfolding end_write
  Balances-end_write none r c = Balances-refl c
  Balances-end_write (some q) r c =
      let p = Balances-popped q _ r (record c { write_pending = none }) (queue_of-pending q c) in
      record { even = p.even }

  pub Balances-write_done :
      (r : WriteResult) (c : TunnelConnection) → Balances id c (write_done r c)
  unfolding write_done
  Balances-write_done r c = Balances-end_write c.write_pending r c
