-- ===== src/Tunnel/Connection/Order/Write.antt =====
-- The handler of a write keeps the order of the queues.
use remote_tool.Prelude.{
  ℕ, ◌≡◌, refl, ap, subst, ◌∙◌, true, false, ◌&&◌, Option, none, some, List, [], ◌∷◌, ◌++◌, arith,
}
use remote_tool.Protocol.ErrorCode.{ErrorCode, internal_error}
use remote_tool.Session.Manager.Local.{WriteResult, written, write_aborted, write_error}
use remote_tool.Tunnel.Connection.State.{
  is_connected, WriteEntry, WriteQueue, control, session, ConnectionEffect, TunnelConnection,
  perform, call, handle_error,
}
use remote_tool.Tunnel.Connection.Writes.{queue_of, with_queue, popped, end_write}
use remote_tool.Tunnel.Connection.Flow.{Flows}
use remote_tool.Tunnel.Connection.Sending.{Alike-told, handled, not_writing, writing_on}
use remote_tool.Tunnel.Connection.Queues.{
  taken, started, texts, rest, captured, IsInert-call, Ends-handle_error,
}
use remote_tool.Tunnel.Connection.Order.{IsOrdered, IsOrdered-Ends, Settles, Settles-call}
use remote_tool.Tunnel.Connection.Order.Send.{IsOrdered-do_write, IsOrdered-said}

-- Once the front of the queue that was written is off, the order of each queue is all there is.
Settles-handled :
    (k q : WriteQueue) (e : WriteEntry) (es : List WriteEntry) (c : TunnelConnection)
    → c.writing ≡ true
    → c.write_pending ≡ some q
    → queue_of q c ≡ e ∷ es
    → Settles k (c.writing && captured k c.write_pending) c
    → Settles k false (with_queue q es (handled c))
Settles-handled control control e es c w y h s =
    let b : (c.writing && captured control c.write_pending) ≡ true = ground (arith, w, y) in
    subst (λ l. taken control c.effects ≡ started control c.effects ++ texts (rest l)) h
      (subst (λ t. Settles control t c) b s)
Settles-handled session session e es c w y h s =
    let b : (c.writing && captured session c.write_pending) ≡ true = ground (arith, w, y) in
    subst (λ l. taken session c.effects ≡ started session c.effects ++ texts (rest l)) h
      (subst (λ t. Settles session t c) b s)
Settles-handled control session e es c w y h s =
    let b : (c.writing && captured control c.write_pending) ≡ false = ground (arith, w, y) in
    subst (λ t. Settles control t c) b s
Settles-handled session control e es c w y h s =
    let b : (c.writing && captured session c.write_pending) ≡ false = ground (arith, w, y) in
    subst (λ t. Settles session t c) b s

effects-handled :
    (q : WriteQueue) (es : List WriteEntry) (said : List ConnectionEffect) (c : TunnelConnection)
    → (perform said (with_queue q es (handled c))).effects ≡ (perform said c).effects
unfolding perform
effects-handled control es said c = refl
effects-handled session es said c = refl

queue_of-stopped :
    (k : WriteQueue) (c : TunnelConnection)
    → queue_of k c ≡ queue_of k (record (handled c) { writing = false })
queue_of-stopped control c = refl
queue_of-stopped session c = refl

IsOrdered-failed :
    (k q : WriteQueue) (es : List WriteEntry) (cb : Option ℕ) (c : TunnelConnection)
    → IsOrdered k c
    → IsOrdered k (
        handle_error internal_error
          (perform (call cb internal_error) (with_queue q es (handled c))))
unfolding perform
IsOrdered-failed k q es cb c s =
    let i = IsInert-call k cb internal_error in
    let t = IsOrdered-said k (call cb internal_error) c i.takes_none i.starts_none s in
    let b = perform (call cb internal_error) (with_queue q es (handled c)) in
    let a = Alike-told q es (call cb internal_error) (handled c) in
    IsOrdered-Ends k b (perform (call cb internal_error) c) _
      (effects-handled q es (call cb internal_error) c) (λ d. ground (arith, d, a.dialing)) t
      (Ends-handle_error k internal_error b)

IsOrdered-popped :
    (k q : WriteQueue) (es : List WriteEntry) (r : WriteResult) (c : TunnelConnection)
    → c.write_pending ≡ some q
    → queue_of q c ≡ es
    → Flows c
    → IsOrdered k c
    → IsOrdered k (popped q es r (handled c))
unfolding popped
IsOrdered-popped k q [] r c y h v s =
    let w = not_writing q c y h v in
    record {
      whole = λ o.
          subst (λ b. Settles k (b && captured k c.write_pending) c) w (s.whole o)
          ∙ ap (λ l. started k c.effects ++ texts l) (queue_of-stopped k c);
      fresh = s.fresh;
    }
IsOrdered-popped k q (e ∷ es) written c y h v s =
    let w = writing_on q e es c h v in
    let o : is_connected c.state ≡ true = ground (arith, w, v.offline) in
    let said = call e.callback ErrorCode.ok in
    IsOrdered-do_write k (handled c) _ (Alike-told q es said (handled c)) o (v.arrived o) (
      Settles-call k false e.callback ErrorCode.ok (with_queue q es (handled c))
        (Settles-handled k q e es c w y h (s.whole o)))
IsOrdered-popped k q (e ∷ es) write_aborted c y h v s = IsOrdered-failed k q es e.callback c s
IsOrdered-popped k q (e ∷ es) write_error c y h v s = IsOrdered-failed k q es e.callback c s

pub IsOrdered-end_write :
    (k : WriteQueue) (p : Option WriteQueue) (r : WriteResult) (c : TunnelConnection)
    → c.write_pending ≡ p
    → Flows c
    → IsOrdered k c
    → IsOrdered k (end_write p r c)
unfolding end_write
IsOrdered-end_write k none r c y v s = s
IsOrdered-end_write k (some q) r c y v s = IsOrdered-popped k q (queue_of q c) r c y refl v s
