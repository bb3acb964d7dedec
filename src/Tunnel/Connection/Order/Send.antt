-- ===== src/Tunnel/Connection/Order/Send.antt =====
-- `do_write` and `send_frame` keep the order of the queues.
use remote_tool.Prelude.{
  ℕ, ◌≡◌, refl, ap, sym, subst, ◌∙◌, Bool, true, false, ◌&&◌, Option, none, some, some-injective,
  List, [], ◌∷◌, ◌++◌, if◌then◌else◌, arith,
}
use remote_tool.Protocol.ErrorCode.{internal_error}
use remote_tool.Protocol.Frame.{Frame}
use remote_tool.Tunnel.Connection.State.{
  is_connected, WriteEntry, WriteQueue, control, session, ConnectionEffect, refuses,
  TunnelConnection, perform, call,
}
use remote_tool.Tunnel.Connection.Writes.{
  queue_of, next_queue, write_front, do_write, enqueue, send_entry, send_frame,
}
use remote_tool.Tunnel.Connection.Flow.{is_dialing, pick, Flows, queue_of-pick, queue_of-perform}
use remote_tool.Tunnel.Connection.State.{refuses}
use remote_tool.Tunnel.Connection.Sending.{Alike, Alike-enqueue}
use remote_tool.Tunnel.Connection.Queues.{
  taken, started, texts, captured, unwritten, IsInert-call, Follows, Follows-perform,
}
use remote_tool.Tunnel.Connection.Order.{
  IsOrdered, IsFull, Settles, Settles-enqueue, Settles-write_front,
}

IsOrdered-if :
    (k : WriteQueue) (b : Bool) (c d : TunnelConnection)
    → (b ≡ true → IsOrdered k c)
    → (b ≡ false → IsOrdered k d)
    → IsOrdered k (if b then c else d)
IsOrdered-if k true c d p q = p refl
IsOrdered-if k false c d p q = q refl

-- On an open connection the order of the queue is all there is.
open_order :
    (k : WriteQueue) (c d : TunnelConnection)
    → Alike c d
    → is_connected c.state ≡ true
    → is_dialing c.connect_pending ≡ false
    → taken k d.effects ≡ started k d.effects ++ texts (unwritten k d)
    → IsOrdered k d
open_order k c d a o n w = record {
  whole = λ p. w;
  fresh = λ h. absurd (ground (arith, h, o, n, a.state, a.dialing));
}

Alike-write_front :
    (q : WriteQueue) (es : List WriteEntry) (c d : TunnelConnection)
    → d.state ≡ c.state
    → d.connect_pending ≡ c.connect_pending
    → ((write_front q es d).state ≡ c.state)
      × ((write_front q es d).connect_pending ≡ c.connect_pending)
unfolding write_front perform
Alike-write_front q [] c d s n = (s, n)
Alike-write_front q (e ∷ es) c d s n = (s, n)

pub IsOrdered-do_write :
    (k : WriteQueue) (c d : TunnelConnection)
    → Alike c d
    → is_connected c.state ≡ true
    → is_dialing c.connect_pending ≡ false
    → Settles k false d
    → IsOrdered k (do_write d)
unfolding do_write
IsOrdered-do_write k c d a o n s =
    let q = next_queue d.control_queue in
    let (st, dl) = Alike-write_front q (queue_of q d) c d a.state a.dialing in
    record {
      whole = λ p. Settles-write_front k q (queue_of q d) d refl s;
      fresh = λ h. absurd (ground (arith, h, o, n, st, dl));
    }

captured_is : (k : WriteQueue) (p : Option WriteQueue) → captured k p ≡ true → p ≡ some k
captured_is control (some control) h = refl
captured_is session (some session) h = refl
captured_is control (some session) h = cc
captured_is session (some control) h = cc
captured_is k none h = cc

-- The queue whose front is being written has an entry.
IsFull-unwritten :
    (k : WriteQueue) (c : TunnelConnection)
    → Flows c
    → IsFull (c.writing && captured k c.write_pending) (queue_of k c)
IsFull-unwritten k c v h =
    let w : c.writing ≡ true = ground (arith, h) in
    let y : captured k c.write_pending ≡ true = ground (arith, h) in
    let (q, e, es, p, z) = v.flying w in
    let same : q ≡ k = some-injective (sym p ∙ captured_is k c.write_pending y) in
    (e, es, queue_of-pick k c ∙ ap (λ l. pick l c.control_queue c.data_queue) (sym same) ∙ z)

unwritten-enqueue :
    (k q : WriteQueue) (e : WriteEntry) (c : TunnelConnection)
    → ((enqueue q e c).writing ≡ c.writing) × ((enqueue q e c).write_pending ≡ c.write_pending)
unfolding enqueue perform
unwritten-enqueue k control e c = (refl, refl)
unwritten-enqueue k session e c = (refl, refl)

IsOrdered-send_entry :
    (k q : WriteQueue) (e : WriteEntry) (c : TunnelConnection)
    → is_connected c.state ≡ true
    → Flows c
    → IsOrdered k c
    → IsOrdered k (send_entry q e c)
unfolding send_entry
IsOrdered-send_entry k q e c o v s =
    let d = enqueue q e c in
    let a = Alike-enqueue q e c in
    let b = c.writing && captured k c.write_pending in
    let (w, p) = unwritten-enqueue k q e c in
    IsOrdered-if k c.writing d (do_write d)
      (λ h.
        open_order k c d a o (v.arrived o)
          (rw (w, p) (Settles-enqueue k q e c b (IsFull-unwritten k c v) (s.whole o))))
      (λ h. IsOrdered-do_write k c d a o (v.arrived o) (
        Settles-enqueue k q e c false (λ f. cc)
          (subst (λ w. Settles k (w && captured k c.write_pending) c) h (s.whole o))))

pub IsOrdered-said :
    (k : WriteQueue) (es : List ConnectionEffect) (c : TunnelConnection)
    → taken k es ≡ []
    → started k es ≡ []
    → IsOrdered k c
    → IsOrdered k (perform es c)
unfolding perform
IsOrdered-said k es c t g s =
    let unchanged : Follows k c c = record { took = refl; began = refl } in
    let f = Follows-perform k es (record { takes_none = t; starts_none = g }) c c unchanged in
    record {
      whole = λ o.
          rw (queue_of-perform k es c)
            (f.took ∙ s.whole o ∙ ap (λ l. l ++ texts (unwritten k c)) (sym f.began));
      fresh = λ h. let (x, y) = s.fresh h in (f.took ∙ x, f.began ∙ y);
    }

pub IsOrdered-send_frame :
    (k : WriteQueue) (f : Frame) (on_sent : Option ℕ) (c : TunnelConnection)
    → Flows c
    → IsOrdered k c
    → IsOrdered k (send_frame f on_sent c)
unfolding send_frame taken started
IsOrdered-send_frame k f on_sent c v s =
    let i = IsInert-call k on_sent internal_error in
    IsOrdered-if k (is_connected c.state) _ _ (λ o. IsOrdered-send_entry k _ _ c o v s)
      (λ o.
        IsOrdered-said k (refuses on_sent ∷ call on_sent internal_error) c i.takes_none
          i.starts_none s)
