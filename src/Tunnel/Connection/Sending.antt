-- ===== src/Tunnel/Connection/Sending.antt =====
-- `send_frame` and the handler of a write keep the flow of a connection.
use remote_tool.Prelude.{
  ℕ, ◌≡◌, refl, ap, sym, ◌∙◌, true, false, Option, none, some, List, [], ◌∷◌, ◌++◌, Bool-cases,
  some-injective, inl, inr, arith,
}
use remote_tool.Protocol.ErrorCode.{ErrorCode, internal_error}
use remote_tool.Protocol.Frame.{Frame}
use remote_tool.Session.Manager.Local.{WriteResult, written, write_aborted, write_error}
use remote_tool.Tunnel.Connection.State.{
  is_connected, WriteEntry, WriteQueue, control, session, ConnectionEffect, TunnelConnection,
  perform, call,
}
use remote_tool.Tunnel.Connection.Writes.{
  queue_of, with_queue, do_write, popped, end_write, write_done, enqueue, send_entry, send_frame,
}
use remote_tool.Tunnel.Connection.Flow.{
  is_dialing, pick, Flies, Flows, Flows-test, Flows-handle_error, queue_of-pick, Flows-do_write,
}

module _ (e : WriteEntry) (xs ys : List WriteEntry) (p : Option WriteQueue) where
  Flies-control : Flies xs ys p → Flies (xs ++ e ∷ []) ys p
  Flies-control (control, x, rest, y, z) = (control, x, rest ++ e ∷ [], y, ap (λ l. l ++ e ∷ []) z)
  Flies-control (session, x, rest, y, z) = (session, x, rest, y, z)

  Flies-session : Flies xs ys p → Flies xs (ys ++ e ∷ []) p
  Flies-session (control, x, rest, y, z) = (control, x, rest, y, z)
  Flies-session (session, x, rest, y, z) = (session, x, rest ++ e ∷ [], y, ap (λ l. l ++ e ∷ []) z)

-- A new entry while a write is under way.
Flows-enqueue :
    (q : WriteQueue) (e : WriteEntry) (c : TunnelConnection)
    → c.writing ≡ true
    → Flows c
    → Flows (enqueue q e c)
unfolding enqueue perform
Flows-enqueue control e c b v = record {
  waiting = λ w. cc (w, b);
  offline = v.offline;
  flying = λ w. Flies-control e c.control_queue c.data_queue c.write_pending (v.flying w);
  landed = v.landed;
  early = v.early;
  arrived = v.arrived;
}
Flows-enqueue session e c b v = record {
  waiting = λ w. cc (w, b);
  offline = v.offline;
  flying = λ w. Flies-session e c.control_queue c.data_queue c.write_pending (v.flying w);
  landed = v.landed;
  early = v.early;
  arrived = v.arrived;
}

-- What `with_queue` and `perform` leave.
pub record Alike (c d : TunnelConnection) : Type 0 where
  pub state : d.state ≡ c.state
  pub pending : d.write_pending ≡ c.write_pending
  pub dialing : d.connect_pending ≡ c.connect_pending

pub Alike-enqueue :
    (q : WriteQueue) (e : WriteEntry) (c : TunnelConnection) → Alike c (enqueue q e c)
unfolding enqueue perform
Alike-enqueue control e c = record { state = refl; pending = refl; dialing = refl }
Alike-enqueue session e c = record { state = refl; pending = refl; dialing = refl }

pub Alike-told :
    (q : WriteQueue) (es : List WriteEntry) (said : List ConnectionEffect) (c : TunnelConnection)
    → Alike c (perform said (with_queue q es c))
unfolding perform
Alike-told control es said c = record { state = refl; pending = refl; dialing = refl }
Alike-told session es said c = record { state = refl; pending = refl; dialing = refl }

Flows-do_write_after :
    (c d : TunnelConnection)
    → Alike c d
    → c.write_pending ≡ none
    → is_connected c.state ≡ true
    → is_dialing c.connect_pending ≡ false
    → Flows (do_write d)
Flows-do_write_after c d a p o n =
    Flows-do_write d (a.pending ∙ p) (ap is_connected a.state ∙ o) (ap is_dialing a.dialing ∙ n)

Flows-send_entry :
    (q : WriteQueue) (e : WriteEntry) (c : TunnelConnection)
    → is_connected c.state ≡ true
    → Flows c
    → Flows (send_entry q e c)
unfolding send_entry
Flows-send_entry q e c o v =
    Flows-test c.writing _ _ (λ b. Flows-enqueue q e c b v)
      λ b.
        Flows-do_write_after c (enqueue q e c) (Alike-enqueue q e c) (v.landed b o) o (v.arrived o)

pub Flows-send_frame :
    (f : Frame) (on_sent : Option ℕ) (c : TunnelConnection)
    → Flows c
    → Flows (send_frame f on_sent c)
unfolding send_frame perform
Flows-send_frame f on_sent c v =
    Flows-test (is_connected c.state) _ _ (λ o. Flows-send_entry _ _ c o v) (λ o. v)

-- A handler whose queue has an entry runs on an open connection.
pub writing_on :
    (q : WriteQueue) (e : WriteEntry) (es : List WriteEntry) (c : TunnelConnection)
    → queue_of q c ≡ e ∷ es
    → Flows c
    → c.writing ≡ true
writing_on control e es c h v = elim (Bool-cases c.writing) [
  | inl b ↦ b
  | inr b ↦ cc (h, (v.waiting b).0)
]
writing_on session e es c h v = elim (Bool-cases c.writing) [
  | inl b ↦ b
  | inr b ↦ cc (h, (v.waiting b).1)
]

abbrev pub handled : TunnelConnection → TunnelConnection
handled c = record c { write_pending = none }

-- The handler finds an empty queue only where no write is under way.
pub not_writing :
    (q : WriteQueue) (c : TunnelConnection)
    → c.write_pending ≡ some q
    → queue_of q c ≡ []
    → Flows c
    → c.writing ≡ false
not_writing q c y h v = elim (Bool-cases c.writing) [
  | inr b ↦ b
  | inl b ↦
      let (k, e, es, p, z) = v.flying b in
      let same : q ≡ k = some-injective (sym y ∙ p) in
      cc (sym h ∙ queue_of-pick q c ∙ ap (λ l. pick l c.control_queue c.data_queue) same ∙ z)
]

Flows-popped :
    (q : WriteQueue) (es : List WriteEntry) (r : WriteResult) (c : TunnelConnection)
    → c.write_pending ≡ some q
    → queue_of q c ≡ es
    → Flows c
    → Flows (popped q es r (handled c))
unfolding popped
Flows-popped q [] r c y h v =
    let b = not_writing q c y h v in
    record {
      waiting = λ w. v.waiting b;
      offline = λ o. refl;
      flying = λ w. cc;
      landed = λ w o. refl;
      early = λ k. (refl, refl);
      arrived = v.arrived;
    }
Flows-popped q (e ∷ es) written c y h v =
    let b = writing_on q e es c h v in
    let o : is_connected c.state ≡ true = ground (arith, b, v.offline) in
    Flows-do_write_after (handled c) _ (Alike-told q es (call e.callback ErrorCode.ok) (handled c))
      refl o (v.arrived o)
Flows-popped q (e ∷ es) write_aborted c y h v =
    Flows-handle_error internal_error
      (perform (call e.callback internal_error) (with_queue q es (handled c)))
      (λ d. (Alike-told q es (call e.callback internal_error) (handled c)).pending)
Flows-popped q (e ∷ es) write_error c y h v =
    Flows-handle_error internal_error
      (perform (call e.callback internal_error) (with_queue q es (handled c)))
      (λ d. (Alike-told q es (call e.callback internal_error) (handled c)).pending)

Flows-end_write :
    (p : Option WriteQueue) (r : WriteResult) (c : TunnelConnection)
    → c.write_pending ≡ p
    → Flows c
    → Flows (end_write p r c)
unfolding end_write
Flows-end_write none r c y v = v
Flows-end_write (some q) r c y v = Flows-popped q (queue_of q c) r c y refl v

pub Flows-write_done : (r : WriteResult) (c : TunnelConnection) → Flows c → Flows (write_done r c)
unfolding write_done
Flows-write_done r c v = Flows-end_write c.write_pending r c refl v
