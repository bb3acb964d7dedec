-- ===== src/Tunnel/Connection/Flow.antt =====
-- When a write is under way, and when the queues of a connection are empty.
use remote_tool.Prelude.{
  ℕ, ◌≡◌, refl, sym, ◌∙◌, Bool, true, false, ◌||◌, Option, none, some, List, [], ◌∷◌, if◌then◌else◌,
  arith,
}
use remote_tool.Protocol.ErrorCode.{ErrorCode}
use remote_tool.Protocol.Frame.{reset}
use remote_tool.Tunnel.Connection.State.{
  TunnelState, is_connected, is_disconnected, is_down, WriteEntry, WriteQueue, control, session,
  TunnelConnection, ConnectionEffect, perform, close_socket, drained, fire_on_closed, handle_error,
}
use remote_tool.Tunnel.Connection.Writes.{queue_of, next_queue, write_front, do_write}

abbrev pub is_dialing : Option (Option ℕ) → Bool
is_dialing none = false
is_dialing (some cb) = true

abbrev pub pick : WriteQueue → List WriteEntry → List WriteEntry → List WriteEntry
pick control xs ys = xs
pick session xs ys = ys

-- The handler of a write has a queue with an entry at its front.
abbrev pub Flies : List WriteEntry → List WriteEntry → Option WriteQueue → Type 0
Flies xs ys p =
    (q : WriteQueue) × (e : WriteEntry) × (es : List WriteEntry) × (p ≡ some q)
    × (pick q xs ys ≡ e ∷ es)

-- On the state, the queues, whether a write is under way, the queue that its handler has, and whether
-- a connection attempt is under way.
pub record IsFlowing (st : TunnelState) (xs ys : List WriteEntry) (w : Bool) (p : Option WriteQueue)
    (d : Bool) : Type 0 where
  pub waiting : w ≡ false → (xs ≡ []) × (ys ≡ [])
  pub offline : is_connected st ≡ false → w ≡ false
  pub flying : w ≡ true → Flies xs ys p
  pub landed : w ≡ false → is_connected st ≡ true → p ≡ none
  pub early : (is_disconnected st || d) ≡ true → (w ≡ false) × (p ≡ none)
  pub arrived : is_connected st ≡ true → d ≡ false

abbrev pub Flows : TunnelConnection → Type 0
Flows c =
    IsFlowing c.state c.control_queue c.data_queue c.writing c.write_pending
      (is_dialing c.connect_pending)

pub Flows-test :
    (b : Bool) (c d : TunnelConnection)
    → (b ≡ true → Flows c)
    → (b ≡ false → Flows d)
    → Flows (if b then c else d)
Flows-test true c d p q = p refl
Flows-test false c d p q = q refl

-- Everything is drained, whatever was under way.
Flows-drained :
    (code : ErrorCode) (c : TunnelConnection)
    → (is_dialing c.connect_pending ≡ true → c.write_pending ≡ none)
    → Flows (drained code c)
unfolding drained perform
Flows-drained code c h = record {
  waiting = λ w. (refl, refl);
  offline = λ o. refl;
  flying = λ w. cc;
  landed = λ w o. cc;
  early = λ d. (refl, h d);
  arrived = λ o. cc;
}

Flows-fire_on_closed :
    (code : ErrorCode) (c : TunnelConnection) → Flows c → Flows (fire_on_closed code c)
unfolding fire_on_closed perform
Flows-fire_on_closed code c v = Flows-test c.on_closed _ c (λ b. v) (λ b. v)

pub Flows-handle_error :
    (code : ErrorCode) (c : TunnelConnection)
    → (is_dialing c.connect_pending ≡ true → c.write_pending ≡ none)
    → Flows (handle_error code c)
unfolding handle_error close_socket perform
Flows-handle_error code c h =
    let v = Flows-drained code c h in
    let d = drained code c in
    Flows-test (is_down c.state) d _ (λ b. v)
      (λ b. Flows-fire_on_closed code (record d { decoder = reset d.decoder }) v)

Flows-write_front :
    (q : WriteQueue) (es : List WriteEntry) (c : TunnelConnection)
    → queue_of q c ≡ es
    → (es ≡ [] → (c.control_queue ≡ []) × (c.data_queue ≡ []))
    → c.write_pending ≡ none
    → is_connected c.state ≡ true
    → is_dialing c.connect_pending ≡ false
    → Flows (write_front q es c)
unfolding write_front perform
Flows-write_front q [] c h n p o d = record {
  waiting = λ w. n refl;
  offline = λ k. refl;
  flying = λ w. cc;
  landed = λ w k. p;
  early = λ k. (refl, p);
  arrived = λ k. d;
}
Flows-write_front control (e ∷ es) c h n p o d = record {
  waiting = λ w. cc;
  offline = λ k. cc;
  flying = λ w. (control, e, es, refl, h);
  landed = λ w k. cc;
  early = λ k. absurd (ground (arith, k, o, d));
  arrived = λ k. d;
}
Flows-write_front session (e ∷ es) c h n p o d = record {
  waiting = λ w. cc;
  offline = λ k. cc;
  flying = λ w. (session, e, es, refl, h);
  landed = λ w k. cc;
  early = λ k. absurd (ground (arith, k, o, d));
  arrived = λ k. d;
}

-- Where the queue that is written next is empty, both are.
next_empty : (xs ys : List WriteEntry) → pick (next_queue xs) xs ys ≡ [] → (xs ≡ []) × (ys ≡ [])
next_empty [] ys h = (refl, h)
next_empty (x ∷ xs) ys h = cc

pub queue_of-perform :
    (q : WriteQueue) (es : List ConnectionEffect) (c : TunnelConnection)
    → queue_of q (perform es c) ≡ queue_of q c
unfolding perform
queue_of-perform control es c = refl
queue_of-perform session es c = refl

pub queue_of-pick :
    (q : WriteQueue) (c : TunnelConnection) → queue_of q c ≡ pick q c.control_queue c.data_queue
queue_of-pick control c = refl
queue_of-pick session c = refl

pub Flows-do_write :
    (c : TunnelConnection)
    → c.write_pending ≡ none
    → is_connected c.state ≡ true
    → is_dialing c.connect_pending ≡ false
    → Flows (do_write c)
unfolding do_write
Flows-do_write c p o d =
    let q = next_queue c.control_queue in
    Flows-write_front q (queue_of q c) c refl
      (λ h. next_empty c.control_queue c.data_queue (sym (queue_of-pick q c) ∙ h)) p o d
