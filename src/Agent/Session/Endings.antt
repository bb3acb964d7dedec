-- ===== src/Agent/Session/Endings.antt =====
-- How an `AgentSession` ends: after a HALF_CLOSE, and after a CLOSE_SESSION.
use remote_tool.Prelude.{
  ℕ, zero, suc, ◌≤◌, ◌≡◌, refl, ap, sym, subst, ◌∙◌, Bool, true, false, not, ◌&&◌, ◌||◌, List, [],
  ◌∷◌, append-nil, append_assoc, Bytes, length, ◌==◌, arith,
}
use remote_tool.Protocol.Frame.{Frame}
use remote_tool.Session.Manager.State.{half_closed_local, closed, is_idle, is_closed, is_connected}
use remote_tool.Agent.Session.State.{AgentSession, writes, fin, effect, cleanup}
use remote_tool.Agent.Session.Target.{
  write_next, do_target_write, maybe_shutdown_target_write, written, after_write, target_write_done,
}
use remote_tool.Agent.Session.Frames.{handle_half_close, handle_close}
use remote_tool.Agent.Session.Effects.{fired, written_bytes, finned, written-append, finned-append}
use remote_tool.Agent.Session.Steps.{stream, IsSound}
use remote_tool.Agent.Session.Operations.{Leads-cleanup}
use remote_tool.Protocol.Msg
use remote_tool.Agent.Session.State.{Network}
use remote_tool.Agent.Session.Frames.{
  frame_received, SessionEvent, target_write, session_step, session_run,
}
use remote_tool.Agent.Session.Operations.{cleanup_closed}
use remote_tool.Agent.Session.Histories.{Safe-run}

-- Writes that end well, one after the other.
abbrev pub writes_done : (Bytes → Bool) → Network → ℕ → AgentSession → AgentSession
writes_done strtod_ok net zero s = s
writes_done strtod_ok net (suc n) s =
    writes_done strtod_ok net n (session_step strtod_ok net (target_write written) s)

-- A session whose queue is to be drained.
record Drains (q : List Bytes) (s : AgentSession) : Type 0 where
  queue : s.target_write_queue ≡ q
  writing : s.writing_to_target ≡ not (length q == 0)
  shut : s.target_write_closed ≡ true
  undone : s.target_write_shutdown_done ≡ false
  socket : s.target_socket ≡ true
  opens : s.socket_open ≡ true

module _ (s : AgentSession) where
  drained_now :
      Drains [] s
      → (finned (maybe_shutdown_target_write s).effects ≡ true)
        × ((maybe_shutdown_target_write s).target_write_queue ≡ [])
        × (written_bytes (maybe_shutdown_target_write s).effects ≡ written_bytes s.effects)
  unfolding maybe_shutdown_target_write effect
  drained_now h =
      let w : (s.writing_to_target || not (length s.target_write_queue == 0)) ≡ false =
        ground (arith, h.writing, h.queue) in
      let c : (not s.target_write_closed || s.target_write_shutdown_done) ≡ false =
        ground (arith, h.shut, h.undone) in
      let o : (s.target_socket && s.socket_open) ≡ true = ground (arith, h.socket, h.opens) in
      simp (c, w, o)
        (
          finned-append s.effects (fin ∷ []) ∙ ground arith,
          h.queue,
          written-append s.effects (fin ∷ []) ∙ append-nil (written_bytes s.effects),
        )

-- The next entry goes out.
pop_front : (s : AgentSession) (queue : List Bytes) → AgentSession
pop_front s queue = write_next queue (record s { target_write_queue = queue })

next_Drains :
    (s : AgentSession) (b : Bytes) (q : List Bytes)
    → Drains (b ∷ q) s
    → Drains q (pop_front s q) × (stream (pop_front s q) ≡ stream s)
unfolding pop_front write_next effect
next_Drains s b [] h = (
  record {
    queue = refl;
    writing = refl;
    shut = h.shut;
    undone = h.undone;
    socket = h.socket;
    opens = h.opens;
  },
  rw h.queue refl,
)
next_Drains s b (c ∷ q) h = (
  record {
    queue = refl;
    writing = ground arith;
    shut = h.shut;
    undone = h.undone;
    socket = h.socket;
    opens = h.opens;
  },
  rw (h.queue, written-append s.effects (writes c ∷ []), append-nil, append_assoc) refl,
)

-- While entries are left, nothing is ended.
still_open :
    (s : AgentSession) (b : Bytes) (q : List Bytes)
    → Drains (b ∷ q) s
    → maybe_shutdown_target_write s ≡ s
unfolding maybe_shutdown_target_write
still_open s b q h =
    let w : (s.writing_to_target || not (length s.target_write_queue == 0)) ≡ true =
      ground (arith, h.queue) in
    let c : (not s.target_write_closed || s.target_write_shutdown_done) ≡ false =
      ground (arith, h.shut, h.undone) in
    simp (c, w)

after_write_lem :
    (s : AgentSession) (b : Bytes) (q : List Bytes)
    → after_write (b ∷ q) written s ≡ maybe_shutdown_target_write (pop_front s q)
unfolding after_write do_target_write pop_front
after_write_lem s b q = refl

drained_stream : (s : AgentSession) → Drains [] s → written_bytes s.effects ≡ stream s
drained_stream s h = rw (h.queue, append-nil) refl

write_step :
    (strtod_ok : Bytes → Bool) (net : Network) (s : AgentSession) (b : Bytes) (q : List Bytes)
    → s.target_write_queue ≡ b ∷ q
    → session_step strtod_ok net (target_write written) s
      ≡ maybe_shutdown_target_write (pop_front s q)
unfolding session_step target_write_done pop_front do_target_write
write_step strtod_ok net s b q e = ap (λ l. after_write l written s) e ∙ after_write_lem s b q

-- A session that has written some data, all of what it took, and then ended its sending side.
abbrev pub IsDrained : Bytes → AgentSession → Type 0
IsDrained written_all t =
    (finned t.effects ≡ true)
    × (t.target_write_queue ≡ [])
    × (written_bytes t.effects ≡ written_all)

drain :
    (strtod_ok : Bytes → Bool) (net : Network) (q : List Bytes) (b : Bytes) (s : AgentSession)
    → Drains (b ∷ q) s
    → IsDrained (stream s) (writes_done strtod_ok net (length (b ∷ q)) s)
drain strtod_ok net [] b s h =
    let (d, same) = next_Drains s b [] h in
    let (f, e, w) = drained_now (pop_front s []) d in
    subst (IsDrained (stream s)) (sym (write_step strtod_ok net s b [] h.queue))
      (f, e, w ∙ drained_stream (pop_front s []) d ∙ same)
drain strtod_ok net (c ∷ q) b s h =
    let (d, same) = next_Drains s b (c ∷ q) h in
    let (f, e, w) = drain strtod_ok net q c (pop_front s (c ∷ q)) d in
    let step =
      write_step strtod_ok net s b (c ∷ q) h.queue ∙ still_open (pop_front s (c ∷ q)) c q d in
    subst (λ t. IsDrained (stream s) (writes_done strtod_ok net (suc (length q)) t)) (sym step)
      (f, e, w ∙ same)

half_closed :
    (s : AgentSession)
    → is_connected s.state ≡ true
    → let u = maybe_shutdown_target_write (record s { target_write_closed = true }) in
      handle_half_close s ≡ record u { state = half_closed_local }
unfolding handle_half_close
half_closed s c =
    let open_state : is_closed s.state ≡ false = ground (arith, c) in rw (open_state, c) refl

half_closed-Drains :
    (strtod_ok : Bytes → Bool) (net : Network) (q : List Bytes) (s : AgentSession)
    → Drains q (record s { target_write_closed = true })
    → is_connected s.state ≡ true
    → IsDrained (stream s) (writes_done strtod_ok net (length q) (handle_half_close s))
half_closed-Drains strtod_ok net [] s h c =
    let shut = record s { target_write_closed = true } in
    let (f, e, w) = drained_now shut h in
    subst (IsDrained (stream s)) (sym (half_closed s c)) (f, e, w ∙ drained_stream shut h)
half_closed-Drains strtod_ok net (b ∷ q) s h c =
    let shut = record s { target_write_closed = true } in
    let wait : handle_half_close s ≡ record shut { state = half_closed_local } =
      half_closed s c
      ∙ ap {B = AgentSession} (λ u. record u { state = half_closed_local })
          (still_open shut b q h) in
    let d : Drains (b ∷ q) (record shut { state = half_closed_local }) = record {
      queue = h.queue;
      writing = h.writing;
      shut = refl;
      undone = h.undone;
      socket = h.socket;
      opens = h.opens;
    } in
    subst (λ t. IsDrained (stream s) (writes_done strtod_ok net (length (b ∷ q)) t)) (sym wait)
      (drain strtod_ok net q b (record shut { state = half_closed_local }) d)

-- A connected session whose socket is open and that has not yet been half-closed writes what it has
-- taken once it is: after a HALF_CLOSE and as many writes that end well as entries were in the queue, all
-- data that were taken have been written, and the sending side has been ended.
pub half_close-IsDrained :
    (strtod_ok : Bytes → Bool) (net : Network) (s : AgentSession)
    → IsSound s
    → is_connected s.state ≡ true
    → s.target_write_closed ≡ false
    → s.target_socket ≡ true
    → s.socket_open ≡ true
    → IsDrained
        (stream s)
        (writes_done strtod_ok net (length s.target_write_queue) (handle_half_close s))
half_close-IsDrained strtod_ok net s v c o k p =
    half_closed-Drains strtod_ok net s.target_write_queue s
      (record {
        queue = refl;
        writing = v.writing;
        shut = refl;
        undone = ground (arith, v.done, o);
        socket = k;
        opens = p;
      })
      c

-- A CLOSE_SESSION, or a text that cannot be read as one, closes a session that is neither idle nor closed,
-- and then the callback on closing is never called, whatever happens.
pub closed_silently :
    (strtod_ok : Bytes → Bool) (f : Frame) (s : AgentSession) (es : List (Network × SessionEvent))
    → IsSound s
    → is_idle s.state ≡ false
    → is_closed s.state ≡ false
    → f.header.msg_type ≡ Msg.close_session
    → (is_closed (frame_received strtod_ok f s).state ≡ true)
      × (fired (session_run strtod_ok es (frame_received strtod_ok f s)).effects ≤ fired s.effects)
unfolding frame_received handle_close
closed_silently strtod_ok f s es v b c t =
    let t_data : (f.header.msg_type == Msg.session_data) ≡ false = ground (arith, t) in
    let t_half : (f.header.msg_type == Msg.session_half_close) ≡ false = ground (arith, t) in
    let t_close : (f.header.msg_type == Msg.close_session) ≡ true = ground (arith, t) in
    let shut = record s { state = closed } in
    let p = Leads-cleanup shut in
    let shut_sound : IsSound shut = record {
      writing = v.writing;
      done = v.done;
      ended = v.ended;
      last = v.last;
    } in
    let r = Safe-run strtod_ok es (cleanup shut) (p.sound shut_sound) in
    let is_shut = cleanup_closed shut in
    simp (b, c, t_data, t_half, t_close) (is_shut, ground (arith, p.fewer, r.fewer, is_shut))
