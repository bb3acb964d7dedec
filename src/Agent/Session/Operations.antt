-- ===== src/Agent/Session/Operations.antt =====
-- Each operation of an `AgentSession` that brings no new data keeps what `Leads` says.
use remote_tool.Prelude.{
  ◌+◌, ◌≤◌, ◌≡◌, refl, ap, sym, Bool, true, false, ◌&&◌, [], ◌∷◌, ◌++◌, append-nil, if◌then◌else◌,
  arith, inl, inr, Bool-cases,
}
use remote_tool.Protocol.Frame.{Frame}
use remote_tool.Session.Manager.State.{is_closed}
use remote_tool.Agent.Session.State.{
  AgentSession, sends, cancels_timer, shuts, calls_on_closed, effect, send_session_frame,
  drop_timer, close_socket, fire_on_closed, emptied, cleanup,
}
use remote_tool.Agent.Session.Effects.{
  fired, written_bytes, fired-append, written-append, finned-append, fin_last-append,
}
use remote_tool.Agent.Session.Steps.{
  calls, waiting, accepts, Leads, Leads-refl, Leads-trans, Leads-if, Leads-Alike,
}

module _ (s : AgentSession) where
  pub Leads-send_session_frame : (f : Frame) → Leads s (send_session_frame f s)
  unfolding send_session_frame effect
  Leads-send_session_frame f =
      Leads-if s.tunnel
        (Leads-Alike
          {es = sends (record f { header = record f.header { session_id = s.session_id } }) ∷ []}
          (ground arith))
        (Leads-refl s)

  Leads-drop_timer : Leads s (drop_timer s)
  unfolding drop_timer effect
  Leads-drop_timer =
      Leads-if s.connect_timer (Leads-Alike {es = cancels_timer ∷ []} (ground arith)) (Leads-refl s)

  Leads-close_socket : Leads s (close_socket s)
  unfolding close_socket effect
  Leads-close_socket =
      Leads-if (s.target_socket && s.socket_open) (Leads-Alike {es = shuts ∷ []} (ground arith))
        (Leads-refl s)

  -- The queue is emptied, and the session closed.
  Leads-emptied : Leads s (emptied s)
  Leads-emptied = record {
    fewer = ground arith;
    sound = λ h. record {
      writing = refl;
      done = λ e. ((h.done e).0, refl);
      ended = h.ended;
      last = h.last;
    };
    kept = λ h. cc;
    cut = (
      waiting s.target_write_queue,
      ap (λ l. l ++ waiting s.target_write_queue) (sym (append-nil (written_bytes s.effects))),
    );
    begun = λ h. refl;
  }

closed_if :
    (b : Bool) (t u : AgentSession)
    → is_closed t.state ≡ true
    → is_closed u.state ≡ true
    → is_closed (if b then t else u).state ≡ true
closed_if true t u p q = p
closed_if false t u p q = q

module _ (s : AgentSession) where
  unclosed_state : (close_socket (drop_timer s)).state ≡ s.state
  unfolding close_socket drop_timer effect
  unclosed_state = ground arith

  -- The callback takes the call that a session which was not closed may make.
  Leads-fire_on_closed :
      (d : AgentSession)
      → Leads s d
      → is_closed d.state ≡ true
      → fired d.effects + 1 ≤ calls s
      → Leads s (fire_on_closed d)
  unfolding fire_on_closed effect
  Leads-fire_on_closed d p c room =
      let called = calls_on_closed d.session_id ∷ [] in
      Leads-if d.on_closed
        (record {
          fewer = rw c (omega (arith, fired-append d.effects called, room));
          sound = λ h.
              let v = p.sound h in
              record {
                writing = v.writing;
                done = v.done;
                ended = λ e. v.ended (ground (arith, finned-append d.effects called));
                last = ground (arith, fin_last-append d.effects called, v.last);
              };
          kept = λ h. ground (arith, c);
          cut = rw (written-append d.effects called, append-nil) p.cut;
          begun = p.begun;
        })
        p

  pub Leads-cleanup : Leads s (cleanup s)
  unfolding cleanup
  Leads-cleanup =
      let u = close_socket (drop_timer s) in
      let before : Leads s u =
        Leads-trans (Leads-drop_timer s) (Leads-close_socket (drop_timer s)) in
      let after : Leads s (emptied u) = Leads-trans before (Leads-emptied u) in
      elim (Bool-cases (is_closed s.state)) [
        | inl c ↦ rw c after
        | inr c ↦ rw c (
            Leads-fire_on_closed (emptied u) after refl
              (ground (arith, before.fewer, unclosed_state, c)))
      ]

  pub cleanup_closed : is_closed (cleanup s).state ≡ true
  unfolding cleanup fire_on_closed effect
  cleanup_closed = elim (Bool-cases (is_closed s.state)) [
    | inl c ↦ rw c refl
    | inr c ↦ rw c (closed_if (close_socket (drop_timer s)).on_closed _ _ refl refl)
  ]

  pub cleanup-accepts : accepts (cleanup s) ≡ false
  cleanup-accepts = ground (arith, cleanup_closed)
