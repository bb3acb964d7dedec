-- ===== src/Agent/Session/Ends.antt =====
-- The handlers of an `AgentSession` that a socket or a timer calls, and those of HALF_CLOSE and
-- CLOSE_SESSION, keep what `Leads` says.
use remote_tool.Prelude.{
  ◌+◌, ◌%◌, ◌^◌, ◌≡◌, refl, ap, sym, true, false, not, List, [], ◌∷◌, ◌++◌, append-nil, Bytes,
  length, ◌==◌, if◌then◌else◌, arith, inl, inr, Bool-cases,
}
use remote_tool.Protocol.Frame.{Frame}
use remote_tool.Protocol.Messages.Session.{encode_session_data}
use remote_tool.Session.Manager.State.{
  SessionState, idle, connecting, connected, half_closed_local, half_closed_remote, closed, is_idle,
  is_closed, is_half_closed_local,
}
use remote_tool.Agent.Session.State.{
  AgentSession, cancels_timer, cancels, effect, send_session_frame, cleanup,
}
use remote_tool.Agent.Session.Target.{
  write_next, do_target_write, io_failed, TargetWrite, written, write_error, after_write,
  target_write_done, forward_data_to_tunnel, TargetRead, received, eof, aborted, read_error,
  reads_on, half_close, io_error, failure, target_read_done, open_failed,
}
use remote_tool.Agent.Session.Effects.{written_bytes}
use remote_tool.Agent.Session.Steps.{
  stream, waiting, accepts, Prefix-refl, Leads, Leads-refl, Leads-trans, Leads-if, Leads-test, Cuts,
  Cuts-Leads, Leads-Cuts, Leads-Alike,
}
use remote_tool.Agent.Session.Operations.{Leads-send_session_frame, Leads-cleanup, cleanup-accepts}
use remote_tool.Agent.Session.Handlers.{
  Leads-maybe_shutdown, Leads-start_target_read, Leads-state, Leads-write_next,
}

module _ (s : AgentSession) where
  -- The queue is dropped, and the session left as it is.
  Cuts-dropped : Cuts s (record s { target_write_queue = []; writing_to_target = false })
  Cuts-dropped = record {
    fewer = omega arith;
    sound = λ h. record {
      writing = refl;
      done = λ e. ((h.done e).0, refl);
      ended = h.ended;
      last = h.last;
    };
    cut = (
      waiting s.target_write_queue,
      ap (λ l. l ++ waiting s.target_write_queue) (sym (append-nil (written_bytes s.effects))),
    );
    begun = λ h. h;
  }

  Leads-idle_write : s.target_write_queue ≡ [] → Leads s (record s { writing_to_target = false })
  Leads-idle_write e = record {
    fewer = omega arith;
    sound =
        λ h. record { writing = ground (arith, e); done = h.done; ended = h.ended; last = h.last };
    kept = λ h. (h, refl);
    cut = Prefix-refl (stream s);
    begun = λ h. h;
  }

  -- The end of the session after some frame.
  pub Leads-send_cleanup : (f : Frame) → Leads s (cleanup (send_session_frame f s))
  Leads-send_cleanup f =
      Leads-trans (Leads-send_session_frame s f) (Leads-cleanup (send_session_frame f s))

  send_cleanup-accepts : (f : Frame) → accepts (cleanup (send_session_frame f s)) ≡ false
  send_cleanup-accepts f = cleanup-accepts (send_session_frame f s)

  pub Leads-io_failed : (message : Bytes) → Leads s (io_failed message s)
  unfolding io_failed
  Leads-io_failed message =
      Leads-if (is_closed s.state) (Leads-refl s) (Leads-send_cleanup (io_error message))

  pub Leads-open_failed : (code message : Bytes) → Leads s (open_failed code message s)
  unfolding open_failed
  Leads-open_failed code message = Leads-send_cleanup (failure code message)

  io_failed-accepts : (message : Bytes) → accepts (io_failed message s) ≡ false
  unfolding io_failed
  io_failed-accepts message = elim (Bool-cases (is_closed s.state)) [
    | inl c ↦ rw c (ground (arith, c))
    | inr c ↦ rw c (send_cleanup-accepts (io_error message))
  ]

module _ (s : AgentSession) where
  Leads-after_write :
      (queue : List Bytes) (r : TargetWrite)
      → s.target_write_queue ≡ queue
      → Leads s (after_write queue r s)
  unfolding after_write do_target_write
  Leads-after_write [] r e =
      Leads-trans (Leads-idle_write s e)
        (Leads-maybe_shutdown (record s { writing_to_target = false }))
  Leads-after_write (entry ∷ queue) (write_error message) e =
      let dropped = record s { target_write_queue = []; writing_to_target = false } in
      Leads-Cuts (Cuts-Leads (Cuts-dropped s) (Leads-io_failed dropped message))
        (io_failed-accepts dropped message)
  Leads-after_write (entry ∷ queue) written e =
      Leads-trans (Leads-write_next s entry queue e)
        (Leads-maybe_shutdown (write_next queue (record s { target_write_queue = queue })))

  pub Leads-target_write_done : (r : TargetWrite) → Leads s (target_write_done r s)
  unfolding target_write_done
  Leads-target_write_done r = Leads-after_write s.target_write_queue r refl

  Leads-forward_data_to_tunnel : (bytes : Bytes) → Leads s (forward_data_to_tunnel bytes s)
  unfolding forward_data_to_tunnel
  Leads-forward_data_to_tunnel bytes =
      let counted = record s { bytes_received = (s.bytes_received + length bytes) % 2 ^ 64 } in
      Leads-trans {t = counted} (Leads-Alike {es = []} (ground (arith, append-nil s.effects)))
        (Leads-send_session_frame counted (encode_session_data s.session_id bytes))

  -- The read side ended: nothing that matters here.
  Leads-read_closed : Leads s (record s { target_read_closed = true })
  Leads-read_closed = Leads-Alike {es = []} (ground (arith, append-nil s.effects))

  pub Leads-connect_timer : Leads s (if s.connect_timer then effect cancels_timer s else s)
  unfolding effect
  Leads-connect_timer =
      Leads-if s.connect_timer (Leads-Alike {es = cancels_timer ∷ []} (ground arith)) (Leads-refl s)

  pub Leads-cancels : Leads s (effect cancels s)
  unfolding effect
  Leads-cancels = Leads-Alike {es = cancels ∷ []} (ground arith)

  -- A close in two steps: the state first, and then the cleanup.
  Cuts-closed : Cuts s (record s { state = closed })
  Cuts-closed = record {
    fewer = ground arith;
    sound = λ h. record { writing = h.writing; done = h.done; ended = h.ended; last = h.last };
    cut = Prefix-refl (stream s);
    begun = λ h. refl;
  }

  pub Leads-close_cleanup : Leads s (cleanup (record s { state = closed }))
  Leads-close_cleanup =
      Leads-Cuts (Cuts-Leads Cuts-closed (Leads-cleanup (record s { state = closed })))
        (cleanup-accepts (record s { state = closed }))

  pub Leads-write_closed : Leads s (record s { target_write_closed = true })
  Leads-write_closed = Leads-Alike {es = []} (ground (arith, append-nil s.effects))

sent_state :
    (s : AgentSession)
    → (send_session_frame half_close (record s { target_read_closed = true })).state ≡ s.state
unfolding send_session_frame effect
sent_state s = ground arith

reading_on :
    (st : SessionState)
    → not (reads_on st) ≡ false
    → (is_closed half_closed_remote ≡ is_closed st) × (is_idle half_closed_remote ≡ is_idle st)
reading_on idle h = cc
reading_on connecting h = (refl, refl)
reading_on connected h = (refl, refl)
reading_on half_closed_local h = (refl, refl)
reading_on half_closed_remote h = (refl, refl)
reading_on closed h = cc

module _ (s : AgentSession) where
  pub Leads-target_read_done : (r : TargetRead) → Leads s (target_read_done r s)
  unfolding target_read_done
  Leads-target_read_done aborted = Leads-refl s
  Leads-target_read_done (read_error message) = Leads-io_failed s message
  Leads-target_read_done (received bytes) =
      let s1 = if length bytes == 0 then s else forward_data_to_tunnel bytes s in
      let sent : Leads s s1 =
        Leads-if (length bytes == 0) (Leads-refl s) (Leads-forward_data_to_tunnel s bytes) in
      Leads-if (reads_on s.state) (Leads-trans sent (Leads-start_target_read s1)) sent
  Leads-target_read_done eof =
      let read_closed = record s { target_read_closed = true } in
      let s1 = send_session_frame half_close read_closed in
      let sent : Leads s s1 =
        Leads-trans (Leads-read_closed s) (Leads-send_session_frame read_closed half_close) in
      Leads-test (not (reads_on s.state)) (λ _. Leads-refl s)
        λ on. Leads-if (is_half_closed_local s.state) (Leads-trans sent (Leads-close_cleanup s1)) (
          Leads-trans sent (
            Leads-state s1 half_closed_remote (rw (sent_state s) (reading_on s.state on).0)
              (rw (sent_state s) (reading_on s.state on).1)))
