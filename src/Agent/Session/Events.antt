-- ===== src/Agent/Session/Events.antt =====
-- The frames of an `AgentSession` and the handlers of its connection.
use remote_tool.Prelude.{
  ◌≡◌, refl, ap, subst, ◌∙◌, Bool, true, false, not, ◌||◌, [], ◌∷◌, Bytes, length, ◌==◌,
  if◌then◌else◌, arith, ℤ, none, some,
}
use remote_tool.Protocol.Frame.{Frame}
use remote_tool.Session.Manager.State.{
  SessionState, idle, connecting, connected, half_closed_local, half_closed_remote, closed, is_idle,
  is_closed, is_connected, is_half_closed_remote,
}
use remote_tool.Agent.Session.State.{
  AgentSession, cancels_timer, cancels, effect, send_session_frame, is_connecting,
}
use remote_tool.Agent.Session.Target.{
  maybe_shutdown_target_write, connect_timed_out, opened_frame, on_target_connected, ConnectResult,
  unreachable, reached, finish_connect, connect_done,
}
use remote_tool.Agent.Session.Frames.{handle_half_close, handle_close}
use remote_tool.Agent.Session.Steps.{IsSound, Leads, Leads-refl, Leads-trans, Leads-if, Leads-test}
use remote_tool.Agent.Session.Operations.{Leads-send_session_frame}
use remote_tool.Agent.Session.Handlers.{Leads-maybe_shutdown, Leads-start_target_read, Leads-state}
use remote_tool.Protocol.Msg
use remote_tool.Protocol.Messages.Extract.{Decoded, ok, err}
use remote_tool.Protocol.Messages.Session.{
  SessionHalfCloseMessage, decode_session_data, decode_session_half_close,
}
use remote_tool.Agent.Session.State.{Network}
use remote_tool.Agent.Session.Target.{forward_data_to_target}
use remote_tool.Agent.Session.Frames.{frame_received, SessionEvent, frame}
use remote_tool.Agent.Session.Ends.{
  Leads-open_failed, Leads-close_cleanup, Leads-write_closed, Leads-cancels, Leads-connect_timer,
}
use remote_tool.Agent.Session.Data.{Takes, Takes-test, Takes-Leads, Takes-dropped, Takes-forward}

-- The data that an event brings.
abbrev pub data_of : SessionEvent → Bytes
data_of (frame f) = if f.header.msg_type == Msg.session_data then decode_session_data f else []
data_of _ = []

shutdown_state :
    (s : AgentSession)
    → is_closed s.state ≡ false
    → is_connected s.state ≡ true
    → (is_closed half_closed_local ≡ is_closed (maybe_shutdown_target_write s).state)
      × (is_idle half_closed_local ≡ is_idle (maybe_shutdown_target_write s).state)
unfolding maybe_shutdown_target_write effect
shutdown_state s c d = ground arith

connecting_open :
    (st : SessionState)
    → is_connecting st ≡ true
    → (is_closed connected ≡ is_closed st) × (is_idle connected ≡ is_idle st)
connecting_open connecting h = (refl, refl)
connecting_open idle h = cc
connecting_open connected h = cc
connecting_open half_closed_local h = cc
connecting_open half_closed_remote h = cc
connecting_open closed h = cc

module _ (s : AgentSession) where
  pub Leads-connect_timed_out : (b : Bool) → Leads s (connect_timed_out b s)
  unfolding connect_timed_out
  Leads-connect_timed_out b =
      Leads-if (b || not (is_connecting s.state)) (Leads-refl s)
        (Leads-trans (Leads-cancels s) (Leads-open_failed (effect cancels s) _ _))

  pub Leads-handle_close : Leads s (handle_close s)
  unfolding handle_close
  Leads-handle_close = Leads-if (is_closed s.state) (Leads-refl s) (Leads-close_cleanup s)

  Leads-handle_half_close : Leads s (handle_half_close s)
  unfolding handle_half_close
  Leads-handle_half_close =
      let shut = record s { target_write_closed = true } in
      let s1 = maybe_shutdown_target_write shut in
      let p : Leads s s1 = Leads-trans (Leads-write_closed s) (Leads-maybe_shutdown shut) in
      Leads-test (is_closed s.state) (λ _. Leads-refl s)
        λ open_state.
          Leads-test (is_connected s.state)
            (λ c. Leads-trans p (
              Leads-state s1 half_closed_local (shutdown_state shut open_state c).0
                (shutdown_state shut open_state c).1))
            λ c. Leads-if (is_half_closed_remote s.state) (Leads-trans p (Leads-close_cleanup s1)) p

  Leads-on_target_connected :
      (host : Bytes) (port : ℤ)
      → is_connecting s.state ≡ true
      → Leads s (on_target_connected host port s)
  unfolding on_target_connected
  Leads-on_target_connected host port c =
      let up = record s { state = connected } in
      let told = send_session_frame (opened_frame s host port) up in
      Leads-trans
        (Leads-state s connected (connecting_open s.state c).0 (connecting_open s.state c).1)
        (Leads-trans (Leads-send_session_frame up (opened_frame s host port))
          (Leads-start_target_read told))

  Leads-finish_connect :
      (r : ConnectResult) → is_connecting s.state ≡ true → Leads s (finish_connect r s)
  unfolding finish_connect
  Leads-finish_connect (unreachable message) c = Leads-open_failed s _ message
  Leads-finish_connect (reached none) c = Leads-on_target_connected s.target_host s.target_port c
  Leads-finish_connect (reached (some (host, port))) c = Leads-on_target_connected host port c

  timer_state : (if s.connect_timer then effect cancels_timer s else s).state ≡ s.state
  unfolding effect
  timer_state = ground arith

module _ (s : AgentSession) where
  pub Leads-connect_done : (r : ConnectResult) → Leads s (connect_done r s)
  unfolding connect_done
  Leads-connect_done r =
      let s1 = if s.connect_timer then effect cancels_timer s else s in
      Leads-test (not (is_connecting s.state)) (λ _. Leads-connect_timer s)
        λ c.
          Leads-trans (Leads-connect_timer s)
            (Leads-finish_connect s1 r (ap is_connecting (timer_state s) ∙ ground (arith, c)))

no_bytes : (d : Bytes) → (length d == 0) ≡ true → d ≡ []
no_bytes [] h = refl
no_bytes (x ∷ d) h = absurd (ground (arith, h))

module _ (strtod_ok : Bytes → Bool) (net : Network) (s : AgentSession) where
  Leads-decoded :
      (x : Decoded SessionHalfCloseMessage)
      → Leads s (elim x [ err e ↦ s | ok msg ↦ handle_half_close s ])
  Leads-decoded (err e) = Leads-refl s
  Leads-decoded (ok msg) = Leads-handle_half_close s

  -- A frame for a session that was begun.
  pub Takes-frame :
      (f : Frame)
      → IsSound s
      → is_idle s.state ≡ false
      → Takes (data_of (frame f)) s (frame_received strtod_ok f s)
  unfolding frame_received
  Takes-frame f v b =
      let d = data_of (frame f) in
      Takes-test (is_idle s.state || is_closed s.state)
        (λ c. Takes-dropped d s v b (ground (arith, b, c)))
        λ c.
          Takes-test (f.header.msg_type == Msg.session_data)
            (λ t.
              let bytes = decode_session_data f in
              let same : bytes ≡ d = rw t refl in
              subst
                (λ x. Takes x s (if length bytes == 0 then s else forward_data_to_target bytes s))
                same
                (Takes-test (length bytes == 0)
                  (λ e. Takes-Leads bytes s v b (no_bytes bytes e) (Leads-refl s))
                  (λ e. Takes-forward bytes s v b (ground (arith, c)))))
            λ t.
              let none_new : d ≡ [] = rw t refl in
              Takes-Leads d s v b none_new (
                Leads-if (f.header.msg_type == Msg.session_half_close)
                  (Leads-decoded (decode_session_half_close strtod_ok f))
                  (Leads-if (f.header.msg_type == Msg.close_session) (Leads-handle_close s)
                    (Leads-refl s)))
