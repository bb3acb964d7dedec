-- ===== src/Session/Manager/Steps.antt =====
-- Every operation but the creation of a session keeps the account.
use remote_tool.Prelude.{
  ℕ, ◌-◌, refl, false, not, ◌&&◌, ◌||◌, Option, none, some, List, [], ◌∷◌, Bytes, length, ltb, ◌==◌,
  inl, inr, Option-cases, if◌then◌else◌,
}
use remote_tool.Protocol.Frame.{Frame}
use remote_tool.Session.Manager.State.{
  SessionEntry, fin, read, write, send, SessionManager, Outside, modify, lookup, is_closed,
  is_connected,
}
use remote_tool.Session.Manager.Local.{
  on_socket, maybe_finish_local_close, write_front, do_local_write_next, do_local_write,
  start_local_read, data_sent, send_data, forward_local_to_agent, send_if_up, close_session,
  ReadResult, received, eof, read_aborted, read_error, WriteResult, written, write_aborted,
  write_error, after_read, local_read_done, after_write, local_write_done, may_send,
}
use remote_tool.Session.Manager.Account.{
  calls, Keeps, Keeps-refl, Keeps-trans, Keeps-modify, Keeps-emit, Keeps-if, Keeps-found,
  transition_to_closed-Keeps,
}

-- A change of an entry, and then more.
pub modify_then :
    (sid : ℕ) (f : SessionEntry → SessionEntry) (m n : SessionManager)
    → Keeps (modify sid f m) n
    → Keeps m n
modify_then sid f m n h = Keeps-trans m (modify sid f m) n (Keeps-modify sid f m) h

module _ (o : Outside) (sid : ℕ) where
  pub maybe_finish_local_close-Keeps :
      (m : SessionManager) → Keeps m (maybe_finish_local_close o sid m)
  unfolding maybe_finish_local_close calls
  maybe_finish_local_close-Keeps m = Keeps-found (lookup sid m.sessions) λ s.
      let m1 = modify sid (λ s. record s { local_write_shutdown_pending = false }) m in
      let m2 = on_socket fin s.local_socket m1 in
      let ended : Keeps m m2 = modify_then sid _ m m2 (finished s.local_socket m1) in
      Keeps-if (not s.local_write_shutdown_pending) (Keeps-refl m) (
        Keeps-if (s.writing_local || not (length s.local_write_queue == 0)) (Keeps-refl m) (
          Keeps-if s.local_close_after_drain
            (Keeps-trans m m2 _ ended (transition_to_closed-Keeps o sid m2)) ended))
    where
      finished : (k : Option ℕ) (m : SessionManager) → Keeps m (on_socket fin k m)
      finished none m = Keeps-refl m
      finished (some k) m = Keeps-emit (fin k) m (λ i. refl)

  write_front-Keeps :
      (socket : ℕ) (queue : List Bytes) (m : SessionManager)
      → Keeps m (write_front o sid socket queue m)
  unfolding write_front calls
  write_front-Keeps socket [] m = modify_then sid _ m _ (maybe_finish_local_close-Keeps _)
  write_front-Keeps socket (buf ∷ queue) m =
      modify_then sid _ m _ (Keeps-emit (write socket buf) _ (λ i. refl))

  do_local_write_next-Keeps : (m : SessionManager) → Keeps m (do_local_write_next o sid m)
  unfolding do_local_write_next
  do_local_write_next-Keeps m = Keeps-found (lookup sid m.sessions) λ s.
      elim (Option-cases s.local_socket) [
        | inl e ↦ rw e (modify_then sid _ m _ (maybe_finish_local_close-Keeps _))
        | inr (socket, e) ↦ rw e (write_front-Keeps socket s.local_write_queue m)
      ]

  pub do_local_write-Keeps :
      (bytes : Bytes) (m : SessionManager) → Keeps m (do_local_write o sid bytes m)
  unfolding do_local_write
  do_local_write-Keeps bytes m = Keeps-found (lookup sid m.sessions) λ s.
      Keeps-found s.local_socket λ socket.
        Keeps-if (not s.writing_local) (modify_then sid _ m _ (do_local_write_next-Keeps _))
          (Keeps-modify sid _ m)

  pub start_local_read-Keeps : (m : SessionManager) → Keeps m (start_local_read sid m)
  unfolding start_local_read calls
  start_local_read-Keeps m = Keeps-found (lookup sid m.sessions) λ s.
      Keeps-found s.local_socket λ socket. Keeps-if s.reading_local (Keeps-refl m) (
        Keeps-if s.read_paused (Keeps-refl m) (
          Keeps-if (not (may_send s.state)) (Keeps-refl m)
            (modify_then sid _ m _ (Keeps-emit (read socket) _ (λ i. refl)))))

  pub data_sent-Keeps : (len : ℕ) (m : SessionManager) → Keeps m (data_sent sid len m)
  unfolding data_sent
  data_sent-Keeps len m = Keeps-found (lookup sid m.sessions) λ s. modify_then sid _ m _ (
      Keeps-if (s.read_paused && ltb (s.pending_bytes - len) _)
        (modify_then sid _ _ _ (start_local_read-Keeps _)) (Keeps-refl _))

  send_data-Keeps :
      (tunnel : ℕ) (bytes : Bytes) (m : SessionManager) → Keeps m (send_data o tunnel sid bytes m)
  unfolding send_data calls
  send_data-Keeps tunnel bytes m =
      Keeps-if (o.is_up tunnel) (Keeps-emit (send tunnel _) m (λ i. refl))
        (data_sent-Keeps (length bytes) m)

  pub forward_local_to_agent-Keeps :
      (bytes : Bytes) (m : SessionManager) → Keeps m (forward_local_to_agent o sid bytes m)
  unfolding forward_local_to_agent
  forward_local_to_agent-Keeps bytes m = Keeps-found (lookup sid m.sessions) λ s.
      Keeps-found s.tunnel λ tunnel. Keeps-if (not (may_send s.state)) (Keeps-refl m) (
        Keeps-if (length bytes == 0) (Keeps-refl m)
          (modify_then sid _ m _ (send_data-Keeps tunnel bytes _)))

  send_if_up-Keeps :
      (t : Option ℕ) (f : Frame) (m : SessionManager) → Keeps m (send_if_up o t sid f m)
  unfolding send_if_up calls
  send_if_up-Keeps none f m = Keeps-refl m
  send_if_up-Keeps (some t) f m =
      Keeps-if (o.is_up t) (Keeps-emit (send t _) m (λ i. refl)) (Keeps-refl m)

  pub close_session-Keeps : (m : SessionManager) → Keeps m (close_session o sid m)
  unfolding close_session
  close_session-Keeps m = Keeps-found (lookup sid m.sessions) λ s.
      Keeps-if (is_closed s.state) (Keeps-refl m)
        (Keeps-trans m _ _ (send_if_up-Keeps s.tunnel _ m) (transition_to_closed-Keeps o sid _))

  after_read-Keeps :
      (s : SessionEntry) (r : ReadResult) (m : SessionManager) → Keeps m (after_read o sid s r m)
  unfolding after_read
  after_read-Keeps s (received bytes) m =
      let given : Keeps m (
          if not (length bytes == 0) && is_connected s.state
          then forward_local_to_agent o sid bytes m
          else m) =
        Keeps-if (not (length bytes == 0) && is_connected s.state)
          (forward_local_to_agent-Keeps bytes m) (Keeps-refl m) in
      Keeps-if (is_connected s.state) (Keeps-trans m _ _ given (start_local_read-Keeps _)) given
  after_read-Keeps s eof m =
      let given = send_if_up-Keeps s.tunnel _ m in
      Keeps-if (is_connected s.state) (Keeps-trans m _ _ given (Keeps-modify sid _ _)) given
  after_read-Keeps s read_aborted m = Keeps-refl m
  after_read-Keeps s read_error m = close_session-Keeps m

  pub local_read_done-Keeps :
      (r : ReadResult) (m : SessionManager) → Keeps m (local_read_done o sid r m)
  unfolding local_read_done
  local_read_done-Keeps r m =
      Keeps-found (lookup sid m.sessions) λ s. modify_then sid _ m _ (after_read-Keeps s r _)

  after_write-Keeps : (r : WriteResult) (m : SessionManager) → Keeps m (after_write o sid r m)
  unfolding after_write
  after_write-Keeps written m = do_local_write_next-Keeps m
  after_write-Keeps write_aborted m = Keeps-modify sid _ m
  after_write-Keeps write_error m = close_session-Keeps m

  pub local_write_done-Keeps :
      (r : WriteResult) (m : SessionManager) → Keeps m (local_write_done o sid r m)
  unfolding local_write_done
  local_write_done-Keeps r m =
      Keeps-found (lookup sid m.sessions) λ s. modify_then sid _ m _ (after_write-Keeps r _)
