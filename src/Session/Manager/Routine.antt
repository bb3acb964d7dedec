-- ===== src/Session/Manager/Routine.antt =====
-- Frames, and every event but the creation of a session, keep the account.
use remote_tool.Prelude.{
  ℕ, ◌+◌, ◌≡◌, refl, arith, Bool, true, not, List, [], ◌∷◌, Bytes, bytes_eq, codes, length, ◌==◌,
}
use remote_tool.Protocol.Msg
use remote_tool.Protocol.Frame.{Frame}
use remote_tool.Protocol.Messages.Extract.{Decoded, ok, err}
use remote_tool.Protocol.Messages.Session.{
  decode_session_opened, decode_session_half_close, decode_session_data,
}
use remote_tool.Session.Manager.State.{
  SessionManager, Outside, lookup, attach_local_socket, set_max_sessions, is_closed, is_idle,
}
use remote_tool.Session.Manager.Agent.{
  may_receive, on_opened, on_open_failed, on_data, remote_half_closed, on_half_close, on_close,
  on_session_frame, close_all, remove_all_sessions_for_device, Event, creates, attaches,
  frame_arrives, forwards, closes, device_lost, sent, local_read, local_write, sets_max_sessions,
  sets_on_session_closed, step,
}
use remote_tool.Session.Manager.Account.{
  count_key, count_fired, Keeps, Keeps-refl, Keeps-trans, Keeps-modify, Keeps-if, Keeps-found,
  transition_to_closed-Keeps,
}
use remote_tool.Session.Manager.Steps.{
  modify_then, maybe_finish_local_close-Keeps, do_local_write-Keeps, start_local_read-Keeps,
  data_sent-Keeps, forward_local_to_agent-Keeps, close_session-Keeps, local_read_done-Keeps,
  local_write_done-Keeps,
}

module _ (strtod_ok : Bytes → Bool) (o : Outside) where
  Keeps-decoded :
      {A : Type 0} (d : Decoded A) {m : SessionManager} {f : A → SessionManager}
      → ((a : A) → Keeps m (f a))
      → Keeps m (elim d [ err e ↦ m | ok a ↦ f a ])
  Keeps-decoded (err e) {m} h = Keeps-refl m
  Keeps-decoded (ok a) h = h a

  on_session_frame-Keeps :
      (sid : ℕ) (f : Frame) (m : SessionManager) → Keeps m (on_session_frame strtod_ok o sid f m)
  unfolding on_session_frame on_opened on_open_failed on_data remote_half_closed on_half_close
      on_close
  on_session_frame-Keeps sid f m = Keeps-found (lookup sid m.sessions) λ s.
      Keeps-if (f.header.msg_type == Msg.session_opened)
        (Keeps-if (not (is_idle s.state)) (Keeps-refl m) (
          Keeps-decoded (decode_session_opened strtod_ok f)
            λ msg. modify_then sid _ m _ (start_local_read-Keeps o sid _)))
        (Keeps-if (f.header.msg_type == Msg.session_open_failed)
          (Keeps-if (not (is_idle s.state)) (Keeps-refl m) (transition_to_closed-Keeps o sid m))
          (Keeps-if (f.header.msg_type == Msg.session_data)
            (Keeps-if (not (may_receive s.state)) (Keeps-refl m) (
              Keeps-found s.local_socket λ socket.
                Keeps-if (length (decode_session_data f) == 0) (Keeps-refl m)
                  (modify_then sid _ m _ (do_local_write-Keeps o sid (decode_session_data f) _))))
            (Keeps-if (f.header.msg_type == Msg.session_half_close)
              (Keeps-if (not (may_receive s.state)) (Keeps-refl m) (
                Keeps-decoded (decode_session_half_close strtod_ok f) λ msg.
                  Keeps-if (bytes_eq msg.direction (codes "write"))
                    (modify_then sid _ m _ (maybe_finish_local_close-Keeps o sid _))
                    (Keeps-refl m)))
              (Keeps-if (f.header.msg_type == Msg.close_session)
                (Keeps-if (is_closed s.state) (Keeps-refl m) (transition_to_closed-Keeps o sid m))
                (Keeps-refl m)))))

  close_all-Keeps : (sids : List ℕ) (m : SessionManager) → Keeps m (close_all strtod_ok o sids m)
  unfolding close_all
  close_all-Keeps [] m = Keeps-refl m
  close_all-Keeps (sid ∷ sids) m =
      Keeps-trans m _ _ (close_session-Keeps o sid m) (close_all-Keeps sids _)

-- The events that keep the account: all but the creation of a session, and the change of the
-- callback itself.
abbrev pub IsRoutine : Event → Type 0
IsRoutine (creates device tunnel mapping) = ⊥
IsRoutine (sets_on_session_closed cb) = ⊥
IsRoutine _ = Unit

pub step-Keeps :
    (strtod_ok : Bytes → Bool) (o : Outside) (e : Event) (m : SessionManager)
    → IsRoutine e
    → Keeps m (step strtod_ok o e m)
unfolding step attach_local_socket set_max_sessions remove_all_sessions_for_device
step-Keeps strtod_ok o (creates device tunnel mapping) m r = absurd r
step-Keeps strtod_ok o (attaches sid socket) m r = Keeps-modify sid _ m
step-Keeps strtod_ok o (frame_arrives sid f) m r = on_session_frame-Keeps strtod_ok o sid f m
step-Keeps strtod_ok o (forwards sid bytes) m r = forward_local_to_agent-Keeps o sid bytes m
step-Keeps strtod_ok o (closes sid) m r = close_session-Keeps o sid m
step-Keeps strtod_ok o (device_lost device) m r = close_all-Keeps strtod_ok o _ m
step-Keeps strtod_ok o (sent sid len) m r = data_sent-Keeps o sid len m
step-Keeps strtod_ok o (local_read sid x) m r = local_read_done-Keeps o sid x m
step-Keeps strtod_ok o (local_write sid x) m r = local_write_done-Keeps o sid x m
step-Keeps strtod_ok o (sets_max_sessions limit) m r = record {
  at_most = λ sid. omega arith;
  exact = λ set sid. refl;
  same_next = refl;
  same_callback = refl;
}
step-Keeps strtod_ok o (sets_on_session_closed cb) m r = absurd r

-- Where the callback is set, a session leaves the table with exactly one call of it, and no call
-- comes without that: any event but the creation of a session and the setting of the callback keeps,
-- for every id, the sessions in the table and the calls so far together.
pub step-accounts :
    (strtod_ok : Bytes → Bool) (o : Outside) (e : Event) (m : SessionManager) (sid : ℕ)
    → IsRoutine e
    → m.on_session_closed ≡ true
    → let n = step strtod_ok o e m in
      count_key sid n.sessions + count_fired sid n.effects
      ≡ count_key sid m.sessions + count_fired sid m.effects
step-accounts strtod_ok o e m sid routine set = (step-Keeps strtod_ok o e m routine).exact set sid
