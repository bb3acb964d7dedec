-- ===== src/Agent/Session/Histories.antt =====
-- What holds in any history of an `AgentSession`: its calls, reads, writes and frames in any order.
use remote_tool.Prelude.{
  ℕ, ◌≤◌, ◌≡◌, refl, ap, sym, subst, ◌∙◌, Bool, true, false, List, [], ◌∷◌, ◌++◌, append-nil,
  append_assoc, Bytes, codes, if◌then◌else◌, arith, inl, inr, Bool-cases,
}
use remote_tool.Protocol.Frame.{Frame}
use remote_tool.Session.Manager.State.{connecting, is_idle, is_closed}
use remote_tool.Agent.Session.State.{
  AgentSession, waits, connects, effect, send_session_frame, cleanup,
}
use remote_tool.Agent.Session.Target.{open_failed}
use remote_tool.Agent.Session.Effects.{
  fired, written_bytes, fired-append, finned-append, fin_last-append,
}
use remote_tool.Agent.Session.Steps.{
  calls, stream, waiting, accepts, Prefix, IsSound, Leads, Leads-refl, Prefix-trans,
}
use remote_tool.Agent.Session.Operations.{Leads-cleanup}
use remote_tool.Protocol.Messages.Session.{OpenSessionMessage}
use remote_tool.Agent.Session.State.{Network}
use remote_tool.Agent.Session.Target.{on_open_session}
use remote_tool.Agent.Session.Frames.{
  frame_received, SessionEvent, opened, frame, timer, connection, target_read, target_write,
  callback_set, destroyed, session_step, session_run,
}
use remote_tool.Agent.Session.Ends.{
  Leads-open_failed, Leads-target_write_done, Leads-target_read_done,
}
use remote_tool.Agent.Session.Data.{Takes, Takes-Leads}
use remote_tool.Agent.Session.State.{new_session}
use remote_tool.Agent.Session.Events.{
  data_of, Leads-connect_timed_out, Leads-connect_done, Takes-frame,
}
use remote_tool.Agent.Session.State.{drop_timer, close_socket, fire_on_closed}
use remote_tool.Agent.Session.Target.{cast_u16}
use remote_tool.Agent.Session.Handlers.{Leads-set_on_closed}

module _ (strtod_ok : Bytes → Bool) (net : Network) (s : AgentSession) (v : IsSound s) where
  not_reopened :
      (msg : OpenSessionMessage) (sid : ℕ)
      → is_idle s.state ≡ false
      → Leads s (on_open_session net msg sid s)
  unfolding on_open_session
  not_reopened msg sid b = rw b (Leads-refl s)

  Takes-step :
      is_idle s.state ≡ false
      → (e : SessionEvent) → Takes (data_of e) s (session_step strtod_ok net e s)
  unfolding session_step
  Takes-step b (opened msg sid) = Takes-Leads [] s v b refl (not_reopened msg sid b)
  Takes-step b (frame f) = Takes-frame strtod_ok net s f v b
  Takes-step b (timer is_abort) = Takes-Leads [] s v b refl (Leads-connect_timed_out s is_abort)
  Takes-step b (connection r) = Takes-Leads [] s v b refl (Leads-connect_done s r)
  Takes-step b (target_read r) = Takes-Leads [] s v b refl (Leads-target_read_done s r)
  Takes-step b (target_write r) = Takes-Leads [] s v b refl (Leads-target_write_done s r)
  Takes-step b (callback_set cb) = Takes-Leads [] s v b refl (Leads-set_on_closed s cb)
  Takes-step b destroyed = Takes-Leads [] s v b refl (Leads-cleanup s)

-- What is kept from any state on.
pub record Safe (s t : AgentSession) : Type 0 where
  pub fewer : calls t ≤ calls s
  pub sound : IsSound t

module _ (strtod_ok : Bytes → Bool) (net : Network) (s : AgentSession) (v : IsSound s) where
  Safe-Leads : {t : AgentSession} → Leads s t → Safe s t
  Safe-Leads p = record { fewer = p.fewer; sound = p.sound v }

  Safe-Takes : {t : AgentSession} {d : Bytes} → Takes d s t → Safe s t
  Safe-Takes p = record { fewer = p.fewer; sound = p.sound }

  -- A session that opens.
  pub Safe-opened : (msg : OpenSessionMessage) (sid : ℕ) → Safe s (on_open_session net msg sid s)
  unfolding on_open_session effect
  Safe-opened msg sid =
      let s1 = record s {
        session_id = sid;
        mapping_id = msg.mapping_id;
        target_host = msg.target_host;
        target_port = msg.target_port;
        state = connecting;
        target_socket = true;
        socket_open = false;
      } in
      let begins : is_idle s.state ≡ true → Safe s s1 = λ i. record {
        fewer = ground (arith, i);
        sound = record { writing = v.writing; done = v.done; ended = v.ended; last = v.last };
      } in
      elim (Bool-cases (is_idle s.state)) [
        | inr c ↦ rw c (Safe-Leads (Leads-refl s))
        | inl c ↦ rw c (elim (Bool-cases (net.is_address msg.target_host)) [
          | inr n ↦ rw n (
              let p =
                Leads-open_failed s1 (codes "TARGET_CONNECTION_REFUSED")
                  (codes "invalid target address: " ++ msg.target_host) in
              record {
                fewer = omega (arith, p.fewer, (begins c).fewer);
                sound = p.sound (begins c).sound;
              })
          | inl n ↦ rw n (
              let w = waits msg.connect_timeout_ms ∷ [] in
              let x = connects msg.target_host (cast_u16 msg.target_port) ∷ [] in
              let es = s.effects ++ w in
              record {
                fewer = ground (arith, fired-append s.effects w, fired-append es x, c);
                sound = record {
                  writing = v.writing;
                  done = v.done;
                  ended =
                      λ f. v.ended (ground (arith, finned-append s.effects w, finned-append es x));
                  last = ground (arith, fin_last-append s.effects w, fin_last-append es x, v.last);
                };
              })
        ])
      ]

  -- An idle session leaves all but its opening.
  Safe-frame_idle : (f : Frame) → is_idle s.state ≡ true → Safe s (frame_received strtod_ok f s)
  unfolding frame_received
  Safe-frame_idle f i = rw i (Safe-Leads (Leads-refl s))

  Safe-step : (e : SessionEvent) → Safe s (session_step strtod_ok net e s)
  unfolding session_step
  Safe-step (opened msg sid) = Safe-opened msg sid
  Safe-step (frame f) = elim (Bool-cases (is_idle s.state)) [
    | inl i ↦ Safe-frame_idle f i
    | inr b ↦ Safe-Takes (Takes-frame strtod_ok net s f v b)
  ]
  Safe-step (timer is_abort) = Safe-Leads (Leads-connect_timed_out s is_abort)
  Safe-step (connection r) = Safe-Leads (Leads-connect_done s r)
  Safe-step (target_read r) = Safe-Leads (Leads-target_read_done s r)
  Safe-step (target_write r) = Safe-Leads (Leads-target_write_done s r)
  Safe-step (callback_set cb) = Safe-Leads (Leads-set_on_closed s cb)
  Safe-step destroyed = Safe-Leads (Leads-cleanup s)

pub Safe-run :
    (strtod_ok : Bytes → Bool) (es : List (Network × SessionEvent)) (s : AgentSession)
    → IsSound s
    → Safe s (session_run strtod_ok es s)
unfolding session_run
Safe-run strtod_ok [] s v = record { fewer = omega arith; sound = v }
Safe-run strtod_ok (x ∷ es) s v =
    let one = Safe-step strtod_ok x.0 s v x.1 in
    let more = Safe-run strtod_ok es (session_step strtod_ok x.0 x.1 s) one.sound in
    record { fewer = omega (arith, one.fewer, more.fewer); sound = more.sound }

pub new_session-IsSound : IsSound new_session
new_session-IsSound = record { writing = refl; done = λ e. cc; ended = λ e. cc; last = refl }

-- In any history of a new session the callback on closing is called at most once, and only where the
-- session is closed, however often and whenever it is set.
pub on_closed_once :
    (strtod_ok : Bytes → Bool) (es : List (Network × SessionEvent))
    → let s = session_run strtod_ok es new_session in
      fired s.effects ≤ (if is_closed s.state then 1 else 0)
on_closed_once strtod_ok es =
    let p = Safe-run strtod_ok es new_session new_session-IsSound in ground (arith, p.fewer)

-- The data that a list of events brings.
abbrev pub data_of_all : List (Network × SessionEvent) → Bytes
data_of_all [] = []
data_of_all (x ∷ es) = data_of x.1 ++ data_of_all es

record InOrder (brought : Bytes) (s : AgentSession) : Type 0 where
  sound : IsSound s
  begun : is_idle s.state ≡ false
  all_taken : accepts s ≡ true → stream s ≡ brought
  in_order : Prefix (stream s) brought

InOrder-step :
    (strtod_ok : Bytes → Bool) (net : Network) (e : SessionEvent) (brought : Bytes)
    (s : AgentSession)
    → InOrder brought s
    → InOrder (brought ++ data_of e) (session_step strtod_ok net e s)
InOrder-step strtod_ok net e brought s h =
    let p = Takes-step strtod_ok net s h.sound h.begun e in
    let t = session_step strtod_ok net e s in
    record {
      sound = p.sound;
      begun = p.begun;
      all_taken = λ a. let (b, q) = p.kept a in q ∙ ap (λ l. l ++ data_of e) (h.all_taken b);
      in_order = elim (Bool-cases (accepts s)) [
        | inl a ↦ subst (λ l. Prefix (stream t) (l ++ data_of e)) (h.all_taken a) p.cut
        | inr a ↦
            Prefix-trans (stream t) (stream s) (brought ++ data_of e) (p.ceased a)
              (Prefix-trans (stream s) brought (brought ++ data_of e) h.in_order (data_of e, refl))
      ];
    }

InOrder-run :
    (strtod_ok : Bytes → Bool) (es : List (Network × SessionEvent)) (brought : Bytes)
    (s : AgentSession)
    → InOrder brought s
    → InOrder (brought ++ data_of_all es) (session_run strtod_ok es s)
unfolding session_run
InOrder-run strtod_ok [] brought s h = rw append-nil h
InOrder-run strtod_ok (x ∷ es) brought s h =
    subst (λ l. InOrder l (session_run strtod_ok (x ∷ es) s))
      (append_assoc brought (data_of x.1) (data_of_all es))
      (InOrder-run strtod_ok es (brought ++ data_of x.1) (session_step strtod_ok x.0 x.1 s)
        (InOrder-step strtod_ok x.0 x.1 brought s h))

module _ (net : Network) (msg : OpenSessionMessage) (sid : ℕ) where
  -- Nothing is in the stream of a session that has just opened, or failed to.
  opened_empty :
      let s = on_open_session net msg sid new_session in (stream s ≡ []) × (is_idle s.state ≡ false)
  unfolding on_open_session open_failed send_session_frame cleanup drop_timer close_socket
      fire_on_closed effect
  opened_empty = elim (Bool-cases (net.is_address msg.target_host)) [
    | inl n ↦ rw n (refl, refl)
    | inr n ↦ rw n (refl, refl)
  ]

  -- After the opening of a session, in any history, what was written to its target is the start of the
  -- data of all SESSION_DATA frames that have come, in order; and while more data would be taken, it is
  -- all of them but those that wait in the queue.
  pub written_in_order :
      (strtod_ok : Bytes → Bool) (es : List (Network × SessionEvent))
      → let s = session_run strtod_ok es (on_open_session net msg sid new_session) in
        Prefix (written_bytes s.effects) (data_of_all es)
        × (accepts s ≡ true
            → written_bytes s.effects ++ waiting s.target_write_queue ≡ data_of_all es)
  written_in_order strtod_ok es =
      let s0 = on_open_session net msg sid new_session in
      let safe = Safe-opened strtod_ok net new_session new_session-IsSound msg sid in
      let (nothing, begun) = opened_empty in
      let start : InOrder [] s0 = record {
        sound = safe.sound;
        begun = begun;
        all_taken = λ h. nothing;
        in_order = ([], sym (append-nil (stream s0) ∙ nothing));
      } in
      let s = session_run strtod_ok es s0 in
      let h = InOrder-run strtod_ok es [] s0 start in
      (
        Prefix-trans (written_bytes s.effects) (stream s) (data_of_all es)
            (waiting s.target_write_queue, refl) h.in_order,
        h.all_taken,
      )
