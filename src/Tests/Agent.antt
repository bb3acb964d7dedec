-- ===== src/Tests/Agent.antt =====
-- Histories of a session of the agent, and instances of its theorems.
use remote_tool.Prelude.{◌≤◌, ◌≡◌, refl, true, pos, none, List, [], ◌∷◌, ◌++◌, codes, if◌then◌else◌}
use remote_tool.Protocol.Frame.{Frame}
use remote_tool.Protocol.Messages.Session.{
  OpenSessionMessage, encode_session_data, encode_close_session,
}
use remote_tool.Protocol.Messages.ReadBack.RoundTrip.{for_session}
use remote_tool.Session.Manager.State.{connected, is_closed}
use remote_tool.Agent.Session.State.{AgentSession, Network, writes, new_session}
use remote_tool.Agent.Session.Target.{on_open_session, reached, written}
use remote_tool.Agent.Session.Frames.{
  SessionEvent, opened, frame, connection, target_write, callback_set, destroyed, frame_received,
  session_run, handle_half_close,
}
use remote_tool.Agent.Session.Effects.{fired, written_bytes}
use remote_tool.Agent.Session.Steps.{IsSound, Prefix, accepts, waiting}
use remote_tool.Agent.Session.Histories.{on_closed_once, data_of_all, written_in_order}
use remote_tool.Agent.Session.Endings.{
  writes_done, IsDrained, half_close-IsDrained, closed_silently,
}

abbrev anywhere : Network
anywhere = record { is_address = λ s. true; opens = true }

abbrev web : OpenSessionMessage
web = record {
  mapping_id = codes "web";
  target_host = codes "10.0.0.5";
  target_port = pos 80;
  connect_timeout_ms = pos 5000;
}

abbrev bye : Frame
bye = for_session 7 (encode_close_session (record { reason = codes "NORMAL"; message = [] }))

abbrev brief : List (Network × SessionEvent)
brief =
    (anywhere, callback_set true)
    ∷ (anywhere, opened web 7)
    ∷ (anywhere, connection (reached none))
    ∷ (anywhere, frame (encode_session_data 7 (codes "GET")))
    ∷ (anywhere, target_write written)
    ∷ (anywhere, destroyed)
    ∷ []

on_closed_once_example :
    let s = session_run (λ x. true) brief new_session in
    fired s.effects ≤ (if is_closed s.state then 1 else 0)
on_closed_once_example = on_closed_once (λ x. true) brief

abbrev uploads : List (Network × SessionEvent)
uploads =
    (anywhere, connection (reached none))
    ∷ (anywhere, frame (encode_session_data 7 (codes "GET ")))
    ∷ (anywhere, frame (encode_session_data 7 (codes "/")))
    ∷ (anywhere, target_write written)
    ∷ []

written_in_order_example :
    let s = session_run (λ x. true) uploads (on_open_session anywhere web 7 new_session) in
    Prefix (written_bytes s.effects) (data_of_all uploads)
    × (accepts s ≡ true
        → written_bytes s.effects ++ waiting s.target_write_queue ≡ data_of_all uploads)
written_in_order_example = written_in_order anywhere web 7 (λ x. true) uploads

-- A connected session with two entries in its queue, the first of which is being written.
abbrev busy : AgentSession
busy = record new_session {
  state = connected;
  session_id = 7;
  target_socket = true;
  socket_open = true;
  target_write_queue = codes "GET " ∷ codes "/" ∷ [];
  writing_to_target = true;
  on_closed = true;
  effects = writes (codes "GET ") ∷ [];
}

busy-IsSound : IsSound busy
busy-IsSound = record { writing = refl; done = λ e. cc; ended = λ e. cc; last = refl }

half_close-IsDrained_example :
    IsDrained (codes "GET /") (writes_done (λ x. true) anywhere 2 (handle_half_close busy))
half_close-IsDrained_example =
    half_close-IsDrained (λ x. true) anywhere busy busy-IsSound refl refl refl refl

closed_silently_example :
    (is_closed (frame_received (λ x. true) bye busy).state ≡ true)
    × (fired (session_run (λ x. true) brief (frame_received (λ x. true) bye busy)).effects
        ≤ fired busy.effects)
unfolding encode_close_session
closed_silently_example = closed_silently (λ x. true) bye busy brief busy-IsSound refl refl refl
