-- ===== src/Tests/Connection.antt =====
-- Histories of a connection, and instances of its theorems.
use remote_tool.Prelude.{ℕ, ◌+◌, ◌≡◌, refl, true, false, some, List, [], ◌∷◌, ◌++◌}
use remote_tool.Protocol.Frame.{Frame, encode_frame}
use remote_tool.Session.Manager.Local.{written, eof}
use remote_tool.Tunnel.Connection.State.{control, session, new_connection, is_connected}
use remote_tool.Tunnel.Connection.Steps.{
  Call, sends, ConnectionEvent, called, read_ended, write_ended, connection_run,
}
use remote_tool.Tunnel.Connection.Callbacks.{told, given, held}
use remote_tool.Tunnel.Connection.Told.{told_or_held}
use remote_tool.Tunnel.Connection.Ended.{told_at_end}
use remote_tool.Tunnel.Connection.Queues.{taken, started, texts, unwritten}
use remote_tool.Tunnel.Connection.InOrder.{in_order}

abbrev no_reaction : Frame → List Call
no_reaction f = []

-- A frame of a session and one of the connection, as far as sending looks at them.
abbrev of_type : ℕ → Frame
of_type t = record {
  header = record { version = 1; msg_type = t; flags = 0; session_id = 1; payload_length = 0 };
  payload = [];
}

-- Two frames of a session and, after them, a heartbeat, which goes second.
abbrev three_sent : List ConnectionEvent
three_sent =
    called (sends (of_type 0x13) (some 1))
    ∷ called (sends (of_type 0x15) (some 2))
    ∷ called (sends (of_type 0x03) (some 3))
    ∷ write_ended written
    ∷ []

abbrev then_lost : List ConnectionEvent
then_lost = three_sent ++ read_ended eof ∷ []

heartbeat_overtakes :
    (let c = connection_run (λ s. true) no_reaction three_sent (new_connection true) in
      (started session c.effects ≡ encode_frame (of_type 0x13) ∷ [])
      × (started control c.effects ≡ encode_frame (of_type 0x03) ∷ [])
      × (texts (unwritten session c) ≡ encode_frame (of_type 0x15) ∷ []))
unfolding connection_run started texts
heartbeat_overtakes = (refl, refl, refl)

told_or_held_example :
    (let c = connection_run (λ s. true) no_reaction three_sent (new_connection true) in
      told 2 c.effects + held 2 c ≡ given 2 c.effects)
told_or_held_example = told_or_held 2 no_reaction (λ s. true) true three_sent

three_sent-connected :
    is_connected (connection_run (λ s. true) no_reaction three_sent (new_connection true)).state
    ≡ true
unfolding connection_run
three_sent-connected = refl

in_order_example :
    (let c = connection_run (λ s. true) no_reaction three_sent (new_connection true) in
      taken session c.effects ≡ started session c.effects ++ texts (unwritten session c))
in_order_example = in_order session no_reaction (λ s. true) true three_sent three_sent-connected

then_lost-closed :
    is_connected (connection_run (λ s. true) no_reaction then_lost (new_connection true)).state
    ≡ false
unfolding connection_run
then_lost-closed = refl

told_at_end_example :
    (let c = connection_run (λ s. true) no_reaction then_lost (new_connection true) in
      told 2 c.effects ≡ given 2 c.effects)
told_at_end_example = told_at_end 2 no_reaction (λ s. true) true then_lost then_lost-closed
