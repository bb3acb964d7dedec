-- ===== src/Tunnel/Devices/Dispatch.antt =====
-- The frames and the closings of `DeviceManager`.
use remote_tool.Prelude.{
  ℕ, Bool, true, false, ◌&&◌, ℤ, pos, none, some, [], ◌++◌, Bytes, codes, ◌==◌, if◌then◌else◌,
}
use remote_tool.Protocol.Msg
use remote_tool.Protocol.Frame.{Frame}
use remote_tool.Protocol.Messages.Extract.{Decoded, ok, err}
use remote_tool.Protocol.Messages.Connection.{
  HelloMessage, HeartbeatMessage, encode_hello_ack, encode_heartbeat_ack, decode_hello,
  decode_heartbeat,
}
use remote_tool.Tunnel.Devices.State.{
  DeviceEntry, ConnEntry, acks, hangs_up, device_online, device_offline, unhandled, DeviceManager,
  Surroundings, perform, find_conn, alter, erase_conn, is_online,
}

-- HELLO_ACK with the constants of the server.
unfoldable pub send_hello_ack : ℕ → Bool → Bytes → Bytes → DeviceManager → DeviceManager
unfolding perform
send_hello_ack c accepted error_code message m =
    let limit : ℤ = if accepted then pos 128 else pos 0 in
    perform
      (acks c (
        encode_hello_ack (record {
          accepted = accepted;
          server_version = codes "0.1.0";
          heartbeat_interval_ms = pos 10000;
          heartbeat_timeout_ms = pos 30000;
          max_sessions = limit;
          error_code = error_code;
          message = message;
        })))
      m

unfoldable pub send_heartbeat_ack : Surroundings → ℕ → ℤ → DeviceManager → DeviceManager
unfolding perform
send_heartbeat_ack o c sequence m =
    perform
      (acks c
        (encode_heartbeat_ack (record { sequence = sequence; received_unix_ms = pos o.unix_ms })))
      m

abbrev pub now_online : Surroundings → HelloMessage → ConnEntry → ConnEntry
now_online o hello e = record e {
  device = record e.device {
    device_id = hello.device_id;
    online = true;
    agent_version = hello.agent_version;
    platform = hello.platform;
    last_frame_time = o.now;
  };
}

abbrev pub tell_online : DeviceEntry → DeviceManager → DeviceManager
tell_online d m = if m.on_device_online then perform (device_online d) m else m

abbrev pub tell_offline : DeviceEntry → DeviceManager → DeviceManager
tell_offline d m = if m.on_device_offline then perform (device_offline d) m else m

unfoldable pub handle_hello : Surroundings → ℕ → HelloMessage → DeviceManager → DeviceManager
unfolding is_online send_hello_ack alter perform
handle_hello o c hello m = elim (find_conn c m.connections) [
  | none ↦ m
  | some e ↦
      if is_online hello.device_id m
      then send_hello_ack c false (codes "DEVICE_BUSY")
          (codes "device \"" ++ (hello.device_id ++ codes "\" is already online")) m
      else tell_online (now_online o hello e).device (
          send_hello_ack c true [] []
            (record m { connections = alter c (now_online o hello) m.connections }))
]

unfoldable pub handle_heartbeat :
    Surroundings → ℕ → HeartbeatMessage → DeviceManager → DeviceManager
unfolding send_heartbeat_ack find_conn
handle_heartbeat o c hb m = elim (find_conn c m.connections) [
  | none ↦ m
  | some e ↦ send_heartbeat_ack o c hb.sequence m
]

unfoldable pub on_connection_closed : ℕ → DeviceManager → DeviceManager
unfolding find_conn erase_conn perform
on_connection_closed c m = elim (find_conn c m.connections) [
  | none ↦ m
  | some e ↦
      let gone = record m { connections = erase_conn c m.connections } in
      if e.device.online then tell_offline e.device gone else gone
]

-- `conn->close()`: a connection that is open, and still has the callback, calls it before it returns.
unfoldable pub close_conn : Surroundings → ℕ → DeviceManager → DeviceManager
unfolding on_connection_closed perform
close_conn o c m = elim (find_conn c m.connections) [
  | none ↦ perform (hangs_up c) m
  | some e ↦
      if o.is_open c && e.watched
      then on_connection_closed c (perform (hangs_up c) m)
      else perform (hangs_up c) m
]

unfoldable pub hello_decoded :
    Surroundings → ℕ → Decoded HelloMessage → DeviceManager → DeviceManager
unfolding handle_hello close_conn
hello_decoded o c (ok hello) m = handle_hello o c hello m
hello_decoded o c (err e) m = close_conn o c m

unfoldable pub heartbeat_decoded :
    Surroundings → ℕ → Decoded HeartbeatMessage → DeviceManager → DeviceManager
unfolding handle_heartbeat close_conn
heartbeat_decoded o c (ok hb) m = handle_heartbeat o c hb m
heartbeat_decoded o c (err e) m = close_conn o c m

abbrev pub seen_now : Surroundings → ConnEntry → ConnEntry
seen_now o e = record e { device = record e.device { last_frame_time = o.now } }

module _ (strtod_ok : Bytes → Bool) (o : Surroundings) where
  unfoldable pub dispatch : ℕ → Frame → DeviceManager → DeviceManager
  unfolding hello_decoded heartbeat_decoded perform
  dispatch c f m =
      if f.header.msg_type == Msg.hello
      then hello_decoded o c (decode_hello strtod_ok f) m
      else if f.header.msg_type == Msg.heartbeat
      then heartbeat_decoded o c (decode_heartbeat strtod_ok f) m
      else if m.on_unhandled_frame
      then perform (unhandled c f) m
      else m

  unfoldable pub on_frame_received : ℕ → Frame → DeviceManager → DeviceManager
  unfolding find_conn alter dispatch
  on_frame_received c f m = elim (find_conn c m.connections) [
    | none ↦ m
    | some e ↦ dispatch c f (record m { connections = alter c (seen_now o) m.connections })
  ]
