-- ===== src/Tunnel/Devices/Unique.antt =====
-- No device id is online on two connections, in any history of a `DeviceManager`.
use remote_tool.Prelude.{
  ℕ, ◌≤◌, ◌≡◌, refl, sym, subst, Bool, false, ◌&&◌, List, [], ◌∷◌, Bytes, bytes_eq, bytes_eq_iff,
  ◌==◌, Bool-cases, Option-cases, inl, inr, arith,
}
use remote_tool.Protocol.Msg
use remote_tool.Protocol.Frame.{Frame}
use remote_tool.Protocol.Messages.Connection.{
  HelloMessage, HeartbeatMessage, decode_hello, decode_heartbeat,
}
use remote_tool.Protocol.Messages.Extract.{Decoded, ok, err}
use remote_tool.Tunnel.Devices.State.{
  ConnEntry, DeviceManager, new_device_manager, Surroundings, perform, hangs_up, find_conn,
  find_device, alter, erase_conn, on_new_connection, is_online,
}
use remote_tool.Tunnel.Devices.Dispatch.{
  now_online, tell_online, send_hello_ack, send_heartbeat_ack, handle_hello, handle_heartbeat,
  on_connection_closed, close_conn, hello_decoded, heartbeat_decoded, dispatch, seen_now,
  on_frame_received,
}
use remote_tool.Tunnel.Devices.Timeouts.{
  DeviceEvent, accepted, frame, closed, cleanup_due, callbacks_set, device_step, device_run,
}
use remote_tool.Tunnel.Devices.Counts.{
  entries_of, entries_of-erase_conn, entries_of-assign, entries_of-alter, entries_of-alter_le,
  find_device-entries_of,
}
use remote_tool.Tunnel.Devices.Expiry.{
  tell_offline-connections, fresh_entries_of_le, cleanup_timeouts_lem,
}

unfoldable IsUnique : List (ℕ × ConnEntry) → Type 0
IsUnique xs = (id : Bytes) → entries_of id xs ≤ 1

tell_online-connections :
    (e : ConnEntry) (m : DeviceManager) → (tell_online e.device m).connections ≡ m.connections
unfolding perform
tell_online-connections e m = elim (Bool-cases m.on_device_online) [
  | inl y ↦ rw y refl
  | inr n ↦ rw n refl
]

is_online-entries_of :
    (id : Bytes) (m : DeviceManager) → is_online id m ≡ false → entries_of id m.connections ≡ 0
unfolding is_online
is_online-entries_of id m n = elim (Option-cases (find_device id m.connections)) [
  | inl e ↦ find_device-entries_of id m.connections e
  | inr (x, e) ↦ ground (arith, n, e)
]

module _ (o : Surroundings) (c : ℕ) (m : DeviceManager) (u : IsUnique m.connections) where
  -- A device that was not online is now online once.
  IsUnique-now_online :
      (hello : HelloMessage)
      → is_online hello.device_id m ≡ false
      → IsUnique (alter c (now_online o hello) m.connections)
  unfolding IsUnique
  IsUnique-now_online hello n id = elim (Bool-cases (bytes_eq hello.device_id id)) [
    | inl y ↦
        let none_yet =
          subst (λ d. entries_of d m.connections ≡ 0) ((bytes_eq_iff hello.device_id id).0 y)
            (is_online-entries_of hello.device_id m n) in
        omega (arith, none_yet, entries_of-alter id c (now_online o hello) m.connections)
    | inr d ↦
        let fewer =
          entries_of-alter_le id c (now_online o hello) (λ e h. ground (arith, h, d))
            m.connections in
        omega (arith, fewer, u id)
  ]

  IsUnique-handle_hello : (hello : HelloMessage) → IsUnique (handle_hello o c hello m).connections
  unfolding handle_hello send_hello_ack perform
  IsUnique-handle_hello hello = elim (Option-cases (find_conn c m.connections)) [
    | inl n ↦ rw (n, handle_hello) u
    | inr (e, y) ↦ elim (Bool-cases (is_online hello.device_id m)) [
      | inl b ↦ rw (y, b, handle_hello) u
      | inr b ↦
          rw (y, b, handle_hello)
            (subst IsUnique (sym (tell_online-connections (now_online o hello e) _))
              (IsUnique-now_online hello b))
    ]
  ]

  IsUnique-handle_heartbeat :
      (hb : HeartbeatMessage) → IsUnique (handle_heartbeat o c hb m).connections
  unfolding handle_heartbeat send_heartbeat_ack perform
  IsUnique-handle_heartbeat hb = elim (Option-cases (find_conn c m.connections)) [
    | inl n ↦ rw (n, handle_heartbeat) u
    | inr (e, y) ↦ rw (y, handle_heartbeat) u
  ]

  IsUnique-erase_conn : IsUnique (erase_conn c m.connections)
  unfolding IsUnique
  IsUnique-erase_conn id = omega (arith, u id, entries_of-erase_conn id c m.connections)

  IsUnique-seen_now : IsUnique (alter c (seen_now o) m.connections)
  unfolding IsUnique
  IsUnique-seen_now id =
      omega (arith, u id, entries_of-alter_le id c (seen_now o) (λ e h. h) m.connections)

  IsUnique-on_connection_closed : IsUnique (on_connection_closed c m).connections
  unfolding on_connection_closed
  IsUnique-on_connection_closed = elim (Option-cases (find_conn c m.connections)) [
    | inl n ↦ rw (n, on_connection_closed) u
    | inr (e, y) ↦ elim (Bool-cases e.device.online) [
      | inl b ↦
          simp (y, b, on_connection_closed)
            (subst IsUnique (sym (tell_offline-connections e.device _)) IsUnique-erase_conn)
      | inr b ↦ simp (y, b, on_connection_closed) IsUnique-erase_conn
    ]
  ]

module _ (o : Surroundings) (c : ℕ) (m : DeviceManager) (u : IsUnique m.connections) where
  IsUnique-close_conn : IsUnique (close_conn o c m).connections
  unfolding close_conn perform
  IsUnique-close_conn = elim (Option-cases (find_conn c m.connections)) [
    | inl n ↦ rw (n, close_conn) u
    | inr (e, y) ↦ elim (Bool-cases (o.is_open c && e.watched)) [
      | inl b ↦ rw (y, b, close_conn) (IsUnique-on_connection_closed o c (perform (hangs_up c) m) u)
      | inr b ↦ rw (y, b, close_conn) u
    ]
  ]

module _ (o : Surroundings) (c : ℕ) (m : DeviceManager) (u : IsUnique m.connections) where
  IsUnique-hello_decoded : (r : Decoded HelloMessage) → IsUnique (hello_decoded o c r m).connections
  unfolding hello_decoded
  IsUnique-hello_decoded (ok hello) = IsUnique-handle_hello o c m u hello
  IsUnique-hello_decoded (err e) = IsUnique-close_conn o c m u

  IsUnique-heartbeat_decoded :
      (r : Decoded HeartbeatMessage) → IsUnique (heartbeat_decoded o c r m).connections
  unfolding heartbeat_decoded
  IsUnique-heartbeat_decoded (ok hb) = IsUnique-handle_heartbeat o c m u hb
  IsUnique-heartbeat_decoded (err e) = IsUnique-close_conn o c m u

module _ (strtod_ok : Bytes → Bool) (o : Surroundings) where
  IsUnique-dispatch :
      (c : ℕ) (f : Frame) (m : DeviceManager)
      → IsUnique m.connections
      → IsUnique (dispatch strtod_ok o c f m).connections
  unfolding dispatch perform
  IsUnique-dispatch c f m u = elim (Bool-cases (f.header.msg_type == Msg.hello)) [
    | inl b ↦ rw (b, dispatch) (IsUnique-hello_decoded o c m u (decode_hello strtod_ok f))
    | inr b ↦ elim (Bool-cases (f.header.msg_type == Msg.heartbeat)) [
      | inl b1 ↦
          rw (b, b1, dispatch) (IsUnique-heartbeat_decoded o c m u (decode_heartbeat strtod_ok f))
      | inr b1 ↦ elim (Bool-cases m.on_unhandled_frame) [
        | inl h ↦ rw (b, b1, h, dispatch) u
        | inr h ↦ rw (b, b1, h, dispatch) u
      ]
    ]
  ]

  IsUnique-on_frame_received :
      (c : ℕ) (f : Frame) (m : DeviceManager)
      → IsUnique m.connections
      → IsUnique (on_frame_received strtod_ok o c f m).connections
  unfolding on_frame_received
  IsUnique-on_frame_received c f m u = elim (Option-cases (find_conn c m.connections)) [
    | inl n ↦ rw (n, on_frame_received) u
    | inr (e, y) ↦ rw (y, on_frame_received) (IsUnique-dispatch c f _ (IsUnique-seen_now o c m u))
  ]

  IsUnique-device_step :
      (e : DeviceEvent) (m : DeviceManager)
      → IsUnique m.connections
      → IsUnique (device_step strtod_ok o e m).connections
  unfolding device_step IsUnique on_new_connection perform
  IsUnique-device_step (accepted c a) m u =
      λ id. omega (arith, u id, entries_of-assign id c a m.connections)
  IsUnique-device_step (frame c f) m u = IsUnique-on_frame_received c f m u
  IsUnique-device_step (closed c) m u = IsUnique-on_connection_closed o c m u
  IsUnique-device_step cleanup_due m u = λ id.
      omega (arith, u id, cleanup_timeouts_lem o id m, fresh_entries_of_le o.now id m.connections)
  IsUnique-device_step (callbacks_set online offline unhandled) m u = u

module _ (strtod_ok : Bytes → Bool) where
  IsUnique-device_run :
      (es : List (Surroundings × DeviceEvent)) (m : DeviceManager)
      → IsUnique m.connections
      → IsUnique (device_run strtod_ok es m).connections
  unfolding device_run
  IsUnique-device_run [] m u = u
  IsUnique-device_run (x ∷ es) m u =
      IsUnique-device_run es (device_step strtod_ok x.0 x.1 m)
        (IsUnique-device_step strtod_ok x.0 x.1 m u)

  -- From the empty table, through any sequence of accepted connections, frames, closings, cleanups and
  -- changes of the callbacks, at most one entry is online with a given device id.
  pub online_once :
      (es : List (Surroundings × DeviceEvent)) (id : Bytes)
      → entries_of id (device_run strtod_ok es new_device_manager).connections ≤ 1
  unfolding IsUnique entries_of
  online_once es id = IsUnique-device_run es new_device_manager (λ d. omega arith) id
