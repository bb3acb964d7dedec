-- ===== src/Tunnel/Devices/Timeouts.antt =====
-- The timeouts of `DeviceManager`, and all that can happen to it.
use remote_tool.Prelude.{
  ℕ, ◌+◌, Bool, false, ◌&&◌, none, some, List, [], ◌∷◌, Bytes, ltb, if◌then◌else◌,
}
use remote_tool.Protocol.Frame.{Frame}
use remote_tool.Tunnel.Devices.State.{
  DeviceEntry, ConnEntry, hangs_up, DeviceManager, Surroundings, perform, on_new_connection,
  is_device, find_device,
}
use remote_tool.Tunnel.Devices.Dispatch.{tell_offline, on_connection_closed, on_frame_received}

-- An online device whose last frame is more than 30 seconds ago.
abbrev pub is_stale : ℕ → DeviceEntry → Bool
is_stale now d = d.online && ltb (d.last_frame_time + 30000) now

unfoldable pub timed_out_ids : ℕ → List (ℕ × ConnEntry) → List Bytes
timed_out_ids now [] = []
timed_out_ids now (x ∷ xs) =
    let more = timed_out_ids now xs in
    if is_stale now x.1.device then x.1.device.device_id ∷ more else more

abbrev pub now_offline : ConnEntry → ConnEntry
now_offline e = record e { device = record e.device { online = false }; watched = false }

-- The first online entry with an id goes offline; its connection is closed without the callback.
unfoldable pub mark_offline : Bytes → List (ℕ × ConnEntry) → List (ℕ × ConnEntry)
mark_offline device_id [] = []
mark_offline device_id (x ∷ xs) =
    if is_device device_id x.1 then (x.0, now_offline x.1) ∷ xs else x ∷ mark_offline device_id xs

unfoldable pub take_offline : Bytes → DeviceManager → DeviceManager
unfolding mark_offline perform
take_offline device_id m = elim (find_device device_id m.connections) [
  | none ↦ m
  | some x ↦
      tell_offline (now_offline x.1).device
        (perform (hangs_up x.0) (record m { connections = mark_offline device_id m.connections }))
]

unfoldable pub take_all_offline : List Bytes → DeviceManager → DeviceManager
unfolding take_offline
take_all_offline [] m = m
take_all_offline (id ∷ ids) m = take_all_offline ids (take_offline id m)

unfoldable pub cleanup_timeouts : Surroundings → DeviceManager → DeviceManager
unfolding timed_out_ids take_all_offline
cleanup_timeouts o m = take_all_offline (timed_out_ids o.now m.connections) m

-- What can happen to the manager: its calls, and the timer, which calls the cleanup.
pub data DeviceEvent : Type 0 where
  accepted : ℕ → Bytes → DeviceEvent
  frame : ℕ → Frame → DeviceEvent
  closed : ℕ → DeviceEvent
  cleanup_due : DeviceEvent
  callbacks_set : Bool → Bool → Bool → DeviceEvent

module _ (strtod_ok : Bytes → Bool) where
  unfoldable pub device_step : Surroundings → DeviceEvent → DeviceManager → DeviceManager
  unfolding on_new_connection on_frame_received on_connection_closed cleanup_timeouts
  device_step o (accepted c remote_address) m = on_new_connection c remote_address m
  device_step o (frame c f) m = on_frame_received strtod_ok o c f m
  device_step o (closed c) m = on_connection_closed c m
  device_step o cleanup_due m = cleanup_timeouts o m
  device_step o (callbacks_set online offline unhandled) m = record m {
    on_device_online = online;
    on_device_offline = offline;
    on_unhandled_frame = unhandled;
  }

  unfoldable pub device_run : List (Surroundings × DeviceEvent) → DeviceManager → DeviceManager
  unfolding device_step
  device_run [] m = m
  device_run (x ∷ es) m = device_run es (device_step x.0 x.1 m)
