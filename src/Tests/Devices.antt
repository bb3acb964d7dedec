-- ===== src/Tests/Devices.antt =====
-- A history of the registry of devices, and instances of its theorems.
use remote_tool.Prelude.{
  ℕ, ◌≤◌, ◌≡◌, refl, true, false, pos, some, List, [], ◌∷◌, Bytes, bytes_eq, codes,
}
use remote_tool.Protocol.Messages.Connection.{HelloMessage, encode_hello}
use remote_tool.Tunnel.Devices.State.{
  DeviceManager, new_device_manager, Surroundings, find_conn, on_new_connection, device_count,
  is_online, get_connection,
}
use remote_tool.Tunnel.Devices.Dispatch.{handle_hello}
use remote_tool.Tunnel.Devices.Timeouts.{
  DeviceEvent, accepted, frame, callbacks_set, cleanup_timeouts, device_run,
}
use remote_tool.Tunnel.Devices.Counts.{entries_of}
use remote_tool.Tunnel.Devices.Expiry.{fresh_entries_of, cleanup_timeouts_lem}
use remote_tool.Tunnel.Devices.Unique.{online_once}

abbrev at : ℕ → Surroundings
at t = record { now = t; unix_ms = 1700000000000; is_open = λ c. true }

abbrev hello_of : Bytes → HelloMessage
hello_of device_id = record {
  device_id = device_id;
  agent_version = codes "0.1.0";
  platform = codes "windows-x64";
  protocol_version = pos 1;
  instance_nonce = codes "AAAAAAAAAAAAAAAAAAAAAA";
}

-- The same device says hello on two connections; another one says hello later.
abbrev meeting : List (Surroundings × DeviceEvent)
meeting =
    (at 0, callbacks_set true true true)
    ∷ (at 0, accepted 0 (codes "10.0.0.1:4000"))
    ∷ (at 5, accepted 1 (codes "10.0.0.2:4000"))
    ∷ (at 10, frame 0 (encode_hello (hello_of (codes "pc-1"))))
    ∷ (at 20, frame 1 (encode_hello (hello_of (codes "pc-1"))))
    ∷ (at 20000, accepted 2 (codes "10.0.0.3:4000"))
    ∷ (at 20010, frame 2 (encode_hello (hello_of (codes "pc-2"))))
    ∷ []

-- The same with its messages decoded.
abbrev met : DeviceManager
unfolding on_new_connection handle_hello
met =
    let m = on_new_connection 0 (codes "10.0.0.1:4000") new_device_manager in
    let m = on_new_connection 1 (codes "10.0.0.2:4000") m in
    let m = handle_hello (at 10) 0 (hello_of (codes "pc-1")) m in
    let m = handle_hello (at 20) 1 (hello_of (codes "pc-1")) m in
    let m = on_new_connection 2 (codes "10.0.0.3:4000") m in
    handle_hello (at 20010) 2 (hello_of (codes "pc-2")) m

meeting_counts :
    (device_count met ≡ 2)
    × (get_connection (codes "pc-1") met ≡ some 0)
    × (device_count (cleanup_timeouts (at 30011) met) ≡ 1)
    × (is_online (codes "pc-1") (cleanup_timeouts (at 30011) met) ≡ false)
    × (is_online (codes "pc-1") (cleanup_timeouts (at 30010) met) ≡ true)
unfolding on_new_connection handle_hello device_count get_connection cleanup_timeouts is_online
    find_conn bytes_eq
meeting_counts = (refl, refl, refl, refl, refl)

online_once_example :
    entries_of (codes "pc-1") (device_run (λ s. true) meeting new_device_manager).connections ≤ 1
online_once_example = online_once (λ s. true) meeting (codes "pc-1")

cleanup_timeouts_lem_example :
    entries_of (codes "pc-1") (cleanup_timeouts (at 30011) met).connections
    ≡ fresh_entries_of 30011 (codes "pc-1") met.connections
cleanup_timeouts_lem_example = cleanup_timeouts_lem (at 30011) (codes "pc-1") met
