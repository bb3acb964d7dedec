-- ===== src/Tunnel/Devices/State.antt =====
-- `DeviceManager` of device_manager.h: its table, and what it does to the outside. A connection is
-- known by a number, which stands for the pointer that is the key of the table; the table is a list, in
-- the order in which a loop visits it. Times are in milliseconds. Log lines are left out, and the
-- callbacks do not call the manager.
use remote_tool.Prelude.{
  ℕ, suc, Bool, true, false, ◌&&◌, Option, none, some, List, [], ◌∷◌, ◌++◌, Bytes, bytes_eq, ◌==◌,
  if◌then◌else◌,
}
use remote_tool.Protocol.Frame.{Frame}

pub record DeviceEntry : Type 0 where
  pub device_id : Bytes
  pub online : Bool
  pub agent_version : Bytes
  pub platform : Bytes
  pub remote_address : Bytes
  pub last_frame_time : ℕ

-- `watched` says whether the connection still has the manager's callback on its closing.
pub record ConnEntry : Type 0 where
  pub device : DeviceEntry
  pub watched : Bool

-- A frame that is sent on a connection, the start of its reading, its closing, and the three callbacks.
pub data DeviceEffect : Type 0 where
  acks : ℕ → Frame → DeviceEffect
  receives hangs_up : ℕ → DeviceEffect
  device_online device_offline : DeviceEntry → DeviceEffect
  unhandled : ℕ → Frame → DeviceEffect

pub record DeviceManager : Type 0 where
  pub connections : List (ℕ × ConnEntry)
  pub on_device_online : Bool
  pub on_device_offline : Bool
  pub on_unhandled_frame : Bool
  pub effects : List DeviceEffect

abbrev pub new_device_manager : DeviceManager
new_device_manager = record {
  connections = [];
  on_device_online = false;
  on_device_offline = false;
  on_unhandled_frame = false;
  effects = [];
}

-- What a call finds outside: the steady clock, the system clock, and which connections are open.
pub record Surroundings : Type 0 where
  pub now : ℕ
  pub unix_ms : ℕ
  pub is_open : ℕ → Bool

unfoldable pub perform : DeviceEffect → DeviceManager → DeviceManager
perform e m = record m { effects = m.effects ++ e ∷ [] }

unfoldable pub find_conn : ℕ → List (ℕ × ConnEntry) → Option ConnEntry
find_conn c [] = none
find_conn c (x ∷ xs) = if x.0 == c then some x.1 else find_conn c xs

-- A change of an entry in the table.
unfoldable pub alter : ℕ → (ConnEntry → ConnEntry) → List (ℕ × ConnEntry) → List (ℕ × ConnEntry)
alter c f [] = []
alter c f (x ∷ xs) = if x.0 == c then (x.0, f x.1) ∷ xs else x ∷ alter c f xs

unfoldable pub erase_conn : ℕ → List (ℕ × ConnEntry) → List (ℕ × ConnEntry)
erase_conn c [] = []
erase_conn c (x ∷ xs) = if x.0 == c then xs else x ∷ erase_conn c xs

-- `connections_[raw] = entry`.
unfoldable pub assign : ℕ → ConnEntry → List (ℕ × ConnEntry) → List (ℕ × ConnEntry)
assign c e [] = (c, e) ∷ []
assign c e (x ∷ xs) = if x.0 == c then (c, e) ∷ xs else x ∷ assign c e xs

abbrev pub new_device : Bytes → ConnEntry
new_device remote_address = record {
  device = record {
    device_id = [];
    online = false;
    agent_version = [];
    platform = [];
    remote_address = remote_address;
    last_frame_time = 0;
  };
  watched = true;
}

unfoldable pub on_new_connection : ℕ → Bytes → DeviceManager → DeviceManager
unfolding assign perform
on_new_connection c remote_address m =
    perform (receives c)
      (record m { connections = assign c (new_device remote_address) m.connections })

unfoldable pub online_entries : List (ℕ × ConnEntry) → ℕ
online_entries [] = 0
online_entries (x ∷ xs) =
    let more = online_entries xs in if x.1.device.online then suc more else more

unfoldable pub device_count : DeviceManager → ℕ
unfolding online_entries
device_count m = online_entries m.connections

-- Whether an entry is that of an online device with some id.
abbrev pub is_device : Bytes → ConnEntry → Bool
is_device device_id e = e.device.online && bytes_eq e.device.device_id device_id

-- The first such entry, with its connection.
unfoldable pub find_device : Bytes → List (ℕ × ConnEntry) → Option (ℕ × ConnEntry)
find_device device_id [] = none
find_device device_id (x ∷ xs) =
    if is_device device_id x.1 then some x else find_device device_id xs

unfoldable pub is_online : Bytes → DeviceManager → Bool
unfolding find_device
is_online device_id m = elim (find_device device_id m.connections) [ none ↦ false | some x ↦ true ]

unfoldable pub get_connection : Bytes → DeviceManager → Option ℕ
unfolding find_device
get_connection device_id m = elim (find_device device_id m.connections) [
  | none ↦ none
  | some x ↦ some x.0
]
