-- ===== src/Session/Manager/State.antt =====
-- The sessions of the session manager, and what it does to the outside. A socket and a tunnel is
-- known by a number. Log lines are left out.
use remote_tool.Prelude.{
  ℕ, suc, ◌+◌, ◌-◌, ◌^◌, ℤ, pos, negsuc, Bool, true, false, not, ◌&&◌, Option, none, some, List, [],
  ◌∷◌, ◌++◌, Bytes, bytes_eq, leb, ◌==◌, if◌then◌else◌,
}
use remote_tool.Protocol.Frame.{Frame}
use remote_tool.Session.Ids.{SessionIdAllocator, allocate, release}

pub data SessionState : Type 0 where
  idle connecting connected half_closed_local half_closed_remote closed : SessionState

abbrev pub is_idle : SessionState → Bool
is_idle idle = true
is_idle _ = false

abbrev pub is_connected : SessionState → Bool
is_connected connected = true
is_connected _ = false

abbrev pub is_half_closed_local : SessionState → Bool
is_half_closed_local half_closed_local = true
is_half_closed_local _ = false

abbrev pub is_half_closed_remote : SessionState → Bool
is_half_closed_remote half_closed_remote = true
is_half_closed_remote _ = false

abbrev pub is_closed : SessionState → Bool
is_closed closed = true
is_closed _ = false

pub record SessionEntry : Type 0 where
  pub state : SessionState
  pub tunnel : Option ℕ
  pub local_socket : Option ℕ
  pub bytes_local_in : ℕ
  pub bytes_local_out : ℕ
  pub device_id : Bytes
  pub mapping_id : Bytes
  pub reading_local : Bool
  pub local_write_queue : List Bytes
  pub writing_local : Bool
  pub local_write_shutdown_pending : Bool
  pub local_close_after_drain : Bool
  pub pending_bytes : ℕ
  pub read_paused : Bool

-- What the manager starts or calls: a frame handed to a tunnel, the start of a read and of a write
-- of a local socket, the end of its sending side, its closing, and the callback on a closed session.
pub data Effect : Type 0 where
  send : ℕ → Frame → Effect
  read fin shut : ℕ → Effect
  write : ℕ → Bytes → Effect
  session_closed : ℕ → Effect

-- `effects` are all so far, oldest first. `on_session_closed` says whether the callback is set.
pub record SessionManager : Type 0 where
  pub sessions : List (ℕ × SessionEntry)
  pub id_alloc : SessionIdAllocator
  pub max_sessions : ℤ
  pub on_session_closed : Bool
  pub effects : List Effect

-- What a call finds outside: which tunnels are connected, and the readings of the clock, by the
-- session id that they are taken for.
pub record Outside : Type 0 where
  pub is_up : ℕ → Bool
  pub clock : ℕ → ℕ

unfoldable pub lookup : ℕ → List (ℕ × SessionEntry) → Option SessionEntry
lookup sid [] = none
lookup sid (x ∷ xs) = if x.0 == sid then some x.1 else lookup sid xs

abbrev pub find_session : ℕ → SessionManager → Option SessionEntry
find_session sid m = lookup sid m.sessions

-- A change of an entry through the pointer that `find_session` returned.
unfoldable pub change :
    ℕ → (SessionEntry → SessionEntry) → List (ℕ × SessionEntry) → List (ℕ × SessionEntry)
change sid f [] = []
change sid f (x ∷ xs) = if x.0 == sid then (x.0, f x.1) ∷ xs else x ∷ change sid f xs

unfoldable pub remove : ℕ → List (ℕ × SessionEntry) → List (ℕ × SessionEntry)
remove sid [] = []
remove sid (x ∷ xs) = if x.0 == sid then xs else x ∷ remove sid xs

-- `sessions_[sid] = entry`.
unfoldable pub put : ℕ → SessionEntry → List (ℕ × SessionEntry) → List (ℕ × SessionEntry)
put sid e [] = (sid, e) ∷ []
put sid e (x ∷ xs) = if x.0 == sid then (sid, e) ∷ xs else x ∷ put sid e xs

unfoldable pub modify : ℕ → (SessionEntry → SessionEntry) → SessionManager → SessionManager
modify sid f m = record m { sessions = change sid f m.sessions }

unfoldable pub emit : Effect → SessionManager → SessionManager
emit e m = record m { effects = m.effects ++ e ∷ [] }

unfoldable pub count_active : List (ℕ × SessionEntry) → ℕ
count_active [] = 0
count_active (x ∷ xs) =
    let more = count_active xs in
    if not (is_idle x.1.state) && not (is_closed x.1.state) then suc more else more

unfoldable pub active_session_count : SessionManager → ℕ
active_session_count m = count_active m.sessions

unfoldable pub count_for_mapping : Bytes → List (ℕ × SessionEntry) → ℕ
count_for_mapping mapping_id [] = 0
count_for_mapping mapping_id (x ∷ xs) =
    let more = count_for_mapping mapping_id xs in
    if bytes_eq x.1.mapping_id mapping_id && not (is_idle x.1.state) && not (is_closed x.1.state)
    then suc more
    else more

unfoldable pub active_sessions_for_mapping : Bytes → SessionManager → ℕ
active_sessions_for_mapping mapping_id m = count_for_mapping mapping_id m.sessions

-- `static_cast<std::size_t>`.
abbrev pub cast_size : ℤ → ℕ
cast_size (pos n) = n
cast_size (negsuc n) = 2 ^ 64 - (n + 1)

abbrev pub new_entry : Option ℕ → Bytes → Bytes → SessionEntry
new_entry tunnel device_id mapping_id = record {
  state = idle;
  tunnel = tunnel;
  local_socket = none;
  bytes_local_in = 0;
  bytes_local_out = 0;
  device_id = device_id;
  mapping_id = mapping_id;
  reading_local = false;
  local_write_queue = [];
  writing_local = false;
  local_write_shutdown_pending = false;
  local_close_after_drain = false;
  pending_bytes = 0;
  read_paused = false;
}

unfoldable pub create_session :
    Outside → Bytes → Option ℕ → Bytes → SessionManager → ℕ × SessionManager
create_session o device_id tunnel mapping_id m =
    let (sid, ids) = allocate o.clock m.id_alloc in
    let m1 = record m { id_alloc = ids } in
    if sid == 0
    then (0, m1)
    else if leb (cast_size m.max_sessions) (active_session_count m1)
    then (0, record m1 { id_alloc = release (o.clock sid) sid ids })
    else (sid, record m1 { sessions = put sid (new_entry tunnel device_id mapping_id) m.sessions })

unfoldable pub attach_local_socket : ℕ → ℕ → SessionManager → SessionManager
attach_local_socket sid socket m = modify sid (λ s. record s { local_socket = some socket }) m

unfoldable pub session_state : SessionManager → ℕ → SessionState
session_state m sid = elim (find_session sid m) [ none ↦ closed | some s ↦ s.state ]

unfoldable pub bytes_local_in : SessionManager → ℕ → ℕ
bytes_local_in m sid = elim (find_session sid m) [ none ↦ 0 | some s ↦ s.bytes_local_in ]

unfoldable pub bytes_local_out : SessionManager → ℕ → ℕ
bytes_local_out m sid = elim (find_session sid m) [ none ↦ 0 | some s ↦ s.bytes_local_out ]

unfoldable pub set_max_sessions : ℤ → SessionManager → SessionManager
set_max_sessions limit m = record m { max_sessions = limit }

unfoldable pub set_on_session_closed : Bool → SessionManager → SessionManager
set_on_session_closed cb m = record m { on_session_closed = cb }
