-- ===== src/Session/Manager/Once.antt =====
-- The callback on a closed session is called at most once for each session, in any history.
use remote_tool.Prelude.{ℕ, ◌≤◌, pos, false, [], ltb, if◌then◌else◌}
use remote_tool.Session.Ids.{new_allocator}
use remote_tool.Session.Manager.State.{SessionManager}
use remote_tool.Session.Manager.Account.{total}

-- Only ids that were handed out are held or called for, each of them at most once in all.
room : ℕ → ℕ → ℕ
room next sid = if ltb sid next then 1 else 0

pub Once : SessionManager → Type 0
Once m = (sid : ℕ) → total sid m ≤ room m.id_alloc.next_id sid

AtMost : ℕ → ℕ × SessionManager → Type 0
AtMost k r = total k r.1 ≤ room r.1.id_alloc.next_id k

-- A manager as it is constructed, with its limit of 32 sessions.
abbrev pub new_manager : SessionManager
new_manager = record {
  sessions = [];
  id_alloc = new_allocator;
  max_sessions = pos 32;
  on_session_closed = false;
  effects = [];
}
