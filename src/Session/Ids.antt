-- ===== src/Session/Ids.antt =====
-- include/rmt/session/session_id.h: the allocator of session ids. Times are seconds of the steady
-- clock; a call is given the readings that it takes. `allocate` reads the clock once for each
-- candidate, so its clock is a function of the candidate.
pub mod Monotone
use remote_tool.Prelude.{
  ℕ, zero, suc, ◌+◌, ◌-◌, Bool, true, false, ◌||◌, List, [], ◌∷◌, ◌++◌, ltb, ◌==◌, if◌then◌else◌,
}

pub record Entry : Type 0 where
  pub id : ℕ
  pub released : ℕ

-- `blacklist` has its front first.
pub record SessionIdAllocator : Type 0 where
  pub next_id : ℕ
  pub blacklist : List Entry

abbrev pub new_allocator : SessionIdAllocator
new_allocator = record { next_id = 1; blacklist = [] }

abbrev pub id_limit : ℕ
id_limit = 0xFFFFFFFF

pub purge : ℕ → List Entry → List Entry
purge now [] = []
purge now (e ∷ es) = if ltb 60 (now - e.released) then purge now es else e ∷ es

unfoldable pub purge_expired : ℕ → SessionIdAllocator → SessionIdAllocator
unfolding purge
purge_expired now a = record a { blacklist = purge now a.blacklist }

pub on_list : ℕ → List Entry → Bool
on_list id [] = false
on_list id (e ∷ es) = e.id == id || on_list id es

unfoldable pub is_blacklisted : SessionIdAllocator → ℕ → Bool
unfolding on_list
is_blacklisted a id = on_list id a.blacklist

-- One round for each candidate below the limit, which `rounds` counts: the loop ends by its test
-- when none is left.
pub allocate_loop : ℕ → (ℕ → ℕ) → SessionIdAllocator → ℕ × SessionIdAllocator
allocate_loop zero clock a = (0, a)
allocate_loop (suc rounds) clock a =
    let candidate = a.next_id in
    let counted = record a { next_id = a.next_id + 1 } in
    let purged = purge_expired (clock candidate) counted in
    let skip_zero = allocate_loop rounds clock counted in
    let skip = allocate_loop rounds clock purged in
    if candidate == 0
    then skip_zero
    else if is_blacklisted purged candidate
    then skip
    else (candidate, purged)

pub allocate : (ℕ → ℕ) → SessionIdAllocator → ℕ × SessionIdAllocator
allocate clock a = allocate_loop (id_limit - a.next_id) clock a

unfoldable pub release : ℕ → ℕ → SessionIdAllocator → SessionIdAllocator
release now id a =
    let purged = purge_expired now a in
    if id == 0
    then a
    else record purged { blacklist = purged.blacklist ++ record { id = id; released = now } ∷ [] }
