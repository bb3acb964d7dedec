-- ===== src/Tunnel/Devices/Expiry.antt =====
-- Which devices a run of `cleanup_timeouts` leaves online.
use remote_tool.Prelude.{
  ℕ, suc, ◌+◌, ◌-◌, ◌≤◌, ◌≡◌, refl, ap, sym, not, ◌&&◌, List, [], ◌∷◌, Bytes, bytes_eq,
  bytes_eq_iff, if◌then◌else◌, Bool-cases, Option-cases, inl, inr, arith,
}
use remote_tool.Tunnel.Devices.State.{
  DeviceEntry, ConnEntry, DeviceManager, Surroundings, perform, is_device, find_device,
}
use remote_tool.Tunnel.Devices.Dispatch.{tell_offline}
use remote_tool.Tunnel.Devices.Timeouts.{
  is_stale, timed_out_ids, now_offline, mark_offline, take_offline, take_all_offline,
  cleanup_timeouts,
}
use remote_tool.Tunnel.Devices.Counts.{
  entries_of, mark_offline-none, entries_of-mark_offline, entries_of-mark_offline_other,
}

-- The entries of an online device whose last frame is at most 30 seconds ago.
unfoldable pub fresh_entries_of : ℕ → Bytes → List (ℕ × ConnEntry) → ℕ
fresh_entries_of now id [] = 0
fresh_entries_of now id (x ∷ xs) =
    let more = fresh_entries_of now id xs in
    if is_device id x.1 && not (is_stale now x.1.device) then suc more else more

unfoldable occurrences : Bytes → List Bytes → ℕ
occurrences id [] = 0
occurrences id (x ∷ xs) = let more = occurrences id xs in if bytes_eq x id then suc more else more

pub tell_offline-connections :
    (d : DeviceEntry) (m : DeviceManager) → (tell_offline d m).connections ≡ m.connections
unfolding perform
tell_offline-connections d m = elim (Bool-cases m.on_device_offline) [
  | inl y ↦ rw y refl
  | inr n ↦ rw n refl
]

pub take_offline-connections :
    (id : Bytes) (m : DeviceManager)
    → (take_offline id m).connections ≡ mark_offline id m.connections
unfolding take_offline perform
take_offline-connections id m = elim (Option-cases (find_device id m.connections)) [
  | inl n ↦ rw (n, take_offline) (sym (mark_offline-none id m.connections n))
  | inr (x, y) ↦ rw (y, take_offline) (tell_offline-connections (now_offline x.1).device _)
]

take_all_offline-entries_of :
    (id : Bytes) (ids : List Bytes) (m : DeviceManager)
    → entries_of id (take_all_offline ids m).connections
      ≡ entries_of id m.connections - occurrences id ids
unfolding take_all_offline occurrences
take_all_offline-entries_of id [] m = omega arith
take_all_offline-entries_of id (x ∷ ids) m =
    let rest = take_all_offline-entries_of id ids (take_offline x m) in
    let first = ap (entries_of id) (take_offline-connections x m) in
    elim (Bool-cases (bytes_eq x id)) [
      | inr n ↦ ground (arith, rest, first, n, entries_of-mark_offline_other id x n m.connections)
      | inl y ↦
          let same =
            ap (λ d. entries_of id (mark_offline d m.connections)) ((bytes_eq_iff x id).0 y) in
          ground (arith, rest, first, y, same, entries_of-mark_offline id m.connections)
    ]

-- Each entry is of another id, offline, timed out or fresh.
occurrences-timed_out_ids :
    (now : ℕ) (id : Bytes) (xs : List (ℕ × ConnEntry))
    → occurrences id (timed_out_ids now xs) + fresh_entries_of now id xs ≡ entries_of id xs
unfolding occurrences timed_out_ids fresh_entries_of entries_of
occurrences-timed_out_ids now id [] = refl
occurrences-timed_out_ids now id (x ∷ xs) = ground (arith, occurrences-timed_out_ids now id xs)

pub fresh_entries_of_le :
    (now : ℕ) (id : Bytes) (xs : List (ℕ × ConnEntry))
    → fresh_entries_of now id xs ≤ entries_of id xs
fresh_entries_of_le now id xs = omega (arith, occurrences-timed_out_ids now id xs)

-- After the cleanup a table has, for each id, as many entries that are online with that id as it had
-- before it with, besides, a last frame at most 30 seconds ago: exactly those that timed out are gone.
pub cleanup_timeouts_lem :
    (o : Surroundings) (id : Bytes) (m : DeviceManager)
    → entries_of id (cleanup_timeouts o m).connections ≡ fresh_entries_of o.now id m.connections
unfolding cleanup_timeouts
cleanup_timeouts_lem o id m =
    let ids = timed_out_ids o.now m.connections in
    let all = take_all_offline-entries_of id ids m in
    omega (arith, all, occurrences-timed_out_ids o.now id m.connections)
