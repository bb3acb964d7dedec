-- ===== src/Tunnel/Devices/Counts.antt =====
-- How many entries of the table of device_manager.cpp are those of an online device with some id.
use remote_tool.Prelude.{
  ℕ, suc, ◌-◌, ◌≤◌, ◌≡◌, refl, sym, ◌∙◌, true, false, none, List, [], ◌∷◌, Bytes, bytes_eq,
  bytes_eq_iff, if◌then◌else◌, Bool-cases, inl, inr, arith,
}
use remote_tool.Tunnel.Devices.State.{
  ConnEntry, alter, erase_conn, assign, new_device, is_device, find_device,
}
use remote_tool.Tunnel.Devices.Timeouts.{mark_offline}

unfoldable pub entries_of : Bytes → List (ℕ × ConnEntry) → ℕ
entries_of id [] = 0
entries_of id (x ∷ xs) = let more = entries_of id xs in if is_device id x.1 then suc more else more

pub entries_of-erase_conn :
    (id : Bytes) (c : ℕ) (xs : List (ℕ × ConnEntry))
    → entries_of id (erase_conn c xs) ≤ entries_of id xs
unfolding entries_of erase_conn
entries_of-erase_conn id c [] = ground arith
entries_of-erase_conn id c (x ∷ xs) = ground (arith, entries_of-erase_conn id c xs)

pub entries_of-assign :
    (id : Bytes) (c : ℕ) (a : Bytes) (xs : List (ℕ × ConnEntry))
    → entries_of id (assign c (new_device a) xs) ≤ entries_of id xs
unfolding entries_of assign
entries_of-assign id c a [] = ground arith
entries_of-assign id c a (x ∷ xs) = ground (arith, entries_of-assign id c a xs)

-- A change of one entry adds it at most, if the changed entry has the id.
pub entries_of-alter :
    (id : Bytes) (c : ℕ) (f : ConnEntry → ConnEntry) (xs : List (ℕ × ConnEntry))
    → entries_of id (alter c f xs) ≤ suc (entries_of id xs)
unfolding entries_of alter
entries_of-alter id c f [] = ground arith
entries_of-alter id c f (x ∷ xs) = ground (arith, entries_of-alter id c f xs)

-- None is added where a changed entry has the id only if it had it before.
pub entries_of-alter_le :
    (id : Bytes) (c : ℕ) (f : ConnEntry → ConnEntry)
    → ((e : ConnEntry) → is_device id (f e) ≡ true → is_device id e ≡ true)
    → (xs : List (ℕ × ConnEntry)) → entries_of id (alter c f xs) ≤ entries_of id xs
unfolding entries_of alter
entries_of-alter_le id c f h [] = ground arith
entries_of-alter_le id c f h (x ∷ xs) = ground (arith, entries_of-alter_le id c f h xs, h x.1)

-- A search finds nothing exactly where there is none.
pub find_device-entries_of :
    (id : Bytes) (xs : List (ℕ × ConnEntry)) → find_device id xs ≡ none → entries_of id xs ≡ 0
unfolding entries_of find_device
find_device-entries_of id [] n = refl
find_device-entries_of id (x ∷ xs) n = ground (arith, find_device-entries_of id xs, n)

-- A search that finds nothing marks nothing.
pub mark_offline-none :
    (id : Bytes) (xs : List (ℕ × ConnEntry)) → find_device id xs ≡ none → mark_offline id xs ≡ xs
unfolding find_device mark_offline
mark_offline-none id [] n = refl
mark_offline-none id (x ∷ xs) n = ground (arith, mark_offline-none id xs, n)

-- Another id keeps its entries.
other_device :
    (id other : Bytes) (e : ConnEntry)
    → bytes_eq other id ≡ false
    → is_device other e ≡ true
    → is_device id e ≡ false
other_device id other e d h = elim (Bool-cases (bytes_eq e.device.device_id id)) [
  | inr n ↦ ground (arith, n)
  | inl y ↦
      let same = (bytes_eq_iff e.device.device_id id).0 y in
      let here : bytes_eq e.device.device_id other ≡ true = ground (arith, h) in
      let there = (bytes_eq_iff e.device.device_id other).0 here in
      ground (arith, d, (bytes_eq_iff other id).1 (sym there ∙ same))
]

pub entries_of-mark_offline_other :
    (id other : Bytes)
    → bytes_eq other id ≡ false
    → (xs : List (ℕ × ConnEntry)) → entries_of id (mark_offline other xs) ≡ entries_of id xs
unfolding entries_of mark_offline
entries_of-mark_offline_other id other d [] = refl
entries_of-mark_offline_other id other d (x ∷ xs) =
    ground (arith, entries_of-mark_offline_other id other d xs, other_device id other x.1 d)

pub entries_of-mark_offline :
    (id : Bytes) (xs : List (ℕ × ConnEntry))
    → entries_of id (mark_offline id xs) ≡ entries_of id xs - 1
unfolding entries_of mark_offline
entries_of-mark_offline id [] = refl
entries_of-mark_offline id (x ∷ xs) = ground (arith, entries_of-mark_offline id xs)
