-- ===== src/Security/Whitelist/Sixteen.antt =====
-- An IPv6 literal is read to 16 bytes.
use remote_tool.Prelude.{
  ℕ, ◌+◌, ◌-◌, ◌*◌, ◌^◌, ◌<◌, ◌≡◌, refl, inl, inr, arith, Bool, true, false, not, ◌&&◌, Option,
  none, some, List, [], ◌∷◌, ◌++◌, Bytes, length, All, ltb, ◌==◌, if◌then◌else◌, ==_iff, Bool-cases,
  Option-cases,
}
use remote_tool.Security.Whitelist.Address.{
  zeros, group_bytes, place_groups, count_groups, take_suffix, read_groups, find_dc, parse_ipv6,
  v4_groups, parse_groups, try_v4_suffix, has_stray_colon, split_colon,
}

abbrev pub IsByte : ℕ → Type 0
IsByte b = b < 2 ^ 8

-- Sixteen bytes.
abbrev pub IsAddress : Bytes → Type 0
IsAddress a = (length a ≡ 16) × All IsByte a

abbrev Gives : Option Bytes → Type 0
Gives none = Unit
Gives (some a) = IsAddress a

group_bytes-length : (gs : List ℕ) → length (group_bytes gs) ≡ 2 * length gs
unfolding group_bytes
group_bytes-length [] = refl
group_bytes-length (g ∷ gs) = omega (arith, group_bytes-length gs)

group_bytes-All : (gs : List ℕ) → All IsByte (group_bytes gs)
unfolding group_bytes
group_bytes-All [] = tt
group_bytes-All (g ∷ gs) = (omega arith, (omega arith, group_bytes-All gs))

eight_groups : (gs : List ℕ) → Gives (if not (length gs == 8) then none else some (group_bytes gs))
eight_groups gs = elim (Bool-cases (length gs == 8)) [
  | inl e ↦
      rw e (omega (arith, group_bytes-length gs, (==_iff (length gs) 8).0 e), group_bytes-All gs)
  | inr e ↦ rw e tt
]

place_groups-Gives :
    (left right : List Bytes) (v4 : Option ℕ) (z : ℕ) → Gives (place_groups left right v4 z)
unfolding place_groups
place_groups-Gives left right v4 z = elim (Option-cases (parse_groups left)) [
  | inl e ↦ rw (e, place_groups) tt
  | inr (l, e) ↦ elim (Option-cases (parse_groups right)) [
    | inl d ↦ rw (e, d, place_groups) tt
    | inr (r, d) ↦ rw (e, d, place_groups) (eight_groups (l ++ zeros z ++ r ++ v4_groups v4))
  ]
]

Gives-unless : (b : Bool) (o : Option Bytes) → Gives o → Gives (if b then none else o)
Gives-unless true o h = tt
Gives-unless false o h = h

count_groups-Gives :
    (dc : Bool) (left right : List Bytes) (v4 : Option ℕ) → Gives (count_groups dc left right v4)
unfolding count_groups
count_groups-Gives dc left right v4 =
    let total = length left + length right + length (v4_groups v4) in
    Gives-unless (dc && ltb 7 total)
      (if not dc && not (total == 8) then none else place_groups left right v4 (8 - total))
      (Gives-unless (not dc && not (total == 8)) (place_groups left right v4 (8 - total))
        (place_groups-Gives left right v4 (8 - total)))

take_suffix-Gives : (dc : Bool) (left right : List Bytes) → Gives (take_suffix dc left right)
unfolding take_suffix
take_suffix-Gives dc left [] = elim (Option-cases (try_v4_suffix left)) [
  | inl e ↦ rw (e, take_suffix) tt
  | inr (r, e) ↦ rw (e, take_suffix) (count_groups-Gives dc r.0 [] r.1)
]
take_suffix-Gives dc left (g ∷ gs) = elim (Option-cases (try_v4_suffix (g ∷ gs))) [
  | inl e ↦ rw (e, take_suffix) tt
  | inr (r, e) ↦ rw (e, take_suffix) (count_groups-Gives dc left r.0 r.1)
]

read_groups-Gives : (dc : Bool) (left right : Bytes) → Gives (read_groups dc left right)
unfolding read_groups
read_groups-Gives dc left right =
    let groups = take_suffix dc (split_colon left) (split_colon right) in
    Gives-unless (has_stray_colon left) (if has_stray_colon right then none else groups) (
      Gives-unless (has_stray_colon right) groups
        (take_suffix-Gives dc (split_colon left) (split_colon right)))

parse_ipv6-Gives : (s : Bytes) → Gives (parse_ipv6 s)
unfolding parse_ipv6
parse_ipv6-Gives s = elim (Bool-cases (length s == 0)) [
  | inl empty ↦ rw empty tt
  | inr full ↦ elim (Option-cases (find_dc s)) [
    | inl e ↦ rw (full, e, parse_ipv6) (read_groups-Gives false [] s)
    | inr (r, e) ↦ elim (Option-cases (find_dc r.1)) [
      | inl d ↦ rw (full, e, d, parse_ipv6) (read_groups-Gives true r.0 r.1)
      | inr (again, d) ↦ rw (full, e, d, parse_ipv6) tt
    ]
  ]
]

pub parse_ipv6-IsAddress : (s a : Bytes) → parse_ipv6 s ≡ some a → IsAddress a
parse_ipv6-IsAddress s a e = rw e at (parse_ipv6-Gives s)
