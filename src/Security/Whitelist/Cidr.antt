-- ===== src/Security/Whitelist/Cidr.antt =====
-- The address ranges of target_whitelist.cpp: a network address and its mask.
use Prim.Native.Nat.{bit_and, bit_or, min}
use remote_tool.Prelude.{
  ℕ, zero, suc, ◌+◌, ◌-◌, ◌*◌, ◌/◌, ◌%◌, ◌^◌, Bool, true, ◌&&◌, ◌||◌, Option, none, some, [], ◌∷◌,
  Bytes, length, ltb, ◌==◌, if◌then◌else◌,
}
use remote_tool.Security.Whitelist.Address.{is_digit, parse_ipv4, parse_ipv6, with_front, zeros}

pub record CidrV4 : Type 0 where
  pub net : ℕ
  pub mask : ℕ

pub record CidrV6 : Type 0 where
  pub net : Bytes
  pub mask : Bytes

unfoldable pub make_v4_mask : ℕ → ℕ
make_v4_mask prefix = if prefix == 0 then 0 else (2 ^ 32 - 1) * 2 ^ (32 - prefix) % 2 ^ 32

-- `m[k] |= bit`.
unfoldable pub or_at : ℕ → ℕ → Bytes → Bytes
or_at k bit [] = []
or_at zero bit (b ∷ m) = bit_or b bit ∷ m
or_at (suc k) bit (b ∷ m) = b ∷ or_at k bit m

-- The rounds of the loop, from `i` on.
unfoldable pub mask_loop : ℕ → ℕ → Bytes → Bytes
mask_loop zero i m = m
mask_loop (suc rounds) i m = mask_loop rounds (i + 1) (or_at (i / 8) (0x80 / 2 ^ (i % 8)) m)

unfoldable pub make_v6_mask : ℕ → Bytes
make_v6_mask prefix = mask_loop (min prefix 128) 0 (zeros 16)

unfoldable pub and_bytes : Bytes → Bytes → Bytes
and_bytes (x ∷ xs) (y ∷ ys) = bit_and x y ∷ and_bytes xs ys
and_bytes _ _ = []

-- `s.find('/')`, with the text before and after it.
unfoldable pub find_slash : Bytes → Option (Bytes × Bytes)
find_slash [] = none
find_slash (c ∷ s) =
    let more = with_front c (find_slash s) in if c == b'/' then some ([], s) else more

unfoldable pub prefix_loop : ℕ → Bytes → Option ℕ
prefix_loop prefix [] = some prefix
prefix_loop prefix (c ∷ s) =
    let more = prefix_loop (prefix * 10 + (c - b'0')) s in if is_digit c then more else none

-- The length of a prefix, of at most `digits` digits and at most `limit`.
unfoldable pub parse_prefix : ℕ → ℕ → Bytes → Option ℕ
parse_prefix digits limit pref =
    if length pref == 0 || ltb digits (length pref) then none else elim (prefix_loop 0 pref) [
      | none ↦ none
      | some prefix ↦ if ltb limit prefix then none else some prefix
    ]

unfoldable pub cidr_v4 : Bytes → Bytes → Option CidrV4
cidr_v4 addr pref = elim (parse_prefix 2 32 pref) [
  | none ↦ none
  | some prefix ↦ elim (parse_ipv4 addr) [
    | none ↦ none
    | some ip ↦
        let mask = make_v4_mask prefix in some (record { net = bit_and ip mask; mask = mask })
  ]
]

unfoldable pub parse_cidr_v4 : Bytes → Option CidrV4
parse_cidr_v4 s = elim (find_slash s) [ none ↦ none | some (addr, pref) ↦ cidr_v4 addr pref ]

unfoldable pub cidr_v6 : Bytes → Bytes → Option CidrV6
cidr_v6 addr pref = elim (parse_prefix 3 128 pref) [
  | none ↦ none
  | some prefix ↦ elim (parse_ipv6 addr) [
    | none ↦ none
    | some ip ↦
        let mask = make_v6_mask prefix in some (record { net = and_bytes ip mask; mask = mask })
  ]
]

unfoldable pub parse_cidr_v6 : Bytes → Option CidrV6
parse_cidr_v6 s = elim (find_slash s) [ none ↦ none | some (addr, pref) ↦ cidr_v6 addr pref ]

-- The tests of `check` on one range. The second one ends at the first byte that differs.
unfoldable pub matches_v4 : ℕ → CidrV4 → Bool
matches_v4 v4 c = bit_and v4 c.mask == c.net

unfoldable pub bytes_match : Bytes → Bytes → Bytes → Bool
bytes_match (x ∷ xs) (m ∷ ms) (n ∷ ns) = bit_and x m == n && bytes_match xs ms ns
bytes_match _ _ _ = true

unfoldable pub matches_v6 : Bytes → CidrV6 → Bool
matches_v6 v6 c = bytes_match v6 c.mask c.net
