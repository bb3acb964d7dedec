-- ===== src/Security/Whitelist/Address.antt =====
-- The address literals of target_whitelist.cpp. A reader of the source that moves an index along a
-- string returns the rest of the string here; `none` is the result `false`.
use remote_tool.Prelude.{
  ℕ, zero, suc, ◌+◌, ◌-◌, ◌*◌, ◌/◌, ◌%◌, ◌^◌, Bool, true, false, not, ◌&&◌, ◌||◌, Option, none,
  some, List, [], ◌∷◌, ◌++◌, Bytes, length, get_or, drop, ltb, leb, ◌==◌, if◌then◌else◌,
}

abbrev pub is_digit : ℕ → Bool
is_digit c = leb b'0' c && leb c b'9'

-- The digits at the front, and what is behind them.
unfoldable pub span_digits : Bytes → Bytes × Bytes
span_digits [] = ([], [])
span_digits (c ∷ s) =
    let more = span_digits s in if is_digit c then (c ∷ more.0, more.1) else ([], c ∷ s)

unfoldable pub octet_value : ℕ → Bytes → ℕ
octet_value val [] = val
octet_value val (c ∷ s) = octet_value (val * 10 + (c - b'0')) s

unfoldable pub parse_octet : Bytes → Option (ℕ × Bytes)
parse_octet s =
    let run = (span_digits s).0 in
    if length run == 0
    then none
    else if ltb 3 (length run)
    then none
    else if ltb 1 (length run) && get_or run 0 0 == b'0'
    then none
    else if ltb 255 (octet_value 0 run)
    then none
    else some (octet_value 0 run, (span_digits s).1)

-- Behind an octet: a dot, where `n` octets are still to come.
unfoldable pub skip_dot : ℕ → Bytes → Option Bytes
skip_dot zero s = some s
skip_dot (suc n) [] = none
skip_dot (suc n) (c ∷ s) = if c == b'.' then some s else none

-- The loop over the octets that are left. `out` is the address so far: the parts are shifted and
-- joined as they come.
unfoldable pub octet_loop : ℕ → ℕ → Bytes → Option (ℕ × Bytes)
octet_loop zero out s = some (out, s)
octet_loop (suc n) out s = elim (parse_octet s) [
  | none ↦ none
  | some part ↦ elim (skip_dot n part.1) [
    | none ↦ none
    | some s' ↦ octet_loop n (out * 2 ^ 8 + part.0) s'
  ]
]

-- An address is not followed by junk.
unfoldable pub all_read : Option (ℕ × Bytes) → Option ℕ
all_read (some (out, [])) = some out
all_read _ = none

unfoldable pub parse_ipv4 : Bytes → Option ℕ
parse_ipv4 s = if length s == 0 then none else all_read (octet_loop 4 0 s)

-- A character more before the separator that was found.
abbrev pub with_front : ℕ → Option (Bytes × Bytes) → Option (Bytes × Bytes)
with_front c none = none
with_front c (some (before, after)) = some (c ∷ before, after)

-- `s.find("::")`, with the text before and after it.
unfoldable pub find_dc : Bytes → Option (Bytes × Bytes)
find_dc [] = none
find_dc (c ∷ s) =
    let more = with_front c (find_dc s) in
    if c == b':' && get_or s 0 0 == b':' then some ([], drop 1 s) else more

unfoldable pub back : Bytes → ℕ
back [] = 0
back (c ∷ []) = c
back (c ∷ d ∷ s) = back (d ∷ s)

abbrev pub has_stray_colon : Bytes → Bool
has_stray_colon s = not (length s == 0) && (get_or s 0 0 == b':' || back s == b':')

abbrev on_first : ℕ → List Bytes → List Bytes
on_first c [] = (c ∷ []) ∷ []
on_first c (g ∷ gs) = (c ∷ g) ∷ gs

unfoldable pub split_from : Bytes → List Bytes
split_from [] = [] ∷ []
split_from (c ∷ s) = let more = split_from s in if c == b':' then [] ∷ more else on_first c more

unfoldable pub split_colon : Bytes → List Bytes
split_colon [] = []
split_colon (c ∷ s) = split_from (c ∷ s)

unfoldable pub has_dot : Bytes → Bool
has_dot [] = false
has_dot (c ∷ s) = c == b'.' || has_dot s

-- The groups without an IPv4 literal in the last place, and that literal. `none` is that the last
-- group has a dot and is no such literal.
unfoldable pub try_v4_suffix : List Bytes → Option (List Bytes × Option ℕ)
try_v4_suffix [] = some ([], none)
try_v4_suffix (g ∷ []) =
    if has_dot g
    then elim (parse_ipv4 g) [ none ↦ none | some v ↦ some ([], some v) ]
    else some (g ∷ [], none)
try_v4_suffix (g ∷ h ∷ gs) = elim (try_v4_suffix (h ∷ gs)) [
  | none ↦ none
  | some (gs', v) ↦ some (g ∷ gs', v)
]

unfoldable pub hex_value : ℕ → Option ℕ
hex_value c =
    if is_digit c
    then some (c - b'0')
    else if leb b'a' c && leb c b'f'
    then some (c - b'a' + 10)
    else if leb b'A' c && leb c b'F'
    then some (c - b'A' + 10)
    else none

unfoldable pub group_loop : ℕ → Bytes → Option ℕ
group_loop val [] = if ltb 0xFFFF val then none else some val
group_loop val (c ∷ g) = elim (hex_value c) [ none ↦ none | some d ↦ group_loop (val * 16 + d) g ]

unfoldable pub parse_group : Bytes → Option ℕ
parse_group g = if length g == 0 || ltb 4 (length g) then none else group_loop 0 g

unfoldable pub parse_groups : List Bytes → Option (List ℕ)
parse_groups [] = some []
parse_groups (g ∷ gs) = elim (parse_group g) [
  | none ↦ none
  | some v ↦ elim (parse_groups gs) [ none ↦ none | some vs ↦ some (v ∷ vs) ]
]

unfoldable pub zeros : ℕ → List ℕ
zeros zero = []
zeros (suc n) = 0 ∷ zeros n

unfoldable pub v4_groups : Option ℕ → List ℕ
v4_groups none = []
v4_groups (some v) = v / 2 ^ 16 % 2 ^ 16 ∷ v % 2 ^ 16 ∷ []

unfoldable pub group_bytes : List ℕ → Bytes
group_bytes [] = []
group_bytes (g ∷ gs) = g / 2 ^ 8 % 2 ^ 8 ∷ g % 2 ^ 8 ∷ group_bytes gs

-- The eight groups: `::` stands for as many zeros as are missing.
unfoldable pub place_groups : List Bytes → List Bytes → Option ℕ → ℕ → Option Bytes
place_groups left right v4 zero_count = elim (parse_groups left) [
  | none ↦ none
  | some l ↦ elim (parse_groups right) [
    | none ↦ none
    | some r ↦
        let groups = l ++ zeros zero_count ++ r ++ v4_groups v4 in
        if not (length groups == 8) then none else some (group_bytes groups)
  ]
]

unfoldable pub count_groups : Bool → List Bytes → List Bytes → Option ℕ → Option Bytes
count_groups has_dc left right v4 =
    let total_groups = length left + length right + length (v4_groups v4) in
    if has_dc && ltb 7 total_groups
    then none
    else if not has_dc && not (total_groups == 8)
    then none
    else place_groups left right v4 (8 - total_groups)

-- The IPv4 suffix belongs to the groups on the right of `::`, or, where there are none, to those on
-- the left.
unfoldable pub take_suffix : Bool → List Bytes → List Bytes → Option Bytes
take_suffix has_dc left [] = elim (try_v4_suffix left) [
  | none ↦ none
  | some (left', v4) ↦ count_groups has_dc left' [] v4
]
take_suffix has_dc left (g ∷ gs) = elim (try_v4_suffix (g ∷ gs)) [
  | none ↦ none
  | some (right', v4) ↦ count_groups has_dc left right' v4
]

unfoldable pub read_groups : Bool → Bytes → Bytes → Option Bytes
read_groups has_dc left_str right_str =
    if has_stray_colon left_str
    then none
    else if has_stray_colon right_str
    then none
    else take_suffix has_dc (split_colon left_str) (split_colon right_str)

-- The 16 bytes of an address.
unfoldable pub parse_ipv6 : Bytes → Option Bytes
parse_ipv6 s = if length s == 0 then none else elim (find_dc s) [
  | none ↦ read_groups false [] s
  | some (left_str, right_str) ↦ elim (find_dc right_str) [
    | none ↦ read_groups true left_str right_str
    | some again ↦ none
  ]
]
