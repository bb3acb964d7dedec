-- ===== src/Security/Whitelist/Policy.antt =====
-- The policy of target_whitelist.cpp: `create`, which validates it, and `check`.
use remote_tool.Prelude.{
  ℕ, ◌+◌, ◌-◌, ◌%◌, ◌^◌, ℤ, pos, negsuc, below, above, Bool, true, false, not, ◌&&◌, ◌||◌, none,
  some, List, [], ◌∷◌, ◌++◌, Bytes, codes, length, ◌==◌, if◌then◌else◌,
}
use remote_tool.Security.Whitelist.Address.{has_dot, parse_ipv4, parse_ipv6}
use remote_tool.Security.Whitelist.Cidr.{
  CidrV4, CidrV6, parse_cidr_v4, parse_cidr_v6, matches_v4, matches_v6,
}

pub record TargetPolicy : Type 0 where
  pub allowed_cidrs : List Bytes
  pub allowed_ports : List ℤ
  pub allow_ipv6 : Bool
  pub self_listener_port : ℤ

pub record TargetCheckResult : Type 0 where
  pub allowed : Bool
  pub reason : Bytes

pub record TargetWhitelist : Type 0 where
  pub policy : TargetPolicy
  pub cidrs_v4 : List CidrV4
  pub cidrs_v6 : List CidrV6
  pub ports : List ℕ

-- The errors of `create`, by what their texts say.
pub data PolicyError : Type 0 where
  invalid_port invalid_self_listener_port empty_cidr : PolicyError
  ipv6_cidr_not_allowed invalid_ipv6_cidr invalid_ipv4_cidr malformed_cidr : Bytes → PolicyError

pub data Checked {ℓ} (A : Type ℓ) : Type ℓ where
  ok : A → Checked A
  err : PolicyError → Checked A

unfoldable pub is_listed : ℕ → List ℕ → Bool
is_listed p [] = false
is_listed p (x ∷ xs) = x == p || is_listed p xs

-- `static_cast<std::uint16_t>`.
abbrev pub cast_u16 : ℤ → ℕ
cast_u16 (pos n) = n % 2 ^ 16
cast_u16 (negsuc n) = (2 ^ 16 - (n + 1) % 2 ^ 16) % 2 ^ 16

-- `ports` are those before. A port is compared as an `int`; it is in range there, so its 16 bits are
-- the port.
unfoldable pub add_ports : List ℤ → List ℕ → Checked (List ℕ)
add_ports [] ports = ok ports
add_ports (p ∷ ps) ports =
    let skipped = add_ports ps ports in
    let added = add_ports ps (ports ++ cast_u16 p ∷ []) in
    if below p 1 || above p 65535
    then err invalid_port
    else if is_listed (cast_u16 p) ports
    then skipped
    else added

abbrev pub is_zero : ℤ → Bool
is_zero (pos n) = n == 0
is_zero (negsuc n) = false

unfoldable pub has_colon : Bytes → Bool
has_colon [] = false
has_colon (c ∷ s) = c == b':' || has_colon s

-- One round of the loop over the ranges.
unfoldable pub add_cidr :
    Bool → Bytes → List CidrV4 × List CidrV6 → Checked (List CidrV4 × List CidrV6)
add_cidr allow_ipv6 c (v4s, v6s) =
    if length c == 0
    then err empty_cidr
    else if has_colon c
    then if not allow_ipv6 then err (ipv6_cidr_not_allowed c) else elim (parse_cidr_v6 c) [
      | none ↦ err (invalid_ipv6_cidr c)
      | some v ↦ ok (v4s, v6s ++ v ∷ [])
    ]
    else if has_dot c
    then elim (parse_cidr_v4 c) [
      | none ↦ err (invalid_ipv4_cidr c)
      | some v ↦ ok (v4s ++ v ∷ [], v6s)
    ]
    else err (malformed_cidr c)

unfoldable pub add_cidrs :
    Bool → List Bytes → List CidrV4 × List CidrV6 → Checked (List CidrV4 × List CidrV6)
add_cidrs allow_ipv6 [] vs = ok vs
add_cidrs allow_ipv6 (c ∷ cs) vs = elim (add_cidr allow_ipv6 c vs) [
  | err e ↦ err e
  | ok vs' ↦ add_cidrs allow_ipv6 cs vs'
]

unfoldable pub create : TargetPolicy → Checked TargetWhitelist
create policy = elim (add_ports policy.allowed_ports []) [
  | err e ↦ err e
  | ok ports ↦
      let self = policy.self_listener_port in
      if not (is_zero self) && (below self 1 || above self 65535)
      then err invalid_self_listener_port
      else elim (add_cidrs policy.allow_ipv6 policy.allowed_cidrs ([], [])) [
        | err e ↦ err e
        | ok (v4s, v6s) ↦
            ok (record { policy = policy; cidrs_v4 = v4s; cidrs_v6 = v6s; ports = ports })
      ]
]

abbrev pub deny : Bytes → TargetCheckResult
deny reason = record { allowed = false; reason = reason }

abbrev pub allow : TargetCheckResult
allow = record { allowed = true; reason = [] }

unfoldable pub any_v4 : ℕ → List CidrV4 → Bool
any_v4 v4 [] = false
any_v4 v4 (c ∷ cs) = matches_v4 v4 c || any_v4 v4 cs

unfoldable pub any_v6 : Bytes → List CidrV6 → Bool
any_v6 v6 [] = false
any_v6 v6 (c ∷ cs) = matches_v6 v6 c || any_v6 v6 cs

-- A host as it is parsed: IPv4 is tried first.
pub data Host : Type 0 where
  v4_host : ℕ → Host
  v6_host : Bytes → Host
  no_literal : Host

unfoldable pub parse_host : Bytes → Host
parse_host host = elim (parse_ipv4 host) [
  | some v4 ↦ v4_host v4
  | none ↦ elim (parse_ipv6 host) [ some v6 ↦ v6_host v6 | none ↦ no_literal ]
]

-- Rule 3.
unfoldable pub check_cidrs : TargetWhitelist → Host → TargetCheckResult
check_cidrs w (v4_host v4) =
    if length w.cidrs_v4 == 0
    then deny (codes "no IPv4 CIDR configured (deny-all)")
    else if any_v4 v4 w.cidrs_v4
    then allow
    else deny (codes "host does not match any allowed CIDR")
check_cidrs w (v6_host v6) =
    if length w.cidrs_v6 == 0
    then deny (codes "no IPv6 CIDR configured (deny-all)")
    else if any_v6 v6 w.cidrs_v6
    then allow
    else deny (codes "host does not match any allowed CIDR")
check_cidrs w no_literal = deny (codes "host is not an IP literal")

-- Rule 2.
unfoldable pub check_port : TargetWhitelist → Host → ℕ → TargetCheckResult
check_port w h port =
    if length w.ports == 0
    then deny (codes "allowed_ports is empty (deny-all)")
    else if not (is_listed port w.ports)
    then deny (codes "port not in allowed_ports")
    else check_cidrs w h

-- Rules 1 and 5.
unfoldable pub check_host : TargetWhitelist → Host → ℕ → TargetCheckResult
check_host w no_literal port = deny (codes "host is not an IP literal")
check_host w (v6_host v6) port =
    if not w.policy.allow_ipv6
    then deny (codes "IPv6 target denied by policy (allow_ipv6=false)")
    else check_port w (v6_host v6) port
check_host w (v4_host v4) port = check_port w (v4_host v4) port

unfoldable pub check : TargetWhitelist → Bytes → ℕ → TargetCheckResult
check w host port =
    let self = w.policy.self_listener_port in
    if not (is_zero self) && port == cast_u16 self
    then deny (codes "target equals RemoteTool agent listener port (loopback protection)")
    else check_host w (parse_host host) port
