-- ===== src/Security/Whitelist/Covers.antt =====
-- What the ranges of a policy cover.
use native.Mathlib.Nat.{pow-suc}
use remote_tool.Prelude.{
  ℕ, zero, suc, ◌+◌, ◌*◌, ◌^◌, ◌≤◌, ◌<◌, ◌≡◌, sym, ap, ◌↔◌, inl, inr, none_is_not_some,
  some-injective, arith, true, Option, none, some, [], ◌∷◌, Bytes, length, ◌==◌, ==_iff, Bool-cases,
  Option-cases,
}
use remote_tool.Security.Whitelist.Address.{parse_octet, skip_dot, octet_loop, all_read, parse_ipv4}
use remote_tool.Security.Whitelist.Cidr.{
  CidrV4, find_slash, parse_prefix, cidr_v4, parse_cidr_v4, matches_v4,
}
use remote_tool.Security.Whitelist.Masks.{leading, prefix_mask-same, make_v4_mask-prefix}

octet-bound : (s : Bytes) (r : ℕ × Bytes) → parse_octet s ≡ some r → r.0 < 256
unfolding parse_octet
octet-bound s r e = ground arith

octet_loop-bound :
    (n out bound : ℕ) (s : Bytes) (r : ℕ × Bytes)
    → out < bound
    → octet_loop n out s ≡ some r
    → r.0 < bound * 256 ^ n
unfolding octet_loop
octet_loop-bound zero out bound s r h e = ground arith
octet_loop-bound (suc n) out bound s r h e = elim (Option-cases (parse_octet s)) [
  | inl q ↦ absurd (none_is_not_some (rw (q, octet_loop) at e))
  | inr (part, q) ↦ elim (Option-cases (skip_dot n part.1)) [
    | inl d ↦ absurd (none_is_not_some (rw (q, d, octet_loop) at e))
    | inr (s', d) ↦
        let small = octet-bound s part q in
        let rest =
          octet_loop-bound n (out * 2 ^ 8 + part.0) (bound * 256) s' r (omega arith)
            (rw (q, d, octet_loop) at e) in
        rw (pow-suc 256 n) (grind (arith, rest))
  ]
]

all_read-some :
    (o : Option (ℕ × Bytes)) (v : ℕ) → all_read o ≡ some v → (s : Bytes) × (o ≡ some (v, s))
unfolding all_read
all_read-some none v e = absurd (none_is_not_some e)
all_read-some (some (out, [])) v e = ([], ap (λ t. some (t, [])) (some-injective e))
all_read-some (some (out, c ∷ s)) v e = absurd (none_is_not_some e)

-- An address has 32 bits.
pub parse_ipv4-bound : (s : Bytes) (v : ℕ) → parse_ipv4 s ≡ some v → v < 2 ^ 32
unfolding parse_ipv4
parse_ipv4-bound s v e = elim (Bool-cases (length s == 0)) [
  | inl empty ↦ absurd (none_is_not_some (rw empty at e))
  | inr full ↦
      let (rest, q) = all_read-some (octet_loop 4 0 s) v (rw full at e) in
      octet_loop-bound 4 0 1 s (v, rest) (omega arith) q
]

-- A range that was read: its address, and the length of its prefix.
pub record IsRangeV4 (s : Bytes) (addr prefix : ℕ) : Type 0 where
  pub texts : Bytes × Bytes
  pub splits : find_slash s ≡ some texts
  pub address : parse_ipv4 texts.0 ≡ some addr
  pub prefix_is : parse_prefix 2 32 texts.1 ≡ some prefix

pub parse_prefix-bound :
    (n limit : ℕ) (s : Bytes) (p : ℕ) → parse_prefix n limit s ≡ some p → p ≤ limit
unfolding parse_prefix
parse_prefix-bound n limit s p e = ground arith

-- If a text is accepted as an IPv4 range, it holds an address and a prefix length of at most 32
-- round a slash, and the range matches exactly the addresses whose leading bits, as many as the
-- prefix has, are those of that address.
pub parse_cidr_v4-covers :
    (s : Bytes) (c : CidrV4) (host : ℕ)
    → parse_cidr_v4 s ≡ some c
    → host < 2 ^ 32
    → (addr prefix : ℕ) × IsRangeV4 s addr prefix
      × (prefix ≤ 32)
      × ((matches_v4 host c ≡ true) ↔ (leading 32 prefix host ≡ leading 32 prefix addr))
unfolding parse_cidr_v4 cidr_v4 matches_v4
parse_cidr_v4-covers s c host e h = elim (Option-cases (find_slash s)) [
  | inl q ↦ absurd (none_is_not_some (rw (q, parse_cidr_v4) at e))
  | inr (texts, q) ↦ elim (Option-cases (parse_prefix 2 32 texts.1)) [
    | inl p ↦ absurd (none_is_not_some (rw (q, p, parse_cidr_v4, cidr_v4) at e))
    | inr (prefix, p) ↦ elim (Option-cases (parse_ipv4 texts.0)) [
      | inl a ↦ absurd (none_is_not_some (rw (q, p, a, parse_cidr_v4, cidr_v4) at e))
      | inr (addr, a) ↦
          let bound = parse_prefix-bound 2 32 texts.1 prefix p in
          let made = some-injective (rw (q, p, a, parse_cidr_v4, cidr_v4) at e) in
          (
            addr,
            prefix,
            record { texts = texts; splits = q; address = a; prefix_is = p },
            bound,
            rw (sym made, make_v4_mask-prefix prefix bound)
                (let same =
                    prefix_mask-same 32 prefix host addr bound h
                      (parse_ipv4-bound texts.0 addr a) in
                  (λ m. same.0 ((==_iff _ _).0 m), λ l. (==_iff _ _).1 (same.1 l))),
          )
    ]
  ]
]
