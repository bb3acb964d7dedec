-- ===== src/Security/Whitelist/CoversV6.antt =====
-- What the IPv6 ranges of a policy cover.
use Prim.Native.Nat.{min, bit_and}
use remote_tool.Prelude.{
  ℕ, zero, suc, ◌-◌, ◌*◌, ◌≤◌, ◌<◌, ◌≡◌, refl, sym, ◌∙◌, ◌↔◌, inl, inr, arith, Bool, true, ◌&&◌,
  none_is_not_some, some-injective, some, [], ◌∷◌, Bytes, length, get_or, All_get_or, ◌==◌, ==_iff,
  Option-cases,
}
use remote_tool.Security.Whitelist.Address.{zeros, parse_ipv6}
use remote_tool.Security.Whitelist.Cidr.{
  CidrV6, or_at, mask_loop, make_v6_mask, and_bytes, find_slash, parse_prefix, cidr_v6,
  parse_cidr_v6, bytes_match, matches_v6,
}
use remote_tool.Security.Whitelist.Masks.{
  prefix_mask, leading, prefix_mask-same, every_below, every_below-holds,
}
use remote_tool.Security.Whitelist.Covers.{parse_prefix-bound}
use remote_tool.Security.Whitelist.Sixteen.{IsByte, IsAddress, parse_ipv6-IsAddress}

-- How many of the leading `p` bits lie in byte `i`.
abbrev pub bits_in : ℕ → ℕ → ℕ
bits_in p i = min 8 (p - 8 * i)

abbrev byte_fits : ℕ → ℕ → Bool
byte_fits p i = get_or (make_v6_mask p) i 0 == prefix_mask 8 (bits_in p i)

abbrev mask_fits : ℕ → Bool
mask_fits p = length (make_v6_mask p) == 16 && every_below 16 (byte_fits p)

v6_masks : every_below 129 mask_fits ≡ true
unfolding make_v6_mask mask_loop or_at zeros
v6_masks = refl

&&-split : (a b : Bool) → (a && b) ≡ true → (a ≡ true) × (b ≡ true)
&&-split a b e = ground arith

v6_mask :
    (p : ℕ)
    → p ≤ 128
    → (length (make_v6_mask p) ≡ 16)
      × ((i : ℕ) → i < 16 → get_or (make_v6_mask p) i 0 ≡ prefix_mask 8 (bits_in p i))
v6_mask p h =
    let (sized, bits) =
      &&-split (length (make_v6_mask p) == 16) (every_below 16 (byte_fits p))
        (every_below-holds 129 mask_fits p v6_masks (omega arith)) in
    (
      (==_iff (length (make_v6_mask p)) 16).0 sized,
      λ i lt.
          (==_iff (get_or (make_v6_mask p) i 0) (prefix_mask 8 (bits_in p i))).0
            (every_below-holds 16 (byte_fits p) i bits lt),
    )

-- Two lists agree under a mask if they do at every place.
bytes_match_iff :
    (hs ms xs : Bytes)
    → length hs ≡ length ms
    → length xs ≡ length ms
    → (bytes_match hs ms (and_bytes xs ms) ≡ true) ↔ (
        (i : ℕ)
        → i < length ms
        → bit_and (get_or hs i 0) (get_or ms i 0) ≡ bit_and (get_or xs i 0) (get_or ms i 0))
unfolding bytes_match and_bytes
bytes_match_iff [] [] [] p q = (λ e i lt. absurd (omega arith), λ h. refl)
bytes_match_iff (h ∷ hs) [] xs p q = absurd (omega arith)
bytes_match_iff [] (m ∷ ms) xs p q = absurd (omega arith)
bytes_match_iff hs [] (x ∷ xs) p q = absurd (omega arith)
bytes_match_iff hs (m ∷ ms) [] p q = absurd (omega arith)
bytes_match_iff (h ∷ hs) (m ∷ ms) (x ∷ xs) p q =
    let (down, up) = bytes_match_iff hs ms xs (omega arith) (omega arith) in
    (to down, λ all. ground (arith, all 0 (omega arith), up (λ i lt. all (suc i) (omega arith))))
  where
    to :
        (bytes_match hs ms (and_bytes xs ms) ≡ true
          → (i : ℕ) → i < length ms
          → bit_and (get_or hs i 0) (get_or ms i 0) ≡ bit_and (get_or xs i 0) (get_or ms i 0))
        → bytes_match (h ∷ hs) (m ∷ ms) (and_bytes (x ∷ xs) (m ∷ ms)) ≡ true
        → (i : ℕ) → i < suc (length ms)
        → bit_and (get_or (h ∷ hs) i 0) (get_or (m ∷ ms) i 0)
          ≡ bit_and (get_or (x ∷ xs) i 0) (get_or (m ∷ ms) i 0)
    to down e zero lt = (==_iff _ _).0 (&&-split _ _ e).0
    to down e (suc i) lt = down (&&-split _ _ e).1 i (omega arith)

-- A range that was read: its address, and the length of its prefix.
pub record IsRangeV6 (s addr : Bytes) (prefix : ℕ) : Type 0 where
  pub texts : Bytes × Bytes
  pub splits : find_slash s ≡ some texts
  pub address : parse_ipv6 texts.0 ≡ some addr
  pub prefix_is : parse_prefix 3 128 texts.1 ≡ some prefix

-- If a text is accepted as an IPv6 range, it holds an address of 16 bytes and a prefix length of at
-- most 128 round a slash, and the range matches exactly the addresses of 16 bytes that have in each
-- byte, as far as the prefix goes, the leading bits of that address.
pub parse_cidr_v6-covers :
    (s : Bytes) (c : CidrV6) (host : Bytes)
    → parse_cidr_v6 s ≡ some c
    → IsAddress host
    → (addr : Bytes) × (prefix : ℕ) × IsRangeV6 s addr prefix
      × IsAddress addr
      × (prefix ≤ 128)
      × ((matches_v6 host c ≡ true) ↔ (
          (i : ℕ)
          → i < 16
          → leading 8 (bits_in prefix i) (get_or host i 0)
            ≡ leading 8 (bits_in prefix i) (get_or addr i 0)))
unfolding parse_cidr_v6 cidr_v6 matches_v6
parse_cidr_v6-covers s c host e h = elim (Option-cases (find_slash s)) [
  | inl q ↦ absurd (none_is_not_some (rw (q, parse_cidr_v6) at e))
  | inr (texts, q) ↦ elim (Option-cases (parse_prefix 3 128 texts.1)) [
    | inl p ↦ absurd (none_is_not_some (rw (q, p, parse_cidr_v6, cidr_v6) at e))
    | inr (prefix, p) ↦ elim (Option-cases (parse_ipv6 texts.0)) [
      | inl a ↦ absurd (none_is_not_some (rw (q, p, a, parse_cidr_v6, cidr_v6) at e))
      | inr (addr, a) ↦
          let bound = parse_prefix-bound 3 128 texts.1 prefix p in
          let made = some-injective (rw (q, p, a, parse_cidr_v6, cidr_v6) at e) in
          let sixteen = parse_ipv6-IsAddress texts.0 addr a in
          (
            addr,
            prefix,
            record { texts = texts; splits = q; address = a; prefix_is = p },
            sixteen,
            bound,
            rw (sym made) (same prefix host addr bound h sixteen),
          )
    ]
  ]
]
  where
    same :
        (p : ℕ) (host addr : Bytes)
        → p ≤ 128
        → IsAddress host
        → IsAddress addr
        → (matches_v6 host (record { net = and_bytes addr (make_v6_mask p); mask = make_v6_mask p })
            ≡ true)
          ↔ ((i : ℕ)
              → i < 16
              → leading 8 (bits_in p i) (get_or host i 0)
                ≡ leading 8 (bits_in p i) (get_or addr i 0))
    same p host addr bound h a =
        let (sized, bits) = v6_mask p bound in
        let m = make_v6_mask p in
        let (down, up) = bytes_match_iff host m addr (h.0 ∙ sym sized) (a.0 ∙ sym sized) in
        let at : (i : ℕ)
            → i < 16
            → (bit_and (get_or host i 0) (get_or m i 0) ≡ bit_and (get_or addr i 0) (get_or m i 0))
              ↔ (leading 8 (bits_in p i) (get_or host i 0)
                  ≡ leading 8 (bits_in p i) (get_or addr i 0)) =
          λ i lt. rw (bits i lt) (
            prefix_mask-same 8 (bits_in p i) (get_or host i 0) (get_or addr i 0) (omega arith)
              (All_get_or IsByte host i 0 (omega arith) h.1)
              (All_get_or IsByte addr i 0 (omega arith) a.1)) in
        (
          λ e i lt. (at i lt).0 (down e i (rw sized lt)),
          λ all. up (λ i lt. (at i (rw sized at lt)).1 (all i (rw sized at lt))),
        )
