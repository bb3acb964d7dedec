-- ===== src/Security/Whitelist/Enforces.antt =====
-- From the texts of a policy to the targets that are allowed under it.
use remote_tool.Prelude.{
  ℕ, ◌≤◌, ◌≡◌, ◌≢◌, refl, sym, ap, ◌∙◌, ◌↔◌, ◌⊎◌, inl, inr, arith, ℤ, pos, negsuc, below, above,
  Bool, true, false, not, ◌&&◌, ◌||◌, List, [], ◌∷◌, Bytes, All, ◌==◌, Bool-cases,
}
use remote_tool.Security.Whitelist.Cidr.{CidrV4, CidrV6}
use remote_tool.Security.Whitelist.Policy.{
  TargetPolicy, TargetWhitelist, Checked, ok, err, is_listed, cast_u16, add_ports, is_zero,
  add_cidrs, create, Host, v4_host, v6_host, no_literal, parse_host, check,
}
use remote_tool.Security.Whitelist.Rules.{Any, Covered, is_listed_iff, check_allowed}
use remote_tool.Security.Whitelist.Accepts.{IsPort, add_ports-Ports, pos-injective}
use remote_tool.Security.Whitelist.Ranges.{ok_inj, TextMatchesV4, TextMatchesV6, add_cidrs-Ranges}

-- What `create` has computed where it accepts.
abbrev is_bad_self : ℤ → Bool
is_bad_self self = not (is_zero self) && (below self 1 || above self 65535)

record Created (p : TargetPolicy) (w : TargetWhitelist) : Type 0 where
  same_policy : w.policy ≡ p
  ports_read : add_ports p.allowed_ports [] ≡ ok w.ports
  good_self : is_bad_self p.self_listener_port ≡ false
  cidrs_read : add_cidrs p.allow_ipv6 p.allowed_cidrs ([], []) ≡ ok (w.cidrs_v4, w.cidrs_v6)

create-Created : (p : TargetPolicy) (w : TargetWhitelist) → create p ≡ ok w → Created p w
unfolding create
create-Created p w e = by_ports (add_ports p.allowed_ports []) refl
  where
    by_cidrs :
        (ports : List ℕ)
        → add_ports p.allowed_ports [] ≡ ok ports
        → is_bad_self p.self_listener_port ≡ false
        → (o : Checked (List CidrV4 × List CidrV6))
        → add_cidrs p.allow_ipv6 p.allowed_cidrs ([], []) ≡ o
        → Created p w
    by_cidrs ports r good (err x) q = absurd (cc (rw (r, good, q, create) at e))
    by_cidrs ports r good (ok (v4s, v6s)) q =
        let made = ok_inj (rw (r, good, q, create) at e) in
        rw (sym made)
          (record { same_policy = refl; ports_read = r; good_self = good; cidrs_read = q })

    by_ports : (o : Checked (List ℕ)) → add_ports p.allowed_ports [] ≡ o → Created p w
    by_ports (err x) r = absurd (cc (rw (r, create) at e))
    by_ports (ok ports) r = elim (Bool-cases (is_bad_self p.self_listener_port)) [
      | inl bad ↦ absurd (cc (rw (r, bad, create) at e))
      | inr good ↦ by_cidrs ports r good (add_cidrs p.allow_ipv6 p.allowed_cidrs ([], [])) refl
    ]

listed-IsPort : (q : ℕ) (ps : List ℕ) → All IsPort ps → is_listed q ps ≡ true → IsPort q
unfolding is_listed
listed-IsPort q [] h e = absurd (cc e)
listed-IsPort q (p ∷ ps) h e = ground (arith, h.0, listed-IsPort q ps h.1)

own_port :
    (self : ℤ) (port : ℕ)
    → IsPort port
    → is_bad_self self ≡ false
    → ((is_zero self ≡ true) ⊎ (port ≢ cast_u16 self)) ↔ (self ≢ pos port)
own_port (negsuc n) port range good = absurd (cc good)
own_port (pos n) port range good =
    let bounds : (n ≡ 0) ⊎ (n ≤ 65535) = ground (arith, good) in
    (
      λ h e.
          let same = pos-injective n port e in
          elim h [
            | inl z ↦ ground (arith, z, same, range)
            | inr apart ↦ apart (omega (arith, same, range.0, range.1))
          ],
      λ h. elim (Bool-cases (n == 0)) [
        | inl z ↦ inl z
        | inr nz ↦ inr (λ q. h (ap pos (ground (arith, nz, bounds, q))))
      ],
    )

-- The rules on a target, read off the policy itself.
abbrev CoveredBy : TargetPolicy → Host → Type 0
CoveredBy p (v4_host v4) = Any (TextMatchesV4 v4) p.allowed_cidrs
CoveredBy p (v6_host v6) = (p.allow_ipv6 ≡ true) × Any (TextMatchesV6 v6) p.allowed_cidrs
CoveredBy p no_literal = ⊥

pub record PolicyPermits (p : TargetPolicy) (host : Bytes) (port : ℕ) : Type 0 where
  pub no_loop : p.self_listener_port ≢ pos port
  pub listed : Any (λ z. z ≡ pos port) p.allowed_ports
  pub covered : CoveredBy p (parse_host host)

not_in_nil : (x : ℕ) → ¬ (is_listed x [] ≡ true)
unfolding is_listed
not_in_nil x e = cc e

Covered-CoveredBy :
    (p : TargetPolicy) (w : TargetWhitelist) (h : Host) → Created p w → Covered w h ↔ CoveredBy p h
Covered-CoveredBy p w (v4_host v4) c =
    let r = (add_cidrs-Ranges p.allow_ipv6 p.allowed_cidrs ([], []) _ c.cidrs_read).v4_ranges v4 in
    (λ a. elim (r.0 a) [ inl n ↦ absurd n | inr t ↦ t ], λ t. r.1 (inr t))
Covered-CoveredBy p w (v6_host v6) c =
    let r = (add_cidrs-Ranges p.allow_ipv6 p.allowed_cidrs ([], []) _ c.cidrs_read).v6_ranges v6 in
    let six = ap (λ (q : TargetPolicy). q.allow_ipv6) c.same_policy in
    (
      λ (on, a). (sym six ∙ on, elim (r.0 a) [ inl n ↦ absurd n | inr t ↦ t ]),
      λ (on, t). (six ∙ on, r.1 (inr t)),
    )
Covered-CoveredBy p w no_literal c = (λ n. n, λ n. n)

-- Where a policy is accepted, `check` enforces it as it is written: a target is allowed exactly where
-- its port is not the agent's own, the policy lists its port, and its host is an address literal that
-- some range of the policy's list matches, IPv6 being allowed for an IPv6 address.
pub create-check :
    (p : TargetPolicy) (w : TargetWhitelist) (host : Bytes) (port : ℕ)
    → create p ≡ ok w
    → ((check w host port).allowed ≡ true) ↔ PolicyPermits p host port
create-check p w host port made =
    let c = create-Created p w made in
    let (to, from) = check_allowed w host port in
    let ports = add_ports-Ports p.allowed_ports [] w.ports c.ports_read tt tt in
    let (hit, find) = is_listed_iff port w.ports in
    let (cover, uncover) = Covered-CoveredBy p w (parse_host host) c in
    let self = ap (λ (q : TargetPolicy). q.self_listener_port) c.same_policy in
    (
      λ e.
          let q = to e in
          let range = listed-IsPort port w.ports ports.in_range (find q.listed) in
          record {
            no_loop =
                (own_port p.self_listener_port port range c.good_self).0 (rw self at (q.no_loop));
            listed = elim ((ports.from_policy port).0 (find q.listed)) [
              | inl n ↦ absurd (not_in_nil port n)
              | inr a ↦ a
            ];
            covered = cover q.covered;
          },
      λ q.
          let listed = (ports.from_policy port).1 (inr q.listed) in
          let range = listed-IsPort port w.ports ports.in_range listed in
          from (record {
            no_loop = rw self ((own_port p.self_listener_port port range c.good_self).1 q.no_loop);
            listed = hit listed;
            covered = uncover q.covered;
          }),
    )
