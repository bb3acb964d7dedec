-- ===== src/Security/Whitelist/Rules.antt =====
-- Which targets `check` allows, and what `create` accepts.
use remote_tool.Prelude.{
  ℕ, zero, suc, ◌≡◌, ◌≢◌, refl, sym, ◌↔◌, ◌⊎◌, inl, inr, arith, Bool, true, false, not, ◌&&◌, List,
  [], ◌∷◌, Bytes, length, ◌==◌, if◌then◌else◌,
}
use remote_tool.Security.Whitelist.Cidr.{CidrV4, CidrV6, matches_v4, matches_v6}
use remote_tool.Security.Whitelist.Policy.{
  TargetWhitelist, TargetCheckResult, is_listed, cast_u16, is_zero, Host, v4_host, v6_host,
  no_literal, parse_host, any_v4, any_v6, deny, allow, check_cidrs, check_port, check_host, check,
}

abbrev pub Any {ℓ} : {A : Type ℓ} → (A → Type 0) → List A → Type 0
Any P [] = ⊥
Any P (x ∷ xs) = P x ⊎ Any P xs

-- The rules for a target, as CONFIG_SPEC.md and the header state them, on a host that was parsed.
abbrev pub Covered : TargetWhitelist → Host → Type 0
Covered w (v4_host v4) = Any (λ c. matches_v4 v4 c ≡ true) w.cidrs_v4
Covered w (v6_host v6) = (w.policy.allow_ipv6 ≡ true) × Any (λ c. matches_v6 v6 c ≡ true) w.cidrs_v6
Covered w no_literal = ⊥

pub record Permits (w : TargetWhitelist) (host : Bytes) (port : ℕ) : Type 0 where
  pub no_loop :
      (is_zero w.policy.self_listener_port ≡ true) ⊎ (port ≢ cast_u16 w.policy.self_listener_port)
  pub listed : Any (λ p. p ≡ port) w.ports
  pub covered : Covered w (parse_host host)

pub is_listed_iff : (p : ℕ) (ps : List ℕ) → (is_listed p ps ≡ true) ↔ Any (λ q. q ≡ p) ps
unfolding is_listed
is_listed_iff p [] = ground arith
is_listed_iff p (q ∷ ps) = ground (arith, is_listed_iff p ps)

any_v4_iff :
    (v4 : ℕ) (cs : List CidrV4) → (any_v4 v4 cs ≡ true) ↔ Any (λ c. matches_v4 v4 c ≡ true) cs
unfolding any_v4
any_v4_iff v4 [] = ground arith
any_v4_iff v4 (c ∷ cs) = ground (arith, any_v4_iff v4 cs)

any_v6_iff :
    (v6 : Bytes) (cs : List CidrV6) → (any_v6 v6 cs ≡ true) ↔ Any (λ c. matches_v6 v6 c ≡ true) cs
unfolding any_v6
any_v6_iff v6 [] = ground arith
any_v6_iff v6 (c ∷ cs) = ground (arith, any_v6_iff v6 cs)

-- An answer that a list which is empty gives before it is searched.
searched :
    (n : ℕ) (b : Bool) (empty missing : Bytes)
    → (n ≡ 0 → b ≡ false)
    → (if n == 0 then deny empty else if b then allow else deny missing).allowed ≡ b
searched zero true empty missing h = sym (h refl)
searched zero false empty missing h = refl
searched (suc n) b empty missing h = ground arith

any_v4_empty : (v4 : ℕ) (cs : List CidrV4) → length cs ≡ 0 → any_v4 v4 cs ≡ false
unfolding any_v4
any_v4_empty v4 [] h = refl
any_v4_empty v4 (c ∷ cs) h = absurd (omega arith)

any_v6_empty : (v6 : Bytes) (cs : List CidrV6) → length cs ≡ 0 → any_v6 v6 cs ≡ false
unfolding any_v6
any_v6_empty v6 [] h = refl
any_v6_empty v6 (c ∷ cs) h = absurd (omega arith)

is_listed_empty : (p : ℕ) (ps : List ℕ) → length ps ≡ 0 → is_listed p ps ≡ false
unfolding is_listed
is_listed_empty p [] h = refl
is_listed_empty p (q ∷ ps) h = absurd (omega arith)

check_cidrs-Covered :
    (w : TargetWhitelist) (h : Host)
    → (w.policy.allow_ipv6 ≡ true) ⊎ ((v6 : Bytes) → h ≢ v6_host v6)
    → ((check_cidrs w h).allowed ≡ true) ↔ Covered w h
unfolding check_cidrs
check_cidrs-Covered w (v4_host v4) six =
    rw (searched (length w.cidrs_v4) (any_v4 v4 w.cidrs_v4) _ _ (any_v4_empty v4 w.cidrs_v4))
      (any_v4_iff v4 w.cidrs_v4)
check_cidrs-Covered w (v6_host v6) (inl on) =
    let (down, up) = any_v6_iff v6 w.cidrs_v6 in
    rw (searched (length w.cidrs_v6) (any_v6 v6 w.cidrs_v6) _ _ (any_v6_empty v6 w.cidrs_v6))
      (λ e. (on, down e), λ c. up c.1)
check_cidrs-Covered w (v6_host v6) (inr off) = absurd (off v6 refl)
check_cidrs-Covered w no_literal six = (λ e. absurd (cc e), λ c. absurd c)

-- A rule that denies.
denies_if :
    (b : Bool) (x : Bytes) (r : TargetCheckResult)
    → ((if b then deny x else r).allowed ≡ true) ↔ ((b ≡ false) × (r.allowed ≡ true))
denies_if true x r = (λ e. absurd (cc e), λ h. absurd (cc (h.0)))
denies_if false x r = (λ e. (refl, e), λ h. h.1)

check_port-listed :
    (w : TargetWhitelist) (h : Host) (port : ℕ)
    → ((check_port w h port).allowed ≡ true)
      ↔ (Any (λ p. p ≡ port) w.ports × ((check_cidrs w h).allowed ≡ true))
unfolding check_port
check_port-listed w h port =
    let listed = is_listed port w.ports in
    let (down, up) =
      denies_if (length w.ports == 0) _ (if not listed then deny _ else check_cidrs w h) in
    let (down', up') = denies_if (not listed) _ (check_cidrs w h) in
    let (found, find) = is_listed_iff port w.ports in
    (
      λ e.
          let (nonempty, rest) = down e in
          let (hit, r) = down' rest in (found (ground (arith, hit)), r),
      λ (m, r).
          up
            (ground (arith, find m, is_listed_empty port w.ports), up' (ground (arith, find m), r)),
    )

check_host-Covered :
    (w : TargetWhitelist) (h : Host) (port : ℕ)
    → ((check_host w h port).allowed ≡ true) ↔ (Any (λ p. p ≡ port) w.ports × Covered w h)
unfolding check_host
check_host-Covered w (v4_host v4) port =
    let (down, up) = check_port-listed w (v4_host v4) port in
    let (down', up') = check_cidrs-Covered w (v4_host v4) (inr (λ v6 e. cc e)) in
    (λ e. let (m, r) = down e in (m, down' r), λ (m, c). up (m, up' c))
check_host-Covered w (v6_host v6) port =
    let on = w.policy.allow_ipv6 in
    let (past, deny_not) = denies_if (not on) _ (check_port w (v6_host v6) port) in
    let (down, up) = check_port-listed w (v6_host v6) port in
    (
      λ e.
          let (allowed, rest) = past e in
          let (m, r) = down rest in
          (m, (check_cidrs-Covered w (v6_host v6) (inl (ground (arith, allowed)))).0 r),
      λ (m, c).
          deny_not
            (ground (arith, c.0), up (m, (check_cidrs-Covered w (v6_host v6) (inl c.0)).1 c)),
    )
check_host-Covered w no_literal port = (λ e. absurd (cc e), λ (m, c). absurd c)

loop_free : (z : Bool) (x y : ℕ) → ((not z && x == y) ≡ false) ↔ ((z ≡ true) ⊎ (x ≢ y))
loop_free true x y = (λ e. inl refl, λ h. refl)
loop_free false x y = (
  (λ e. inr (λ q. ground (arith, e, q))),
  λ h. elim h [ inl z ↦ absurd (cc z) | inr n ↦ ground (arith, n) ],
)

-- A target is allowed exactly where all rules permit it: its port is not the listener's own, its
-- port is one of the listed ones, and its host is an address literal that some range of its family
-- matches, with IPv6 allowed by the policy for an IPv6 address. In every other case it is denied.
pub check_allowed :
    (w : TargetWhitelist) (host : Bytes) (port : ℕ)
    → ((check w host port).allowed ≡ true) ↔ Permits w host port
unfolding check
check_allowed w host port =
    let self = w.policy.self_listener_port in
    let loop = not (is_zero self) && port == cast_u16 self in
    let (down, up) = denies_if loop _ (check_host w (parse_host host) port) in
    let (down', up') = check_host-Covered w (parse_host host) port in
    let apart : (loop ≡ false) ↔ ((is_zero self ≡ true) ⊎ (port ≢ cast_u16 self)) =
      loop_free (is_zero self) port (cast_u16 self) in
    (
      λ e.
          let (free, rest) = down e in
          let (m, c) = down' rest in record { no_loop = apart.0 free; listed = m; covered = c },
      λ p. up (apart.1 p.no_loop, up' (p.listed, p.covered)),
    )
