-- ===== src/Security/Whitelist/Accepts.antt =====
-- What `create` makes of a policy that it accepts.
use remote_tool.Prelude.{
  ℕ, ◌%◌, ◌^◌, ◌≤◌, ◌≡◌, refl, sym, ap, ◌∙◌, ◌↔◌, ◌⊎◌, inl, inr, arith, ℤ, pos, negsuc, below,
  above, Bool, true, false, ◌||◌, List, [], ◌∷◌, ◌++◌, All, All-append, Bool-cases,
}
use remote_tool.Security.Whitelist.Policy.{Checked, ok, is_listed, add_ports}
use remote_tool.Security.Whitelist.Rules.{Any}

abbrev pub IsPort : ℕ → Type 0
IsPort p = (1 ≤ p) × (p ≤ 65535)

abbrev pub Distinct : List ℕ → Type 0
Distinct [] = Unit {0}
Distinct (p ∷ ps) = (is_listed p ps ≡ false) × Distinct ps

ok_inj : {a b : List ℕ} → Checked.ok a ≡ ok b → a ≡ b
ok_inj e = cc e

is_listed-append :
    (q : ℕ) (ps qs : List ℕ) → is_listed q (ps ++ qs) ≡ (is_listed q ps || is_listed q qs)
unfolding is_listed
is_listed-append q [] qs = refl
is_listed-append q (p ∷ ps) qs = ground (arith, is_listed-append q ps qs)

is_listed_one : (q p : ℕ) → (is_listed q (p ∷ []) ≡ true) ↔ (p ≡ q)
unfolding is_listed
is_listed_one q p = ground arith

Distinct-append :
    (ps : List ℕ) (p : ℕ) → Distinct ps → is_listed p ps ≡ false → Distinct (ps ++ p ∷ [])
unfolding is_listed
Distinct-append [] p d n = (refl, tt)
Distinct-append (q ∷ ps) p d n = (
  ground (arith, d.0, is_listed-append q ps (p ∷ []), is_listed_one q p),
  Distinct-append ps p d.1 (ground arith),
)

pub pos-injective : (m n : ℕ) → pos m ≡ pos n → m ≡ n
pos-injective m n e = cc e

-- The ports after the loop of `create`: those before, and those of the policy.
pub record Ports (before : List ℕ) (ps : List ℤ) (after : List ℕ) : Type 0 where
  pub in_range : All IsPort after
  pub distinct : Distinct after
  pub from_policy :
      (q : ℕ) → (is_listed q after ≡ true) ↔ ((is_listed q before ≡ true) ⊎ Any (λ z. z ≡ pos q) ps)

listed_as : (m n : ℕ) (ps : List ℕ) → m ≡ n → is_listed m ps ≡ true → is_listed n ps ≡ true
listed_as m n ps e h = rw e at h

Ports-old :
    (before after : List ℕ) (n : ℕ) (ps : List ℤ)
    → is_listed n before ≡ true
    → Ports before ps after
    → Ports before (pos n ∷ ps) after
Ports-old before after n ps old p = record {
  in_range = p.in_range;
  distinct = p.distinct;
  from_policy = λ q. (
    λ l. elim ((p.from_policy q).0 l) [ inl b ↦ inl b | inr a ↦ inr (inr a) ],
    λ h. (p.from_policy q).1 (elim h [
      | inl b ↦ inl b
      | inr (inl e) ↦ inl (listed_as n q before (pos-injective n q e) old)
      | inr (inr a) ↦ inr a
    ]),
  );
}

Ports-new :
    (before after : List ℕ) (n : ℕ) (ps : List ℤ)
    → Ports (before ++ n ∷ []) ps after
    → Ports before (pos n ∷ ps) after
Ports-new before after n ps p = record {
  in_range = p.in_range;
  distinct = p.distinct;
  from_policy = λ q.
      let joined = is_listed-append q before (n ∷ []) in
      let one = is_listed_one q n in
      (
        λ l. elim ((p.from_policy q).0 l) [
          | inl b ↦ elim (either (is_listed q before) (is_listed q (n ∷ [])) (sym joined ∙ b)) [
            | inl old ↦ inl old
            | inr new ↦ inr (inl (ap pos (one.0 new)))
          ]
          | inr a ↦ inr (inr a)
        ],
        λ h. (p.from_policy q).1 (elim h [
          | inl b ↦ inl (ground (arith, joined, b))
          | inr (inl e) ↦ inl (ground (arith, joined, one.1 (pos-injective n q e)))
          | inr (inr a) ↦ inr a
        ]),
      );
}
  where
    either : (a b : Bool) → (a || b) ≡ true → (a ≡ true) ⊎ (b ≡ true)
    either a b e = ground arith

pub add_ports-Ports :
    (ps : List ℤ) (before after : List ℕ)
    → add_ports ps before ≡ ok after
    → All IsPort before
    → Distinct before
    → Ports before ps after
unfolding add_ports
add_ports-Ports [] before after e r d =
    let same = ok_inj e in
    rw (sym same) (record {
      in_range = r;
      distinct = d;
      from_policy = λ q. (λ l. inl l, λ h. elim h [ inl l ↦ l | inr n ↦ absurd n ]);
    })
add_ports-Ports (negsuc n ∷ ps) before after e r d = absurd (cc e)
add_ports-Ports (pos n ∷ ps) before after e r d =
    elim (Bool-cases (below (pos n) 1 || above (pos n) 65535)) [
      | inl bad ↦ absurd (cc (rw bad at e))
      | inr good ↦
          let range : IsPort n = ground arith in
          let cast : n % 2 ^ 16 ≡ n = omega (arith, range.1) in
          elim (Bool-cases (is_listed n before)) [
            | inl old ↦
                Ports-old before after n ps old
                  (add_ports-Ports ps before after (rw (good, cast, old, add_ports) at e) r d)
            | inr new ↦ Ports-new before after n ps (
                add_ports-Ports ps (before ++ n ∷ []) after (rw (good, cast, new, add_ports) at e)
                  (All-append IsPort before (n ∷ []) r (range, tt))
                  (Distinct-append before n d new))
          ]
    ]
