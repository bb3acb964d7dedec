-- ===== src/Security/Whitelist/Ranges.antt =====
-- Which addresses the ranges read from the texts of a policy match.
use remote_tool.Prelude.{
  ℕ, ◌≡◌, refl, sym, ◌↔◌, ◌⊎◌, inl, inr, Bool, true, false, some, List, [], ◌∷◌, ◌++◌, Bytes,
  length, ◌==◌, Bool-cases, Option-cases,
}
use remote_tool.Security.Whitelist.Address.{has_dot}
use remote_tool.Security.Whitelist.Cidr.{
  CidrV4, CidrV6, parse_cidr_v4, parse_cidr_v6, matches_v4, matches_v6,
}
use remote_tool.Security.Whitelist.Policy.{Checked, ok, err, add_cidr, add_cidrs, has_colon}
use remote_tool.Security.Whitelist.Rules.{Any}

-- The texts that match an address, in a list of ranges. A text with a colon is an IPv6 range.
abbrev pub TextMatchesV4 : ℕ → Bytes → Type 0
TextMatchesV4 v4 s =
    (has_colon s ≡ false) × ((c : CidrV4) × (parse_cidr_v4 s ≡ some c) × (matches_v4 v4 c ≡ true))

abbrev pub TextMatchesV6 : Bytes → Bytes → Type 0
TextMatchesV6 v6 s =
    (has_colon s ≡ true) × ((c : CidrV6) × (parse_cidr_v6 s ≡ some c) × (matches_v6 v6 c ≡ true))

-- How one round of the loop over the texts ends, where it accepts.
Read : Bytes → List CidrV4 × List CidrV6 → List CidrV4 × List CidrV6 → Type 0
Read s (v4s, v6s) after =
    ((has_colon s ≡ true)
      × ((c : CidrV6) × (parse_cidr_v6 s ≡ some c) × (after ≡ (v4s, v6s ++ c ∷ []))))
    ⊎ ((has_colon s ≡ false)
        × ((c : CidrV4) × (parse_cidr_v4 s ≡ some c) × (after ≡ (v4s ++ c ∷ [], v6s))))

pub ok_inj {ℓ} : {A : Type ℓ} {a b : A} → Checked.ok a ≡ ok b → a ≡ b
ok_inj e = cc e

add_cidr-Read :
    (six : Bool) (s : Bytes) (before after : List CidrV4 × List CidrV6)
    → add_cidr six s before ≡ ok after
    → Read s before after
unfolding add_cidr Read
add_cidr-Read six s before after e = elim (Bool-cases (length s == 0)) [
  | inl empty ↦ absurd (cc (rw empty at e))
  | inr full ↦ elim (Bool-cases (has_colon s)) [
    | inl colon ↦ elim (Bool-cases six) [
      | inr off ↦ absurd (cc (rw (full, colon, off) at e))
      | inl on ↦ elim (Option-cases (parse_cidr_v6 s)) [
        | inl bad ↦ absurd (cc (rw (full, colon, on, bad, add_cidr) at e))
        | inr (c, q) ↦ inl (colon, (c, q, sym (ok_inj (rw (full, colon, on, q, add_cidr) at e))))
      ]
    ]
    | inr none_there ↦ elim (Bool-cases (has_dot s)) [
      | inr bad ↦ absurd (cc (rw (full, none_there, bad) at e))
      | inl dot ↦ elim (Option-cases (parse_cidr_v4 s)) [
        | inl bad ↦ absurd (cc (rw (full, none_there, dot, bad, add_cidr) at e))
        | inr (c, q) ↦
            inr (none_there, (c, q, sym (ok_inj (rw (full, none_there, dot, q, add_cidr) at e))))
      ]
    ]
  ]
]

module _ {ℓ} {A : Type ℓ} (P : A → Type 0) where
  Any-append : (xs ys : List A) → Any P (xs ++ ys) ↔ (Any P xs ⊎ Any P ys)
  Any-append [] ys = (λ h. inr h, λ h. elim h [ inl n ↦ absurd n | inr y ↦ y ])
  Any-append (x ∷ xs) ys =
      let (down, up) = Any-append xs ys in
      (
        λ h. elim h [
          | inl p ↦ inl (inl p)
          | inr r ↦ elim (down r) [ inl a ↦ inl (inr a) | inr b ↦ inr b ]
        ],
        λ h. elim h [
          | inl (inl p) ↦ inl p
          | inl (inr a) ↦ inr (up (inl a))
          | inr b ↦ inr (up (inr b))
        ],
      )

-- One range more, which a text that matches stands for.
one_more :
    {A : Type 0} (P : A → Type 0) (T : Type 0) (xs : List A) (c : A)
    → (T ↔ P c)
    → Any P (xs ++ c ∷ []) ↔ (Any P xs ⊎ T)
one_more P T xs c (to, from) =
    let (down, up) = Any-append P xs (c ∷ []) in
    (
      λ h. elim (down h) [
        | inl a ↦ inl a
        | inr b ↦ elim b [ inl p ↦ inr (from p) | inr n ↦ absurd n ]
      ],
      λ h. up (elim h [ inl a ↦ inl a | inr t ↦ inr (inl (to t)) ]),
    )

none_more : (A T : Type 0) → ¬ T → A ↔ (A ⊎ T)
none_more A T never = (λ a. inl a, λ h. elim h [ inl a ↦ a | inr t ↦ absurd (never t) ])

then_more : {A B C D E : Type 0} → A ↔ (B ⊎ C) → B ↔ (D ⊎ E) → A ↔ (D ⊎ (E ⊎ C))
then_more (f, g) (h, k) = (
  (λ a. elim (f a) [
    | inl b ↦ elim (h b) [ inl d ↦ inl d | inr e ↦ inr (inl e) ]
    | inr c ↦ inr (inr c)
  ]),
  λ x. g (elim x [ inl d ↦ inl (k (inl d)) | inr (inl e) ↦ inl (k (inr e)) | inr (inr c) ↦ inr c ]),
)

abbrev MatchesV4 : ℕ → CidrV4 → Type 0
MatchesV4 v4 c = matches_v4 v4 c ≡ true

abbrev MatchesV6 : Bytes → CidrV6 → Type 0
MatchesV6 v6 c = matches_v6 v6 c ≡ true

Read-v4 :
    (s : Bytes) (before after : List CidrV4 × List CidrV6) (v4 : ℕ)
    → Read s before after
    → Any (MatchesV4 v4) after.0 ↔ (Any (MatchesV4 v4) before.0 ⊎ TextMatchesV4 v4 s)
unfolding Read
Read-v4 s before after v4 (inl (colon, (c, q, e))) =
    rw e (none_more (Any (MatchesV4 v4) before.0) (TextMatchesV4 v4 s) (λ t. cc (colon, t.0)))
Read-v4 s before after v4 (inr (colon, (c, q, e))) = rw e (
    one_more (MatchesV4 v4) (TextMatchesV4 v4 s) before.0 c
      ((λ t. let same : t.1.0 ≡ c = cc (q, t.1.1) in rw same at (t.1.2)), λ m. (colon, (c, q, m))))

Read-v6 :
    (s : Bytes) (before after : List CidrV4 × List CidrV6) (v6 : Bytes)
    → Read s before after
    → Any (MatchesV6 v6) after.1 ↔ (Any (MatchesV6 v6) before.1 ⊎ TextMatchesV6 v6 s)
unfolding Read
Read-v6 s before after v6 (inr (colon, (c, q, e))) =
    rw e (none_more (Any (MatchesV6 v6) before.1) (TextMatchesV6 v6 s) (λ t. cc (colon, t.0)))
Read-v6 s before after v6 (inl (colon, (c, q, e))) = rw e (
    one_more (MatchesV6 v6) (TextMatchesV6 v6 s) before.1 c
      ((λ t. let same : t.1.0 ≡ c = cc (q, t.1.1) in rw same at (t.1.2)), λ m. (colon, (c, q, m))))

-- The ranges after the loop: those before, and those of the texts.
pub record Ranges (before after : List CidrV4 × List CidrV6) (ss : List Bytes) : Type 0 where
  pub v4_ranges :
      (v4 : ℕ)
      → Any (MatchesV4 v4) after.0 ↔ (Any (MatchesV4 v4) before.0 ⊎ Any (TextMatchesV4 v4) ss)
  pub v6_ranges :
      (v6 : Bytes)
      → Any (MatchesV6 v6) after.1 ↔ (Any (MatchesV6 v6) before.1 ⊎ Any (TextMatchesV6 v6) ss)

pub add_cidrs-Ranges :
    (six : Bool) (ss : List Bytes) (before after : List CidrV4 × List CidrV6)
    → add_cidrs six ss before ≡ ok after
    → Ranges before after ss
unfolding add_cidrs
add_cidrs-Ranges six [] before after e =
    let same = ok_inj e in
    record {
      v4_ranges = λ v4. rw (sym same) (none_more (Any (MatchesV4 v4) before.0) ⊥ (λ n. n));
      v6_ranges = λ v6. rw (sym same) (none_more (Any (MatchesV6 v6) before.1) ⊥ (λ n. n));
    }
add_cidrs-Ranges six (s ∷ ss) before after e =
    by_round (add_cidr six s before) refl (λ mid q. add_cidrs-Ranges six ss mid after q)
  where
    by_round :
        (o : Checked (List CidrV4 × List CidrV6))
        → add_cidr six s before ≡ o
        → ((mid : List CidrV4 × List CidrV6)
            → add_cidrs six ss mid ≡ ok after
            → Ranges mid after ss)
        → Ranges before after (s ∷ ss)
    by_round (err x) q later = absurd (cc (rw (q, add_cidrs) at e))
    by_round (ok mid) q later =
        let rest = later mid (rw (q, add_cidrs) at e) in
        let read = add_cidr-Read six s before mid q in
        record {
          v4_ranges = λ v4. then_more (rest.v4_ranges v4) (Read-v4 s before mid v4 read);
          v6_ranges = λ v6. then_more (rest.v6_ranges v6) (Read-v6 s before mid v6 read);
        }
