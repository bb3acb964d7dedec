-- ===== src/Session/Ids/Monotone.antt =====
-- Ids are handed out in order, each at most once.
use remote_tool.Prelude.{
  ℕ, zero, suc, ◌+◌, ◌-◌, ◌≤◌, ◌<◌, ◌≡◌, refl, false, List, [], ◌∷◌, arith, inl, inr, ◌⊎◌, All,
  All-append, ltb, ◌==◌, Bool-cases,
}
use remote_tool.Session.Ids.{
  Entry, SessionIdAllocator, new_allocator, id_limit, purge, purge_expired, on_list, is_blacklisted,
  allocate_loop, allocate, release,
}

-- The counter has not gone back to the reserved id, and only ids that were handed out were released.
pub record IsValid (a : SessionIdAllocator) : Type 0 where
  pub started : 1 ≤ a.next_id
  pub past : All (λ (e : Entry). e.id < a.next_id) a.blacklist

purge-All :
    (n now : ℕ) (es : List Entry)
    → All (λ (e : Entry). e.id < n) es
    → All (λ (e : Entry). e.id < n) (purge now es)
unfolding purge
purge-All n now [] h = tt
purge-All n now (e ∷ es) h = elim (Bool-cases (ltb 60 (now - e.released))) [
  | inl old ↦ rw old (purge-All n now es h.1)
  | inr fresh ↦ rw fresh h
]

All-mono :
    (n m : ℕ) (es : List Entry)
    → n ≤ m
    → All (λ (e : Entry). e.id < n) es
    → All (λ (e : Entry). e.id < m) es
All-mono n m [] le h = tt
All-mono n m (e ∷ es) le h = (omega arith, All-mono n m es le h.1)

on_list_past :
    (id : ℕ) (es : List Entry) → All (λ (e : Entry). e.id < id) es → on_list id es ≡ false
unfolding on_list
on_list_past id [] h = refl
on_list_past id (e ∷ es) h = ground (arith, on_list_past id es h.1)

pub new_allocator-IsValid : IsValid new_allocator
new_allocator-IsValid = record { started = omega arith; past = tt }

-- While ids are left, `allocate` hands out the next one in order, at its first attempt: the
-- blacklist never turns a candidate down. The counter goes on by one, and validity is kept.
pub allocate-next_id :
    (clock : ℕ → ℕ) (a : SessionIdAllocator)
    → IsValid a
    → a.next_id < id_limit
    → ((allocate clock a).0 ≡ a.next_id)
      × ((allocate clock a).1.next_id ≡ a.next_id + 1)
      × IsValid (allocate clock a).1
unfolding allocate allocate_loop is_blacklisted purge_expired
allocate-next_id clock a v room =
    let rounds : id_limit - a.next_id ≡ suc (id_limit - a.next_id - 1) = omega arith in
    let past =
      All-mono a.next_id (a.next_id + 1) _ (omega arith)
        (purge-All a.next_id (clock a.next_id) a.blacklist v.past) in
    let not_zero : (a.next_id == 0) ≡ false = ground (arith, v.started) in
    let not_listed =
      on_list_past a.next_id (purge (clock a.next_id) a.blacklist)
        (purge-All a.next_id (clock a.next_id) a.blacklist v.past) in
    rw (rounds, not_zero, not_listed) (refl, refl, record { started = omega arith; past = past })

-- Once the counter is at the limit, every call returns 0, which is no session id, and changes nothing.
pub allocate_exhausted :
    (clock : ℕ → ℕ) (a : SessionIdAllocator) → id_limit ≤ a.next_id → allocate clock a ≡ (0, a)
unfolding allocate allocate_loop
allocate_exhausted clock a full = let e : id_limit - a.next_id ≡ zero = omega arith in rw e refl

pub release-IsValid :
    (now id : ℕ) (a : SessionIdAllocator) → IsValid a → id < a.next_id → IsValid (release now id a)
unfolding release purge_expired
release-IsValid now id a v h = elim (Bool-cases (id == 0)) [
  | inl e ↦ rw e v
  | inr e ↦ rw e (record {
    started = v.started;
    past =
        All-append (λ (x : Entry). x.id < a.next_id) (purge now a.blacklist) _
          (purge-All a.next_id now a.blacklist v.past) (h, tt);
  })
]

-- A history of the allocator: the results of its calls of `allocate`, oldest first.
pub data Call : Type 0 where
  allocates : (ℕ → ℕ) → Call
  releases : ℕ → ℕ → Call

pub results : SessionIdAllocator → List Call → List ℕ
results a [] = []
results a (allocates clock ∷ cs) = (allocate clock a).0 ∷ results (allocate clock a).1 cs
results a (releases now id ∷ cs) = results (release now id a) cs

-- Apart from the zeros, which are refusals, the numbers grow from `n` on.
abbrev pub Ascends : ℕ → List ℕ → Type 0
Ascends n [] = Unit {0}
Ascends n (x ∷ xs) = ((x ≡ 0) × Ascends n xs) ⊎ ((n ≤ x) × (x < id_limit) × Ascends (x + 1) xs)

Ascends-mono : (n m : ℕ) (xs : List ℕ) → n ≤ m → Ascends m xs → Ascends n xs
Ascends-mono n m [] h p = tt
Ascends-mono n m (x ∷ xs) h (inl (z, p)) = inl (z, Ascends-mono n m xs h p)
Ascends-mono n m (x ∷ xs) h (inr (le, lt, p)) = inr (omega arith, lt, p)

allocate_loop-range :
    (rounds : ℕ) (clock : ℕ → ℕ) (a : SessionIdAllocator)
    → a.next_id + rounds ≤ id_limit
    → let r = allocate_loop rounds clock a in
      (a.next_id ≤ r.1.next_id)
      × ((r.0 ≡ 0) ⊎ ((a.next_id ≤ r.0) × (r.0 < id_limit) × (r.0 + 1 ≤ r.1.next_id)))
unfolding allocate_loop purge_expired
allocate_loop-range zero clock a h = (omega arith, inl refl)
allocate_loop-range (suc rounds) clock a h =
    let counted = record a { next_id = a.next_id + 1 } in
    ground (
      arith,
      allocate_loop-range rounds clock counted (omega arith),
      allocate_loop-range rounds clock (purge_expired (clock a.next_id) counted) (omega arith),
    )

pub allocate-range :
    (clock : ℕ → ℕ) (a : SessionIdAllocator)
    → let r = allocate clock a in
      (a.next_id ≤ r.1.next_id)
      × ((r.0 ≡ 0) ⊎ ((a.next_id ≤ r.0) × (r.0 < id_limit) × (r.0 + 1 ≤ r.1.next_id)))
unfolding allocate allocate_loop
allocate-range clock a = elim (Bool-cases (ltb id_limit a.next_id)) [
  | inl past ↦ let e : id_limit - a.next_id ≡ zero = ground arith in rw e (omega arith, inl refl)
  | inr room ↦ allocate_loop-range (id_limit - a.next_id) clock a (ground arith)
]

-- In any history of calls, from any state and with any clock, the session ids that `allocate` hands
-- out ascend strictly, so none is handed out twice, and lie below the limit of 2^32 - 1.
pub results-Ascends : (a : SessionIdAllocator) (cs : List Call) → Ascends a.next_id (results a cs)
unfolding results release purge_expired
results-Ascends a [] = tt
results-Ascends a (allocates clock ∷ cs) =
    let later = results-Ascends (allocate clock a).1 cs in
    let (grows, outcome) = allocate-range clock a in
    elim outcome [
      | inl refused ↦ inl (refused, Ascends-mono _ _ _ grows later)
      | inr (low, high, next) ↦ inr (low, high, Ascends-mono _ _ _ next later)
    ]
results-Ascends a (releases now id ∷ cs) =
    let later = results-Ascends (release now id a) cs in
    elim (Bool-cases (id == 0)) [
      | inl e ↦ rw (e, release) (rw (e, release) at later)
      | inr e ↦ rw (e, release) (rw (e, release) at later)
    ]
