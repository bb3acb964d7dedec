-- ===== src/Session/Manager/Account.antt =====
-- Every session is accounted for: it is in the table, or its callback has been called.
use remote_tool.Prelude.{
  ℕ, ◌+◌, ◌≤◌, ◌≡◌, refl, ap, ◌∙◌, inl, inr, arith, Bool, true, false, Option, none, some, List, [],
  ◌∷◌, ◌++◌, ◌==◌, ==_iff, Bool-cases, Option-cases, if◌then◌else◌,
}
use remote_tool.Session.Ids.{SessionIdAllocator, purge_expired, release}
use remote_tool.Session.Manager.State.{
  is_closed, SessionEntry, Effect, shut, session_closed, SessionManager, Outside, lookup, change,
  remove, modify, emit,
}
use remote_tool.Session.Manager.Local.{cleanup_session, fire, transition_to_closed}

abbrev one_if : Bool → ℕ
one_if b = if b then 1 else 0

unfoldable pub count_key : ℕ → List (ℕ × SessionEntry) → ℕ
count_key sid [] = 0
count_key sid (x ∷ xs) = one_if (x.0 == sid) + count_key sid xs

unfoldable pub calls : ℕ → Effect → ℕ
calls sid (session_closed k) = one_if (k == sid)
calls sid _ = 0

-- How often the callback was called for a session.
unfoldable pub count_fired : ℕ → List Effect → ℕ
unfolding calls
count_fired sid [] = 0
count_fired sid (e ∷ es) = calls sid e + count_fired sid es

abbrev pub total : ℕ → SessionManager → ℕ
total sid m = count_key sid m.sessions + count_fired sid m.effects

-- Nothing is gained: no session and no call appears from nowhere, and where the callback is set, a
-- session that leaves the table does so with one call.
pub record Keeps (m n : SessionManager) : Type 0 where
  pub at_most : (sid : ℕ) → total sid n ≤ total sid m
  pub exact : m.on_session_closed ≡ true → (sid : ℕ) → total sid n ≡ total sid m
  pub same_next : n.id_alloc.next_id ≡ m.id_alloc.next_id
  pub same_callback : n.on_session_closed ≡ m.on_session_closed

pub Keeps-refl : (m : SessionManager) → Keeps m m
Keeps-refl m = record {
  at_most = λ sid. omega arith;
  exact = λ set sid. refl;
  same_next = refl;
  same_callback = refl;
}

pub Keeps-trans : (m n p : SessionManager) → Keeps m n → Keeps n p → Keeps m p
Keeps-trans m n p a b = record {
  at_most = λ sid. omega (arith, a.at_most sid, b.at_most sid);
  exact = λ set sid. b.exact (a.same_callback ∙ set) sid ∙ a.exact set sid;
  same_next = b.same_next ∙ a.same_next;
  same_callback = b.same_callback ∙ a.same_callback;
}

count_key-change :
    (k sid : ℕ) (f : SessionEntry → SessionEntry) (xs : List (ℕ × SessionEntry))
    → count_key k (change sid f xs) ≡ count_key k xs
unfolding count_key change
count_key-change k sid f [] = refl
count_key-change k sid f (x ∷ xs) = elim (Bool-cases (x.0 == sid)) [
  | inl e ↦ rw e refl
  | inr e ↦ rw e (ap (λ t. one_if (x.0 == k) + t) (count_key-change k sid f xs))
]

count_fired-append :
    (k : ℕ) (es : List Effect) (e : Effect)
    → count_fired k (es ++ e ∷ []) ≡ count_fired k es + calls k e
unfolding count_fired calls
count_fired-append k [] e = omega arith
count_fired-append k (x ∷ es) e = omega (arith, count_fired-append k es e)

pub Keeps-modify :
    (sid : ℕ) (f : SessionEntry → SessionEntry) (m : SessionManager) → Keeps m (modify sid f m)
unfolding modify
Keeps-modify sid f m = record {
  at_most = λ k. omega (arith, count_key-change k sid f m.sessions);
  exact = λ set k. omega (arith, count_key-change k sid f m.sessions);
  same_next = refl;
  same_callback = refl;
}

-- An effect that is not a call of the callback.
pub Keeps-emit : (e : Effect) (m : SessionManager) → ((k : ℕ) → calls k e ≡ 0) → Keeps m (emit e m)
unfolding emit
Keeps-emit e m quiet = record {
  at_most = λ k. omega (arith, count_fired-append k m.effects e, quiet k);
  exact = λ set k. omega (arith, count_fired-append k m.effects e, quiet k);
  same_next = refl;
  same_callback = refl;
}

pub Keeps-if :
    (b : Bool) {m x y : SessionManager} → Keeps m x → Keeps m y → Keeps m (if b then x else y)
Keeps-if true p q = p
Keeps-if false p q = q

pub Keeps-found {ℓ} :
    {A : Type ℓ} (o : Option A) {m : SessionManager} {f : A → SessionManager}
    → ((a : A) → Keeps m (f a))
    → Keeps m (elim o [ none ↦ m | some a ↦ f a ])
Keeps-found none {m} h = Keeps-refl m
Keeps-found (some a) h = h a

count_key-remove :
    (k sid : ℕ) (s : SessionEntry) (xs : List (ℕ × SessionEntry))
    → lookup sid xs ≡ some s
    → count_key k (remove sid xs) + one_if (sid == k) ≡ count_key k xs
unfolding count_key remove lookup
count_key-remove k sid s [] e = absurd (cc e)
count_key-remove k sid s (x ∷ xs) e = elim (Bool-cases (x.0 == sid)) [
  | inl here ↦ rw here (rw ((==_iff x.0 sid).0 here) (omega arith))
  | inr there ↦ rw there (omega (arith, count_key-remove k sid s xs (rw there at e)))
]

lookup-change :
    (sid : ℕ) (f : SessionEntry → SessionEntry) (s : SessionEntry) (xs : List (ℕ × SessionEntry))
    → lookup sid xs ≡ some s
    → lookup sid (change sid f xs) ≡ some (f s)
unfolding lookup change
lookup-change sid f s [] e = absurd (cc e)
lookup-change sid f s (x ∷ xs) e = elim (Bool-cases (x.0 == sid)) [
  | inl here ↦ rw here (rw here (let q : x.1 ≡ s = cc (rw here at e) in rw q refl))
  | inr there ↦ rw there (rw there (lookup-change sid f s xs (rw there at e)))
]

pub release-next_id : (now id : ℕ) (a : SessionIdAllocator) → (release now id a).next_id ≡ a.next_id
unfolding release purge_expired
release-next_id now id a = elim (Bool-cases (id == 0)) [ inl e ↦ rw e refl | inr e ↦ rw e refl ]

calls-shut : (k socket : ℕ) → calls k (shut socket) ≡ 0
unfolding calls
calls-shut k socket = refl

-- A clean-up takes one session out of the table.
cleanup_session-total :
    (o : Outside) (sid : ℕ) (s : SessionEntry) (m : SessionManager)
    → lookup sid m.sessions ≡ some s
    → let n = cleanup_session o sid m in
      ((k : ℕ) → total k n + one_if (sid == k) ≡ total k m)
      × (n.id_alloc.next_id ≡ m.id_alloc.next_id)
      × (n.on_session_closed ≡ m.on_session_closed)
unfolding cleanup_session emit
cleanup_session-total o sid s m e = elim (Option-cases s.local_socket) [
  | inl q ↦
      rw (e, cleanup_session)
        (rw q (
          (λ k. omega (arith, count_key-remove k sid s m.sessions e)),
          release-next_id (o.clock sid) sid m.id_alloc,
          refl,
        ))
  | inr (socket, q) ↦
      rw (e, cleanup_session)
        (rw q (
          (λ k. omega (
            arith,
            count_key-remove k sid s m.sessions e,
            count_fired-append k m.effects (shut socket),
            calls-shut k socket,
          )),
          release-next_id (o.clock sid) sid m.id_alloc,
          refl,
        ))
]

modified :
    (sid : ℕ) (f : SessionEntry → SessionEntry) (s : SessionEntry) (m : SessionManager)
    → lookup sid m.sessions ≡ some s
    → lookup sid (modify sid f m).sessions ≡ some (f s)
unfolding modify
modified sid f s m e = lookup-change sid f s m.sessions e

-- The callback, where it is set, is called once.
fire-total :
    (b : Bool) (sid : ℕ) (m : SessionManager)
    → let n = if b then emit (session_closed sid) m else m in
      ((k : ℕ) → total k n ≡ total k m + (if b then one_if (sid == k) else 0))
      × (n.sessions ≡ m.sessions)
      × (n.id_alloc.next_id ≡ m.id_alloc.next_id)
      × (n.on_session_closed ≡ m.on_session_closed)
unfolding emit calls
fire-total true sid m =
    ((λ k. omega (arith, count_fired-append k m.effects (session_closed sid))), refl, refl, refl)
fire-total false sid m = ((λ k. omega arith), refl, refl, refl)

closing-Keeps :
    (o : Outside) (sid : ℕ) (s : SessionEntry) (f : SessionEntry → SessionEntry)
    (m : SessionManager)
    → lookup sid m.sessions ≡ some s
    → Keeps m (cleanup_session o sid (fire sid (modify sid f m)))
closing-Keeps o sid s f m e =
    let m1 = modify sid f m in
    let b = m1.on_session_closed in
    let changed = Keeps-modify sid f m in
    let (fired, table, next, set) = fire-total b sid m1 in
    let found : lookup sid (fire sid m1).sessions ≡ some (f s) =
      ap (lookup sid) table ∙ modified sid f s m e in
    let (cleaned, next', set') = cleanup_session-total o sid (f s) (fire sid m1) found in
    record {
      at_most = λ k. by_call b (one_if (sid == k)) (cleaned k) (fired k) (changed.at_most k);
      exact = λ on k.
          exactly b (one_if (sid == k)) (changed.same_callback ∙ on) (cleaned k) (fired k)
            (changed.exact on k);
      same_next = next' ∙ next ∙ changed.same_next;
      same_callback = set' ∙ set ∙ changed.same_callback;
    }
  where
    by_call :
        (b : Bool) (one : ℕ) {x y z w : ℕ}
        → x + one ≡ y
        → y ≡ z + (if b then one else 0)
        → z ≤ w
        → x ≤ w
    by_call true one p q r = omega (arith, p, q, r)
    by_call false one p q r = omega (arith, p, q, r)

    exactly :
        (b : Bool) (one : ℕ) {x y z w : ℕ}
        → b ≡ true
        → x + one ≡ y
        → y ≡ z + (if b then one else 0)
        → z ≡ w
        → x ≡ w
    exactly true one on p q r = omega (arith, p, q, r)
    exactly false one on p q r = absurd (cc on)

pub transition_to_closed-Keeps :
    (o : Outside) (sid : ℕ) (m : SessionManager) → Keeps m (transition_to_closed o sid m)
unfolding transition_to_closed
transition_to_closed-Keeps o sid m = elim (Option-cases (lookup sid m.sessions)) [
  | inl e ↦ rw (e, transition_to_closed) (Keeps-refl m)
  | inr (s, e) ↦ elim (Bool-cases (is_closed s.state)) [
    | inl over ↦ rw (e, transition_to_closed) (rw over (Keeps-refl m))
    | inr live ↦ rw (e, transition_to_closed) (rw live (closing-Keeps o sid s _ m e))
  ]
]
