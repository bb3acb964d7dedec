-- ===== src/Agent/Session/Data.antt =====
-- New data for an `AgentSession`, and what any event does.
use remote_tool.Prelude.{
  ℕ, ◌+◌, ◌%◌, ◌^◌, ◌≤◌, ◌≡◌, refl, ap, sym, subst, ◌∙◌, Bool, true, false, not, ◌||◌, List, [],
  ◌∷◌, ◌++◌, append-nil, append_assoc, Bytes, length, ◌==◌, if◌then◌else◌, arith,
}
use remote_tool.Session.Manager.State.{is_idle, is_closed}
use remote_tool.Agent.Session.State.{AgentSession, writes, effect}
use remote_tool.Agent.Session.Target.{write_next, do_target_write}
use remote_tool.Agent.Session.Effects.{
  written_bytes, finned, fired-append, written-append, finned-append, fin_last-append,
}
use remote_tool.Agent.Session.Steps.{
  calls, stream, waiting, join, accepts, Prefix, Prefix-refl, IsSound, Leads,
}
use remote_tool.Agent.Session.Target.{forward_data_to_target}

-- A state leads to another with some new data: they come to the end of the stream as long as more would
-- be taken.
pub record Takes (d : Bytes) (s t : AgentSession) : Type 0 where
  pub fewer : calls t ≤ calls s
  pub sound : IsSound t
  pub kept : accepts t ≡ true → (accepts s ≡ true) × (stream t ≡ stream s ++ d)
  pub cut : Prefix (stream t) (stream s ++ d)
  pub ceased : accepts s ≡ false → Prefix (stream t) (stream s)
  pub begun : is_idle t.state ≡ false

join-append : (xs ys : List Bytes) → join (xs ++ ys) ≡ join xs ++ join ys
join-append [] ys = refl
join-append (x ∷ xs) ys = rw (join-append xs ys, append_assoc) refl

pub Takes-test :
    {d : Bytes} {s t u : AgentSession} (b : Bool)
    → (b ≡ true → Takes d s t)
    → (b ≡ false → Takes d s u)
    → Takes d s (if b then t else u)
Takes-test true p q = p refl
Takes-test false p q = q refl

nonempty :
    (q : List Bytes) → not (length q == 0) ≡ true → (x : Bytes) × (xs : List Bytes) × (q ≡ x ∷ xs)
nonempty [] h = cc
nonempty (x ∷ xs) h = (x, xs, refl)

is_empty : (q : List Bytes) → not (length q == 0) ≡ false → q ≡ []
is_empty [] h = refl
is_empty (x ∷ xs) h = absurd (ground (arith, h))

module _ (d : Bytes) (s : AgentSession) (v : IsSound s) (b : is_idle s.state ≡ false) where
  -- Without data.
  pub Takes-Leads : {t : AgentSession} → d ≡ [] → Leads s t → Takes d s t
  Takes-Leads {t} e p =
      let none_new : stream s ++ d ≡ stream s = rw (e, append-nil) refl in
      record {
        fewer = p.fewer;
        sound = p.sound v;
        kept = λ h. let (a, q) = p.kept h in (a, q ∙ sym none_new);
        cut = subst (Prefix (stream t)) (sym none_new) p.cut;
        ceased = λ h. p.cut;
        begun = p.begun b;
      }

  -- The data are dropped where they are not taken.
  pub Takes-dropped : accepts s ≡ false → Takes d s s
  Takes-dropped h = record {
    fewer = omega arith;
    sound = v;
    kept = λ k. cc;
    cut = (d, refl);
    ceased = λ k. Prefix-refl (stream s);
    begun = b;
  }

  Takes-queued :
      (n : ℕ) (x : Bytes) (xs : List Bytes)
      → s.target_write_queue ≡ x ∷ xs
      → accepts s ≡ true
      → Takes d s (record s { bytes_sent = n; target_write_queue = s.target_write_queue ++ d ∷ [] })
  Takes-queued n x xs e taken =
      let c : s.target_write_closed ≡ false = ground (arith, taken) in
      let grown : written_bytes s.effects ++ waiting (s.target_write_queue ++ d ∷ [])
          ≡ stream s ++ d =
        rw e (rw (join-append xs (d ∷ []), append-nil, append_assoc) refl) in
      record {
        fewer = omega arith;
        sound = record {
          writing = rw e (v.writing ∙ rw e (ground arith));
          done = λ h. absurd (ground (arith, v.done h, c));
          ended = v.ended;
          last = v.last;
        };
        kept = λ h. (h, grown);
        cut = subst (λ l. Prefix l (stream s ++ d)) (sym grown) (Prefix-refl (stream s ++ d));
        ceased = λ h. cc;
        begun = b;
      }

  Takes-first :
      (n : ℕ)
      → s.target_write_queue ≡ []
      → accepts s ≡ true
      → Takes d s (write_next (d ∷ []) (record s { bytes_sent = n; target_write_queue = d ∷ [] }))
  unfolding write_next effect
  Takes-first n e taken =
      let c : s.target_write_closed ≡ false = ground (arith, taken) in
      let wrote = writes d ∷ [] in
      let grown : written_bytes (s.effects ++ wrote) ++ [] ≡ stream s ++ d =
        rw (e, append-nil, append-nil, written-append s.effects wrote, append-nil) refl in
      let open_end : finned s.effects ≡ false = ground (arith, v.ended, v.done, c) in
      record {
        fewer = omega (arith, fired-append s.effects wrote);
        sound = record {
          writing = ground arith;
          done = λ h. absurd (ground (arith, v.done h, c));
          ended = λ f. v.ended (ground (arith, finned-append s.effects wrote));
          last = ground (arith, fin_last-append s.effects wrote, v.last, open_end);
        };
        kept = λ h. (h, grown);
        cut = subst (λ l. Prefix l (stream s ++ d)) (sym grown) (Prefix-refl (stream s ++ d));
        ceased = λ h. cc;
        begun = b;
      }

  pub Takes-forward : is_closed s.state ≡ false → Takes d s (forward_data_to_target d s)
  unfolding forward_data_to_target do_target_write
  Takes-forward open_state =
      let n = (s.bytes_sent + length d) % 2 ^ 64 in
      Takes-test (s.target_write_closed || not s.target_socket || not s.socket_open)
        (λ c. Takes-dropped (ground (arith, c)))
        λ c.
          Takes-test s.writing_to_target
            (λ w.
              let (x, xs, e) = nonempty s.target_write_queue (ground (arith, v.writing, w)) in
              Takes-queued n x xs e (ground (arith, c, b, open_state)))
            λ w.
              let e = is_empty s.target_write_queue (ground (arith, v.writing, w)) in
              subst
                (λ q.
                  Takes d s (write_next q (record s { bytes_sent = n; target_write_queue = q })))
                (sym (ap (λ q. q ++ d ∷ []) e)) (Takes-first n e (ground (arith, c, b, open_state)))
