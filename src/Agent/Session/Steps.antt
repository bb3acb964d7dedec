-- ===== src/Agent/Session/Steps.antt =====
-- What every operation of an `AgentSession` keeps, and the rules by which the operations compose.
use remote_tool.Prelude.{
  ℕ, ◌+◌, ◌≤◌, ◌≡◌, refl, ap, sym, subst, ◌∙◌, Bool, true, false, not, ◌&&◌, List, [], ◌∷◌, ◌++◌,
  append-nil, append_assoc, Bytes, length, ◌==◌, if◌then◌else◌, arith,
}
use remote_tool.Session.Manager.State.{is_idle, is_closed}
use remote_tool.Agent.Session.State.{AgentSession, SessionEffect}
use remote_tool.Agent.Session.Effects.{
  fired, written_bytes, finned, has_write, fin_last, fired-append, written-append, finned-append,
  fin_last-append,
}

-- The calls of the callback, and one that a session that is not closed may still make.
abbrev pub calls : AgentSession → ℕ
calls s = fired s.effects + (if is_closed s.state then 0 else 1)

abbrev pub join : List Bytes → Bytes
join [] = []
join (b ∷ bs) = b ++ join bs

-- The first entry of the queue is being written.
abbrev pub waiting : List Bytes → Bytes
waiting [] = []
waiting (b ∷ bs) = join bs

-- What was written to the target, and what waits for it.
abbrev pub stream : AgentSession → Bytes
stream s = written_bytes s.effects ++ waiting s.target_write_queue

-- Whether data that arrives would be taken.
abbrev pub accepts : AgentSession → Bool
accepts s =
    not (is_idle s.state)
    && not (is_closed s.state)
    && not s.target_write_closed
    && s.target_socket
    && s.socket_open

abbrev pub Prefix : Bytes → Bytes → Type 0
Prefix xs ys = (zs : Bytes) × (ys ≡ xs ++ zs)

pub Prefix-refl : (xs : Bytes) → Prefix xs xs
Prefix-refl xs = ([], sym (append-nil xs))

pub Prefix-trans : (xs ys zs : Bytes) → Prefix xs ys → Prefix ys zs → Prefix xs zs
Prefix-trans xs ys zs (a, p) (b, q) = (a ++ b, q ∙ ap (λ l. l ++ b) p ∙ append_assoc xs a b)

-- A write is under way exactly while the queue has an entry; after the end of the sending side nothing
-- is in the queue, nothing is taken, and nothing was written.
pub record IsSound (s : AgentSession) : Type 0 where
  pub writing : s.writing_to_target ≡ not (length s.target_write_queue == 0)
  pub done :
      s.target_write_shutdown_done ≡ true
      → (s.target_write_closed ≡ true) × (s.target_write_queue ≡ [])
  pub ended : finned s.effects ≡ true → s.target_write_shutdown_done ≡ true
  pub last : fin_last s.effects ≡ true

-- One state leads to another without new data: no more calls of the callback, the invariant kept, the
-- stream of data kept or cut, and kept as long as more would be taken.
pub record Leads (s t : AgentSession) : Type 0 where
  pub fewer : calls t ≤ calls s
  pub sound : IsSound s → IsSound t
  pub kept : accepts t ≡ true → (accepts s ≡ true) × (stream t ≡ stream s)
  pub cut : Prefix (stream t) (stream s)
  pub begun : is_idle s.state ≡ false → is_idle t.state ≡ false

pub Leads-refl : (s : AgentSession) → Leads s s
Leads-refl s = record {
  fewer = omega arith;
  sound = λ h. h;
  kept = λ h. (h, refl);
  cut = Prefix-refl (stream s);
  begun = λ h. h;
}

pub Leads-trans : {s t u : AgentSession} → Leads s t → Leads t u → Leads s u
Leads-trans {s} {t} {u} p q = record {
  fewer = omega (arith, p.fewer, q.fewer);
  sound = λ h. q.sound (p.sound h);
  kept = λ h. let (a, e) = q.kept h in let (b, f) = p.kept a in (b, e ∙ f);
  cut = Prefix-trans (stream u) (stream t) (stream s) q.cut p.cut;
  begun = λ h. q.begun (p.begun h);
}

pub Leads-if :
    {s : AgentSession} (b : Bool) {t u : AgentSession}
    → Leads s t
    → Leads s u
    → Leads s (if b then t else u)
Leads-if true p q = p
Leads-if false p q = q

-- The same without a claim on data that is yet to come.
pub record Cuts (s t : AgentSession) : Type 0 where
  pub fewer : calls t ≤ calls s
  pub sound : IsSound s → IsSound t
  pub cut : Prefix (stream t) (stream s)
  pub begun : is_idle s.state ≡ false → is_idle t.state ≡ false

pub Cuts-Leads : {s t u : AgentSession} → Cuts s t → Leads t u → Cuts s u
Cuts-Leads {s} {t} {u} p q = record {
  fewer = omega (arith, p.fewer, q.fewer);
  sound = λ h. q.sound (p.sound h);
  cut = Prefix-trans (stream u) (stream t) (stream s) q.cut p.cut;
  begun = λ h. q.begun (p.begun h);
}

-- Where no more data is taken, nothing is claimed on it.
pub Leads-Cuts : {s t : AgentSession} → Cuts s t → accepts t ≡ false → Leads s t
Leads-Cuts p h = record {
  fewer = p.fewer;
  sound = p.sound;
  kept = λ k. cc;
  cut = p.cut;
  begun = p.begun;
}

-- The two branches under their test.
pub Leads-test :
    {s : AgentSession} (b : Bool) {t u : AgentSession}
    → (b ≡ true → Leads s t)
    → (b ≡ false → Leads s u)
    → Leads s (if b then t else u)
Leads-test true p q = p refl
Leads-test false p q = q refl

-- Effects that are no write, no end and no call, and a state that differs in nothing that matters but
-- that less may be open.
pub record Alike (es : List SessionEffect) (s t : AgentSession) : Type 0 where
  pub effects : t.effects ≡ s.effects ++ es
  pub quiet :
      (fired es ≡ 0)
      × (written_bytes es ≡ [])
      × (finned es ≡ false)
      × (has_write es ≡ false)
      × (fin_last es ≡ true)
  pub closes : is_closed t.state ≡ is_closed s.state
  pub idles : is_idle t.state ≡ is_idle s.state
  pub queue : t.target_write_queue ≡ s.target_write_queue
  pub writing : t.writing_to_target ≡ s.writing_to_target
  pub done : t.target_write_shutdown_done ≡ s.target_write_shutdown_done
  pub write_closed : s.target_write_closed ≡ true → t.target_write_closed ≡ true
  pub socket : t.target_socket ≡ s.target_socket
  pub opens : t.socket_open ≡ true → s.socket_open ≡ true

module _ {es : List SessionEffect} {s t : AgentSession} (a : Alike es s t) where
  Alike-calls : calls t ≤ calls s
  Alike-calls = rw (a.effects, a.closes) (omega (arith, fired-append s.effects es, a.quiet.0))

  Alike-IsSound : IsSound s → IsSound t
  Alike-IsSound h = record {
    writing = rw (a.queue, a.writing) h.writing;
    done = λ e. let (c, q) = h.done (sym a.done ∙ e) in (a.write_closed c, a.queue ∙ q);
    ended =
        λ e. rw a.done (h.ended (ground (arith, finned-append s.effects es, a.quiet.2, a.effects)));
    last =
        rw a.effects (ground (arith, fin_last-append s.effects es, h.last, a.quiet.3, a.quiet.4));
  }

  Alike-stream : stream t ≡ stream s
  Alike-stream = rw (a.effects, a.queue, written-append s.effects es, a.quiet.1, append-nil) refl

  pub Leads-Alike : Leads s t
  Leads-Alike = record {
    fewer = Alike-calls;
    sound = Alike-IsSound;
    kept =
        λ h. (ground (arith, a.closes, a.idles, a.socket, a.opens, a.write_closed), Alike-stream);
    cut = subst (λ l. Prefix l (stream s)) (sym Alike-stream) (Prefix-refl (stream s));
    begun = λ h. a.idles ∙ h;
  }
