-- ===== src/Agent/Session/Handlers.antt =====
-- Each handler of an `AgentSession` but the one of new data keeps what `Leads` says.
use remote_tool.Prelude.{
  ◌≡◌, refl, sym, subst, ◌∙◌, Bool, true, false, not, ◌&&◌, ◌||◌, List, [], ◌∷◌, ◌++◌, append-nil,
  append_assoc, Bytes, length, ◌==◌, arith, inl, inr, Bool-cases,
}
use remote_tool.Session.Manager.State.{SessionState, is_idle, is_closed}
use remote_tool.Agent.Session.State.{AgentSession, writes, reads, fin, effect, set_on_closed}
use remote_tool.Agent.Session.Target.{write_next, maybe_shutdown_target_write, start_target_read}
use remote_tool.Agent.Session.Effects.{
  written_bytes, finned, fired-append, written-append, finned-append, fin_last-append,
}
use remote_tool.Agent.Session.Steps.{
  stream, waiting, join, Prefix, Prefix-refl, Leads, Leads-refl, Leads-if, Leads-test, Leads-Alike,
}

module _ (s : AgentSession) where
  Leads-fin :
      s.target_write_closed ≡ true
      → (s.writing_to_target || not (length s.target_write_queue == 0)) ≡ false
      → Leads s (record (effect fin s) { target_write_shutdown_done = true })
  unfolding effect
  Leads-fin c e = record {
    fewer = omega (arith, fired-append s.effects (fin ∷ []));
    sound = λ h. record {
      writing = h.writing;
      done = λ d. (c, ground (arith, e));
      ended = λ f. refl;
      last = ground (arith, fin_last-append s.effects (fin ∷ []), h.last);
    };
    kept = λ h. ground (arith, c);
    cut =
        subst (λ l. Prefix (l ++ waiting s.target_write_queue) (stream s))
          (sym (written-append s.effects (fin ∷ []) ∙ append-nil (written_bytes s.effects)))
          (Prefix-refl (stream s));
    begun = λ h. h;
  }

  Leads-no_fin :
      s.target_write_closed ≡ true
      → (s.writing_to_target || not (length s.target_write_queue == 0)) ≡ false
      → Leads s (record s { target_write_shutdown_done = true })
  Leads-no_fin c e = record {
    fewer = omega arith;
    sound = λ h. record {
      writing = h.writing;
      done = λ d. (c, ground (arith, e));
      ended = λ f. refl;
      last = h.last;
    };
    kept = λ h. (h, refl);
    cut = Prefix-refl (stream s);
    begun = λ h. h;
  }

  pub Leads-maybe_shutdown : Leads s (maybe_shutdown_target_write s)
  unfolding maybe_shutdown_target_write
  Leads-maybe_shutdown =
      Leads-test (not s.target_write_closed || s.target_write_shutdown_done) (λ _. Leads-refl s)
        λ c.
          Leads-test (s.writing_to_target || not (length s.target_write_queue == 0))
            (λ _. Leads-refl s)
            λ e.
              let wc : s.target_write_closed ≡ true = ground (arith, c) in
              elim (Bool-cases (s.target_socket && s.socket_open)) [
                | inl o ↦ rw o (Leads-fin wc e)
                | inr o ↦ rw o (Leads-no_fin wc e)
              ]

  pub Leads-start_target_read : Leads s (start_target_read s)
  unfolding start_target_read effect
  Leads-start_target_read =
      Leads-if (not s.target_socket || s.target_read_closed) (Leads-refl s)
        (Leads-Alike {es = reads ∷ []} (ground arith))

  pub Leads-set_on_closed : (cb : Bool) → Leads s (set_on_closed cb s)
  unfolding set_on_closed
  Leads-set_on_closed cb = Leads-Alike {es = []} (ground (arith, append-nil s.effects))

  -- A session that goes on from a state that is not idle and not closed to another such one.
  pub Leads-state :
      (st : SessionState)
      → is_closed st ≡ is_closed s.state
      → is_idle st ≡ is_idle s.state
      → Leads s (record s { state = st })
  Leads-state st c i = Leads-Alike {es = []} (ground (arith, append-nil s.effects, c, i))

  -- The end of a write: the next entry is written.
  pub Leads-write_next :
      (entry : Bytes) (queue : List Bytes)
      → s.target_write_queue ≡ entry ∷ queue
      → Leads s (write_next queue (record s { target_write_queue = queue }))
  unfolding write_next effect
  Leads-write_next entry [] e = record {
    fewer = omega arith;
    sound = λ h. record {
      writing = refl;
      done = λ d. ((h.done d).0, refl);
      ended = h.ended;
      last = h.last;
    };
    kept = λ h. (h, rw e refl);
    cut = rw e (Prefix-refl (written_bytes s.effects ++ []));
    begun = λ h. h;
  }
  Leads-write_next entry (b ∷ queue) e =
      let wrote = writes b ∷ [] in
      let same : written_bytes (s.effects ++ wrote) ++ join queue ≡ stream s =
        rw (written-append s.effects wrote, e, append-nil, append_assoc) refl in
      record {
        fewer = omega (arith, fired-append s.effects wrote);
        sound = λ h.
            let open_end : finned s.effects ≡ false = ground (arith, h.ended, h.done, e) in
            record {
              writing = ground arith;
              done = λ d. absurd (ground (arith, h.done d, e));
              ended = λ f. h.ended (ground (arith, finned-append s.effects wrote));
              last = ground (arith, fin_last-append s.effects wrote, h.last, open_end);
            };
        kept = λ h. (h, same);
        cut = subst (λ l. Prefix l (stream s)) (sym same) (Prefix-refl (stream s));
        begun = λ h. h;
      }
