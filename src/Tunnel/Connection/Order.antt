-- ===== src/Tunnel/Connection/Order.antt =====
-- The order in which the entries of a queue of a connection are written.
pub mod Send
pub mod Write
use remote_tool.Prelude.{
  ℕ, ◌≡◌, refl, ap, sym, ◌∙◌, Bool, true, false, ◌||◌, Option, List, [], ◌∷◌, ◌++◌, append-nil,
  append_assoc, Bytes, arith,
}
use remote_tool.Protocol.ErrorCode.{ErrorCode}
use remote_tool.Tunnel.Connection.State.{
  is_connected, is_disconnected, WriteEntry, WriteQueue, control, session, ConnectionEffect, takes,
  writes, TunnelConnection, perform, call,
}
use remote_tool.Tunnel.Connection.Writes.{queue_of, write_front, enqueue}
use remote_tool.Tunnel.Connection.Flow.{is_dialing, queue_of-perform}
use remote_tool.Tunnel.Connection.Queues.{
  is_of, taken, started, texts, rest, left, unwritten, taken-append, started-append, IsInert-call,
  Follows-perform, Ends,
}

-- While a connection is open its queues keep their order; before that nothing was taken.
pub record IsOrdered (k : WriteQueue) (c : TunnelConnection) : Type 0 where
  pub whole :
      is_connected c.state ≡ true → taken k c.effects ≡ started k c.effects ++ texts (unwritten k c)
  pub fresh :
      (is_disconnected c.state || is_dialing c.connect_pending) ≡ true
      → (taken k c.effects ≡ []) × (started k c.effects ≡ [])

module _ (k : WriteQueue) where
  -- After an error of a state that differs in the fields that do not matter.
  pub IsOrdered-Ends :
      (b c d : TunnelConnection)
      → b.effects ≡ c.effects
      → (is_dialing b.connect_pending ≡ true → is_dialing c.connect_pending ≡ true)
      → IsOrdered k c
      → Ends k b d
      → IsOrdered k d
  IsOrdered-Ends b c d e n v p = record {
    whole = λ o. absurd (ground (arith, o, p.down));
    fresh = λ h.
        let late : is_dialing b.connect_pending ≡ true = ground (arith, h, p.down, p.dialing) in
        let (t, s) = v.fresh (ground (arith, n late)) in
        (p.follows.took ∙ ap (taken k) e ∙ t, p.follows.began ∙ ap (started k) e ∙ s);
  }

wrote_same :
    (k : WriteQueue) (es : List ConnectionEffect) (b : Bytes) (xs : List Bytes)
    → taken k es ≡ started k es ++ b ∷ xs
    → taken k (es ++ writes k b ∷ []) ≡ started k (es ++ writes k b ∷ []) ++ xs
unfolding taken started
wrote_same control es b xs h =
    rw
      (
        taken-append control es (writes control b ∷ []),
        append-nil,
        started-append control es (writes control b ∷ []),
        append_assoc,
      )
      h
wrote_same session es b xs h =
    rw
      (
        taken-append session es (writes session b ∷ []),
        append-nil,
        started-append session es (writes session b ∷ []),
        append_assoc,
      )
      h

wrote_other :
    (k q : WriteQueue) (es : List ConnectionEffect) (b : Bytes) (xs : List Bytes)
    → is_of k q ≡ false
    → taken k es ≡ started k es ++ xs
    → taken k (es ++ writes q b ∷ []) ≡ started k (es ++ writes q b ∷ []) ++ xs
unfolding taken started
wrote_other k q es b xs n h =
    rw
      (
        taken-append k es (writes q b ∷ []),
        started-append k es (writes q b ∷ []),
        n,
        append-nil,
        append-nil,
      )
      h

took_same :
    (k : WriteQueue) (es : List ConnectionEffect) (e : WriteEntry) (xs : List Bytes)
    → taken k es ≡ started k es ++ xs
    → taken k (es ++ takes k e ∷ []) ≡ started k (es ++ takes k e ∷ []) ++ (xs ++ e.data_bytes ∷ [])
unfolding taken started
took_same control es e xs h =
    let w = takes control e ∷ [] in
    rw
      (
        taken-append control es w,
        started-append control es w,
        append-nil,
        append-nil,
        h,
        append_assoc,
      )
      refl
took_same session es e xs h =
    let w = takes session e ∷ [] in
    rw
      (
        taken-append session es w,
        started-append session es w,
        append-nil,
        append-nil,
        h,
        append_assoc,
      )
      refl

took_other :
    (k q : WriteQueue) (es : List ConnectionEffect) (e : WriteEntry) (xs : List Bytes)
    → is_of k q ≡ false
    → taken k es ≡ started k es ++ xs
    → taken k (es ++ takes q e ∷ []) ≡ started k (es ++ takes q e ∷ []) ++ xs
unfolding taken started
took_other k q es e xs n h =
    rw
      (
        taken-append k es (takes q e ∷ []),
        started-append k es (takes q e ∷ []),
        n,
        append-nil,
        append-nil,
      )
      h

texts-append : (xs ys : List WriteEntry) → texts (xs ++ ys) ≡ texts xs ++ texts ys
unfolding texts
texts-append [] ys = refl
texts-append (x ∷ xs) ys = ap (λ l. x.data_bytes ∷ l) (texts-append xs ys)

-- A queue that is being written has an entry.
abbrev pub IsFull : Bool → List WriteEntry → Type 0
IsFull b xs = b ≡ true → (e : WriteEntry) × (es : List WriteEntry) × (xs ≡ e ∷ es)

texts-left :
    (b : Bool) (xs : List WriteEntry) (e : WriteEntry)
    → IsFull b xs
    → texts (left b (xs ++ e ∷ [])) ≡ texts (left b xs) ++ e.data_bytes ∷ []
unfolding texts
texts-left false xs e f = texts-append xs (e ∷ [])
texts-left true [] e f = let (x, ys, h) = f refl in cc h
texts-left true (x ∷ xs) e f = texts-append xs (e ∷ [])

abbrev pub Settles : WriteQueue → Bool → TunnelConnection → Type 0
Settles k b c = taken k c.effects ≡ started k c.effects ++ texts (left b (queue_of k c))

pub Settles-enqueue :
    (k q : WriteQueue) (e : WriteEntry) (c : TunnelConnection) (b : Bool)
    → IsFull b (queue_of k c)
    → Settles k b c
    → Settles k b (enqueue q e c)
unfolding enqueue perform
Settles-enqueue control control e c b f s =
    took_same control c.effects e (texts (left b c.control_queue)) s
    ∙ ap (λ l. started control (c.effects ++ takes control e ∷ []) ++ l)
        (sym (texts-left b c.control_queue e f))
Settles-enqueue session session e c b f s =
    took_same session c.effects e (texts (left b c.data_queue)) s
    ∙ ap (λ l. started session (c.effects ++ takes session e ∷ []) ++ l)
        (sym (texts-left b c.data_queue e f))
Settles-enqueue control session e c b f s =
    took_other control session c.effects e (texts (left b c.control_queue)) refl s
Settles-enqueue session control e c b f s =
    took_other session control c.effects e (texts (left b c.data_queue)) refl s

pub Settles-call :
    (k : WriteQueue) (b : Bool) (cb : Option ℕ) (code : ErrorCode) (c : TunnelConnection)
    → Settles k b c
    → Settles k b (perform (call cb code) c)
Settles-call k b cb code c s =
    let said = call cb code in
    let f =
      Follows-perform k said (IsInert-call k cb code) c c (record { took = refl; began = refl }) in
    rw (queue_of-perform k said c, f.took, f.began) s

-- The front of a queue is written next.
pub Settles-write_front :
    (k q : WriteQueue) (es : List WriteEntry) (c : TunnelConnection)
    → queue_of q c ≡ es
    → Settles k false c
    → (let d = write_front q es c in
        taken k d.effects ≡ started k d.effects ++ texts (unwritten k d))
unfolding write_front perform texts
Settles-write_front control q [] c h s = s
Settles-write_front session q [] c h s = s
Settles-write_front control control (e ∷ es) c h s =
    wrote_same control c.effects e.data_bytes (texts es)
      (s ∙ ap (λ l. started control c.effects ++ texts l) h)
    ∙ ap (λ l. started control (c.effects ++ writes control e.data_bytes ∷ []) ++ texts (rest l))
        (sym h)
Settles-write_front session session (e ∷ es) c h s =
    wrote_same session c.effects e.data_bytes (texts es)
      (s ∙ ap (λ l. started session c.effects ++ texts l) h)
    ∙ ap (λ l. started session (c.effects ++ writes session e.data_bytes ∷ []) ++ texts (rest l))
        (sym h)
Settles-write_front control session (e ∷ es) c h s =
    wrote_other control session c.effects e.data_bytes (texts c.control_queue) refl s
Settles-write_front session control (e ∷ es) c h s =
    wrote_other session control c.effects e.data_bytes (texts c.data_queue) refl s
