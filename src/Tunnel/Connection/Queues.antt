-- ===== src/Tunnel/Connection/Queues.antt =====
-- What the queues of a connection take, and which writes of them start. Most operations do neither.
use remote_tool.Prelude.{
  ℕ, ◌≡◌, refl, ap, ◌∙◌, Bool, true, false, ◌&&◌, Option, none, some, List, [], ◌∷◌, ◌++◌,
  append-nil, append_assoc, Bytes, if◌then◌else◌,
}
use remote_tool.Protocol.ErrorCode.{ErrorCode}
use remote_tool.Protocol.Frame.{reset}
use remote_tool.Tunnel.Connection.State.{
  TunnelState, is_down, WriteEntry, WriteQueue, control, session, ConnectionEffect, takes, writes,
  refuses, tells, tells_closed, closes_socket, TunnelConnection, perform, call, drain, close_socket,
  drained, fire_on_closed, handle_error,
}
use remote_tool.Tunnel.Connection.Writes.{queue_of}
use remote_tool.Tunnel.Connection.Kept.{is_quiet, AllQuiet}

abbrev pub is_of : WriteQueue → WriteQueue → Bool
is_of control control = true
is_of session session = true
is_of _ _ = false

abbrev pub taken_by : WriteQueue → ConnectionEffect → List Bytes
taken_by k (takes q e) = if is_of k q then e.data_bytes ∷ [] else []
taken_by k _ = []

abbrev pub started_by : WriteQueue → ConnectionEffect → List Bytes
started_by k (writes q b) = if is_of k q then b ∷ [] else []
started_by k _ = []

-- What a queue took, and the writes of it that were started, in their order.
unfoldable pub taken : WriteQueue → List ConnectionEffect → List Bytes
taken k [] = []
taken k (e ∷ es) = taken_by k e ++ taken k es

unfoldable pub started : WriteQueue → List ConnectionEffect → List Bytes
started k [] = []
started k (e ∷ es) = started_by k e ++ started k es

unfoldable pub texts : List WriteEntry → List Bytes
texts [] = []
texts (e ∷ es) = e.data_bytes ∷ texts es

abbrev pub rest : List WriteEntry → List WriteEntry
rest [] = []
rest (e ∷ es) = es

abbrev pub captured : WriteQueue → Option WriteQueue → Bool
captured k none = false
captured k (some q) = is_of k q

abbrev pub left : Bool → List WriteEntry → List WriteEntry
left true xs = rest xs
left false xs = xs

-- The entries of a queue that are not being written.
abbrev pub unwritten : WriteQueue → TunnelConnection → List WriteEntry
unwritten k c = left (c.writing && captured k c.write_pending) (queue_of k c)

module _ (k : WriteQueue) where
  pub taken-append : (xs ys : List ConnectionEffect) → taken k (xs ++ ys) ≡ taken k xs ++ taken k ys
  unfolding taken
  taken-append [] ys = refl
  taken-append (x ∷ xs) ys = rw (taken-append xs ys, append_assoc) refl

  pub started-append :
      (xs ys : List ConnectionEffect) → started k (xs ++ ys) ≡ started k xs ++ started k ys
  unfolding started
  started-append [] ys = refl
  started-append (x ∷ xs) ys = rw (started-append xs ys, append_assoc) refl

  -- Effects that neither fill nor write a queue.
  pub record IsInert (es : List ConnectionEffect) : Type 0 where
    pub takes_none : taken k es ≡ []
    pub starts_none : started k es ≡ []

  IsInert-append : (xs ys : List ConnectionEffect) → IsInert xs → IsInert ys → IsInert (xs ++ ys)
  IsInert-append xs ys p q = record {
    takes_none = rw (taken-append xs ys, p.takes_none, q.takes_none) refl;
    starts_none = rw (started-append xs ys, p.starts_none, q.starts_none) refl;
  }

  pub IsInert-call : (cb : Option ℕ) (code : ErrorCode) → IsInert (call cb code)
  unfolding taken started
  IsInert-call none code = record { takes_none = refl; starts_none = refl }
  IsInert-call (some id) code = record { takes_none = refl; starts_none = refl }

  IsInert-drain : (code : ErrorCode) (es : List WriteEntry) → IsInert (drain code es)
  unfolding drain taken started
  IsInert-drain code [] = record { takes_none = refl; starts_none = refl }
  IsInert-drain code (e ∷ es) =
      IsInert-append (call e.callback code) (drain code es) (IsInert-call e.callback code)
        (IsInert-drain code es)

  quiet_effect :
      (e : ConnectionEffect) → is_quiet e ≡ true → (taken_by k e ≡ []) × (started_by k e ≡ [])
  quiet_effect (takes q e) h = cc
  quiet_effect (refuses cb) h = cc
  quiet_effect (tells id code) h = cc
  quiet_effect (writes q b) h = cc
  quiet_effect _ h = (refl, refl)

  pub IsInert-AllQuiet : (es : List ConnectionEffect) → AllQuiet es → IsInert es
  unfolding taken started
  IsInert-AllQuiet [] q = record { takes_none = refl; starts_none = refl }
  IsInert-AllQuiet (e ∷ es) (h, q) =
      let (t, s) = quiet_effect e h in
      let r = IsInert-AllQuiet es q in
      record { takes_none = rw (t, r.takes_none) refl; starts_none = rw (s, r.starts_none) refl }

  -- A state differs from another by such effects.
  pub record Follows (c d : TunnelConnection) : Type 0 where
    pub took : taken k d.effects ≡ taken k c.effects
    pub began : started k d.effects ≡ started k c.effects

  pub Follows-perform :
      (es : List ConnectionEffect)
      → IsInert es
      → (c d : TunnelConnection) → Follows c d
      → Follows c (perform es d)
  unfolding perform
  Follows-perform es p c d f = record {
    took =
        taken-append d.effects es
        ∙ ap (λ l. taken k d.effects ++ l) p.takes_none
        ∙ append-nil (taken k d.effects)
        ∙ f.took;
    began =
        started-append d.effects es
        ∙ ap (λ l. started k d.effects ++ l) p.starts_none
        ∙ append-nil (started k d.effects)
        ∙ f.began;
  }

  -- An error leaves the order, and the connection is closed.
  pub record Ends (c d : TunnelConnection) : Type 0 where
    pub follows : Follows c d
    pub down : d.state ≡ TunnelState.closed
    pub dialing : d.connect_pending ≡ c.connect_pending

  Ends-perform :
      (es : List ConnectionEffect)
      → AllQuiet es
      → (c d : TunnelConnection) → Ends c d
      → Ends c (perform es d)
  unfolding perform
  Ends-perform es q c d p = record {
    follows = Follows-perform es (IsInert-AllQuiet es q) c d p.follows;
    down = p.down;
    dialing = p.dialing;
  }

  Ends-if :
      (b : Bool) (c d e : TunnelConnection) → Ends c d → Ends c e → Ends c (if b then d else e)
  Ends-if true c d e p q = p
  Ends-if false c d e p q = q

  -- A change of the other fields.
  Ends-changed :
      (c d e : TunnelConnection)
      → e.effects ≡ d.effects
      → e.state ≡ d.state
      → e.connect_pending ≡ d.connect_pending
      → Ends c d
      → Ends c e
  Ends-changed c d e f s n p = record {
    follows = record {
      took = ap (taken k) f ∙ p.follows.took;
      began = ap (started k) f ∙ p.follows.began;
    };
    down = s ∙ p.down;
    dialing = n ∙ p.dialing;
  }

  Ends-drained : (code : ErrorCode) (c : TunnelConnection) → Ends c (drained code c)
  unfolding drained perform
  Ends-drained code c =
      let xs = drain code c.control_queue in
      let ys = drain code c.data_queue in
      let inert =
        IsInert-append xs ys (IsInert-drain code c.control_queue)
          (IsInert-drain code c.data_queue) in
      let f = Follows-perform (xs ++ ys) inert c c (record { took = refl; began = refl }) in
      record { follows = record { took = f.took; began = f.began }; down = refl; dialing = refl }

  Ends-fire_on_closed :
      (code : ErrorCode) (c d : TunnelConnection) → Ends c d → Ends c (fire_on_closed code d)
  unfolding fire_on_closed perform
  Ends-fire_on_closed code c d p =
      let fired = perform (tells_closed code ∷ []) d in
      let done = record fired { on_closed = false } in
      Ends-if d.on_closed c done d
        (Ends-changed c fired done refl refl refl
          (Ends-perform (tells_closed code ∷ []) (refl, tt) c d p))
        p

  pub Ends-handle_error : (code : ErrorCode) (c : TunnelConnection) → Ends c (handle_error code c)
  unfolding handle_error close_socket
  Ends-handle_error code c =
      let d = drained code c in
      let r = record d { decoder = reset d.decoder } in
      let p = Ends-drained code c in
      Ends-perform (closes_socket ∷ []) (refl, tt) c
        (if is_down c.state then d else fire_on_closed code r)
        (Ends-if (is_down c.state) c d (fire_on_closed code r) p
          (Ends-fire_on_closed code c r (Ends-changed c d r refl refl refl p)))
