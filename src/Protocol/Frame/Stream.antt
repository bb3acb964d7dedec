-- ===== src/Protocol/Frame/Stream.antt =====
-- The decoder reads a stream: it does not matter how the bytes are cut into chunks.
use remote_tool.Prelude.{
  ℕ, zero, suc, ◌<◌, ◌≡◌, refl, ap, sym, inl, inr, List, [], ◌∷◌, ◌++◌, append_assoc, arith, Bytes,
  length, length-append, Option, none, some,
}
use remote_tool.Protocol.Frame.Local.{Next-cases, next_frame-Extends, next_frame-Dead}
use remote_tool.Protocol.Frame.Scan.{
  Scan, scan, after, outcome, consume_loop-scan, scan_fuel, next_frame-Shorter, scan_refused,
  scan_alive,
}
use remote_tool.Protocol.Frame.{
  Frame, Refusal, DecodeStatus, ok, need_more, protocol_error, disconnect, DecodeResult, status_of,
  FrameDecoder, IsAlive, next_frame, consume,
}

abbrev pub prepend : List Frame → Scan → Scan
prepend fs s = record s { frames = fs ++ s.frames }

scan-append :
    (n m k : ℕ) (buf later : Bytes)
    → length (buf ++ later) < n
    → length buf < m
    → length ((scan m buf).left ++ later) < k
    → (scan m buf).refusal ≡ none
    → scan n (buf ++ later) ≡ prepend (scan m buf).frames (scan k ((scan m buf).left ++ later))
unfolding scan
scan-append n zero k buf later hn hm hk alive = absurd (omega arith)
scan-append zero (suc m) k buf later hn hm hk alive = absurd (omega arith)
scan-append (suc n) (suc m) k buf later hn hm hk alive = elim (Next-cases (next_frame buf)) [
  | inl e ↦ rw (e, scan) (scan_fuel (suc n) k (buf ++ later) hn (rw (e, scan) at hk))
  | inr (inl (r, e)) ↦ absurd (ground (arith, e))
  | inr (inr (f, rest, e)) ↦
      let shorter = rw e at (next_frame-Shorter buf) in
      let on = rw e at (next_frame-Extends buf later) in
      rw (e, on, scan)
        (ap (after f) (
          scan-append n m k rest later
            (omega (arith, length-append rest later, length-append buf later)) (omega arith)
            (rw (e, scan) at hk) (rw (e, scan) at alive)))
]

abbrev pub result_of : Scan → DecodeResult × FrameDecoder
result_of s = (outcome s.frames s.refusal, record { buf = s.left })

abbrev pub scan_all : Bytes → Scan
scan_all buf = scan (suc (length buf)) buf

-- What `consume` returns, by way of the loop without its accumulator.
pub consume-scan :
    (d : FrameDecoder) (chunk : Bytes) → consume d chunk ≡ result_of (scan_all (d.buf ++ chunk))
unfolding consume
consume-scan d chunk =
    rw (consume_loop-scan (suc (length (d.buf ++ chunk))) (d.buf ++ chunk) []) refl

-- The result of two calls, as one call would give it: the frames of both, and the error of the
-- second. More is needed only if there is no frame at all.
abbrev joined_status : List Frame → DecodeStatus → DecodeStatus
joined_status fs need_more = status_of fs
joined_status fs ok = ok
joined_status fs protocol_error = protocol_error
joined_status fs disconnect = disconnect

abbrev pub joined : DecodeResult → DecodeResult → DecodeResult
joined r q = record {
  status = joined_status (r.frames ++ q.frames) q.status;
  error = q.error;
  frames = r.frames ++ q.frames;
}

joined_status-status_of :
    (fs gs : List Frame) → joined_status (fs ++ gs) (status_of gs) ≡ status_of (fs ++ gs)
unfolding status_of
joined_status-status_of fs [] = refl
joined_status-status_of [] (g ∷ gs) = refl
joined_status-status_of (f ∷ fs) (g ∷ gs) = refl

joined_status_dead : (fs : List Frame) (s : DecodeStatus) → ¬ IsAlive s → joined_status fs s ≡ s
joined_status_dead fs ok h = absurd (h tt)
joined_status_dead fs need_more h = absurd (h tt)
joined_status_dead fs protocol_error h = refl
joined_status_dead fs disconnect h = refl

outcome-joined :
    (fs gs : List Frame) (o : Option Refusal)
    → ((r : Refusal) → o ≡ some r → ¬ IsAlive r.0)
    → joined (outcome fs none) (outcome gs o) ≡ outcome (fs ++ gs) o
outcome-joined fs gs none h = rw (joined_status-status_of fs gs) refl
outcome-joined fs gs (some r) h = rw (joined_status_dead (fs ++ gs) r.0 (h r refl)) refl

scan_all-append :
    (buf later : Bytes)
    → (scan_all buf).refusal ≡ none
    → scan_all (buf ++ later)
      ≡ prepend (scan_all buf).frames (scan_all ((scan_all buf).left ++ later))
scan_all-append buf later alive =
    scan-append (suc (length (buf ++ later))) (suc (length buf))
      (suc (length ((scan_all buf).left ++ later))) buf later (omega arith) (omega arith)
      (omega arith) alive

scan_all-joined :
    (buf later : Bytes)
    → (scan_all buf).refusal ≡ none
    → let s = scan_all buf in
      let t = scan_all (s.left ++ later) in
      result_of (scan_all (buf ++ later))
      ≡ (joined (outcome s.frames s.refusal) (outcome t.frames t.refusal), record { buf = t.left })
scan_all-joined buf later alive =
    let s = scan_all buf in
    let t = scan_all (s.left ++ later) in
    rw (scan_all-append buf later alive, alive)
      (rw
        (outcome-joined s.frames t.frames t.refusal (λ r e.
          rw (scan_refused (suc (length (s.left ++ later))) (s.left ++ later) r (omega arith) e) at
            (next_frame-Dead t.left)))
        refl)

-- Where the first chunk is not refused, two chunks give what one call on both together gives:
-- the same bytes stay buffered, the frames are those of both calls in order, the status and the
-- error are those of the second call, and only where neither call has a frame is more needed.
pub consume-append :
    (d : FrameDecoder) (a b : Bytes)
    → IsAlive (consume d a).0.status
    → consume d (a ++ b)
      ≡ (joined (consume d a).0 (consume (consume d a).1 b).0, (consume (consume d a).1 b).1)
consume-append d a b alive =
    let buf = d.buf ++ a in
    let s = scan_all buf in
    let whole : d.buf ++ (a ++ b) ≡ buf ++ b = sym (append_assoc d.buf a b) in
    rw (consume-scan d a, consume-scan d (a ++ b), consume-scan (record { buf = s.left }) b, whole)
      (scan_all-joined buf b
        (scan_alive (suc (length buf)) buf (omega arith) (rw (consume-scan d a) at alive)))
