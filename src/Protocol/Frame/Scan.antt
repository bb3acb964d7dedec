-- ===== src/Protocol/Frame/Scan.antt =====
-- The decoder's loop without its accumulator: the frames at the front of a buffer, and what ends them.
use remote_tool.Prelude.{
  ℕ, zero, suc, ◌+◌, ◌<◌, ◌≡◌, refl, ap, ◌∙◌, inl, inr, List, [], ◌∷◌, ◌++◌, append-nil,
  append_assoc, arith, Bytes, All, length, length-drop, Option, none, some, Option-cases,
}
use remote_tool.Protocol.ErrorCode.{ErrorCode}
use remote_tool.Protocol.Frame.Local.{next_frame-Dead, Next-cases, Found, next_frame-Found}
use remote_tool.Protocol.Frame.{
  IsAlive, Frame, more, refused, found, Refusal, DecodeResult, status_of, next_frame, consume_loop,
}

pub record Scan : Type 0 where
  pub frames : List Frame
  pub refusal : Option Refusal
  pub left : Bytes

abbrev pub after : Frame → Scan → Scan
after f s = record s { frames = f ∷ s.frames }

-- `n` bounds the number of rounds.
unfoldable pub scan : ℕ → Bytes → Scan
scan zero buf = record { frames = []; refusal = none; left = buf }
scan (suc n) buf = elim (next_frame buf) [
  | more ↦ record { frames = []; refusal = none; left = buf }
  | refused r ↦ record { frames = []; refusal = some r; left = buf }
  | found f rest ↦ after f (scan n rest)
]

pub scan_starved :
    (n : ℕ) (buf : Bytes)
    → next_frame buf ≡ more
    → scan (suc n) buf ≡ record { frames = []; refusal = none; left = buf }
unfolding scan
scan_starved n buf e = rw (e, scan) refl

pub scan_refuses :
    (n : ℕ) (buf : Bytes) (r : Refusal)
    → next_frame buf ≡ refused r
    → scan (suc n) buf ≡ record { frames = []; refusal = some r; left = buf }
unfolding scan
scan_refuses n buf r e = rw (e, scan) refl

abbrev pub outcome : List Frame → Option Refusal → DecodeResult
outcome fs none = record { status = status_of fs; error = ErrorCode.ok; frames = fs }
outcome fs (some r) = record { status = r.0; error = r.1; frames = fs }

pub consume_loop-scan :
    (n : ℕ) (buf : Bytes) (fs : List Frame)
    → consume_loop n buf fs
      ≡ (outcome (fs ++ (scan n buf).frames) (scan n buf).refusal, (scan n buf).left)
unfolding consume_loop scan
consume_loop-scan zero buf fs = rw append-nil refl
consume_loop-scan (suc n) buf fs = elim (Next-cases (next_frame buf)) [
  | inl e ↦ rw (e, consume_loop, scan, append-nil) refl
  | inr (inl (r, e)) ↦ rw (e, consume_loop, scan, append-nil) refl
  | inr (inr (f, rest, e)) ↦
      rw (e, consume_loop, scan)
        (consume_loop-scan n rest (fs ++ f ∷ [])
          ∙ rw (append_assoc fs (f ∷ []) (scan n rest).frames) refl)
]

-- A frame takes its header at least.
abbrev Shorter : Bytes → Frame → Bytes → Type 0
Shorter buf f rest = length rest < length buf

pub next_frame-Shorter : (buf : Bytes) → Found (Shorter buf) (next_frame buf)
next_frame-Shorter buf =
    next_frame-Found (Shorter buf) buf
      (λ h p c enough. omega (arith, length-drop (16 + h.payload_length) buf))

-- The number of rounds allowed does not matter once it is above the length.
pub scan_fuel : (n m : ℕ) (buf : Bytes) → length buf < n → length buf < m → scan n buf ≡ scan m buf
unfolding scan
scan_fuel zero m buf h k = absurd (omega arith)
scan_fuel (suc n) zero buf h k = absurd (omega arith)
scan_fuel (suc n) (suc m) buf h k = elim (Next-cases (next_frame buf)) [
  | inl e ↦ rw (e, scan) refl
  | inr (inl (r, e)) ↦ rw (e, scan) refl
  | inr (inr (f, rest, e)) ↦
      let shorter = rw e at (next_frame-Shorter buf) in
      rw (e, scan) (ap (after f) (scan_fuel n m rest (omega arith) (omega arith)))
]

-- What stopped the loop is what a round finds at the front of the bytes that are left.
abbrev pub Stopped : Option Refusal → Bytes → Type 0
Stopped none left = next_frame left ≡ more
Stopped (some r) left = next_frame left ≡ refused r

pub scan-Stopped :
    (n : ℕ) (buf : Bytes) → length buf < n → Stopped (scan n buf).refusal (scan n buf).left
unfolding scan
scan-Stopped zero buf h = absurd (omega arith)
scan-Stopped (suc n) buf h = elim (Next-cases (next_frame buf)) [
  | inl e ↦ rw (e, scan) e
  | inr (inl (r, e)) ↦ rw (e, scan) e
  | inr (inr (f, rest, e)) ↦
      let shorter = rw e at (next_frame-Shorter buf) in
      rw (e, scan) (scan-Stopped n rest (omega arith))
]

-- A fact that every round keeps, from the buffer before it to the frame and the rest.
pub scan-All {ℓ} :
    (P : Frame → Type ℓ)
    → ((buf : Bytes) → Found (λ f rest. P f) (next_frame buf))
    → (n : ℕ) (buf : Bytes) → All P (scan n buf).frames
unfolding scan
scan-All P k zero buf = tt
scan-All P k (suc n) buf = elim (Next-cases (next_frame buf)) [
  | inl e ↦ rw (e, scan) tt
  | inr (inl (r, e)) ↦ rw (e, scan) tt
  | inr (inr (f, rest, e)) ↦ let here = rw e at (k buf) in rw (e, scan) (here, scan-All P k n rest)
]

pub scan_refused :
    (n : ℕ) (buf : Bytes) (r : Refusal)
    → length buf < n
    → (scan n buf).refusal ≡ some r
    → next_frame (scan n buf).left ≡ refused r
scan_refused n buf r h e = rw e at (scan-Stopped n buf h)

-- After a run that the connection survives, the decoder just waits for more bytes.
pub scan_alive :
    (n : ℕ) (buf : Bytes)
    → length buf < n
    → IsAlive (outcome (scan n buf).frames (scan n buf).refusal).status
    → (scan n buf).refusal ≡ none
scan_alive n buf h a = elim (Option-cases (scan n buf).refusal) [
  | inl e ↦ e
  | inr (r, e) ↦
      absurd ((rw (scan_refused n buf r h e) at (next_frame-Dead (scan n buf).left)) (rw e at a))
]
