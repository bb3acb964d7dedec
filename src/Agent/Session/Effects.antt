-- ===== src/Agent/Session/Effects.antt =====
-- What a list of effects of an `AgentSession` says: how often the callback was called, what was
-- written to the target, whether the sending side was ended, and whether a write came after that.
use remote_tool.Prelude.{
  ℕ, ◌+◌, ◌≡◌, refl, Bool, true, false, not, ◌&&◌, ◌||◌, List, [], ◌∷◌, ◌++◌, append_assoc, Bytes,
  arith,
}
use remote_tool.Agent.Session.State.{SessionEffect, writes, fin, calls_on_closed}

abbrev pub weight : SessionEffect → ℕ
weight (calls_on_closed sid) = 1
weight _ = 0

abbrev pub payload : SessionEffect → Bytes
payload (writes b) = b
payload _ = []

abbrev pub is_write : SessionEffect → Bool
is_write (writes b) = true
is_write _ = false

abbrev pub is_fin : SessionEffect → Bool
is_fin fin = true
is_fin _ = false

abbrev pub fired : List SessionEffect → ℕ
fired [] = 0
fired (e ∷ es) = weight e + fired es

abbrev pub written_bytes : List SessionEffect → Bytes
written_bytes [] = []
written_bytes (e ∷ es) = payload e ++ written_bytes es

abbrev pub finned : List SessionEffect → Bool
finned [] = false
finned (e ∷ es) = is_fin e || finned es

abbrev pub has_write : List SessionEffect → Bool
has_write [] = false
has_write (e ∷ es) = is_write e || has_write es

-- No write comes after the end of the sending side.
abbrev pub fin_last : List SessionEffect → Bool
fin_last [] = true
fin_last (e ∷ es) = not (is_fin e && has_write es) && fin_last es

pub fired-append : (xs ys : List SessionEffect) → fired (xs ++ ys) ≡ fired xs + fired ys
fired-append [] ys = omega arith
fired-append (x ∷ xs) ys = omega (arith, fired-append xs ys)

pub written-append :
    (xs ys : List SessionEffect) → written_bytes (xs ++ ys) ≡ written_bytes xs ++ written_bytes ys
written-append [] ys = refl
written-append (x ∷ xs) ys = rw (written-append xs ys, append_assoc) refl

pub finned-append : (xs ys : List SessionEffect) → finned (xs ++ ys) ≡ (finned xs || finned ys)
finned-append [] ys = refl
finned-append (x ∷ xs) ys = ground (arith, finned-append xs ys)

has_write-append :
    (xs ys : List SessionEffect) → has_write (xs ++ ys) ≡ (has_write xs || has_write ys)
has_write-append [] ys = refl
has_write-append (x ∷ xs) ys = ground (arith, has_write-append xs ys)

pub fin_last-append :
    (xs ys : List SessionEffect)
    → fin_last (xs ++ ys) ≡ (fin_last xs && fin_last ys && not (finned xs && has_write ys))
fin_last-append [] ys = ground arith
fin_last-append (x ∷ xs) ys = ground (arith, fin_last-append xs ys, has_write-append xs ys)
