-- ===== src/Config/Schema/Exact/Policy.antt =====
-- What the checks of the two arrays in a target policy accept, in config_schema.cpp.
use remote_tool.Prelude.{
  ℕ, ◌+◌, ◌≤◌, ◌<◌, ◌≡◌, refl, true, false, not, ◌||◌, ℤ, pos, negsuc, below, above, to_ℕ, List, [],
  ◌∷◌, Bytes, codes, length, All, ◌==◌, arith,
}
use remote_tool.Config.Json.Value.{JsonValue, JsonArray, nil, cons, int, string}
use remote_tool.Config.Schema.Checks.{
  elem_path, must_be_a_string, must_be_an_integer, must_be_nonempty, must_be_in_range, duplicate,
}
use remote_tool.Config.Schema.Mappings.{contains_port}
use remote_tool.Config.Schema.Agent.{allowed_cidrs, allowed_ports}
use remote_tool.Config.Schema.Accepts.{
  Accepts, Accepts-bind, Accepts-then, Accepts-ensure, Accepts-map,
}
use remote_tool.Config.Schema.Fields.{Finds-string, Finds-int}
use remote_tool.Config.Schema.Exact.Names.{
  Distinct, is_new, Each, All-imp, unseen_ports_cons, not-contains_port-cons,
}

abbrev pub IsCidrText : JsonValue → Bytes → Type 0
IsCidrText v s = (v ≡ string s) × (0 < length s)

abbrev pub IsPort : JsonValue → ℕ → Type 0
IsPort v p = (v ≡ int (pos p)) × (1 ≤ p) × (p ≤ 65535)

cidrs_split :
    (x : JsonValue) (xs : JsonArray) (l : List Bytes)
    → Each IsCidrText (cons x xs) l
    → (s : Bytes) × (x ≡ string s)
      × ((not (length s == 0) ≡ true) × ((r : List Bytes) × Each IsCidrText xs r))
cidrs_split x xs [] h = absurd h
cidrs_split x xs (s ∷ r) h = (s, h.0.0, (ground arith, (r, h.1)))

pub Accepts-allowed_cidrs :
    (i : ℕ) (a : JsonArray) → Accepts (allowed_cidrs i a) ((l : List Bytes) × Each IsCidrText a l)
unfolding allowed_cidrs
Accepts-allowed_cidrs i nil = (λ h. ([], tt), λ h. refl)
Accepts-allowed_cidrs i (cons x xs) =
    let p = elem_path (codes "target_policy.allowed_cidrs") i [] in
    Accepts-map
      (Accepts-bind (Finds-string p must_be_a_string x) λ s.
        Accepts-then (Accepts-ensure (not (length s == 0)) p must_be_nonempty)
          (Accepts-allowed_cidrs (i + 1) xs))
      (λ (s, h, (nonempty, (l, each))). (s ∷ l, ((h, ground arith), each)))
      (λ (l, each). cidrs_split x xs l each)

abbrev pub PortsOf : List ℕ → JsonArray → Type 0
PortsOf seen a =
    (ports : List ℕ) × Each IsPort a ports
    × Distinct ports
    × All (λ q. contains_port q seen ≡ false) ports

ports_split :
    (seen : List ℕ) (x : JsonValue) (xs : JsonArray) (ports : List ℕ)
    → Each IsPort (cons x xs) ports
    → Distinct ports
    → All (λ q. contains_port q seen ≡ false) ports
    → (i : ℤ) × (x ≡ int i)
      × ((not (below i 1 || above i 65535) ≡ true)
          × ((not (contains_port (to_ℕ i) seen) ≡ true) × PortsOf (to_ℕ i ∷ seen) xs))
ports_split seen x xs [] h d n = absurd h
ports_split seen x xs (p ∷ ports) h d n = (
  pos p,
  h.0.0,
  (
    ground arith,
    (
      (is_new (contains_port p seen)).1 n.0,
      (ports, h.1, d.1, unseen_ports_cons p seen ports d.0 n.1),
    ),
  ),
)

ports_join :
    (seen : List ℕ) (x : JsonValue) (xs : JsonArray) (i : ℤ)
    → x ≡ int i
    → not (below i 1 || above i 65535) ≡ true
    → not (contains_port (to_ℕ i) seen) ≡ true
    → PortsOf (to_ℕ i ∷ seen) xs
    → PortsOf seen (cons x xs)
ports_join seen x xs (negsuc n) e range fresh r = cc
ports_join seen x xs (pos p) e range fresh (ports, each, distinct, new) = (
  p ∷ ports,
  ((e, ground arith, ground arith), each),
  (All-imp ports (λ q h. ((not-contains_port-cons p q seen).0 h).0) new, distinct),
  (
    (is_new (contains_port p seen)).0 fresh,
    All-imp ports (λ q h. ((not-contains_port-cons p q seen).0 h).1) new,
  ),
)

pub Accepts-allowed_ports :
    (seen : List ℕ) (i : ℕ) (a : JsonArray) → Accepts (allowed_ports seen i a) (PortsOf seen a)
unfolding allowed_ports
Accepts-allowed_ports seen i nil = (λ h. ([], tt, tt, tt), λ h. refl)
Accepts-allowed_ports seen i (cons x xs) =
    let p = elem_path (codes "target_policy.allowed_ports") i [] in
    Accepts-map
      (Accepts-bind (Finds-int p must_be_an_integer x) λ n.
        Accepts-then
          (Accepts-ensure (not (below n 1 || above n 65535)) p (must_be_in_range 1 65535))
          (Accepts-then (Accepts-ensure (not (contains_port (to_ℕ n) seen)) p duplicate)
            (Accepts-allowed_ports (to_ℕ n ∷ seen) (i + 1) xs)))
      (λ (n, e, (range, (fresh, r))). ports_join seen x xs n e range fresh r)
      (λ (ports, each, distinct, new). ports_split seen x xs ports each distinct new)
