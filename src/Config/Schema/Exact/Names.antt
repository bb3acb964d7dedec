-- ===== src/Config/Schema/Exact/Names.antt =====
-- What the checks of ids and names in config_schema.cpp accept, and lists without repetition.
use remote_tool.Prelude.{
  ℕ, ◌≤◌, ◌≡◌, ◌≢◌, ◌⊎◌, ◌↔◌, refl, Bool, true, false, not, ◌&&◌, ◌||◌, some, List, [], ◌∷◌, Bytes,
  length, All, contains, bytes_eq_iff, leb, ◌==◌, ap, ◌∙◌, subst, arith,
}
use remote_tool.Config.Json.Value.{JsonValue, JsonArray, nil, cons, string, find}
use remote_tool.Config.Schema.Checks.{or_fail, illegal_character, must_have_length, invalid_utf8}
use remote_tool.Config.Schema.Utf8.{count_utf8_codepoints}
use remote_tool.Config.Schema.Devices.{
  is_id_character, is_valid_device_id_charset, device_id_at, name_at,
}
use remote_tool.Config.Schema.Mappings.{contains_port}
use remote_tool.Config.Schema.Accepts.{
  Finds, Finds-bind, Finds-then, Finds-ok, Finds-map, Accepts-ensure,
}
use remote_tool.Config.Schema.Fields.{Finds-string_at}

abbrev pub Distinct {ℓ} : {A : Type ℓ} → List A → Type ℓ
Distinct [] = Unit
Distinct (x ∷ xs) = All (λ y. x ≢ y) xs × Distinct xs

-- A letter, a digit, or one of three signs.
abbrev pub IsIdCharacter : ℕ → Type 0
IsIdCharacter c =
    ((b'A' ≤ c) × (c ≤ b'Z'))
    ⊎ ((b'a' ≤ c) × (c ≤ b'z'))
    ⊎ ((b'0' ≤ c) × (c ≤ b'9'))
    ⊎ (c ≡ b'-')
    ⊎ (c ≡ b'_')
    ⊎ (c ≡ b'.')

is_id_character_iff : (c : ℕ) → (is_id_character c ≡ true) ↔ IsIdCharacter c
unfolding is_id_character
is_id_character_iff c = (λ h. ground arith, λ h. ground arith)

charset_iff : (s : Bytes) → (is_valid_device_id_charset s ≡ true) ↔ All IsIdCharacter s
unfolding is_valid_device_id_charset
charset_iff [] = (λ h. tt, λ h. refl)
charset_iff (c ∷ cs) =
    let (first, first') = is_id_character_iff c in
    let (others, others') = charset_iff cs in
    (
      λ h. (first (ground arith), others (ground arith)),
      λ h. let a = first' h.0 in let b = others' h.1 in ground (arith, a, b),
    )

abbrev pub IsDeviceId : Bytes → Type 0
IsDeviceId s = (1 ≤ length s) × (length s ≤ 64) × All IsIdCharacter s

-- A text that the count of characters accepts, with as many of them.
abbrev pub IsName : ℕ → Bytes → Type 0
IsName most s = (n : ℕ) × (count_utf8_codepoints s ≡ some n) × (1 ≤ n) × (n ≤ most)

range_iff : (lo hi n : ℕ) → (leb lo n && leb n hi ≡ true) ↔ ((lo ≤ n) × (n ≤ hi))
range_iff lo hi n = (λ h. ground arith, λ h. ground arith)

module _ (v : JsonValue) (name path : Bytes) where
  pub Finds-device_id_at :
      Finds (device_id_at v name path) (λ s. (find v name ≡ some (string s)) × IsDeviceId s)
  unfolding device_id_at
  Finds-device_id_at =
      Finds-map
        (Finds-bind (Finds-string_at v name path) λ s.
          Finds-then
            (Accepts-ensure (not (length s == 0 || not (leb (length s) 64))) path
              (must_have_length 1 64))
            (Finds-then (Accepts-ensure (is_valid_device_id_charset s) path illegal_character)
              (Finds-ok s)))
        (λ y (s, h, (len, (set, e))). (
          h ∙ ap some (ap string e),
          subst IsDeviceId e (ground arith, ground arith, (charset_iff s).0 set),
        ))
        (λ y (h, (low, high, set)). (y, h, (ground arith, ((charset_iff y).1 set, refl))))

  count_read :
      (path : Bytes) (s : Bytes)
      → Finds
          (or_fail (count_utf8_codepoints s) path invalid_utf8)
          (λ n. count_utf8_codepoints s ≡ some n)
  count_read path s = record { sound = λ n h. ground arith; complete = λ n h. rw h refl }

  pub Finds-name_at :
      (most : ℕ)
      → Finds (name_at most v name path) (λ s. (find v name ≡ some (string s)) × IsName most s)
  unfolding name_at
  Finds-name_at most =
      Finds-map
        (Finds-bind (Finds-string_at v name path) λ s. Finds-bind (count_read path s) λ n.
          Finds-then (Accepts-ensure (leb 1 n && leb n most) path (must_have_length 1 most))
            (Finds-ok s))
        (λ y (s, h, (n, counted, (range, e))). (
          h ∙ ap some (ap string e),
          subst (IsName most) e (let r = (range_iff 1 most n).0 range in (n, counted, r.0, r.1)),
        ))
        (λ y (h, (n, counted, low, high)).
          (y, h, (n, counted, ((range_iff 1 most n).1 (low, high), refl))))

pub not-contains-cons :
    (id y : Bytes) (seen : List Bytes)
    → (contains y (id ∷ seen) ≡ false) ↔ ((id ≢ y) × (contains y seen ≡ false))
unfolding contains
not-contains-cons id y seen = let same = bytes_eq_iff id y in (λ h. ground arith, λ h. ground arith)

-- Each item of an array is described by the value at its place in a list.
abbrev pub Each : {A : Type 0} → (JsonValue → A → Type 0) → JsonArray → List A → Type 0
Each P nil [] = Unit
Each P nil (a ∷ l) = ⊥
Each P (cons x xs) [] = ⊥
Each P (cons x xs) (a ∷ l) = P x a × Each P xs l

pub All-imp :
    {A : Type 0} {P Q : A → Type 0} (xs : List A) → ((x : A) → P x → Q x) → All P xs → All Q xs
All-imp [] f h = tt
All-imp (x ∷ xs) f h = (f x h.0, All-imp xs f h.1)

-- Nothing was seen before the first item.
pub unseen : (ids : List Bytes) → All (λ y. contains y [] ≡ false) ids
unfolding contains
unseen [] = tt
unseen (y ∷ ids) = (refl, unseen ids)

pub unseen_cons :
    (id : Bytes) (seen ids : List Bytes)
    → All (λ y. id ≢ y) ids
    → All (λ y. contains y seen ≡ false) ids
    → All (λ y. contains y (id ∷ seen) ≡ false) ids
unseen_cons id seen [] h k = tt
unseen_cons id seen (y ∷ ids) h k =
    ((not-contains-cons id y seen).1 (h.0, k.0), unseen_cons id seen ids h.1 k.1)

pub not-contains_port-cons :
    (p q : ℕ) (seen : List ℕ)
    → (contains_port q (p ∷ seen) ≡ false) ↔ ((p ≢ q) × (contains_port q seen ≡ false))
unfolding contains_port
not-contains_port-cons p q seen = (λ h. ground arith, λ h. ground arith)

pub unseen_ports : (ports : List ℕ) → All (λ q. contains_port q [] ≡ false) ports
unfolding contains_port
unseen_ports [] = tt
unseen_ports (q ∷ ports) = (refl, unseen_ports ports)

pub unseen_ports_cons :
    (p : ℕ) (seen ports : List ℕ)
    → All (λ q. p ≢ q) ports
    → All (λ q. contains_port q seen ≡ false) ports
    → All (λ q. contains_port q (p ∷ seen) ≡ false) ports
unseen_ports_cons p seen [] h k = tt
unseen_ports_cons p seen (q ∷ ports) h k =
    ((not-contains_port-cons p q seen).1 (h.0, k.0), unseen_ports_cons p seen ports h.1 k.1)

pub is_new : (b : Bool) → (not b ≡ true) ↔ (b ≡ false)
is_new b = (λ h. ground arith, λ h. ground arith)
