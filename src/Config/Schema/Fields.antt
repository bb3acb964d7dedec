-- ===== src/Config/Schema/Fields.antt =====
-- What the checks of a single field in config_schema.cpp accept.
use remote_tool.Prelude.{
  ℕ, ◌≤◌, ◌<◌, ◌≡◌, refl, true, not, ◌||◌, ℤ, pos, negsuc, below, above, to_ℕ, some, List, Bytes,
  length, ◌==◌, arith, ap, ◌∙◌, subst,
}
use remote_tool.Config.Json.Value.{
  JsonValue, bool, int, string, array, find, as_bool, as_int, try_as_string, try_as_array,
}
use remote_tool.Config.Schema.Checks.{
  Reason, or_fail, must_be_an_object, string_at, int_at, bool_at, array_at, object_at, nonempty_at,
  number_in, number_from, number_above, must_be_in_range, must_be_at_least, must_be_at_most,
  must_be_nonempty,
}
use remote_tool.Config.Schema.Accepts.{
  Finds, Finds-bind, Finds-then, Finds-ok, Finds-map, Finds-required, Accepts-ensure,
  Accepts-keys_checked, HasKeys,
}

-- A field that holds a string, an integer and so on.
module _ (path : Bytes) (reason : Reason) where
  pub Finds-string :
      (v : JsonValue) → Finds (or_fail (try_as_string v) path reason) (λ s. v ≡ string s)
  unfolding try_as_string
  Finds-string (string s) = record { sound = λ a h. cc; complete = λ a h. cc }
  Finds-string _ = record { sound = λ a h. cc; complete = λ a h. cc }

  pub Finds-int : (v : JsonValue) → Finds (or_fail (as_int v) path reason) (λ i. v ≡ int i)
  unfolding as_int
  Finds-int (int i) = record { sound = λ a h. cc; complete = λ a h. cc }
  Finds-int _ = record { sound = λ a h. cc; complete = λ a h. cc }

  Finds-bool : (v : JsonValue) → Finds (or_fail (as_bool v) path reason) (λ b. v ≡ bool b)
  unfolding as_bool
  Finds-bool (bool b) = record { sound = λ a h. cc; complete = λ a h. cc }
  Finds-bool _ = record { sound = λ a h. cc; complete = λ a h. cc }

  Finds-array : (v : JsonValue) → Finds (or_fail (try_as_array v) path reason) (λ a. v ≡ array a)
  unfolding try_as_array
  Finds-array (array a) = record { sound = λ a h. cc; complete = λ a h. cc }
  Finds-array _ = record { sound = λ a h. cc; complete = λ a h. cc }

-- A field that holds a natural number from `lo` to `hi`, or one from `lo` on.
abbrev pub NumberIn : ℕ → ℕ → JsonValue → Bytes → ℕ → Type 0
NumberIn lo hi v name n = (find v name ≡ some (int (pos n))) × (lo ≤ n) × (n ≤ hi)

abbrev pub NumberFrom : ℕ → JsonValue → Bytes → ℕ → Type 0
NumberFrom lo v name n = (find v name ≡ some (int (pos n))) × (lo ≤ n)

module _ (v : JsonValue) (name path : Bytes) where
  pub Finds-string_at : Finds (string_at v name path) (λ s. find v name ≡ some (string s))
  unfolding string_at
  Finds-string_at =
      Finds-map (Finds-bind (Finds-required v name path) λ x. Finds-string path _ x)
        (λ s (x, h, k). h ∙ ap some k) (λ s h. (string s, h, refl))

  pub Finds-int_at : Finds (int_at v name path) (λ i. find v name ≡ some (int i))
  unfolding int_at
  Finds-int_at =
      Finds-map (Finds-bind (Finds-required v name path) λ x. Finds-int path _ x)
        (λ s (x, h, k). h ∙ ap some k) (λ s h. (int s, h, refl))

  pub Finds-bool_at : Finds (bool_at v name path) (λ b. find v name ≡ some (bool b))
  unfolding bool_at
  Finds-bool_at =
      Finds-map (Finds-bind (Finds-required v name path) λ x. Finds-bool path _ x)
        (λ s (x, h, k). h ∙ ap some k) (λ s h. (bool s, h, refl))

  pub Finds-array_at : Finds (array_at v name path) (λ a. find v name ≡ some (array a))
  unfolding array_at
  Finds-array_at =
      Finds-map (Finds-bind (Finds-required v name path) λ x. Finds-array path _ x)
        (λ s (x, h, k). h ∙ ap some k) (λ s h. (array s, h, refl))

  pub Finds-object_at :
      (allowed : List Bytes)
      → Finds (object_at v name allowed path) (λ x. (find v name ≡ some x) × HasKeys allowed x)
  unfolding object_at
  Finds-object_at allowed =
      Finds-map
        (Finds-bind (Finds-required v name path)
          λ x. Finds-then (Accepts-keys_checked x allowed path must_be_an_object) (Finds-ok x))
        (λ y (x, h, (k, e)). (h ∙ ap some e, subst (HasKeys allowed) e k))
        (λ y (h, k). (y, h, (k, refl)))

  pub Finds-nonempty_at :
      Finds (nonempty_at v name path) (λ s. (find v name ≡ some (string s)) × (0 < length s))
  unfolding nonempty_at
  Finds-nonempty_at =
      Finds-map
        (Finds-bind Finds-string_at
          λ s. Finds-then (Accepts-ensure (not (length s == 0)) path must_be_nonempty) (Finds-ok s))
        (λ y (s, h, (k, e)).
          (h ∙ ap some (ap string e), subst (λ z. 0 < length z) e (ground arith)))
        (λ y (h, k). (y, h, (ground arith, refl)))

  number_read :
      (lo hi n : ℕ) (i : ℤ)
      → find v name ≡ some (int i)
      → not (below i lo || above i hi) ≡ true
      → to_ℕ i ≡ n
      → NumberIn lo hi v name n
  number_read lo hi n (pos k) h t e = (h ∙ ap some (ap int (ap pos e)), ground arith, ground arith)
  number_read lo hi n (negsuc k) h t e = cc

  low_read :
      (lo n : ℕ) (i : ℤ)
      → find v name ≡ some (int i)
      → not (below i lo) ≡ true
      → to_ℕ i ≡ n
      → NumberFrom lo v name n
  low_read lo n (pos k) h t e = (h ∙ ap some (ap int (ap pos e)), ground arith)
  low_read lo n (negsuc k) h t e = cc

  pub Finds-number_in : (lo hi : ℕ) → Finds (number_in lo hi v name path) (NumberIn lo hi v name)
  unfolding number_in
  Finds-number_in lo hi =
      Finds-map
        (Finds-bind Finds-int_at λ i.
          Finds-then (Accepts-ensure (not (below i lo || above i hi)) path (must_be_in_range lo hi))
            (Finds-ok (to_ℕ i)))
        (λ n (i, h, (k, e)). number_read lo hi n i h k e)
        (λ n (h, low, high). (pos n, h, (ground arith, refl)))

  pub Finds-number_from :
      (lo hi : ℕ) → Finds (number_from lo hi v name path) (NumberIn lo hi v name)
  unfolding number_from
  Finds-number_from lo hi =
      Finds-map
        (Finds-bind Finds-int_at λ i.
          Finds-then (Accepts-ensure (not (below i lo)) path (must_be_at_least lo)) (
            Finds-then (Accepts-ensure (not (above i hi)) path (must_be_at_most hi))
              (Finds-ok (to_ℕ i))))
        (λ n (i, h, (k, (t, e))). number_read lo hi n i h (ground arith) e)
        (λ n (h, low, high). (pos n, h, (ground arith, (ground arith, refl))))

  pub Finds-number_above :
      (lo : ℕ) (reason : Reason) → Finds (number_above lo reason v name path) (NumberFrom lo v name)
  unfolding number_above
  Finds-number_above lo reason =
      Finds-map
        (Finds-bind Finds-int_at
          λ i. Finds-then (Accepts-ensure (not (below i lo)) path reason) (Finds-ok (to_ℕ i)))
        (λ n (i, h, (k, e)). low_read lo n i h k e) (λ n (h, low). (pos n, h, (ground arith, refl)))
