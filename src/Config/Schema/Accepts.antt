-- ===== src/Config/Schema/Accepts.antt =====
-- What the helpers of config_schema.cpp accept, stated on the JSON value alone, and the rules that
-- compose such statements.
use remote_tool.Prelude.{◌≡◌, ◌↔◌, refl, Bool, true, false, some, List, Bytes, contains, arith, ap}
use remote_tool.Config.Json.Value.{JsonValue, object, JsonObject, end, field, find, try_as_object}
use remote_tool.Config.Schema.Checks.{
  Reason, Checked, ok, err, ◌>>=◌, ◌>>◌, ensure, or_fail, check_unknown_keys, keys_checked,
  required,
}

-- A check that returns exactly the values with `P`.
pub record Finds {A : Type 0} (m : Checked A) (P : A → Type 0) : Type 0 where
  pub sound : (a : A) → m ≡ ok a → P a
  pub complete : (a : A) → P a → m ≡ ok a

-- A check that passes exactly where `P` holds.
abbrev pub Accepts : Checked (Unit {0}) → Type 0 → Type 0
Accepts m P = (m ≡ ok tt) ↔ P

bind_inv :
    {A B : Type 0} (m : Checked A) (f : A → Checked B) (b : B)
    → (m >>= f) ≡ ok b
    → (a : A) × (m ≡ ok a) × (f a ≡ ok b)
bind_inv (ok a) f b h = (a, refl, h)
bind_inv (err e) f b h = cc

pub Finds-bind :
    {A B : Type 0} {m : Checked A} {f : A → Checked B} {P : A → Type 0} {Q : A → B → Type 0}
    → Finds m P
    → ((a : A) → Finds (f a) (Q a))
    → Finds (m >>= f) (λ b. (a : A) × P a × Q a b)
Finds-bind {m = m} {f = f} p q = record {
  sound = λ b h. let (a, e, r) = bind_inv m f b h in (a, p.sound a e, (q a).sound b r);
  complete = λ b (a, h, k). rw (p.complete a h) ((q a).complete b k);
}

pub Accepts-bind :
    {A : Type 0} {m : Checked A} {f : A → Checked (Unit {0})} {P : A → Type 0} {Q : A → Type 0}
    → Finds m P
    → ((a : A) → Accepts (f a) (Q a))
    → Accepts (m >>= f) ((a : A) × P a × Q a)
Accepts-bind {m = m} {f = f} p q = (
  λ h. let (a, e, r) = bind_inv m f tt h in (a, p.sound a e, (q a).0 r),
  λ (a, h, k). rw (p.complete a h) ((q a).1 k),
)

pub Accepts-then :
    {m k : Checked (Unit {0})} {P Q : Type 0} → Accepts m P → Accepts k Q → Accepts (m >> k) (P × Q)
Accepts-then {m = m} {k = k} p q =
    (λ h. let (a, e, r) = bind_inv m (λ _. k) tt h in (p.0 e, q.0 r), λ (h, g). rw (p.1 h) (q.1 g))

pub Finds-then :
    {A : Type 0} {m : Checked (Unit {0})} {k : Checked A} {P : Type 0} {Q : A → Type 0}
    → Accepts m P
    → Finds k Q
    → Finds (m >> k) (λ a. P × Q a)
Finds-then {m = m} {k = k} p q = record {
  sound = λ b h. let (a, e, r) = bind_inv m (λ _. k) b h in (p.0 e, q.sound b r);
  complete = λ b (h, g). rw (p.1 h) (q.complete b g);
}

pub Finds-ok : {A : Type 0} (a : A) → Finds (ok a) (λ b. a ≡ b)
Finds-ok a = record { sound = λ b h. cc; complete = λ b h. ap ok h }

pub Accepts-ok : Accepts (ok tt) Unit
Accepts-ok = (λ h. tt, λ h. refl)

pub Accepts-ensure :
    (b : Bool) (path : Bytes) (reason : Reason) → Accepts (ensure b path reason) (b ≡ true)
Accepts-ensure true path reason = (λ h. refl, λ h. refl)
Accepts-ensure false path reason = (λ h. cc, λ h. cc)

pub Finds-map :
    {A : Type 0} {m : Checked A} {P Q : A → Type 0}
    → Finds m P
    → ((a : A) → P a → Q a)
    → ((a : A) → Q a → P a)
    → Finds m Q
Finds-map p f g = record {
  sound = λ a h. f a (p.sound a h);
  complete = λ a h. p.complete a (g a h);
}

pub Accepts-map :
    {m : Checked (Unit {0})} {P Q : Type 0} → Accepts m P → (P → Q) → (Q → P) → Accepts m Q
Accepts-map p f g = (λ h. f (p.0 h), λ h. p.1 (g h))

-- All keys of an object are among the allowed ones.
abbrev pub Known : List Bytes → JsonObject → Type 0
Known allowed end = Unit
Known allowed (field k v o) = (contains k allowed ≡ true) × Known allowed o

-- A value is an object, and all its keys are among the allowed ones.
abbrev pub HasKeys : List Bytes → JsonValue → Type 0
HasKeys allowed v = (o : JsonObject) × (v ≡ object o) × Known allowed o

Accepts-check_unknown_keys :
    (o : JsonObject) (allowed : List Bytes) (path : Bytes)
    → Accepts (check_unknown_keys o allowed path) (Known allowed o)
unfolding check_unknown_keys
Accepts-check_unknown_keys end allowed path = (λ h. tt, λ h. refl)
Accepts-check_unknown_keys (field k v o) allowed path =
    let (there, back) = Accepts-check_unknown_keys o allowed path in
    (λ h. ground (arith, there), λ h. ground (arith, back h.1))

Finds-try_as_object :
    (v : JsonValue) (path : Bytes) (reason : Reason)
    → Finds (or_fail (try_as_object v) path reason) (λ o. v ≡ object o)
unfolding try_as_object
Finds-try_as_object (object o) path reason = record { sound = λ a h. cc; complete = λ a h. cc }
Finds-try_as_object _ path reason = record { sound = λ a h. cc; complete = λ a h. cc }

pub Accepts-keys_checked :
    (v : JsonValue) (allowed : List Bytes) (path : Bytes) (reason : Reason)
    → Accepts (keys_checked v allowed path reason) (HasKeys allowed v)
unfolding keys_checked
Accepts-keys_checked v allowed path reason =
    Accepts-bind (Finds-try_as_object v path reason) λ o. Accepts-check_unknown_keys o allowed path

module _ (v : JsonValue) (name path : Bytes) where
  pub Finds-required : Finds (required v name path) (λ x. find v name ≡ some x)
  unfolding required
  Finds-required = record { sound = λ a h. ground arith; complete = λ a h. rw h refl }
