-- ===== src/Security/Whitelist/Masks.antt =====
-- What `&` with the mask of a prefix keeps: the leading bits.
use Prim.Native.Nat.{min, digits, bit_and, bit_and-bitwise}
use native.Mathlib.Nat.{pow-suc, one-le-pow, div-div-eq-div-mul, div-lt_iff_lt-mul, mul-div_cancel}
use remote_tool.Prelude.{
  ℕ, zero, suc, ◌+◌, ◌-◌, ◌*◌, ◌/◌, ◌%◌, ◌^◌, ◌≤◌, ◌<◌, ◌≡◌, refl, sym, ap, ◌∙◌, ◌↔◌, arith, Bool,
  true, ◌&&◌, ◌==◌, ==_iff,
}
use remote_tool.Security.Whitelist.Cidr.{make_v4_mask}

-- `&` on a count of digits that may be larger than the first number.
abbrev and_on : ℕ → ℕ → ℕ → ℕ
and_on fuel x y = digits (λ b. zero) min fuel x y

and_on_any : (fuel x y other : ℕ) → x ≤ fuel → x ≤ other → and_on fuel x y ≡ and_on other x y
and_on_any zero zero y zero h k = refl
and_on_any zero zero y (suc other) h k = refl
and_on_any (suc fuel) zero y zero h k = refl
and_on_any (suc fuel) zero y (suc other) h k = refl
and_on_any zero (suc x) y other h k = absurd (omega arith)
and_on_any (suc fuel) (suc x) y zero h k = absurd (omega arith)
and_on_any (suc fuel) (suc x) y (suc other) h k =
    ap (λ t. t * 2 + min (suc x % 2) (y % 2))
      (and_on_any fuel (suc x / 2) (y / 2) other (omega arith) (omega arith))

-- The last binary digit apart from the others.
bit_and-halves : (x y : ℕ) → bit_and x y ≡ bit_and (x / 2) (y / 2) * 2 + min (x % 2) (y % 2)
bit_and-halves zero y = omega (arith, bit_and-bitwise 0 y, bit_and-bitwise 0 (y / 2))
bit_and-halves (suc x) y =
    bit_and-bitwise (suc x) y
    ∙ ap (λ t. t * 2 + min (suc x % 2) (y % 2))
        (and_on_any x (suc x / 2) (y / 2) (suc x / 2) (omega arith) (omega arith)
          ∙ sym (bit_and-bitwise (suc x / 2) (y / 2)))

bit_and-shift : (k x m : ℕ) → bit_and x (m * 2 ^ k) ≡ bit_and (x / 2 ^ k) m * 2 ^ k
bit_and-shift zero x m =
    let e : m * 1 ≡ m = omega arith in let d : x / 1 ≡ x = omega arith in rw (e, d) (omega arith)
bit_and-shift (suc k) x m =
    let p = 2 ^ k in
    let e : m * (p * 2) / 2 ≡ m * p = grind arith in
    let z : m * (p * 2) % 2 ≡ 0 = grind arith in
    let d : x / 2 / p ≡ x / (p * 2) = div-div-eq-div-mul x 2 p ∙ ap (λ t. x / t) (grind arith) in
    let r = bit_and-halves x (m * (p * 2)) in
    let s = bit_and-shift k (x / 2) m in rw (pow-suc 2 k, r) (rw (e, z, s, d) (grind arith))

bit_and_ones : (p x : ℕ) → x < 2 ^ p → bit_and x (2 ^ p - 1) ≡ x
bit_and_ones zero zero h = bit_and-bitwise 0 0
bit_and_ones zero (suc x) h = absurd (omega arith)
bit_and_ones (suc p) x h' =
    let h : x < 2 ^ p * 2 = rw (pow-suc 2 p) at h' in
    let q = 2 ^ p in
    let pos : 1 ≤ q = one-le-pow p 2 (omega arith) in
    let e : (q * 2 - 1) / 2 ≡ q - 1 = omega arith in
    let o : (q * 2 - 1) % 2 ≡ 1 = omega arith in
    rw (pow-suc 2 p, bit_and-halves x (q * 2 - 1))
      (rw (e, o, bit_and_ones p (x / 2) (omega arith)) (omega arith))

pow-split : (p k : ℕ) → 2 ^ p * 2 ^ k ≡ 2 ^ (p + k)
pow-split p zero = let e : p + zero ≡ p = omega arith in rw e (omega arith)
pow-split p (suc k) =
    let e : p + suc k ≡ suc (p + k) = omega arith in
    rw (e, pow-suc 2 k, pow-suc 2 (p + k)) (grind (arith, pow-split p k))

-- The mask of the first `p` of `w` bits.
abbrev pub prefix_mask : ℕ → ℕ → ℕ
prefix_mask w p = (2 ^ p - 1) * 2 ^ (w - p)

abbrev pub leading : ℕ → ℕ → ℕ → ℕ
leading w p x = x / 2 ^ (w - p)

pub bit_and-prefix_mask :
    (w p x : ℕ) → p ≤ w → x < 2 ^ w → bit_and x (prefix_mask w p) ≡ leading w p x * 2 ^ (w - p)
bit_and-prefix_mask w p x h small =
    let split : 2 ^ p * 2 ^ (w - p) ≡ 2 ^ w = pow-split p (w - p) ∙ ap (λ t. 2 ^ t) (omega arith) in
    let top : leading w p x < 2 ^ p =
      (div-lt_iff_lt-mul (one-le-pow (w - p) 2 (omega arith))).1 (rw split small) in
    bit_and-shift (w - p) x (2 ^ p - 1) ∙ ap (λ t. t * 2 ^ (w - p)) (bit_and_ones p _ top)

-- Two numbers are the same under the mask exactly where their leading bits are.
pub prefix_mask-same :
    (w p x y : ℕ)
    → p ≤ w
    → x < 2 ^ w
    → y < 2 ^ w
    → (bit_and x (prefix_mask w p) ≡ bit_and y (prefix_mask w p)) ↔ (leading w p x ≡ leading w p y)
prefix_mask-same w p x y h hx hy =
    let unit = one-le-pow (w - p) 2 (omega arith) in
    rw (bit_and-prefix_mask w p x h hx, bit_and-prefix_mask w p y h hy)
      (
        (λ e.
            sym (mul-div_cancel (leading w p x) unit)
            ∙ ap (λ t. t / 2 ^ (w - p)) e
            ∙ mul-div_cancel (leading w p y) unit),
        λ e. ap (λ t. t * 2 ^ (w - p)) e,
      )

abbrev pub every_below : ℕ → (ℕ → Bool) → Bool
every_below zero test = true
every_below (suc n) test = test n && every_below n test

pub every_below-holds :
    (n : ℕ) (test : ℕ → Bool) (i : ℕ) → every_below n test ≡ true → i < n → test i ≡ true
every_below-holds zero test i h lt = absurd (omega arith)
every_below-holds (suc n) test i h lt = ground (arith, every_below-holds n test i)

v4_masks : every_below 33 (λ p. make_v4_mask p == prefix_mask 32 p) ≡ true
unfolding make_v4_mask
v4_masks = refl

pub make_v4_mask-prefix : (p : ℕ) → p ≤ 32 → make_v4_mask p ≡ prefix_mask 32 p
make_v4_mask-prefix p h =
    (==_iff (make_v4_mask p) (prefix_mask 32 p)).0
      (every_below-holds 33 (λ q. make_v4_mask q == prefix_mask 32 q) p v4_masks (omega arith))
