-- ===== src/Base/Bits.antt =====
-- The bitwise or of two numbers that are split at the same digit: what `|` gives for packed fields.
use Prim.Native.Nat.{
  ℕ, zero, suc, ◌+◌, ◌*◌, ◌/◌, ◌%◌, ◌^◌, ◌≤◌, ◌<◌, max, digits, bit_or, bit_or-bitwise,
}
use mathlib.Core.Path.{◌≡◌, refl, ap, ap₂}
use mathlib.Core.Bool.{true}
use native.Mathlib.Nat.{pow-suc}
use native.Mathlib.Omega.{arith}
use projet.Base.Tests.{◌==◌, eq_of_==, all_below, holds_below}

abbrev or_digits : ℕ → ℕ → ℕ → ℕ
or_digits n a b = digits (λ b. b) max n a b

-- The count of digits does not matter once it covers the first number.
or_digits-enough : (b n k a : ℕ) → a ≤ k → a ≤ n → or_digits n a b ≡ or_digits k a b
or_digits-enough b n zero (suc a) to_k to_n = absurd (omega arith)
or_digits-enough b zero k (suc a) to_k to_n = absurd (omega arith)
or_digits-enough b (suc n) (suc k) (suc a) to_k to_n =
    let half = suc a / 2 in
    let rest = or_digits-enough (b / 2) n k half (omega arith) (omega arith) in omega (arith, rest)
or_digits-enough b (suc n) (suc k) zero to_k to_n = refl
or_digits-enough b (suc n) zero zero to_k to_n = refl
or_digits-enough b zero (suc k) zero to_k to_n = refl
or_digits-enough b zero zero zero to_k to_n = refl

-- One digit of the or.
bit_or-low : (a b : ℕ) → bit_or a b ≡ bit_or (a / 2) (b / 2) * 2 + max (a % 2) (b % 2)
bit_or-low zero b = let whole = bit_or-bitwise 0 b in omega (arith, bit_or-bitwise 0 (b / 2), whole)
bit_or-low (suc a) b =
    let half = suc a / 2 in
    let fuel = or_digits-enough (b / 2) a half half (omega arith) (omega arith) in
    let low = bit_or-bitwise half (b / 2) in omega (arith, fuel, low, bit_or-bitwise (suc a) b)

-- A number doubled once more.
double-pow : (q k : ℕ) → q * 2 ^ suc k ≡ q * 2 ^ k * 2
double-pow q k = omega (arith, ap (λ (t : ℕ). q * t) (pow-suc 2 k))

-- The high parts and the low parts are combined apart.
pub bit_or-parts :
    (k q r s t : ℕ)
    → r < 2 ^ k
    → t < 2 ^ k
    → bit_or (q * 2 ^ k + r) (s * 2 ^ k + t) ≡ bit_or q s * 2 ^ k + bit_or r t
bit_or-parts zero q r s t hr ht = omega (
  arith,
  ap₂ bit_or (let e : q * 2 ^ 0 + r ≡ q = omega arith in e)
      (let e : s * 2 ^ 0 + t ≡ s = omega arith in e),
  ap₂ bit_or (let e : r ≡ 0 = omega arith in e) (let e : t ≡ 0 = omega arith in e),
  bit_or-bitwise 0 0,
)
bit_or-parts (suc k) q r s t hr ht = omega (
  arith,
  double-pow q k,
  double-pow s k,
  double-pow (bit_or q s) k,
  pow-suc 2 k,
  bit_or-low (q * 2 ^ suc k + r) (s * 2 ^ suc k + t),
  bit_or-low r t,
  ap (λ (x : ℕ). bit_or x ((s * 2 ^ suc k + t) / 2))
      (let e : (q * 2 ^ suc k + r) / 2 ≡ q * 2 ^ k + r / 2 = omega (arith, double-pow q k) in e),
  ap (λ (y : ℕ). bit_or (q * 2 ^ k + r / 2) y)
      (let e : (s * 2 ^ suc k + t) / 2 ≡ s * 2 ^ k + t / 2 = omega (arith, double-pow s k) in e),
  bit_or-parts k q (r / 2) s (t / 2) (omega (arith, pow-suc 2 k)) (omega (arith, pow-suc 2 k)),
)

bit_or-0xff_table : all_below 256 (λ x. bit_or x 0xff == 0xff) ≡ true
unfolding all_below
bit_or-0xff_table = refl

zero-bit_or : (b : ℕ) → bit_or 0 b ≡ b
zero-bit_or b = bit_or-bitwise 0 b

bit_or-zero_below : (n a : ℕ) → a < n → bit_or a 0 ≡ a
bit_or-zero_below zero a h = absurd (omega arith)
bit_or-zero_below (suc n) zero h = refl
bit_or-zero_below (suc n) (suc a) h =
    omega (arith, bit_or-low (suc a) 0, bit_or-zero_below n (suc a / 2) (omega arith))

-- `(q << 8) | b` for a byte `b`
pub bit_or-shifted : (q b : ℕ) → b < 256 → bit_or (q * 256) b ≡ q * 256 + b
bit_or-shifted q b h = omega (
  arith,
  ap₂ bit_or (let e : q * 256 ≡ q * 2 ^ 8 + 0 = omega arith in e)
      (let e : b ≡ 0 * 2 ^ 8 + b = omega arith in e),
  bit_or-parts 8 q 0 0 b (omega arith) (omega arith),
  bit_or-zero_below (suc q) q (omega arith),
  zero-bit_or b,
)

-- The or with a word whose high byte is all ones.
pub bit_or-ones : (q b : ℕ) → q < 256 → b < 256 → bit_or (q * 256) (0xff00 + b) ≡ 0xff00 + b
bit_or-ones q b hq hb = omega (
  arith,
  ap₂ bit_or (let e : q * 256 ≡ q * 2 ^ 8 + 0 = omega arith in e)
      (let e : 0xff00 + b ≡ 0xff * 2 ^ 8 + b = omega arith in e),
  bit_or-parts 8 q 0 0xff b (omega arith) (omega arith),
  eq_of_== _ _ (holds_below (λ x. bit_or x 0xff == 0xff) 256 q hq bit_or-0xff_table),
  zero-bit_or b,
)

-- `(t << 5) | w` for a field `w` of five bits
pub bit_or-fields5 : (t w : ℕ) → w < 32 → bit_or (t * 32) w ≡ t * 32 + w
bit_or-fields5 t w h = omega (
  arith,
  ap₂ bit_or (let e : t * 32 ≡ t * 2 ^ 5 + 0 = omega arith in e)
      (let e : w ≡ 0 * 2 ^ 5 + w = omega arith in e),
  bit_or-parts 5 t 0 0 w (omega arith) (omega arith),
  bit_or-zero_below (suc t) t (omega arith),
  zero-bit_or w,
)
