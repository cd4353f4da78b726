-- ===== src/Prelude/Bits.antt =====
-- Facts about `&` and `|` at variables, as arithmetic.
use Prim.Native.Nat.{
  ℕ, zero, suc, ◌+◌, ◌-◌, ◌*◌, ◌/◌, ◌%◌, ◌^◌, ◌≤◌, ◌<◌, min, max, bit_and, bit_or, digits,
  bit_and-bitwise, bit_or-bitwise,
}
use mathlib.Core.Path.{◌≡◌, refl, ap, sym, ◌∙◌}
use native.Mathlib.Nat.{
  pow-suc, one-le-pow, mod-lt, mod-eq_of_lt, div-add-mod, add-mul-mod_self_left, div-div-eq-div-mul,
}
use native.Mathlib.Omega.{arith}

-- The fuel of the digit recursion does not matter once it reaches the first number.
module _ (z : ℕ → ℕ) (f : ℕ → ℕ → ℕ) where
  digits_enough : (n m a b : ℕ) → a ≤ n → a ≤ m → digits z f n a b ≡ digits z f m a b
  digits_enough zero zero a b p q = refl
  digits_enough (suc n) zero zero b p q = refl
  digits_enough (suc n) zero (suc a) b p q = absurd (omega arith)
  digits_enough zero (suc m) zero b p q = refl
  digits_enough zero (suc m) (suc a) b p q = absurd (omega arith)
  digits_enough (suc n) (suc m) zero b p q = refl
  digits_enough (suc n) (suc m) (suc a) b p q =
      omega (arith, digits_enough n m (suc a / 2) (b / 2) (omega arith) (omega arith))

-- One step on the lowest digit.
pub and_low : (a b : ℕ) → bit_and a b ≡ bit_and (a / 2) (b / 2) * 2 + min (a % 2) (b % 2)
and_low zero b = omega (arith, bit_and-bitwise 0 b, bit_and-bitwise 0 (b / 2))
and_low (suc a) b = omega (
  arith,
  bit_and-bitwise (suc a) b,
  bit_and-bitwise (suc a / 2) (b / 2),
  digits_enough (λ y. zero) min a (suc a / 2) (suc a / 2) (b / 2) (omega arith) (omega arith),
)

pub or_low : (a b : ℕ) → bit_or a b ≡ bit_or (a / 2) (b / 2) * 2 + max (a % 2) (b % 2)
or_low zero b = omega (arith, bit_or-bitwise 0 b, bit_or-bitwise 0 (b / 2))
or_low (suc a) b = omega (
  arith,
  bit_or-bitwise (suc a) b,
  bit_or-bitwise (suc a / 2) (b / 2),
  digits_enough (λ y. y) max a (suc a / 2) (suc a / 2) (b / 2) (omega arith) (omega arith),
)

-- Induction on a bound of the number of binary digits, since each step halves.
pub and_zero : (k a : ℕ) → a < 2 ^ k → bit_and a 0 ≡ 0
and_zero zero a h = let e : a ≡ 0 = omega arith in rw e refl
and_zero (suc k) a h = omega (arith, and_low a 0, and_zero k (a / 2) (omega (arith, pow-suc 2 k)))

below_pow : (a : ℕ) → a < 2 ^ a
below_pow zero = omega arith
below_pow (suc a) = omega (arith, below_pow a, pow-suc 2 a)

pub bit_and-zero : (a : ℕ) → bit_and a 0 ≡ 0
bit_and-zero a = and_zero a a (below_pow a)

or_zero : (k a : ℕ) → a < 2 ^ k → bit_or a 0 ≡ a
or_zero zero a h = let e : a ≡ 0 = omega arith in rw e refl
or_zero (suc k) a h = omega (arith, or_low a 0, or_zero k (a / 2) (omega (arith, pow-suc 2 k)))

pub bit_or-zero : (a : ℕ) → bit_or a 0 ≡ a
bit_or-zero a = or_zero a a (below_pow a)

and_le : (k a b : ℕ) → a < 2 ^ k → bit_and a b ≤ a
and_le zero a b h = let e : a ≡ 0 = omega arith in rw e (omega (arith, bit_and-bitwise 0 b))
and_le (suc k) a b h =
    omega (arith, and_low a b, and_le k (a / 2) (b / 2) (omega (arith, pow-suc 2 k)))

-- A mask never makes a number larger.
pub bit_and-le : (a b : ℕ) → bit_and a b ≤ a
bit_and-le a b = and_le a a b (below_pow a)

-- The remainder by `2 ^ (k + 1)`, from the lowest digit and the others.
mod_double : (p a : ℕ) → 0 < p → a % (2 * p) ≡ a / 2 % p * 2 + a % 2
mod_double p a h =
    let r : ℕ = a / 2 % p * 2 + a % 2 in
    let small : r < 2 * p = omega (arith, mod-lt (a / 2) h) in
    let whole : a ≡ r + 2 * p * (a / 2 / p) = omega (arith, div-add-mod (a / 2) p) in
    ap (λ (t : ℕ). t % (2 * p)) whole
    ∙ add-mul-mod_self_left r (2 * p) (a / 2 / p)
    ∙ mod-eq_of_lt small

mod_pow-suc : (k a : ℕ) → a % 2 ^ suc k ≡ a / 2 % 2 ^ k * 2 + a % 2
mod_pow-suc k a =
    ap (λ (t : ℕ). a % t) (omega (arith, pow-suc 2 k))
    ∙ mod_double (2 ^ k) a (one-le-pow k 2 (omega arith))

-- A mask of `k` ones is the remainder by `2 ^ k`.
pub and_mask : (k a : ℕ) → bit_and a (2 ^ k - 1) ≡ a % 2 ^ k
and_mask zero a = omega (arith, bit_and-zero a)
and_mask (suc k) a = ground (
  arith,
  and_low a (2 ^ suc k - 1),
  and_mask k (a / 2),
  mod_pow-suc k a,
  pow-suc 2 k,
  one-le-pow k 2,
)

-- Bits at and above position `k` are cut off by a mask below `2 ^ k`.
pub and_high : (k a m : ℕ) → m < 2 ^ k → bit_and a m ≡ bit_and (a % 2 ^ k) m
and_high zero a m h =
    let e : m ≡ 0 = omega arith in rw e (omega (arith, bit_and-zero a, bit_and-zero (a % 2 ^ 0)))
and_high (suc k) a m h = ground (
  arith,
  and_low a m,
  and_low (a % 2 ^ suc k) m,
  mod_pow-suc k a,
  pow-suc 2 k,
  and_high k (a / 2) (m / 2),
)

-- Two fields that do not overlap are joined by `|` as by `+`.
pub or_fields : (k q r : ℕ) → r < 2 ^ k → bit_or (q * 2 ^ k) r ≡ q * 2 ^ k + r
or_fields zero q r h = let e : r ≡ 0 = omega arith in rw e (omega (arith, bit_or-zero (q * 2 ^ 0)))
or_fields (suc k) q r h = ground (
  arith,
  or_low (q * 2 ^ suc k) r,
  ap (λ (t : ℕ). q * t) (pow-suc 2 k),
  pow-suc 2 k,
  or_fields k q (r / 2),
)

div_pow-suc : (k a : ℕ) → a / 2 ^ suc k ≡ a / 2 / 2 ^ k
div_pow-suc k a =
    ap (λ (t : ℕ). a / t) (omega (arith, pow-suc 2 k)) ∙ sym (div-div-eq-div-mul a 2 (2 ^ k))

-- A mask of two fields acts on each field.
pub and_split :
    (k a q r : ℕ)
    → r < 2 ^ k
    → bit_and a (q * 2 ^ k + r) ≡ bit_and (a / 2 ^ k) q * 2 ^ k + bit_and (a % 2 ^ k) r
and_split zero a q r h =
    let e : r ≡ 0 = omega arith in
    let f : q * 2 ^ 0 + r ≡ q = omega arith in
    let g : a / 2 ^ 0 ≡ a = omega arith in rw (f, g, e) (omega (arith, bit_and-zero (a % 2 ^ 0)))
and_split (suc k) a q r h = ground (
  arith,
  and_low a (q * 2 ^ suc k + r),
  and_low (a % 2 ^ suc k) r,
  mod_pow-suc k a,
  div_pow-suc k a,
  ap (λ (t : ℕ). q * t) (pow-suc 2 k),
  ap (λ (t : ℕ). bit_and (a / 2 / 2 ^ k) q * t) (pow-suc 2 k),
  pow-suc 2 k,
  and_split k (a / 2) q (r / 2),
)
