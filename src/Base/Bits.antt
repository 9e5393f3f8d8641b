-- ===== src/Base/Bits.antt =====
-- `|`, `&` and shifts of C on bit fields, as arithmetic.
use Prim.Native.Nat.{
  ℕ, zero, suc, ◌+◌, ◌-◌, ◌*◌, ◌/◌, ◌%◌, ◌^◌, ◌≤◌, ◌<◌, min, max, bit_and, bit_or, bitwise, digits,
  bit_and-bitwise, bit_or-bitwise,
}
use mathlib.Core.Path.{◌≡◌, refl, ap}
use native.Mathlib.Nat.{pow-suc, pow-succ', one-le-pow, mod-eq_of_lt, div-div-eq-div-mul}
use native.Mathlib.Omega.{arith}

-- Any fuel that covers the first argument gives the same digits.
module _ (z : ℕ → ℕ) (f : ℕ → ℕ → ℕ) where
  digits_any : (n m a b : ℕ) → a ≤ n → a ≤ m → digits z f n a b ≡ digits z f m a b
  digits_any zero zero a b h k = refl
  digits_any (suc n) (suc m) zero b h k = refl
  digits_any (suc n) zero zero b h k = refl
  digits_any zero (suc m) zero b h k = refl
  digits_any (suc n) (suc m) (suc a) b h k =
      ap (λ (d : ℕ). d * 2 + f (suc a % 2) (b % 2))
        (digits_any n m (suc a / 2) (b / 2) (omega arith) (omega arith))
  digits_any n m a b h k = absurd (omega arith)

  -- One digit of `bitwise`, at any first argument above 0.
  bitwise_digit :
      (a b : ℕ) → 0 < a → bitwise z f a b ≡ bitwise z f (a / 2) (b / 2) * 2 + f (a % 2) (b % 2)
  bitwise_digit zero b h = absurd (omega arith)
  bitwise_digit (suc a) b h =
      ap (λ (d : ℕ). d * 2 + f (suc a % 2) (b % 2))
        (digits_any a (suc a / 2) (suc a / 2) (b / 2) (omega arith) (omega arith))

bit_or_digit : (a b : ℕ) → bit_or a b ≡ bit_or (a / 2) (b / 2) * 2 + max (a % 2) (b % 2)
bit_or_digit zero b = simp bit_or-bitwise (omega arith)
bit_or_digit (suc a) b = simp bit_or-bitwise (bitwise_digit (λ y. y) max (suc a) b (omega arith))

bit_and_digit : (a b : ℕ) → bit_and a b ≡ bit_and (a / 2) (b / 2) * 2 + min (a % 2) (b % 2)
bit_and_digit zero b = simp bit_and-bitwise (omega arith)
bit_and_digit (suc a) b = simp bit_and-bitwise (bitwise_digit (λ y. 0) min (suc a) b (omega arith))

zero-bit_or : (b : ℕ) → bit_or 0 b ≡ b
zero-bit_or b = bit_or-bitwise 0 b

zero-bit_and : (b : ℕ) → bit_and 0 b ≡ 0
zero-bit_and b = bit_and-bitwise 0 b

-- The induction goes down to `a / 2`, so it is on a bound of `a`.
bit_or-zero_below : (n a : ℕ) → a ≤ n → bit_or a 0 ≡ a
bit_or-zero_below zero a h = ground (arith, zero-bit_or 0)
bit_or-zero_below (suc n) zero h = zero-bit_or 0
bit_or-zero_below (suc n) (suc a) h =
    omega (arith, bit_or_digit (suc a) 0, bit_or-zero_below n (suc a / 2) (omega arith))

bit_and-zero_below : (n a : ℕ) → a ≤ n → bit_and a 0 ≡ 0
bit_and-zero_below zero a h = ground (arith, zero-bit_and 0)
bit_and-zero_below (suc n) zero h = zero-bit_and 0
bit_and-zero_below (suc n) (suc a) h =
    omega (arith, bit_and_digit (suc a) 0, bit_and-zero_below n (suc a / 2) (omega arith))

pub bit_and-zero : (a : ℕ) → bit_and a 0 ≡ 0
bit_and-zero a = bit_and-zero_below a a (omega arith)

double-pow : (q k : ℕ) → q * 2 ^ suc k ≡ 2 * (q * 2 ^ k)
double-pow q k = omega (arith, ap (λ (t : ℕ). q * t) (pow-suc 2 k))

-- A field at bit `k` joined with a value of `k` bits, on either side.
pub bit_or_high : (k q r : ℕ) → r < 2 ^ k → bit_or (q * 2 ^ k) r ≡ q * 2 ^ k + r
bit_or_high zero q r h = ground (arith, bit_or-zero_below q q)
bit_or_high (suc k) q r h = ground (
  arith,
  pow-suc 2 k,
  double-pow q k,
  bit_or_digit (q * 2 ^ suc k) r,
  bit_or_high k q (r / 2) (omega (arith, pow-suc 2 k)),
)

pub bit_or_low : (k q r : ℕ) → r < 2 ^ k → bit_or r (q * 2 ^ k) ≡ q * 2 ^ k + r
bit_or_low zero q r h = ground (arith, zero-bit_or q)
bit_or_low (suc k) q r h = ground (
  arith,
  pow-suc 2 k,
  double-pow q k,
  bit_or_digit r (q * 2 ^ suc k),
  bit_or_low k q (r / 2) (omega (arith, pow-suc 2 k)),
)

-- Splitting off the lowest digit.
half_mod : (p a : ℕ) → 0 < p → a % (2 * p) ≡ 2 * (a / 2 % p) + a % 2
half_mod p a h =
    omega (arith, div-div-eq-div-mul a 2 p, ap (λ (t : ℕ). t * p) (div-div-eq-div-mul a 2 p))

mask_step :
    (p a : ℕ) → 0 < p → bit_and (a / 2) (p - 1) ≡ a / 2 % p → bit_and a (2 * p - 1) ≡ a % (2 * p)
mask_step p a h ih =
    let e : (2 * p - 1) / 2 ≡ p - 1 = omega arith in
    ground (arith, bit_and_digit a (2 * p - 1), half_mod p a h, ih, e)

even_step :
    (p a : ℕ)
    → 0 < p
    → bit_and (a / 2) (p - 1) ≡ a / 2 % p
    → a < 2 * p
    → bit_and a (2 * p - 2) ≡ a - a % 2
even_step p a h ih lt =
    let e : (2 * p - 2) / 2 ≡ p - 1 = omega arith in
    ground (arith, bit_and_digit a (2 * p - 2), half_mod p a h, mod-eq_of_lt lt, ih, e)

-- `a & (2^k - 1)`.
pub bit_and_mask : (k a : ℕ) → bit_and a (2 ^ k - 1) ≡ a % 2 ^ k
bit_and_mask zero a = ground (arith, bit_and-zero a)
bit_and_mask (suc k) a =
    rw (pow-succ' 2 k) (mask_step (2 ^ k) a (one-le-pow k 2 (omega arith)) (bit_and_mask k (a / 2)))

-- `a & ~1` at `k + 1` bits.
pub bit_and_even : (k a : ℕ) → a < 2 ^ suc k → bit_and a (2 ^ suc k - 2) ≡ a - a % 2
bit_and_even k a h =
    let e : 2 ^ suc k ≡ 2 * 2 ^ k = pow-succ' 2 k in
    rw e (even_step (2 ^ k) a (one-le-pow k 2 (omega arith)) (bit_and_mask k (a / 2)) (rw e at h))

-- `a & (1 << k)` is the bit, at its place.
pub bit_and_bit : (k a : ℕ) → bit_and a (2 ^ k) ≡ a / 2 ^ k % 2 * 2 ^ k
bit_and_bit zero a = ground (arith, bit_and_digit a 1, bit_and-zero (a / 2))
bit_and_bit (suc k) a = ground (
  arith,
  double-pow (a / 2 / 2 ^ k % 2) k,
  pow-suc 2 k,
  bit_and_digit a (2 ^ suc k),
  div-div-eq-div-mul a 2 (2 ^ k),
  bit_and_bit k (a / 2),
)
