-- ===== src/Base/Bits.antt =====
-- `&` and `|` at variables: one equation for the lowest digit, and what follows for masks.
use Prim.Native.Nat.{ℕ, zero, suc, ◌+◌, ◌-◌, ◌*◌, ◌/◌, ◌%◌, ◌^◌, ◌≤◌, ◌<◌, min, max}
use Prim.Native.Nat.{bit_and, bit_or, digits, bitwise, bit_and-bitwise, bit_or-bitwise}
use mathlib.Core.Path.{◌≡◌, refl, ap, sym}
use native.Mathlib.Nat.{
  pow-suc, one-le-pow, div-add-mod, mul-add-mod_self_left, mod-lt, mod-eq_of_lt,
}
use native.Mathlib.Omega.{arith}

module _ (z : ℕ → ℕ) (f : ℕ → ℕ → ℕ) where
  -- more fuel than the number itself changes nothing
  digits-enough : (n k a b : ℕ) → a ≤ n → digits z f (n + k) a b ≡ digits z f n a b
  digits-enough zero zero zero b h = refl
  digits-enough zero (suc k) zero b h = rw (fuel_suc zero k) refl
    where
      fuel_suc : (n k : ℕ) → n + suc k ≡ suc (n + k)
      fuel_suc n k = omega arith
  digits-enough zero k (suc a) b h = absurd (omega arith)
  digits-enough (suc n) k zero b h = let e : suc n + k ≡ suc (n + k) = omega arith in rw e refl
  digits-enough (suc n) k (suc a) b h =
      let e : suc n + k ≡ suc (n + k) = omega arith in
      rw (e, digits-enough n k (suc a / 2) (b / 2) (omega arith)) refl

  digits-between : (n m a b : ℕ) → a ≤ n → n ≤ m → digits z f m a b ≡ digits z f n a b
  digits-between n m a b h g =
      let e : m ≡ n + (m - n) = omega arith in rw e (digits-enough n (m - n) a b h)

  lowest_digit :
      (n k : ℕ)
      → f (suc n % 2) (k % 2) + 2 * bitwise z f (suc n / 2) (k / 2) ≡ bitwise z f (suc n) k
  lowest_digit n k =
      let shorter = digits-between (suc n / 2) n (suc n / 2) (k / 2) (omega arith) (omega arith) in
      omega (arith, shorter)

pub bit_or_step : (n k : ℕ) → bit_or n k ≡ max (n % 2) (k % 2) + 2 * bit_or (n / 2) (k / 2)
bit_or_step n k = simp bit_or-bitwise (step n)
  where
    step :
        (n : ℕ)
        → bitwise (λ c. c) max n k ≡ max (n % 2) (k % 2) + 2 * bitwise (λ c. c) max (n / 2) (k / 2)
    step zero = omega arith
    step (suc n) = sym (lowest_digit (λ c. c) max n k)

bit_and_step : (n k : ℕ) → bit_and n k ≡ min (n % 2) (k % 2) + 2 * bit_and (n / 2) (k / 2)
bit_and_step n k = simp bit_and-bitwise (step n)
  where
    step :
        (n : ℕ)
        → bitwise (λ c. 0) min n k ≡ min (n % 2) (k % 2) + 2 * bitwise (λ c. 0) min (n / 2) (k / 2)
    step zero = omega arith
    step (suc n) = sym (lowest_digit (λ c. 0) min n k)

-- induction on a bound of the number, which each digit halves
or-zero_below : (n a : ℕ) → a ≤ n → bit_or a 0 ≡ a
or-zero_below zero zero h = refl
or-zero_below zero (suc a) h = absurd (omega arith)
or-zero_below (suc n) a h = omega (arith, bit_or_step a 0, or-zero_below n (a / 2) (omega arith))

pub bit_or-zero : (a : ℕ) → bit_or a 0 ≡ a
bit_or-zero a = or-zero_below a a (omega arith)

and-zero_below : (n a : ℕ) → a ≤ n → bit_and a 0 ≡ 0
and-zero_below zero zero h = refl
and-zero_below zero (suc a) h = absurd (omega arith)
and-zero_below (suc n) a h = omega (arith, bit_and_step a 0, and-zero_below n (a / 2) (omega arith))

pub bit_and-zero : (a : ℕ) → bit_and a 0 ≡ 0
bit_and-zero a = and-zero_below a a (omega arith)

mod_double : (a m : ℕ) → 0 < m → a / 2 % m * 2 + a % 2 ≡ a % (2 * m)
mod_double a m pos =
    let r = a % (2 * m) in
    let q = a / (2 * m) in
    let split : a ≡ 2 * m * q + r = sym (div-add-mod a (2 * m)) in
    let small : r < 2 * m = mod-lt a (omega arith) in
    let half : a / 2 ≡ m * q + r / 2 = omega arith in
    let last : a % 2 ≡ r % 2 = omega arith in
    rw (half, last, mul-add-mod_self_left m q (r / 2), mod-eq_of_lt (halves r m small))
      (omega arith)
  where
    halves : (r m : ℕ) → r < 2 * m → r / 2 < m
    halves r m h = omega arith

two_pow_pos : (k : ℕ) → 0 < 2 ^ k
two_pow_pos k = one-le-pow k 2 (omega arith)

-- a mask of ones, one digit longer
and_ones_step : (a m : ℕ) → 0 < m → bit_and a (2 * m - 1) ≡ bit_and (a / 2) (m - 1) * 2 + a % 2
and_ones_step a m pos =
    let half : (2 * m - 1) / 2 ≡ m - 1 = omega arith in
    omega (arith, bit_and_step a (2 * m - 1), ap (bit_and (a / 2)) half)

-- `a & (2^k - 1)` is the remainder
pub bit_and-low : (k a : ℕ) → bit_and a (2 ^ k - 1) ≡ a % 2 ^ k
bit_and-low zero a = omega (arith, bit_and-zero a)
bit_and-low (suc k) a =
    let e : 2 ^ suc k ≡ 2 * 2 ^ k = omega (arith, pow-suc 2 k) in
    rw (e, and_ones_step a (2 ^ k) (two_pow_pos k), bit_and-low k (a / 2))
      (mod_double a (2 ^ k) (two_pow_pos k))

-- bit 2 of a word, as `| 4` and `& ~4` leave it, and the other bits
pub bit_or_four : (a : ℕ) → bit_or a 4 ≡ a / 8 * 8 + 4 + a % 4
bit_or_four a = omega (
  arith,
  bit_or_step a 4,
  bit_or_step (a / 2) 2,
  bit_or_step (a / 2 / 2) 1,
  bit_or-zero (a / 2 / 2 / 2),
)

pub bit_and_not_four : (a : ℕ) → a < 2 ^ 32 → bit_and a 0xFFFFFFFB ≡ a / 8 * 8 + a % 4
bit_and_not_four a h = omega (
  arith,
  bit_and_step a 0xFFFFFFFB,
  bit_and_step (a / 2) 0x7FFFFFFD,
  bit_and_step (a / 2 / 2) 0x3FFFFFFE,
  bit_and-low 29 (a / 2 / 2 / 2),
)

-- the tests `a & 2^k` of flags and attributes
pub bit_and_16 : (a : ℕ) → bit_and a 16 ≡ a / 16 % 2 * 16
bit_and_16 a = omega (
  arith,
  bit_and_step a 16,
  bit_and_step (a / 2) 8,
  bit_and_step (a / 2 / 2) 4,
  bit_and_step (a / 2 / 2 / 2) 2,
  bit_and_step (a / 2 / 2 / 2 / 2) 1,
  bit_and-zero (a / 2 / 2 / 2 / 2 / 2),
)

-- `| 3` and `| 7` set the low bits
pub bit_or_three : (a : ℕ) → bit_or a 3 ≡ a / 4 * 4 + 3
bit_or_three a = omega (arith, bit_or_step a 3, bit_or_step (a / 2) 1, bit_or-zero (a / 2 / 2))

pub bit_or_seven : (a : ℕ) → bit_or a 7 ≡ a / 8 * 8 + 7
bit_or_seven a = omega (
  arith,
  bit_or_step a 7,
  bit_or_step (a / 2) 3,
  bit_or_step (a / 2 / 2) 1,
  bit_or-zero (a / 2 / 2 / 2),
)

zero-or_below : (n a : ℕ) → a ≤ n → bit_or 0 a ≡ a
zero-or_below zero zero h = refl
zero-or_below zero (suc a) h = absurd (omega arith)
zero-or_below (suc n) a h = omega (arith, bit_or_step 0 a, zero-or_below n (a / 2) (omega arith))

-- a field below 2^k beside one that is shifted by k
pub bit_or_beside : (k r q : ℕ) → r < 2 ^ k → bit_or r (q * 2 ^ k) ≡ r + q * 2 ^ k
bit_or_beside zero r q fits =
    let nothing : r ≡ 0 = omega arith in
    rw nothing (omega (arith, zero-or_below (q * 2 ^ 0) (q * 2 ^ 0) (omega arith)))
bit_or_beside (suc k) r q fits =
    let double : 2 ^ suc k ≡ 2 * 2 ^ k = omega (arith, pow-suc 2 k) in
    let shifted : q * 2 ^ suc k ≡ 2 * (q * 2 ^ k) = omega (arith, ap (q *◌) double) in
    let half : q * 2 ^ suc k / 2 ≡ q * 2 ^ k = omega arith in
    omega (
      arith,
      bit_or_step r (q * 2 ^ suc k),
      ap (bit_or (r / 2)) half,
      bit_or_beside k (r / 2) q (omega (arith, double)),
    )
