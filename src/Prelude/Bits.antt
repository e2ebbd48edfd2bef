-- ===== src/Prelude/Bits.antt =====
-- Bitwise operations at variables, as arithmetic: `|` of fields that do not overlap, `&` with a
-- mask, and a single bit.
mod Digit
use Digit.{or_digit, and_digit}
use Prim.Native.Nat.{ℕ, zero, suc, ◌+◌, ◌*◌, ◌-◌, ◌/◌, ◌%◌, ◌^◌, ◌≤◌, ◌<◌, min, bit_and, bit_or}
use mathlib.Core.Path.{◌≡◌, refl, ap, ◌∙◌}
use native.Mathlib.Nat.{
  pow-suc, one-le-pow, div-div-eq-div-mul, mod-eq_of_lt, div-lt_iff_lt-mul, mul_comm,
}
use native.Mathlib.Omega.{arith}

or-zero_below : (n a : ℕ) → a ≤ n → bit_or a 0 ≡ a
or-zero_below n zero h = refl
or-zero_below zero (suc a) h = absurd (omega arith)
or-zero_below (suc n) (suc a) h =
    omega (arith, or_digit (suc a) 0, or-zero_below n (suc a / 2) (omega arith))

pub or-zero : (a : ℕ) → bit_or a 0 ≡ a
or-zero a = or-zero_below a a (omega arith)

and-zero_below : (n a : ℕ) → a ≤ n → bit_and a 0 ≡ 0
and-zero_below n zero h = refl
and-zero_below zero (suc a) h = absurd (omega arith)
and-zero_below (suc n) (suc a) h =
    omega (arith, and_digit (suc a) 0, and-zero_below n (suc a / 2) (omega arith))

pub and-zero : (a : ℕ) → bit_and a 0 ≡ 0
and-zero a = and-zero_below a a (omega arith)

double_pow : (q k : ℕ) → q * 2 ^ suc k ≡ q * 2 ^ k * 2
double_pow q k = omega (arith, ap (λ (t : ℕ). q * t) (pow-suc 2 k))

-- A high field and a low field that fits below it.
pub or_field : (k q r : ℕ) → r < 2 ^ k → bit_or (q * 2 ^ k) r ≡ q * 2 ^ k + r
or_field zero q r fits = ground (arith, or-zero q)
or_field (suc k) q r fits = ground (
  arith,
  or_digit (q * 2 ^ suc k) r,
  double_pow q k,
  pow-suc 2 k,
  or_field k q (r / 2) (omega (arith, pow-suc 2 k)),
)

low_field : (k q r : ℕ) → r < 2 ^ k → bit_and (q * 2 ^ k + r) (2 ^ k - 1) ≡ r
low_field zero q r fits = rw and-zero (omega arith)
low_field (suc k) q r fits = ground (
  arith,
  and_digit (q * 2 ^ suc k + r) (2 ^ suc k - 1),
  double_pow q k,
  pow-suc 2 k,
  one-le-pow k 2,
  low_field k q (r / 2) (omega (arith, pow-suc 2 k)),
)

-- The `k` lowest bits.
pub and_low : (k a : ℕ) → bit_and a (2 ^ k - 1) ≡ a % 2 ^ k
and_low k a = ground (arith, one-le-pow k 2, low_field k (a / 2 ^ k) (a % 2 ^ k))

halved : (k a : ℕ) → a / 2 / 2 ^ k ≡ a / 2 ^ suc k
halved k a = div-div-eq-div-mul a 2 (2 ^ k) ∙ ap (λ (t : ℕ). a / t) (omega (arith, pow-suc 2 k))

-- A mask shifted left.
pub and_shifted : (k a m : ℕ) → bit_and a (m * 2 ^ k) ≡ bit_and (a / 2 ^ k) m * 2 ^ k
and_shifted zero a m = ground arith
and_shifted (suc k) a m = ground (
  arith,
  and_digit a (m * 2 ^ suc k),
  double_pow m k,
  pow-suc 2 k,
  halved k a,
  double_pow (bit_and (a / 2 ^ suc k) m) k,
  and_shifted k (a / 2) m,
)

-- One bit.
pub and_bit : (k a : ℕ) → bit_and a (2 ^ k) ≡ a / 2 ^ k % 2 * 2 ^ k
and_bit k a = ground (arith, and_shifted k a 1, and_low 1 (a / 2 ^ k))

-- `& ~(2 ^ k - 1)` on `w` bits, with the mask written as a number.
pub and_high : (k j a : ℕ) → a < 2 ^ k * 2 ^ j → bit_and a ((2 ^ j - 1) * 2 ^ k) ≡ a / 2 ^ k * 2 ^ k
and_high k j a h = ground (
  arith,
  and_shifted k a (2 ^ j - 1),
  and_low j (a / 2 ^ k),
  mod-eq_of_lt {n = a / 2 ^ k} {m = 2 ^ j} fits,
)
  where
    fits : a / 2 ^ k < 2 ^ j
    fits =
        (div-lt_iff_lt-mul (one-le-pow k 2 (omega arith))).1
          (omega (arith, mul_comm (2 ^ k) (2 ^ j)))

-- The digits of an `&`.
pub and-digit_at : (i a b : ℕ) → bit_and a b / 2 ^ i % 2 ≡ min (a / 2 ^ i % 2) (b / 2 ^ i % 2)
and-digit_at zero a b = omega (arith, and_digit a b)
and-digit_at (suc i) a b = ground (
  arith,
  and_digit a b,
  halved i a,
  halved i b,
  halved i (bit_and a b),
  halves,
  and-digit_at i (a / 2) (b / 2),
)
  where
    halves : bit_and a b / 2 ≡ bit_and (a / 2) (b / 2)
    halves = omega (arith, and_digit a b)

le-or_below : (n a b : ℕ) → b ≤ n → b ≤ bit_or a b
le-or_below zero a b h = omega arith
le-or_below (suc n) a zero h = omega arith
le-or_below (suc n) a (suc b) h =
    omega (arith, or_digit a (suc b), le-or_below n (a / 2) (suc b / 2) (omega arith))

pub le-or : (a b : ℕ) → b ≤ bit_or a b
le-or a b = le-or_below b a b (omega arith)

pub or-lt : (k a b : ℕ) → a < 2 ^ k → b < 2 ^ k → bit_or a b < 2 ^ k
or-lt zero zero zero h g = omega arith
or-lt zero zero (suc b) h g = absurd (omega arith)
or-lt zero (suc a) b h g = absurd (omega arith)
or-lt (suc k) a b h g = omega (
  arith,
  or_digit a b,
  pow-suc 2 k,
  or-lt k (a / 2) (b / 2) (omega (arith, pow-suc 2 k)) (omega (arith, pow-suc 2 k)),
)
