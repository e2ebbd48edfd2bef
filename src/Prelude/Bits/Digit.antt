-- ===== src/Prelude/Bits/Digit.antt =====
-- The lowest binary digit of a native bitwise operation, without the fuel of its definition.
use Prim.Native.Nat.{ℕ, zero, suc, ◌+◌, ◌*◌, ◌/◌, ◌%◌, ◌≤◌, min, max}
use Prim.Native.Nat.{bit_and, bit_or, bitwise, digits, bit_and-bitwise, bit_or-bitwise}
use mathlib.Core.Path.{◌≡◌, refl}
use native.Mathlib.Omega.{arith}

module _ (z : ℕ → ℕ) (f : ℕ → ℕ → ℕ) where
  -- Any fuel from `a` on gives the same digits.
  digits_enough : (n k a b : ℕ) → a ≤ n → a ≤ k → digits z f n a b ≡ digits z f k a b
  digits_enough zero zero a b le_n le_k = refl
  digits_enough zero (suc k) zero b le_n le_k = refl
  digits_enough zero (suc k) (suc a) b le_n le_k = absurd (omega arith)
  digits_enough (suc n) zero zero b le_n le_k = refl
  digits_enough (suc n) zero (suc a) b le_n le_k = absurd (omega arith)
  digits_enough (suc n) (suc k) zero b le_n le_k = refl
  digits_enough (suc n) (suc k) (suc a) b le_n le_k =
      omega (arith, digits_enough n k (suc a / 2) (b / 2) (omega arith) (omega arith))

  digit_of_suc :
      (a b : ℕ)
      → bitwise z f (suc a) b ≡ bitwise z f (suc a / 2) (b / 2) * 2 + f (suc a % 2) (b % 2)
  digit_of_suc a b =
      omega (arith, digits_enough a (suc a / 2) (suc a / 2) (b / 2) (omega arith) (omega arith))

pub or_digit : (a b : ℕ) → bit_or a b ≡ bit_or (a / 2) (b / 2) * 2 + max (a % 2) (b % 2)
or_digit zero b = simp bit_or-bitwise (omega arith)
or_digit (suc a) b = simp bit_or-bitwise (digit_of_suc (λ y. y) max a b)

pub and_digit : (a b : ℕ) → bit_and a b ≡ bit_and (a / 2) (b / 2) * 2 + min (a % 2) (b % 2)
and_digit zero b = simp bit_and-bitwise (omega arith)
and_digit (suc a) b = simp bit_and-bitwise (digit_of_suc (λ y. 0) min a b)
