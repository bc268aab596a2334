-- ===== src/Base/Bits/Step.antt =====
-- One binary digit of the native bit operations, which stand for a recursion on digits with fuel.
use Prim.Native.Nat.{ℕ, zero, suc, ◌+◌, ◌*◌, ◌/◌, ◌%◌, ◌≤◌, min, max, digits, differ, two}
use Prim.Native.Nat.{bit_and, bit_or, bit_xor, bit_and-bitwise, bit_or-bitwise, bit_xor-bitwise}
use mathlib.Core.Path.{◌≡◌, refl, ap}
use native.Mathlib.Omega.{arith}

module _ (rest : ℕ → ℕ) (f : ℕ → ℕ → ℕ) where
  -- Fuel from the first number on gives the digits that the number itself gives.
  digits-fuel : (n m a b : ℕ) → a ≤ n → a ≤ m → digits rest f n a b ≡ digits rest f m a b
  digits-fuel (suc n) (suc m) (suc a) b p q =
      ap (λ (t : ℕ). t * two + f (suc a % two) (b % two))
        (digits-fuel n m (suc a / two) (b / two) (omega arith) (omega arith))
  digits-fuel n zero (suc a) b p q = absurd (omega arith)
  digits-fuel zero m (suc a) b p q = absurd (omega arith)
  digits-fuel zero zero zero b p q = refl
  digits-fuel zero (suc m) zero b p q = refl
  digits-fuel (suc n) zero zero b p q = refl
  digits-fuel (suc n) (suc m) zero b p q = refl

  unrolled :
      (x y : ℕ)
      → digits rest f (suc x) (suc x) y
        ≡ digits rest f x (suc x / 2) (y / 2) * 2 + f (suc x % 2) (y % 2)
  unrolled x y = refl

  digits-half :
      (x y : ℕ)
      → digits rest f (suc x) (suc x) y
        ≡ f (suc x % 2) (y % 2) + 2 * digits rest f (suc x / 2) (suc x / 2) (y / 2)
  digits-half x y = omega (
    arith,
    unrolled x y,
    digits-fuel x (suc x / 2) (suc x / 2) (y / 2) (omega arith) (omega arith),
  )

pub and_digits : (x y : ℕ) → bit_and x y ≡ min (x % 2) (y % 2) + 2 * bit_and (x / 2) (y / 2)
and_digits zero y = omega (arith, bit_and-bitwise 0 (y / 2), bit_and-bitwise 0 y)
and_digits (suc x) y = simp bit_and-bitwise (omega (arith, digits-half (λ y. 0) min x y))

pub or_digits : (x y : ℕ) → bit_or x y ≡ max (x % 2) (y % 2) + 2 * bit_or (x / 2) (y / 2)
or_digits zero y = omega (arith, bit_or-bitwise 0 (y / 2), bit_or-bitwise 0 y)
or_digits (suc x) y = simp bit_or-bitwise (omega (arith, digits-half (λ y. y) max x y))

pub xor_digits : (x y : ℕ) → bit_xor x y ≡ differ (x % 2) (y % 2) + 2 * bit_xor (x / 2) (y / 2)
xor_digits zero y = simp bit_xor-bitwise (omega (arith))
xor_digits (suc x) y = simp bit_xor-bitwise (omega (arith, digits-half (λ y. y) differ x y))
