-- ===== src/Base/Words.antt =====
-- Single bits of a word: tests and removals as C writes them, and the lowest bit (`ffsll`).
use Prim.Native.Nat.{ℕ, zero, suc, ◌+◌, ◌/◌, ◌%◌, ◌^◌, ◌<◌, bit_and, bit_or}
use mathlib.Core.Path.{◌≡◌}
use mathlib.Core.Logic.{inl, inr}
use mathlib.Core.Bool.{Bool, true, false, not, ◌&&◌, ◌||◌}
use native.Mathlib.Nat.{pow-suc, one-le-pow}
use native.Mathlib.Omega.{arith}
use sneks.Base.Tests.{◌==◌, if◌then◌else◌, Bool-cases}
use sneks.Base.Bits.{
  test_bit, test_bit-and, test_bit-or, test_bit-compl, compl, test_bit-zero, test_bit-pow,
  and_digits, bit_and-zero, half-two_pow,
}

-- `(a & (1ull << k)) != 0`.
abbrev pub has_bit : ℕ → ℕ → Bool
has_bit a k = not (bit_and a (2 ^ k) == 0)

bit_and-pow-zero : (a k : ℕ) → test_bit a k ≡ false → bit_and a (2 ^ k) ≡ 0
unfolding test_bit
bit_and-pow-zero a zero h = ground (arith, and_digits a 1, bit_and-zero (a / 2))
bit_and-pow-zero a (suc k) h =
    ground (arith, and_digits a (2 ^ suc k), half-two_pow k, bit_and-pow-zero (a / 2) k h)

pub has_bit-eq : (a k : ℕ) → has_bit a k ≡ test_bit a k
has_bit-eq a k = elim (Bool-cases (test_bit a k)) [
  | inl t ↦ ground (arith, test_bit-and a (2 ^ k) k, test_bit-pow k k, test_bit-zero k)
  | inr f ↦ ground (arith, bit_and-pow-zero a k f)
]

-- `ffs` over `n` bits: one more than the index of the lowest bit of `a`, or 0 where there is none.
unfoldable pub find_first : ℕ → ℕ → ℕ
find_first zero a = 0
find_first (suc n) a =
    let rest = find_first n (a / 2) in if a % 2 == 1 then 1 else if rest == 0 then 0 else rest + 1

pub find_first-zero : (n a : ℕ) → find_first n a ≡ 0 → (k : ℕ) → k < n → test_bit a k ≡ false
unfolding find_first test_bit
find_first-zero zero a e k h = absurd (omega arith)
find_first-zero (suc n) a e zero h = ground arith
find_first-zero (suc n) a e (suc k) h = find_first-zero n (a / 2) (ground arith) k (omega arith)

pub find_first_bit : (n a k : ℕ) → find_first n a ≡ suc k → (test_bit a k ≡ true) × (k < n)
unfolding find_first test_bit
find_first_bit zero a k e = absurd (omega arith)
find_first_bit (suc n) a zero e = ground arith
find_first_bit (suc n) a (suc k) e = ground (arith, find_first_bit n (a / 2) k)

pub find_first_below : (n a k : ℕ) → find_first n a ≡ suc k → (j : ℕ) → j < k → test_bit a j ≡ false
unfolding find_first test_bit
find_first_below zero a k e j h = absurd (omega arith)
find_first_below (suc n) a k e zero h = ground arith
find_first_below (suc n) a (suc k) e (suc j) h =
    find_first_below n (a / 2) k (ground arith) j (omega arith)
find_first_below (suc n) a zero e (suc j) h = absurd (omega arith)

pub two_pow-lt : (w k : ℕ) → k < w → 2 ^ k < 2 ^ w
two_pow-lt zero k h = absurd (omega arith)
two_pow-lt (suc w) zero h = omega (arith, pow-suc 2 w, one-le-pow w 2)
two_pow-lt (suc w) (suc k) h = omega (arith, pow-suc 2 w, pow-suc 2 k, two_pow-lt w k (omega arith))

-- `a &= ~(1ull << k)` on a word of `w` bits.
pub test_bit-remove :
    (w a k j : ℕ)
    → k < w
    → j < w
    → test_bit (bit_and a (compl w (2 ^ k))) j ≡ test_bit a j && not (k == j)
test_bit-remove w a k j hk hj =
    simp (test_bit-and, test_bit-compl w (2 ^ k) j (two_pow-lt w k hk) hj, test_bit-pow)

-- `a |= 1ull << k`.
pub test_bit-add : (a k j : ℕ) → test_bit (bit_or a (2 ^ k)) j ≡ test_bit a j || (k == j)
test_bit-add a k j = simp (test_bit-or, test_bit-pow)
