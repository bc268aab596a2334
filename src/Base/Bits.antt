-- ===== src/Base/Bits.antt =====
-- Machine words as native numbers, read bit by bit. `bit_and`, `bit_or` and `bit_xor` are the
-- `&`, `|` and `^` of C, `compl w` is its `~` on an unsigned type of `w` bits.
mod Step
pub use Step.{and_digits, or_digits, xor_digits}
use Prim.Native.Nat.{ℕ, zero, suc, ◌+◌, ◌-◌, ◌*◌, ◌/◌, ◌%◌, ◌^◌, ◌≤◌, ◌<◌, min, max}
use Prim.Native.Nat.{
  bit_and, bit_or, bit_xor, differ, bit_and-bitwise, bit_or-bitwise, bit_xor-bitwise,
}
use mathlib.Core.Path.{◌≡◌, refl, ap}
use mathlib.Core.Logic.{◌↔◌, ◌≢◌}
use mathlib.Core.Bool.{Bool, true, false, not, ◌&&◌, ◌||◌}
use native.Mathlib.Omega.{arith}
use native.Mathlib.Nat.{pow-suc, one-le-pow}
use sneks.Base.Tests.{◌==◌, xor}

-- Bit `k` of `a`: `(a >> k) & 1`.
unfoldable pub test_bit : ℕ → ℕ → Bool
test_bit a zero = a % 2 == 1
test_bit a (suc k) = test_bit (a / 2) k

abbrev pub compl : ℕ → ℕ → ℕ
compl w a = 2 ^ w - 1 - a

pub test_bit-zero : (k : ℕ) → test_bit 0 k ≡ false
unfolding test_bit
test_bit-zero zero = refl
test_bit-zero (suc k) = test_bit-zero k

half_and : (a b : ℕ) → bit_and a b / 2 ≡ bit_and (a / 2) (b / 2)
half_and a b = omega (arith, and_digits a b)

half_or : (a b : ℕ) → bit_or a b / 2 ≡ bit_or (a / 2) (b / 2)
half_or a b = omega (arith, or_digits a b)

differ-eq : (x y : ℕ) → x < 2 → y < 2 → differ x y ≡ (x + y) % 2
differ-eq zero y p q = omega arith
differ-eq (suc zero) zero p q = refl
differ-eq (suc zero) (suc zero) p q = refl
differ-eq (suc zero) (suc (suc y)) p q = absurd (omega arith)
differ-eq (suc (suc x)) y p q = absurd (omega arith)

xor_digit : (a b : ℕ) → differ (a % 2) (b % 2) ≡ (a % 2 + b % 2) % 2
xor_digit a b = differ-eq (a % 2) (b % 2) (omega arith) (omega arith)

half_xor : (a b : ℕ) → bit_xor a b / 2 ≡ bit_xor (a / 2) (b / 2)
half_xor a b = omega (arith, xor_digits a b, xor_digit a b)

abbrev digit : Bool → ℕ
digit true = 1
digit false = 0

pub test_bit-and : (a b k : ℕ) → test_bit (bit_and a b) k ≡ test_bit a k && test_bit b k
unfolding test_bit
test_bit-and a b zero = ground (arith, and_digits a b)
test_bit-and a b (suc k) = rw (half_and a b) (test_bit-and (a / 2) (b / 2) k)

pub test_bit-or : (a b k : ℕ) → test_bit (bit_or a b) k ≡ test_bit a k || test_bit b k
unfolding test_bit
test_bit-or a b zero = ground (arith, or_digits a b)
test_bit-or a b (suc k) = rw (half_or a b) (test_bit-or (a / 2) (b / 2) k)

pub test_bit-xor : (a b k : ℕ) → test_bit (bit_xor a b) k ≡ xor (test_bit a k) (test_bit b k)
unfolding test_bit
test_bit-xor a b zero = ground (arith, xor_digits a b, xor_digit a b)
test_bit-xor a b (suc k) = rw (half_xor a b) (test_bit-xor (a / 2) (b / 2) k)

half_pow : (j : ℕ) → 2 ^ suc j / 2 ≡ 2 ^ j
half_pow j = omega (arith, pow-suc 2 j)

-- `1 << j`.
pub test_bit-pow : (j k : ℕ) → test_bit (2 ^ j) k ≡ (j == k)
unfolding test_bit
test_bit-pow zero zero = refl
test_bit-pow zero (suc k) = ground (arith, test_bit-zero k)
test_bit-pow (suc j) zero = ground (arith, pow-suc 2 j)
test_bit-pow (suc j) (suc k) = ground (arith, half_pow j, test_bit-pow j k)

half_compl : (w a : ℕ) → compl (suc w) a / 2 ≡ compl w (a / 2)
half_compl w a = omega (arith, pow-suc 2 w)

pub test_bit-compl : (w a k : ℕ) → a < 2 ^ w → k < w → test_bit (compl w a) k ≡ not (test_bit a k)
unfolding test_bit
test_bit-compl zero a k h lt = absurd (omega arith)
test_bit-compl (suc w) a zero h lt = ground (arith, pow-suc 2 w)
test_bit-compl (suc w) a (suc k) h lt =
    rw (half_compl w a) (test_bit-compl w (a / 2) k (omega (arith, pow-suc 2 w)) (omega arith))

-- A word has no bit from its width on.
pub test_bit_of_lt : (w a k : ℕ) → a < 2 ^ w → w ≤ k → test_bit a k ≡ false
unfolding test_bit
test_bit_of_lt zero zero k h le = test_bit-zero k
test_bit_of_lt zero (suc a) k h le = absurd (omega arith)
test_bit_of_lt (suc w) a zero h le = absurd (omega arith)
test_bit_of_lt (suc w) a (suc k) h le =
    test_bit_of_lt w (a / 2) k (omega (arith, pow-suc 2 w)) (omega arith)

parity : (a b : ℕ) → (a % 2 == 1) ≡ (b % 2 == 1) → a % 2 ≡ b % 2
parity a b h = ground arith

-- Two words of one width with the same bits are equal.
pub eq_of_bits :
    (w a b : ℕ) → a < 2 ^ w → b < 2 ^ w → ((k : ℕ) → k < w → test_bit a k ≡ test_bit b k) → a ≡ b
unfolding test_bit
eq_of_bits zero a b ha hb h = omega arith
eq_of_bits (suc w) a b ha hb h = omega (
  arith,
  parity a b (h 0 (omega arith)),
  eq_of_bits w (a / 2) (b / 2) (omega (arith, pow-suc 2 w)) (omega (arith, pow-suc 2 w))
      (λ k lt. h (suc k) (omega arith)),
)

pub bit_and-lt : (w a b : ℕ) → a < 2 ^ w → bit_and a b < 2 ^ w
bit_and-lt zero zero b h = omega (arith, bit_and-bitwise 0 b)
bit_and-lt zero (suc a) b h = absurd (omega arith)
bit_and-lt (suc w) a b h =
    omega (
      arith,
      pow-suc 2 w,
      and_digits a b,
      bit_and-lt w (a / 2) (b / 2) (omega (arith, pow-suc 2 w)),
    )

pub bit_or-lt : (w a b : ℕ) → a < 2 ^ w → b < 2 ^ w → bit_or a b < 2 ^ w
bit_or-lt zero zero b ha hb = omega (arith, bit_or-bitwise 0 b)
bit_or-lt zero (suc a) b ha hb = absurd (omega arith)
bit_or-lt (suc w) a b ha hb = omega (
  arith,
  pow-suc 2 w,
  or_digits a b,
  bit_or-lt w (a / 2) (b / 2) (omega (arith, pow-suc 2 w)) (omega (arith, pow-suc 2 w)),
)

pub compl-lt : (w a : ℕ) → compl w a < 2 ^ w
compl-lt w a = omega (arith, one-le-pow w 2)

half_mul : (k d : ℕ) → d * 2 ^ suc k / 2 ≡ d * 2 ^ k
half_mul k d = omega (arith, ap (λ (t : ℕ). d * t) (pow-suc 2 k))

-- `a | (d << k)` where `a` fits below bit `k`.
pub bit_or-disjoint : (k a d : ℕ) → a < 2 ^ k → bit_or a (d * 2 ^ k) ≡ a + d * 2 ^ k
bit_or-disjoint zero zero d h = omega (arith, bit_or-bitwise 0 (d * 1))
bit_or-disjoint zero (suc a) d h = absurd (omega arith)
bit_or-disjoint (suc k) a d h = omega (
  arith,
  pow-suc 2 k,
  ap (λ (t : ℕ). d * t) (pow-suc 2 k),
  or_digits a (d * 2 ^ suc k),
  ap (λ (t : ℕ). bit_or (a / 2) t) (half_mul k d),
  bit_or-disjoint k (a / 2) d (omega (arith, pow-suc 2 k)),
)

bit_and-zero_right : (k a : ℕ) → a < 2 ^ k → bit_and a 0 ≡ 0
bit_and-zero_right zero zero h = refl
bit_and-zero_right zero (suc a) h = absurd (omega arith)
bit_and-zero_right (suc k) a h =
    omega (arith, and_digits a 0, bit_and-zero_right k (a / 2) (omega (arith, pow-suc 2 k)))

lt-two_pow : (a : ℕ) → a < 2 ^ a
lt-two_pow zero = omega arith
lt-two_pow (suc a) = omega (arith, pow-suc 2 a, lt-two_pow a)

-- `a & 0x3f`.
pub bit_and-0x3f : (a : ℕ) → bit_and a 0x3f ≡ a % 64
bit_and-0x3f a = omega (
  arith,
  and_digits a 63,
  and_digits (a / 2) 31,
  and_digits (a / 2 / 2) 15,
  and_digits (a / 2 / 2 / 2) 7,
  and_digits (a / 2 / 2 / 2 / 2) 3,
  and_digits (a / 2 / 2 / 2 / 2 / 2) 1,
  bit_and-zero_right (a / 2 / 2 / 2 / 2 / 2 / 2) (a / 2 / 2 / 2 / 2 / 2 / 2)
      (lt-two_pow (a / 2 / 2 / 2 / 2 / 2 / 2)),
)

pub bit_and-zero : (a : ℕ) → bit_and a 0 ≡ 0
bit_and-zero a = bit_and-zero_right a a (lt-two_pow a)

pub half-two_pow : (k : ℕ) → (2 ^ suc k / 2 ≡ 2 ^ k) × (2 ^ suc k % 2 ≡ 0)
half-two_pow k = omega (arith, pow-suc 2 k)

pub bit_xor-lt : (w a b : ℕ) → a < 2 ^ w → b < 2 ^ w → bit_xor a b < 2 ^ w
bit_xor-lt zero zero b ha hb = omega (arith, bit_xor-bitwise 0 b)
bit_xor-lt zero (suc a) b ha hb = absurd (omega arith)
bit_xor-lt (suc w) a b ha hb = omega (
  arith,
  pow-suc 2 w,
  xor_digits a b,
  xor_digit a b,
  bit_xor-lt w (a / 2) (b / 2) (omega (arith, pow-suc 2 w)) (omega (arith, pow-suc 2 w)),
)
