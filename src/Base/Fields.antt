-- ===== src/Base/Fields.antt =====
-- Bit fields of a word: `a & ((1 << k) - 1)` and `a & (m << k)`.
use Prim.Native.Nat.{ℕ, zero, suc, ◌+◌, ◌-◌, ◌*◌, ◌/◌, ◌^◌, ◌<◌, ◌≤◌, bit_and, bit_or, max}
use mathlib.Core.Path.{◌≡◌, refl, ap}
use native.Mathlib.Nat.{pow-suc, one-le-pow}
use native.Mathlib.Omega.{arith}
use sneks.Base.Bits.{and_digits, or_digits, bit_and-zero}

double : (k m : ℕ) → m * 2 ^ suc k ≡ 2 * (m * 2 ^ k)
double k m = omega (arith, ap (λ (t : ℕ). m * t) (pow-suc 2 k))

half_field : (k q r : ℕ) → (q * 2 ^ suc k + r) / 2 ≡ q * 2 ^ k + r / 2
half_field k q r = omega (arith, double k q)

half_product : (k m : ℕ) → m * 2 ^ suc k / 2 ≡ m * 2 ^ k
half_product k m = omega (arith, double k m)

half_ones : (k : ℕ) → (2 ^ suc k - 1) / 2 ≡ 2 ^ k - 1
half_ones k = omega (arith, pow-suc 2 k, one-le-pow k 2)

-- The low `k` bits.
pub bit_and-low : (k q r : ℕ) → r < 2 ^ k → bit_and (q * 2 ^ k + r) (2 ^ k - 1) ≡ r
bit_and-low zero q r h = omega (arith, bit_and-zero (q * 1 + r))
bit_and-low (suc k) q r h = omega (
  arith,
  and_digits (q * 2 ^ suc k + r) (2 ^ suc k - 1),
  ap (λ (t : ℕ). bit_and t ((2 ^ suc k - 1) / 2)) (half_field k q r),
  ap (λ (t : ℕ). bit_and (q * 2 ^ k + r / 2) t) (half_ones k),
  bit_and-low k q (r / 2) (omega (arith, pow-suc 2 k)),
  double k q,
  pow-suc 2 k,
  one-le-pow k 2,
)

unit : (q : ℕ) → q * 2 ^ 0 ≡ q
unit q = omega arith

plain : (q : ℕ) → q + 0 ≡ q
plain q = omega arith

-- The bits from `k` on.
pub bit_and-high :
    (k q r m : ℕ) → r < 2 ^ k → bit_and (q * 2 ^ k + r) (m * 2 ^ k) ≡ bit_and q m * 2 ^ k
bit_and-high zero q zero m h = simp (unit, plain) (omega arith)
bit_and-high zero q (suc r) m h = absurd (omega arith)
bit_and-high (suc k) q r m h = omega (
  arith,
  and_digits (q * 2 ^ suc k + r) (m * 2 ^ suc k),
  ap (λ (t : ℕ). bit_and t (m * 2 ^ suc k / 2)) (half_field k q r),
  ap (λ (t : ℕ). bit_and (q * 2 ^ k + r / 2) t) (half_product k m),
  bit_and-high k q (r / 2) m (omega (arith, pow-suc 2 k)),
  double k q,
  double k m,
  double k (bit_and q m),
  pow-suc 2 k,
)

bit_or_comm_upto : (n a b : ℕ) → a ≤ n → b ≤ n → bit_or a b ≡ bit_or b a
bit_or_comm_upto zero zero zero p q = refl
bit_or_comm_upto zero zero (suc b) p q = absurd (omega arith)
bit_or_comm_upto zero (suc a) b p q = absurd (omega arith)
bit_or_comm_upto (suc n) a b p q = omega (
  arith,
  or_digits a b,
  or_digits b a,
  bit_or_comm_upto n (a / 2) (b / 2) (omega arith) (omega arith),
)

pub bit_or_comm : (a b : ℕ) → bit_or a b ≡ bit_or b a
bit_or_comm a b = bit_or_comm_upto (max a b) a b (omega arith) (omega arith)
