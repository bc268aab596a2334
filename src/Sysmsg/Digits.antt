-- ===== src/Sysmsg/Digits.antt =====
-- The four-bit fields of a 32-bit word, as sys/msg/sysmsg.c reads and changes them.
use native.Mathlib.Nat.{pow-suc, one-le-pow, div-div-eq-div-mul, div-add-mod', mod-lt}
use sneks.Base.{
  ℕ, zero, suc, ◌+◌, ◌-◌, ◌*◌, ◌/◌, ◌%◌, ◌^◌, ◌≤◌, ◌<◌, ◌≡◌, sym, ap, ◌∙◌, ◌==◌, if◌then◌else◌,
  arith, bit_and, bit_and-low, bit_and-high,
}

-- Field `k` of a word.
unfoldable pub digit : ℕ → ℕ → ℕ
digit w zero = w % 16
digit w (suc k) = digit (w / 16) k

pow_16 : (k : ℕ) → 2 ^ (suc k * 4) ≡ 16 * 2 ^ (k * 4)
pow_16 k = omega (
  arith,
  ap (λ (t : ℕ). 2 ^ t) (omega' k),
  pow-suc 2 (k * 4 + 3),
  pow-suc 2 (k * 4 + 2),
  pow-suc 2 (k * 4 + 1),
  pow-suc 2 (k * 4),
  ap (λ (t : ℕ). 2 ^ t) (o1 k),
  ap (λ (t : ℕ). 2 ^ t) (o2 k),
  ap (λ (t : ℕ). 2 ^ t) (o3 k),
)
  where
    omega' : (k : ℕ) → suc k * 4 ≡ suc (k * 4 + 3)
    omega' k = omega arith

    o1 : (k : ℕ) → k * 4 + 3 ≡ suc (k * 4 + 2)
    o1 k = omega arith

    o2 : (k : ℕ) → k * 4 + 2 ≡ suc (k * 4 + 1)
    o2 k = omega arith

    o3 : (k : ℕ) → k * 4 + 1 ≡ suc (k * 4)
    o3 k = omega arith

pub digit-lt : (w k : ℕ) → digit w k < 16
unfolding digit
digit-lt w zero = omega arith
digit-lt w (suc k) = digit-lt (w / 16) k

-- `w >> 4 * k`.
pub digit-shifted : (w k : ℕ) → w / 2 ^ (k * 4) % 16 ≡ digit w k
unfolding digit
digit-shifted w zero = omega arith
digit-shifted w (suc k) = rw (pow_16 k) (
    ap (λ (t : ℕ). t % 16) (sym (div-div-eq-div-mul w 16 (2 ^ (k * 4)))) ∙ digit-shifted (w / 16) k)

-- Adding to a field that is not full, and taking from one that is not empty.
pub digit-add :
    (w k j : ℕ) → digit w k < 15 → digit (w + 2 ^ (k * 4)) j ≡ digit w j + (if k == j then 1 else 0)
unfolding digit
digit-add w zero zero h = omega arith
digit-add w zero (suc j) h = ground (arith, ap (λ (t : ℕ). digit t j) (same w h))
  where
    same : (w : ℕ) → w % 16 < 15 → (w + 1) / 16 ≡ w / 16
    same w h = omega arith
digit-add w (suc k) zero h = ground (arith, pow_16 k)
digit-add w (suc k) (suc j) h =
    ground (arith, ap (λ (t : ℕ). digit t j) (half (pow_16 k)), digit-add (w / 16) k j h)
  where
    half : 2 ^ (suc k * 4) ≡ 16 * 2 ^ (k * 4) → (w + 2 ^ (suc k * 4)) / 16 ≡ w / 16 + 2 ^ (k * 4)
    half e = omega (arith, e)

pub digit-le : (w k : ℕ) → 0 < digit w k → 2 ^ (k * 4) ≤ w
unfolding digit
digit-le w zero h = omega arith
digit-le w (suc k) h = omega (arith, pow_16 k, digit-le (w / 16) k h)

pub digit-sub :
    (w k j : ℕ) → 0 < digit w k → digit (w - 2 ^ (k * 4)) j + (if k == j then 1 else 0) ≡ digit w j
unfolding digit
digit-sub w zero zero h = omega arith
digit-sub w zero (suc j) h = ground (arith, ap (λ (t : ℕ). digit t j) (same w h))
  where
    same : (w : ℕ) → 0 < w % 16 → (w - 1) / 16 ≡ w / 16
    same w h = omega arith
digit-sub w (suc k) zero h = ground (arith, pow_16 k, digit-le (w / 16) k h)
digit-sub w (suc k) (suc j) h =
    ground (arith, ap (λ (t : ℕ). digit t j) (half (pow_16 k)), digit-sub (w / 16) k j h)
  where
    half : 2 ^ (suc k * 4) ≡ 16 * 2 ^ (k * 4) → (w - 2 ^ (suc k * 4)) / 16 ≡ w / 16 - 2 ^ (k * 4)
    half e = omega (arith, e)

-- `x & 0xf`.
pub bit_and-0xf : (x : ℕ) → bit_and x 0xf ≡ x % 16
bit_and-0xf x = omega (
  arith,
  ap (λ (t : ℕ). bit_and t 0xf) (div-add-mod' x 16),
  bit_and-low 4 (x / 16) (x % 16) (omega arith),
)

pub field-digit : (w k : ℕ) → bit_and (w / 2 ^ (k * 4)) 0xf ≡ digit w k
field-digit w k = bit_and-0xf (w / 2 ^ (k * 4)) ∙ digit-shifted w k

-- `w & 0xf << 4 * k`.
pub masked-digit : (w k : ℕ) → bit_and w (0xf * 2 ^ (k * 4)) ≡ digit w k * 2 ^ (k * 4)
masked-digit w k = omega (
  arith,
  ap (λ (t : ℕ). bit_and t (0xf * 2 ^ (k * 4))) (div-add-mod' w (2 ^ (k * 4))),
  bit_and-high (k * 4) (w / 2 ^ (k * 4)) (w % 2 ^ (k * 4)) 0xf
      (mod-lt w (one-le-pow (k * 4) 2 (omega arith))),
  ap (λ (t : ℕ). t * 2 ^ (k * 4)) (field-digit w k),
)

-- A field that is not full leaves room for one more in a word.
pub digit-room :
    (n w k : ℕ) → w < 2 ^ (n * 4) → k < n → digit w k < 15 → w + 2 ^ (k * 4) < 2 ^ (n * 4)
unfolding digit
digit-room zero w k h below room = absurd (omega arith)
digit-room (suc n) w zero h below room = omega (arith, pow_16 n)
digit-room (suc n) w (suc k) h below room = omega (
  arith,
  pow_16 n,
  pow_16 k,
  digit-room n (w / 16) k (omega (arith, pow_16 n)) (omega arith) room,
)
