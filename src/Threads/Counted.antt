-- ===== src/Threads/Counted.antt =====
-- root/uapi.c: allocate_thread() keeps each count the number of set bits of its map.
use sneks.Base.{
  ℕ, zero, suc, ◌+◌, ◌-◌, ◌≤◌, ◌<◌, ◌≡◌, inl, inr, refl, Bool, true, false, not, ◌&&◌, ltb, ◌==◌,
  arith, if◌then◌else◌, Bool-cases, ==_iff,
}
use sneks.Threads.{ThreadIds, Bitmap}
use sneks.Threads.Alloc.{burn, uapi_init, Numbers, tnos_per_bitmap, take_number}

-- How many of the first `n` bits are set.
unfoldable pub count : (ℕ → Bool) → ℕ → ℕ
count f zero = 0
count f (suc n) = count f n + (if f n then 1 else 0)

pub count_le : (f : ℕ → Bool) (n : ℕ) → count f n ≤ n
unfolding count
count_le f zero = omega arith
count_le f (suc n) = ground (arith, count_le f n)

pub count_ext : (f g : ℕ → Bool) (n : ℕ) → ((j : ℕ) → j < n → f j ≡ g j) → count f n ≡ count g n
unfolding count
count_ext f g zero same = refl
count_ext f g (suc n) same =
    ground (arith, count_ext f g n (λ j h. same j (omega arith)), same n (omega arith))

-- Setting one bit that is not set adds one.
pub count_set :
    (f g : ℕ → Bool) (n k : ℕ)
    → k < n
    → f k ≡ false
    → ((j : ℕ) → g j ≡ (if k == j then true else f j))
    → count g n ≡ count f n + 1
unfolding count
count_set f g zero k h e new = absurd (omega arith)
count_set f g (suc n) k h e new = elim (Bool-cases (k == n)) [
  | inl at ↦ ground (arith, count_ext f g n (λ j below. ground (arith, new j)), new n)
  | inr off ↦ ground (arith, count_set f g n k (ground arith) e new, new n)
]

-- A map with one bit clear has not all numbers free.
pub count_lt : (f : ℕ → Bool) (n k : ℕ) → k < n → f k ≡ false → count f n < n
unfolding count
count_lt f zero k h clear = absurd (omega arith)
count_lt f (suc n) k h clear = elim (Bool-cases (k == n)) [
  | inl at ↦ ground (arith, (==_iff k n).0 at, count_le f n)
  | inr off ↦ ground (arith, count_lt f n k (ground arith) clear)
]

pub count_zero : (f : ℕ → Bool) (n : ℕ) → ((j : ℕ) → j < n → f j ≡ false) → count f n ≡ 0
unfolding count
count_zero f zero clear = refl
count_zero f (suc n) clear =
    ground (arith, count_zero f n (λ j h. clear j (omega arith)), clear n (omega arith))

-- Bits of which exactly those from `k` on are set.
count_from :
    (f : ℕ → Bool) (n k : ℕ)
    → ((j : ℕ) → j < k → f j ≡ false)
    → ((j : ℕ) → k ≤ j → j < n → f j ≡ true)
    → count f n ≡ n - k
unfolding count
count_from f zero k clear ones = omega arith
count_from f (suc n) k clear ones = elim (Bool-cases (ltb n k)) [
  | inl low ↦
      ground (
        arith,
        count_from f n k clear (λ j h below. ones j h (omega arith)),
        clear n (ground arith),
      )
  | inr high ↦ ground (
    arith,
    count_from f n k clear (λ j h below. ones j h (omega arith)),
    ones n (ground arith) (omega arith),
  )
]

module _ {T M : Type 0} (ids : ThreadIds T) (bm : Bitmap M) where
  -- Each of the four counts is the number of free thread numbers of its map.
  abbrev pub Counted : Numbers M → Type 0
  Counted s = (m : ℕ) → m < 4 → s.counts m ≡ count (bm.bit (s.maps m)) tnos_per_bitmap

  abbrev pub SameNumbers : Numbers M → Numbers M → Type 0
  SameNumbers s t =
      (m : ℕ)
      → m < 4
      → (t.counts m ≡ s.counts m) × ((j : ℕ) → bm.bit (t.maps m) j ≡ bm.bit (s.maps m) j)

  -- The free numbers of `t` are those of `s` without number `bit` of map `map`.
  abbrev pub Without : Numbers M → (map bit : ℕ) → Numbers M → Type 0
  Without s map bit t =
      (m : ℕ)
      → m < 4
      → (j : ℕ) → bm.bit (t.maps m) j ≡ bm.bit (s.maps m) j && not (map == m && bit == j)

  pub take_number-Without :
      (s : Numbers M) (map bit : ℕ) → Without s map bit (take_number ids bm map bit s)
  unfolding take_number
  take_number-Without s map bit m h j = ground (arith, bm.bit-clear_bit (s.maps map) bit j)

  pub restored :
      (x : M) (bit j : ℕ)
      → bm.bit x bit ≡ true
      → bm.bit x j ≡ (if bit == j then true else bm.bit (bm.clear_bit x bit) j)
  restored x bit j free = elim (Bool-cases (bit == j)) [
    | inl at ↦ ground (arith, (==_iff bit j).0 at)
    | inr off ↦ ground (arith, bm.bit-clear_bit x bit j)
  ]

  pub count_cleared :
      (x : M) (bit : ℕ)
      → bit < tnos_per_bitmap
      → bm.bit x bit ≡ true
      → count (bm.bit x) tnos_per_bitmap ≡ count (bm.bit (bm.clear_bit x bit)) tnos_per_bitmap + 1
  count_cleared x bit h free =
      count_set (bm.bit (bm.clear_bit x bit)) (bm.bit x) tnos_per_bitmap bit h
        (ground (arith, bm.bit-clear_bit x bit bit)) (λ j. restored x bit j free)

  pub take_number-Counted :
      (s : Numbers M) (map bit : ℕ)
      → bit < tnos_per_bitmap
      → bm.bit (s.maps map) bit ≡ true
      → Counted s
      → Counted (take_number ids bm map bit s)
  unfolding take_number
  take_number-Counted s map bit h free counted m small = elim (Bool-cases (map == m)) [
    | inl at ↦
        ground (arith, counted m small, (==_iff map m).0 at, count_cleared (s.maps map) bit h free)
    | inr off ↦ ground (arith, counted m small)
  ]

  bit-burn : (x : M) (i j : ℕ) → bm.bit (burn ids bm i x) j ≡ bm.bit x j && not (ltb j i)
  unfolding burn
  bit-burn x zero j = ground arith
  bit-burn x (suc i) j = ground (arith, bm.bit-clear_bit (burn ids bm i x) i j, bit-burn x i j)

  -- uapi_init() starts with counts that are right.
  pub uapi_init-Counted :
      (full : M)
      → ((j : ℕ) → j < tnos_per_bitmap → bm.bit full j ≡ true)
      → Counted (uapi_init ids bm full)
  unfolding uapi_init
  uapi_init-Counted full ones m h = elim (Bool-cases (0 == m)) [
    | inl at ↦ ground (
      arith,
      (==_iff 0 m).0 at,
      count_from (bm.bit (burn ids bm 512 full)) tnos_per_bitmap 512
          (λ j below. ground (arith, bit-burn full 512 j))
          (λ j low below. ground (arith, bit-burn full 512 j, ones j below)),
    )
    | inr off ↦ ground (
      arith,
      count_from (bm.bit full) tnos_per_bitmap 0 (λ j below. absurd (omega arith))
          (λ j low below. ones j below),
    )
  ]
