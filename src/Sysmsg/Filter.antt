-- ===== src/Sysmsg/Filter.antt =====
-- sys/msg/sysmsg.c: the filter as 128 counters that stop at 15.
use native.Mathlib.Nat.{one-le-pow}
use sneks.Base.{
  ℕ, zero, suc, ◌+◌, ◌-◌, ◌*◌, ◌/◌, ◌%◌, ◌^◌, ◌≤◌, ◌<◌, ◌≡◌, ◌≢◌, refl, sym, ap, ◌∙◌, not, ◌&&◌,
  List, ◌==◌, ltb, if◌then◌else◌, arith, bit_and, Bool-cases, ==_iff, inl, inr, min, length, get_or,
  set, length-set, get_or-set_self, get_or-set_ne,
}
use sneks.Sysmsg.{filter_inc, filter_dec, limb_of, limb_at, offs_of, in_slot}
use sneks.Sysmsg.Digits.{
  digit, digit-lt, digit-add, digit-sub, digit-room, field-digit, masked-digit, bit_and-0xf,
  digit-shifted,
}

-- What a slot counts.
unfoldable pub counter : List ℕ → ℕ → ℕ
counter filter slot = digit (limb_at filter slot) (slot % 8)

-- Sixteen 32-bit words.
abbrev pub IsFilter : List ℕ → Type 0
IsFilter filter = (length filter ≡ 16) × ((i : ℕ) → get_or filter i 0 < 2 ^ 32)

set-IsFilter :
    (filter : List ℕ) (i v : ℕ) → IsFilter filter → i < 16 → v < 2 ^ 32 → IsFilter (set filter i v)
set-IsFilter filter i v (len, words) h small = (
  length-set filter i v ∙ len,
  λ j. elim (Bool-cases (i == j)) [
    | inl at ↦ ground (arith, (==_iff i j).0 at, get_or-set_self filter i v 0)
    | inr off ↦ ground (arith, words j, get_or-set_ne filter i j v 0)
  ],
)

-- Which counter a change of one limb changes.
counter-set_same :
    (filter : List ℕ) (slot j v : ℕ)
    → IsFilter filter
    → slot < 128
    → limb_of slot ≡ limb_of j
    → counter (set filter (limb_of slot) v) j ≡ digit v (j % 8)
unfolding counter
counter-set_same filter slot j v (len, words) h e =
    rw (sym e, get_or-set_self filter (limb_of slot) v 0 (omega arith)) refl

counter-set_other :
    (filter : List ℕ) (slot j v : ℕ)
    → limb_of slot ≢ limb_of j
    → counter (set filter (limb_of slot) v) j ≡ counter filter j
unfolding counter
counter-set_other filter slot j v e =
    rw (get_or-set_ne filter (limb_of slot) (limb_of j) v 0 e) refl

inc_small :
    (filter : List ℕ) (slot : ℕ)
    → IsFilter filter
    → counter filter slot < 15
    → limb_at filter slot + 2 ^ offs_of slot < 2 ^ 32
unfolding counter
inc_small filter slot (len, words) room =
    digit-room 8 (limb_at filter slot) (slot % 8) (words (limb_of slot)) (omega arith) room

same_slot : (slot j : ℕ) → slot / 8 ≡ j / 8 → (slot % 8 == j % 8) ≡ (j == slot)
same_slot slot j e = ground arith

-- A change of the word of a slot, in terms of the fields of the new word.
set-counter :
    (filter : List ℕ) (slot j v : ℕ)
    → IsFilter filter
    → slot < 128
    → counter (set filter (limb_of slot) v) j
      ≡ (if limb_of slot == limb_of j then digit v (j % 8) else counter filter j)
set-counter filter slot j v valid h = elim (Bool-cases (limb_of slot == limb_of j)) [
  | inl at ↦
      rw at (counter-set_same filter slot j v valid h ((==_iff (limb_of slot) (limb_of j)).0 at))
  | inr off ↦
      rw off (counter-set_other filter slot j v (ground (arith, ==_iff (limb_of slot) (limb_of j))))
]

counter-here :
    (filter : List ℕ) (slot j : ℕ)
    → limb_of slot ≡ limb_of j
    → digit (limb_at filter slot) (j % 8) ≡ counter filter j
unfolding counter
counter-here filter slot j e = rw e refl

inc-counter :
    (filter : List ℕ) (slot j : ℕ)
    → IsFilter filter
    → slot < 128
    → counter filter slot < 15
    → counter (set filter (limb_of slot) (limb_at filter slot + 2 ^ offs_of slot)) j
      ≡ (if j == slot then min 15 (counter filter j + 1) else counter filter j)
inc-counter filter slot j valid h room = ground (
  arith,
  set-counter filter slot j (limb_at filter slot + 2 ^ offs_of slot) valid h,
  counter-here filter slot j,
  counter-here filter slot slot refl,
  digit-add (limb_at filter slot) (slot % 8) (j % 8),
  same_slot slot j,
)

dec-counter :
    (filter : List ℕ) (slot j : ℕ)
    → IsFilter filter
    → slot < 128
    → 0 < counter filter slot
    → counter filter slot < 15
    → counter (set filter (limb_of slot) (limb_at filter slot - 2 ^ offs_of slot)) j
      ≡ (if j == slot then counter filter j - 1 else counter filter j)
dec-counter filter slot j valid h more room = ground (
  arith,
  set-counter filter slot j (limb_at filter slot - 2 ^ offs_of slot) valid h,
  counter-here filter slot j,
  counter-here filter slot slot refl,
  digit-sub (limb_at filter slot) (slot % 8) (j % 8),
  same_slot slot j,
)

pub counter_le : (filter : List ℕ) (slot : ℕ) → counter filter slot ≤ 15
unfolding counter
counter_le filter slot = omega (arith, digit-lt (limb_at filter slot) (slot % 8))

-- The two tests, on the count.
field :
    (filter : List ℕ) (slot : ℕ)
    → bit_and (limb_at filter slot / 2 ^ offs_of slot) 0xf ≡ counter filter slot
unfolding counter
field filter slot = field-digit (limb_at filter slot) (slot % 8)

next_field :
    (filter : List ℕ) (slot : ℕ)
    → bit_and (limb_at filter slot / 2 ^ offs_of slot + 1) 0xf ≡ (counter filter slot + 1) % 16
unfolding counter
next_field filter slot = omega (
  arith,
  bit_and-0xf (limb_at filter slot / 2 ^ offs_of slot + 1),
  digit-shifted (limb_at filter slot) (slot % 8),
)

no_wrap : (a : ℕ) → a < 2 ^ 32 → a % 2 ^ 32 ≡ a
no_wrap a h = omega arith

-- filter_inc() counts one more in the slot, up to 15, and leaves the other slots; it says whether
-- this made the count 15.
pub filter_inc-counter :
    (filter : List ℕ) (slot : ℕ)
    → IsFilter filter
    → slot < 128
    → IsFilter (filter_inc filter slot).0
      × ((filter_inc filter slot).1 ≡ (counter filter slot == 14))
      × ((j : ℕ)
          → counter (filter_inc filter slot).0 j
            ≡ (if j == slot then min 15 (counter filter j + 1) else counter filter j))
unfolding filter_inc
filter_inc-counter filter slot valid h =
    rw (field filter slot) (elim (Bool-cases (ltb (counter filter slot) 15)) [
      | inl room ↦
          rw
            (
              room,
              no_wrap (limb_at filter slot + 2 ^ offs_of slot)
                  (inc_small filter slot valid (ground arith)),
            )
            (
              set-IsFilter filter (limb_of slot) _ valid (omega arith)
                  (inc_small filter slot valid (ground arith)),
              refl,
              λ j. inc-counter filter slot j valid h (ground arith),
            )
      | inr full ↦ rw full (valid, refl, λ j. ground (arith, counter_le filter slot, ==_iff j slot))
    ])

-- filter_dec() counts one less in the slot where the count is neither 0 nor 15, and changes nothing
-- else.
pub filter_dec-counter :
    (filter : List ℕ) (slot : ℕ)
    → IsFilter filter
    → slot < 128
    → IsFilter (filter_dec filter slot)
      × ((j : ℕ)
          → counter (filter_dec filter slot) j ≡ (
              if j == slot && ltb (counter filter j) 15
              then counter filter j - 1
              else counter filter j))
unfolding filter_dec
filter_dec-counter filter slot valid h =
    rw (next_field filter slot) (elim (Bool-cases (ltb 1 ((counter filter slot + 1) % 16))) [
      | inl less ↦ rw less (
        set-IsFilter filter (limb_of slot) _ valid (omega arith)
            (omega (arith, valid.1 (limb_of slot))),
        λ j.
            ground
              (arith, dec-counter filter slot j valid h, counter_le filter slot, ==_iff j slot),
      )
      | inr kept ↦ rw kept (valid, λ j. ground (arith, counter_le filter slot, ==_iff j slot))
    ])

zero_product : (a b : ℕ) → 1 ≤ b → (a * b == 0) ≡ (a == 0)
zero_product zero b h = ground arith
zero_product (suc a) b h = ground (arith, product_le a b)
  where
    product_le : (a b : ℕ) → b ≤ suc a * b
    product_le a b = omega arith

pub in_slot-counter :
    (filter : List ℕ) (slot : ℕ) → in_slot filter slot ≡ not (counter filter slot == 0)
unfolding counter
in_slot-counter filter slot = rw (masked-digit (limb_at filter slot) (slot % 8)) (
    ap not (
      zero_product (digit (limb_at filter slot) (slot % 8)) (2 ^ offs_of slot)
        (one-le-pow (offs_of slot) 2 (omega arith))))
