-- ===== src/Lifecycle/Control.antt =====
-- The control word of the event queue (sys/io/io.c), put together from its fields.
use sneks.Base.{
  ℕ, ◌+◌, ◌*◌, ◌/◌, ◌^◌, ◌<◌, bit_and, bit_or, ◌≡◌, ap, ◌∙◌, false, true, arith, has_bit,
  has_bit-eq, test_bit_of_lt, bit_and-low, bit_and-high, bit_or-disjoint, bit_or_comm,
}

-- Read position `r` and write position `w`, below 1024 each.
abbrev pub word : ℕ → ℕ → ℕ
word r w = r * 2 ^ 10 + w

pub word-read : (r w : ℕ) → w < 128 → word r w / 2 ^ 10 ≡ r
word-read r w h = omega arith

pub word-write : (r w : ℕ) → w < 128 → bit_and (word r w) 0x3ff ≡ w
word-write r w h = bit_and-low 10 r w (omega arith)

pub word-unflagged : (r w : ℕ) → r < 128 → w < 128 → has_bit (word r w) 20 ≡ false
word-unflagged r w hr hw =
    has_bit-eq (word r w) 20 ∙ test_bit_of_lt 20 (word r w) 20 (omega arith) (omega arith)

pub word-flag : (r w : ℕ) → r < 128 → w < 128 → bit_or (word r w) (2 ^ 20) ≡ word (2 ^ 10 + r) w
word-flag r w hr hw = omega (arith, bit_or-disjoint 20 (word r w) 1 (omega arith))

pub word-flagged : (r w : ℕ) → r < 128 → w < 128 → has_bit (word (2 ^ 10 + r) w) 20 ≡ true
word-flagged r w hr hw = ground (arith, bit_and-high 20 1 (word r w) 1 (omega arith))

word-low : (r : ℕ) → r < 128 → bit_and r 0x3ff ≡ r
word-low r h = ap (λ (t : ℕ). bit_and t 0x3ff) (omega arith) ∙ bit_and-low 10 0 r (omega arith)

-- What the handler stores: the old read position and the new write position.
pub word-advance :
    (r w w' : ℕ)
    → r < 128
    → w < 128
    → w' < 128
    → bit_or (bit_and (word r w) (0x3ff * 2 ^ 10)) w' ≡ word r w'
word-advance r w w' hr hw hw' = omega (
  arith,
  ap (λ (t : ℕ). bit_or t w') (bit_and-high 10 r w 0x3ff (omega arith)),
  ap (λ (t : ℕ). bit_or (t * 2 ^ 10) w') (word-low r hr),
  bit_or_comm (r * 2 ^ 10) w',
  bit_or-disjoint 10 w' r (omega arith),
)

-- What lifecycle_sync() stores: the new read position and the old write position.
pub word-consume :
    (r w r' : ℕ) → w < 128 → bit_or (r' * 2 ^ 10) (bit_and (word r w) 0x3ff) ≡ word r' w
word-consume r w r' hw = omega (
  arith,
  ap (λ (t : ℕ). bit_or (r' * 2 ^ 10) t) (word-write r w hw),
  bit_or_comm (r' * 2 ^ 10) w,
  bit_or-disjoint 10 w r' (omega arith),
)

word-low_flagged : (r : ℕ) → r < 128 → bit_and (2 ^ 10 + r) 0x3ff ≡ r
word-low_flagged r h =
    ap (λ (t : ℕ). bit_and t 0x3ff) (omega arith) ∙ bit_and-low 10 1 r (omega arith)

-- What the handler stores when it has read the overflow bit: the bit is gone.
pub word-forget :
    (r w w' : ℕ)
    → r < 128
    → w < 128
    → w' < 128
    → bit_or (bit_and (word (2 ^ 10 + r) w) (0x3ff * 2 ^ 10)) w' ≡ word r w'
word-forget r w w' hr hw hw' = omega (
  arith,
  ap (λ (t : ℕ). bit_or t w') (bit_and-high 10 (2 ^ 10 + r) w 0x3ff (omega arith)),
  ap (λ (t : ℕ). bit_or (t * 2 ^ 10) w') (word-low_flagged r hr),
  bit_or_comm (r * 2 ^ 10) w',
  bit_or-disjoint 10 w' r (omega arith),
)
