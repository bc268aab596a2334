-- ===== src/Radix64/RoundTrip.antt =====
-- a64l() reads back what l64a() writes.
use native.Mathlib.Nat.{mod-eq_of_lt}
use native.Mathlib.Numerals.{towards_suc}
use sneks.Base.{
  ℕ, zero, suc, ◌+◌, ◌*◌, ◌/◌, ◌%◌, ◌^◌, ◌<◌, ◌≡◌, refl, ap, ◌∙◌, ◌≢◌, ◌⊎◌, inl, inr, some, List,
  [], ◌∷◌, arith, length, get_or, set, drop, length-set, get_or-set_self, get_or-set_ne, bit_and,
  bit_or-disjoint, bit_and-0x3f,
}
use sneks.Radix64.{encode_byte, a64l_loop, a64l, l64a_loop, l64a}
use sneks.Radix64.Digits.{decode-encode}

-- What one round of l64a() leaves in the buffer.
abbrev stored : ℕ → ℕ → List ℕ → List ℕ
stored i v str = set (set str i (encode_byte (bit_and v 0x3f))) (suc i) 0

get_or-stored_before :
    (i v : ℕ) (str : List ℕ) (j : ℕ) → j < i → get_or (stored i v str) j 0 ≡ get_or str j 0
get_or-stored_before i v str j h = omega (
  arith,
  get_or-set_ne (set str i (encode_byte (bit_and v 0x3f))) (suc i) j 0 0 (omega arith),
  get_or-set_ne str i j (encode_byte (bit_and v 0x3f)) 0 (omega arith),
)

get_or-stored_self :
    (i v : ℕ) (str : List ℕ) → i < length str → get_or (stored i v str) i 0 ≡ encode_byte (v % 64)
get_or-stored_self i v str h = ground (
  arith,
  bit_and-0x3f v,
  get_or-set_ne (set str i (encode_byte (bit_and v 0x3f))) (suc i) i 0 0 (omega arith),
  get_or-set_self str i (encode_byte (bit_and v 0x3f)) 0 h,
)

length-stored : (i v : ℕ) (str : List ℕ) → length (stored i v str) ≡ length str
length-stored i v str = omega (
  arith,
  length-set (set str i (encode_byte (bit_and v 0x3f))) (suc i) 0,
  length-set str i (encode_byte (bit_and v 0x3f)),
)

-- The loop does not touch what it has already written.
l64a_loop-before :
    (left i v : ℕ) (str : List ℕ) (j : ℕ)
    → j < i
    → get_or (l64a_loop left i v str) j 0 ≡ get_or str j 0
unfolding l64a_loop
l64a_loop-before zero i v str j h = refl
l64a_loop-before (suc left) i v str j h = ground (
  arith,
  l64a_loop-before left (suc i) (v / 64) (stored i v str) j (omega arith),
  get_or-stored_before i v str j h,
)

length-l64a_loop : (left i v : ℕ) (str : List ℕ) → length (l64a_loop left i v str) ≡ length str
unfolding l64a_loop
length-l64a_loop zero i v str = refl
length-l64a_loop (suc left) i v str =
    ground (arith, length-l64a_loop left (suc i) (v / 64) (stored i v str), length-stored i v str)

drop-get_or : (i : ℕ) (xs : List ℕ) → i < length xs → drop i xs ≡ get_or xs i 0 ∷ drop (suc i) xs
drop-get_or zero [] h = absurd (omega arith)
drop-get_or zero (x ∷ xs) h = refl
drop-get_or (suc i) [] h = absurd (omega arith)
drop-get_or (suc i) (x ∷ xs) h = drop-get_or i xs (omega arith)

-- One round of a64l() on a character that l64a() wrote.
a64l_loop-encode :
    (left scale acc d : ℕ) (s : List ℕ)
    → d < 64
    → acc < 2 ^ scale
    → d * 2 ^ scale < 2 ^ 32
    → a64l_loop (suc left) scale acc (encode_byte d ∷ s)
      ≡ a64l_loop left (scale + 6) (acc + d * 2 ^ scale) s
unfolding a64l_loop
a64l_loop-encode left scale acc d s small fit room =
    ground (arith, decode-encode d small, mod-eq_of_lt room, bit_or-disjoint scale acc d fit)

pow_six : (s : ℕ) → 2 ^ (s + 6) ≡ 64 * 2 ^ s
pow_six s = simp towards_suc (omega arith)

-- `v` in front of bit `scale`: its lowest digit there, and the rest six bits up.
split_digit : (v scale : ℕ) → v * 2 ^ scale ≡ v % 64 * 2 ^ scale + v / 64 * 2 ^ (scale + 6)
split_digit v scale = omega (
  arith,
  ap (λ (t : ℕ). v / 64 * t) (pow_six scale),
  ap (λ (t : ℕ). t * 2 ^ scale) (let e : v ≡ v % 64 + 64 * (v / 64) = omega arith in e),
)

l64a_loop_zero : (left i : ℕ) (str : List ℕ) → l64a_loop left i 0 str ≡ str
unfolding l64a_loop
l64a_loop_zero zero i str = refl
l64a_loop_zero (suc left) i str = refl

l64a_loop-suc :
    (left i n : ℕ) (str : List ℕ)
    → l64a_loop (suc left) i (suc n) str
      ≡ l64a_loop left (suc i) (suc n / 64) (stored i (suc n) str)
unfolding l64a_loop
l64a_loop-suc left i n str = ground arith

a64l_loop_stop : (left scale acc : ℕ) (s : List ℕ) → a64l_loop left scale acc (0 ∷ s) ≡ some acc
unfolding a64l_loop
a64l_loop_stop zero scale acc s = refl
a64l_loop_stop (suc left) scale acc s = refl

digit_fits : (p acc d : ℕ) → acc < p → d < 64 → acc + d * p < 64 * p
digit_fits p acc d h small = grind arith

-- Reading on from index `i` adds the value that the rest of l64a()'s loop wrote.
a64l_loop-l64a_loop :
    (left i v scale acc : ℕ) (str : List ℕ)
    → i + left ≡ 6
    → length str ≡ 7
    → scale ≡ i * 6
    → acc < 2 ^ scale
    → acc + v * 2 ^ scale < 2 ^ 32
    → (v ≢ 0) ⊎ (get_or str i 0 ≡ 0)
    → a64l_loop left scale acc (drop i (l64a_loop left i v str)) ≡ some (acc + v * 2 ^ scale)
a64l_loop-l64a_loop zero i v scale acc str e len at fit total start =
    unfold a64l_loop in ground (arith, ap (λ (t : ℕ). acc + v * 2 ^ t) last)
  where
    last : scale ≡ 36
    last = omega arith
a64l_loop-l64a_loop (suc left) i zero scale acc str e len at fit total start =
    rw (l64a_loop_zero (suc left) i str, drop-get_or i str (omega arith), first)
      (a64l_loop_stop (suc left) scale acc (drop (suc i) str) ∙ ap some (omega arith))
  where
    first : get_or str i 0 ≡ 0
    first = ground arith
a64l_loop-l64a_loop (suc left) i (suc n) scale acc str e len at fit total start =
    rw (l64a_loop-suc left i n str, drop-get_or i r (omega (arith, length-r)), first)
      (a64l_loop-encode left scale acc (v % 64) (drop (suc i) r) (omega arith) fit
          (omega (arith, split_digit v scale))
        ∙ a64l_loop-l64a_loop left (suc i) (v / 64) (scale + 6) (acc + v % 64 * 2 ^ scale)
            (stored i v str) (omega arith) (length-stored i v str ∙ len) (omega arith)
            (omega (arith, pow_six scale, digit_fits (2 ^ scale) acc (v % 64) fit (omega arith)))
            (omega (arith, split_digit v scale)) (inr terminated)
        ∙ ap some (omega (arith, split_digit v scale)))
  where
    v : ℕ
    v = suc n

    r : List ℕ
    r = l64a_loop left (suc i) (v / 64) (stored i v str)

    length-r : length r ≡ 7
    length-r = length-l64a_loop left (suc i) (v / 64) (stored i v str) ∙ length-stored i v str ∙ len

    first : get_or r i 0 ≡ encode_byte (v % 64)
    first = omega (
      arith,
      l64a_loop-before left (suc i) (v / 64) (stored i v str) i (omega arith),
      get_or-stored_self i v str (omega arith),
    )

    terminated : get_or (stored i v str) (suc i) 0 ≡ 0
    terminated =
        get_or-set_self (set str i (encode_byte (bit_and v 0x3f))) (suc i) 0 0
          (omega (arith, length-set str i (encode_byte (bit_and v 0x3f))))

l64a_zero : (str : List ℕ) → l64a str 0 ≡ str
unfolding l64a
l64a_zero str = l64a_loop_zero 6 0 str

-- For a nonzero 32-bit word and the seven-byte buffer, whatever it holds, a64l() returns the word
-- that l64a() was given.
pub a64l-l64a : (str : List ℕ) (v : ℕ) → length str ≡ 7 → v ≢ 0 → v < 2 ^ 32 → a64l (l64a str v) ≡ v
unfolding a64l l64a
a64l-l64a str v len ne lt = ground (
  arith,
  mod-eq_of_lt lt,
  a64l_loop-l64a_loop 6 0 v 0 0 str refl len refl (omega arith) (omega arith) (inl ne),
)

-- After any call on a nonzero word, l64a(0) leaves that call's characters in the buffer, and they
-- decode to the earlier word and not to 0.
pub l64a_zero_stale :
    (str : List ℕ) (v : ℕ) → length str ≡ 7 → v ≢ 0 → v < 2 ^ 32 → a64l (l64a (l64a str v) 0) ≡ v
l64a_zero_stale str v len ne lt = rw (l64a_zero (l64a str v)) (a64l-l64a str v len ne lt)
