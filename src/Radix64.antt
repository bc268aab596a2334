-- ===== src/Radix64.antt =====
-- lib/a64l.c: a64l() and l64a(), 32-bit words as up to six characters of six bits, lowest first.
-- A `long` is 32 bits wide and stands here as its bit pattern. A C string is the list of the bytes
-- of its buffer; the byte past the end of the list reads as the terminator.
pub mod Digits
pub mod RoundTrip
mod Tests
use sneks.Base.{
  ℕ, zero, suc, ◌+◌, ◌*◌, ◌/◌, ◌%◌, ◌^◌, bit_and, bit_or, Bool, true, false, ◌&&◌, ◌||◌, Option,
  none, some, List, [], ◌∷◌, ◌++◌, ltb, ◌==◌, if◌then◌else◌, length, get_or, set, replicate, codes,
  count_up,
}

-- `dec_table`: the gaps between the designated initialisers are 0.
abbrev pub dec_table : List ℕ
dec_table =
    replicate b'.' 0
    ++ (count_up 0 12 ++ (replicate 7 0 ++ (count_up 12 26 ++ (replicate 6 0 ++ count_up 38 26))))

abbrev pub enc_table : List ℕ
enc_table = codes "./0123456789ABCDEFGHIJKLMNOPQRSTUVWXYZabcdefghijklmnopqrstuvwxyz"

-- `none` is the -1 with `*fail` set.
pub decode_byte : ℕ → Option ℕ
decode_byte c =
    if ltb c (length dec_table) && (ltb 0 (get_or dec_table c 0) || c == b'.')
    then some (get_or dec_table c 0)
    else none

-- The argument is never negative. '&' is the error indicator.
pub encode_byte : ℕ → ℕ
encode_byte b = if ltb b (length enc_table) then get_or enc_table b b'&' else b'&'

-- The loop of a64l() with `left` rounds to go; `none` is an exit by `fail`.
pub a64l_loop : ℕ → ℕ → ℕ → List ℕ → Option ℕ
a64l_loop zero scale acc s = some acc
a64l_loop (suc left) scale acc [] = some acc
a64l_loop (suc left) scale acc (c ∷ s) = elim (c == 0) [
  | true ↦ some acc
  | false ↦ elim (decode_byte c) [
    | none ↦ none
    | some d ↦ a64l_loop left (scale + 6) (bit_or acc (d * 2 ^ scale % 2 ^ 32)) s
  ]
]

pub a64l : List ℕ → ℕ
a64l s = elim (a64l_loop 6 0 0 s) [ none ↦ 0 | some acc ↦ acc ]

-- The loop of l64a() at index `i`, over the static buffer.
pub l64a_loop : ℕ → ℕ → ℕ → List ℕ → List ℕ
l64a_loop zero i v str = str
l64a_loop (suc left) i v str = elim (v == 0) [
  | true ↦ str
  | false ↦
      l64a_loop left (suc i) (v / 64) (set (set str i (encode_byte (bit_and v 0x3f))) (suc i) 0)
]

-- The static buffer `str` goes in, and comes out as the result.
pub l64a : List ℕ → ℕ → List ℕ
l64a str input = l64a_loop 6 0 (input % 2 ^ 32) str
