-- ===== src/Strtol.antt =====
-- lib/strtol.c: strings to numbers. A string is the list of its bytes, without the final zero.
pub mod Reference
pub mod Decimal
mod Tests
use sneks.Base.{
  ℕ, zero, suc, ◌+◌, ◌-◌, ◌*◌, ◌/◌, ◌%◌, ◌^◌, Bool, true, false, not, ◌&&◌, ◌||◌, Option, none,
  some, List, [], ◌∷◌, ℤ, pos, negsuc, ◌==◌, ltb, leb, if◌then◌else◌,
}

abbrev pub my_isspace : ℕ → Bool
my_isspace c = c == b' ' || (c == b'\n') || (c == b'\r') || (c == b'\t')

abbrev pub my_tolower : ℕ → ℕ
my_tolower c = if leb b'A' c && leb c b'Z' then c + 32 else c

-- What strtoull_max() returns, what it makes `*end` point to, if anything, and whether `errno` is set to EINVAL or ERANGE.
pub record Parsed : Type 0 where
  pub value : ℕ
  pub end : Option (List ℕ)
  pub is_einval : Bool
  pub is_erange : Bool

-- `str[0]` and `str[1]`.
abbrev pub head : List ℕ → ℕ
head [] = 0
head (c ∷ s) = c

abbrev pub tail : List ℕ → List ℕ
tail [] = []
tail (c ∷ s) = s

unfoldable pub skip_space : List ℕ → List ℕ
skip_space [] = []
skip_space (c ∷ s) = let rest = skip_space s in if my_isspace c then rest else c ∷ s

-- The value of a digit, or the base where the byte is none.
unfoldable pub digit_of : (base c : ℕ) → ℕ
digit_of base c =
    let l = my_tolower c in
    if leb b'0' l && leb l b'9'
    then l - b'0'
    else if leb b'a' l && leb l b'z'
    then 10 + (l - b'a')
    else base

-- The base and what follows the prefix.
unfoldable pub base_prefix : (base : ℕ) → List ℕ → ℕ × List ℕ
base_prefix base s =
    if (base == 0 || (base == 16)) && (head s == b'0' && (my_tolower (head (tail s)) == b'x'))
    then (16, tail (tail s))
    else if base == 0 && (head s == b'0')
    then (8, tail s)
    else if base == 0
    then (10, s)
    else (base, s)

-- The loop over the digits: the accumulator, whether nothing was converted, what is left, and
-- whether it ended with ERANGE.
unfoldable pub digits_loop : (base lim max acc : ℕ) → Bool → List ℕ → ℕ × Bool × List ℕ × Bool
digits_loop base lim max acc noconv [] = (acc, noconv, [], false)
digits_loop base lim max acc noconv (c ∷ s) =
    let digit = digit_of base c in
    let rest = digits_loop base lim max (acc * base + digit) false s in
    if leb base digit
    then (acc, noconv, c ∷ s, false)
    else if ltb lim acc || ltb (max - acc * base) digit
    then (2 ^ 64 - 1, noconv, s, true)
    else rest

-- The end of strtoull_max().
unfoldable pub finish : (orig : List ℕ) (minus : Bool) → ℕ × Bool × List ℕ × Bool → Parsed
finish orig minus (acc, noconv, s, overflow) = record {
  value = if minus && not overflow then (2 ^ 64 - acc) % 2 ^ 64 else acc;
  end = some (if noconv then orig else s);
  is_einval = false;
  is_erange = overflow;
}

unfoldable pub parse_digits : (orig : List ℕ) (minus : Bool) (max : ℕ) → ℕ × List ℕ → Parsed
parse_digits orig minus max (base, s) =
    finish orig minus (digits_loop base (max / base) max 0 true s)

-- strtoull_max() of a base that is not negative.
unfoldable pub strtoull_max : List ℕ → (base max : ℕ) → Parsed
strtoull_max str base max =
    let s = skip_space str in
    let minus = head s == b'-' in
    let unsigned = if minus || (head s == b'+') then tail s else s in
    if not (base == 0) && (ltb base 2 || ltb 36 base)
    then record { value = 0; end = none; is_einval = true; is_erange = false }
    else parse_digits str minus max (base_prefix base unsigned)

unfoldable pub strtoull : List ℕ → ℕ → Parsed
strtoull str base = strtoull_max str base (2 ^ 64 - 1)

-- strtoul(), which returns the low 32 bits.
unfoldable pub strtoul : List ℕ → ℕ → Parsed
strtoul str base =
    let r = strtoull_max str base (2 ^ 32 - 1) in record r { value = r.value % 2 ^ 32 }

-- A 32-bit word as a `long`.
abbrev pub as_long : ℕ → ℤ
as_long w = if ltb w (2 ^ 31) then pos w else negsuc (2 ^ 32 - 1 - w)

unfoldable pub strtol : List ℕ → ℕ → ℤ
strtol str base = as_long (strtoul str base).value

unfoldable pub atoi : List ℕ → ℤ
atoi str = strtol str 10
