-- ===== src/Strtol/Reference.antt =====
-- lib/strtol.c against the number that the digits are, without bounds.
use native.Mathlib.Nat.{div-add-mod', mod-lt, mul-le-mul_right}
use sneks.Base.{
  ℕ, zero, suc, ◌+◌, ◌-◌, ◌*◌, ◌/◌, ◌%◌, ◌^◌, ◌≤◌, ◌<◌, ◌≡◌, refl, sym, ◌∙◌, Bool, true, false, not,
  ◌&&◌, ◌||◌, List, [], ◌∷◌, some, ◌==◌, ltb, leb, if◌then◌else◌, arith, Bool-cases, inl, inr,
  ltb→lt, ◌⊎◌,
}
use sneks.Strtol.{
  Parsed, digit_of, digits_loop, finish, parse_digits, strtoull_max, base_prefix, skip_space, head,
  tail,
}

-- The digits at the start of a string, and what follows them.
unfoldable pub digits_in : (base : ℕ) → List ℕ → List ℕ
digits_in base [] = []
digits_in base (c ∷ s) =
    let rest = digits_in base s in if leb base (digit_of base c) then [] else digit_of base c ∷ rest

unfoldable pub after_digits : (base : ℕ) → List ℕ → List ℕ
after_digits base [] = []
after_digits base (c ∷ s) =
    let rest = after_digits base s in if leb base (digit_of base c) then c ∷ s else rest

-- The number that digits are, the first being the highest, after a number to their left.
unfoldable pub horner : (base acc : ℕ) → List ℕ → ℕ
horner base acc [] = acc
horner base acc (d ∷ ds) = horner base (acc * base + d) ds

abbrev pub is_empty : List ℕ → Bool
is_empty [] = true
is_empty (d ∷ ds) = false

horner-le : (base acc : ℕ) (ds : List ℕ) → 1 ≤ base → acc ≤ horner base acc ds
unfolding horner
horner-le base acc [] h = omega arith
horner-le base acc (d ∷ ds) h =
    omega (arith, grows acc base h, horner-le base (acc * base + d) ds h)
  where
    grows : (acc base : ℕ) → 1 ≤ base → acc ≤ acc * base
    grows acc zero h = absurd (omega arith)
    grows acc (suc b) h = omega arith

suc_times : (q b : ℕ) → suc q * b ≡ q * b + b
suc_times q b = omega arith

past_limit : (base max acc : ℕ) → 1 ≤ base → max / base < acc → max < acc * base
past_limit base max acc h past = omega (
  arith,
  div-add-mod' max base,
  mod-lt max h,
  mul-le-mul_right base past,
  suc_times (max / base) base,
)

within_limit : (base max acc : ℕ) → acc ≤ max / base → acc * base ≤ max
within_limit base max acc h = omega (arith, div-add-mod' max base, mul-le-mul_right base h)

-- The test for overflow, without the bound.
overflow_test :
    (base max acc d : ℕ)
    → 1 ≤ base
    → (ltb (max / base) acc || ltb (max - acc * base) d) ≡ ltb max (acc * base + d)
overflow_test base max acc d h = elim (Bool-cases (ltb (max / base) acc)) [
  | inl past ↦ rw past (ground (arith, past_limit base max acc h (ltb→lt (max / base) acc past)))
  | inr low ↦ rw low (ground (arith, within_limit base max acc (ground arith)))
]

-- What the loop gives: the number of the digits and what follows them, or the overflow.
abbrev Reads : (base max acc : ℕ) → Bool → List ℕ → ℕ × Bool × List ℕ × Bool → Type 0
Reads base max acc noconv s (value, none_read, rest, overflow) =
    (overflow ≡ ltb max (horner base acc (digits_in base s)))
    × (value ≡ (if overflow then 2 ^ 64 - 1 else horner base acc (digits_in base s)))
    × ((if overflow then after_digits base s else rest) ≡ after_digits base s)
    × ((not overflow && none_read) ≡ (not overflow && (noconv && is_empty (digits_in base s))))

both_false : (a n : Bool) → (a && false) ≡ (a && (n && false))
both_false a n = ground arith

past_all : (max x y : ℕ) → ltb max x ≡ true → x ≤ y → ltb max y ≡ true
past_all max x y h le = ground arith

digits_loop-Reads :
    (base max acc : ℕ) (noconv : Bool) (s : List ℕ)
    → 1 ≤ base
    → acc ≤ max
    → Reads base max acc noconv s (digits_loop base (max / base) max acc noconv s)
unfolding digits_loop digits_in after_digits horner
digits_loop-Reads base max acc noconv [] h low = ground arith
digits_loop-Reads base max acc noconv (c ∷ s) h low =
    elim (Bool-cases (leb base (digit_of base c))) [
      | inl stop ↦ rw stop (ground arith)
      | inr digit ↦
          rw (digit, overflow_test base max acc (digit_of base c) h)
            (elim (Bool-cases (ltb max (acc * base + digit_of base c))) [
              | inl over ↦ rw over (
                sym (
                    past_all max (acc * base + digit_of base c) _ over
                      (horner-le base (acc * base + digit_of base c) (digits_in base s) h)),
                refl,
                refl,
                refl,
              )
              | inr fits ↦ rw fits (
                (digits_loop-Reads base max (acc * base + digit_of base c) false s h
                    (ground arith)).0,
                (digits_loop-Reads base max (acc * base + digit_of base c) false s h
                    (ground arith)).1,
                (digits_loop-Reads base max (acc * base + digit_of base c) false s h
                    (ground arith)).2,
                (digits_loop-Reads base max (acc * base + digit_of base c) false s h
                      (ground arith)).3
                    ∙ both_false _ noconv,
              )
            ])
    ]

-- What a parse gives, by the number that the digits after the prefix are.
abbrev pub ReadsNumber : (str : List ℕ) (minus : Bool) (max : ℕ) → ℕ × List ℕ → Parsed → Type 0
ReadsNumber str minus max (base, s) p =
    (p.is_erange ≡ ltb max (horner base 0 (digits_in base s)))
    × (p.value ≡ (
        if ltb max (horner base 0 (digits_in base s))
        then 2 ^ 64 - 1
        else if minus
        then (2 ^ 64 - horner base 0 (digits_in base s)) % 2 ^ 64
        else horner base 0 (digits_in base s)))
    × ((if p.is_erange then some str else p.end)
        ≡ some (
            if ltb max (horner base 0 (digits_in base s))
            then str
            else if is_empty (digits_in base s)
            then str
            else after_digits base s))

finish-ReadsNumber :
    (str : List ℕ) (minus : Bool) (base max : ℕ) (s : List ℕ) (r : ℕ × Bool × List ℕ × Bool)
    → Reads base max 0 true s r
    → ReadsNumber str minus max (base, s) (finish str minus r)
unfolding finish
finish-ReadsNumber str minus base max s (value, none_read, rest, true) (over, v, e, n) =
    (over, rw (sym over, v) (ground arith), rw (sym over) refl)
finish-ReadsNumber str minus base max s (value, none_read, rest, false) (over, v, e, n) =
    (over, rw (sym over, v) (ground arith), rw (sym over, e, n) refl)

parse_digits-ReadsNumber :
    (str : List ℕ) (minus : Bool) (max : ℕ) (prefix : ℕ × List ℕ)
    → 1 ≤ prefix.0
    → ReadsNumber str minus max prefix (parse_digits str minus max prefix)
unfolding parse_digits
parse_digits-ReadsNumber str minus max (base, s) h =
    finish-ReadsNumber str minus base max s _ (digits_loop-Reads base max 0 true s h (omega arith))

abbrev pub is_minus : List ℕ → Bool
is_minus str = head (skip_space str) == b'-'

-- What follows the white space and the sign.
abbrev pub after_sign : List ℕ → List ℕ
after_sign str = let s = skip_space str in if head s == b'-' || (head s == b'+') then tail s else s

base_prefix-base : (base : ℕ) (s : List ℕ) → 1 ≤ (base_prefix base s).0
unfolding base_prefix
base_prefix-base base s = ground arith

base_ok :
    (base : ℕ)
    → (base ≡ 0) ⊎ ((2 ≤ base) × (base ≤ 36))
    → (not (base == 0) && (ltb base 2 || ltb 36 base)) ≡ false
base_ok base valid = ground arith

-- strtoull_max() in base 0 or 2 to 36 reads the number that the digits after the white space, the
-- sign and the prefix of the base are, however large it is: it gives ERANGE and the largest 64-bit
-- word exactly if the number is above the limit, and otherwise the number, or its negative modulo
-- 2 ^ 64, and ends after the digits, or at the start of the string where there is none.
pub strtoull_max-ReadsNumber :
    (str : List ℕ) (base max : ℕ)
    → (base ≡ 0) ⊎ ((2 ≤ base) × (base ≤ 36))
    → ReadsNumber str
        (is_minus str)
        max
        (base_prefix base (after_sign str))
        (strtoull_max str base max)
unfolding strtoull_max
strtoull_max-ReadsNumber str base max valid = rw (base_ok base valid) (
    parse_digits-ReadsNumber str (is_minus str) max (base_prefix base (after_sign str))
      (base_prefix-base base (after_sign str)))
