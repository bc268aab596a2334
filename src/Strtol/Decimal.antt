-- ===== src/Strtol/Decimal.antt =====
-- lib/strtol.c reads back decimal numbers.
use native.Mathlib.Nat.{pow-suc}
use sneks.Base.{
  ℕ, zero, suc, ◌+◌, ◌-◌, ◌*◌, ◌/◌, ◌%◌, ◌^◌, ◌≤◌, ◌<◌, ◌≡◌, refl, sym, ap, ◌∙◌, Bool, true, false,
  ◌&&◌, List, [], ◌∷◌, ◌++◌, ◌==◌, ltb, leb, if◌then◌else◌, arith, Bool-cases, inl, inr, pos,
  le→ltb,
}
use mathlib.Core.Path.{subst}
use sneks.Strtol.{
  Parsed, digit_of, base_prefix, skip_space, head, strtoull_max, strtoul, strtol, atoi,
}
use sneks.Strtol.Reference.{
  digits_in, horner, ReadsNumber, is_minus, after_sign, strtoull_max-ReadsNumber,
}

read_nothing : (acc : ℕ) → horner 10 acc (digits_in 10 []) ≡ acc
unfolding horner digits_in
read_nothing acc = refl

-- The decimal digits of a number of at most `n + 1` digits.
unfoldable pub decimal : (n k : ℕ) → List ℕ
decimal zero k = (b'0' + k) ∷ []
decimal (suc n) k =
    let front = decimal n (k / 10) in
    if ltb k 10 then (b'0' + k) ∷ [] else front ++ ((b'0' + k % 10) ∷ [])

-- Bytes that are all decimal digits.
unfoldable pub all_digits : List ℕ → Bool
all_digits [] = true
all_digits (c ∷ s) = leb b'0' c && leb c b'9' && all_digits s

all_digits-append : (xs ys : List ℕ) → all_digits (xs ++ ys) ≡ all_digits xs && all_digits ys
unfolding all_digits
all_digits-append [] ys = refl
all_digits-append (x ∷ xs) ys = ground (arith, all_digits-append xs ys)

decimal_digits : (n k : ℕ) → k < 10 ^ suc n → all_digits (decimal n k) ≡ true
unfolding decimal all_digits
decimal_digits zero k h = ground arith
decimal_digits (suc n) k h = elim (Bool-cases (ltb k 10)) [
  | inl one ↦ rw one (ground arith)
  | inr more ↦
      rw
        (
          more,
          all_digits-append (decimal n (k / 10)) ((b'0' + k % 10) ∷ []),
          decimal_digits n (k / 10) (omega (arith, pow-suc 10 (suc n))),
        )
        (ground arith)
]

digit_of-decimal :
    (c : ℕ) → (leb b'0' c && leb c b'9') ≡ true → (digit_of 10 c ≡ c - b'0') × (c - b'0' < 10)
unfolding digit_of
digit_of-decimal c h = ground arith

read_digit :
    (acc c : ℕ) (s : List ℕ)
    → (leb b'0' c && leb c b'9') ≡ true
    → horner 10 acc (digits_in 10 (c ∷ s)) ≡ horner 10 (acc * 10 + (c - b'0')) (digits_in 10 s)
unfolding horner digits_in
read_digit acc c s h =
    rw ((digit_of-decimal c h).0, le→ltb' (c - b'0') (digit_of-decimal c h).1) refl
  where
    le→ltb' : (d : ℕ) → d < 10 → leb 10 d ≡ false
    le→ltb' d h = ground arith

read-append :
    (xs : List ℕ) (acc c : ℕ)
    → all_digits xs ≡ true
    → (leb b'0' c && leb c b'9') ≡ true
    → horner 10 acc (digits_in 10 (xs ++ (c ∷ [])))
      ≡ horner 10 acc (digits_in 10 xs) * 10 + (c - b'0')
unfolding all_digits
read-append [] acc c digits h = read_digit acc c [] h ∙ nothing_more acc (c - b'0')
  where
    nothing_more :
        (acc d : ℕ)
        → horner 10 (acc * 10 + d) (digits_in 10 []) ≡ horner 10 acc (digits_in 10 []) * 10 + d
    nothing_more acc d =
        read_nothing (acc * 10 + d) ∙ ap (λ (t : ℕ). t * 10 + d) (sym (read_nothing acc))
read-append (x ∷ xs) acc c digits h =
    read_digit acc x (xs ++ (c ∷ [])) (ground arith)
    ∙ (read-append xs (acc * 10 + (x - b'0')) c (ground arith) h
        ∙ ap (λ (t : ℕ). t * 10 + (c - b'0')) (sym (read_digit acc x xs (ground arith))))

read-decimal : (n k : ℕ) → k < 10 ^ suc n → horner 10 0 (digits_in 10 (decimal n k)) ≡ k
unfolding decimal
read-decimal zero k h =
    read_digit 0 (b'0' + k) [] (ground arith)
    ∙ (read_nothing (0 * 10 + (b'0' + k - b'0')) ∙ omega arith)
read-decimal (suc n) k h = elim (Bool-cases (ltb k 10)) [
  | inl one ↦ rw one (
      read_digit 0 (b'0' + k) [] (ground arith)
      ∙ (read_nothing (0 * 10 + (b'0' + k - b'0')) ∙ omega arith))
  | inr more ↦ rw more (
      read-append (decimal n (k / 10)) 0 (b'0' + k % 10)
        (decimal_digits n (k / 10) (omega (arith, pow-suc 10 (suc n)))) (ground arith)
      ∙ omega (arith, read-decimal n (k / 10) (omega (arith, pow-suc 10 (suc n)))))
]

-- Digits have no white space, sign or prefix before them in base 10.
no_space : (s : List ℕ) → all_digits s ≡ true → skip_space s ≡ s
unfolding skip_space all_digits
no_space [] h = refl
no_space (c ∷ s) h = ground arith

head_digit :
    (s : List ℕ) → all_digits s ≡ true → ((head s == b'-') ≡ false) × ((head s == b'+') ≡ false)
unfolding all_digits
head_digit [] h = (refl, refl)
head_digit (c ∷ s) h = ground arith

plain_prefix : (s : List ℕ) → base_prefix 10 s ≡ (10, s)
unfolding base_prefix
plain_prefix s = refl

minus_off : (s : List ℕ) → all_digits s ≡ true → is_minus s ≡ false
minus_off s h = rw (no_space s h) (head_digit s h).0

plain_start : (s : List ℕ) → all_digits s ≡ true → base_prefix 10 (after_sign s) ≡ (10, s)
plain_start s h = rw (no_space s h, (head_digit s h).0, (head_digit s h).1) (plain_prefix s)

value_of :
    (s : List ℕ) (k max : ℕ) (minus : Bool) (p : Parsed)
    → minus ≡ false
    → ReadsNumber s minus max (10, s) p
    → horner 10 0 (digits_in 10 s) ≡ k
    → k ≤ max
    → p.value ≡ k
value_of s k max minus p off (over, value, ends) e small =
    value ∙ rw (e, off, le→ltb max k small) refl

-- strtoull_max() of the decimal digits of a number within the limit.
value-decimal :
    (n k max : ℕ) → k < 10 ^ suc n → k ≤ max → (strtoull_max (decimal n k) 10 max).value ≡ k
value-decimal n k max h small =
    value_of (decimal n k) k max (is_minus (decimal n k)) (strtoull_max (decimal n k) 10 max)
      (minus_off (decimal n k) (decimal_digits n k h))
      (subst
        (λ (prefix : ℕ × List ℕ).
          ReadsNumber (decimal n k) (is_minus (decimal n k)) max prefix
            (strtoull_max (decimal n k) 10 max))
        (plain_start (decimal n k) (decimal_digits n k h))
        (strtoull_max-ReadsNumber (decimal n k) 10 max (inr (omega arith, omega arith))))
      (read-decimal n k h) small

-- atoi() of the decimal digits of a number below 2 ^ 31 is the number.
pub atoi-decimal : (k : ℕ) → k < 2 ^ 31 → atoi (decimal 9 k) ≡ pos k
unfolding atoi strtol strtoul
atoi-decimal k h = rw (value-decimal 9 k (2 ^ 32 - 1) (omega arith) (omega arith)) (ground arith)
