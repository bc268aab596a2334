-- ===== src/Strtol/Tests.antt =====
-- Numbers as strings.
use sneks.Base.{◌-◌, ◌^◌, ◌≡◌, refl, false, some, arith, inl, pos, negsuc, codes}
use sneks.Strtol.{
  atoi, strtol, strtoul, strtoull_max, parse_digits, finish, digits_loop, base_prefix, digit_of,
  skip_space,
}
use sneks.Strtol.Reference.{ReadsNumber, is_minus, after_sign, strtoull_max-ReadsNumber}
use sneks.Strtol.Decimal.{decimal, atoi-decimal}

strtoull_max-ReadsNumber_example :
    ReadsNumber
      (codes " -0x1fz")
      (is_minus (codes " -0x1fz"))
      (2 ^ 32 - 1)
      (base_prefix 0 (after_sign (codes " -0x1fz")))
      (strtoull_max (codes " -0x1fz") 0 (2 ^ 32 - 1))
strtoull_max-ReadsNumber_example =
    strtoull_max-ReadsNumber (codes " -0x1fz") 0 (2 ^ 32 - 1) (inl refl)

atoi-decimal_example : atoi (decimal 9 2147483647) ≡ pos 2147483647
atoi-decimal_example = atoi-decimal 2147483647 (omega arith)

-- The digits after the one that overflows are left unread.
overflow_stops_early : (strtoul (codes "99999999999") 10).end ≡ some (codes "9")
unfolding strtoul strtoull_max parse_digits finish digits_loop base_prefix digit_of skip_space
overflow_stops_early = refl

-- A number above the largest long becomes negative, without ERANGE.
strtol_wraps :
    (strtol (codes "2147483648") 10 ≡ negsuc 2147483647)
    × ((strtoul (codes "2147483648") 10).is_erange ≡ false)
unfolding strtol strtoul strtoull_max parse_digits finish digits_loop base_prefix digit_of
    skip_space
strtol_wraps = (refl, refl)

-- "0" in base 0 counts as no number.
zero_not_converted : (strtoul (codes "0") 0).end ≡ some (codes "0")
unfolding strtoul strtoull_max parse_digits finish digits_loop base_prefix digit_of skip_space
zero_not_converted = refl
