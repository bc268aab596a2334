-- ===== src/Cookie.antt =====
-- lib/cookie.c: cookies that a client shows to a server, and how long they are accepted. The keyed
-- hash (ccan/siphash) is a parameter.
pub mod Periods
mod Tests
use sneks.Base.{ℕ, ◌+◌, ◌-◌, ◌^◌, ◌%◌, Bool, ◌||◌, ◌==◌, bit_and, compl}

-- `struct cookie_info`.
pub record CookieInfo : Type 0 where
  pub time : ℕ
  pub consumer : ℕ
  pub object : ℕ

abbrev pub cookie_period_us : ℕ
cookie_period_us = 2 ^ 15 - 1

module _ {K : Type 0} (siphash : CookieInfo → K → ℕ) where
  -- A clock is a 64-bit number.
  unfoldable pub gen_cookie : K → (now object pid : ℕ) → ℕ
  gen_cookie key now object pid =
      siphash
        (record { time = bit_and now (compl 64 cookie_period_us); consumer = pid; object = object })
        key

  unfoldable pub validate_cookie : ℕ → K → (now object pid : ℕ) → Bool
  validate_cookie cookie key now object pid =
      let next = (now + cookie_period_us + 1) % 2 ^ 64 in
      gen_cookie key now object pid == cookie || (gen_cookie key next object pid == cookie)
