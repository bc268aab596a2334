-- ===== src/Cookie/Periods.antt =====
-- When a cookie of lib/cookie.c is accepted: in its own period of 2 ^ 15 µs and in the one before.
use sneks.Base.{ℕ, ◌*◌, ◌^◌, ◌<◌, ◌≡◌}
use sneks.Cookie.{CookieInfo}

module _ {K : Type 0} (siphash : CookieInfo → K → ℕ) (key : K) (object pid : ℕ) where
  -- The cookie of the `n`th period.
  abbrev pub cookie_of : ℕ → ℕ
  cookie_of n = siphash (record { time = n * 2 ^ 15; consumer = pid; object = object }) key

  -- That the hash of no two periods of a 64-bit clock is the same.
  abbrev pub TellsPeriods : Type 0
  TellsPeriods = (m n : ℕ) → m < 2 ^ 49 → n < 2 ^ 49 → cookie_of m ≡ cookie_of n → m ≡ n
