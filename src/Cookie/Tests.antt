-- ===== src/Cookie/Tests.antt =====
-- Cookies of lib/cookie.c with a hash that tells periods apart.
use sneks.Base.{ℕ, ◌+◌}
use sneks.Cookie.{CookieInfo}

abbrev plain_hash : CookieInfo → ℕ → ℕ
plain_hash info key = info.time + info.object + key
