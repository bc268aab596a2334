-- ===== src/Radix64/Tests.antt =====
-- Tests and instances of the theorems on lib/a64l.c.
use sneks.Base.{ℕ, ◌≡◌, refl, List, ◌++◌, codes, replicate, arith}
use sneks.Radix64.{a64l, l64a, a64l_loop, l64a_loop, decode_byte, encode_byte}
use sneks.Radix64.RoundTrip.{a64l-l64a}

abbrev fresh : List ℕ
fresh = replicate 7 0

-- 74565 is 5, 13 and 18 in groups of six bits, lowest first.
l64a_writes : l64a fresh 74565 ≡ codes "3BG" ++ replicate 4 0
unfolding l64a l64a_loop encode_byte
l64a_writes = refl

a64l_rejects : a64l (codes "a!b") ≡ 0
unfolding a64l a64l_loop decode_byte
a64l_rejects = refl

a64l-l64a_example : a64l (l64a fresh 0xffff_ffff) ≡ 0xffff_ffff
a64l-l64a_example = a64l-l64a fresh 0xffff_ffff refl (omega arith) (omega arith)
