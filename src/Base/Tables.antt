-- ===== src/Base/Tables.antt =====
-- Byte tables: their entries, and checks of all values of a small range.
use Prim.Native.Nat.{ℕ, zero, suc, ◌+◌, ◌<◌}
use Prim.Native.Char.{code}
use Prim.Native.String.{String}
use mathlib.Core.Path.{◌≡◌}
use mathlib.Core.Bool.{Bool, true, ◌&&◌}
use mathlib.Core.List.{List, [], ◌∷◌}
use native.Mathlib.Omega.{arith}

-- The bytes of an ASCII literal.
abbrev pub codes : String → List ℕ
codes String.[] = []
codes (String.◌∷◌ c s) = code c ∷ codes s

-- `n` consecutive numbers from `a` on.
abbrev pub count_up : ℕ → ℕ → List ℕ
count_up a zero = []
count_up a (suc n) = a ∷ count_up (a + 1) n

unfoldable pub holds_below : (ℕ → Bool) → ℕ → Bool
holds_below test zero = true
holds_below test (suc k) = holds_below test k && test k

-- What a finished check says of one number.
pub holds_below-at : (test : ℕ → Bool) (k j : ℕ) → holds_below test k ≡ true → j < k → test j ≡ true
unfolding holds_below
holds_below-at test zero j checked below = absurd (omega arith)
holds_below-at test (suc k) j checked below = ground (arith, holds_below-at test k j)
