-- ===== src/Base/Maps.antt =====
-- Maps from numbers as functions, and their update at one key.
use Prim.Native.Nat.{ℕ}
use sneks.Base.Tests.{◌==◌, if◌then◌else◌}

abbrev pub update {ℓ} : {A : Type ℓ} → (ℕ → A) → ℕ → A → ℕ → A
update f i v j = if i == j then v else f j
