-- ===== src/Base/Ending.antt =====
-- How an operation ends: with its result, or at an assert that does not hold, an abort() or a panic.
pub data Ends {ℓ} (A : Type ℓ) : Type ℓ where
  abort : Ends A
  returns : A → Ends A
