-- ===== src/Base/Ending.antt =====
-- How a call ends.

-- It returns, it still spins on a queue or pool that is empty or full, or it writes outside a
-- buffer or an array.
pub data Outcome {ℓ} (A : Type ℓ) : Type ℓ where
  returns : A → Outcome A
  spins : Outcome A
  overruns : Outcome A
