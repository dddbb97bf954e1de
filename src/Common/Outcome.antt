-- ===== src/Common/Outcome.antt =====
-- The outcome of a Go call.

-- A call returns, or it panics.
pub data Call {ℓ} (A : Type ℓ) : Type ℓ where
  returns : A → Call A
  panics : Call A
