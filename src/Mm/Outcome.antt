-- ===== src/Mm/Outcome.antt =====
-- How a call into the heap ends: with a value, or in `panic`, or (in the model only) with its loop
-- out of fuel.
use raptor_kernel.Prelude.{ℕ}

pub data Panic : Type 0 where
  corrupted_header : ℕ → Panic
  bad_pointer : ℕ → Panic
  double_free : ℕ → Panic

pub data Outcome {ℓ} (A : Type ℓ) : Type ℓ where
  ok : A → Outcome A
  panic : Panic → Outcome A
  out_of_fuel : Outcome A
