-- ===== src/Eval/Error.antt =====
-- The errors of the evaluator and the executor (internal/eval). A message is a constructor with the numbers that it prints; the
-- texts of `fmt.Errorf` are not modelled.
use verifoxx.Base.{ℕ}

pub data Error : Type 0 where
  -- scalar.go
  context_mismatch request_columns_mismatch : Error
  invalid_opcode : ℕ → Error
  -- evidence.go
  evidence_column_length offsets_length offset_not_monotonic final_offset ref_too_large : Error
  -- executor.go
  capacity_overflow : Error
  column_capacity : ℕ → ℕ → Error
