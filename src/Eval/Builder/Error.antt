-- ===== src/Eval/Builder/Error.antt =====
-- The errors of `BuildInto` (internal/eval/builder.go), with the index that a message names.
use verifoxx.Base.{ℕ}

pub data Error : Type 0 where
  no_program : Error
  too_many_rows : Error
  too_many_records : Error
  malformed_request : ℕ → Error
  duplicate_request : ℕ → Error
  too_many_edges : Error
  malformed_reference : ℕ → ℕ → Error
  malformed_evidence : ℕ → Error
  duplicate_evidence : ℕ → Error
  dimensions : Error
