-- ===== src/Engine/Error.antt =====
-- The errors of `Session.Evaluate` (internal/engine/engine.go) before the output is written.
use verifoxx.Eval.Builder.Error as BuildError
use verifoxx.Eval.Error as EvaluationError

pub data Error : Type 0 where
  no_engine : Error
  input : BuildError.Error → Error
  requirement_overflow : Error
  remediation_overflow : Error
  evaluation : EvaluationError.Error → Error
