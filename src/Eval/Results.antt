-- ===== src/Eval/Results.antt =====
-- internal/eval/executor.go: what `EvaluateInto` writes beside the rows' winners.
pub mod Segments
pub mod Evidence
pub mod Collect
pub mod Remediations
pub mod Row
pub mod Batch
