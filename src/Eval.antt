-- ===== src/Eval.antt =====
-- internal/eval: the evaluator of compiled programs over columnar batches.
pub mod Error
pub mod Batch
pub mod Context
pub mod Shape
pub mod Checks
pub mod Evidence
pub mod Scalar
pub mod Executor
pub mod Resolve
pub mod Planes
pub mod Verdicts
pub mod RowSpec
pub mod Correct
pub mod Results
pub mod Builder
