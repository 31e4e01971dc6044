-- ===== src/Eval/Correct.antt =====
-- The evaluator and the executor's search beside the row-by-row specification.
pub mod Rows
pub mod Fields
pub mod Evidence
pub mod Words
pub mod AllWords
pub mod Conjunction
pub mod Instructions
pub mod Reasons
pub mod Cause
pub mod Winner
pub mod Clauses
pub mod Requirements
pub mod Resolution
