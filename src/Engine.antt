-- ===== src/Engine.antt =====
-- internal/engine/engine.go: a session from the requests to the numeric results. The engine's
-- evaluator is the one of its program, so it is no field; the output that `MaterializeInto` fills
-- from the numeric results is not part of the session here.
pub mod Error
pub mod Capacity
pub mod Correct
use verifoxx.Base.{
  ℕ, ◌+◌, ◌-◌, ◌*◌, ◌/◌, Bool, ◌||◌, Option, none, some, List, [], length, ltb, ◌==◌, if◌then◌else◌,
  Run, ok, err, panic, ◌>>=◌,
}
use verifoxx.Eval.Batch.{Batch}
use verifoxx.Eval.Builder.{Limits, Builder, build_into}
use verifoxx.Eval.Builder.Error as BuildError
use verifoxx.Eval.Context.{Context}
use verifoxx.Eval.Context
use verifoxx.Eval.Error as EvaluationError
use verifoxx.Eval.Resolve.{evaluate_into, max_int}
use verifoxx.Input.{Request, EvidenceInput}
use verifoxx.Program.{Program}
use verifoxx.Program.Validate.{validate}
use verifoxx.Program.Validate.Error as ValidateError
use verifoxx.ResultBatch.{ResultBatch, Slice}
use verifoxx.ResultBatch

pub record Engine : Type 0 where
  pub compiled : Program
  pub limits : Limits

pub record Session : Type 0 where
  pub engine : Option Engine
  pub builder : Builder
  pub batch : Batch
  pub context : Context
  pub numeric : ResultBatch

-- `newValidated`
abbrev pub new_validated : Program → Limits → Engine
new_validated compiled limits = record { compiled = compiled; limits = limits }

unfoldable pub new : Program → Limits → Run ValidateError.Error Engine
new compiled limits = do _ ← validate compiled; ok (new_validated compiled limits)

-- The zero values of a session's fields.
abbrev pub zero_batch : Batch
zero_batch = record {
  rows = 0;
  words = 0;
  values = [];
  present = [];
  valid = [];
  semantic_issue_masks = [];
  evidence_kinds = [];
  evidence_status = [];
  evidence_timing = [];
  evidence_reviewer = [];
  evidence_timestamp_state = [];
  evidence_subject = [];
  evidence_attestation_state = [];
  evidence_scope = [];
  evidence_adjustment_type = [];
  evidence_present = [];
  evidence_flags = [];
  evidence_ref_offsets = [];
  evidence_refs = [];
}

abbrev pub zero_context : Context
zero_context = record {
  positive = [];
  negative = [];
  reasons = [];
  rows = 0;
  words = 0;
  instructions = 0;
}

abbrev zero_slice : Slice
zero_slice = record { items = []; cap = 0 }

abbrev pub zero_result : ResultBatch
zero_result = record {
  outcome_ids = zero_slice;
  driver_kinds = zero_slice;
  driver_requirement_ids = zero_slice;
  driver_clause_ids = zero_slice;
  driver_reason_ids = zero_slice;
  driver_field_ids = zero_slice;
  driver_evidence_edge_ids = zero_slice;
  issue_ids = zero_slice;
  requirement_offsets = zero_slice;
  requirement_ids = zero_slice;
  evidence_offsets = zero_slice;
  evidence_refs = zero_slice;
  remediation_offsets = zero_slice;
  remediation_ids = zero_slice;
}

-- `nil` is no engine.
unfoldable pub new_session : Option Engine → Session
new_session none = record {
  engine = none;
  builder = record {
    program = none;
    limits = record { max_rows = 0; max_evidence = 0; max_edges = 0 };
  };
  batch = zero_batch;
  context = zero_context;
  numeric = zero_result;
}
new_session (some engine) = record {
  engine = some engine;
  builder = record { program = some (engine.compiled); limits = engine.limits };
  batch = zero_batch;
  context = zero_context;
  numeric = zero_result;
}

-- A product of two `int`s, if it is one.
unfoldable pub checked_product : ℕ → ℕ → Option ℕ
checked_product left right =
    if left == 0 || right == 0
    then some 0
    else if ltb (max_int / right) left
    then none
    else some (left * right)

-- A builder's error, as `InputError`.
unfoldable pub lift_input : Run BuildError.Error Batch → Run Error.Error Batch
lift_input (ok batch) = ok batch
lift_input (err e) = err (Error.input e)
lift_input panic = panic

unfoldable pub lift_evaluation :
    Run EvaluationError.Error (Context × ResultBatch) → Run Error.Error (Context × ResultBatch)
lift_evaluation (ok r) = ok r
lift_evaluation (err e) = err (Error.evaluation e)
lift_evaluation panic = panic

unfoldable pub or_error : Option ℕ → Error.Error → Run Error.Error ℕ
or_error none e = err e
or_error (some n) e = ok n

-- `Session.Evaluate` after the batch is built, up to the numeric results.
unfoldable pub evaluate_built : Session → Engine → ℕ → Batch → Run Error.Error Session
evaluate_built session engine rows batch = do
  requirements ←
      or_error (checked_product rows (length engine.compiled.requirement_symbols))
        Error.requirement_overflow
  remediations ←
      or_error (checked_product rows (length engine.compiled.remediations))
        Error.remediation_overflow
  numeric ←
      ResultBatch.ensure session.numeric batch.rows requirements (length batch.evidence_refs)
        remediations
  (context, numeric) ←
      lift_evaluation
        (evaluate_into engine.compiled (Context.ensure engine.compiled batch.rows) batch numeric)
  ok (record session { batch = batch; context = context; numeric = numeric })

-- `Session.Evaluate` after the check for an engine.
unfoldable pub evaluate_with :
    Session → Engine → List Request → List EvidenceInput → Run Error.Error Session
evaluate_with session engine requests evidence = do
  batch ← lift_input (build_into session.builder requests evidence)
  evaluate_built session engine (length requests) batch

unfoldable pub evaluate : Session → List Request → List EvidenceInput → Run Error.Error Session
evaluate session requests evidence = elim session.engine [
  | none ↦ err Error.no_engine
  | some engine ↦ evaluate_with session engine requests evidence
]
