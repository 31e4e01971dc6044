-- ===== src/Tests/Sessions.antt =====
-- Two requests and an evidence record as they are decoded: the first request refers to the record,
-- the second to one that is missing.
use verifoxx.Base.{
  ◌*◌, ◌^◌, ◌≤◌, ◌≡◌, refl, ◌↔◌, arith, List, [], ◌∷◌, some, ok, Returns, Returns-value, Settles,
}
use verifoxx.Base.Text.{bytes}
use verifoxx.Engine.{new_session, new_validated, checked_product, evaluate}
use verifoxx.Engine.Capacity.{checked_product_iff}
use verifoxx.Engine.Correct.{Sized, Answers, evaluate-Answers, new_session-Serves}
use verifoxx.Eval.Builder.{default_limits, build_into}
use verifoxx.Eval.Builder.Correct.{Built, Within, build_into-Built}
use verifoxx.Eval.Builder.Error
use verifoxx.Eval.Context.{Context, ensure}
use verifoxx.Eval.Error as EvaluationError
use verifoxx.Eval.Resolve.{evaluate_into, max_int}
use verifoxx.Eval.Results.Batch.{Evaluated, evaluate_into-Evaluated}
use verifoxx.Input.{Request, EvidenceInput}
use verifoxx.Program.{lookup_symbol}
use verifoxx.Program.Lookup.{FirstNamed, lookup_symbol-symbol}
use verifoxx.ResultBatch.{ResultBatch}
use verifoxx.ResultBatch
use verifoxx.ResultBatch.Capacity.{IsReady, ensure-IsReady}
use verifoxx.Tests.Columns.{used_batch}
use verifoxx.Tests.Policy.{policy, policy-accepted, policy-HasValidCode, policy-HasValidTables}
use verifoxx.Tests.Requests.{requests, requests-HasColumns, requests-HasEvidence}

abbrev first_request : Request
first_request = record {
  id = bytes "r1";
  requester = [];
  trust_level = [];
  action = bytes "x";
  output_kind = [];
  dataset = [];
  environment = [];
  usage_limit = [];
  evidence_ids = bytes "e1" ∷ [];
}

abbrev decoded : List Request
decoded =
    first_request ∷ record first_request { id = bytes "r2"; evidence_ids = bytes "e2" ∷ [] } ∷ []

abbrev decoded_records : List EvidenceInput
decoded_records =
    record {
      id = bytes "e1";
      kind = bytes "y";
      status = bytes "y";
      timing = [];
      reviewer = [];
      reviewer_state = [];
      timestamp_state = [];
      subject = [];
      attestation_state = [];
      scope = [];
      adjustment_type = [];
    }
    ∷ []

lookup_symbol-symbol_example :
    Returns {E = Error.Error} (FirstNamed policy (bytes "y")) (lookup_symbol policy (bytes "y"))
lookup_symbol-symbol_example = lookup_symbol-symbol policy (bytes "y") refl (omega arith)

build_into-Built_example :
    Settles
      (λ b. Within default_limits decoded decoded_records × Built policy decoded decoded_records b)
      (build_into
        (record { program = some policy; limits = default_limits })
        decoded
        decoded_records)
build_into-Built_example =
    build_into-Built policy default_limits decoded decoded_records refl
      (omega arith, omega arith, omega arith)

checked_product_iff_example :
    (checked_product 3 (2 ^ 62) ≡ some 0) ↔ ((3 * 2 ^ 62 ≤ max_int) × (0 ≡ 3 * 2 ^ 62))
checked_product_iff_example = checked_product_iff 3 (2 ^ 62) 0

-- A result batch made ready for two rows, one requirement and two edges.
abbrev ready :
    (b : ResultBatch) × (ResultBatch.ensure {E = EvaluationError.Error} used_batch 2
        (2 * 1)
        2
        (2 * 0)
      ≡ ok b)
    × IsReady 2 (2 * 1) 2 (2 * 0) b
ready = Returns-value (ensure-IsReady {E = EvaluationError.Error} used_batch 2 (2 * 1) 2 (2 * 0))

evaluate_into-Evaluated_example :
    Returns
      (λ (result : Context × ResultBatch). Evaluated policy requests (result.1))
      (evaluate_into policy (ensure policy 2) requests (ready.0))
evaluate_into-Evaluated_example =
    evaluate_into-Evaluated policy policy-HasValidCode policy-HasValidTables requests
      requests-HasColumns requests-HasEvidence (omega arith) (omega arith) (omega arith)
      (omega arith) (omega arith) (omega arith) (omega arith) (ready.0) (ready.2)

policy-Sized : Sized policy default_limits
policy-Sized = record {
  instructions = omega arith;
  limits_32 = (omega arith, omega arith, omega arith);
  rows = omega arith;
  numbers = omega arith;
  requirements = omega arith;
  remediation_ids = omega arith;
  remediations = omega arith;
}

evaluate-Answers_example :
    Answers policy default_limits decoded decoded_records
      (evaluate (new_session (some (new_validated policy default_limits))) decoded decoded_records)
evaluate-Answers_example =
    evaluate-Answers policy policy-accepted default_limits policy-Sized decoded decoded_records
      (new_session (some (new_validated policy default_limits)))
      (new_session-Serves policy default_limits)
