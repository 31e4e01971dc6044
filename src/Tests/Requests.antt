-- ===== src/Tests/Requests.antt =====
-- Two requests with the action `x`: the first refers to a record with the status `y`, the second to
-- one that is missing.
use verifoxx.Base.{
  ℕ, ◌≡◌, refl, ◌↔◌, ◌<◌, ◌*◌, ◌/◌, ◌||◌, arith, List, [], ◌∷◌, replicate, length, ok, Returns,
  Returns-value,
}
use verifoxx.Eval.Batch.{Batch}
use verifoxx.Eval.Shape.{HasColumns, HasEvidence}
use verifoxx.Eval.Evidence.{validate_evidence_batch, check_lengths, check_offsets, check_refs}
use verifoxx.Eval.Checks.{validate_evidence_batch-HasEvidence}
use verifoxx.Eval.Context.{Context, ensure, word_count, set_row}
use verifoxx.Eval.Planes.{bit, block, same_bit, set_row-Returns}
use verifoxx.Eval.Scalar.{evaluate_instructions}
use verifoxx.Eval.Verdicts.{Holds}
use verifoxx.Eval.RowSpec.{verdicts}
use verifoxx.Eval.Correct.Instructions.{evaluate_instructions-verdicts}
use verifoxx.Tests.Policy.{policy, policy-HasValidCode, policy-HasValidTables}
use verifoxx.Eval.Executor.{resolve_winner}
use verifoxx.Eval.Correct.Resolution.{Resolves, resolve_winner-Resolves}

abbrev pub requests : Batch
requests = record {
  rows = 2;
  words = 1;
  values = 0 ∷ 0 ∷ 0 ∷ 0 ∷ 1 ∷ 1 ∷ replicate 8 0;
  present = replicate 7 3;
  valid = replicate 7 3;
  semantic_issue_masks = 0 ∷ 0 ∷ [];
  evidence_kinds = 1 ∷ [];
  evidence_status = 2 ∷ [];
  evidence_timing = 0 ∷ [];
  evidence_reviewer = 0 ∷ [];
  evidence_timestamp_state = 0 ∷ [];
  evidence_subject = 0 ∷ [];
  evidence_attestation_state = 0 ∷ [];
  evidence_scope = 0 ∷ [];
  evidence_adjustment_type = 0 ∷ [];
  evidence_present = 1 ∷ [];
  evidence_flags = 0 ∷ [];
  evidence_ref_offsets = 0 ∷ 1 ∷ 2 ∷ [];
  evidence_refs = 1 ∷ 0 ∷ [];
}

validate_evidence_batch-HasEvidence_example :
    (validate_evidence_batch requests ≡ ok tt) ↔ HasEvidence requests
validate_evidence_batch-HasEvidence_example =
    validate_evidence_batch-HasEvidence requests (omega arith)

requests-accepted : validate_evidence_batch requests ≡ ok tt
unfolding validate_evidence_batch check_lengths check_offsets check_refs
requests-accepted = refl

pub requests-HasEvidence : HasEvidence requests
requests-HasEvidence =
    (validate_evidence_batch-HasEvidence requests (omega arith)).0 requests-accepted

pub requests-HasColumns : HasColumns (word_count 2) requests
requests-HasColumns = record {
  words = refl;
  values_length = refl;
  present_length = refl;
  valid_length = refl;
  masks_length = refl;
}

evaluate_instructions-verdicts_example :
    Returns
      (Holds 3 (word_count 2) 2 (verdicts policy requests 3))
      (evaluate_instructions policy requests (ensure policy 2))
evaluate_instructions-verdicts_example =
    evaluate_instructions-verdicts policy policy-HasValidCode (omega arith) requests
      requests-HasColumns requests-HasEvidence (omega arith) (omega arith)

-- The planes after the evaluation.
abbrev evaluated :
    (context : Context) × (evaluate_instructions policy requests (ensure policy 2) ≡ ok context)
    × Holds 3 (word_count 2) 2 (verdicts policy requests 3) context
evaluated = Returns-value (
    evaluate_instructions-verdicts policy policy-HasValidCode (omega arith) requests
      requests-HasColumns requests-HasEvidence (omega arith) (omega arith))

-- The second request, whose reference is missing.
resolve_winner-Resolves_example :
    Returns
      (Resolves policy requests (verdicts policy requests 3) 1)
      (resolve_winner policy (evaluated.0) requests 1)
resolve_winner-Resolves_example =
    resolve_winner-Resolves policy policy-HasValidTables requests (word_count 2) requests-HasColumns
      requests-HasEvidence (omega arith) (omega arith) (evaluated.0) (verdicts policy requests 3)
      (evaluated.2) 1 (omega arith) (omega arith)

-- Row 5 of the second of two planes of one word.
set_row-Returns_example :
    Returns
      (λ (storage : List ℕ).
        (length storage ≡ 2 * 1)
        × ((c s : ℕ)
            → s / 64 < 1
            → bit 1 storage c s ≡ (same_bit 1 5 c s || bit 1 (0 ∷ 0 ∷ []) c s)))
      (set_row (0 ∷ 0 ∷ []) (block 1 1) 5)
set_row-Returns_example = set_row-Returns 1 2 (0 ∷ 0 ∷ []) refl 1 5 (omega arith) (omega arith)
