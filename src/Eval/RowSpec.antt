-- ===== src/Eval/RowSpec.antt =====
-- The evaluator's specification: one row at a time, with no planes. The verdict of an instruction
-- on a row is a function of the row's fields, of the evidence that it refers to, and of the
-- verdicts of earlier instructions on the same row.
use verifoxx.Base.{
  ℕ, zero, suc, ◌+◌, ◌-◌, ◌*◌, Bool, true, false, not, ◌&&◌, ◌||◌, List, [], ◌∷◌, map, get_or, take,
  drop, ◌==◌, if◌then◌else◌,
}
use verifoxx.Base.Bits.{has_bit}
use verifoxx.Schema.Reason
use verifoxx.Program.{Program, EvidenceSpec}
use verifoxx.Program.Opcode
use verifoxx.Eval.Batch.{Batch, flag_conflict, flag_stale, flag_revoked}
use verifoxx.Eval.Evidence.{QualifierResult, satisfied, unclear, wrong, Qualifier, qualifiers}
use verifoxx.Eval.Scalar.{is_in, priority}
use verifoxx.Eval.Planes.{bit}
use verifoxx.Eval.Verdicts.{Verdict, cleared, Table}

abbrev pub any {ℓ} : {A : Type ℓ} → (A → Bool) → List A → Bool
any test [] = false
any test (x ∷ xs) = test x || any test xs

abbrev pub all {ℓ} : {A : Type ℓ} → (A → Bool) → List A → Bool
all test [] = true
all test (x ∷ xs) = test x && all test xs

-- A comparison of a field with a value or a set.
unfoldable pub compare_verdict : Bool → Bool → Bool → Verdict
compare_verdict present valid matches =
    if not present
    then record { positive = false; negative = false; reason = Reason.missing }
    else if not valid
    then record { positive = false; negative = false; reason = Reason.unclear }
    else if matches
    then record { positive = true; negative = false; reason = Reason.satisfied }
    else record { positive = false; negative = true; reason = Reason.refuted }

unfoldable pub field_verdict : Batch → ℕ → (ℕ → Bool) → ℕ → Verdict
unfolding compare_verdict
field_verdict batch field matches row =
    compare_verdict (bit batch.words batch.present (field - 1) row)
      (bit batch.words batch.valid (field - 1) row)
      (matches (get_or batch.values ((field - 1) * batch.rows + row) 0))

-- A qualifier that the spec wants, of an evidence record: absent, or there with another value.
abbrev pub is_absent : List ℕ → ℕ → Qualifier → Bool
is_absent present index (column, number, want) =
    not (want == 0) && not (has_bit (get_or present index 0) number)

abbrev pub is_mismatched : List ℕ → ℕ → Qualifier → Bool
is_mismatched present index (column, number, want) =
    not (want == 0)
    && has_bit (get_or present index 0) number
    && not (get_or column index 0 == want)

unfoldable pub qualifier_class : List ℕ → ℕ → Bool → List Qualifier → QualifierResult
qualifier_class present index is_unclear qs =
    if any (is_mismatched present index) qs
    then wrong
    else if is_unclear || any (is_absent present index) qs
    then unclear
    else satisfied

-- What a reference of the row says for a spec.
pub data EdgeClass : Type 0 where
  unrelated conflicting outdated withdrawn : EdgeClass
  qualified : QualifierResult → EdgeClass

unfoldable pub edge_class : Batch → EvidenceSpec → ℕ → EdgeClass
unfolding qualifier_class
edge_class batch spec ref =
    if ref == 0
    then unrelated
    else if not (get_or batch.evidence_kinds (ref - 1) 0 == spec.kind)
    then unrelated
    else let flags = get_or batch.evidence_flags (ref - 1) 0 in
      if has_bit flags flag_conflict
      then conflicting
      else if has_bit flags flag_stale
      then outdated
      else if has_bit flags flag_revoked
      then withdrawn
      else qualified
          (qualifier_class batch.evidence_present (ref - 1) false (qualifiers batch spec))

abbrev pub is_conflicting : EdgeClass → Bool
is_conflicting conflicting = true
is_conflicting _ = false

abbrev pub is_outdated : EdgeClass → Bool
is_outdated outdated = true
is_outdated _ = false

abbrev pub is_withdrawn : EdgeClass → Bool
is_withdrawn withdrawn = true
is_withdrawn _ = false

abbrev pub is_unclear : EdgeClass → Bool
is_unclear (qualified unclear) = true
is_unclear _ = false

abbrev pub is_satisfied : EdgeClass → Bool
is_satisfied (qualified satisfied) = true
is_satisfied _ = false

abbrev pub is_wrong : EdgeClass → Bool
is_wrong (qualified wrong) = true
is_wrong _ = false

-- A conflict outranks stale evidence, that revoked evidence, that unclear evidence, that a match,
-- and a match a mismatch.
unfoldable pub reduce_classes : List EdgeClass → Verdict
reduce_classes classes =
    if any is_conflicting classes
    then record { positive = true; negative = true; reason = Reason.conflict }
    else if any is_outdated classes
    then record { positive = false; negative = false; reason = Reason.stale }
    else if any is_withdrawn classes
    then record { positive = false; negative = false; reason = Reason.invalid_evidence }
    else if any is_unclear classes
    then record { positive = false; negative = false; reason = Reason.unclear }
    else if any is_satisfied classes
    then record { positive = true; negative = false; reason = Reason.satisfied }
    else if any is_wrong classes
    then record { positive = false; negative = false; reason = Reason.invalid_evidence }
    else record { positive = false; negative = false; reason = Reason.missing }

-- The references of a row.
abbrev pub row_refs : Batch → ℕ → List ℕ
row_refs batch row =
    let start = get_or batch.evidence_ref_offsets row 0 in
    let end = get_or batch.evidence_ref_offsets (row + 1) 0 in
    take (end - start) (drop start batch.evidence_refs)

unfoldable pub evidence_verdict : Batch → EvidenceSpec → ℕ → Verdict
unfolding edge_class reduce_classes
evidence_verdict batch spec row = reduce_classes (map (edge_class batch spec) (row_refs batch row))

-- The first reason of `priority` that an operand has, else unverifiable.
abbrev pub first_reason : List Verdict → List ℕ → ℕ
first_reason verdicts [] = Reason.unverifiable
first_reason verdicts (reason ∷ reasons) =
    if any (λ (v : Verdict). reason == v.reason) verdicts
    then reason
    else first_reason verdicts reasons

-- A conjunction: true when all are, false when one is, in conflict when both.
unfoldable pub all_verdict : List Verdict → Verdict
all_verdict verdicts =
    let positive = all (λ (v : Verdict). v.positive) verdicts in
    let negative = any (λ (v : Verdict). v.negative) verdicts in
    record {
      positive = positive;
      negative = negative;
      reason =
          if positive && negative
          then Reason.conflict
          else if negative
          then Reason.refuted
          else if positive
          then Reason.satisfied
          else first_reason verdicts priority;
    }

abbrev pub no_spec : EvidenceSpec
no_spec = record {
  kind = 0;
  status = 0;
  timing = 0;
  reviewer = 0;
  timestamp_state = 0;
  subject = 0;
  attestation_state = 0;
  scope = 0;
  adjustment_type = 0;
}

abbrev pub operands_of : Program → ℕ → List ℕ
operands_of p index =
    take (get_or p.operand_counts index 0) (drop (get_or p.operand_starts index 0) p.operands)

abbrev pub set_of : Program → ℕ → List ℕ
set_of p index =
    take (get_or p.set_counts index 0) (drop (get_or p.set_starts index 0) p.set_values)

abbrev pub spec_of : Program → ℕ → EvidenceSpec
spec_of p index = get_or p.evidence_specs (get_or p.evidence_spec_indexes index 0 - 1) no_spec

-- The verdict of instruction `index + 1`, from those of earlier instructions on the row.
unfoldable pub instruction_verdict : Program → Batch → (ℕ → Verdict) → ℕ → ℕ → Verdict
unfolding field_verdict evidence_verdict all_verdict is_in
instruction_verdict p batch earlier index row =
    let opcode = get_or p.opcodes index 0 in
    let field = get_or p.fields index 0 in
    if opcode == Opcode.equal
    then field_verdict batch field (λ value. value == get_or p.values index 0) row
    else if opcode == Opcode.in_set
    then field_verdict batch field (is_in (set_of p index)) row
    else if opcode == Opcode.all
    then all_verdict (map (λ operand. earlier (operand - 1)) (operands_of p index))
    else evidence_verdict batch (spec_of p index) row

-- The verdicts when the first `count` instructions have been evaluated.
unfoldable pub verdicts : Program → Batch → ℕ → Table
unfolding instruction_verdict
verdicts p batch zero i row = cleared
verdicts p batch (suc count) i row =
    if i == count
    then instruction_verdict p batch (λ j. verdicts p batch count j row) count row
    else verdicts p batch count i row
