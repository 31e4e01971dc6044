-- ===== src/Eval/Resolve.antt =====
-- internal/eval/executor.go: how a row's result is written, and `EvaluateInto`.
use verifoxx.Base.{
  ℕ, zero, suc, ◌+◌, ◌-◌, ◌*◌, ◌%◌, ◌^◌, Bool, true, false, not, ◌&&◌, ◌||◌, List, [], ◌∷◌, length,
  ltb, ◌==◌, if◌then◌else◌, Run, ok, err, panic, ◌>>=◌, ◌>>◌, reject_if, nth, slice, for_range,
}
use verifoxx.Schema.{is_valid_id}
use verifoxx.Schema.Outcome
use verifoxx.Program.{Program}
use verifoxx.ResultBatch.{ResultBatch, Slice, driver_clause, append_item, store_item}
use verifoxx.ResultBatch
use verifoxx.Eval.Error.{Error, capacity_overflow, column_capacity}
use verifoxx.Eval.Batch.{Batch}
use verifoxx.Eval.Context.{Context, u32}
use verifoxx.Eval.Scalar.{evaluate_instructions, is_in}
use verifoxx.Eval.Executor.{Winner, resolve_winner, requirement_clauses}

-- The evidence kinds of a clause.
unfoldable pub clause_kinds : Program → ℕ → Run Error (List ℕ)
clause_kinds compiled clause_id = do
  start ← if clause_id == 0 then panic else nth compiled.clause_evidence_kind_starts (clause_id - 1)
  count ← nth compiled.clause_evidence_kind_counts (clause_id - 1)
  slice compiled.clause_evidence_kinds start (start + count)

unfoldable pub clauses_require : Program → ℕ → List ℕ → Run Error Bool
clauses_require compiled kind [] = ok false
clauses_require compiled kind (clause_id ∷ clause_ids) = do
  kinds ← clause_kinds compiled clause_id
  if is_in kinds kind then ok true else clauses_require compiled kind clause_ids

-- `n` applicable requirements of the row, from the `i`-th entry of `dst.RequirementIDs` on.
unfoldable pub requirements_require : Program → ResultBatch → ℕ → ℕ → ℕ → Run Error Bool
requirements_require compiled dst kind zero i = ok false
requirements_require compiled dst kind (suc n) i = do
  let rest = requirements_require compiled dst kind n (suc i)
  id ← nth dst.requirement_ids.items i
  clause_ids ← if id == 0 then panic else requirement_clauses compiled (id - 1)
  found ← clauses_require compiled kind clause_ids
  if found then ok true else rest

unfoldable pub evidence_required_for_row : Program → Batch → ResultBatch → ℕ → ℕ → Run Error Bool
evidence_required_for_row compiled batch dst row ref = do
  kind ← if ref == 0 then panic else nth batch.evidence_kinds (ref - 1)
  if not (is_valid_id kind) then ok false else do
    start ← nth dst.requirement_offsets.items row
    end ← nth dst.requirement_offsets.items (row + 1)
    requirements_require compiled dst kind (end - start) start

-- Whether one of `n` results from the `i`-th on is `ref`.
unfoldable pub is_duplicate : List ℕ → ℕ → ℕ → ℕ → Run Error Bool
is_duplicate refs ref zero i = ok false
is_duplicate refs ref (suc n) i = do
  let rest = is_duplicate refs ref n (suc i)
  have ← nth refs i
  if have == ref then ok true else rest

-- A round of the loop over the row's evidence edges.
unfoldable pub collect_round : Program → Batch → ℕ → ℕ → ResultBatch → Run Error ResultBatch
collect_round compiled batch row edge dst = do
  ref ← nth batch.evidence_refs edge
  if ref == 0 then ok dst else do
    required ← evidence_required_for_row compiled batch dst row ref
    if not required then ok dst else do
      first ← nth dst.evidence_offsets.items row
      duplicate ←
          is_duplicate dst.evidence_refs.items ref (u32 (length dst.evidence_refs.items) - first)
            first
      if duplicate
          then ok dst
          else ok (record dst { evidence_refs = append_item dst.evidence_refs ref })

abbrev pub append_items : Slice → List ℕ → Slice
append_items s [] = s
append_items s (v ∷ vs) = append_items (append_item s v) vs

unfoldable pub winner_remediations : Program → Winner → Run Error (List ℕ)
winner_remediations compiled winner =
    if winner.outcome == Outcome.revise && winner.kind == driver_clause
    then ((if winner.clause == 0
          then panic
          else nth compiled.clause_remediation_starts (winner.clause - 1))
        >>= λ start. nth compiled.clause_remediation_counts (winner.clause - 1) >>= λ count.
            slice compiled.clause_remediation_ids start (start + count))
    else ok []

-- The last statements of `resolveRow`.
unfoldable pub write_winner : ResultBatch → ℕ → Winner → Run Error ResultBatch
write_winner dst row winner = do
  outcome_ids ← store_item dst.outcome_ids row winner.outcome
  driver_kinds ← store_item dst.driver_kinds row winner.kind
  driver_requirement_ids ← store_item dst.driver_requirement_ids row winner.requirement
  driver_clause_ids ← store_item dst.driver_clause_ids row winner.clause
  driver_reason_ids ← store_item dst.driver_reason_ids row winner.reason
  driver_field_ids ← store_item dst.driver_field_ids row winner.field
  driver_evidence_edge_ids ← store_item dst.driver_evidence_edge_ids row winner.edge
  issue_ids ←
      if not (winner.outcome == Outcome.approve)
      then store_item dst.issue_ids row winner.reason
      else ok dst.issue_ids
  ok (record dst {
    outcome_ids = outcome_ids;
    driver_kinds = driver_kinds;
    driver_requirement_ids = driver_requirement_ids;
    driver_clause_ids = driver_clause_ids;
    driver_reason_ids = driver_reason_ids;
    driver_field_ids = driver_field_ids;
    driver_evidence_edge_ids = driver_evidence_edge_ids;
    issue_ids = issue_ids;
  })

-- `dst.RequirementOffsets[row]`, the row's requirements and `dst.RequirementOffsets[row+1]`.
unfoldable pub write_requirements : ResultBatch → ℕ → List ℕ → Run Error ResultBatch
write_requirements dst row ids = do
  opened ← store_item dst.requirement_offsets row (u32 (length dst.requirement_ids.items))
  let requirement_ids = append_items dst.requirement_ids ids
  offsets ← store_item opened (row + 1) (u32 (length requirement_ids.items))
  ok (record dst { requirement_offsets = offsets; requirement_ids = requirement_ids })

unfoldable pub write_remediations : ResultBatch → ℕ → List ℕ → Run Error ResultBatch
write_remediations dst row ids = do
  opened ← store_item dst.remediation_offsets row (u32 (length dst.remediation_ids.items))
  let remediation_ids = append_items dst.remediation_ids ids
  offsets ← store_item opened (row + 1) (u32 (length remediation_ids.items))
  ok (record dst { remediation_offsets = offsets; remediation_ids = remediation_ids })

unfoldable pub write_evidence : Program → Batch → ℕ → ResultBatch → Run Error ResultBatch
write_evidence compiled batch row dst = do
  opened ← store_item dst.evidence_offsets row (u32 (length dst.evidence_refs.items))
  start ← nth batch.evidence_ref_offsets row
  end ← nth batch.evidence_ref_offsets (row + 1)
  collected ←
      for_range (end - start) start (collect_round compiled batch row)
        (record dst { evidence_offsets = opened })
  offsets ←
      store_item collected.evidence_offsets (row + 1) (u32 (length collected.evidence_refs.items))
  ok (record collected { evidence_offsets = offsets })

-- `resolveRow`. The winner does not depend on `dst`, so the row's requirements are written after
-- it is found.
unfoldable pub resolve_row : Program → Context → Batch → ℕ → ResultBatch → Run Error ResultBatch
resolve_row compiled context batch row dst = do
  applied ← resolve_winner compiled context batch row
  with_requirements ← write_requirements dst row applied.requirement_ids
  with_evidence ← write_evidence compiled batch row with_requirements
  remediations ← winner_remediations compiled applied.winner
  with_remediations ← write_remediations with_evidence row remediations
  write_winner with_remediations row applied.winner

-- A capacity error, passed on.
unfoldable pub lift_capacity : Run ResultBatch.CapacityError (Unit {0}) → Run Error (Unit {0})
lift_capacity (ok u) = ok u
lift_capacity (err e) = err (column_capacity e.column e.need)
lift_capacity panic = panic

-- The largest `int`.
abbrev pub max_int : ℕ
max_int = 2 ^ 63 - 1

unfoldable pub evaluate_into :
    Program → Context → Batch → ResultBatch → Run Error (Context × ResultBatch)
evaluate_into compiled context batch dst = do
  let requirement_capacity = batch.rows * length compiled.requirement_symbols % 2 ^ 64
  let remediation_capacity = batch.rows * length compiled.remediations % 2 ^ 64
  reject_if (ltb max_int requirement_capacity || ltb max_int remediation_capacity) capacity_overflow
  lift_capacity (
      ResultBatch.check_capacity dst batch.rows requirement_capacity (length batch.evidence_refs)
        remediation_capacity)
  evaluated ← evaluate_instructions compiled batch context
  empty ← ResultBatch.reset dst batch.rows
  resolved ← for_range batch.rows 0 (resolve_row compiled evaluated batch) empty
  ok (evaluated, resolved)
