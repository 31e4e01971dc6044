-- ===== src/Eval/Executor.antt =====
-- internal/eval/executor.go: the numeric result of a row, from the planes and the compiled policy.
use verifoxx.Base.{
  ℕ, zero, suc, ◌+◌, ◌-◌, ◌*◌, ◌%◌, ◌^◌, Bool, false, not, List, [], ◌∷◌, ◌++◌, length, ltb, ◌==◌,
  if◌then◌else◌, Run, ok, panic, ◌>>=◌, nth, slice, for_range,
}
use verifoxx.Base.Bits.{has_bit}
use verifoxx.Schema.Field
use verifoxx.Schema.Outcome
use verifoxx.Schema.Reason
use verifoxx.Program.{Program}
use verifoxx.ResultBatch.{
  driver_none, driver_clause, driver_semantic, driver_missing_reference,
  driver_no_applicable_requirement,
}
use verifoxx.Eval.Error.{Error}
use verifoxx.Eval.Batch.{Batch, field_present}
use verifoxx.Eval.Context.{
  Context, u32, has_row, has_row_in, positive_plane, negative_plane, reason_plane,
}

-- The `winner…` variables of `resolveRow`.
pub record Winner : Type 0 where
  pub outcome : ℕ
  pub kind : ℕ
  pub requirement : ℕ
  pub clause : ℕ
  pub reason : ℕ
  pub field : ℕ
  pub edge : ℕ
  pub rank : ℕ

-- `compiled.OutcomePrecedence[int(outcome)-1]`
unfoldable pub rank_of : Program → ℕ → Run Error ℕ
rank_of compiled outcome =
    if outcome == 0 then panic else nth compiled.outcome_precedence (outcome - 1)

-- `if rank > winnerRank`
abbrev pub challenge : Winner → Winner → Winner
challenge winner challenger = if ltb winner.rank challenger.rank then challenger else winner

unfoldable pub start_winner : Program → Run Error Winner
start_winner compiled = do
  rank ← rank_of compiled Outcome.approve
  ok (record {
    outcome = Outcome.approve;
    kind = driver_none;
    requirement = 0;
    clause = 0;
    reason = Reason.satisfied;
    field = 0;
    edge = 0;
    rank = rank;
  })

-- `n` fields from `field` on: the first with an issue challenges, and the loop breaks.
unfoldable pub semantic_from : Program → Batch → ℕ → ℕ → ℕ → ℕ → Winner → Run Error Winner
semantic_from compiled batch row mask zero field winner = ok winner
semantic_from compiled batch row mask (suc n) field winner =
    let next = semantic_from compiled batch row mask n (suc field) winner in
    if not (has_bit mask (field - 1))
    then next
    else (has_row (field_present batch field) row >>= λ is_present.
        rank_of compiled Outcome.escalate >>= λ rank. ok (
          challenge winner (record winner {
            outcome = Outcome.escalate;
            kind = driver_semantic;
            reason = if is_present then Reason.unclear else Reason.missing;
            field = field;
            rank = rank;
          })))

unfoldable pub semantic_winner : Program → Batch → ℕ → Winner → Run Error Winner
semantic_winner compiled batch row winner = do
  mask ← nth batch.semantic_issue_masks row
  semantic_from compiled batch row mask (Field.count - Field.requester) Field.requester winner

-- A round of the loop over the row's evidence edges.
unfoldable pub reference_round : Program → Batch → ℕ → Winner → Run Error Winner
reference_round compiled batch edge winner = do
  ref ← nth batch.evidence_refs edge
  if not (ref == 0) then ok winner else do
    rank ← rank_of compiled Outcome.escalate
    ok (
        challenge winner (record winner {
          outcome = Outcome.escalate;
          kind = driver_missing_reference;
          reason = Reason.missing;
          edge = u32 (edge + 1);
          rank = rank;
        }))

-- `instructionReason`: the first reason from `reason` on whose plane has the row.
unfoldable pub reason_from : Context → ℕ → ℕ → ℕ → ℕ → Run Error ℕ
reason_from context instruction row zero reason = ok Reason.unverifiable
reason_from context instruction row (suc n) reason = do
  let rest = reason_from context instruction row n (suc reason)
  plane ← reason_plane context reason instruction
  found ← has_row_in context.reasons plane row
  if found then ok reason else rest

unfoldable pub instruction_reason : Context → ℕ → ℕ → Run Error ℕ
instruction_reason context instruction row =
    reason_from context instruction row Reason.count Reason.satisfied

-- A round of the loop over the clauses of an applicable requirement.
unfoldable pub clause_round : Program → Context → ℕ → ℕ → ℕ → Winner → Run Error Winner
clause_round compiled context row requirement_id clause_id winner = do
  root ← if clause_id == 0 then panic else nth compiled.clause_assertion_roots (clause_id - 1)
  reason ← instruction_reason context root row
  outcome ← nth compiled.clause_resolution_outcome_ids ((clause_id - 1) * Reason.count + reason - 1)
  rank ← rank_of compiled outcome
  ok (
      challenge winner (record {
        outcome = outcome;
        kind = driver_clause;
        requirement = requirement_id;
        clause = clause_id;
        reason = reason;
        field = 0;
        edge = 0;
        rank = rank;
      }))

unfoldable pub clause_rounds : Program → Context → ℕ → ℕ → List ℕ → Winner → Run Error Winner
clause_rounds compiled context row requirement_id [] winner = ok winner
clause_rounds compiled context row requirement_id (clause_id ∷ clause_ids) winner =
    clause_round compiled context row requirement_id clause_id winner
    >>= clause_rounds compiled context row requirement_id clause_ids

-- `RequirementClauseIDs[clauseStart:clauseEnd]`
unfoldable pub requirement_clauses : Program → ℕ → Run Error (List ℕ)
requirement_clauses compiled index = do
  start ← nth compiled.requirement_clause_starts index
  count ← nth compiled.requirement_clause_counts index
  slice compiled.requirement_clause_ids start (start + count)

-- What the loop over the requirements changes: the winner and the applicable requirements.
pub record Applied : Type 0 where
  pub winner : Winner
  pub requirement_ids : List ℕ

-- `hasRow(positive, row) && !hasRow(negative, row)` of an applicability root.
unfoldable pub is_applicable : Context → ℕ → ℕ → Run Error Bool
is_applicable context root row = do
  positive ← positive_plane context root
  pos ← has_row_in context.positive positive row
  if not pos then ok false else do
    negative ← negative_plane context root
    neg ← has_row_in context.negative negative row
    ok (not neg)

-- A requirement's number has 16 bits.
abbrev pub u16 : ℕ → ℕ
u16 n = n % 2 ^ 16

unfoldable pub requirement_round : Program → Context → ℕ → ℕ → Applied → Run Error Applied
requirement_round compiled context row index applied = do
  root ← nth compiled.requirement_applicability_roots index
  applicable ← is_applicable context root row
  if not applicable then ok applied else do
    clause_ids ← requirement_clauses compiled index
    winner ← clause_rounds compiled context row (u16 (index + 1)) clause_ids applied.winner
    ok (record {
      winner = winner;
      requirement_ids = applied.requirement_ids ++ u16 (index + 1) ∷ [];
    })

-- No applicable requirement is an uncertainty of its own.
unfoldable pub no_applicable_winner : Program → Applied → Run Error Winner
no_applicable_winner compiled applied =
    if not (length applied.requirement_ids == 0)
    then ok applied.winner
    else (rank_of compiled Outcome.escalate >>= λ rank. ok (
        challenge applied.winner (record applied.winner {
          outcome = Outcome.escalate;
          kind = driver_no_applicable_requirement;
          reason = Reason.unverifiable;
          rank = rank;
        })))

-- The winner and the applicable requirements of a row.
unfoldable pub resolve_winner : Program → Context → Batch → ℕ → Run Error Applied
resolve_winner compiled context batch row = do
  first ← start_winner compiled
  semantic ← semantic_winner compiled batch row first
  start ← nth batch.evidence_ref_offsets row
  end ← nth batch.evidence_ref_offsets (row + 1)
  referenced ← for_range (end - start) start (reference_round compiled batch) semantic
  applied ←
      for_range (length compiled.requirement_applicability_roots) 0
        (requirement_round compiled context row)
        (record { winner = referenced; requirement_ids = [] })
  winner ← no_applicable_winner compiled applied
  ok (record applied { winner = winner })
