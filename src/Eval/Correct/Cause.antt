-- ===== src/Eval/Correct/Cause.antt =====
-- internal/eval/executor.go: what a row's requirements and clauses come to, and what a winner stands for.
use verifoxx.Base.{
  ℕ, zero, suc, ◌+◌, ◌-◌, ◌*◌, ◌≤◌, ◌<◌, ◌≡◌, Bool, true, false, not, ◌&&◌, List, [], ◌∷◌, ◌++◌,
  length, get_or, if◌then◌else◌,
}
use verifoxx.Base.Bits.{has_bit}
use verifoxx.Schema.Field
use verifoxx.Schema.Outcome
use verifoxx.Schema.Reason
use verifoxx.Program.{Program}
use verifoxx.ResultBatch.{
  driver_none, driver_clause, driver_semantic, driver_missing_reference,
  driver_no_applicable_requirement,
}
use verifoxx.Eval.Batch.{Batch}
use verifoxx.Eval.Context.{u32}
use verifoxx.Eval.Executor.{Winner}
use verifoxx.Eval.Planes.{bit}
use verifoxx.Eval.Verdicts.{Table}
use verifoxx.Eval.Correct.Clauses.{clauses_of}
use verifoxx.Eval.Correct.Reasons.{settle_from}

-- The reason of a clause's assertion on a row, and the outcome the clause has for it.
abbrev pub clause_reason : Program → Table → ℕ → ℕ → ℕ
clause_reason p t row id =
    settle_from 1 (t (get_or p.clause_assertion_roots (id - 1) 0 - 1) row).reason

abbrev pub clause_outcome : Program → Table → ℕ → ℕ → ℕ
clause_outcome p t row id =
    get_or p.clause_resolution_outcome_ids ((id - 1) * Reason.count + clause_reason p t row id - 1)
      0

-- Whether a requirement applies to a row.
abbrev pub applies : Program → Table → ℕ → ℕ → Bool
applies p t row index =
    (t (get_or p.requirement_applicability_roots index 0 - 1) row).positive
    && not (t (get_or p.requirement_applicability_roots index 0 - 1) row).negative

-- The numbers of the applicable ones among the first `k` requirements.
unfoldable pub applicable_ids : (ℕ → Bool) → ℕ → List ℕ
applicable_ids f zero = []
applicable_ids f (suc k) =
    let rest = applicable_ids f k in if f k then rest ++ (k + 1) ∷ [] else rest

-- The rank of an outcome in the compiled table.
abbrev pub precedence : Program → ℕ → ℕ
precedence p outcome = get_or p.outcome_precedence (outcome - 1) 0

-- The rank is above what a semantic issue of the row, or a missing reference before an edge, gives.
abbrev pub IssuesBelow : Program → Batch → ℕ → ℕ → Type 0
IssuesBelow p batch row rank =
    (f : ℕ)
    → Field.requester ≤ f
    → f < Field.count
    → has_bit (get_or batch.semantic_issue_masks row 0) (f - 1) ≡ true
    → precedence p Outcome.escalate < rank

abbrev pub ReferencesBelow : Program → Batch → ℕ → ℕ → ℕ → Type 0
ReferencesBelow p batch row end rank =
    (edge : ℕ)
    → get_or batch.evidence_ref_offsets row 0 ≤ edge
    → edge < end
    → get_or batch.evidence_refs edge 0 ≡ 0
    → precedence p Outcome.escalate < rank

-- The rank is above those of the first `n` clauses of a requirement, and of all the clauses of the
-- applicable ones before it.
abbrev pub ClausesBelow : Program → Table → ℕ → ℕ → ℕ → ℕ → Type 0
ClausesBelow p t row index n rank =
    (j : ℕ) → j < n → precedence p (clause_outcome p t row (get_or (clauses_of p index) j 0)) < rank

abbrev pub EarlierBelow : Program → Table → ℕ → ℕ → ℕ → Type 0
EarlierBelow p t row index rank =
    (i : ℕ)
    → i < index
    → applies p t row i ≡ true
    → ClausesBelow p t row i (length (clauses_of p i)) rank

-- A winner that a clause's outcome on the row made.
pub record IsClause (p : Program) (t : Table) (row number id : ℕ) (w : Winner) : Type 0 where
  pub kind : w.kind ≡ driver_clause
  pub requirement : w.requirement ≡ number
  pub clause : w.clause ≡ id
  pub reason : w.reason ≡ clause_reason p t row id
  pub outcome : w.outcome ≡ clause_outcome p t row id

-- A winner that an uncertainty of the row escalated.
pub record IsEscalation (driver state : ℕ) (w : Winner) : Type 0 where
  pub kind : w.kind ≡ driver
  pub reason : w.reason ≡ state
  pub outcome : w.outcome ≡ Outcome.escalate

-- What there is in a row for its winner: the approval that the search starts with, a field with a
-- semantic issue, a missing reference, a clause of an applicable requirement, or no such requirement;
-- and what the search looks at before it has a lower rank.
pub data HasCause (p : Program) (batch : Batch) (t : Table) (row : ℕ) (w : Winner) : Type 0 where
  approved :
      w.outcome ≡ Outcome.approve
      → w.kind ≡ driver_none
      → w.reason ≡ Reason.satisfied
      → HasCause p batch t row w
  by_issue :
      (f : ℕ)
      → Field.requester ≤ f
      → f < Field.count
      → has_bit (get_or batch.semantic_issue_masks row 0) (f - 1) ≡ true
      → IsEscalation driver_semantic
          (if bit batch.words batch.present (f - 1) row then Reason.unclear else Reason.missing)
          w
      → w.field ≡ f
      → ((g : ℕ)
          → Field.requester ≤ g
          → g < f
          → has_bit (get_or batch.semantic_issue_masks row 0) (g - 1) ≡ false)
      → HasCause p batch t row w
  by_missing_reference :
      (edge : ℕ)
      → get_or batch.evidence_ref_offsets row 0 ≤ edge
      → edge < get_or batch.evidence_ref_offsets (row + 1) 0
      → get_or batch.evidence_refs edge 0 ≡ 0
      → IsEscalation driver_missing_reference Reason.missing w
      → w.edge ≡ u32 (edge + 1)
      → IssuesBelow p batch row w.rank
      → ReferencesBelow p batch row edge w.rank
      → HasCause p batch t row w
  by_clause :
      (index j : ℕ)
      → index < length p.requirement_applicability_roots
      → applies p t row index ≡ true
      → j < length (clauses_of p index)
      → IsClause p t row (index + 1) (get_or (clauses_of p index) j 0) w
      → precedence p Outcome.approve < w.rank
      → IssuesBelow p batch row w.rank
      → ReferencesBelow p batch row (get_or batch.evidence_ref_offsets (row + 1) 0) w.rank
      → EarlierBelow p t row index w.rank
      → ClausesBelow p t row index j w.rank
      → HasCause p batch t row w
  by_none :
      applicable_ids (applies p t row) (length p.requirement_applicability_roots) ≡ []
      → IsEscalation driver_no_applicable_requirement Reason.unverifiable w
      → IssuesBelow p batch row w.rank
      → ReferencesBelow p batch row (get_or batch.evidence_ref_offsets (row + 1) 0) w.rank
      → HasCause p batch t row w
