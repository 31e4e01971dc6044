-- ===== src/Eval/Correct/Resolution.antt =====
-- internal/eval/executor.go: the search for the winner of a row, as a whole.
use native.Mathlib.Decide.{ℕ_discrete}
use native.Mathlib.Nat.{le_refl}
use verifoxx.Base.{
  ℕ, suc, ◌+◌, ◌-◌, ◌*◌, ◌^◌, ◌≤◌, ◌<◌, ◌≡◌, refl, sym, ap, ◌∙◌, true, List, [], ◌∷◌, arith, length,
  get_or, nth-get_or, ne→==, eq→==, Returns, returns, Returns-bind, Returns-mono, for_range,
  for_range_inv,
}
use verifoxx.Base.Bits.{has_bit}
use verifoxx.Schema.Field
use verifoxx.Schema.Outcome
use verifoxx.Schema.Reason
use verifoxx.Program.{Program}
use verifoxx.Program.Valid.{HasValidTables}
use verifoxx.Eval.Batch.{Batch}
use verifoxx.Eval.Context.{Context}
use verifoxx.Eval.Shape.{HasColumns, HasEvidence}
use verifoxx.Eval.Verdicts.{Table, Holds}
use verifoxx.Eval.Executor.{
  Winner, Applied, semantic_winner, reference_round, no_applicable_winner, resolve_winner,
}
use verifoxx.Eval.Correct.Winner.{
  IsRanked, Climbs, escalation, rank_of-precedence, challenge-Climbs, start_winner-Climbs,
  semantic_from-Climbs, reference_round-Climbs,
}
use verifoxx.Eval.Correct.Clauses.{clauses_of}
use verifoxx.Eval.Correct.Requirements.{requirements-Searched}
use verifoxx.Eval.Correct.Cause.{
  HasCause, precedence, IssuesBelow, ReferencesBelow, clause_outcome, applies, applicable_ids,
}
use verifoxx.ResultBatch.{driver_no_applicable_requirement}

-- A row's result: its winner is the first of those of the highest rank that challenge for the row, and
-- its requirements are the applicable ones.
pub record Resolves (p : Program) (batch : Batch) (t : Table) (row : ℕ) (a : Applied) : Type 0 where
  pub ranked : IsRanked p a.winner
  pub cause : HasCause p batch t row a.winner
  pub start : precedence p Outcome.approve ≤ a.winner.rank
  pub issues :
      (f : ℕ)
      → Field.requester ≤ f
      → f < Field.count
      → has_bit (get_or batch.semantic_issue_masks row 0) (f - 1) ≡ true
      → precedence p Outcome.escalate ≤ a.winner.rank
  pub references :
      (edge : ℕ)
      → get_or batch.evidence_ref_offsets row 0 ≤ edge
      → edge < get_or batch.evidence_ref_offsets (row + 1) 0
      → get_or batch.evidence_refs edge 0 ≡ 0
      → precedence p Outcome.escalate ≤ a.winner.rank
  pub clauses :
      (index : ℕ)
      → index < length p.requirement_applicability_roots
      → applies p t row index ≡ true
      → (j : ℕ) → j < length (clauses_of p index)
      → precedence p (clause_outcome p t row (get_or (clauses_of p index) j 0)) ≤ a.winner.rank
  pub ids :
      a.requirement_ids
      ≡ applicable_ids (applies p t row) (length p.requirement_applicability_roots)
  pub none : a.requirement_ids ≡ [] → precedence p Outcome.escalate ≤ a.winner.rank

length-empty : (xs : List ℕ) → length xs ≡ 0 → xs ≡ []
length-empty [] h = refl
length-empty (x ∷ xs) h = absurd (omega arith)

module _ (p : Program) (tables : HasValidTables p) (batch : Batch) (w : ℕ)
    (columns : HasColumns w batch) (evidence : HasEvidence batch) (wide : batch.rows ≤ w * 64)
    (nonempty : 0 < w) (context : Context) (t : Table)
    (holds : Holds (length p.opcodes) w batch.rows t context) (row : ℕ)
    (hr : row < batch.rows) where
  semantic_winner-Climbs :
      (low : ℕ) (winner : Winner)
      → Climbs p (HasCause p batch t row) low winner
      → Returns
          (λ w'.
            Climbs p (HasCause p batch t row) low w'
            × ((f : ℕ)
                → Field.requester ≤ f
                → f < Field.count
                → has_bit (get_or batch.semantic_issue_masks row 0) (f - 1) ≡ true
                → precedence p Outcome.escalate ≤ w'.rank))
          (semantic_winner p batch row winner)
  unfolding semantic_winner
  semantic_winner-Climbs low winner h =
      rw (nth-get_or batch.semantic_issue_masks row 0 (omega (arith, columns.masks_length))) (
        semantic_from-Climbs p tables batch w columns wide t row hr low _ _ _ winner (omega arith)
          (omega arith) refl (λ g low' high. absurd (omega arith)) h)

  references-Climbs :
      (low : ℕ) (winner : Winner)
      → IssuesBelow p batch row (suc low)
      → Climbs p (HasCause p batch t row) low winner
      → Returns
          (λ w'.
            Climbs p (HasCause p batch t row) low w'
            × ((edge : ℕ)
                → get_or batch.evidence_ref_offsets row 0 ≤ edge
                → edge < get_or batch.evidence_ref_offsets (row + 1) 0
                → get_or batch.evidence_refs edge 0 ≡ 0
                → precedence p Outcome.escalate ≤ w'.rank))
          (for_range
            (get_or batch.evidence_ref_offsets (row + 1) 0
              - get_or batch.evidence_ref_offsets row 0)
            (get_or batch.evidence_ref_offsets row 0)
            (reference_round p batch)
            winner)
  references-Climbs low winner issues h =
      let start = get_or batch.evidence_ref_offsets row 0 in
      let end = get_or batch.evidence_ref_offsets (row + 1) 0 in
      let rises = evidence.offsets_rise row hr in
      let inside = evidence.offsets_end (row + 1) (omega arith) in
      Returns-mono
        (for_range_inv
          (λ (k : ℕ) (w' : Winner).
            Climbs p (HasCause p batch t row) low w'
            × ((edge : ℕ)
                → start ≤ edge
                → edge < k
                → get_or batch.evidence_refs edge 0 ≡ 0
                → precedence p Outcome.escalate ≤ w'.rank))
          (reference_round p batch) (end - start) start winner
          (λ i v from to (climbs, before).
            Returns-mono
              (reference_round-Climbs p tables batch w columns wide t row hr low i v (omega arith)
                from (omega arith)
                (λ f low' high set. omega (arith, issues f low' high set, climbs.above))
                (λ k low' high missing. omega (arith, before k low' high missing)) climbs)
              λ v' (climbs', rise, now). (
                climbs',
                λ edge low' high missing. elim (ℕ_discrete edge i) [
                  | yes e ↦ now (ap (λ (k : ℕ). get_or batch.evidence_refs k 0) (sym e) ∙ missing)
                  | no d ↦ omega (arith, before edge low' (omega arith) missing)
                ],
              ))
          (h, λ edge low' high. absurd (omega arith)))
        λ w' (climbs, all). (climbs, λ edge low' high. all edge low' (omega arith))

  no_applicable_winner-Climbs :
      (low : ℕ) (a : Applied)
      → a.requirement_ids
        ≡ applicable_ids (applies p t row) (length p.requirement_applicability_roots)
      → IssuesBelow p batch row (suc low)
      → ReferencesBelow p batch row (get_or batch.evidence_ref_offsets (row + 1) 0) (suc low)
      → Climbs p (HasCause p batch t row) low a.winner
      → Returns
          (λ w'.
            Climbs p (HasCause p batch t row) low w'
            × (a.requirement_ids ≡ [] → precedence p Outcome.escalate ≤ w'.rank))
          (no_applicable_winner p a)
  unfolding no_applicable_winner
  no_applicable_winner-Climbs low a ids issues references h =
      elim (ℕ_discrete (length a.requirement_ids) 0) [
        | no some ↦
            rw (ne→== (length a.requirement_ids) 0 some)
              (returns (h, λ e. absurd (some (ap length e))))
        | yes empty ↦
            let c : Winner = record a.winner {
              outcome = Outcome.escalate;
              kind = driver_no_applicable_requirement;
              reason = Reason.unverifiable;
              rank = precedence p Outcome.escalate;
            } in
            let cause : a.winner.rank < c.rank → HasCause p batch t row c = λ higher.
              HasCause.by_none (sym ids ∙ length-empty a.requirement_ids empty)
                (record { kind = refl; reason = refl; outcome = refl })
                (λ f from to set. omega (arith, issues f from to set, h.above, higher))
                (λ edge from to missing.
                  omega (arith, references edge from to missing, h.above, higher)) in
            let (climbs, over, _) =
              challenge-Climbs p tables (HasCause p batch t row) a.winner c low h
                (escalation p tables c refl refl) cause in
            rw
              (
                eq→== (length a.requirement_ids) 0 empty,
                rank_of-precedence p tables Outcome.escalate (omega arith) (omega arith),
              )
              (returns (climbs, λ e. over))
      ]

  -- For a program with valid tables (HasValidTables) and fewer than 2^16 requirements, a batch of
  -- the declared shape over w > 0 words that hold its rows, with valid evidence, a context whose
  -- planes show a table of verdicts for every instruction and row, and a row of the batch: the
  -- search of resolveRow for the row's winner returns without a panic. The winner is the approval
  -- that the search starts with, or an escalation for the row's first semantic issue, for its first
  -- missing evidence reference or for want of an applicable requirement, or the outcome that a
  -- clause of an applicable requirement has for its assertion's reason; and it shows the driver's
  -- kind, the reason, and the field, the edge, or the requirement and the clause that it comes
  -- from. Its rank is the rank of its outcome, one of the four; none of these outranks it, and
  -- those that the search looks at before it have a lower rank, so that among equals the first one
  -- wins. The requirements listed are exactly the applicable ones, in order.
  pub resolve_winner-Resolves :
      length p.requirement_symbols < 2 ^ 16
      → Returns (Resolves p batch t row) (resolve_winner p context batch row)
  unfolding resolve_winner
  resolve_winner-Resolves numbered =
      let approve = precedence p Outcome.approve in
      rw
        (
          nth-get_or batch.evidence_ref_offsets row 0 (omega (arith, evidence.offsets_length)),
          nth-get_or batch.evidence_ref_offsets (row + 1) 0
              (omega (arith, evidence.offsets_length)),
        )
        (Returns-bind (start_winner-Climbs p tables batch t row) λ w₀ c₀.
          Returns-bind (semantic_winner-Climbs w₀.rank w₀ (at_own w₀ c₀)) λ w₁ (c₁, issues).
            Returns-bind
              (references-Climbs w₁.rank w₁ (λ f from to set. omega (arith, issues f from to set))
                (at_own w₁ c₁))
              λ w₂ (c₂, references).
                Returns-bind
                  (requirements-Searched p tables w batch.rows wide context t holds nonempty row hr
                    w₂.rank (HasCause p batch t row) numbered
                    (λ i j below runs inside v up earlier before c higher is.
                      HasCause.by_clause i j below runs inside is
                        (omega (arith, c₀.above, c₁.above, c₂.above, up, higher))
                        (λ f from to set. omega (arith, issues f from to set, c₂.above, up, higher))
                        (λ edge from to missing.
                          omega (arith, references edge from to missing, up, higher))
                        (λ i' less applied k inside'.
                          omega (arith, earlier i' less applied k inside', higher))
                        (λ k less. omega (arith, before k less, higher)))
                    w₂ (at_own w₂ c₂))
                  λ a h.
                    Returns-bind
                      (no_applicable_winner-Climbs a.winner.rank a h.ids
                        (λ f from to set.
                          omega (arith, issues f from to set, c₂.above, h.climbs.above))
                        (λ edge from to missing.
                          omega (arith, references edge from to missing, h.climbs.above))
                        (at_own a.winner h.climbs))
                      λ w₄ (c₄, none). returns (record {
                        ranked = c₄.is_ranked;
                        cause = c₄.cause;
                        start =
                            omega (arith, c₀.above, c₁.above, c₂.above, h.climbs.above, c₄.above);
                        issues = λ f from to set.
                            omega (arith, issues f from to set, c₂.above, h.climbs.above, c₄.above);
                        references = λ edge from to missing.
                            omega
                              (arith, references edge from to missing, h.climbs.above, c₄.above);
                        clauses = λ i below holds' j inside.
                            omega (arith, h.clauses i below holds' j inside, c₄.above);
                        ids = h.ids;
                        none = none;
                      }))
    where
      at_own :
          {low : ℕ} (v : Winner)
          → Climbs p (HasCause p batch t row) low v
          → Climbs p (HasCause p batch t row) v.rank v
      at_own v h = record { is_ranked = h.is_ranked; cause = h.cause; above = le_refl _ }
