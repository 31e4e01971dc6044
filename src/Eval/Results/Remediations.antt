-- ===== src/Eval/Results/Remediations.antt =====
-- internal/eval/executor.go: the remediations of a row, and the clause that a winner names.
use verifoxx.Base.{
  ℕ, zero, suc, ◌+◌, ◌-◌, ◌≤◌, ◌≡◌, refl, ◌≢◌, not, ◌&&◌, List, [], ◌∷◌, length, get_or, take, drop,
  ltb, ◌==◌, if◌then◌else◌, ne→==, Bool-cases, inl, inr, arith, ok, nth, nth-get_or, slice-take,
  nth-inside, length-take, length-drop, IfOk, returned, panics, IfOk-bind, IfOk-then, IfOk-if,
  IfOk-for_range,
}
use verifoxx.Base.Bits.{has_bit}
use verifoxx.Eval.Batch.{Batch, field_present}
use verifoxx.Eval.Context.{Context, has_row}
use verifoxx.Eval.Executor.{
  Winner, Applied, rank_of, challenge, start_winner, semantic_from, semantic_winner,
  reference_round, instruction_reason, clause_round, clause_rounds, requirement_clauses,
  is_applicable, requirement_round, u16, no_applicable_winner, resolve_winner,
}
use verifoxx.Eval.Resolve.{winner_remediations}
use verifoxx.Eval.Results.Evidence.{IsNumber}
use verifoxx.Program.{Program}
use verifoxx.Program.Valid.{HasValidTables}
use verifoxx.ResultBatch.{driver_clause}
use verifoxx.Schema.Outcome

-- A winner that a clause drives names a clause of the program.
abbrev pub NamesClause : Program → Winner → Type 0
NamesClause p w = w.kind ≡ driver_clause → IsNumber (length p.clause_assertion_roots) w.clause

module _ (p : Program) where
  challenge-NamesClause :
      (w c : Winner) → NamesClause p w → NamesClause p c → NamesClause p (challenge w c)
  challenge-NamesClause w c h k = elim (Bool-cases (ltb w.rank c.rank)) [
    | inl wins ↦ rw wins k
    | inr stays ↦ rw stays h
  ]

  start_winner-NamesClause : IfOk (NamesClause p) (start_winner p)
  unfolding start_winner
  start_winner-NamesClause =
      IfOk-then (rank_of p Outcome.approve) _ λ rank e. returned (λ k. absurd (omega arith))

  semantic_from-NamesClause :
      (batch : Batch) (row mask n field : ℕ) (w : Winner)
      → NamesClause p w
      → IfOk (NamesClause p) (semantic_from p batch row mask n field w)
  unfolding semantic_from
  semantic_from-NamesClause batch row mask zero field w h = returned h
  semantic_from-NamesClause batch row mask (suc n) field w h =
      IfOk-if (not (has_bit mask (field - 1))) _ _
        (semantic_from-NamesClause batch row mask n (suc field) w h)
        (IfOk-then (has_row (field_present batch field) row) _ λ present e.
          IfOk-then (rank_of p Outcome.escalate) _
            λ rank e'. returned (challenge-NamesClause w _ h (λ k. absurd (omega arith))))

  reference_round-NamesClause :
      (batch : Batch) (edge : ℕ) (w : Winner)
      → NamesClause p w
      → IfOk (NamesClause p) (reference_round p batch edge w)
  unfolding reference_round
  reference_round-NamesClause batch edge w h = IfOk-then (nth batch.evidence_refs edge) _ λ ref e.
      IfOk-if (not (ref == 0)) _ _ (returned h) (
        IfOk-then (rank_of p Outcome.escalate) _
          λ rank e'. returned (challenge-NamesClause w _ h (λ k. absurd (omega arith))))

  clause_round-NamesClause :
      (context : Context) (row requirement id : ℕ) (w : Winner)
      → NamesClause p w
      → IfOk (NamesClause p) (clause_round p context row requirement id w)
  unfolding clause_round
  clause_round-NamesClause context row requirement id w h = elim (Bool-cases (id == 0)) [
    | inl none ↦ rw none panics
    | inr some ↦ rw some (
        IfOk-then (nth p.clause_assertion_roots (id - 1)) _ λ root found.
          IfOk-then (instruction_reason context root row) _ λ reason e.
            IfOk-then (nth p.clause_resolution_outcome_ids _) _ λ outcome e'.
              IfOk-then (rank_of p outcome) _ λ rank e''.
                let inside = nth-inside p.clause_assertion_roots (id - 1) root found in
                returned (challenge-NamesClause w _ h (λ k. (ground arith, ground arith))))
  ]

  clause_rounds-NamesClause :
      (context : Context) (row requirement : ℕ) (ids : List ℕ) (w : Winner)
      → NamesClause p w
      → IfOk (NamesClause p) (clause_rounds p context row requirement ids w)
  unfolding clause_rounds
  clause_rounds-NamesClause context row requirement [] w h = returned h
  clause_rounds-NamesClause context row requirement (id ∷ ids) w h =
      IfOk-bind (clause_round-NamesClause context row requirement id w h)
        λ w' h'. clause_rounds-NamesClause context row requirement ids w' h'

  requirement_round-NamesClause :
      (context : Context) (row index : ℕ) (a : Applied)
      → NamesClause p a.winner
      → IfOk (λ a'. NamesClause p a'.winner) (requirement_round p context row index a)
  unfolding requirement_round
  requirement_round-NamesClause context row index a h =
      IfOk-then (nth p.requirement_applicability_roots index) _ λ root e.
        IfOk-then (is_applicable context root row) _ λ applicable e'.
          IfOk-if (not applicable) _ _ (returned h) (
            IfOk-then (requirement_clauses p index) _ λ ids e''.
              IfOk-bind (clause_rounds-NamesClause context row (u16 (index + 1)) ids a.winner h)
                λ w' h'. returned h')

  semantic_winner-NamesClause :
      (batch : Batch) (row : ℕ) (w : Winner)
      → NamesClause p w
      → IfOk (NamesClause p) (semantic_winner p batch row w)
  unfolding semantic_winner
  semantic_winner-NamesClause batch row w h =
      IfOk-then (nth batch.semantic_issue_masks row) _
        λ mask e. semantic_from-NamesClause batch row mask _ _ w h

  no_applicable_winner-NamesClause :
      (a : Applied) → NamesClause p a.winner → IfOk (NamesClause p) (no_applicable_winner p a)
  unfolding no_applicable_winner
  no_applicable_winner-NamesClause a h =
      IfOk-if (not (length a.requirement_ids == 0)) _ _ (returned h) (
        IfOk-then (rank_of p Outcome.escalate) _
          λ rank e. returned (challenge-NamesClause a.winner _ h (λ k. absurd (omega arith))))

  -- If the search returns, then the winner names a clause wherever a clause drives it.
  pub resolve_winner-NamesClause :
      (context : Context) (batch : Batch) (row : ℕ)
      → IfOk (λ a. NamesClause p a.winner) (resolve_winner p context batch row)
  unfolding resolve_winner
  resolve_winner-NamesClause context batch row = IfOk-bind start_winner-NamesClause λ w₀ h₀.
      IfOk-bind (semantic_winner-NamesClause batch row w₀ h₀) λ w₁ h₁.
        IfOk-then (nth batch.evidence_ref_offsets row) _ λ start e.
          IfOk-then (nth batch.evidence_ref_offsets (row + 1)) _ λ end e'.
            IfOk-bind
              (IfOk-for_range (reference_round p batch) (reference_round-NamesClause batch)
                (end - start) start w₁ h₁)
              λ w₂ h₂.
                IfOk-bind
                  (IfOk-for_range {P = λ (a : Applied). NamesClause p a.winner}
                    (requirement_round p context row) (requirement_round-NamesClause context row)
                    (length p.requirement_applicability_roots) 0 _ h₂)
                  λ a h₃. IfOk-bind (no_applicable_winner-NamesClause a h₃) λ w₄ h₄. returned h₄

-- The remediations of a winner: those of its clause, where a clause asks for a revision.
abbrev pub remediations_of : Program → Winner → List ℕ
remediations_of p w =
    if w.outcome == Outcome.revise && w.kind == driver_clause
    then take
        (get_or p.clause_remediation_starts (w.clause - 1) 0
          + get_or p.clause_remediation_counts (w.clause - 1) 0
          - get_or p.clause_remediation_starts (w.clause - 1) 0)
        (drop (get_or p.clause_remediation_starts (w.clause - 1) 0) p.clause_remediation_ids)
    else []

pub winner_remediations-of :
    (p : Program)
    → HasValidTables p
    → (w : Winner) → NamesClause p w
    → winner_remediations p w ≡ ok (remediations_of p w)
unfolding winner_remediations
winner_remediations-of p tables w named =
    elim (Bool-cases (w.outcome == Outcome.revise && w.kind == driver_clause)) [
      | inr other ↦ rw other refl
      | inl asked ↦
          let (positive, below) = named (ground arith) in
          let nonzero : w.clause ≢ 0 = λ e. omega arith in
          let valid = tables.clause (w.clause - 1) (omega (arith, tables.clause_roots_length)) in
          let start = get_or p.clause_remediation_starts (w.clause - 1) 0 in
          let count = get_or p.clause_remediation_counts (w.clause - 1) 0 in
          rw (
            asked,
            ne→== w.clause 0 nonzero,
            nth-get_or p.clause_remediation_starts (w.clause - 1) 0
                (omega (arith, tables.remediation_starts_length, tables.clause_roots_length)),
            nth-get_or p.clause_remediation_counts (w.clause - 1) 0
                (omega (arith, tables.remediation_counts_length, tables.clause_roots_length)),
            slice-take p.clause_remediation_ids start (start + count) (omega arith)
                valid.remediation_range,
          )
    ]

pub remediations_of-length :
    (p : Program) (w : Winner) → length (remediations_of p w) ≤ length p.clause_remediation_ids
remediations_of-length p w =
    elim (Bool-cases (w.outcome == Outcome.revise && w.kind == driver_clause)) [
      | inr other ↦ rw other (omega arith)
      | inl asked ↦ rw asked (
          omega (
            arith,
            length-take _ (
                drop (get_or p.clause_remediation_starts (w.clause - 1) 0)
                  p.clause_remediation_ids),
            length-drop (get_or p.clause_remediation_starts (w.clause - 1) 0)
                p.clause_remediation_ids,
          ))
    ]
