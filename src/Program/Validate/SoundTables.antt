-- ===== src/Program/Validate/SoundTables.antt =====
-- internal/program/validate.go beside the tables of the requirements, the clauses and the outcomes,
-- which the executor follows.
use native.Mathlib.Decide.{ℕ_discrete}
use mathlib.Core.Path.{subst}
use verifoxx.Base.{
  ℕ, suc, ◌+◌, ◌*◌, ◌≤◌, ◌<◌, ◌≡◌, ◌≢◌, sym, ◌∙◌, ap, Bool, true, false, not, ◌||◌, List, length,
  get_or, set, replicate, ltb, ◌==◌, arith, ok, for_range, >>=-ok, rejected, read, each_round,
  for_range_ok_inv_zero, get_or-set_self, get_or-set_ne, length-set, length-replicate, store-set,
}
use verifoxx.Program.{Program}
use verifoxx.Program.Valid.{IsValidRequirement, IsValidClause, IsRanking, HasValidTables}
use verifoxx.Program.Validate.{validate}
use verifoxx.Program.Validate.Error.{Error}
use verifoxx.Program.Validate.Sound.{check_columns-AllEqual, valid_range-bounds}
use verifoxx.Program.Validate.Code.{
  valid_symbol, valid_instruction, valid_range, check_columns, validate_code, check_symbol_at,
}
use verifoxx.Program.Validate.Tables.{
  requirement_columns, clause_columns, check_clause_id, check_requirement, check_referenced,
  check_state, check_clause, check_rank, check_remediation, validate_requirements_and_clauses,
  validate_catalogues,
}
use verifoxx.Schema.{is_valid_id}
use verifoxx.Schema.Outcome
use verifoxx.Schema.Reason

valid_instruction-bounds :
    (id count : ℕ) → not (valid_instruction id count) ≡ false → (0 < id) × (id ≤ count)
unfolding valid_instruction
valid_instruction-bounds id count h = ground arith

module _ (p : Program) (i : ℕ) where
  check_clause_id-known :
      (start j : ℕ) (seen seen' : List Bool)
      → check_clause_id p start j seen ≡ ok seen'
      → (0 < get_or p.requirement_clause_ids (start + j) 0)
        × (get_or p.requirement_clause_ids (start + j) 0 ≤ length p.clause_symbols)
  unfolding check_clause_id
  check_clause_id-known start j seen seen' h =
      let id = get_or p.requirement_clause_ids (start + j) 0 in
      let h₁ = read p.requirement_clause_ids (start + j) 0 _ h in
      let (known, _) = rejected (not (is_valid_id id) || ltb (length p.clause_symbols) id) _ _ h₁ in
      ground arith

  check_requirement-IsValid :
      (seen seen' : List Bool) → check_requirement p i seen ≡ ok seen' → IsValidRequirement p i
  unfolding check_requirement
  check_requirement-IsValid seen seen' h =
      let start = get_or p.requirement_clause_starts i 0 in
      let count = get_or p.requirement_clause_counts i 0 in
      let root = get_or p.requirement_applicability_roots i 0 in
      let h₁ = read p.requirement_symbols i 0 _ h in
      let (_, h₂) =
        rejected (not (valid_symbol p (get_or p.requirement_symbols i 0) false)) _ _ h₁ in
      let h₃ = read p.requirement_applicability_roots i 0 _ h₂ in
      let (known, h₄) = rejected (not (valid_instruction root (length p.opcodes))) _ _ h₃ in
      let h₅ = read p.requirement_clause_starts i 0 _ h₄ in
      let h₆ = read p.requirement_clause_counts i 0 _ h₅ in
      let (range, loop) =
        rejected (not (valid_range start count (length p.requirement_clause_ids))) _ _ h₆ in
      let (positive, bounded) = valid_instruction-bounds root (length p.opcodes) known in
      record {
        root_positive = positive;
        root_known = bounded;
        clause_range = valid_range-bounds start count _ range;
        clause_ids =
            for_range_ok_inv_zero
              (λ (k : ℕ) (s : List Bool).
                (j : ℕ)
                → j < k
                → (0 < get_or p.requirement_clause_ids (start + j) 0)
                  × (get_or p.requirement_clause_ids (start + j) 0 ≤ length p.clause_symbols))
              (check_clause_id p start) count seen seen'
              (λ k u v inside before round j below. elim (ℕ_discrete j k) [
                | yes now ↦ rw now (check_clause_id-known start k u v round)
                | no earlier ↦ before j (omega arith)
              ])
              (λ j below. absurd (omega arith)) loop;
      }

  check_state-outcome :
      (state : ℕ)
      → check_state p i state tt ≡ ok tt
      → (0 < get_or p.clause_resolution_outcome_ids (i * Reason.count + state) 0)
        × (get_or p.clause_resolution_outcome_ids (i * Reason.count + state) 0 ≤ Outcome.count)
  unfolding check_state
  check_state-outcome state h =
      let outcome = get_or p.clause_resolution_outcome_ids (i * Reason.count + state) 0 in
      let h₁ = read p.clause_resolution_outcome_ids (i * Reason.count + state) 0 _ h in
      let (known, _) = rejected (not (is_valid_id outcome) || ltb Outcome.count outcome) _ _ h₁ in
      ground arith

  check_clause-IsValid : check_clause p i tt ≡ ok tt → IsValidClause p i
  unfolding check_clause
  check_clause-IsValid h =
      let root = get_or p.clause_assertion_roots i 0 in
      let remediation = get_or p.clause_remediation_starts i 0 in
      let remediations = get_or p.clause_remediation_counts i 0 in
      let kind = get_or p.clause_evidence_kind_starts i 0 in
      let kinds = get_or p.clause_evidence_kind_counts i 0 in
      let h₁ = read p.clause_symbols i 0 _ h in
      let (_, h₂) = rejected (not (valid_symbol p (get_or p.clause_symbols i 0) false)) _ _ h₁ in
      let h₃ = read p.clause_assertion_roots i 0 _ h₂ in
      let (known, h₄) = rejected (not (valid_instruction root (length p.opcodes))) _ _ h₃ in
      let h₅ = read p.clause_remediation_starts i 0 _ h₄ in
      let h₆ = read p.clause_remediation_counts i 0 _ h₅ in
      let (range, h₇) =
        rejected (not (valid_range remediation remediations (length p.clause_remediation_ids))) _ _
          h₆ in
      let h₈ = read p.clause_evidence_kind_starts i 0 _ h₇ in
      let h₉ = read p.clause_evidence_kind_counts i 0 _ h₈ in
      let (kind_fits, loop) =
        rejected (not (valid_range kind kinds (length p.clause_evidence_kinds))) _ _ h₉ in
      let (positive, bounded) = valid_instruction-bounds root (length p.opcodes) known in
      record {
        root_positive = positive;
        root_known = bounded;
        remediation_range = valid_range-bounds remediation remediations _ range;
        kind_range = valid_range-bounds kind kinds _ kind_fits;
        outcomes = λ state inside.
            check_state-outcome state
              (each_round (check_state p i) Reason.count 0 loop state (omega arith) (omega arith));
      }

-- The ranks before the `k`-th are in order, and `seen` has them.
Ranked : List ℕ → ℕ → List Bool → Type 0
Ranked ranks k seen =
    (length seen ≡ length ranks + 1)
    × ((i : ℕ)
        → i < k
        → (0 < get_or ranks i 0)
          × (get_or ranks i 0 ≤ length ranks)
          × (get_or seen (get_or ranks i 0) false ≡ true))
    × ((i j : ℕ) → i < j → j < k → get_or ranks i 0 ≢ get_or ranks j 0)

check_rank-Ranked :
    (p : Program) (k : ℕ) (seen seen' : List Bool)
    → Ranked p.outcome_precedence k seen
    → check_rank p k seen ≡ ok seen'
    → Ranked p.outcome_precedence (suc k) seen'
unfolding check_rank Ranked
check_rank-Ranked p k seen seen' (long, before, apart) h =
    let ranks = p.outcome_precedence in
    let rank = get_or ranks k 0 in
    let h₁ = read ranks k 0 _ h in
    let (known, h₂) = rejected (rank == 0 || ltb (length ranks) rank) _ _ h₁ in
    let h₃ = read seen rank false _ h₂ in
    let (fresh, h₄) = rejected (get_or seen rank false) _ _ h₃ in
    let positive : 0 < rank = ground arith in
    let bounded : rank ≤ length ranks = ground arith in
    let stored : ok (set seen rank true) ≡ ok seen' =
      sym (store-set seen rank true (omega arith)) ∙ h₄ in
    let same : set seen rank true ≡ seen' = cc in
    let known_now : (i : ℕ)
        → i < suc k
        → (0 < get_or ranks i 0)
          × (get_or ranks i 0 ≤ length ranks)
          × (get_or (set seen rank true) (get_or ranks i 0) false ≡ true) =
      λ i below. elim (ℕ_discrete i k) [
        | yes now ↦ rw now (positive, bounded, get_or-set_self seen rank true false (omega arith))
        | no earlier ↦
            let (low, high, marked) = before i (omega arith) in
            (
              low,
              high,
              elim (ℕ_discrete rank (get_or ranks i 0)) [
                | yes e ↦
                    ap (λ (r : ℕ). get_or (set seen rank true) r false) (sym e)
                    ∙ get_or-set_self seen rank true false (omega arith)
                | no d ↦ get_or-set_ne seen rank (get_or ranks i 0) true false d ∙ marked
              ],
            )
      ] in
    let apart_now : (i j : ℕ) → i < j → j < suc k → get_or ranks i 0 ≢ get_or ranks j 0 =
      λ i j lower below. elim (ℕ_discrete j k) [
        | yes now ↦ λ e.
            let marked = (before i (omega arith)).2 in
            let here : get_or ranks i 0 ≡ rank = e ∙ ap (λ (t : ℕ). get_or ranks t 0) now in
            let clash : true ≡ false =
              sym marked ∙ ap (λ (r : ℕ). get_or seen r false) here ∙ fresh in
            cc
        | no earlier ↦ apart i j lower (omega arith)
      ] in
    subst (λ (s : List Bool). Ranked ranks (suc k) s) same
      (length-set seen rank true ∙ long, known_now, apart_now)

validate_catalogues-IsRanking :
    (p : Program)
    → validate_catalogues p ≡ ok tt
    → (length p.outcome_precedence ≡ Outcome.count) × IsRanking p.outcome_precedence
unfolding validate_catalogues Ranked
validate_catalogues-IsRanking p h =
    let ranks = p.outcome_precedence in
    let n = length ranks in
    let (_, _, h₁) =
      >>=-ok
        (for_range (length p.explanation_symbols) 0
          (check_symbol_at p Error.explanation_symbol p.explanation_symbols) tt)
        _ h in
    let (_, _, h₂) = >>=-ok (for_range (length p.remediations) 0 (check_remediation p) tt) _ h₁ in
    let (count, h₃) = rejected (not (n == Outcome.count)) _ _ h₂ in
    let (seen, loop, _) = >>=-ok (for_range n 0 (check_rank p) (replicate (n + 1) false)) _ h₃ in
    let (_, known, apart) =
      for_range_ok_inv_zero (Ranked ranks) (check_rank p) n (replicate (n + 1) false) seen
        (λ k u v inside before round. check_rank-Ranked p k u v before round)
        (
          length-replicate (n + 1) false,
          λ i below. absurd (omega arith),
          λ i j lower below. absurd (omega arith),
        )
        loop in
    (
      ground arith,
      record {
        positive = λ i inside. (known i inside).0;
        bounded = λ i inside. (known i inside).1;
        distinct = apart;
      },
    )

validate_requirements-IsValid :
    (p : Program)
    → validate_requirements_and_clauses p ≡ ok tt
    → length p.outcome_precedence ≡ Outcome.count
    → IsRanking p.outcome_precedence
    → HasValidTables p
unfolding validate_requirements_and_clauses
validate_requirements-IsValid p h four ranking =
    let requirements = length p.requirement_symbols in
    let clauses = length p.clause_symbols in
    let none = replicate clauses false in
    let (_, h₁) = rejected (requirements == 0) _ _ h in
    let (_, columns, h₂) =
      >>=-ok (check_columns Error.requirement_column requirements 0 (requirement_columns p)) _ h₁ in
    let (_, h₃) = rejected (clauses == 0) _ _ h₂ in
    let (_, clause_lengths, h₄) =
      >>=-ok (check_columns Error.clause_column clauses 0 (clause_columns p)) _ h₃ in
    let (states, h₅) =
      rejected (not (length p.clause_resolution_outcome_ids == clauses * Reason.count)) _ _ h₄ in
    let (_, h₆) =
      rejected (not (length p.clause_explanation_ids == clauses * Reason.count)) _ _ h₅ in
    let (seen, loop, h₇) = >>=-ok (for_range requirements 0 (check_requirement p) none) _ h₆ in
    let (_, _, h₈) = >>=-ok (check_referenced 0 seen) _ h₇ in
    let (_, clause_loop, _) = >>=-ok (for_range clauses 0 (check_clause p) tt) _ h₈ in
    let (roots, (starts, (counts, _))) =
      check_columns-AllEqual Error.requirement_column requirements 0 (requirement_columns p)
        columns in
    let (clause_roots, (r_starts, (r_counts, (k_starts, (k_counts, _))))) =
      check_columns-AllEqual Error.clause_column clauses 0 (clause_columns p) clause_lengths in
    record {
      requirement_roots_length = roots;
      requirement_starts_length = starts;
      requirement_counts_length = counts;
      clause_roots_length = clause_roots;
      remediation_starts_length = r_starts;
      remediation_counts_length = r_counts;
      kind_starts_length = k_starts;
      kind_counts_length = k_counts;
      resolution_length = ground arith;
      requirement =
          for_range_ok_inv_zero
            (λ (k : ℕ) (s : List Bool). (i : ℕ) → i < k → IsValidRequirement p i)
            (check_requirement p) requirements none seen
            (λ k u v inside before round i below. elim (ℕ_discrete i k) [
              | yes now ↦
                  subst (IsValidRequirement p) (sym now) (check_requirement-IsValid p k u v round)
              | no earlier ↦ before i (omega arith)
            ])
            (λ i below. absurd (omega arith)) loop;
      clause = λ i inside.
          check_clause-IsValid p i
            (each_round (check_clause p) clauses 0 clause_loop i (omega arith) (omega arith));
      precedence_length = four;
      ranks = ranking;
    }

-- If Validate accepts a program, then the columns of the requirements and of the clauses are
-- parallel, with an outcome for each clause and reason; each requirement's and each clause's
-- root is an instruction and their ranges lie inside their tables; each clause a requirement
-- names exists; each outcome is one of the four; and the four outcomes have the ranks 1 to 4
-- with no two the same.
pub validate-HasValidTables : (p : Program) → validate p ≡ ok tt → HasValidTables p
unfolding validate
validate-HasValidTables p h =
    let (_, _, h₁) = >>=-ok (validate_code p) _ h in
    let (_, tables, catalogues) = >>=-ok (validate_requirements_and_clauses p) _ h₁ in
    let (four, ranking) = validate_catalogues-IsRanking p catalogues in
    validate_requirements-IsValid p tables four ranking
