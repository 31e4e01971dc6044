-- ===== src/Eval/Correct/Requirements.antt =====
-- internal/eval/executor.go: the clauses of the applicable requirements in the search for a winner.
use mathlib.Core.Path.{subst}
use native.Mathlib.Decide.{ℕ_discrete}
use native.Mathlib.Nat.{le_refl, mod-eq_of_lt}
use verifoxx.Base.{
  ℕ, zero, suc, ◌+◌, ◌-◌, ◌*◌, ◌^◌, ◌≤◌, ◌<◌, ◌≡◌, refl, sym, ap, ◌∙◌, inl, inr, true, List, [],
  ◌∷◌, ◌++◌, arith, ok, length, get_or, nth-get_or, ne→==, Bool-cases, Returns, returns,
  Returns-bind, Returns-mono, for_range, for_range_inv_zero,
}
use verifoxx.Schema.Reason
use verifoxx.Program.{Program}
use verifoxx.Program.Valid.{HasValidTables}
use verifoxx.Eval.Context.{Context}
use verifoxx.Eval.Error.{Error}
use verifoxx.Eval.Executor.{
  Winner, Applied, instruction_reason, clause_round, clause_rounds, requirement_round,
  is_applicable, u16,
}
use verifoxx.Eval.Verdicts.{Table, Holds}
use verifoxx.Eval.Correct.Clauses.{clauses_of, requirement_clauses-of, clauses_of-known}
use verifoxx.Eval.Correct.Reasons.{settle_from, instruction_reason-settle, is_applicable-verdict}
use verifoxx.Eval.Correct.Winner.{
  IsRanked, Climbs, set_and_clear, rank_of-precedence, challenge-Climbs,
}
use verifoxx.Eval.Correct.Cause.{
  precedence, ClausesBelow, EarlierBelow, IsClause, clause_outcome, applies, applicable_ids,
}
use verifoxx.ResultBatch.{driver_clause}

-- What holds after the first `k` requirements: no clause of an applicable one outranks the winner,
-- and exactly the applicable ones are listed.
pub record Searched (p : Program) (Caused : Winner → Type 0) (t : Table) (row low k : ℕ)
    (a : Applied) : Type 0 where
  pub climbs : Climbs p Caused low a.winner
  pub clauses :
      (index : ℕ)
      → index < k
      → applies p t row index ≡ true
      → (j : ℕ) → j < length (clauses_of p index)
      → precedence p (clause_outcome p t row (get_or (clauses_of p index) j 0)) ≤ a.winner.rank
  pub ids : a.requirement_ids ≡ applicable_ids (applies p t row) k

settle_from-range :
    (reason : ℕ) → (0 < settle_from 1 reason) × (settle_from 1 reason ≤ Reason.count)
settle_from-range reason = ground arith

module _ (p : Program) (tables : HasValidTables p) (w rows : ℕ) (wide : rows ≤ w * 64)
    (context : Context) (t : Table) (holds : Holds (length p.opcodes) w rows t context)
    (nonempty : 0 < w) (row : ℕ) (hr : row < rows) (low : ℕ) (Caused : Winner → Type 0) where
  clause_round-Climbs :
      (requirement id : ℕ) (winner : Winner)
      → 0 < id
      → id ≤ length p.clause_symbols
      → ((c : Winner) → winner.rank < c.rank → IsClause p t row requirement id c → Caused c)
      → Climbs p Caused low winner
      → Returns
          (λ w'.
            Climbs p Caused low w'
            × (winner.rank ≤ w'.rank)
            × (precedence p (clause_outcome p t row id) ≤ w'.rank))
          (clause_round p context row requirement id winner)
  unfolding clause_round
  clause_round-Climbs requirement id winner positive known caused h =
      let root = get_or p.clause_assertion_roots (id - 1) 0 in
      let valid = tables.clause (id - 1) (omega arith) in
      let at : root ≡ suc (root - 1) = omega (arith, valid.root_positive) in
      let settled : instruction_reason context root row
          ≡ ok (settle_from 1 (t (root - 1) row).reason) =
        ap (λ (x : ℕ). instruction_reason context x row) at
        ∙ instruction_reason-settle (length p.opcodes) w rows wide context t holds nonempty
            (root - 1) (omega (arith, valid.root_positive, valid.root_known)) row hr in
      let reason = settle_from 1 (t (root - 1) row).reason in
      let (some_reason, few_reasons) = settle_from-range (t (root - 1) row).reason in
      let index : (id - 1) * Reason.count + reason - 1 ≡ (id - 1) * Reason.count + (reason - 1) =
        omega arith in
      let (outcome_low, outcome_high) = valid.outcomes (reason - 1) (omega arith) in
      let same = ap (λ (x : ℕ). get_or p.clause_resolution_outcome_ids x 0) index in
      let c : Winner = record {
        outcome = clause_outcome p t row id;
        kind = driver_clause;
        requirement = requirement;
        clause = id;
        reason = reason;
        field = 0;
        edge = 0;
        rank = precedence p (clause_outcome p t row id);
      } in
      let ranked : IsRanked p c = record {
        positive = omega (arith, same);
        known = omega (arith, same);
        ranked = refl;
      } in
      let cause = λ (higher : winner.rank < precedence p (clause_outcome p t row id)).
        caused c higher (record {
          kind = refl;
          requirement = refl;
          clause = refl;
          reason = refl;
          outcome = refl;
        }) in
      let (climbs, over, rises) = challenge-Climbs p tables Caused winner c low h ranked cause in
      rw
        (
          ne→== id 0 (omega arith),
          nth-get_or p.clause_assertion_roots (id - 1) 0
              (omega (arith, tables.clause_roots_length)),
          settled,
          nth-get_or p.clause_resolution_outcome_ids ((id - 1) * Reason.count + reason - 1) 0
              (omega (arith, tables.resolution_length)),
          rank_of-precedence p tables (clause_outcome p t row id) ranked.positive ranked.known,
        )
        (returns (climbs, rises, over))

  clause_rounds-Climbs :
      (requirement : ℕ) (ids : List ℕ) (winner : Winner)
      → ((j : ℕ)
          → j < length ids
          → (0 < get_or ids j 0) × (get_or ids j 0 ≤ length p.clause_symbols))
      → ((j : ℕ)
          → j < length ids
          → (v : Winner) → winner.rank ≤ v.rank
          → ((k : ℕ) → k < j → precedence p (clause_outcome p t row (get_or ids k 0)) ≤ v.rank)
          → (c : Winner) → v.rank < c.rank
          → IsClause p t row requirement (get_or ids j 0) c
          → Caused c)
      → Climbs p Caused low winner
      → Returns
          (λ w'.
            Climbs p Caused low w'
            × (winner.rank ≤ w'.rank)
            × ((j : ℕ)
                → j < length ids
                → precedence p (clause_outcome p t row (get_or ids j 0)) ≤ w'.rank))
          (clause_rounds p context row requirement ids winner)
  unfolding clause_rounds
  clause_rounds-Climbs requirement [] winner known caused h =
      returns (h, le_refl _, λ j inside. absurd (omega arith))
  clause_rounds-Climbs requirement (id ∷ ids) winner known caused h =
      let (positive, bounded) = known 0 (omega arith) in
      Returns-bind
        (clause_round-Climbs requirement id winner positive bounded
          (caused 0 (omega arith) winner (le_refl _) (λ k below. absurd (omega arith))) h)
        λ w₁ (climbs, rises, first).
          Returns-mono
            (clause_rounds-Climbs requirement ids w₁ (λ j inside. known (suc j) (omega arith))
              (λ j inside v up before.
                caused (suc j) (omega arith) v (omega arith)
                  (rank_bounds id ids v j (omega arith) before))
              climbs)
            λ w₂ (climbs', rises', rest).
              (climbs', omega arith, rank_bounds id ids w₂ (length ids) (omega arith) rest)
    where
      rank_bounds :
          (id : ℕ) (ids : List ℕ) (w' : Winner) (n : ℕ)
          → precedence p (clause_outcome p t row id) ≤ w'.rank
          → ((j : ℕ) → j < n → precedence p (clause_outcome p t row (get_or ids j 0)) ≤ w'.rank)
          → (j : ℕ) → j < suc n
          → precedence p (clause_outcome p t row (get_or (id ∷ ids) j 0)) ≤ w'.rank
      rank_bounds id ids w' n first rest zero inside = first
      rank_bounds id ids w' n first rest (suc j) inside = rest j (omega arith)

  module _ (numbered : length p.requirement_symbols < 2 ^ 16)
      (caused : (index j : ℕ)
        → index < length p.requirement_applicability_roots
        → applies p t row index ≡ true
        → j < length (clauses_of p index)
        → (v : Winner) → low ≤ v.rank
        → EarlierBelow p t row index (suc v.rank)
        → ClausesBelow p t row index j (suc v.rank)
        → (c : Winner) → v.rank < c.rank
        → IsClause p t row (index + 1) (get_or (clauses_of p index) j 0) c
        → Caused c) where
    requirement_round-Searched :
        (index : ℕ) (a : Applied)
        → index < length p.requirement_symbols
        → Searched p Caused t row low index a
        → Returns
            (Searched p Caused t row low (suc index))
            (requirement_round p context row index a)
    unfolding requirement_round applicable_ids
    requirement_round-Searched index a inside h =
        let root = get_or p.requirement_applicability_roots index 0 in
        let valid = tables.requirement index inside in
        let at : root ≡ suc (root - 1) = omega (arith, valid.root_positive) in
        let applicable : is_applicable context root row ≡ ok (applies p t row index) =
          ap (λ (x : ℕ). is_applicable context x row) at
          ∙ is_applicable-verdict (length p.opcodes) w rows wide context t holds nonempty (root - 1)
              (omega (arith, valid.root_positive, valid.root_known)) row hr in
        let exact : u16 (index + 1) ≡ index + 1 = mod-eq_of_lt (omega (arith, numbered, inside)) in
        let root_read =
          nth-get_or {E = Error} p.requirement_applicability_roots index 0
            (omega (arith, tables.requirement_roots_length)) in
        elim (Bool-cases (applies p t row index)) [
          | inr skips ↦
              rw (root_read, applicable, skips)
                (returns (record {
                  climbs = h.climbs;
                  clauses = λ i below holds'. elim (ℕ_discrete i index) [
                    | yes e ↦ absurd (set_and_clear (ap (applies p t row) (sym e) ∙ holds') skips)
                    | no d ↦ h.clauses i (omega arith) holds'
                  ];
                  ids = h.ids ∙ (rw skips);
                }))
          | inl runs ↦
              rw (root_read, applicable, runs, requirement_clauses-of p tables index inside, exact)
                (Returns-bind
                  (clause_rounds-Climbs (index + 1) (clauses_of p index) a.winner
                    (clauses_of-known p tables index inside)
                    (λ j below v up before.
                      caused index j (omega (arith, tables.requirement_roots_length)) runs below v
                        (omega (arith, h.climbs.above))
                        (λ i less applied k inside'.
                          omega (arith, h.clauses i less applied k inside', up))
                        (λ k less. omega (arith, before k less)))
                    h.climbs)
                  λ w' (climbs, rises, over). returns (record {
                    climbs = climbs;
                    clauses = λ i below holds' j inside'. elim (ℕ_discrete i index) [
                      | yes e ↦ at_last i (sym e) w' over j inside'
                      | no d ↦ omega (arith, h.clauses i (omega arith) holds' j inside')
                    ];
                    ids = ap (λ (ids : List ℕ). ids ++ (index + 1) ∷ []) h.ids ∙ (rw runs);
                  }))
        ]
      where
        at_last :
            (i : ℕ) {index : ℕ}
            → index ≡ i
            → (w' : Winner)
            → ((j : ℕ)
                → j < length (clauses_of p index)
                → precedence p (clause_outcome p t row (get_or (clauses_of p index) j 0)) ≤ w'.rank)
            → (j : ℕ) → j < length (clauses_of p i)
            → precedence p (clause_outcome p t row (get_or (clauses_of p i) j 0)) ≤ w'.rank
        at_last i e w' over =
            subst
              (λ (k : ℕ).
                (j : ℕ)
                → j < length (clauses_of p k)
                → precedence p (clause_outcome p t row (get_or (clauses_of p k) j 0)) ≤ w'.rank)
              e over

    pub requirements-Searched :
        (winner : Winner)
        → Climbs p Caused low winner
        → Returns (Searched p Caused t row low (length p.requirement_applicability_roots)) (
            for_range
              (length p.requirement_applicability_roots)
              0
              (requirement_round p context row)
              (record { winner = winner; requirement_ids = [] }))
    unfolding applicable_ids
    requirements-Searched winner h =
        for_range_inv_zero (Searched p Caused t row low) (requirement_round p context row)
          (length p.requirement_applicability_roots) _
          (λ i a inside before.
            requirement_round-Searched i a (omega (arith, tables.requirement_roots_length)) before)
          (record { climbs = h; clauses = λ i below. absurd (omega arith); ids = refl })
