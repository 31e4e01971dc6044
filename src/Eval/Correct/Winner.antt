-- ===== src/Eval/Correct/Winner.antt =====
-- internal/eval/executor.go: the first steps of the search for a row's winner.
use native.Mathlib.Decide.{ℕ_discrete}
use native.Mathlib.Nat.{le_refl}
use verifoxx.Base.{
  ℕ, zero, suc, ◌+◌, ◌-◌, ◌*◌, ◌≤◌, ◌<◌, ◌≡◌, refl, sym, ap, ◌∙◌, inl, inr, Bool, true, false, ltb,
  if◌then◌else◌, arith, ok, length, get_or, nth-get_or, ne→==, eq→==, ltb→lt, ltb→le, Bool-cases,
  Returns, returns, Returns-mono,
}
use verifoxx.Base.Bits.{has_bit}
use verifoxx.Schema.Field
use verifoxx.Schema.Outcome
use verifoxx.Schema.Reason
use verifoxx.Program.{Program}
use verifoxx.Program.Valid.{HasValidTables}
use verifoxx.Eval.Batch.{Batch}
use verifoxx.Eval.Shape.{HasColumns}
use verifoxx.Eval.Executor.{
  Winner, rank_of, challenge, start_winner, semantic_from, reference_round,
}
use verifoxx.Eval.Context.{u32}
use verifoxx.Eval.Verdicts.{Table}
use verifoxx.Eval.Correct.Cause.{HasCause, precedence, IssuesBelow, ReferencesBelow}
use verifoxx.Eval.Correct.Fields.{present-bit}
use verifoxx.Eval.Planes.{bit}
use verifoxx.ResultBatch.{driver_semantic, driver_missing_reference}

-- A winner whose rank is its outcome's.
pub record IsRanked (p : Program) (w : Winner) : Type 0 where
  pub positive : 0 < w.outcome
  pub known : w.outcome ≤ Outcome.count
  pub ranked : w.rank ≡ precedence p w.outcome

-- Where a step leads from a winner: to a winner that is ranked, has a cause and is not lower.
pub record Climbs (p : Program) (Caused : Winner → Type 0) (low : ℕ) (w : Winner) : Type 0 where
  pub is_ranked : IsRanked p w
  pub cause : Caused w
  pub above : low ≤ w.rank

pub set_and_clear : {b : Bool} → b ≡ true → b ≡ false → ⊥
set_and_clear {b = true} h k = cc
set_and_clear {b = false} h k = cc

module _ (p : Program) (tables : HasValidTables p) where
  pub rank_of-precedence :
      (outcome : ℕ)
      → 0 < outcome
      → outcome ≤ Outcome.count
      → rank_of p outcome ≡ ok (precedence p outcome)
  unfolding rank_of
  rank_of-precedence outcome low high = rw (
    ne→== outcome 0 (omega arith),
    nth-get_or p.outcome_precedence (outcome - 1) 0 (omega (arith, tables.precedence_length)),
  )

  pub escalation :
      (c : Winner)
      → c.outcome ≡ Outcome.escalate
      → c.rank ≡ precedence p Outcome.escalate
      → IsRanked p c
  escalation c e f = record {
    positive = omega arith;
    known = omega arith;
    ranked = f ∙ ap (λ (o : ℕ). precedence p o) (sym e);
  }

  pub challenge-Climbs :
      (Caused : Winner → Type 0) (w c : Winner) (low : ℕ)
      → Climbs p Caused low w
      → IsRanked p c
      → (w.rank < c.rank → Caused c)
      → Climbs p Caused low (challenge w c)
        × (c.rank ≤ (challenge w c).rank)
        × (w.rank ≤ (challenge w c).rank)
  challenge-Climbs Caused w c low h k cause = elim (Bool-cases (ltb w.rank c.rank)) [
    | inl wins ↦ rw wins (
      record {
        is_ranked = k;
        cause = cause (ltb→lt w.rank c.rank wins);
        above = omega (arith, ltb→lt w.rank c.rank wins, h.above);
      },
      le_refl _,
      omega (arith, ltb→lt w.rank c.rank wins),
    )
    | inr stays ↦ rw stays (h, ltb→le w.rank c.rank stays, le_refl _)
  ]

  module _ (batch : Batch) (t : Table) (row : ℕ) where
    pub start_winner-Climbs :
        Returns (Climbs p (HasCause p batch t row) (precedence p Outcome.approve)) (start_winner p)
    unfolding start_winner
    start_winner-Climbs = rw (rank_of-precedence Outcome.approve (omega arith) (omega arith)) (
        returns (record {
          is_ranked = record { positive = omega arith; known = omega arith; ranked = refl };
          cause = HasCause.approved refl refl refl;
          above = le_refl _;
        }))

  module _ (batch : Batch) (words : ℕ) (columns : HasColumns words batch)
      (wide : batch.rows ≤ words * 64) (t : Table) (row : ℕ) (hr : row < batch.rows) (low : ℕ) where
    pub semantic_from-Climbs :
        (mask n field : ℕ) (w : Winner)
        → 0 < field
        → field + n ≡ Field.count
        → mask ≡ get_or batch.semantic_issue_masks row 0
        → ((g : ℕ) → Field.requester ≤ g → g < field → has_bit mask (g - 1) ≡ false)
        → Climbs p (HasCause p batch t row) low w
        → Returns
            (λ w'.
              Climbs p (HasCause p batch t row) low w'
              × ((f : ℕ)
                  → field ≤ f
                  → f < Field.count
                  → has_bit mask (f - 1) ≡ true
                  → precedence p Outcome.escalate ≤ w'.rank))
            (semantic_from p batch row mask n field w)
    unfolding semantic_from
    semantic_from-Climbs mask zero field w positive end read clean h =
        returns (h, λ f from to set. absurd (omega arith))
    semantic_from-Climbs mask (suc n) field w positive end read clean h =
        elim (Bool-cases (has_bit mask (field - 1))) [
          | inl set ↦
              rw
                (
                  set,
                  present-bit words batch columns field positive (omega arith) row hr wide,
                  rank_of-precedence Outcome.escalate (omega arith) (omega arith),
                )
                (returns (
                  let c : Winner = record w {
                    outcome = Outcome.escalate;
                    kind = driver_semantic;
                    reason =
                        if bit batch.words batch.present (field - 1) row
                        then Reason.unclear
                        else Reason.missing;
                    field = field;
                    rank = precedence p Outcome.escalate;
                  } in
                  let (climbs, over, _) =
                    challenge-Climbs (HasCause p batch t row) w c low h (escalation c refl refl)
                      (λ higher.
                        HasCause.by_issue field (omega arith) (omega arith)
                          (ap (λ (m : ℕ). has_bit m (field - 1)) (sym read) ∙ set)
                          (record { kind = refl; reason = refl; outcome = refl }) refl
                          (λ g from before.
                            ap (λ (m : ℕ). has_bit m (g - 1)) (sym read) ∙ clean g from before)) in
                  (climbs, λ f from to set. over)))
          | inr clear ↦ rw clear (
              Returns-mono
                (semantic_from-Climbs mask n (suc field) w (omega arith) (omega arith) read
                  (λ g from before. elim (ℕ_discrete g field) [
                    | yes e ↦ ap (λ (k : ℕ). has_bit mask (k - 1)) e ∙ clear
                    | no d ↦ clean g from (omega arith)
                  ])
                  h)
                λ w' (climbs, later). (
                  climbs,
                  λ f from to set. elim (ℕ_discrete f field) [
                    | yes e ↦
                        absurd
                          (set_and_clear (ap (λ (k : ℕ). has_bit mask (k - 1)) (sym e) ∙ set) clear)
                    | no d ↦ later f (omega arith) to set
                  ],
                ))
        ]

    -- The row's missing references.
    pub reference_round-Climbs :
        (edge : ℕ) (w : Winner)
        → edge < length batch.evidence_refs
        → get_or batch.evidence_ref_offsets row 0 ≤ edge
        → edge < get_or batch.evidence_ref_offsets (row + 1) 0
        → IssuesBelow p batch row (suc w.rank)
        → ReferencesBelow p batch row edge (suc w.rank)
        → Climbs p (HasCause p batch t row) low w
        → Returns
            (λ w'.
              Climbs p (HasCause p batch t row) low w'
              × (w.rank ≤ w'.rank)
              × (get_or batch.evidence_refs edge 0 ≡ 0 → precedence p Outcome.escalate ≤ w'.rank))
            (reference_round p batch edge w)
    unfolding reference_round
    reference_round-Climbs edge w inside from to issues earlier h =
        elim (ℕ_discrete (get_or batch.evidence_refs edge 0) 0) [
          | yes missing ↦
              rw
                (
                  nth-get_or batch.evidence_refs edge 0 inside,
                  eq→== (get_or batch.evidence_refs edge 0) 0 missing,
                  rank_of-precedence Outcome.escalate (omega arith) (omega arith),
                )
                (returns (
                  let c : Winner = record w {
                    outcome = Outcome.escalate;
                    kind = driver_missing_reference;
                    reason = Reason.missing;
                    edge = u32 (edge + 1);
                    rank = precedence p Outcome.escalate;
                  } in
                  let (climbs, over, rises) =
                    challenge-Climbs (HasCause p batch t row) w c low h (escalation c refl refl)
                      (λ higher.
                        HasCause.by_missing_reference edge from to missing
                          (record { kind = refl; reason = refl; outcome = refl }) refl
                          (λ f low high set. omega (arith, issues f low high set, higher))
                          (λ k low high none. omega (arith, earlier k low high none, higher))) in
                  (climbs, rises, λ is. over)))
          | no there ↦
              rw
                (
                  nth-get_or batch.evidence_refs edge 0 inside,
                  ne→== (get_or batch.evidence_refs edge 0) 0 there,
                )
                (returns (h, le_refl _, λ missing. absurd (there missing)))
        ]
