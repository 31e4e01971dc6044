-- ===== src/ResultBatch/Capacity.antt =====
-- internal/result/batch.go: the states of a batch around Ensure, CheckCapacity and Reset.
use native.Mathlib.Decide.{dec_lt}
use verifoxx.Base.{
  ℕ, suc, ◌+◌, ◌≤◌, ◌≡◌, refl, List, [], ◌∷◌, replicate, arith, ok, le→ltb, lt→ltb, ◌↔◌, Returns,
  returns, Returns-bind,
}
use verifoxx.ResultBatch.{
  Slice, ResultBatch, reset_length, ensure_length, ensure_empty_capacity, ensure, check_columns,
  check_capacity, columns, reset,
}

-- A column of `n` zeros, with room for them.
pub record IsZeroed (n : ℕ) (s : Slice) : Type 0 where
  pub zeros : s.items ≡ replicate n 0
  pub room : n ≤ s.cap

pub record IsEmptied (n : ℕ) (s : Slice) : Type 0 where
  pub empty : s.items ≡ []
  pub room : n ≤ s.cap

-- The columns of a batch made ready for `rows` rows.
pub record IsReady (rows requirements evidence remediations : ℕ) (b : ResultBatch) : Type 0 where
  pub outcome_ids : IsZeroed rows b.outcome_ids
  pub driver_kinds : IsZeroed rows b.driver_kinds
  pub driver_requirement_ids : IsZeroed rows b.driver_requirement_ids
  pub driver_clause_ids : IsZeroed rows b.driver_clause_ids
  pub driver_reason_ids : IsZeroed rows b.driver_reason_ids
  pub driver_field_ids : IsZeroed rows b.driver_field_ids
  pub driver_evidence_edge_ids : IsZeroed rows b.driver_evidence_edge_ids
  pub issue_ids : IsZeroed rows b.issue_ids
  pub requirement_offsets : IsZeroed (rows + 1) b.requirement_offsets
  pub evidence_offsets : IsZeroed (rows + 1) b.evidence_offsets
  pub remediation_offsets : IsZeroed (rows + 1) b.remediation_offsets
  pub requirement_ids : IsEmptied requirements b.requirement_ids
  pub evidence_refs : IsEmptied evidence b.evidence_refs
  pub remediation_ids : IsEmptied remediations b.remediation_ids

-- A batch whose columns have room for `rows` rows and so many results, whatever they hold.
pub record HasRoom (rows requirements evidence remediations : ℕ) (b : ResultBatch) : Type 0 where
  pub outcome_ids : rows ≤ b.outcome_ids.cap
  pub driver_kinds : rows ≤ b.driver_kinds.cap
  pub driver_requirement_ids : rows ≤ b.driver_requirement_ids.cap
  pub driver_clause_ids : rows ≤ b.driver_clause_ids.cap
  pub driver_reason_ids : rows ≤ b.driver_reason_ids.cap
  pub driver_field_ids : rows ≤ b.driver_field_ids.cap
  pub driver_evidence_edge_ids : rows ≤ b.driver_evidence_edge_ids.cap
  pub issue_ids : rows ≤ b.issue_ids.cap
  pub requirement_offsets : rows + 1 ≤ b.requirement_offsets.cap
  pub evidence_offsets : rows + 1 ≤ b.evidence_offsets.cap
  pub remediation_offsets : rows + 1 ≤ b.remediation_offsets.cap
  pub requirement_ids : requirements ≤ b.requirement_ids.cap
  pub evidence_refs : evidence ≤ b.evidence_refs.cap
  pub remediation_ids : remediations ≤ b.remediation_ids.cap

module _ {E : Type 0} where
  reset_length-IsZeroed :
      (s : Slice) (n : ℕ) → n ≤ s.cap → Returns {E = E} (IsZeroed n) (reset_length s n)
  unfolding reset_length
  reset_length-IsZeroed s n h = rw (le→ltb s.cap n h) (returns (record { zeros = refl; room = h }))

  ensure_length-IsZeroed : (s : Slice) (n : ℕ) → Returns {E = E} (IsZeroed n) (ensure_length s n)
  unfolding ensure_length
  ensure_length-IsZeroed s n = elim (dec_lt s.cap n) [
    | yes short ↦ rw (lt→ltb s.cap n short) (returns (record { zeros = refl; room = omega arith }))
    | no enough ↦
        rw (le→ltb s.cap n (omega arith)) (returns (record { zeros = refl; room = omega arith }))
  ]

ensure_empty_capacity-IsEmptied : (s : Slice) (n : ℕ) → IsEmptied n (ensure_empty_capacity s n)
unfolding ensure_empty_capacity
ensure_empty_capacity-IsEmptied s n = elim (dec_lt s.cap n) [
  | yes short ↦ rw (lt→ltb s.cap n short) (record { empty = refl; room = omega arith })
  | no enough ↦ rw (le→ltb s.cap n (omega arith)) (record { empty = refl; room = omega arith })
]

module _ {E : Type 0} (b : ResultBatch) (rows requirements evidence remediations : ℕ) where
  -- On any result batch, whatever its columns hold, Ensure returns a batch whose row columns are
  -- zeros of the needed length, whose three lists are empty, and whose columns all have room for
  -- what is needed.
  pub ensure-IsReady :
      Returns {E = E}
        (IsReady rows requirements evidence remediations)
        (ensure b rows requirements evidence remediations)
  unfolding ensure
  ensure-IsReady = Returns-bind (ensure_length-IsZeroed b.outcome_ids rows) λ _ c₁.
      Returns-bind (ensure_length-IsZeroed b.driver_kinds rows) λ _ c₂.
        Returns-bind (ensure_length-IsZeroed b.driver_requirement_ids rows) λ _ c₃.
          Returns-bind (ensure_length-IsZeroed b.driver_clause_ids rows) λ _ c₄.
            Returns-bind (ensure_length-IsZeroed b.driver_reason_ids rows) λ _ c₅.
              Returns-bind (ensure_length-IsZeroed b.driver_field_ids rows) λ _ c₆.
                Returns-bind (ensure_length-IsZeroed b.driver_evidence_edge_ids rows) λ _ c₇.
                  Returns-bind (ensure_length-IsZeroed b.issue_ids rows) λ _ c₈.
                    Returns-bind (ensure_length-IsZeroed b.requirement_offsets (rows + 1)) λ _ c₉.
                      Returns-bind (ensure_length-IsZeroed b.evidence_offsets (rows + 1)) λ _ d₁.
                        Returns-bind (ensure_length-IsZeroed b.remediation_offsets (rows + 1))
                          λ _ d₂. returns (record {
                            outcome_ids = c₁;
                            driver_kinds = c₂;
                            driver_requirement_ids = c₃;
                            driver_clause_ids = c₄;
                            driver_reason_ids = c₅;
                            driver_field_ids = c₆;
                            driver_evidence_edge_ids = c₇;
                            issue_ids = c₈;
                            requirement_offsets = c₉;
                            evidence_offsets = d₁;
                            remediation_offsets = d₂;
                            requirement_ids =
                                ensure_empty_capacity-IsEmptied b.requirement_ids requirements;
                            evidence_refs =
                                ensure_empty_capacity-IsEmptied b.evidence_refs evidence;
                            remediation_ids =
                                ensure_empty_capacity-IsEmptied b.remediation_ids remediations;
                          })

  reset-HasRoom :
      HasRoom rows requirements evidence remediations b
      → Returns {E = E} (IsReady rows requirements evidence remediations) (reset b rows)
  unfolding reset
  reset-HasRoom h = Returns-bind (reset_length-IsZeroed b.outcome_ids rows h.outcome_ids) λ _ c₁.
      Returns-bind (reset_length-IsZeroed b.driver_kinds rows h.driver_kinds) λ _ c₂.
        Returns-bind (reset_length-IsZeroed b.driver_requirement_ids rows h.driver_requirement_ids)
          λ _ c₃.
            Returns-bind (reset_length-IsZeroed b.driver_clause_ids rows h.driver_clause_ids)
              λ _ c₄.
                Returns-bind (reset_length-IsZeroed b.driver_reason_ids rows h.driver_reason_ids)
                  λ _ c₅.
                    Returns-bind (reset_length-IsZeroed b.driver_field_ids rows h.driver_field_ids)
                      λ _ c₆.
                        Returns-bind
                          (reset_length-IsZeroed b.driver_evidence_edge_ids rows
                            h.driver_evidence_edge_ids)
                          λ _ c₇.
                            Returns-bind (reset_length-IsZeroed b.issue_ids rows h.issue_ids)
                              λ _ c₈.
                                Returns-bind
                                  (reset_length-IsZeroed b.requirement_offsets (rows + 1)
                                    h.requirement_offsets)
                                  λ _ c₉.
                                    Returns-bind
                                      (reset_length-IsZeroed b.evidence_offsets (rows + 1)
                                        h.evidence_offsets)
                                      λ _ d₁.
                                        Returns-bind
                                          (reset_length-IsZeroed b.remediation_offsets (rows + 1)
                                            h.remediation_offsets)
                                          λ _ d₂. returns (record {
                                            outcome_ids = c₁;
                                            driver_kinds = c₂;
                                            driver_requirement_ids = c₃;
                                            driver_clause_ids = c₄;
                                            driver_reason_ids = c₅;
                                            driver_field_ids = c₆;
                                            driver_evidence_edge_ids = c₇;
                                            issue_ids = c₈;
                                            requirement_offsets = c₉;
                                            evidence_offsets = d₁;
                                            remediation_offsets = d₂;
                                            requirement_ids = record {
                                              empty = refl;
                                              room = h.requirement_ids;
                                            };
                                            evidence_refs = record {
                                              empty = refl;
                                              room = h.evidence_refs;
                                            };
                                            remediation_ids = record {
                                              empty = refl;
                                              room = h.remediation_ids;
                                            };
                                          })

abbrev Roomy : List (Slice × ℕ) → Type 0
Roomy [] = Unit {0}
Roomy ((s, need) ∷ columns) = (need ≤ s.cap) × Roomy columns

check_columns_iff : (i : ℕ) (cs : List (Slice × ℕ)) → (check_columns i cs ≡ ok tt) ↔ Roomy cs
unfolding check_columns
check_columns_iff i [] = (λ _. tt, λ _. refl)
check_columns_iff i ((s, need) ∷ cs) = (
  λ h. ground (arith, (check_columns_iff (suc i) cs).0),
  λ h. rw (le→ltb s.cap need h.0) ((check_columns_iff (suc i) cs).1 h.1),
)

-- CheckCapacity accepts a batch exactly when the eight columns of a row have room for the rows, the
-- three columns of offsets for one more, and the three lists for the requirements, the evidence
-- references and the remediations.
pub check_capacity-HasRoom :
    (b : ResultBatch) (rows requirements evidence remediations : ℕ)
    → (check_capacity b rows requirements evidence remediations ≡ ok tt)
      ↔ HasRoom rows requirements evidence remediations b
unfolding check_capacity
check_capacity-HasRoom b rows requirements evidence remediations = (
  λ h.
      let room = (check_columns_iff 0 (columns b rows requirements evidence remediations)).0 h in
      record {
        outcome_ids = room.0;
        driver_kinds = room.1.0;
        driver_requirement_ids = room.1.1.0;
        driver_clause_ids = room.1.1.1.0;
        driver_reason_ids = room.1.1.1.1.0;
        driver_field_ids = room.1.1.1.1.1.0;
        driver_evidence_edge_ids = room.1.1.1.1.1.1.0;
        issue_ids = room.1.1.1.1.1.1.1.0;
        requirement_offsets = room.1.1.1.1.1.1.1.1.0;
        evidence_offsets = room.1.1.1.1.1.1.1.1.1.0;
        remediation_offsets = room.1.1.1.1.1.1.1.1.1.1.0;
        requirement_ids = room.1.1.1.1.1.1.1.1.1.1.1.0;
        evidence_refs = room.1.1.1.1.1.1.1.1.1.1.1.1.0;
        remediation_ids = room.1.1.1.1.1.1.1.1.1.1.1.1.1.0;
      },
  λ h. (check_columns_iff 0 (columns b rows requirements evidence remediations)).1 (omega arith),
)

-- CheckCapacity accepts every batch that is ready for the given needs.
pub check_capacity-IsReady :
    (b : ResultBatch) (rows requirements evidence remediations : ℕ)
    → IsReady rows requirements evidence remediations b
    → check_capacity b rows requirements evidence remediations ≡ ok tt
check_capacity-IsReady b rows requirements evidence remediations h =
    (check_capacity-HasRoom b rows requirements evidence remediations).1 (record {
      outcome_ids = h.outcome_ids.room;
      driver_kinds = h.driver_kinds.room;
      driver_requirement_ids = h.driver_requirement_ids.room;
      driver_clause_ids = h.driver_clause_ids.room;
      driver_reason_ids = h.driver_reason_ids.room;
      driver_field_ids = h.driver_field_ids.room;
      driver_evidence_edge_ids = h.driver_evidence_edge_ids.room;
      issue_ids = h.issue_ids.room;
      requirement_offsets = h.requirement_offsets.room;
      evidence_offsets = h.evidence_offsets.room;
      remediation_offsets = h.remediation_offsets.room;
      requirement_ids = h.requirement_ids.room;
      evidence_refs = h.evidence_refs.room;
      remediation_ids = h.remediation_ids.room;
    })

-- Reset returns, without a slice out of range, on every batch that CheckCapacity accepts for the
-- same number of rows, whatever its columns hold: the row columns are then zeros of the needed
-- length, the three lists are empty, and all columns have room for what was asked for.
pub reset-IsReady :
    {E : Type 0} (b : ResultBatch) (rows requirements evidence remediations : ℕ)
    → check_capacity b rows requirements evidence remediations ≡ ok tt
    → Returns {E = E} (IsReady rows requirements evidence remediations) (reset b rows)
reset-IsReady b rows requirements evidence remediations accepted =
    reset-HasRoom b rows requirements evidence remediations
      ((check_capacity-HasRoom b rows requirements evidence remediations).0 accepted)
