-- ===== src/Eval/Results/Row.antt =====
-- internal/eval/executor.go: the result of one row, written after those of the rows before it.
use mathlib.Core.Path.{subst}
use mathlib.Core.List.{append_assoc, append-nil}
use verifoxx.Base.{
  ℕ, suc, ◌^◌, ◌≤◌, ◌<◌, ◌≡◌, refl, sym, ◌∙◌, not, List, [], ◌∷◌, ◌++◌, length, length-append,
  get_or, ◌==◌, if◌then◌else◌, Bool-cases, inl, inr, arith, Run, ok, ◌>>=◌, Returns, returns,
  Returns-bind,
}
use verifoxx.Eval.Batch.{Batch}
use verifoxx.Eval.Context.{Context}
use verifoxx.Eval.Error.{Error}
use verifoxx.Eval.Executor.{Winner, Applied, resolve_winner}
use verifoxx.Eval.Resolve.{
  append_items, write_winner, write_requirements, write_remediations, write_evidence, resolve_row,
}
use verifoxx.Eval.Results.Evidence.{Each, IsNumber, row_refs}
use verifoxx.Eval.Results.Collect.{write_evidence-row_refs}
use verifoxx.Eval.Results.Remediations.{NamesClause, remediations_of, winner_remediations-of}
use verifoxx.Eval.Results.Segments.{
  joined, Shows, Segmented, write-Shows, skip-Shows, open-Segmented, close-Segmented,
}
use verifoxx.Eval.Shape.{HasEvidence}
use verifoxx.Program.{Program}
use verifoxx.Program.Valid.{HasValidTables}
use verifoxx.ResultBatch.{ResultBatch, Slice, append_item, store_item}
use verifoxx.Schema.Outcome

-- The reason of a row that is not approved, else 0.
abbrev pub issue_of : Winner → ℕ
issue_of w = if not (w.outcome == Outcome.approve) then w.reason else 0

-- The columns of the first `k` rows show their winners.
pub record ShowsWinners (rows k : ℕ) (a : ℕ → Applied) (dst : ResultBatch) : Type 0 where
  pub outcome : Shows rows k (λ r. (a r).winner.outcome) dst.outcome_ids.items
  pub kind : Shows rows k (λ r. (a r).winner.kind) dst.driver_kinds.items
  pub requirement : Shows rows k (λ r. (a r).winner.requirement) dst.driver_requirement_ids.items
  pub clause : Shows rows k (λ r. (a r).winner.clause) dst.driver_clause_ids.items
  pub reason : Shows rows k (λ r. (a r).winner.reason) dst.driver_reason_ids.items
  pub field : Shows rows k (λ r. (a r).winner.field) dst.driver_field_ids.items
  pub edge : Shows rows k (λ r. (a r).winner.edge) dst.driver_evidence_edge_ids.items
  pub issue : Shows rows k (λ r. issue_of (a r).winner) dst.issue_ids.items

-- The lists of the first `k` rows: their requirements, evidence and remediations.
pub record ListsOf (p : Program) (batch : Batch) (rows k : ℕ) (a : ℕ → Applied) (dst : ResultBatch)
    : Type 0 where
  pub requirements :
      Segmented rows k
        (λ r. (a r).requirement_ids)
        dst.requirement_offsets.items
        dst.requirement_ids.items
  pub evidence :
      Segmented rows k
        (λ r. row_refs p batch (a r).requirement_ids r)
        dst.evidence_offsets.items
        dst.evidence_refs.items
  pub remediations :
      Segmented rows k
        (λ r. remediations_of p (a r).winner)
        dst.remediation_offsets.items
        dst.remediation_ids.items

append_items-items : (s : Slice) (ids : List ℕ) → (append_items s ids).items ≡ s.items ++ ids
append_items-items s [] = sym (append-nil s.items)
append_items-items s (id ∷ ids) =
    append_items-items (append_item s id) ids ∙ append_assoc s.items (id ∷ []) ids

module _ (rows k : ℕ) (inside : k < rows) (seg : ℕ → List ℕ)
    (few : length (joined seg (suc k)) < 2 ^ 32) (fewer : length (joined seg k) < 2 ^ 32)
    (dst : ResultBatch) where
  write_requirements-Segmented :
      Segmented rows k seg dst.requirement_offsets.items dst.requirement_ids.items
      → Returns
          (λ dst'.
            (o : Slice) × (s : Slice) × (dst'
              ≡ record dst { requirement_offsets = o; requirement_ids = s })
            × Segmented rows (suc k) seg o.items s.items)
          (write_requirements dst k (seg k))
  unfolding write_requirements
  write_requirements-Segmented h =
      Returns-bind
        (open-Segmented rows k inside seg dst.requirement_offsets dst.requirement_ids.items fewer h)
        λ opened h₁.
          Returns-bind
            (close-Segmented rows k inside seg opened dst.requirement_ids.items _ few
              (append_items-items dst.requirement_ids (seg k)) h₁)
            λ o h₂. returns (o, append_items dst.requirement_ids (seg k), refl, h₂)

  write_remediations-Segmented :
      Segmented rows k seg dst.remediation_offsets.items dst.remediation_ids.items
      → Returns
          (λ dst'.
            (o : Slice) × (s : Slice) × (dst'
              ≡ record dst { remediation_offsets = o; remediation_ids = s })
            × Segmented rows (suc k) seg o.items s.items)
          (write_remediations dst k (seg k))
  unfolding write_remediations
  write_remediations-Segmented h =
      Returns-bind
        (open-Segmented rows k inside seg dst.remediation_offsets dst.remediation_ids.items fewer h)
        λ opened h₁.
          Returns-bind
            (close-Segmented rows k inside seg opened dst.remediation_ids.items _ few
              (append_items-items dst.remediation_ids (seg k)) h₁)
            λ o h₂. returns (o, append_items dst.remediation_ids (seg k), refl, h₂)

module _ (p : Program) (batch : Batch) (rows k : ℕ) (inside : k < rows) (a : ℕ → Applied) where
  write_issue :
      (dst : ResultBatch)
      → Shows rows k (λ r. issue_of (a r).winner) dst.issue_ids.items
      → Returns
          (λ (s : Slice). Shows rows (suc k) (λ r. issue_of (a r).winner) s.items)
          (if not ((a k).winner.outcome == Outcome.approve)
            then store_item {E = Error} dst.issue_ids k (a k).winner.reason
            else ok dst.issue_ids)
  write_issue dst h = elim (Bool-cases ((a k).winner.outcome == Outcome.approve)) [
    | inl approved ↦
        rw approved (returns (skip-Shows rows k inside _ dst.issue_ids.items (rw approved refl) h))
    | inr issue ↦
        rw issue (write-Shows rows k inside _ dst.issue_ids (a k).winner.reason (rw issue refl) h)
  ]

  write_winner-ShowsWinners :
      (dst : ResultBatch)
      → ShowsWinners rows k a dst
      → ListsOf p batch rows (suc k) a dst
      → Returns
          (λ dst'. ShowsWinners rows (suc k) a dst' × ListsOf p batch rows (suc k) a dst')
          (write_winner dst k (a k).winner)
  unfolding write_winner
  write_winner-ShowsWinners dst h lists =
      Returns-bind
        (write-Shows rows k inside (λ r. (a r).winner.outcome) dst.outcome_ids _ refl h.outcome)
        λ c₁ h₁.
          Returns-bind
            (write-Shows rows k inside (λ r. (a r).winner.kind) dst.driver_kinds _ refl h.kind)
            λ c₂ h₂.
              Returns-bind
                (write-Shows rows k inside (λ r. (a r).winner.requirement)
                  dst.driver_requirement_ids _ refl h.requirement)
                λ c₃ h₃.
                  Returns-bind
                    (write-Shows rows k inside (λ r. (a r).winner.clause) dst.driver_clause_ids _
                      refl h.clause)
                    λ c₄ h₄.
                      Returns-bind
                        (write-Shows rows k inside (λ r. (a r).winner.reason) dst.driver_reason_ids
                          _ refl h.reason)
                        λ c₅ h₅.
                          Returns-bind
                            (write-Shows rows k inside (λ r. (a r).winner.field)
                              dst.driver_field_ids _ refl h.field)
                            λ c₆ h₆.
                              Returns-bind
                                (write-Shows rows k inside (λ r. (a r).winner.edge)
                                  dst.driver_evidence_edge_ids _ refl h.edge)
                                λ c₇ h₇. Returns-bind (write_issue dst h.issue) λ c₈ h₈. returns (
                                  record {
                                    outcome = h₁;
                                    kind = h₂;
                                    requirement = h₃;
                                    clause = h₄;
                                    reason = h₅;
                                    field = h₆;
                                    edge = h₇;
                                    issue = h₈;
                                  },
                                  record {
                                    requirements = lists.requirements;
                                    evidence = lists.evidence;
                                    remediations = lists.remediations;
                                  },
                                )

  module _ (tables : HasValidTables p) (shape : HasEvidence batch) (same : batch.rows ≡ rows)
      (few_edges : length batch.evidence_refs < 2 ^ 32)
      (few_requirements : length (joined (λ r. (a r).requirement_ids) (suc k)) < 2 ^ 32)
      (few_remediations : length (joined (λ r. remediations_of p (a r).winner) (suc k)) < 2 ^ 32)
      (early : length (joined (λ r. row_refs p batch (a r).requirement_ids r) k)
        ≤ get_or batch.evidence_ref_offsets k 0)
      (context : Context) (resolved : resolve_winner p context batch k ≡ ok (a k))
      (named : NamesClause p (a k).winner)
      (known : Each (IsNumber (length p.requirement_symbols)) (a k).requirement_ids) where
    -- The row's requirements, evidence and remediations and its winner are written after those of
    -- the rows before it.
    pub resolve_row-written :
        (dst : ResultBatch)
        → ShowsWinners rows k a dst
        → ListsOf p batch rows k a dst
        → Returns
            (λ dst'. ShowsWinners rows (suc k) a dst' × ListsOf p batch rows (suc k) a dst')
            (resolve_row p context batch k dst)
    unfolding resolve_row
    resolve_row-written dst h lists =
        rw (resolved, winner_remediations-of p tables (a k).winner named)
          (Returns-bind
            (write_requirements-Segmented rows k inside (λ r. (a r).requirement_ids)
              few_requirements
              (omega (
                arith,
                length-append (joined (λ r. (a r).requirement_ids) k) (a k).requirement_ids,
              ))
              dst lists.requirements)
            λ d₁ (o₁, s₁, is₁, h₁).
              subst (λ d. Returns Written (after_requirements d)) (sym is₁)
                (Returns-bind
                  (write_evidence-row_refs p tables batch shape rows k inside
                    (λ r. (a r).requirement_ids) (λ r. row_refs p batch (a r).requirement_ids r)
                    known (record dst { requirement_offsets = o₁; requirement_ids = s₁ }) h₁
                    lists.evidence (omega arith) few_edges early refl)
                  λ d₂ (o₂, s₂, is₂, h₂).
                    subst (λ d. Returns Written (after_evidence d)) (sym is₂)
                      (Returns-bind
                        (write_remediations-Segmented rows k inside
                          (λ r. remediations_of p (a r).winner) few_remediations
                          (omega (
                            arith,
                            length-append (joined (λ r. remediations_of p (a r).winner) k)
                                (remediations_of p (a k).winner),
                          ))
                          (record dst {
                            requirement_offsets = o₁;
                            requirement_ids = s₁;
                            evidence_offsets = o₂;
                            evidence_refs = s₂;
                          })
                          lists.remediations)
                        λ d₃ (o₃, s₃, is₃, h₃).
                          subst (λ d. Returns Written (write_winner d k (a k).winner)) (sym is₃)
                            (write_winner-ShowsWinners
                              (record dst {
                                requirement_offsets = o₁;
                                requirement_ids = s₁;
                                evidence_offsets = o₂;
                                evidence_refs = s₂;
                                remediation_offsets = o₃;
                                remediation_ids = s₃;
                              })
                              (record {
                                outcome = h.outcome;
                                kind = h.kind;
                                requirement = h.requirement;
                                clause = h.clause;
                                reason = h.reason;
                                field = h.field;
                                edge = h.edge;
                                issue = h.issue;
                              })
                              (record { requirements = h₁; evidence = h₂; remediations = h₃ })))))
      where
        Written : ResultBatch → Type 0
        Written dst' = ShowsWinners rows (suc k) a dst' × ListsOf p batch rows (suc k) a dst'

        after_evidence : ResultBatch → Run Error ResultBatch
        after_evidence d = write_remediations d k (remediations_of p (a k).winner) >>= λ d'.
            write_winner d' k (a k).winner

        after_requirements : ResultBatch → Run Error ResultBatch
        after_requirements d = write_evidence p batch k d >>= after_evidence
