-- ===== src/Program/Validate/Tables.antt =====
-- internal/program/validate.go, the checks of the requirements, the clauses and the catalogues.
use verifoxx.Base.{
  ℕ, suc, ◌+◌, ◌-◌, ◌*◌, Bool, true, false, not, ◌&&◌, ◌||◌, List, [], ◌∷◌, length, replicate, ltb,
  leb, ◌==◌, if◌then◌else◌, Run, ok, err, nth, store, for_range, reject_if, ◌>>=◌, ◌>>◌,
}
use verifoxx.Program.{Program, RemediationSpec, add_evidence, set_field}
use verifoxx.Program.Validate.Error.{Error}
use verifoxx.Program.Validate.Code.{
  valid_symbol, valid_field, valid_instruction, valid_range, check_columns, check_symbol_at,
}
use verifoxx.Schema.{is_valid_id}
use verifoxx.Schema.Outcome
use verifoxx.Schema.Reason

unfoldable pub valid_explanation : Program → ℕ → Bool → Bool
valid_explanation p id allow_zero =
    allow_zero && id == 0 || is_valid_id id && leb id (length p.explanation_symbols)

abbrev pub requirement_columns : Program → List ℕ
requirement_columns p =
    length p.requirement_applicability_roots
    ∷ length p.requirement_clause_starts
    ∷ length p.requirement_clause_counts
    ∷ []

abbrev pub clause_columns : Program → List ℕ
clause_columns p =
    length p.clause_assertion_roots
    ∷ length p.clause_remediation_starts
    ∷ length p.clause_remediation_counts
    ∷ length p.clause_evidence_kind_starts
    ∷ length p.clause_evidence_kind_counts
    ∷ []

-- One round of the loop over a requirement's clauses; the state is `seenClauses`.
unfoldable pub check_clause_id : Program → ℕ → ℕ → List Bool → Run Error (List Bool)
check_clause_id p start j seen = do
  id ← nth p.requirement_clause_ids (start + j)
  _ ←
      reject_if (not (is_valid_id id) || ltb (length p.clause_symbols) id)
        (Error.clause_id (start + j))
  repeated ← nth seen (id - 1)
  _ ← reject_if repeated (Error.repeated_clause (start + j))
  store seen (id - 1) true

-- One round of the loop over the requirements.
unfoldable pub check_requirement : Program → ℕ → List Bool → Run Error (List Bool)
unfolding valid_symbol valid_instruction valid_range check_clause_id
check_requirement p i seen = do
  symbol ← nth p.requirement_symbols i
  _ ← reject_if (not (valid_symbol p symbol false)) (Error.requirement_symbol i)
  root ← nth p.requirement_applicability_roots i
  _ ← reject_if (not (valid_instruction root (length p.opcodes))) (Error.applicability_root i)
  start ← nth p.requirement_clause_starts i
  count ← nth p.requirement_clause_counts i
  _ ←
      reject_if (not (valid_range start count (length p.requirement_clause_ids)))
        (Error.clause_range i)
  for_range count 0 (check_clause_id p start) seen

-- The loop over `seenClauses`
unfoldable pub check_referenced : ℕ → List Bool → Run Error (Unit {0})
check_referenced i [] = ok tt
check_referenced i (seen ∷ rest) =
    reject_if (not seen) (Error.unreferenced_clause (i + 1)) >> check_referenced (suc i) rest

-- One round of the loop over a clause's states.
unfoldable pub check_state : Program → ℕ → ℕ → Unit {0} → Run Error (Unit {0})
unfolding valid_explanation
check_state p i state _ = do
  let index = i * Reason.count + state
  outcome ← nth p.clause_resolution_outcome_ids index
  _ ← reject_if (not (is_valid_id outcome) || ltb Outcome.count outcome) (Error.outcome_id index)
  explanation ← nth p.clause_explanation_ids index
  reject_if (not (valid_explanation p explanation (outcome == Outcome.approve)))
      (Error.explanation_id index)

-- One round of the loop over the clauses.
unfoldable pub check_clause : Program → ℕ → Unit {0} → Run Error (Unit {0})
unfolding valid_symbol valid_instruction valid_range check_state
check_clause p i _ = do
  symbol ← nth p.clause_symbols i
  _ ← reject_if (not (valid_symbol p symbol false)) (Error.clause_symbol i)
  root ← nth p.clause_assertion_roots i
  _ ← reject_if (not (valid_instruction root (length p.opcodes))) (Error.assertion_root i)
  remediation_start ← nth p.clause_remediation_starts i
  remediation_count ← nth p.clause_remediation_counts i
  _ ←
      reject_if
        (not (valid_range remediation_start remediation_count (length p.clause_remediation_ids)))
        (Error.remediation_range i)
  kind_start ← nth p.clause_evidence_kind_starts i
  kind_count ← nth p.clause_evidence_kind_counts i
  _ ←
      reject_if (not (valid_range kind_start kind_count (length p.clause_evidence_kinds)))
        (Error.evidence_kind_range i)
  for_range Reason.count 0 (check_state p i) tt

-- The loops over a column of identifiers from 1 to `count`.
unfoldable pub check_id_at : (ℕ → Error) → ℕ → List ℕ → ℕ → Unit {0} → Run Error (Unit {0})
check_id_at e count ids i _ = do
  id ← nth ids i
  reject_if (not (is_valid_id id) || ltb count id) (e i)

unfoldable pub validate_requirements_and_clauses : Program → Run Error (Unit {0})
unfolding check_columns check_requirement check_referenced check_clause check_id_at
validate_requirements_and_clauses p = do
  let requirement_count = length p.requirement_symbols
  let clause_count = length p.clause_symbols
  let want_states = clause_count * Reason.count
  _ ← reject_if (requirement_count == 0) Error.no_requirements
  _ ← check_columns Error.requirement_column requirement_count 0 (requirement_columns p)
  _ ← reject_if (clause_count == 0) Error.no_clauses
  _ ← check_columns Error.clause_column clause_count 0 (clause_columns p)
  _ ←
      reject_if (not (length p.clause_resolution_outcome_ids == want_states))
        Error.resolution_states
  _ ← reject_if (not (length p.clause_explanation_ids == want_states)) Error.explanation_states
  seen ← for_range requirement_count 0 (check_requirement p) (replicate clause_count false)
  _ ← check_referenced 0 seen
  _ ← for_range clause_count 0 (check_clause p) tt
  _ ←
      for_range (length p.clause_remediation_ids) 0
        (check_id_at Error.remediation_id (length p.remediations) p.clause_remediation_ids) tt
  for_range (length p.clause_evidence_kinds) 0
      (check_id_at Error.evidence_kind (length p.evidence_kind_symbols) p.clause_evidence_kinds) tt

-- The switch on a remediation's action.
unfoldable pub check_action : Program → ℕ → RemediationSpec → Run Error (Unit {0})
unfolding valid_field valid_symbol
check_action p i r =
    if r.action == add_evidence
    then reject_if
        (not (is_valid_id r.evidence_kind)
          || ltb (length p.evidence_kind_symbols) r.evidence_kind
          || not (r.field == 0)
          || not (r.value == 0))
        (Error.add_evidence_payload i)
    else if r.action == set_field
    then reject_if
        (not (valid_field r.field)
          || not (valid_symbol p r.value false)
          || not (r.evidence_kind == 0))
        (Error.set_field_payload i)
    else err (Error.remediation_action i)

-- One round of the loop over the remediations.
unfoldable pub check_remediation : Program → ℕ → Unit {0} → Run Error (Unit {0})
unfolding check_action valid_explanation
check_remediation p i _ = do
  r ← nth p.remediations i
  _ ← check_action p i r
  reject_if (not (valid_explanation p r.description true)) (Error.description i)

-- One round of the loop over the precedence ranks; the state is `seen`.
unfoldable pub check_rank : Program → ℕ → List Bool → Run Error (List Bool)
check_rank p i seen = do
  rank ← nth p.outcome_precedence i
  _ ← reject_if (rank == 0 || ltb (length p.outcome_precedence) rank) (Error.precedence_rank i)
  duplicate ← nth seen rank
  _ ← reject_if duplicate (Error.duplicate_rank i)
  store seen rank true

unfoldable pub validate_catalogues : Program → Run Error (Unit {0})
unfolding check_symbol_at check_remediation check_rank
validate_catalogues p = do
  let ranks = length p.outcome_precedence
  _ ←
      for_range (length p.explanation_symbols) 0
        (check_symbol_at p Error.explanation_symbol p.explanation_symbols) tt
  _ ← for_range (length p.remediations) 0 (check_remediation p) tt
  _ ← reject_if (not (ranks == Outcome.count)) Error.precedence_length
  _ ← for_range ranks 0 (check_rank p) (replicate (ranks + 1) false)
  ok tt
