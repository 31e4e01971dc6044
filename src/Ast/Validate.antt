-- ===== src/Ast/Validate.antt =====
-- internal/ast/validate.go. The node count that the checks share is passed on; the maps of the
-- identifiers and the values seen are lists.
use verifoxx.Base.{
  ℕ, suc, Bool, true, false, not, ◌&&◌, ◌||◌, none, some, List, [], ◌∷◌, length, ltb, if◌then◌else◌,
  Run, ok, err, ◌>>=◌, ◌>>◌, reject_if,
}
use verifoxx.Base.Text.{Text, ◌=ₜ◌, trim_space, is_blank, is_member}
use verifoxx.Ast.{
  Expression, expression, Expressions, nil, cons, EvidencePredicate, Policy, Requirement, Clause,
  Remediation, operator_all, operator_equal, operator_in, operator_evidence_matches,
  outcome_approve, outcome_reject, outcome_revise, outcome_escalate, remediation_add_evidence,
  remediation_set_field,
}
use verifoxx.Ast.Error.{Error}
use verifoxx.Schema.{lookup_field, valid_field_value, valid_evidence_kind}

abbrev pub max_expression_depth : ℕ
max_expression_depth = 32

abbrev pub max_expression_nodes : ℕ
max_expression_nodes = 4096

abbrev pub max_explanation_bytes : ℕ
max_explanation_bytes = 1024

abbrev pub max_text_bytes : ℕ
max_text_bytes = 4096

-- `text == ""` and `len(list) == 0`
unfoldable pub is_empty : Text → Bool
is_empty [] = true
is_empty (b ∷ t) = false

unfoldable pub is_empty_list : List Text → Bool
is_empty_list [] = true
is_empty_list (v ∷ vs) = false

unfoldable pub is_leaf : Expressions → Bool
is_leaf nil = true
is_leaf (cons e es) = false

-- `expr.Evidence == (EvidencePredicate{})`
unfoldable pub is_no_evidence : EvidencePredicate → Bool
is_no_evidence e =
    is_empty e.kind
    && is_empty e.status
    && is_empty e.timing
    && is_empty e.reviewer
    && is_empty e.timestamp_state
    && is_empty e.subject
    && is_empty e.attestation_state
    && is_empty e.scope
    && is_empty e.adjustment_type

-- A field by its name, or the error.
unfoldable pub known_field : Text → Run Error ℕ
known_field name = elim (lookup_field name) [
  | none ↦ err Error.unknown_field
  | some field ↦ ok field
]

-- The case `OperatorEqual`
unfoldable pub validate_equal :
    Text → Text → List Text → Expressions → EvidencePredicate → Run Error (Unit {0})
validate_equal name value values children evidence = do
  field ← known_field name
  _ ← reject_if (is_blank value) Error.empty_value
  _ ← reject_if (not (valid_field_value field value)) Error.unknown_value
  _ ← reject_if (not (is_empty_list values)) Error.equal_with_values
  reject_if (not (is_leaf children) || not (is_no_evidence evidence)) Error.equal_with_more

-- The loop over the values of `OperatorIn`; the state is `seen`.
unfoldable pub validate_values : ℕ → List Text → List Text → Run Error (Unit {0})
validate_values field seen [] = ok tt
validate_values field seen (value ∷ values) = do
  _ ← reject_if (is_blank value) Error.empty_value
  _ ← reject_if (is_member value seen) Error.duplicate_value
  _ ← reject_if (not (valid_field_value field value)) Error.unknown_value
  validate_values field (value ∷ seen) values

-- The case `OperatorIn`
unfoldable pub validate_in :
    Text → Text → List Text → Expressions → EvidencePredicate → Run Error (Unit {0})
validate_in name value values children evidence = do
  field ← known_field name
  _ ← reject_if (is_empty_list values) Error.in_without_values
  _ ←
      reject_if (not (is_empty value) || not (is_leaf children) || not (is_no_evidence evidence))
        Error.in_with_more
  validate_values field [] values

-- The case `OperatorEvidenceMatches`
unfoldable pub validate_evidence :
    Bool → Text → Text → List Text → Expressions → EvidencePredicate → Run Error (Unit {0})
validate_evidence allow_evidence name value values children evidence = do
  _ ← reject_if (not allow_evidence) Error.evidence_in_applicability
  _ ← reject_if (is_blank evidence.kind) Error.empty_kind
  _ ← reject_if (not (valid_evidence_kind evidence.kind)) Error.unknown_kind
  reject_if
      (not (is_empty name)
        || not (is_empty value)
        || not (is_empty_list values)
        || not (is_leaf children))
      Error.evidence_with_more

-- The checks of an `OperatorAll` before its children.
unfoldable pub validate_all :
    Text → Text → List Text → Expressions → EvidencePredicate → Run Error (Unit {0})
validate_all name value values children evidence = do
  _ ← reject_if (is_leaf children) Error.all_without_children
  reject_if
      (not (is_empty name)
        || not (is_empty value)
        || not (is_empty_list values)
        || not (is_no_evidence evidence))
      Error.all_with_more

-- The operator's case, given what the children's checks return.
unfoldable pub validate_operator : Bool → Expression → ℕ → Run Error ℕ → Run Error ℕ
validate_operator allow_evidence (expression op name value values children evidence) nodes rest =
    if op =ₜ operator_all
    then (validate_all name value values children evidence >>= λ _. rest)
    else if op =ₜ operator_equal
    then (validate_equal name value values children evidence >>= λ _. ok nodes)
    else if op =ₜ operator_in
    then (validate_in name value values children evidence >>= λ _. ok nodes)
    else if op =ₜ operator_evidence_matches
    then (validate_evidence allow_evidence name value values children evidence >>= λ _. ok nodes)
    else err Error.unsupported_operator

-- `validateExpression`: the number of nodes seen, after the expression's.
unfoldable mutual
  pub validate_expression : ℕ → ℕ → Bool → Expression → Run Error ℕ
  validate_expression depth nodes allow_evidence
        (expression op name value values children evidence) =
      do
        let rest = validate_children (suc depth) (suc nodes) allow_evidence children
        _ ← reject_if (ltb max_expression_depth depth) Error.too_deep
        _ ← reject_if (ltb max_expression_nodes (suc nodes)) Error.too_many_nodes
        validate_operator allow_evidence (expression op name value values children evidence)
            (suc nodes) rest

  pub validate_children : ℕ → ℕ → Bool → Expressions → Run Error ℕ
  validate_children depth nodes allow_evidence nil = ok nodes
  validate_children depth nodes allow_evidence (cons e es) = do
    nodes ← validate_expression depth nodes allow_evidence e
    validate_children depth nodes allow_evidence es

unfoldable pub valid_outcome : Text → Bool
valid_outcome outcome =
    outcome =ₜ outcome_approve
    || outcome =ₜ outcome_reject
    || outcome =ₜ outcome_revise
    || outcome =ₜ outcome_escalate

-- The case `RemediationAddEvidence`
unfoldable pub validate_added : Remediation → Run Error (Unit {0})
validate_added r = do
  _ ← reject_if (is_blank r.evidence_kind) Error.empty_kind
  _ ← reject_if (not (valid_evidence_kind r.evidence_kind)) Error.unknown_kind
  reject_if (not (is_empty r.field) || not (is_empty r.value)) Error.add_evidence_with_more

-- The case `RemediationSetField`
unfoldable pub validate_set : Remediation → Run Error (Unit {0})
validate_set r = do
  field ← known_field r.field
  _ ← reject_if (is_blank r.value) Error.empty_value
  _ ← reject_if (not (valid_field_value field r.value)) Error.unknown_value
  reject_if (not (is_empty r.evidence_kind)) Error.set_field_with_more

unfoldable pub validate_remediation : Remediation → Run Error (Unit {0})
validate_remediation r = do
  _ ← reject_if (ltb max_text_bytes (length r.description)) Error.long_description
  if r.action =ₜ remediation_add_evidence
      then validate_added r
      else if r.action =ₜ remediation_set_field
      then validate_set r
      else err Error.unsupported_action

unfoldable pub validate_remediations : List Remediation → Run Error (Unit {0})
validate_remediations [] = ok tt
validate_remediations (r ∷ rs) = validate_remediation r >> validate_remediations rs

-- The outcomes and explanations of a clause, in the order of the reasons.
abbrev pub resolution_states : Clause → List (Text × Text)
resolution_states c =
    (c.resolution.satisfied, c.explanations.satisfied)
    ∷ (c.resolution.refuted, c.explanations.refuted)
    ∷ (c.resolution.missing, c.explanations.missing)
    ∷ (c.resolution.invalid, c.explanations.invalid)
    ∷ (c.resolution.stale, c.explanations.stale)
    ∷ (c.resolution.unclear, c.explanations.unclear)
    ∷ (c.resolution.unverifiable, c.explanations.unverifiable)
    ∷ (c.resolution.conflict, c.explanations.conflict)
    ∷ []

-- The loop over the states; the state is `hasRevise`.
unfoldable pub validate_states : Bool → List (Text × Text) → Run Error Bool
validate_states has_revise [] = ok has_revise
validate_states has_revise ((outcome, explanation) ∷ states) = do
  _ ← reject_if (not (valid_outcome outcome)) Error.invalid_outcome
  _ ← reject_if (ltb max_explanation_bytes (length explanation)) Error.long_explanation
  _ ← reject_if (not (outcome =ₜ outcome_approve) && is_blank explanation) Error.no_explanation
  validate_states (has_revise || outcome =ₜ outcome_revise) states

unfoldable pub has_no_remediation : List Remediation → Bool
has_no_remediation [] = true
has_no_remediation (r ∷ rs) = false

unfoldable pub validate_clause_resolution : Clause → Run Error (Unit {0})
validate_clause_resolution c = do
  has_revise ← validate_states false (resolution_states c)
  _ ← reject_if (has_revise && has_no_remediation c.remediations) Error.revise_without_remediation
  _ ←
      reject_if (not has_revise && not (has_no_remediation c.remediations))
        Error.remediation_without_revise
  validate_remediations c.remediations

-- What the loops share: the clause identifiers seen and the nodes counted.
pub record Counted : Type 0 where
  pub clause_ids : List Text
  pub nodes : ℕ

unfoldable pub validate_clauses : Counted → List Clause → Run Error Counted
validate_clauses s [] = ok s
validate_clauses s (c ∷ clauses) = do
  let id = trim_space c.id
  _ ← reject_if (is_empty id) Error.empty_clause_id
  _ ← reject_if (is_member id s.clause_ids) Error.duplicate_clause
  nodes ← validate_expression 1 s.nodes true c.assertion
  _ ← validate_clause_resolution c
  validate_clauses (record { clause_ids = id ∷ s.clause_ids; nodes = nodes }) clauses

unfoldable pub has_no_clause : List Clause → Bool
has_no_clause [] = true
has_no_clause (c ∷ cs) = false

unfoldable pub validate_requirements : List Text → Counted → List Requirement → Run Error (Unit {0})
validate_requirements ids s [] = ok tt
validate_requirements ids s (r ∷ requirements) = do
  let id = trim_space r.id
  _ ← reject_if (is_empty id) Error.empty_requirement_id
  _ ← reject_if (is_member id ids) Error.duplicate_requirement
  _ ← reject_if (has_no_clause r.clauses) Error.no_clauses
  nodes ← validate_expression 1 s.nodes false r.applicability
  counted ← validate_clauses (record s { nodes = nodes }) r.clauses
  validate_requirements (id ∷ ids) counted requirements

unfoldable pub has_no_requirement : List Requirement → Bool
has_no_requirement [] = true
has_no_requirement (r ∷ rs) = false

unfoldable pub validate : Policy → Run Error (Unit {0})
validate p = do
  _ ← reject_if (is_blank p.name) Error.no_name
  _ ← reject_if (is_blank p.version) Error.no_version
  _ ← reject_if (has_no_requirement p.requirements) Error.no_requirements
  validate_requirements [] (record { clause_ids = []; nodes = 0 }) p.requirements
