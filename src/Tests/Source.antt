-- ===== src/Tests/Source.antt =====
-- A policy as it is written: one requirement with a clause that can ask for a revision.
use verifoxx.Base.{◌≡◌, refl, false, [], ◌∷◌, ok}
use verifoxx.Base.Text.{bytes, trim_space, is_blank, is_member, ◌=ₜ◌}
use verifoxx.Ast.{
  Policy, Clause, expression, nil, cons, no_evidence, operator_all, operator_equal,
  operator_evidence_matches, operator_in, outcome_approve, outcome_escalate, outcome_revise,
  remediation_add_evidence,
}
use verifoxx.Ast.Policies.{IsPolicy, validate-IsPolicy}
use verifoxx.Ast.Validate.{
  is_empty, is_empty_list, is_leaf, is_no_evidence, known_field, validate_equal, validate_values,
  validate_in, validate_evidence, validate_all, validate_operator, validate_expression,
  validate_children, valid_outcome, validate_added, validate_set, validate_remediation,
  validate_remediations, validate_states, has_no_remediation, validate_clause_resolution,
  validate_clauses, has_no_clause, validate_requirements, has_no_requirement, validate,
}
use verifoxx.Schema.{lookup_field, valid_field_value, valid_evidence_kind}

abbrev clause : Clause
clause = record {
  id = bytes " c1";
  assertion =
      expression operator_all [] [] []
        (cons
          (expression operator_in (bytes "trust_level") [] (bytes "external" ∷ []) nil no_evidence)
          (cons
            (expression operator_evidence_matches [] [] [] nil
              (record no_evidence { kind = bytes "approval_record" }))
            nil))
        no_evidence;
  resolution = record {
    satisfied = outcome_approve;
    refuted = outcome_revise;
    missing = outcome_escalate;
    invalid = outcome_escalate;
    stale = outcome_escalate;
    unclear = outcome_escalate;
    unverifiable = outcome_escalate;
    conflict = outcome_escalate;
  };
  explanations = record {
    satisfied = [];
    refuted = bytes "r";
    missing = bytes "m";
    invalid = bytes "i";
    stale = bytes "s";
    unclear = bytes "u";
    unverifiable = bytes "v";
    conflict = bytes "c";
  };
  remediations =
      record {
        action = remediation_add_evidence;
        evidence_kind = bytes "approval_record";
        description = bytes "ask";
        field = [];
        value = [];
      }
      ∷ [];
}

abbrev source : Policy
source = record {
  name = bytes "policy";
  version = bytes "1";
  requirements =
      record {
        id = bytes "r1";
        description = [];
        non_negotiable = false;
        applicability =
            expression operator_equal (bytes "action") (bytes "row_level_export") [] nil
              no_evidence;
        clauses = clause ∷ [];
      }
      ∷ [];
}

source-accepted : validate source ≡ ok tt
unfolding validate is_empty is_empty_list is_leaf is_no_evidence known_field validate_equal
    validate_values validate_in validate_evidence validate_all validate_operator validate_expression
    validate_children valid_outcome validate_added validate_set validate_remediation
    validate_remediations validate_states has_no_remediation validate_clause_resolution
    validate_clauses has_no_clause validate_requirements has_no_requirement trim_space is_blank
    is_member ◌=ₜ◌ lookup_field valid_field_value valid_evidence_kind
source-accepted = refl

validate-IsPolicy_example : IsPolicy source
validate-IsPolicy_example = validate-IsPolicy source source-accepted
