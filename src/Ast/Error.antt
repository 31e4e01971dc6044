-- ===== src/Ast/Error.antt =====
-- The errors of `Policy.Validate` (internal/ast/validate.go), without the path that a message names.
pub data Error : Type 0 where
  no_name : Error
  no_version : Error
  no_requirements : Error
  empty_requirement_id : Error
  duplicate_requirement : Error
  no_clauses : Error
  empty_clause_id : Error
  duplicate_clause : Error
  too_deep : Error
  too_many_nodes : Error
  all_without_children : Error
  all_with_more : Error
  unknown_field : Error
  empty_value : Error
  unknown_value : Error
  equal_with_values : Error
  equal_with_more : Error
  in_without_values : Error
  in_with_more : Error
  duplicate_value : Error
  evidence_in_applicability : Error
  empty_kind : Error
  unknown_kind : Error
  evidence_with_more : Error
  unsupported_operator : Error
  invalid_outcome : Error
  long_explanation : Error
  no_explanation : Error
  revise_without_remediation : Error
  remediation_without_revise : Error
  long_description : Error
  add_evidence_with_more : Error
  set_field_with_more : Error
  unsupported_action : Error
