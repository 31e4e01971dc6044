-- ===== src/Program/Validate/Error.antt =====
-- The errors of `Program.Validate` (internal/program/validate.go), one constructor per message,
-- with the index that the message names.
use verifoxx.Base.{ℕ}

pub data Error : Type 0 where
  name_or_version : Error
  no_instructions : Error
  column_length : ℕ → Error
  symbol_columns : Error
  symbol_range : ℕ → Error
  symbol_cover : Error
  opcode : ℕ → Error
  operand_range : ℕ → Error
  set_range : ℕ → Error
  field : ℕ → Error
  value : ℕ → Error
  equal_unrelated : ℕ → Error
  empty_set : ℕ → Error
  set_value : ℕ → Error
  in_unrelated : ℕ → Error
  spec_index : ℕ → Error
  evidence_unrelated : ℕ → Error
  no_operands : ℕ → Error
  operand_order : ℕ → Error
  all_unrelated : ℕ → Error
  spec_kind : ℕ → Error
  spec_symbol : ℕ → Error
  kind_symbol : ℕ → Error
  no_requirements : Error
  requirement_column : ℕ → Error
  no_clauses : Error
  clause_column : ℕ → Error
  resolution_states : Error
  explanation_states : Error
  requirement_symbol : ℕ → Error
  applicability_root : ℕ → Error
  clause_range : ℕ → Error
  clause_id : ℕ → Error
  repeated_clause : ℕ → Error
  unreferenced_clause : ℕ → Error
  clause_symbol : ℕ → Error
  assertion_root : ℕ → Error
  remediation_range : ℕ → Error
  evidence_kind_range : ℕ → Error
  outcome_id : ℕ → Error
  explanation_id : ℕ → Error
  remediation_id : ℕ → Error
  evidence_kind : ℕ → Error
  explanation_symbol : ℕ → Error
  add_evidence_payload : ℕ → Error
  set_field_payload : ℕ → Error
  remediation_action : ℕ → Error
  description : ℕ → Error
  precedence_length : Error
  precedence_rank : ℕ → Error
  duplicate_rank : ℕ → Error
