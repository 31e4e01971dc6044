-- ===== src/Tests/Policy.antt =====
-- A policy with one clause: the action is `x` and there is evidence with the status `y`.
use verifoxx.Base.{◌≡◌, refl, ◌<◌, ◌↔◌, [], ◌∷◌, replicate, ok, some, nth, store, for_range}
use verifoxx.Base.Text.{bytes, is_blank, trim_space}
use verifoxx.Program.{Program, EvidenceSpec}
use verifoxx.Program.Valid.{HasValidCode, HasValidTables}
use verifoxx.Program.Validate.SoundTables.{validate-HasValidTables}
use verifoxx.Program.Validate.{validate}
use verifoxx.Program.Validate.Code.{validate_code}
use verifoxx.Program.Validate.Tables.{validate_requirements_and_clauses, validate_catalogues}
use verifoxx.Program.Validate.Sound.{validate-HasValidCode}
use verifoxx.Program.Opcode
use verifoxx.Schema.{lookup_field, field_name}
use verifoxx.Schema.Field
use verifoxx.Schema.Outcome
use verifoxx.Schema.Reason
use verifoxx.Schema.Names.{lookup_field-field_name}

abbrev status_spec : EvidenceSpec
status_spec = record {
  kind = 1;
  status = 2;
  timing = 0;
  reviewer = 0;
  timestamp_state = 0;
  subject = 0;
  attestation_state = 0;
  scope = 0;
  adjustment_type = 0;
}

abbrev pub policy : Program
policy = record {
  name = bytes "policy";
  version = bytes "1";
  opcodes = Opcode.equal ∷ Opcode.evidence_matches ∷ Opcode.all ∷ [];
  fields = Field.action ∷ 0 ∷ 0 ∷ [];
  values = 1 ∷ 0 ∷ 0 ∷ [];
  operand_starts = 0 ∷ 0 ∷ 0 ∷ [];
  operand_counts = 0 ∷ 0 ∷ 2 ∷ [];
  operands = 1 ∷ 2 ∷ [];
  set_starts = 0 ∷ 0 ∷ 0 ∷ [];
  set_counts = 0 ∷ 0 ∷ 0 ∷ [];
  set_values = [];
  evidence_spec_indexes = 0 ∷ 1 ∷ 0 ∷ [];
  evidence_specs = status_spec ∷ [];
  evidence_kind_symbols = 2 ∷ [];
  requirement_symbols = 1 ∷ [];
  requirement_applicability_roots = 1 ∷ [];
  requirement_clause_starts = 0 ∷ [];
  requirement_clause_counts = 1 ∷ [];
  requirement_clause_ids = 1 ∷ [];
  clause_symbols = 2 ∷ [];
  clause_assertion_roots = 3 ∷ [];
  clause_resolution_outcome_ids = replicate Reason.count Outcome.escalate;
  clause_explanation_ids = replicate Reason.count 1;
  clause_remediation_starts = 0 ∷ [];
  clause_remediation_counts = 0 ∷ [];
  clause_remediation_ids = [];
  clause_evidence_kind_starts = 0 ∷ [];
  clause_evidence_kind_counts = 1 ∷ [];
  clause_evidence_kinds = 1 ∷ [];
  remediations = [];
  explanation_symbols = 1 ∷ [];
  outcome_precedence = 1 ∷ 4 ∷ 3 ∷ 2 ∷ [];
  symbol_text = bytes "xy";
  symbol_starts = 0 ∷ 1 ∷ [];
  symbol_lengths = 1 ∷ 1 ∷ [];
}

pub policy-accepted : validate policy ≡ ok tt
unfolding validate validate_code validate_requirements_and_clauses validate_catalogues nth store
    for_range is_blank trim_space
policy-accepted = refl

validate-HasValidCode_example : HasValidCode policy
validate-HasValidCode_example = validate-HasValidCode policy policy-accepted

validate-HasValidTables_example : HasValidTables policy
validate-HasValidTables_example = validate-HasValidTables policy policy-accepted

-- The same, for the other tests.
pub policy-HasValidCode : HasValidCode policy
policy-HasValidCode = validate-HasValidCode policy policy-accepted

lookup_field-field_name_example : (lookup_field (bytes "dataset") ≡ some Field.dataset) ↔ (
    (0 < Field.dataset)
    × (Field.dataset < Field.count)
    × (field_name Field.dataset ≡ bytes "dataset"))
lookup_field-field_name_example = lookup_field-field_name (bytes "dataset") Field.dataset

pub policy-HasValidTables : HasValidTables policy
policy-HasValidTables = validate-HasValidTables policy policy-accepted
