-- ===== src/Program/Valid.antt =====
-- What the evaluator needs of a program: the columns are parallel, and every range and every
-- identifier that it follows lies inside its table. An index counts from 0.
use verifoxx.Base.{ℕ, ◌+◌, ◌≤◌, ◌<◌, List, ◌≡◌, ◌≢◌, ◌*◌, true, length, get_or}
use verifoxx.Program.{Program}
use verifoxx.Program.Opcode
use verifoxx.Schema.Outcome
use verifoxx.Schema.Reason
use verifoxx.Schema.Field

pub record IsValidInstruction (p : Program) (i : ℕ) : Type 0 where
  pub opcode_known : Opcode.is_valid (get_or p.opcodes i 0) ≡ true
  pub operand_range : get_or p.operand_starts i 0 + get_or p.operand_counts i 0 ≤ length p.operands
  pub set_range : get_or p.set_starts i 0 + get_or p.set_counts i 0 ≤ length p.set_values
  pub equal_field :
      get_or p.opcodes i 0 ≡ Opcode.equal
      → (0 < get_or p.fields i 0) × (get_or p.fields i 0 < Field.count)
  pub in_field :
      get_or p.opcodes i 0 ≡ Opcode.in_set
      → (0 < get_or p.fields i 0) × (get_or p.fields i 0 < Field.count)
  pub spec_index :
      get_or p.opcodes i 0 ≡ Opcode.evidence_matches
      → (0 < get_or p.evidence_spec_indexes i 0)
        × (get_or p.evidence_spec_indexes i 0 ≤ length p.evidence_specs)
  pub operands_before :
      get_or p.opcodes i 0 ≡ Opcode.all
      → (j : ℕ) → j < get_or p.operand_counts i 0
      → (0 < get_or p.operands (get_or p.operand_starts i 0 + j) 0)
        × (get_or p.operands (get_or p.operand_starts i 0 + j) 0 ≤ i)

-- The instructions of a program.
pub record HasValidCode (p : Program) : Type 0 where
  pub fields_length : length p.fields ≡ length p.opcodes
  pub values_length : length p.values ≡ length p.opcodes
  pub operand_starts_length : length p.operand_starts ≡ length p.opcodes
  pub operand_counts_length : length p.operand_counts ≡ length p.opcodes
  pub set_starts_length : length p.set_starts ≡ length p.opcodes
  pub set_counts_length : length p.set_counts ≡ length p.opcodes
  pub spec_indexes_length : length p.evidence_spec_indexes ≡ length p.opcodes
  pub instruction : (i : ℕ) → i < length p.opcodes → IsValidInstruction p i

pub record IsValidRequirement (p : Program) (i : ℕ) : Type 0 where
  pub root_positive : 0 < get_or p.requirement_applicability_roots i 0
  pub root_known : get_or p.requirement_applicability_roots i 0 ≤ length p.opcodes
  pub clause_range :
      get_or p.requirement_clause_starts i 0 + get_or p.requirement_clause_counts i 0
      ≤ length p.requirement_clause_ids
  pub clause_ids :
      (j : ℕ)
      → j < get_or p.requirement_clause_counts i 0
      → (0 < get_or p.requirement_clause_ids (get_or p.requirement_clause_starts i 0 + j) 0)
        × (get_or p.requirement_clause_ids (get_or p.requirement_clause_starts i 0 + j) 0
            ≤ length p.clause_symbols)

pub record IsValidClause (p : Program) (i : ℕ) : Type 0 where
  pub root_positive : 0 < get_or p.clause_assertion_roots i 0
  pub root_known : get_or p.clause_assertion_roots i 0 ≤ length p.opcodes
  pub remediation_range :
      get_or p.clause_remediation_starts i 0 + get_or p.clause_remediation_counts i 0
      ≤ length p.clause_remediation_ids
  pub kind_range :
      get_or p.clause_evidence_kind_starts i 0 + get_or p.clause_evidence_kind_counts i 0
      ≤ length p.clause_evidence_kinds
  pub outcomes :
      (state : ℕ)
      → state < Reason.count
      → (0 < get_or p.clause_resolution_outcome_ids (i * Reason.count + state) 0)
        × (get_or p.clause_resolution_outcome_ids (i * Reason.count + state) 0 ≤ Outcome.count)

-- Ranks from 1 to their number, no two the same.
pub record IsRanking (ranks : List ℕ) : Type 0 where
  pub positive : (i : ℕ) → i < length ranks → 0 < get_or ranks i 0
  pub bounded : (i : ℕ) → i < length ranks → get_or ranks i 0 ≤ length ranks
  pub distinct : (i j : ℕ) → i < j → j < length ranks → get_or ranks i 0 ≢ get_or ranks j 0

-- The tables of the requirements, the clauses and the outcomes.
pub record HasValidTables (p : Program) : Type 0 where
  pub requirement_roots_length :
      length p.requirement_applicability_roots ≡ length p.requirement_symbols
  pub requirement_starts_length : length p.requirement_clause_starts ≡ length p.requirement_symbols
  pub requirement_counts_length : length p.requirement_clause_counts ≡ length p.requirement_symbols
  pub clause_roots_length : length p.clause_assertion_roots ≡ length p.clause_symbols
  pub remediation_starts_length : length p.clause_remediation_starts ≡ length p.clause_symbols
  pub remediation_counts_length : length p.clause_remediation_counts ≡ length p.clause_symbols
  pub kind_starts_length : length p.clause_evidence_kind_starts ≡ length p.clause_symbols
  pub kind_counts_length : length p.clause_evidence_kind_counts ≡ length p.clause_symbols
  pub resolution_length :
      length p.clause_resolution_outcome_ids ≡ length p.clause_symbols * Reason.count
  pub requirement : (i : ℕ) → i < length p.requirement_symbols → IsValidRequirement p i
  pub clause : (i : ℕ) → i < length p.clause_symbols → IsValidClause p i
  pub precedence_length : length p.outcome_precedence ≡ Outcome.count
  pub ranks : IsRanking p.outcome_precedence
