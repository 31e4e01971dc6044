-- ===== src/Program/Validate/Code.antt =====
-- internal/program/validate.go, the checks of the columns, the symbols and the instructions.
use verifoxx.Base.{
  ℕ, suc, ◌+◌, Bool, true, false, not, ◌&&◌, ◌||◌, List, [], ◌∷◌, length, ltb, leb, ◌==◌,
  if◌then◌else◌, Run, ok, nth, for_range, reject_if, ◌>>=◌, ◌>>◌,
}
use verifoxx.Base.Text.{is_blank}
use verifoxx.Program.{Program, EvidenceSpec}
use verifoxx.Program.Opcode
use verifoxx.Program.Validate.Error.{Error}
use verifoxx.Schema.{is_valid_id}
use verifoxx.Schema.Field

unfoldable pub valid_symbol : Program → ℕ → Bool → Bool
valid_symbol p id allow_zero =
    allow_zero && id == 0 || is_valid_id id && leb id (length p.symbol_starts)

unfoldable pub valid_field : ℕ → Bool
valid_field id = is_valid_id id && ltb id Field.count

unfoldable pub valid_instruction : ℕ → ℕ → Bool
valid_instruction id count = is_valid_id id && leb id count

-- `start` and `count` are 32 bits wide, so the 64-bit sum of the source does not wrap.
unfoldable pub valid_range : ℕ → ℕ → ℕ → Bool
valid_range start count total = let end = start + count in leb start end && leb end total

-- The loops that compare the columns' lengths with the first one's.
unfoldable pub check_columns : (ℕ → Error) → ℕ → ℕ → List ℕ → Run Error (Unit {0})
check_columns e count i [] = ok tt
check_columns e count i (len ∷ lens) =
    reject_if (not (len == count)) (e i) >> check_columns e count (suc i) lens

abbrev pub instruction_columns : Program → List ℕ
instruction_columns p =
    length p.fields
    ∷ length p.values
    ∷ length p.operand_starts
    ∷ length p.operand_counts
    ∷ length p.set_starts
    ∷ length p.set_counts
    ∷ length p.evidence_spec_indexes
    ∷ []

-- One round of the loop of `validateSymbols`; the state is `expectedStart`.
unfoldable pub check_symbol : Program → ℕ → ℕ → Run Error ℕ
check_symbol p i expected = do
  start ← nth p.symbol_starts i
  len ← nth p.symbol_lengths i
  let end = start + len
  _ ←
      reject_if
        (not (start == expected) || ltb end start || ltb (length p.symbol_text) end || len == 0)
        (Error.symbol_range i)
  ok end

unfoldable pub validate_symbols : Program → Run Error (Unit {0})
unfolding check_symbol
validate_symbols p = do
  _ ←
      reject_if
        (length p.symbol_starts == 0 || not (length p.symbol_starts == length p.symbol_lengths))
        Error.symbol_columns
  end ← for_range (length p.symbol_starts) 0 (check_symbol p) 0
  reject_if (not (end == length p.symbol_text)) Error.symbol_cover

-- The case `OpEqual`
unfoldable pub check_equal : Program → ℕ → Run Error (Unit {0})
unfolding valid_field valid_symbol
check_equal p i = do
  field ← nth p.fields i
  _ ← reject_if (not (valid_field field)) (Error.field i)
  value ← nth p.values i
  _ ← reject_if (not (valid_symbol p value false)) (Error.value i)
  operands ← nth p.operand_counts i
  set ← nth p.set_counts i
  spec ← nth p.evidence_spec_indexes i
  reject_if (not (operands == 0) || not (set == 0) || not (spec == 0)) (Error.equal_unrelated i)

unfoldable pub check_set_value : Program → ℕ → ℕ → Unit {0} → Run Error (Unit {0})
unfolding valid_symbol
check_set_value p start j _ = do
  value ← nth p.set_values (start + j)
  reject_if (not (valid_symbol p value false)) (Error.set_value (start + j))

-- The case `OpIn`
unfoldable pub check_in : Program → ℕ → Run Error (Unit {0})
unfolding valid_field check_set_value
check_in p i = do
  field ← nth p.fields i
  _ ← reject_if (not (valid_field field)) (Error.field i)
  set ← nth p.set_counts i
  _ ← reject_if (set == 0) (Error.empty_set i)
  start ← nth p.set_starts i
  _ ← for_range set 0 (check_set_value p start) tt
  operands ← nth p.operand_counts i
  value ← nth p.values i
  spec ← nth p.evidence_spec_indexes i
  reject_if (not (operands == 0) || not (value == 0) || not (spec == 0)) (Error.in_unrelated i)

-- The case `OpEvidenceMatches`
unfoldable pub check_evidence_matches : Program → ℕ → Run Error (Unit {0})
check_evidence_matches p i = do
  index ← nth p.evidence_spec_indexes i
  _ ← reject_if (index == 0 || ltb (length p.evidence_specs) index) (Error.spec_index i)
  operands ← nth p.operand_counts i
  set ← nth p.set_counts i
  field ← nth p.fields i
  value ← nth p.values i
  reject_if (not (operands == 0) || not (set == 0) || not (field == 0) || not (value == 0))
      (Error.evidence_unrelated i)

unfoldable pub check_operand : Program → ℕ → ℕ → ℕ → Unit {0} → Run Error (Unit {0})
check_operand p i start j _ = do
  operand ← nth p.operands (start + j)
  reject_if (not (is_valid_id operand) || leb (i + 1) operand) (Error.operand_order (start + j))

-- The case `OpAll`
unfoldable pub check_all : Program → ℕ → Run Error (Unit {0})
unfolding check_operand
check_all p i = do
  operands ← nth p.operand_counts i
  _ ← reject_if (operands == 0) (Error.no_operands i)
  start ← nth p.operand_starts i
  _ ← for_range operands 0 (check_operand p i start) tt
  set ← nth p.set_counts i
  field ← nth p.fields i
  value ← nth p.values i
  spec ← nth p.evidence_spec_indexes i
  reject_if (not (set == 0) || not (field == 0) || not (value == 0) || not (spec == 0))
      (Error.all_unrelated i)

-- The switch on the opcode.
unfoldable pub check_shape : Program → ℕ → ℕ → Run Error (Unit {0})
unfolding check_equal check_in check_evidence_matches check_all
check_shape p i op =
    if op == Opcode.equal
    then check_equal p i
    else if op == Opcode.in_set
    then check_in p i
    else if op == Opcode.evidence_matches
    then check_evidence_matches p i
    else if op == Opcode.all
    then check_all p i
    else ok tt

-- One round of the loop over the opcodes.
unfoldable pub check_instruction : Program → ℕ → Unit {0} → Run Error (Unit {0})
unfolding valid_range check_shape
check_instruction p i _ = do
  op ← nth p.opcodes i
  _ ← reject_if (not (Opcode.is_valid op)) (Error.opcode i)
  operand_start ← nth p.operand_starts i
  operand_count ← nth p.operand_counts i
  _ ←
      reject_if (not (valid_range operand_start operand_count (length p.operands)))
        (Error.operand_range i)
  set_start ← nth p.set_starts i
  set_count ← nth p.set_counts i
  _ ← reject_if (not (valid_range set_start set_count (length p.set_values))) (Error.set_range i)
  check_shape p i op

abbrev pub spec_symbols : EvidenceSpec → List ℕ
spec_symbols spec =
    spec.status ∷ spec.timing ∷ spec.reviewer ∷ spec.timestamp_state ∷ spec.subject
    ∷ spec.attestation_state ∷ spec.scope ∷ spec.adjustment_type ∷ []

-- The source goes over a map, in no fixed order; the error names the specification only, so the
-- order does not show.
unfoldable pub check_spec_symbols : Program → ℕ → List ℕ → Run Error (Unit {0})
unfolding valid_symbol
check_spec_symbols p i [] = ok tt
check_spec_symbols p i (symbol ∷ symbols) =
    reject_if (not (valid_symbol p symbol true)) (Error.spec_symbol i)
    >> check_spec_symbols p i symbols

-- One round of the loop over the evidence specifications.
unfoldable pub check_spec : Program → ℕ → Unit {0} → Run Error (Unit {0})
unfolding check_spec_symbols
check_spec p i _ = do
  spec ← nth p.evidence_specs i
  _ ←
      reject_if (not (is_valid_id spec.kind) || ltb (length p.evidence_kind_symbols) spec.kind)
        (Error.spec_kind i)
  check_spec_symbols p i (spec_symbols spec)

-- The loops over a column of symbols none of which may be 0.
unfoldable pub check_symbol_at :
    Program → (ℕ → Error) → List ℕ → ℕ → Unit {0} → Run Error (Unit {0})
unfolding valid_symbol
check_symbol_at p e symbols i _ = do
  symbol ← nth symbols i
  reject_if (not (valid_symbol p symbol false)) (e i)

-- `Validate` down to the loop over the evidence kinds.
unfoldable pub validate_code : Program → Run Error (Unit {0})
unfolding check_columns validate_symbols check_instruction check_spec check_symbol_at
validate_code p = do
  _ ← reject_if (is_blank p.name || is_blank p.version) Error.name_or_version
  _ ← reject_if (length p.opcodes == 0) Error.no_instructions
  _ ← check_columns Error.column_length (length p.opcodes) 0 (instruction_columns p)
  _ ← validate_symbols p
  _ ← for_range (length p.opcodes) 0 (check_instruction p) tt
  _ ← for_range (length p.evidence_specs) 0 (check_spec p) tt
  for_range (length p.evidence_kind_symbols) 0
      (check_symbol_at p Error.kind_symbol p.evidence_kind_symbols) tt
