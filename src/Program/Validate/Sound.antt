-- ===== src/Program/Validate/Sound.antt =====
-- internal/program/validate.go beside the columns, ranges and identifiers that the evaluator
-- follows.
use verifoxx.Base.{
  ℕ, suc, ◌+◌, ◌≤◌, ◌<◌, ◌≡◌, false, not, ◌||◌, List, [], ◌∷◌, length, get_or, ltb, ◌==◌, arith, ok,
  for_range, >>=-ok, rejected, read, each_round, reject_if-ok,
}
use mathlib.Core.Path.{subst}
use verifoxx.Program.{Program}
use verifoxx.Program.Validate.{validate}
use verifoxx.Base.Text.{is_blank}
use verifoxx.Program.Opcode
use verifoxx.Program.Valid.{IsValidInstruction, HasValidCode}
use verifoxx.Program.Validate.Error.{Error}
use verifoxx.Program.Validate.Code.{
  valid_field, valid_range, check_columns, check_equal, check_in, check_evidence_matches,
  check_operand, check_all, check_shape, validate_symbols, check_instruction, validate_code,
  instruction_columns,
}
use verifoxx.Schema.Field

valid_field-bounds : (id : ℕ) → not (valid_field id) ≡ false → (0 < id) × (id < Field.count)
unfolding valid_field
valid_field-bounds id h = ground arith

pub valid_range-bounds :
    (start count total : ℕ) → not (valid_range start count total) ≡ false → start + count ≤ total
unfolding valid_range
valid_range-bounds start count total h = ground arith

module _ (p : Program) (i : ℕ) where
  check_equal-field :
      check_equal p i ≡ ok tt → (0 < get_or p.fields i 0) × (get_or p.fields i 0 < Field.count)
  unfolding check_equal
  check_equal-field h =
      let h₁ = read p.fields i 0 _ h in
      let (known, _) = rejected (not (valid_field (get_or p.fields i 0))) _ _ h₁ in
      valid_field-bounds _ known

  check_in-field :
      check_in p i ≡ ok tt → (0 < get_or p.fields i 0) × (get_or p.fields i 0 < Field.count)
  unfolding check_in
  check_in-field h =
      let h₁ = read p.fields i 0 _ h in
      let (known, _) = rejected (not (valid_field (get_or p.fields i 0))) _ _ h₁ in
      valid_field-bounds _ known

  check_evidence_matches-index :
      check_evidence_matches p i ≡ ok tt
      → (0 < get_or p.evidence_spec_indexes i 0)
        × (get_or p.evidence_spec_indexes i 0 ≤ length p.evidence_specs)
  unfolding check_evidence_matches
  check_evidence_matches-index h =
      let h₁ = read p.evidence_spec_indexes i 0 _ h in
      let (fits, _) =
        rejected
          (get_or p.evidence_spec_indexes i 0 == 0
            || ltb (length p.evidence_specs) (get_or p.evidence_spec_indexes i 0))
          _ _ h₁ in
      ground arith

  check_operand-before :
      (start j : ℕ)
      → check_operand p i start j tt ≡ ok tt
      → (0 < get_or p.operands (start + j) 0) × (get_or p.operands (start + j) 0 ≤ i)
  unfolding check_operand
  check_operand-before start j h =
      let h₁ = read p.operands (start + j) 0 _ h in let fits = reject_if-ok _ _ _ h₁ in ground arith

  check_all-before :
      check_all p i ≡ ok tt
      → (j : ℕ) → j < get_or p.operand_counts i 0
      → (0 < get_or p.operands (get_or p.operand_starts i 0 + j) 0)
        × (get_or p.operands (get_or p.operand_starts i 0 + j) 0 ≤ i)
  unfolding check_all
  check_all-before h j below =
      let start = get_or p.operand_starts i 0 in
      let h₁ = read p.operand_counts i 0 _ h in
      let (_, h₂) = rejected (get_or p.operand_counts i 0 == 0) _ _ h₁ in
      let h₃ = read p.operand_starts i 0 _ h₂ in
      let (_, loop, _) =
        >>=-ok (for_range (get_or p.operand_counts i 0) 0 (check_operand p i start) tt) _ h₃ in
      check_operand-before start j
        (each_round (check_operand p i start) _ 0 loop j (omega arith) (omega arith))

  check_instruction-IsValid : check_instruction p i tt ≡ ok tt → IsValidInstruction p i
  unfolding check_instruction check_shape
  check_instruction-IsValid h =
      let h₁ = read p.opcodes i 0 _ h in
      let (known, h₂) = rejected (not (Opcode.is_valid (get_or p.opcodes i 0))) _ _ h₁ in
      let h₃ = read p.operand_starts i 0 _ h₂ in
      let h₄ = read p.operand_counts i 0 _ h₃ in
      let (operands, h₅) =
        rejected
          (not (
            valid_range (get_or p.operand_starts i 0) (get_or p.operand_counts i 0)
              (length p.operands)))
          _ _ h₄ in
      let h₆ = read p.set_starts i 0 _ h₅ in
      let h₇ = read p.set_counts i 0 _ h₆ in
      let (set, shape) =
        rejected
          (not
            (valid_range (get_or p.set_starts i 0) (get_or p.set_counts i 0) (length p.set_values)))
          _ _ h₇ in
      let at : (op : ℕ) → get_or p.opcodes i 0 ≡ op → check_shape p i op ≡ ok tt =
        λ op is. subst (λ (k : ℕ). check_shape p i k ≡ ok tt) is shape in
      record {
        opcode_known = ground arith;
        operand_range = valid_range-bounds _ _ _ operands;
        set_range = valid_range-bounds _ _ _ set;
        equal_field = λ is. check_equal-field (at Opcode.equal is);
        in_field = λ is. check_in-field (at Opcode.in_set is);
        spec_index = λ is. check_evidence_matches-index (at Opcode.evidence_matches is);
        operands_before = λ is. check_all-before (at Opcode.all is);
      }

abbrev pub AllEqual : ℕ → List ℕ → Type 0
AllEqual n [] = Unit {0}
AllEqual n (len ∷ lens) = (len ≡ n) × AllEqual n lens

pub check_columns-AllEqual :
    (e : ℕ → Error) (n i : ℕ) (lens : List ℕ) → check_columns e n i lens ≡ ok tt → AllEqual n lens
unfolding check_columns
check_columns-AllEqual e n i [] h = tt
check_columns-AllEqual e n i (len ∷ lens) h =
    let (same, rest) = rejected (not (len == n)) _ _ h in
    (ground arith, check_columns-AllEqual e n (suc i) lens rest)

-- The code of a program that `Validate` accepts is in order.
pub validate_code-HasValidCode : (p : Program) → validate_code p ≡ ok tt → HasValidCode p
unfolding validate_code
validate_code-HasValidCode p h =
    let (_, h₁) = rejected (is_blank p.name || is_blank p.version) _ _ h in
    let (_, h₂) = rejected (length p.opcodes == 0) _ _ h₁ in
    let (_, same, h₃) =
      >>=-ok (check_columns Error.column_length (length p.opcodes) 0 (instruction_columns p)) _
        h₂ in
    let (_, _, h₄) = >>=-ok (validate_symbols p) _ h₃ in
    let (_, instructions, _) =
      >>=-ok (for_range (length p.opcodes) 0 (check_instruction p) tt) _ h₄ in
    let (
      fields,
      (values, (operand_starts, (operand_counts, (set_starts, (set_counts, (specs, _)))))),
    ) =
      check_columns-AllEqual Error.column_length (length p.opcodes) 0 (instruction_columns p)
        same in
    record {
      fields_length = fields;
      values_length = values;
      operand_starts_length = operand_starts;
      operand_counts_length = operand_counts;
      set_starts_length = set_starts;
      set_counts_length = set_counts;
      spec_indexes_length = specs;
      instruction = λ i inside.
          check_instruction-IsValid p i
            (each_round (check_instruction p) _ 0 instructions i (omega arith) (omega arith));
    }

-- If Validate accepts a program, then its instruction columns have the length of its opcodes, and
-- at every instruction the opcode is known, the operand and set ranges lie inside their tables,
-- the field or evidence specification that the opcode uses exists, and each operand of an `All` is
-- a number from 1 up to those of the earlier instructions.
pub validate-HasValidCode : (p : Program) → validate p ≡ ok tt → HasValidCode p
unfolding validate
validate-HasValidCode p h =
    let (_, code, _) = >>=-ok (validate_code p) _ h in validate_code-HasValidCode p code

-- The symbol columns of a program that `Validate` accepts have one length.
pub validate-symbol_columns :
    (p : Program) → validate p ≡ ok tt → length p.symbol_starts ≡ length p.symbol_lengths
unfolding validate validate_code validate_symbols
validate-symbol_columns p h =
    let (_, code, _) = >>=-ok (validate_code p) _ h in
    let (_, h₁) = rejected (is_blank p.name || is_blank p.version) _ _ code in
    let (_, h₂) = rejected (length p.opcodes == 0) _ _ h₁ in
    let (_, _, h₃) =
      >>=-ok (check_columns Error.column_length (length p.opcodes) 0 (instruction_columns p)) _
        h₂ in
    let (_, symbols, _) = >>=-ok (validate_symbols p) _ h₃ in
    let (same, _) =
      rejected
        (length p.symbol_starts == 0 || not (length p.symbol_starts == length p.symbol_lengths)) _ _
        symbols in
    ground arith
