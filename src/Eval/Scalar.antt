-- ===== src/Eval/Scalar.antt =====
-- internal/eval/scalar.go: the instructions of a program, each evaluated over all rows.
use Prim.Native.Nat.{bit_and, bit_or}
use verifoxx.Base.{
  ℕ, ◌+◌, ◌-◌, ◌*◌, ◌^◌, Bool, true, false, not, ◌&&◌, ◌||◌, List, [], ◌∷◌, length, ltb, ◌==◌,
  if◌then◌else◌, Run, ok, err, panic, ◌>>=◌, ◌>>◌, reject_if, nth, store, slice, for_range,
}
use verifoxx.Schema.Field
use verifoxx.Schema.Reason
use verifoxx.Program.{Program}
use verifoxx.Program.Opcode
use verifoxx.Eval.Error.{Error, context_mismatch, request_columns_mismatch, invalid_opcode}
use verifoxx.Eval.Batch.{Batch, field_values, field_present, field_valid}
use verifoxx.Eval.Context.{
  Context, Plane, u32, word_count, resize_clear, tail_mask, has_row, has_row_in, positive_plane,
  negative_plane, reason_plane, set_positive, set_negative, set_reason,
}
use verifoxx.Eval.Evidence.{validate_evidence_batch, evaluate_evidence}

-- A row of a comparison of a field: `matches` is the test of its value.
unfoldable pub field_row :
    List ℕ → List ℕ → List ℕ → (ℕ → Bool) → Plane → Plane → ℕ → ℕ → Context → Run Error Context
unfolding has_row set_positive set_negative set_reason
field_row values present valid matches positive negative instruction row context = do
  is_present ← has_row present row
  if not is_present then set_reason context Reason.missing instruction row else do
    is_valid ← has_row valid row
    if not is_valid then set_reason context Reason.unclear instruction row else do
      value ← nth values row
      if matches value
          then (set_positive context positive row >>= λ c.
              set_reason c Reason.satisfied instruction row)
          else (set_negative context negative row >>= λ c.
              set_reason c Reason.refuted instruction row)

unfoldable pub evaluate_equal : Program → Batch → ℕ → ℕ → Context → Run Error Context
unfolding field_row field_values field_present field_valid positive_plane negative_plane
evaluate_equal compiled batch instruction index context = do
  field ← nth compiled.fields index
  let values = field_values batch field
  let present = field_present batch field
  let valid = field_valid batch field
  positive ← positive_plane context instruction
  negative ← negative_plane context instruction
  want ← nth compiled.values index
  for_range batch.rows 0
      (field_row values present valid (λ value. value == want) positive negative instruction)
      context

-- The loop over the candidates.
unfoldable pub is_in : List ℕ → ℕ → Bool
is_in [] value = false
is_in (candidate ∷ set) value = value == candidate || is_in set value

unfoldable pub evaluate_in : Program → Batch → ℕ → ℕ → Context → Run Error Context
unfolding field_row is_in field_values field_present field_valid positive_plane negative_plane
evaluate_in compiled batch instruction index context = do
  field ← nth compiled.fields index
  let values = field_values batch field
  let present = field_present batch field
  let valid = field_valid batch field
  positive ← positive_plane context instruction
  negative ← negative_plane context instruction
  start ← nth compiled.set_starts index
  count ← nth compiled.set_counts index
  set ← slice compiled.set_values start (start + count)
  for_range batch.rows 0 (field_row values present valid (is_in set) positive negative instruction)
      context

-- `plane[word]`
unfoldable pub plane_word : List ℕ → Plane → ℕ → Run Error ℕ
plane_word storage plane word =
    if ltb word plane.size then nth storage (plane.start + word) else panic

-- `plane[word] = value`
unfoldable pub store_word : List ℕ → Plane → ℕ → ℕ → Run Error (List ℕ)
store_word storage plane word value =
    if ltb word plane.size then store storage (plane.start + word) value else panic

-- The loop over the operands at one word: `allPositive` and `anyNegative`.
unfoldable pub fold_operands : Context → ℕ → List ℕ → ℕ → ℕ → Run Error (ℕ × ℕ)
unfolding positive_plane negative_plane plane_word
fold_operands context word [] all_positive any_negative = ok (all_positive, any_negative)
fold_operands context word (operand ∷ operands) all_positive any_negative = do
  positive ← positive_plane context operand
  p ← plane_word context.positive positive word
  negative ← negative_plane context operand
  n ← plane_word context.negative negative word
  fold_operands context word operands (bit_and all_positive p) (bit_or any_negative n)

unfoldable pub all_word : List ℕ → Plane → Plane → ℕ → Context → Run Error Context
unfolding fold_operands store_word
all_word operands positive negative word context = do
  (all_positive, any_negative) ← fold_operands context word operands (2 ^ 64 - 1) 0
  positives ← store_word context.positive positive word all_positive
  negatives ← store_word context.negative negative word any_negative
  ok (record context { positive = positives; negative = negatives })

-- `positive[len(positive)-1] &= mask`
unfoldable pub mask_last : List ℕ → Plane → ℕ → Run Error (List ℕ)
unfolding plane_word store_word
mask_last storage plane mask =
    if plane.size == 0
    then panic
    else (plane_word storage plane (plane.size - 1) >>= λ cell.
        store_word storage plane (plane.size - 1) (bit_and cell mask))

-- `evaluateAll` looks for the reasons in this order.
abbrev pub priority : List ℕ
priority =
    Reason.conflict ∷ Reason.stale ∷ Reason.invalid_evidence ∷ Reason.unclear ∷ Reason.missing
    ∷ Reason.unverifiable ∷ []

-- Whether an operand has the reason.
unfoldable pub any_operand : Context → ℕ → ℕ → List ℕ → Run Error Bool
unfolding reason_plane has_row_in
any_operand context reason row [] = ok false
any_operand context reason row (operand ∷ operands) = do
  plane ← reason_plane context reason operand
  found ← has_row_in context.reasons plane row
  if found then ok true else any_operand context reason row operands

unfoldable pub select_reason : Context → ℕ → List ℕ → List ℕ → Run Error ℕ
unfolding any_operand
select_reason context row operands [] = ok Reason.unverifiable
select_reason context row operands (reason ∷ reasons) = do
  found ← any_operand context reason row operands
  if found then ok reason else select_reason context row operands reasons

unfoldable pub all_row : List ℕ → Plane → Plane → ℕ → ℕ → Context → Run Error Context
unfolding select_reason has_row_in set_reason
all_row operands positive negative instruction row context = do
  pos ← has_row_in context.positive positive row
  neg ← has_row_in context.negative negative row
  if pos && neg
      then set_reason context Reason.conflict instruction row
      else if neg
      then set_reason context Reason.refuted instruction row
      else if pos
      then set_reason context Reason.satisfied instruction row
      else (select_reason context row operands priority >>= λ selected.
          set_reason context selected instruction row)

unfoldable pub evaluate_all : Program → Batch → ℕ → ℕ → Context → Run Error Context
unfolding all_word mask_last all_row tail_mask
evaluate_all compiled batch instruction index context = do
  positive ← positive_plane context instruction
  negative ← negative_plane context instruction
  start ← nth compiled.operand_starts index
  count ← nth compiled.operand_counts index
  operands ← slice compiled.operands start (start + count)
  combined ← for_range positive.size 0 (all_word operands positive negative) context
  positives ← mask_last combined.positive positive (tail_mask batch.rows)
  negatives ← mask_last combined.negative negative (tail_mask batch.rows)
  for_range batch.rows 0 (all_row operands positive negative instruction)
      (record combined { positive = positives; negative = negatives })

unfoldable pub evaluate_instruction : Program → Batch → ℕ → Context → Run Error Context
evaluate_instruction compiled batch index context = do
  opcode ← nth compiled.opcodes index
  if opcode == Opcode.equal
      then evaluate_equal compiled batch (index + 1) index context
      else if opcode == Opcode.in_set
      then evaluate_in compiled batch (index + 1) index context
      else if opcode == Opcode.all
      then evaluate_all compiled batch (index + 1) index context
      else if opcode == Opcode.evidence_matches
      then evaluate_evidence compiled batch (index + 1) index context
      else err (invalid_opcode opcode)

-- The checks of `EvaluateInstructions` on the context and on the request columns.
unfoldable pub context_matches : Program → Batch → Context → Bool
context_matches compiled batch context =
    let words = word_count batch.rows in
    let instructions = u32 (length compiled.opcodes) in
    context.rows == batch.rows
    && context.words == words
    && context.instructions == instructions
    && length context.positive == words * instructions
    && length context.negative == words * instructions
    && length context.reasons == Reason.count * words * instructions

unfoldable pub columns_match : Batch → Bool
columns_match batch =
    let words = word_count batch.rows in
    let field_count = Field.count - 1 in
    length batch.values == field_count * batch.rows
    && length batch.present == field_count * words
    && length batch.valid == field_count * words
    && length batch.semantic_issue_masks == batch.rows

-- `clear`
unfoldable pub clear_planes : Context → Context
clear_planes context = record context {
  positive = resize_clear (length context.positive);
  negative = resize_clear (length context.negative);
  reasons = resize_clear (length context.reasons);
}

unfoldable pub evaluate_instructions : Program → Batch → Context → Run Error Context
unfolding context_matches columns_match clear_planes
evaluate_instructions compiled batch context = do
  reject_if (not (context_matches compiled batch context)) context_mismatch
  reject_if (not (columns_match batch)) request_columns_mismatch
  validate_evidence_batch batch
  if batch.rows == 0
      then ok (clear_planes context)
      else for_range (length compiled.opcodes) 0 (evaluate_instruction compiled batch)
          (clear_planes context)
