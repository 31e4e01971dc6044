-- ===== src/Eval/Correct/Instructions.antt =====
-- `EvaluateInstructions` computes the row-by-row specification.
use native.Mathlib.Numerals.{add-one}
use native.Mathlib.Nat.{mod-eq_of_lt, mul_comm}
use native.Mathlib.Decide.{ℕ_discrete}
use verifoxx.Base.{
  ℕ, zero, suc, ◌+◌, ◌-◌, ◌*◌, ◌/◌, ◌%◌, ◌^◌, ◌≤◌, ◌<◌, ◌≡◌, ◌≢◌, refl, ap, ◌∙◌, ◌⊎◌, inl, inr,
  true, false, length, get_or, arith, nth-get_or, Returns, returns, Returns-mono,
  for_range_inv_zero, ne→==, eq→==, length-replicate, replicate, get_or-replicate,
}
use verifoxx.Base.Bits.{has_bit, has_bit-zero}
use verifoxx.Program.{Program}
use verifoxx.Program.Opcode
use verifoxx.Program.Valid.{HasValidCode}
use verifoxx.Schema.Field
use verifoxx.Schema.Reason
use verifoxx.Eval.Error.{Error}
use verifoxx.Eval.Batch.{Batch}
use verifoxx.Eval.Context.{Context, ensure, word_count, u32}
use verifoxx.Eval.Shape.{HasColumns, HasEvidence}
use verifoxx.Eval.Checks.{validate_evidence_batch-HasEvidence}
use verifoxx.Eval.Scalar.{
  evaluate_instruction, evaluate_instructions, context_matches, columns_match, clear_planes,
}
use verifoxx.Eval.Planes.{bit}
use verifoxx.Eval.Verdicts.{Verdict, Holds, cleared}
use verifoxx.Eval.RowSpec.{instruction_verdict, verdicts}
use verifoxx.Eval.Correct.Rows.{done, Holds-congr}
use verifoxx.Eval.Correct.Fields.{evaluate_equal-Holds, evaluate_in-Holds}
use verifoxx.Eval.Correct.Evidence.{evaluate_evidence-Holds}
use verifoxx.Eval.Correct.Conjunction.{evaluate_all-Holds}

verdicts-later :
    (p : Program) (batch : Batch) (k i r : ℕ) → k ≤ i → verdicts p batch k i r ≡ cleared
unfolding verdicts
verdicts-later p batch zero i r h = refl
verdicts-later p batch (suc k) i r h =
    let d : i ≢ k = omega arith in rw (ne→== i k d) (verdicts-later p batch k i r (omega arith))

opcode-cases :
    (op : ℕ)
    → Opcode.is_valid op ≡ true
    → (op ≡ Opcode.equal)
      ⊎ (op ≡ Opcode.in_set)
      ⊎ (op ≡ Opcode.all)
      ⊎ (op ≡ Opcode.evidence_matches)
opcode-cases op h = ground arith

module _ (p : Program) (code : HasValidCode p) (w : ℕ) (batch : Batch)
    (columns : HasColumns w batch) (evidence : HasEvidence batch) (wide : batch.rows ≤ w * 64)
    (tight : w * 64 < batch.rows + 64) (nonempty : 0 < w) where
  -- The filled verdicts are those of the specification.
  next_verdicts :
      (i : ℕ) (v : ℕ → Verdict)
      → ((s : ℕ) → instruction_verdict p batch (λ j. verdicts p batch i j s) i s ≡ v s)
      → (context : Context)
      → Holds (length p.opcodes) w batch.rows (done (verdicts p batch i) i batch.rows v) context
      → Holds (length p.opcodes) w batch.rows (verdicts p batch (suc i)) context
  unfolding verdicts
  next_verdicts i v same context =
      Holds-congr (length p.opcodes) w batch.rows wide context _ (verdicts p batch (suc i))
        λ j s hj hs. ground (arith, same s)

  -- One more instruction.
  step :
      (i : ℕ)
      → i < length p.opcodes
      → (context : Context) → Holds (length p.opcodes) w batch.rows (verdicts p batch i) context
      → Returns
          (Holds (length p.opcodes) w batch.rows (verdicts p batch (suc i)))
          (evaluate_instruction p batch i context)
  unfolding evaluate_instruction instruction_verdict
  step i hi context holds =
      let t = verdicts p batch i in
      let fresh : (r : ℕ) → t i r ≡ cleared = λ r. verdicts-later p batch i i r (omega arith) in
      let read = nth-get_or {E = Error} p.opcodes i 0 hi in
      elim (opcode-cases (get_or p.opcodes i 0) ((code.instruction i hi).opcode_known)) [
        | inl e ↦
            rw (read, add-one i, e)
              (Returns-mono
                (evaluate_equal-Holds p code w batch columns wide nonempty i hi t fresh context
                  holds e)
                (next_verdicts i _ λ s. rw e))
        | inr (inl e) ↦
            rw (read, add-one i, e)
              (Returns-mono
                (evaluate_in-Holds p code w batch columns wide nonempty i hi t fresh context holds
                  e)
                (next_verdicts i _ λ s. rw e))
        | inr (inr (inl e)) ↦
            rw (read, add-one i, e)
              (Returns-mono
                (evaluate_all-Holds p code w batch wide tight nonempty i hi t fresh context holds e)
                (next_verdicts i _ λ s. rw e))
        | inr (inr (inr e)) ↦
            rw (read, add-one i, e)
              (Returns-mono
                (evaluate_evidence-Holds p code w batch evidence wide nonempty i hi t fresh context
                  holds e)
                (next_verdicts i _ λ s. rw e))
      ]

module _ (p : Program) (code : HasValidCode p) (few : length p.opcodes < 2 ^ 32) (batch : Batch)
    (columns : HasColumns (word_count batch.rows) batch) (evidence : HasEvidence batch)
    (fits : batch.rows + 63 < 2 ^ 32) (edges : length batch.evidence_refs < 2 ^ 32) where
  words-exact : word_count batch.rows ≡ (batch.rows + 63) / 64
  words-exact = ap (λ (x : ℕ). x / 64) (mod-eq_of_lt fits)

  matches : context_matches p batch (ensure p batch.rows) ≡ true
  unfolding context_matches ensure
  matches = rw (
    length-replicate,
    length-replicate (Reason.count * word_count batch.rows * u32 (length p.opcodes)),
    eq→== batch.rows batch.rows refl,
    eq→== (word_count batch.rows) (word_count batch.rows) refl,
    eq→== (u32 (length p.opcodes)) (u32 (length p.opcodes)) refl,
    eq→== (word_count batch.rows * u32 (length p.opcodes)) _ refl,
    eq→== (Reason.count * word_count batch.rows * u32 (length p.opcodes)) _ refl,
  )

  columns-matched : columns_match batch ≡ true
  unfolding columns_match
  columns-matched = rw (
    eq→== (length batch.values) ((Field.count - 1) * batch.rows) columns.values_length,
    eq→== (length batch.present) ((Field.count - 1) * word_count batch.rows) columns.present_length,
    eq→== (length batch.valid) ((Field.count - 1) * word_count batch.rows) columns.valid_length,
    eq→== (length batch.semantic_issue_masks) batch.rows columns.masks_length,
  )

  -- A cleared context shows no verdicts.
  cleared-Holds :
      Holds
        (length p.opcodes)
        (word_count batch.rows)
        batch.rows
        (verdicts p batch 0)
        (clear_planes (ensure p batch.rows))
  unfolding clear_planes ensure verdicts bit
  cleared-Holds =
      let w = word_count batch.rows in
      let n = length p.opcodes in
      let exact : u32 n ≡ n = mod-eq_of_lt few in
      let planes : w * u32 n ≡ n * w = ap (λ (x : ℕ). w * x) exact ∙ mul_comm w n in
      let all_planes : 8 * w * u32 n ≡ 8 * n * w =
        ap (λ (x : ℕ). 8 * w * x) exact ∙ (grind (arith, mul_comm)) in
      (
        record {
          words = refl;
          instructions = exact;
          positive_length = zeros (w * u32 n) ∙ planes;
          negative_length = zeros (w * u32 n) ∙ planes;
          reasons_length = zeros (8 * w * u32 n) ∙ all_planes;
        },
        record {
          positive = λ i r hi hr. no_bit (w * u32 n) _ r;
          negative = λ i r hi hr. no_bit (w * u32 n) _ r;
          reason = λ q i r hq hi hr. no_bit (8 * w * u32 n) _ r ∙ (ground arith);
        },
      )
    where
      zeros : (m : ℕ) → length (replicate {A = ℕ} (length (replicate {A = ℕ} m 0)) 0) ≡ m
      zeros m = length-replicate (length (replicate {A = ℕ} m 0)) 0 ∙ length-replicate m 0

      no_bit :
          (m cell r : ℕ)
          → has_bit (get_or (replicate {A = ℕ} (length (replicate {A = ℕ} m 0)) 0) cell 0) (r % 64)
            ≡ false
      no_bit m cell r =
          rw (get_or-replicate {A = ℕ} (length (replicate {A = ℕ} m 0)) cell 0)
            (has_bit-zero (r % 64))

  -- For a program whose code is in order (HasValidCode) with fewer than 2^32 instructions, and a
  -- batch whose columns and evidence have their declared shape, of rows with rows + 63 < 2^32 and
  -- with fewer than 2^32 evidence edges: EvaluateInstructions, on the context that Ensure makes
  -- for the rows, returns without an error or a panic, and the bits of the three plane stores at
  -- every instruction and row are those of the row-by-row specification `verdicts`.
  pub evaluate_instructions-verdicts :
      Returns
        (Holds
          (length p.opcodes)
          (word_count batch.rows)
          batch.rows
          (verdicts p batch (length p.opcodes)))
        (evaluate_instructions p batch (ensure p batch.rows))
  unfolding evaluate_instructions
  evaluate_instructions-verdicts =
      rw (matches, columns-matched, (validate_evidence_batch-HasEvidence batch edges).1 evidence)
        (elim (ℕ_discrete batch.rows 0) [
          | yes none ↦ rw (eq→== _ 0 none) (
              returns (
                Holds-congr (length p.opcodes) (word_count batch.rows) batch.rows
                  (omega (arith, words-exact)) _ (verdicts p batch 0)
                  (verdicts p batch (length p.opcodes)) (λ i r hi hr. absurd (omega arith))
                  cleared-Holds))
          | no some ↦ rw (ne→== _ 0 some) (
              for_range_inv_zero
                (λ k.
                  Holds (length p.opcodes) (word_count batch.rows) batch.rows (verdicts p batch k))
                (evaluate_instruction p batch) (length p.opcodes) _
                (λ i c hi h.
                  step p code (word_count batch.rows) batch columns evidence
                    (omega (arith, words-exact)) (omega (arith, words-exact))
                    (omega (arith, words-exact)) i hi c h)
                cleared-Holds)
        ])
