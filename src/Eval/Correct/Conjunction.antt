-- ===== src/Eval/Correct/Conjunction.antt =====
-- `evaluateAll`, second half: the reason of each row, and the whole instruction.
use verifoxx.Base.{
  ℕ, suc, ◌+◌, ◌-◌, ◌*◌, ◌≤◌, ◌<◌, ◌≡◌, ◌≢◌, refl, ap, ◌∙◌, Bool, true, false, ◌&&◌, List, [], ◌∷◌,
  map, length, get_or, drop, arith, ◌==◌, if◌then◌else◌, ok, ◌>>=◌, nth-get_or, slice-take, Returns,
  Returns-bind, Returns-mono, for_range, ne→==, length-take, get_or-take, get_or-drop,
}
use mathlib.Core.Path.{ap₂}
use verifoxx.Schema.Reason
use verifoxx.Program.{Program}
use verifoxx.Program.Opcode
use verifoxx.Program.Valid.{HasValidCode}
use verifoxx.Eval.Batch.{Batch}
use verifoxx.Eval.Context.{Context, reason_plane, set_reason}
use verifoxx.Eval.Scalar.{any_operand, select_reason, priority, all_row, evaluate_all}
use verifoxx.Eval.Planes.{block, has_row_in-bit, cell_bound}
use verifoxx.Eval.Verdicts.{
  Verdict, Table, put, Holds, cleared, positive_plane-block, negative_plane-block,
  reason_plane-block,
}
use verifoxx.Eval.RowSpec.{any, first_reason, all_verdict, operands_of}
use verifoxx.Eval.Correct.Rows.{done, done-next, Holds-congr, put_reason, fill_rows, start_row}
use verifoxx.Eval.Correct.Fields.{add_sub_left}
use verifoxx.Eval.Correct.Words.{Earlier, operand_verdicts}
use verifoxx.Eval.Correct.AllWords.{planes_only, combine-Holds, masked-Holds}

-- Every entry is a reason.
abbrev Reasons : List ℕ → Type 0
Reasons [] = Unit {0}
Reasons (q ∷ qs) = (0 < q) × (q < 9) × Reasons qs

module _ (n w rows : ℕ) (wide : rows ≤ w * 64) (nonempty : 0 < w) (i : ℕ) (hi : i < n)
    (context : Context) (t : Table) (holds : Holds n w rows t context) (r : ℕ) (hr : r < rows) where
  any_operand-any :
      (q : ℕ)
      → 0 < q
      → q < 9
      → (ops : List ℕ) → Earlier i ops
      → any_operand context q r ops
        ≡ ok (any (λ (v : Verdict). q == v.reason) (operand_verdicts t ops r))
  unfolding any_operand
  any_operand-any q lo hi' [] earlier = refl
  any_operand-any q lo hi' (op ∷ ops) (low, high, earlier) =
      let e : op ≡ suc (op - 1) = omega arith in
      let f : q ≡ suc (q - 1) = omega arith in
      let before : op - 1 < n = omega arith in
      let shown = holds.1.reason (q - 1) (op - 1) r (omega arith) before hr in
      rw
        (
          ap₂ (λ (x y : ℕ). reason_plane context x y) f e
              ∙ reason_plane-block n w rows wide context holds.0 nonempty (q - 1) (op - 1)
                  (omega arith) before,
          has_row_in-bit w (8 * n) context.reasons holds.0.reasons_length ((q - 1) * n + (op - 1)) r
              (cell_bound n (q - 1) 8 (op - 1) before (omega arith)) (omega arith),
          shown,
          ← f,
        )
        (ground (arith, any_operand-any q lo hi' ops earlier))

  select_reason-first :
      (ops : List ℕ)
      → Earlier i ops
      → (reasons : List ℕ) → Reasons reasons
      → select_reason context r ops reasons ≡ ok (first_reason (operand_verdicts t ops r) reasons)
  unfolding select_reason
  select_reason-first ops earlier [] valid = refl
  select_reason-first ops earlier (q ∷ qs) (lo, hi', valid) =
      rw (any_operand-any q lo hi' ops earlier)
        (ground (arith, select_reason-first ops earlier qs valid))

first_reason-range :
    (vs : List Verdict) (reasons : List ℕ)
    → Reasons reasons
    → (0 < first_reason vs reasons) × (first_reason vs reasons < 9)
first_reason-range vs [] valid = omega arith
first_reason-range vs (q ∷ qs) (lo, hi, valid) = ground (arith, first_reason-range vs qs valid)

abbrev planes : Bool → Bool → Verdict
planes pos neg = record { positive = pos; negative = neg; reason = 0 }

module _ (n w rows : ℕ) (wide : rows ≤ w * 64) (i : ℕ) (hi : i < n) (r : ℕ) (hr : r < rows)
    (u : Table) where
  reason_ladder :
      (context : Context) (ops : List ℕ) (q : ℕ)
      → select_reason context r ops priority ≡ ok q
      → 0 < q
      → q < 9
      → (pos neg : Bool) → Holds n w rows (put u i r (planes pos neg)) context
      → Returns
          (Holds n w rows (
            put u i r (record {
              positive = pos;
              negative = neg;
              reason =
                  if pos && neg
                  then Reason.conflict
                  else if neg
                  then Reason.refuted
                  else if pos
                  then Reason.satisfied
                  else q;
            })))
          (if pos && neg
            then set_reason context Reason.conflict (suc i) r
            else if neg
            then set_reason context Reason.refuted (suc i) r
            else if pos
            then set_reason context Reason.satisfied (suc i) r
            else (select_reason context r ops priority >>= λ selected.
                set_reason context selected (suc i) r))
  reason_ladder context ops q e lo hi' true true holds =
      put_reason n w rows wide i r hi hr u context _ 7 (omega arith) refl holds
  reason_ladder context ops q e lo hi' true false holds =
      put_reason n w rows wide i r hi hr u context _ 0 (omega arith) refl holds
  reason_ladder context ops q e lo hi' false true holds =
      put_reason n w rows wide i r hi hr u context _ 1 (omega arith) refl holds
  reason_ladder context ops q e lo hi' false false holds =
      let f : q ≡ suc (q - 1) = omega arith in
      rw (e, f) (put_reason n w rows wide i r hi hr u context _ (q - 1) (omega arith) refl holds)

module _ (n w rows : ℕ) (wide : rows ≤ w * 64) (nonempty : 0 < w) (i : ℕ) (hi : i < n) (r : ℕ)
    (hr : r < rows) (t u : Table) (ops : List ℕ) (earlier : Earlier i ops) where
  all_row-Holds :
      u i r ≡ planes_only n w rows wide nonempty i hi t ops r
      → operand_verdicts u ops r ≡ operand_verdicts t ops r
      → (context : Context) → Holds n w rows u context
      → Returns
          (Holds n w rows (put u i r (all_verdict (operand_verdicts t ops r))))
          (all_row ops (block w i) (block w i) (suc i) r context)
  unfolding all_row all_verdict
  all_row-Holds e same context holds =
      rw
        (
          has_row_in-bit w n context.positive holds.0.positive_length i r hi (omega arith)
              ∙ ap (λ (b : Bool). ok b)
                  (holds.1.positive i r hi hr ∙ ap (λ (v : Verdict). v.positive) e),
          has_row_in-bit w n context.negative holds.0.negative_length i r hi (omega arith)
              ∙ ap (λ (b : Bool). ok b)
                  (holds.1.negative i r hi hr ∙ ap (λ (v : Verdict). v.negative) e),
        )
        (reason_ladder n w rows wide i hi r hr u context ops _
          (select_reason-first n w rows wide nonempty i hi context u holds r hr ops earlier priority
              (omega arith)
            ∙ ap (λ (vs : List Verdict). ok (first_reason vs priority)) same)
          ((first_reason-range (operand_verdicts t ops r) priority (omega arith)).0)
          ((first_reason-range (operand_verdicts t ops r) priority (omega arith)).1) _ _
          (start_row n w rows wide i r hi hr u context _ e holds))

-- A list whose entries are all earlier, by index.
Earlier-of :
    (i : ℕ) (ops : List ℕ)
    → ((j : ℕ) → j < length ops → (0 < get_or ops j 0) × (get_or ops j 0 ≤ i))
    → Earlier i ops
Earlier-of i [] each = tt
Earlier-of i (op ∷ ops) each =
    let (low, high) = each 0 (omega arith) in
    (low, high, Earlier-of i ops λ j hj. each (suc j) (omega arith))

module _ (p : Program) (code : HasValidCode p) (i : ℕ) (hi : i < length p.opcodes) where
  operands-Earlier : get_or p.opcodes i 0 ≡ Opcode.all → Earlier i (operands_of p i)
  operands-Earlier is_all = Earlier-of i (operands_of p i) λ j hj.
      let start = get_or p.operand_starts i 0 in
      let count = get_or p.operand_counts i 0 in
      let below : j < count = omega (arith, length-take count (drop start p.operands)) in
      rw (get_or-take count j (drop start p.operands) 0 below, get_or-drop start j p.operands 0)
        ((code.instruction i hi).operands_before is_all j below)

module _ (p : Program) (code : HasValidCode p) (w : ℕ) (batch : Batch) (wide : batch.rows ≤ w * 64)
    (tight : w * 64 < batch.rows + 64) (nonempty : 0 < w) (i : ℕ) (hi : i < length p.opcodes)
    (t : Table) (fresh : (r : ℕ) → t i r ≡ cleared) where
  conjunction : ℕ → Verdict
  conjunction r = all_verdict (operand_verdicts t (operands_of p i) r)

  operands-done :
      (v : ℕ → Verdict) (k l : ℕ) (u : ℕ → Verdict) (ops : List ℕ) (r : ℕ)
      → Earlier i ops
      → operand_verdicts (done (done t i l u) i k v) ops r ≡ operand_verdicts t ops r
  operands-done v k l u [] r earlier = refl
  operands-done v k l u (op ∷ ops) r (low, high, earlier) =
      let d : op - 1 ≢ i = omega arith in
      rw (ne→== (op - 1) i d, operands-done v k l u ops r earlier)

  conjunction_rows :
      (earlier : Earlier i (operands_of p i)) (context : Context)
      → Holds
          (length p.opcodes)
          w
          batch.rows
          (done t i batch.rows
            (planes_only (length p.opcodes) w batch.rows wide nonempty i hi t (operands_of p i)))
          context
      → Returns (Holds (length p.opcodes) w batch.rows (done t i batch.rows conjunction)) (
          for_range batch.rows 0
            (all_row (operands_of p i) (block w i) (block w i) (suc i))
            context)
  unfolding conjunction
  conjunction_rows earlier context holds =
      let n = length p.opcodes in
      let base = planes_only n w batch.rows wide nonempty i hi t (operands_of p i) in
      Returns-mono
        (fill_rows n w batch.rows wide i hi (done t i batch.rows base) conjunction _
          (λ r c hr h.
            all_row-Holds n w batch.rows wide nonempty i hi r hr t
              (done (done t i batch.rows base) i r conjunction) (operands_of p i) earlier
              (done-next (done t i batch.rows base) i r conjunction ∙ done-here base r hr)
              (operands-done conjunction r batch.rows base (operands_of p i) r earlier) c h)
          context holds)
        λ c.
          Holds-congr n w batch.rows wide c _ (done t i batch.rows conjunction)
            λ j s hj hs. ground arith
    where
      done-here : (v : ℕ → Verdict) (r : ℕ) → r < batch.rows → done t i batch.rows v i r ≡ v r
      done-here v r hr = ground arith

  pub evaluate_all-Holds :
      (context : Context)
      → Holds (length p.opcodes) w batch.rows t context
      → get_or p.opcodes i 0 ≡ Opcode.all
      → Returns
          (Holds (length p.opcodes) w batch.rows (
            done t i batch.rows
              (λ r. all_verdict (map (λ operand. t (operand - 1) r) (operands_of p i)))))
          (evaluate_all p batch (suc i) i context)
  unfolding evaluate_all conjunction
  evaluate_all-Holds context holds is_all =
      let n = length p.opcodes in
      let earlier = operands-Earlier p code i hi is_all in
      let start = get_or p.operand_starts i 0 in
      let count = get_or p.operand_counts i 0 in
      rw
        (
          positive_plane-block n w batch.rows wide context holds.0 nonempty i hi,
          negative_plane-block n w batch.rows wide context holds.0 nonempty i hi,
          nth-get_or p.operand_starts i 0 (omega (arith, code.operand_starts_length)),
          nth-get_or p.operand_counts i 0 (omega (arith, code.operand_counts_length)),
          slice-take p.operands start (start + count) (omega arith)
              ((code.instruction i hi).operand_range),
          add_sub_left start count,
        )
        (Returns-bind
          (combine-Holds n w batch.rows wide nonempty i hi t fresh (operands_of p i) earlier context
            holds)
          λ combined h.
            Returns-bind
              (masked-Holds n w batch.rows wide nonempty i hi tight t (operands_of p i) combined h)
              λ positives more.
                Returns-bind more λ negatives final. conjunction_rows earlier _ final)
