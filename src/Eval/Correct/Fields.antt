-- ===== src/Eval/Correct/Fields.antt =====
-- `evaluateEqual` and `evaluateIn` compute the comparison's verdict on every row.
use verifoxx.Base.{
  ℕ, suc, ◌+◌, ◌-◌, ◌*◌, ◌/◌, ◌≤◌, ◌<◌, ◌≡◌, refl, ◌∙◌, Bool, true, false, not, List, length,
  get_or, take, drop, arith, ◌==◌, if◌then◌else◌, ok, ◌>>=◌, nth, slice-take, nth-get_or, Returns,
  Returns-bind, for_range, get_or-take, get_or-drop, length-take, length-drop, ne→==, lt→leb,
  le→ltb,
}
use verifoxx.Schema.Field
use verifoxx.Schema.Reason
use verifoxx.Program.{Program}
use verifoxx.Eval.Error.{Error}
use verifoxx.Eval.Batch.{Batch, field_part, field_values, field_present, field_valid}
use verifoxx.Eval.Context.{Context, has_row, set_positive, set_negative, set_reason}
use verifoxx.Eval.Scalar.{field_row, evaluate_equal, evaluate_in, is_in}
use verifoxx.Eval.Planes.{bit, block}
use verifoxx.Program.Valid.{HasValidCode}
use verifoxx.Eval.Shape.{HasColumns}
use verifoxx.Eval.Verdicts.{Table, put, Holds, cleared, positive_plane-block, negative_plane-block}
use verifoxx.Program.Opcode
use verifoxx.Eval.RowSpec.{set_of, compare_verdict, field_verdict}
use verifoxx.Eval.Correct.Rows.{
  done, done-next, put_reason, put_positive, put_negative, fill_rows, start_row,
}

pub add_sub_left : (a b : ℕ) → a + b - a ≡ b
add_sub_left a b = omega arith

-- A field's part of its storage, read.
field_part-nth :
    (storage : List ℕ) (size field i : ℕ)
    → length storage ≡ 7 * size
    → 0 < field
    → field < Field.count
    → i < size
    → nth {E = Error} (field_part storage size field) i
      ≡ ok (get_or storage ((field - 1) * size + i) 0)
unfolding field_part
field_part-nth storage size field i long low high inside =
    let fits : (field - 1) * size + size ≤ 7 * size = grind arith in
    let start = (field - 1) * size in
    let part = take (start + size - start) (drop start storage) in
    let here : i < length part =
      omega (
        arith,
        length-take (start + size - start) (drop start storage),
        length-drop start storage,
      ) in
    rw (
      ne→== field 0 (omega arith),
      ne→== size 0 (omega arith),
      lt→leb Field.count field high,
      le→ltb (length storage) (start + size) (omega arith),
      nth-get_or part i 0 here,
      get_or-take (start + size - start) i (drop start storage) 0 (omega arith),
      get_or-drop start i storage 0,
    )

module _ (n w rows : ℕ) (wide : rows ≤ w * 64) (i : ℕ) (hi : i < n) (r : ℕ) (hr : r < rows)
    (t : Table) where
  -- The ladder of tests, once the row's tests are known.
  ladder-Holds :
      (context : Context) (present valid matches : Bool)
      → Holds n w rows (put t i r cleared) context
      → Returns (Holds n w rows (put t i r (compare_verdict present valid matches))) (
          if not present
          then set_reason context Reason.missing (suc i) r
          else if not valid
          then set_reason context Reason.unclear (suc i) r
          else if matches
          then (set_positive context (block w i) r >>= λ c. set_reason c Reason.satisfied (suc i) r)
          else (set_negative context (block w i) r >>= λ c. set_reason c Reason.refuted (suc i) r))
  unfolding compare_verdict
  ladder-Holds context false valid matches holds =
      put_reason n w rows wide i r hi hr t context cleared 2 (omega arith) refl holds
  ladder-Holds context true false matches holds =
      put_reason n w rows wide i r hi hr t context cleared 5 (omega arith) refl holds
  ladder-Holds context true true true holds =
      Returns-bind (put_positive n w rows wide i r hi hr t context cleared holds)
        λ c h. put_reason n w rows wide i r hi hr t c _ 0 (omega arith) refl h
  ladder-Holds context true true false holds =
      Returns-bind (put_negative n w rows wide i r hi hr t context cleared holds)
        λ c h. put_reason n w rows wide i r hi hr t c _ 1 (omega arith) refl h

  field_row-Holds :
      (values present valid : List ℕ) (matches : ℕ → Bool) (context : Context) (P V : Bool) (x : ℕ)
      → has_row present r ≡ ok P
      → has_row valid r ≡ ok V
      → nth {E = Error} values r ≡ ok x
      → t i r ≡ cleared
      → Holds n w rows t context
      → Returns
          (Holds n w rows (put t i r (compare_verdict P V (matches x))))
          (field_row values present valid matches (block w i) (block w i) (suc i) r context)
  unfolding field_row
  field_row-Holds values present valid matches context P V x hp hv hx none_yet holds =
      rw (hp, hv, hx)
        (ladder-Holds context P V (matches x)
          (start_row n w rows wide i r hi hr t context cleared none_yet holds))

module _ (w : ℕ) (batch : Batch) (columns : HasColumns w batch) (field : ℕ) (low : 0 < field)
    (high : field < Field.count) (r : ℕ) (hr : r < batch.rows) (wide : batch.rows ≤ w * 64) where
  plane-bit :
      (storage : List ℕ)
      → length storage ≡ 7 * w
      → has_row (field_part storage batch.words field) r
        ≡ ok (bit batch.words storage (field - 1) r)
  unfolding has_row bit
  plane-bit storage long =
      rw (columns.words) (rw (field_part-nth storage w field (r / 64) long low high (omega arith)))

  pub present-bit :
      has_row (field_present batch field) r ≡ ok (bit batch.words batch.present (field - 1) r)
  unfolding field_present
  present-bit = plane-bit batch.present columns.present_length

  valid-bit : has_row (field_valid batch field) r ≡ ok (bit batch.words batch.valid (field - 1) r)
  unfolding field_valid
  valid-bit = plane-bit batch.valid columns.valid_length

  value-nth :
      nth {E = Error} (field_values batch field) r
      ≡ ok (get_or batch.values ((field - 1) * batch.rows + r) 0)
  unfolding field_values
  value-nth = field_part-nth batch.values batch.rows field r columns.values_length low high hr

module _ (p : Program) (code : HasValidCode p) (w : ℕ) (batch : Batch)
    (columns : HasColumns w batch) (wide : batch.rows ≤ w * 64) (nonempty : 0 < w) (i : ℕ)
    (hi : i < length p.opcodes) (t : Table) (fresh : (r : ℕ) → t i r ≡ cleared) where
  -- The loop over the rows, for either comparison.
  compare_rows :
      (field : ℕ) (low : 0 < field) (high : field < Field.count) (matches : ℕ → Bool)
      (context : Context)
      → Holds (length p.opcodes) w batch.rows t context
      → Returns
          (Holds
            (length p.opcodes)
            w
            batch.rows
            (done t i batch.rows (field_verdict batch field matches)))
          (for_range batch.rows 0
            (field_row
              (field_values batch field)
              (field_present batch field)
              (field_valid batch field)
              matches
              (block w i)
              (block w i)
              (suc i))
            context)
  unfolding field_verdict
  compare_rows field low high matches =
      fill_rows (length p.opcodes) w batch.rows wide i hi t (field_verdict batch field matches) _
        λ r c hr holds.
          field_row-Holds (length p.opcodes) w batch.rows wide i hi r hr
            (done t i r (field_verdict batch field matches)) (field_values batch field)
            (field_present batch field) (field_valid batch field) matches c _ _ _
            (present-bit w batch columns field low high r hr wide)
            (valid-bit w batch columns field low high r hr wide)
            (value-nth w batch columns field low high r hr wide)
            (done-next t i r (field_verdict batch field matches) ∙ fresh r) holds

  module _ (context : Context) (holds : Holds (length p.opcodes) w batch.rows t context) where
    pub evaluate_equal-Holds :
        get_or p.opcodes i 0 ≡ Opcode.equal
        → Returns
            (Holds (length p.opcodes) w batch.rows (
              done t i batch.rows (
                field_verdict batch (get_or p.fields i 0) (λ value. value == get_or p.values i 0))))
            (evaluate_equal p batch (suc i) i context)
    unfolding evaluate_equal
    evaluate_equal-Holds is_equal =
        let (low, high) = (code.instruction i hi).equal_field is_equal in
        rw
          (
            nth-get_or p.fields i 0 (omega (arith, code.fields_length)),
            positive_plane-block (length p.opcodes) w batch.rows wide context holds.0 nonempty i hi,
            negative_plane-block (length p.opcodes) w batch.rows wide context holds.0 nonempty i hi,
            nth-get_or p.values i 0 (omega (arith, code.values_length)),
          )
          (compare_rows (get_or p.fields i 0) low high (λ value. value == get_or p.values i 0)
            context holds)

    pub evaluate_in-Holds :
        get_or p.opcodes i 0 ≡ Opcode.in_set
        → Returns
            (Holds (length p.opcodes) w batch.rows (
              done t i batch.rows (field_verdict batch (get_or p.fields i 0) (is_in (set_of p i)))))
            (evaluate_in p batch (suc i) i context)
    unfolding evaluate_in
    evaluate_in-Holds is_member =
        let start = get_or p.set_starts i 0 in
        let count = get_or p.set_counts i 0 in
        let (low, high) = (code.instruction i hi).in_field is_member in
        rw
          (
            nth-get_or p.fields i 0 (omega (arith, code.fields_length)),
            positive_plane-block (length p.opcodes) w batch.rows wide context holds.0 nonempty i hi,
            negative_plane-block (length p.opcodes) w batch.rows wide context holds.0 nonempty i hi,
            nth-get_or p.set_starts i 0 (omega (arith, code.set_starts_length)),
            nth-get_or p.set_counts i 0 (omega (arith, code.set_counts_length)),
            slice-take p.set_values start (start + count) (omega arith)
                ((code.instruction i hi).set_range),
            add_sub_left start count,
          )
          (compare_rows (get_or p.fields i 0) low high (is_in (set_of p i)) context holds)
