-- ===== src/Eval/Builder/Rows.antt =====
-- internal/eval/builder.go: the loop over the requests' fields beside the table of all of them.
use native.Mathlib.Decide.{ℕ_discrete, dec_lt}
use verifoxx.Base.{
  ℕ, zero, suc, ◌+◌, ◌-◌, ◌*◌, ◌≤◌, ◌<◌, ◌≡◌, refl, ap, ◌∙◌, Option, List, [], ◌∷◌, length, get_or,
  arith, ltb, ◌==◌, if◌then◌else◌, ok, eq→==, ne→==, lt→ltb, le→ltb, Returns, returns, Returns-bind,
  Returns-mono,
}
use verifoxx.Base.Text.{Text}
use verifoxx.Eval.Batch.{Batch}
use verifoxx.Eval.Builder.Error.{Error}
use verifoxx.Eval.Builder.Columns.{request_fields, set_request_field, set_fields, set_rows}
use verifoxx.Eval.Builder.Cells.{
  Cell, blank, Fields, Filled, HasRecords, put_cell, value_cell, set_request_field-Filled,
}
use verifoxx.Input.{Request}
use verifoxx.Program.{Program, lookup_symbol}
use verifoxx.Schema.{valid_field_value}

pub Filled-congr :
    {rows w : ℕ} {b : Batch} (t u : Fields)
    → ((c r : ℕ) → c < 7 → r < rows → t c r ≡ u c r)
    → Filled rows w t b
    → Filled rows w u b
Filled-congr t u same h = record {
  rows_exact = h.rows_exact;
  words_exact = h.words_exact;
  values_length = h.values_length;
  present_length = h.present_length;
  valid_length = h.valid_length;
  masks_length = h.masks_length;
  value = λ c r hc hr. h.value c r hc hr ∙ ap (λ (x : Cell). x.value) (same c r hc hr);
  present = λ c r hc hr. h.present c r hc hr ∙ ap (λ (x : Cell). x.present) (same c r hc hr);
  valid = λ c r hc hr. h.valid c r hc hr ∙ ap (λ (x : Cell). x.valid) (same c r hc hr);
  issue = λ c r hc hr. h.issue c r hc hr ∙ ap (λ (x : Cell). x.issue) (same c r hc hr);
}

-- The cell of a field, from 0, of a request.
abbrev pub field_cell : Program → Request → ℕ → Cell
field_cell p q c =
    let (field, value) = get_or (request_fields q) c (0, []) in
    value_cell p value (valid_field_value field value)

-- The table of the requests: field `c` of request `r`.
unfoldable pub request_table : Program → List Request → Fields
request_table p [] c r = blank
request_table p (q ∷ requests) c zero = field_cell p q c
request_table p (q ∷ requests) c (suc r) = request_table p requests c r

module _ (p : Program)
    (looked : (value : Text) → (o : Option ℕ) × (lookup_symbol {E = Error} p value ≡ ok o))
    (rows w : ℕ) (wide : rows ≤ w * 64) (records edges : ℕ) where
  set_fields-Filled :
      (row : ℕ) (hr : row < rows) (q : Request) (t : Fields) (b : Batch)
      → ((c : ℕ) → t c row ≡ blank)
      → Filled rows w t b
      → HasRecords rows records edges b
      → Returns
          (λ b'.
            Filled rows w (λ c r. if row == r then field_cell p q c else t c r) b'
            × HasRecords rows records edges b')
          (set_fields p row (request_fields q) b)
  unfolding set_fields
  set_fields-Filled row hr q t b none_yet h k =
      Returns-bind (set 0 (omega arith) q.requester t b h k (none_yet 0)) λ b₁ (h₁, k₁).
        Returns-bind (set 1 (omega arith) q.trust_level _ b₁ h₁ k₁ (none_yet 1)) λ b₂ (h₂, k₂).
          Returns-bind (set 2 (omega arith) q.action _ b₂ h₂ k₂ (none_yet 2)) λ b₃ (h₃, k₃).
            Returns-bind (set 3 (omega arith) q.output_kind _ b₃ h₃ k₃ (none_yet 3)) λ b₄ (h₄, k₄).
              Returns-bind (set 4 (omega arith) q.dataset _ b₄ h₄ k₄ (none_yet 4)) λ b₅ (h₅, k₅).
                Returns-bind (set 5 (omega arith) q.environment _ b₅ h₅ k₅ (none_yet 5))
                  λ b₆ (h₆, k₆).
                    Returns-bind (set 6 (omega arith) q.usage_limit _ b₆ h₆ k₆ (none_yet 6))
                      λ b₇ (h₇, k₇). returns (Filled-congr _ _ (λ c r hc hr'. seven c r hc) h₇, k₇)
    where
      set :
          (c : ℕ) (hc : c < 7) (value : Text) (t' : Fields) (b' : Batch)
          → Filled rows w t' b'
          → HasRecords rows records edges b'
          → t' c row ≡ blank
          → Returns
              (λ b''.
                Filled rows w
                  (put_cell c row (value_cell p value (valid_field_value (suc c) value)) t')
                  b''
                × HasRecords rows records edges b'')
              (set_request_field p row (suc c) value (valid_field_value (suc c) value) b')
      set c hc value t' b' h' k' none_yet' =
          set_request_field-Filled p looked rows w wide records edges c row hc hr value
            (valid_field_value (suc c) value) t' b' h' k' none_yet'

      seven :
          (c r : ℕ)
          → c < 7
          → put_cell 6 row
              (field_cell p q 6)
              (put_cell 5 row (field_cell p q 5) (
                put_cell 4 row (field_cell p q 4) (
                  put_cell 3 row (field_cell p q 3) (
                    put_cell 2 row
                      (field_cell p q 2)
                      (put_cell 1 row (field_cell p q 1) (put_cell 0 row (field_cell p q 0) t))))))
              c
              r
            ≡ (if row == r then field_cell p q c else t c r)
      seven zero r hc = refl
      seven (suc zero) r hc = refl
      seven (suc (suc zero)) r hc = refl
      seven (suc (suc (suc zero))) r hc = refl
      seven (suc (suc (suc (suc zero)))) r hc = refl
      seven (suc (suc (suc (suc (suc zero))))) r hc = refl
      seven (suc (suc (suc (suc (suc (suc zero)))))) r hc = refl
      seven (suc (suc (suc (suc (suc (suc (suc c))))))) r hc = absurd (omega arith)

  pub set_rows-Filled :
      (row : ℕ) (requests : List Request) (t : Fields) (b : Batch)
      → row + length requests ≡ rows
      → ((c r : ℕ) → row ≤ r → t c r ≡ blank)
      → Filled rows w t b
      → HasRecords rows records edges b
      → Returns
          (λ b'.
            Filled rows w
              (λ c r. if ltb r row then t c r else request_table p requests c (r - row))
              b'
            × HasRecords rows records edges b')
          (set_rows p row requests b)
  unfolding set_rows request_table
  set_rows-Filled row [] t b end none_yet h k =
      returns (Filled-congr _ _ (λ c r hc hr. rw (lt→ltb r row (omega arith))) h, k)
  set_rows-Filled row (q ∷ requests) t b end none_yet h k =
      Returns-bind
        (set_fields-Filled row (omega arith) q t b (λ c. none_yet c row (omega arith)) h k)
        λ b₁ (h₁, k₁).
          Returns-mono
            (set_rows-Filled (suc row) requests _ b₁ (omega arith)
              (λ c r later. rw (ne→== row r (omega arith)) (none_yet c r (omega arith))) h₁ k₁)
            λ b₂ (h₂, k₂). (Filled-congr _ _ (λ c r hc hr. step c r) h₂, k₂)
    where
      step :
          (c r : ℕ)
          → (if ltb r (suc row)
              then (if row == r then field_cell p q c else t c r)
              else request_table p requests c (r - suc row))
            ≡ (if ltb r row then t c r else request_table p (q ∷ requests) c (r - row))
      step c r = elim (dec_lt r row) [
        | yes before ↦
            rw (lt→ltb r (suc row) (omega arith), ne→== row r (omega arith), lt→ltb r row before)
        | no after ↦ elim (ℕ_discrete row r) [
          | yes now ↦
              let zeroth : r - row ≡ 0 = omega arith in
              rw (
                lt→ltb r (suc row) (omega arith),
                eq→== row r now,
                le→ltb r row (omega arith),
                zeroth,
              )
          | no later ↦
              let next : r - row ≡ suc (r - suc row) = omega arith in
              rw (le→ltb r (suc row) (omega arith), le→ltb r row (omega arith), next)
        ]
      ]
