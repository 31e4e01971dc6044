-- ===== src/Eval/Builder/Cells.antt =====
-- internal/eval/builder.go beside a table of the requests' fields: what each field's cell of the
-- columns shows.
use Prim.Native.Nat.{bit_or}
use mathlib.Core.Path.{ap₂}
use native.Mathlib.Decide.{ℕ_discrete}
use verifoxx.Base.{
  ℕ, suc, ◌+◌, ◌-◌, ◌*◌, ◌/◌, ◌%◌, ◌^◌, ◌≤◌, ◌<◌, ◌≡◌, refl, sym, ap, ◌∙◌, ◌≢◌, Bool, true, false,
  not, ◌&&◌, Option, none, some, List, [], length, get_or, set, arith, ◌==◌, if◌then◌else◌, ok,
  nth-get_or, store-set, Bool-cases, inl, inr, length-set, get_or-set_self, get_or-set_ne, Returns,
  returns, Returns-bind,
}
use verifoxx.Base.Bits.{has_bit, has_bit-or, has_bit-pow}
use verifoxx.Base.Text.{Text, ◌=ₜ◌}
use verifoxx.Eval.Batch.{Batch}
use verifoxx.Eval.Builder.Error.{Error}
use verifoxx.Eval.Builder.Columns.{set_bit, store_found, set_request_field}
use verifoxx.Eval.Planes.{bit, cell_bound, cell_inj, bit-set}
use verifoxx.Program.{Program, lookup_symbol}

-- What the columns show of one field of one request.
pub record Cell : Type 0 where
  pub value : ℕ
  pub present : Bool
  pub valid : Bool
  pub issue : Bool

abbrev pub blank : Cell
blank = record { value = 0; present = false; valid = false; issue = false }

-- By the field, from 0, and the row.
abbrev pub Fields : Type 0
Fields = ℕ → ℕ → Cell

-- The columns of a batch of `rows` rows over `w` words show the table.
pub record Filled (rows w : ℕ) (t : Fields) (b : Batch) : Type 0 where
  pub rows_exact : b.rows ≡ rows
  pub words_exact : b.words ≡ w
  pub values_length : length b.values ≡ 7 * rows
  pub present_length : length b.present ≡ 7 * w
  pub valid_length : length b.valid ≡ 7 * w
  pub masks_length : length b.semantic_issue_masks ≡ rows
  pub value : (c r : ℕ) → c < 7 → r < rows → get_or b.values (c * rows + r) 0 ≡ (t c r).value
  pub present : (c r : ℕ) → c < 7 → r < rows → bit w b.present c r ≡ (t c r).present
  pub valid : (c r : ℕ) → c < 7 → r < rows → bit w b.valid c r ≡ (t c r).valid
  pub issue :
      (c r : ℕ) → c < 7 → r < rows → has_bit (get_or b.semantic_issue_masks r 0) c ≡ (t c r).issue

-- The evidence columns hold `records` records, `rows + 1` offsets and `edges` references.
pub record HasRecords (rows records edges : ℕ) (b : Batch) : Type 0 where
  pub kinds : length b.evidence_kinds ≡ records
  pub status : length b.evidence_status ≡ records
  pub timing : length b.evidence_timing ≡ records
  pub reviewer : length b.evidence_reviewer ≡ records
  pub timestamp_state : length b.evidence_timestamp_state ≡ records
  pub subject : length b.evidence_subject ≡ records
  pub attestation_state : length b.evidence_attestation_state ≡ records
  pub scope : length b.evidence_scope ≡ records
  pub adjustment_type : length b.evidence_adjustment_type ≡ records
  pub present : length b.evidence_present ≡ records
  pub flags : length b.evidence_flags ≡ records
  pub offsets : length b.evidence_ref_offsets ≡ rows + 1
  pub refs : length b.evidence_refs ≡ edges

abbrev pub number_or_zero : Option ℕ → ℕ
number_or_zero none = 0
number_or_zero (some n) = n

-- The number of a symbol, 0 if the table has none.
unfoldable pub symbol_number : Program → Text → ℕ
symbol_number p value = elim (lookup_symbol {E = Error} p value) [ ok o ↦ number_or_zero o | _ ↦ 0 ]

pub set_bit-set :
    (cells : List ℕ) (i k : ℕ)
    → i < length cells
    → set_bit cells i k ≡ ok (set cells i (bit_or (get_or cells i 0) (2 ^ k)))
unfolding set_bit
set_bit-set cells i k h = rw (nth-get_or cells i 0 h, store-set cells i _ h)

same_place : (c c' r r' : ℕ) → (c == c' && r == r') ≡ true → (c ≡ c') × (r ≡ r')
same_place c c' r r' h = ground arith

pick {ℓ} :
    {A : Type ℓ} (f : Cell → A) (here : Bool) {x y : A} (cell other : Cell)
    → x ≡ f cell
    → y ≡ f other
    → (if here then x else y) ≡ f (if here then cell else other)
pick f true cell other e g = e
pick f false cell other e g = g

-- A table with one cell written.
abbrev pub put_cell : ℕ → ℕ → Cell → Fields → Fields
put_cell c r cell t c' r' = if c == c' && r == r' then cell else t c' r'

-- The cell of a field's value.
abbrev pub value_cell : Program → Text → Bool → Cell
value_cell p value is_valid = record {
  value = symbol_number p value;
  present = not (value =ₜ []);
  valid = not (value =ₜ []) && is_valid;
  issue = not (not (value =ₜ []) && is_valid);
}

module _ (p : Program)
    (looked : (value : Text) → (o : Option ℕ) × (lookup_symbol {E = Error} p value ≡ ok o))
    (rows w : ℕ) (wide : rows ≤ w * 64) where
  symbol_number-found :
      (value : Text) (o : Option ℕ)
      → lookup_symbol {E = Error} p value ≡ ok o
      → symbol_number p value ≡ number_or_zero o
  unfolding symbol_number
  symbol_number-found value o found = rw (found, symbol_number)

  store_found-value :
      (value : Text) (o : Option ℕ) (cells : List ℕ) (i : ℕ)
      → lookup_symbol {E = Error} p value ≡ ok o
      → i < length cells
      → get_or cells i 0 ≡ 0
      → Returns
          (λ cells'.
            (length cells' ≡ length cells)
            × (get_or cells' i 0 ≡ symbol_number p value)
            × ((j : ℕ) → i ≢ j → get_or cells' j 0 ≡ get_or cells j 0))
          (store_found cells i o)
  unfolding store_found
  store_found-value value none cells i found h zero_there =
      returns (refl, zero_there ∙ sym (symbol_number-found value none found), λ j d. refl)
  store_found-value value (some n) cells i found h zero_there = rw (store-set cells i n h) (
      returns (
        length-set cells i n,
        get_or-set_self cells i n 0 h ∙ sym (symbol_number-found value (some n) found),
        λ j d. get_or-set_ne cells i j n 0 d,
      ))

  -- The row's bit is set in a plane that had it clear, or the plane stays.
  module _ (c r : ℕ) (hc : c < 7) (hr : r < rows) where
    plane_kept :
        (plane : List ℕ)
        → bit w plane c r ≡ false
        → (c' r' : ℕ)
        → bit w plane c' r' ≡ (if c == c' && r == r' then false else bit w plane c' r')
    plane_kept plane clear c' r' = elim (Bool-cases (c == c' && r == r')) [
      | inl same ↦
          let (e, f) = same_place c c' r r' same in
          rw same (ap₂ (λ (x y : ℕ). bit w plane x y) (sym e) (sym f) ∙ clear)
      | inr apart ↦ rw apart
    ]

    mask_kept :
        (masks : List ℕ)
        → has_bit (get_or masks r 0) c ≡ false
        → (c' r' : ℕ)
        → has_bit (get_or masks r' 0) c'
          ≡ (if c == c' && r == r' then false else has_bit (get_or masks r' 0) c')
    mask_kept masks clear c' r' = elim (Bool-cases (c == c' && r == r')) [
      | inl same ↦
          let (e, f) = same_place c c' r r' same in
          rw same (ap₂ (λ (x y : ℕ). has_bit (get_or masks y 0) x) (sym e) (sym f) ∙ clear)
      | inr apart ↦ rw apart
    ]

    value-set :
        (cells cells' : List ℕ) (number : ℕ)
        → get_or cells' (c * rows + r) 0 ≡ number
        → ((j : ℕ) → c * rows + r ≢ j → get_or cells' j 0 ≡ get_or cells j 0)
        → (c' r' : ℕ) → r' < rows
        → get_or cells' (c' * rows + r') 0
          ≡ (if c == c' && r == r' then number else get_or cells (c' * rows + r') 0)
    value-set cells cells' number here elsewhere c' r' hr' =
        elim (Bool-cases (c == c' && r == r')) [
          | inl same ↦
              let (e, f) = same_place c c' r r' same in
              rw same (ap₂ (λ (x y : ℕ). get_or cells' (x * rows + y) 0) (sym e) (sym f) ∙ here)
          | inr apart ↦
              rw apart (
                elsewhere (c' * rows + r')
                  λ e. clash c' r' apart (cell_inj rows c c' r r' hr hr' e))
        ]
      where
        clash : (c' r' : ℕ) → (c == c' && r == r') ≡ false → (c ≡ c') × (r ≡ r') → ⊥
        clash c' r' apart h = ground arith

    set_plane :
        (marked : Bool) (plane : List ℕ)
        → length plane ≡ 7 * w
        → bit w plane c r ≡ false
        → Returns
            (λ plane'.
              (length plane' ≡ 7 * w)
              × ((c' r' : ℕ)
                  → c' < 7
                  → r' < rows
                  → bit w plane' c' r'
                    ≡ (if c == c' && r == r' then marked else bit w plane c' r')))
            (if marked then set_bit plane (c * w + r / 64) (r % 64) else ok plane)
    set_plane false plane long clear = returns (long, λ c' r' hc' hr'. plane_kept plane clear c' r')
    set_plane true plane long clear =
        let inside : c * w + r / 64 < length plane =
          omega (arith, cell_bound w c 7 (r / 64) (omega arith) hc) in
        rw (set_bit-set plane (c * w + r / 64) (r % 64) inside) (
          returns (
            length-set plane _ _ ∙ long,
            λ c' r' hc' hr'.
                bit-set w 7 plane (omega arith) c c' r r' hc (omega arith) (omega arith)
                ∙ (ground arith),
          ))

    mask-set :
        (masks : List ℕ)
        → r < length masks
        → (c' r' : ℕ)
        → has_bit (get_or (set masks r (bit_or (get_or masks r 0) (2 ^ c))) r' 0) c'
          ≡ (if c == c' && r == r' then true else has_bit (get_or masks r' 0) c')
    mask-set masks inside c' r' =
        let cell = bit_or (get_or masks r 0) (2 ^ c) in
        elim (ℕ_discrete r r') [
          | yes e ↦
              ap (λ (x : ℕ). has_bit (get_or (set masks r cell) x 0) c') (sym e)
              ∙ ap (λ (x : ℕ). has_bit x c') (get_or-set_self masks r cell 0 inside)
              ∙ has_bit-or (get_or masks r 0) (2 ^ c) c'
              ∙ (ground (arith, has_bit-pow c c', ap (λ (x : ℕ). has_bit (get_or masks x 0) c') e))
          | no d ↦ ap (λ (x : ℕ). has_bit x c') (get_or-set_ne masks r r' cell 0 d) ∙ (ground arith)
        ]

  module _ (records edges c row : ℕ) (hc : c < 7) (hr : row < rows) where
    assemble :
        (t : Fields) (b : Batch) (cell : Cell) (values present valid masks : List ℕ)
        → Filled rows w t b
        → length values ≡ 7 * rows
        → length present ≡ 7 * w
        → length valid ≡ 7 * w
        → length masks ≡ rows
        → ((c' r' : ℕ)
            → r' < rows
            → get_or values (c' * rows + r') 0
              ≡ (if c == c' && row == r' then cell.value else get_or b.values (c' * rows + r') 0))
        → ((c' r' : ℕ)
            → c' < 7
            → r' < rows
            → bit w present c' r'
              ≡ (if c == c' && row == r' then cell.present else bit w b.present c' r'))
        → ((c' r' : ℕ)
            → c' < 7
            → r' < rows
            → bit w valid c' r'
              ≡ (if c == c' && row == r' then cell.valid else bit w b.valid c' r'))
        → ((c' r' : ℕ)
            → c' < 7
            → r' < rows
            → has_bit (get_or masks r' 0) c' ≡ (
                if c == c' && row == r'
                then cell.issue
                else has_bit (get_or b.semantic_issue_masks r' 0) c'))
        → Filled rows w (put_cell c row cell t) (record b {
          values = values;
          present = present;
          valid = valid;
          semantic_issue_masks = masks;
        })
    assemble t b cell values present valid masks h l₁ l₂ l₃ l₄ values_are presents valids issues =
        record {
          rows_exact = h.rows_exact;
          words_exact = h.words_exact;
          values_length = l₁;
          present_length = l₂;
          valid_length = l₃;
          masks_length = l₄;
          value = λ c' r' hc' hr'.
              values_are c' r' hr'
              ∙ pick (λ (x : Cell). x.value) (c == c' && row == r') cell (t c' r') refl
                  (h.value c' r' hc' hr');
          present = λ c' r' hc' hr'.
              presents c' r' hc' hr'
              ∙ pick (λ (x : Cell). x.present) (c == c' && row == r') cell (t c' r') refl
                  (h.present c' r' hc' hr');
          valid = λ c' r' hc' hr'.
              valids c' r' hc' hr'
              ∙ pick (λ (x : Cell). x.valid) (c == c' && row == r') cell (t c' r') refl
                  (h.valid c' r' hc' hr');
          issue = λ c' r' hc' hr'.
              issues c' r' hc' hr'
              ∙ pick (λ (x : Cell). x.issue) (c == c' && row == r') cell (t c' r') refl
                  (h.issue c' r' hc' hr');
        }

    keep_records :
        (b : Batch)
        → HasRecords rows records edges b
        → (values present valid masks : List ℕ)
        → HasRecords rows records edges (record b {
          values = values;
          present = present;
          valid = valid;
          semantic_issue_masks = masks;
        })
    keep_records b k values present valid masks = record {
      kinds = k.kinds;
      status = k.status;
      timing = k.timing;
      reviewer = k.reviewer;
      timestamp_state = k.timestamp_state;
      subject = k.subject;
      attestation_state = k.attestation_state;
      scope = k.scope;
      adjustment_type = k.adjustment_type;
      present = k.present;
      flags = k.flags;
      offsets = k.offsets;
      refs = k.refs;
    }

    pub set_request_field-Filled :
        (value : Text) (is_valid : Bool) (t : Fields) (b : Batch)
        → Filled rows w t b
        → HasRecords rows records edges b
        → t c row ≡ blank
        → Returns
            (λ b'.
              Filled rows w (put_cell c row (value_cell p value is_valid) t) b'
              × HasRecords rows records edges b')
            (set_request_field p row (suc c) value is_valid b)
    unfolding set_request_field
    set_request_field-Filled value is_valid t b h k none_yet =
        let back : suc c - 1 ≡ c = omega arith in
        let cell : (suc c - 1) * b.rows + row ≡ c * rows + row =
          ap₂ (λ (x y : ℕ). x * y + row) back h.rows_exact in
        let word : (suc c - 1) * b.words + row / 64 ≡ c * w + row / 64 =
          ap₂ (λ (x y : ℕ). x * y + row / 64) back h.words_exact in
        let inside : c * rows + row < length b.values =
          omega (arith, cell_bound rows c 7 row hr hc, h.values_length) in
        let (o, found) = looked value in
        let start : get_or b.values (c * rows + row) 0 ≡ 0 =
          h.value c row hc hr ∙ ap (λ (x : Cell). x.value) none_yet in
        let absent = h.present c row hc hr ∙ ap (λ (x : Cell). x.present) none_yet in
        rw (cell, word, back, found)
          (Returns-bind (store_found-value value o b.values (c * rows + row) found inside start)
            λ values (values_long, here, elsewhere).
              Returns-bind
                (set_plane c row hc hr (not (value =ₜ [])) b.present h.present_length absent)
                λ present (present_long, presents).
                  let no_valid = h.valid c row hc hr ∙ ap (λ (x : Cell). x.valid) none_yet in
                  let no_issue = h.issue c row hc hr ∙ ap (λ (x : Cell). x.issue) none_yet in
                  let values_are =
                    value-set c row hc hr b.values values (symbol_number p value) here elsewhere in
                  elim (Bool-cases (not (value =ₜ []) && is_valid)) [
                    | inl good ↦ rw good (
                        Returns-bind (set_plane c row hc hr true b.valid h.valid_length no_valid)
                          λ valid (valid_long, valids). returns (
                            assemble t b _ values present valid b.semantic_issue_masks h
                                (values_long ∙ h.values_length) present_long valid_long
                                h.masks_length values_are presents valids
                                (λ c' r' hc' hr'.
                                  mask_kept c row hc hr b.semantic_issue_masks no_issue c' r'),
                            keep_records b k values present valid b.semantic_issue_masks,
                          ))
                    | inr bad ↦
                        let in_mask : row < length b.semantic_issue_masks =
                          omega (arith, h.masks_length) in
                        rw (bad, set_bit-set b.semantic_issue_masks row c in_mask)
                          (returns (
                            assemble t b _ values present b.valid _ h
                                (values_long ∙ h.values_length) present_long h.valid_length
                                (length-set b.semantic_issue_masks row _ ∙ h.masks_length)
                                values_are presents
                                (λ c' r' hc' hr'. plane_kept c row hc hr b.valid no_valid c' r')
                                (λ c' r' hc' hr'.
                                  mask-set c row hc hr b.semantic_issue_masks in_mask c' r'),
                            keep_records b k values present b.valid _,
                          ))
                  ])
