-- ===== src/Eval/Builder/Records.antt =====
-- internal/eval/builder.go: the loop over the evidence records, and the references of the requests.
use verifoxx.Base.{
  ℕ, suc, ◌+◌, ◌<◌, ◌≡◌, refl, ◌∙◌, Bool, true, false, Option, none, some, List, [], ◌∷◌, length,
  arith, Bool-cases, inl, inr, ok, store-set, length-set, Returns, returns, Returns-bind,
}
use verifoxx.Base.Text.{Text, ◌=ₜ◌}
use verifoxx.Eval.Batch.{Batch}
use verifoxx.Eval.Builder.Error.{Error}
use verifoxx.Eval.Builder.Columns.{
  store_found, set_evidence_symbol, set_flag, set_evidence, set_records, kind_of, is_conflicting,
  is_stale, is_revoked,
}
use verifoxx.Eval.Builder.Cells.{Fields, Filled, HasRecords, set_bit-set}
use verifoxx.Input.{EvidenceInput}
use verifoxx.Program.{Program, lookup_symbol}

store_found-length :
    (cells : List ℕ) (i : ℕ) (o : Option ℕ)
    → i < length cells
    → Returns (λ cells'. length cells' ≡ length cells) (store_found cells i o)
unfolding store_found
store_found-length cells i none h = returns refl
store_found-length cells i (some n) h = rw (store-set cells i n h) (returns (length-set cells i n))

set_flag-length :
    (raised : Bool) (flags : List ℕ) (i k : ℕ)
    → i < length flags
    → Returns (λ flags'. length flags' ≡ length flags) (set_flag raised flags i k)
unfolding set_flag
set_flag-length false flags i k h = returns refl
set_flag-length true flags i k h = rw (set_bit-set flags i k h) (returns (length-set flags i _))

module _ (p : Program)
    (looked : (value : Text) → (o : Option ℕ) × (lookup_symbol {E = Error} p value ≡ ok o))
    (records : ℕ) where
  set_evidence_symbol-lengths :
      (column present : List ℕ) (i bit : ℕ) (value : Text)
      → i < records
      → length column ≡ records
      → length present ≡ records
      → Returns
          (λ m. (length m.column ≡ records) × (length m.present ≡ records))
          (set_evidence_symbol p column present i bit value)
  unfolding set_evidence_symbol
  set_evidence_symbol-lengths column present i bit value inside long marks =
      let (o, found) = looked value in
      elim (Bool-cases (value =ₜ [])) [
        | inl empty ↦ rw empty (returns (long, marks))
        | inr some_text ↦
            rw (some_text, set_bit-set present i bit (omega arith), found)
              (Returns-bind (store_found-length column i o (omega arith))
                λ stored e. returns (e ∙ long, length-set present i _ ∙ marks))
      ]

  module _ (rows w edges : ℕ) (t : Fields) where
    set_evidence-Shaped :
        (i : ℕ) (e : EvidenceInput) (b : Batch)
        → i < records
        → Filled rows w t b
        → HasRecords rows records edges b
        → Returns
            (λ b'. Filled rows w t b' × HasRecords rows records edges b')
            (set_evidence p i e b)
    unfolding set_evidence
    set_evidence-Shaped i e b inside h k =
        let (o, found) = looked e.kind in
        let mark = λ (column present : List ℕ) (bit : ℕ) (value : Text).
          set_evidence_symbol-lengths column present i bit value inside in
        rw (found) (
          Returns-bind
            (store_found-length b.evidence_kinds i (kind_of p.evidence_kind_symbols o)
              (omega (arith, k.kinds)))
            λ kinds kinds_long.
              Returns-bind (mark b.evidence_status b.evidence_present _ e.status k.status k.present)
                λ m₁ (c₁, p₁).
                  Returns-bind (mark b.evidence_timing m₁.present _ e.timing k.timing p₁)
                    λ m₂ (c₂, p₂).
                      Returns-bind (mark b.evidence_reviewer m₂.present _ e.reviewer k.reviewer p₂)
                        λ m₃ (c₃, p₃).
                          Returns-bind
                            (mark b.evidence_timestamp_state m₃.present _ e.timestamp_state
                              k.timestamp_state p₃)
                            λ m₄ (c₄, p₄).
                              Returns-bind
                                (mark b.evidence_subject m₄.present _ e.subject k.subject p₄)
                                λ m₅ (c₅, p₅).
                                  Returns-bind
                                    (mark b.evidence_attestation_state m₅.present _
                                      e.attestation_state k.attestation_state p₅)
                                    λ m₆ (c₆, p₆).
                                      Returns-bind
                                        (mark b.evidence_scope m₆.present _ e.scope k.scope p₆)
                                        λ m₇ (c₇, p₇).
                                          Returns-bind
                                            (mark b.evidence_adjustment_type m₇.present _
                                              e.adjustment_type k.adjustment_type p₇)
                                            λ m₈ (c₈, p₈).
                                              Returns-bind
                                                (set_flag-length (is_conflicting e) b.evidence_flags
                                                  i _ (omega (arith, k.flags)))
                                                λ f₁ l₁.
                                                  Returns-bind
                                                    (set_flag-length (is_stale e) f₁ i _
                                                      (omega (arith, k.flags, l₁)))
                                                    λ f₂ l₂.
                                                      Returns-bind
                                                        (set_flag-length (is_revoked e) f₂ i _
                                                          (omega (arith, k.flags, l₁, l₂)))
                                                        λ f₃ l₃. returns (
                                                          record {
                                                            rows_exact = h.rows_exact;
                                                            words_exact = h.words_exact;
                                                            values_length = h.values_length;
                                                            present_length = h.present_length;
                                                            valid_length = h.valid_length;
                                                            masks_length = h.masks_length;
                                                            value = h.value;
                                                            present = h.present;
                                                            valid = h.valid;
                                                            issue = h.issue;
                                                          },
                                                          record {
                                                            kinds = kinds_long ∙ k.kinds;
                                                            status = c₁;
                                                            timing = c₂;
                                                            reviewer = c₃;
                                                            timestamp_state = c₄;
                                                            subject = c₅;
                                                            attestation_state = c₆;
                                                            scope = c₇;
                                                            adjustment_type = c₈;
                                                            present = p₈;
                                                            flags = l₃ ∙ l₂ ∙ l₁ ∙ k.flags;
                                                            offsets = k.offsets;
                                                            refs = k.refs;
                                                          },
                                                        ))

    pub set_records-Shaped :
        (i : ℕ) (inputs : List EvidenceInput) (b : Batch)
        → i + length inputs ≡ records
        → Filled rows w t b
        → HasRecords rows records edges b
        → Returns
            (λ b'. Filled rows w t b' × HasRecords rows records edges b')
            (set_records p i inputs b)
    unfolding set_records
    set_records-Shaped i [] b end h k = returns (h, k)
    set_records-Shaped i (e ∷ inputs) b end h k =
        Returns-bind (set_evidence-Shaped i e b (omega arith) h k)
          λ b₁ (h₁, k₁). set_records-Shaped (suc i) inputs b₁ (omega arith) h₁ k₁
