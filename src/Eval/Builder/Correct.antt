-- ===== src/Eval/Builder/Correct.antt =====
-- internal/eval/builder.go: the batch that `BuildInto` builds, beside its inputs.
use mathlib.Core.Path.{subst}
use native.Mathlib.Nat.{mod-eq_of_lt}
use verifoxx.Base.{
  ℕ, zero, suc, ◌+◌, ◌-◌, ◌*◌, ◌/◌, ◌%◌, ◌^◌, ◌≤◌, ◌<◌, ◌≡◌, refl, sym, ap, ◌∙◌, false, ◌||◌, some,
  List, [], ◌∷◌, length, replicate, get_or, length-append, length-replicate, get_or-replicate, ltb,
  ltb→le, le→ltb, ◌==◌, if◌then◌else◌, arith, Settles, Settles-bind, Settles-mono, Settles-check,
  Returns-Settles, Returns-bind, Returns-mono,
}
use verifoxx.Base.Bits.{has_bit, has_bit-zero}
use verifoxx.Base.Text.{Text}
use verifoxx.Eval.Batch.{Batch}
use verifoxx.Eval.Builder.{
  Limits, cleared_batch, fill_batch, build_checked, build_into, max_int, record_number,
}
use verifoxx.Eval.Builder.Cells.{Fields, blank, Filled, HasRecords}
use verifoxx.Eval.Builder.Inputs.{
  number_from, number_from-bound, Numbered, check_records-Settles, check_requests-Settles,
}
use verifoxx.Eval.Builder.Records.{set_records-Shaped}
use verifoxx.Eval.Builder.References.{all_refs, refs_before, Placed, place_rows-Placed}
use verifoxx.Eval.Builder.Rows.{Filled-congr, request_table, set_rows-Filled}
use verifoxx.Eval.Planes.{bit}
use verifoxx.Eval.Shape.{HasColumns, HasEvidence}
use verifoxx.Input.{Request, EvidenceInput}
use verifoxx.Program.{Program}
use verifoxx.Program.Lookup.{looked_up}
use verifoxx.Schema.Field

refs_before-rise :
    (requests : List Request) (r : ℕ) → refs_before requests r ≤ refs_before requests (suc r)
refs_before-rise [] zero = omega arith
refs_before-rise [] (suc r) = omega arith
refs_before-rise (q ∷ requests) zero = omega arith
refs_before-rise (q ∷ requests) (suc r) = omega (arith, refs_before-rise requests r)

refs_before-bound :
    (requests : List Request) (r : ℕ) → refs_before requests r ≤ length (all_refs requests)
refs_before-bound requests zero = omega arith
refs_before-bound [] (suc r) = omega arith
refs_before-bound (q ∷ requests) (suc r) =
    omega (arith, refs_before-bound requests r, length-append q.evidence_ids (all_refs requests))

refs_before-all :
    (requests : List Request) → refs_before requests (length requests) ≡ length (all_refs requests)
refs_before-all [] = refl
refs_before-all (q ∷ requests) =
    omega (arith, refs_before-all requests, length-append q.evidence_ids (all_refs requests))

bit-clear : (w n c r : ℕ) → bit w (replicate n 0) c r ≡ false
unfolding bit
bit-clear w n c r =
    ap (λ (m : ℕ). has_bit m (r % 64)) (get_or-replicate n (c * w + r / 64) 0)
    ∙ has_bit-zero (r % 64)

-- The cleared columns show the empty table.
cleared_batch-Filled :
    (rows words records edges : ℕ)
    → rows < 2 ^ 32
    → words < 2 ^ 32
    → Filled rows words (λ c r. blank) (cleared_batch rows words records edges)
unfolding cleared_batch
cleared_batch-Filled rows words records edges few narrow = record {
  rows_exact = mod-eq_of_lt few;
  words_exact = mod-eq_of_lt narrow;
  values_length = length-replicate _ 0;
  present_length = length-replicate _ 0;
  valid_length = length-replicate _ 0;
  masks_length = length-replicate _ 0;
  value = λ c r hc hr. get_or-replicate (7 * rows) (c * rows + r) 0;
  present = λ c r hc hr. bit-clear words _ c r;
  valid = λ c r hc hr. bit-clear words _ c r;
  issue = λ c r hc hr. ap (λ (m : ℕ). has_bit m c) (get_or-replicate rows r 0) ∙ has_bit-zero c;
}

cleared_batch-HasRecords :
    (rows words records edges : ℕ)
    → HasRecords rows records edges (cleared_batch rows words records edges)
unfolding cleared_batch
cleared_batch-HasRecords rows words records edges = record {
  kinds = length-replicate _ 0;
  status = length-replicate _ 0;
  timing = length-replicate _ 0;
  reviewer = length-replicate _ 0;
  timestamp_state = length-replicate _ 0;
  subject = length-replicate _ 0;
  attestation_state = length-replicate _ 0;
  scope = length-replicate _ 0;
  adjustment_type = length-replicate _ 0;
  present = length-replicate _ 0;
  flags = length-replicate _ 0;
  offsets = length-replicate _ 0;
  refs = length-replicate _ 0;
}

-- The words of a plane of a batch's rows.
abbrev pub plane_words : List Request → ℕ
plane_words requests = (length requests + 63) / 64

-- The batch of the requests and the records: its columns have their shape, the cells show the
-- requests' fields, and the references of the requests stand one after another, each with the
-- number of its record.
pub record Built (p : Program) (requests : List Request) (records : List EvidenceInput) (b : Batch)
    : Type 0 where
  pub cells : Filled (length requests) (plane_words requests) (request_table p requests) b
  pub columns : HasColumns (plane_words requests) b
  pub evidence : HasEvidence b
  pub offset :
      (r : ℕ) → r ≤ length requests → get_or b.evidence_ref_offsets r 0 ≡ refs_before requests r
  pub refs_length : length b.evidence_refs ≡ length (all_refs requests)
  pub ref :
      (e : ℕ)
      → e < length (all_refs requests)
      → get_or b.evidence_refs e 0 ≡ number_from 0 (get_or (all_refs requests) e []) records

plus_zero : (r : ℕ) → r ≡ 0 + r
plus_zero r = omega arith

minus_zero : (e : ℕ) → e - 0 ≡ e
minus_zero e = omega arith

from_start : (t : Fields) (c r : ℕ) → (if ltb r 0 then blank else t c (r - 0)) ≡ t c r
from_start t c r = let low : 0 ≤ r = omega arith in rw (le→ltb r 0 low, minus_zero r) refl

zero_else : (n : ℕ) → (if n == 0 then 0 else n) ≡ n
zero_else n = ground arith

module _ (p : Program) (requests : List Request) (records : List EvidenceInput)
    (ids : List (Text × ℕ)) (numbered : Numbered 0 records [] ids) where
  number_exact : (ref : Text) → record_number ref ids ≡ number_from 0 ref records
  unfolding record_number
  number_exact ref = numbered.number ref ∙ zero_else (number_from 0 ref records)

  built :
      (b₀ b : Batch)
      → Filled (length requests) (plane_words requests) (request_table p requests) b
      → HasRecords (length requests) (length records) (length (all_refs requests)) b
      → Placed ids 0 0 requests b₀ b
      → Built p requests records b
  built b₀ b h k placed =
      let total = length (all_refs requests) in
      let offset : (r : ℕ)
          → r ≤ length requests
          → get_or b.evidence_ref_offsets r 0 ≡ refs_before requests r =
        λ r below.
          ap (λ (x : ℕ). get_or b.evidence_ref_offsets x 0) (plus_zero r)
          ∙ placed.offsets r below
          ∙ (omega arith) in
      let ref : (e : ℕ)
          → e < total
          → get_or b.evidence_refs e 0 ≡ number_from 0 (get_or (all_refs requests) e []) records =
        λ e inside.
          placed.refs e (omega arith) (omega arith)
          ∙ number_exact _
          ∙ ap (λ (x : ℕ). number_from 0 (get_or (all_refs requests) x []) records)
              (minus_zero e) in
      record {
        cells = h;
        columns = record {
          words = h.words_exact;
          values_length = h.values_length ∙ ap (λ (x : ℕ). 7 * x) (sym h.rows_exact);
          present_length = h.present_length;
          valid_length = h.valid_length;
          masks_length = h.masks_length ∙ sym h.rows_exact;
        };
        evidence = record {
          status_length = k.status ∙ sym k.kinds;
          timing_length = k.timing ∙ sym k.kinds;
          reviewer_length = k.reviewer ∙ sym k.kinds;
          timestamp_state_length = k.timestamp_state ∙ sym k.kinds;
          subject_length = k.subject ∙ sym k.kinds;
          attestation_state_length = k.attestation_state ∙ sym k.kinds;
          scope_length = k.scope ∙ sym k.kinds;
          adjustment_type_length = k.adjustment_type ∙ sym k.kinds;
          present_length = k.present ∙ sym k.kinds;
          flags_length = k.flags ∙ sym k.kinds;
          offsets_length = k.offsets ∙ ap (λ (x : ℕ). x + 1) (sym h.rows_exact);
          offsets_rise = λ r inside.
              let below : suc r ≤ length requests = omega (arith, h.rows_exact) in
              let next : r + 1 ≡ suc r = omega arith in
              omega (
                arith,
                offset r (omega arith),
                offset (suc r) below,
                refs_before-rise requests r,
                ap (λ (x : ℕ). get_or b.evidence_ref_offsets x 0) next,
              );
          offsets_end = λ r inside.
              let below : r ≤ length requests = omega (arith, h.rows_exact) in
              omega (arith, offset r below, refs_before-bound requests r, k.refs);
          offsets_last =
              ap (λ (x : ℕ). get_or b.evidence_ref_offsets x 0) h.rows_exact
              ∙ offset (length requests) (omega arith)
              ∙ refs_before-all requests
              ∙ sym k.refs;
          refs_known = λ e inside.
              let inside' : e < total = omega (arith, k.refs) in
              omega (
                arith,
                ref e inside',
                k.kinds,
                number_from-bound 0 (get_or (all_refs requests) e []) records,
              );
        };
        offset = offset;
        refs_length = k.refs;
        ref = ref;
      }

module _ (p : Program) (same : length p.symbol_starts ≡ length p.symbol_lengths)
    (requests : List Request) (records : List EvidenceInput) (ids : List (Text × ℕ))
    (few : length requests < 2 ^ 32) (few_refs : length (all_refs requests) < 2 ^ 32)
    (numbered : Numbered 0 records [] ids) where
  fill_batch-Built :
      Settles
        (Built p requests records)
        (fill_batch p requests records ids (length (all_refs requests)))
  unfolding fill_batch
  fill_batch-Built =
      let rows = length requests in
      let words = plane_words requests in
      let total = length (all_refs requests) in
      let wide : rows ≤ words * 64 = omega arith in
      let narrow : words < 2 ^ 32 = omega arith in
      Settles-check
        (ltb max_int ((Field.count - 1) * rows) || ltb max_int ((Field.count - 1) * words)) _ _
        λ fits. Returns-Settles (
          Returns-bind
            (set_rows-Filled p (looked_up p same) rows words wide (length records) total 0 requests
              (λ c r. blank) (cleared_batch rows words (length records) total) (omega arith)
              (λ c r low. refl) (cleared_batch-Filled rows words (length records) total few narrow)
              (cleared_batch-HasRecords rows words (length records) total))
            λ b₁ (h₁, k₁).
              Returns-bind
                (set_records-Shaped p (looked_up p same) (length records) rows words total
                  (request_table p requests) 0 records b₁ (omega arith)
                  (Filled-congr _ _ (λ c r hc hr. from_start (request_table p requests) c r) h₁) k₁)
                λ b₂ (h₂, k₂).
                  Returns-mono
                    (place_rows-Placed ids rows words (length records) total
                      (request_table p requests) few_refs 0 0 requests b₂ (omega arith)
                      (omega arith) h₂ k₂)
                    λ b₃ (h₃, k₃, placed). built p requests records ids numbered b₂ b₃ h₃ k₃ placed)

-- The limits are numbers of 32 bits.
abbrev pub Fits32 : Limits → Type 0
Fits32 limits =
    (limits.max_rows < 2 ^ 32) × (limits.max_evidence < 2 ^ 32) × (limits.max_edges < 2 ^ 32)

-- The numbers of rows, evidence records and edges are within the limits.
abbrev pub Within : Limits → List Request → List EvidenceInput → Type 0
Within limits requests records =
    (length requests ≤ limits.max_rows)
    × (length records ≤ limits.max_evidence)
    × (length (all_refs requests) ≤ limits.max_edges)

-- With limits of 32 bits and a program whose symbol columns have one length, BuildInto never
-- panics: it returns an error, or a batch of inputs that are within the limits. The batch has the column lengths, the rising offsets and
-- the known references that the evaluator's own checks ask for; at every field and row it shows the
-- symbol number of the request's value (0 if the program has no such symbol), the present, valid
-- and issue marks; and its edges are the requests' evidence references in order, each the number of
-- the evidence record with that identifier, 0 if there is none.
pub build_into-Built :
    (p : Program) (limits : Limits) (requests : List Request) (records : List EvidenceInput)
    → length p.symbol_starts ≡ length p.symbol_lengths
    → Fits32 limits
    → Settles
        (λ b. Within limits requests records × Built p requests records b)
        (build_into (record { program = some p; limits = limits }) requests records)
unfolding build_into build_checked
build_into-Built p limits requests records same (fit_rows, fit_records, fit_edges) =
    Settles-check (ltb limits.max_rows (length requests)) _ _ λ few_rows.
      Settles-check (ltb limits.max_evidence (length records)) _ _ λ few_records.
        let rows_32 : length requests < 2 ^ 32 =
          omega (arith, ltb→le limits.max_rows (length requests) few_rows) in
        let records_32 : 0 + length records < 2 ^ 32 =
          omega (arith, ltb→le limits.max_evidence (length records) few_records) in
        Settles-bind (check_requests-Settles limits.max_edges 0 requests [] 0 (omega arith))
          λ edges (total, few_edges).
            Settles-bind (check_records-Settles 0 records [] records_32) λ ids numbered.
              let total' : edges ≡ length (all_refs requests) = omega arith in
              let edges_32 : length (all_refs requests) < 2 ^ 32 = omega arith in
              let within : Within limits requests records = (
                ltb→le limits.max_rows (length requests) few_rows,
                ltb→le limits.max_evidence (length records) few_records,
                omega arith,
              ) in
              subst
                (λ (n : ℕ).
                  Settles (λ b. Within limits requests records × Built p requests records b)
                    (fill_batch p requests records ids n))
                (sym total')
                (Settles-mono
                  (fill_batch-Built p same requests records ids rows_32 edges_32 numbered)
                  λ b h. (within, h))
