-- ===== src/Eval/Shape.antt =====
-- The shape of a batch of `rows` rows over `w` words, as `EvaluateInstructions` checks it.
use verifoxx.Base.{ℕ, ◌+◌, ◌*◌, ◌≤◌, ◌<◌, ◌≡◌, length, get_or}
use verifoxx.Eval.Batch.{Batch}

pub record HasColumns (w : ℕ) (batch : Batch) : Type 0 where
  pub words : batch.words ≡ w
  pub values_length : length batch.values ≡ 7 * batch.rows
  pub present_length : length batch.present ≡ 7 * w
  pub valid_length : length batch.valid ≡ 7 * w
  pub masks_length : length batch.semantic_issue_masks ≡ batch.rows

-- The evidence columns are parallel, the row offsets rise to the number of edges, and every
-- reference is 0 (missing) or a record's number.
pub record HasEvidence (batch : Batch) : Type 0 where
  pub status_length : length batch.evidence_status ≡ length batch.evidence_kinds
  pub timing_length : length batch.evidence_timing ≡ length batch.evidence_kinds
  pub reviewer_length : length batch.evidence_reviewer ≡ length batch.evidence_kinds
  pub timestamp_state_length : length batch.evidence_timestamp_state ≡ length batch.evidence_kinds
  pub subject_length : length batch.evidence_subject ≡ length batch.evidence_kinds
  pub attestation_state_length :
      length batch.evidence_attestation_state ≡ length batch.evidence_kinds
  pub scope_length : length batch.evidence_scope ≡ length batch.evidence_kinds
  pub adjustment_type_length : length batch.evidence_adjustment_type ≡ length batch.evidence_kinds
  pub present_length : length batch.evidence_present ≡ length batch.evidence_kinds
  pub flags_length : length batch.evidence_flags ≡ length batch.evidence_kinds
  pub offsets_length : length batch.evidence_ref_offsets ≡ batch.rows + 1
  pub offsets_rise :
      (r : ℕ)
      → r < batch.rows
      → get_or batch.evidence_ref_offsets r 0 ≤ get_or batch.evidence_ref_offsets (r + 1) 0
  pub offsets_end :
      (r : ℕ) → r ≤ batch.rows → get_or batch.evidence_ref_offsets r 0 ≤ length batch.evidence_refs
  pub offsets_last : get_or batch.evidence_ref_offsets batch.rows 0 ≡ length batch.evidence_refs
  pub refs_known :
      (e : ℕ)
      → e < length batch.evidence_refs
      → get_or batch.evidence_refs e 0 ≤ length batch.evidence_kinds
