-- ===== src/Eval/Batch.antt =====
-- internal/eval/batch.go: the columnar requests and evidence. A field's column or plane is the part
-- of its storage that belongs to the field; `nil` is the empty list.
use verifoxx.Base.{
  ℕ, ◌+◌, ◌-◌, ◌*◌, not, ◌||◌, List, [], length, take, drop, ltb, leb, ◌==◌, if◌then◌else◌,
}
use verifoxx.Schema.{is_valid_id}
use verifoxx.Schema.Field

pub record Batch : Type 0 where
  pub rows : ℕ
  pub words : ℕ
  pub values : List ℕ
  pub present : List ℕ
  pub valid : List ℕ
  pub semantic_issue_masks : List ℕ
  pub evidence_kinds : List ℕ
  pub evidence_status : List ℕ
  pub evidence_timing : List ℕ
  pub evidence_reviewer : List ℕ
  pub evidence_timestamp_state : List ℕ
  pub evidence_subject : List ℕ
  pub evidence_attestation_state : List ℕ
  pub evidence_scope : List ℕ
  pub evidence_adjustment_type : List ℕ
  pub evidence_present : List ℕ
  pub evidence_flags : List ℕ
  pub evidence_ref_offsets : List ℕ
  pub evidence_refs : List ℕ

-- `EvidencePresent…` and `EvidenceFlag…`, the bit numbers.
abbrev pub present_status : ℕ
present_status = 0

abbrev pub present_timing : ℕ
present_timing = 1

abbrev pub present_reviewer : ℕ
present_reviewer = 2

abbrev pub present_timestamp_state : ℕ
present_timestamp_state = 3

abbrev pub present_subject : ℕ
present_subject = 4

abbrev pub present_attestation_state : ℕ
present_attestation_state = 5

abbrev pub present_scope : ℕ
present_scope = 6

abbrev pub present_adjustment_type : ℕ
present_adjustment_type = 7

abbrev pub flag_conflict : ℕ
flag_conflict = 0

abbrev pub flag_stale : ℕ
flag_stale = 1

abbrev pub flag_revoked : ℕ
flag_revoked = 2

-- The `size` cells of `storage` that belong to `field`, or nil.
unfoldable pub field_part : List ℕ → ℕ → ℕ → List ℕ
field_part storage size field =
    if not (is_valid_id field) || leb Field.count field || size == 0
    then []
    else let start = (field - 1) * size in
      let end = start + size in
      if ltb (length storage) end then [] else take (end - start) (drop start storage)

unfoldable pub field_values : Batch → ℕ → List ℕ
unfolding field_part
field_values b field = field_part b.values b.rows field

unfoldable pub field_present : Batch → ℕ → List ℕ
unfolding field_part
field_present b field = field_part b.present b.words field

unfoldable pub field_valid : Batch → ℕ → List ℕ
unfolding field_part
field_valid b field = field_part b.valid b.words field
