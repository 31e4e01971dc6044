-- ===== src/Eval/Builder.antt =====
-- internal/eval/builder.go: requests and evidence records put into columns. The builder's maps are
-- cleared before use, so they are values here: a list of the identifiers seen, and an association
-- list of the evidence records' numbers. A batch is a value, so there is no nil destination.
pub mod Error
pub mod Columns
pub mod Cells
pub mod Rows
pub mod Records
pub mod References
pub mod Inputs
pub mod Correct
use verifoxx.Base.{
  ℕ, zero, suc, ◌+◌, ◌-◌, ◌*◌, ◌/◌, ◌^◌, Bool, true, false, ◌||◌, Option, none, some, List, [], ◌∷◌,
  length, ltb, if◌then◌else◌, Run, ok, err, store, reject_if, ◌>>=◌, ◌>>◌,
}
use verifoxx.Base.Text.{Text, is_member, ◌=ₜ◌, is_malformed}
use verifoxx.Eval.Batch.{Batch}
use verifoxx.Eval.Context.{u32, resize_clear}
use verifoxx.Input.{Request, EvidenceInput}
use verifoxx.Program.{Program}
use verifoxx.Schema.Field
use Columns.{set_rows, set_records}

pub record Limits : Type 0 where
  pub max_rows : ℕ
  pub max_evidence : ℕ
  pub max_edges : ℕ

abbrev pub default_limits : Limits
default_limits = record { max_rows = 2 ^ 20; max_evidence = 2 ^ 20; max_edges = 2 ^ 22 }

pub record Builder : Type 0 where
  pub program : Option Program
  pub limits : Limits

-- `evidenceByID[ref]`, 0 on a missing key.
unfoldable pub record_number : Text → List (Text × ℕ) → ℕ
record_number ref [] = 0
record_number ref ((id, number) ∷ ids) =
    let rest = record_number ref ids in if ref =ₜ id then number else rest

unfoldable pub has_record : Text → List (Text × ℕ) → Bool
has_record ref [] = false
has_record ref ((id, number) ∷ ids) = ref =ₜ id || has_record ref ids

unfoldable pub check_references : ℕ → ℕ → List Text → Run Error.Error (Unit {0})
check_references i j [] = ok tt
check_references i j (ref ∷ refs) =
    reject_if (is_malformed ref) (Error.malformed_reference i j) >> check_references i (suc j) refs

-- The loop over the requests; the state is the identifiers seen and the edges counted.
unfoldable pub check_requests : ℕ → ℕ → List Request → List Text → ℕ → Run Error.Error ℕ
check_requests max_edges i [] seen edges = ok edges
check_requests max_edges i (r ∷ requests) seen edges = do
  _ ← reject_if (is_malformed r.id) (Error.malformed_request i)
  _ ← reject_if (is_member r.id seen) (Error.duplicate_request i)
  _ ← reject_if (ltb max_edges (edges + length r.evidence_ids)) Error.too_many_edges
  _ ← check_references i 0 r.evidence_ids
  check_requests max_edges (suc i) requests (r.id ∷ seen) (edges + length r.evidence_ids)

-- The loop over the evidence records; the state is `evidenceByID`.
unfoldable pub check_records :
    ℕ → List EvidenceInput → List (Text × ℕ) → Run Error.Error (List (Text × ℕ))
check_records i [] ids = ok ids
check_records i (e ∷ records) ids = do
  _ ← reject_if (is_malformed e.id) (Error.malformed_evidence i)
  _ ← reject_if (has_record e.id ids) (Error.duplicate_evidence i)
  check_records (suc i) records ((e.id, u32 (i + 1)) ∷ ids)

-- The columns of a batch before it is filled.
unfoldable pub cleared_batch : ℕ → ℕ → ℕ → ℕ → Batch
cleared_batch rows words records edges = record {
  rows = u32 rows;
  words = u32 words;
  values = resize_clear ((Field.count - 1) * rows);
  present = resize_clear ((Field.count - 1) * words);
  valid = resize_clear ((Field.count - 1) * words);
  semantic_issue_masks = resize_clear rows;
  evidence_kinds = resize_clear records;
  evidence_status = resize_clear records;
  evidence_timing = resize_clear records;
  evidence_reviewer = resize_clear records;
  evidence_timestamp_state = resize_clear records;
  evidence_subject = resize_clear records;
  evidence_attestation_state = resize_clear records;
  evidence_scope = resize_clear records;
  evidence_adjustment_type = resize_clear records;
  evidence_present = resize_clear records;
  evidence_flags = resize_clear records;
  evidence_ref_offsets = resize_clear (rows + 1);
  evidence_refs = resize_clear edges;
}

-- The references of a request, from the edge `edge` on.
unfoldable pub place_refs : List (Text × ℕ) → ℕ → List Text → List ℕ → Run Error.Error (List ℕ)
place_refs ids edge [] cells = ok cells
place_refs ids edge (ref ∷ refs) cells =
    store cells edge (record_number ref ids) >>= place_refs ids (suc edge) refs

-- The offsets and the references of the requests, from the row `row` on, and the last offset.
unfoldable pub place_rows : List (Text × ℕ) → ℕ → ℕ → List Request → Batch → Run Error.Error Batch
place_rows ids row edge [] dst = do
  offsets ← store dst.evidence_ref_offsets row (u32 edge)
  ok (record dst { evidence_ref_offsets = offsets })
place_rows ids row edge (r ∷ requests) dst = do
  offsets ← store dst.evidence_ref_offsets row (u32 edge)
  refs ← place_refs ids edge r.evidence_ids dst.evidence_refs
  place_rows ids (suc row) (edge + length r.evidence_ids) requests
      (record dst { evidence_ref_offsets = offsets; evidence_refs = refs })

-- The largest `int`.
abbrev pub max_int : ℕ
max_int = 2 ^ 63 - 1

-- `BuildInto` after the checks of the inputs.
unfoldable pub fill_batch :
    Program → List Request → List EvidenceInput → List (Text × ℕ) → ℕ → Run Error.Error Batch
fill_batch p requests records ids edges = do
  let rows = length requests
  let words = (rows + 63) / 64
  _ ←
      reject_if (ltb max_int ((Field.count - 1) * rows) || ltb max_int ((Field.count - 1) * words))
        Error.dimensions
  fields ← set_rows p 0 requests (cleared_batch rows words (length records) edges)
  filled ← set_records p 0 records fields
  place_rows ids 0 0 requests filled

unfoldable pub build_checked :
    Program → Limits → List Request → List EvidenceInput → Run Error.Error Batch
build_checked p limits requests records = do
  _ ← reject_if (ltb limits.max_rows (length requests)) Error.too_many_rows
  _ ← reject_if (ltb limits.max_evidence (length records)) Error.too_many_records
  edges ← check_requests limits.max_edges 0 requests [] 0
  ids ← check_records 0 records []
  fill_batch p requests records ids edges

unfoldable pub build_into : Builder → List Request → List EvidenceInput → Run Error.Error Batch
build_into builder requests records = elim builder.program [
  | none ↦ err Error.no_program
  | some p ↦ build_checked p builder.limits requests records
]
