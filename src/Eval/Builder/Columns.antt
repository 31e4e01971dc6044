-- ===== src/Eval/Builder/Columns.antt =====
-- internal/eval/builder.go: the writes of one request's fields and of one evidence record.
use Prim.Native.Nat.{bit_or}
use verifoxx.Base.{
  ℕ, suc, ◌+◌, ◌-◌, ◌*◌, ◌/◌, ◌%◌, ◌^◌, Bool, not, ◌&&◌, ◌||◌, Option, none, some, List, [], ◌∷◌,
  ◌==◌, if◌then◌else◌, Run, ok, nth, store, ◌>>=◌,
}
use verifoxx.Base.Text.{Text, bytes, ◌=ₜ◌}
use verifoxx.Eval.Batch.{
  Batch, present_status, present_timing, present_reviewer, present_timestamp_state, present_subject,
  present_attestation_state, present_scope, present_adjustment_type, flag_conflict, flag_stale,
  flag_revoked,
}
use verifoxx.Eval.Builder.Error.{Error}
use verifoxx.Input.{Request, EvidenceInput}
use verifoxx.Program.{Program, lookup_symbol}
use verifoxx.Schema.{valid_field_value}
use verifoxx.Schema.Field

-- `cells[i] |= 1 << k`
unfoldable pub set_bit : List ℕ → ℕ → ℕ → Run Error (List ℕ)
set_bit cells i k = nth cells i >>= λ cell. store cells i (bit_or cell (2 ^ k))

-- `if symbol, ok := …; ok { cells[i] = symbol }`
unfoldable pub store_found : List ℕ → ℕ → Option ℕ → Run Error (List ℕ)
store_found cells i none = ok cells
store_found cells i (some symbol) = store cells i symbol

unfoldable pub set_request_field : Program → ℕ → ℕ → Text → Bool → Batch → Run Error Batch
set_request_field p row field value is_valid dst = do
  found ← lookup_symbol p value
  values ← store_found dst.values ((field - 1) * dst.rows + row) found
  let word = (field - 1) * dst.words + row / 64
  present ← if not (value =ₜ []) then set_bit dst.present word (row % 64) else ok dst.present
  if not (value =ₜ []) && is_valid
      then (set_bit dst.valid word (row % 64) >>= λ valid.
          ok (record dst { values = values; present = present; valid = valid }))
      else (set_bit dst.semantic_issue_masks row (field - 1) >>= λ masks.
          ok (record dst { values = values; present = present; semantic_issue_masks = masks }))

-- The fields of a request, in the order in which they are set.
abbrev pub request_fields : Request → List (ℕ × Text)
request_fields r =
    (Field.requester, r.requester)
    ∷ (Field.trust_level, r.trust_level)
    ∷ (Field.action, r.action)
    ∷ (Field.output_kind, r.output_kind)
    ∷ (Field.dataset, r.dataset)
    ∷ (Field.environment, r.environment)
    ∷ (Field.usage_limit, r.usage_limit)
    ∷ []

unfoldable pub set_fields : Program → ℕ → List (ℕ × Text) → Batch → Run Error Batch
set_fields p row [] dst = ok dst
set_fields p row ((field, value) ∷ fields) dst =
    set_request_field p row field value (valid_field_value field value) dst
    >>= set_fields p row fields

-- The loop over the requests' fields, from the row `row` on.
unfoldable pub set_rows : Program → ℕ → List Request → Batch → Run Error Batch
set_rows p row [] dst = ok dst
set_rows p row (r ∷ requests) dst =
    set_fields p row (request_fields r) dst >>= set_rows p (suc row) requests

-- The number, from 1, of the first kind with the symbol.
unfoldable pub find_kind : ℕ → ℕ → List ℕ → Option ℕ
find_kind symbol i [] = none
find_kind symbol i (kind ∷ kinds) =
    let rest = find_kind symbol (suc i) kinds in
    if symbol == kind then some ((i + 1) % 2 ^ 16) else rest

abbrev pub kind_of : List ℕ → Option ℕ → Option ℕ
kind_of kinds none = none
kind_of kinds (some symbol) = find_kind symbol 0 kinds

-- What `setEvidenceSymbol` writes: a column and the presence bits.
pub record Marked : Type 0 where
  pub column : List ℕ
  pub present : List ℕ

unfoldable pub set_evidence_symbol : Program → List ℕ → List ℕ → ℕ → ℕ → Text → Run Error Marked
set_evidence_symbol p column present index bit value =
    if value =ₜ []
    then ok (record { column = column; present = present })
    else (set_bit present index bit >>= λ marked. lookup_symbol p value >>= λ found.
        store_found column index found >>= λ stored.
        ok (record { column = stored; present = marked }))

unfoldable pub is_conflicting : EvidenceInput → Bool
is_conflicting e =
    e.status =ₜ bytes "conflicting"
    || e.timestamp_state =ₜ bytes "conflicting"
    || e.reviewer_state =ₜ bytes "one_valid_one_revoked"

unfoldable pub is_stale : EvidenceInput → Bool
is_stale e = e.timestamp_state =ₜ bytes "stale"

unfoldable pub is_revoked : EvidenceInput → Bool
is_revoked e =
    e.status =ₜ bytes "revoked"
    || e.status =ₜ bytes "expired"
    || e.reviewer_state =ₜ bytes "revoked"

unfoldable pub set_flag : Bool → List ℕ → ℕ → ℕ → Run Error (List ℕ)
set_flag raised flags index bit = if raised then set_bit flags index bit else ok flags

unfoldable pub set_evidence : Program → ℕ → EvidenceInput → Batch → Run Error Batch
set_evidence p index e dst = do
  found ← lookup_symbol p e.kind
  kinds ← store_found dst.evidence_kinds index (kind_of p.evidence_kind_symbols found)
  status ←
      set_evidence_symbol p dst.evidence_status dst.evidence_present index present_status e.status
  timing ← set_evidence_symbol p dst.evidence_timing status.present index present_timing e.timing
  reviewer ←
      set_evidence_symbol p dst.evidence_reviewer timing.present index present_reviewer e.reviewer
  timestamp ←
      set_evidence_symbol p dst.evidence_timestamp_state reviewer.present index
        present_timestamp_state e.timestamp_state
  subject ←
      set_evidence_symbol p dst.evidence_subject timestamp.present index present_subject e.subject
  attestation ←
      set_evidence_symbol p dst.evidence_attestation_state subject.present index
        present_attestation_state e.attestation_state
  scope ← set_evidence_symbol p dst.evidence_scope attestation.present index present_scope e.scope
  adjustment ←
      set_evidence_symbol p dst.evidence_adjustment_type scope.present index present_adjustment_type
        e.adjustment_type
  conflict ← set_flag (is_conflicting e) dst.evidence_flags index flag_conflict
  stale ← set_flag (is_stale e) conflict index flag_stale
  revoked ← set_flag (is_revoked e) stale index flag_revoked
  ok (record dst {
    evidence_kinds = kinds;
    evidence_status = status.column;
    evidence_timing = timing.column;
    evidence_reviewer = reviewer.column;
    evidence_timestamp_state = timestamp.column;
    evidence_subject = subject.column;
    evidence_attestation_state = attestation.column;
    evidence_scope = scope.column;
    evidence_adjustment_type = adjustment.column;
    evidence_present = adjustment.present;
    evidence_flags = revoked;
  })

-- The loop over the evidence records, from the `index`-th on.
unfoldable pub set_records : Program → ℕ → List EvidenceInput → Batch → Run Error Batch
set_records p index [] dst = ok dst
set_records p index (e ∷ records) dst =
    set_evidence p index e dst >>= set_records p (suc index) records
