-- ===== src/Eval/Evidence.antt =====
-- internal/eval/evidence.go: the shape check of the evidence columns, and the reduction of the
-- evidence that a row refers to.
use verifoxx.Base.{
  ℕ, ◌+◌, ◌-◌, Bool, true, false, not, ◌||◌, List, [], ◌∷◌, length, ltb, ◌==◌, if◌then◌else◌, Run,
  ok, err, ◌>>=◌, ◌>>◌, reject_if, nth, for_range,
}
use verifoxx.Base.Bits.{has_bit}
use verifoxx.Schema.Reason
use verifoxx.Program.{Program, EvidenceSpec}
use verifoxx.Eval.Error.{
  Error, evidence_column_length, offsets_length, offset_not_monotonic, final_offset, ref_too_large,
}
use verifoxx.Eval.Batch.{
  Batch, present_status, present_timing, present_reviewer, present_timestamp_state, present_subject,
  present_attestation_state, present_scope, present_adjustment_type, flag_conflict, flag_stale,
  flag_revoked,
}
use verifoxx.Eval.Context.{
  Context, Plane, u32, positive_plane, negative_plane, set_positive, set_negative, set_reason,
}

unfoldable pub check_lengths : ℕ → List ℕ → Run Error (Unit {0})
check_lengths n [] = ok tt
check_lengths n (len ∷ lens) =
    if not (len == n) then err evidence_column_length else check_lengths n lens

unfoldable pub check_offsets : ℕ → ℕ → List ℕ → Run Error ℕ
check_offsets edges previous [] = ok previous
check_offsets edges previous (offset ∷ offsets) =
    if ltb offset previous || ltb edges offset
    then err offset_not_monotonic
    else check_offsets edges offset offsets

unfoldable pub check_refs : ℕ → List ℕ → Run Error (Unit {0})
check_refs count [] = ok tt
check_refs count (ref ∷ refs) = if ltb count ref then err ref_too_large else check_refs count refs

abbrev pub column_lengths : Batch → List ℕ
column_lengths batch =
    length batch.evidence_status
    ∷ length batch.evidence_timing
    ∷ length batch.evidence_reviewer
    ∷ length batch.evidence_timestamp_state
    ∷ length batch.evidence_subject
    ∷ length batch.evidence_attestation_state
    ∷ length batch.evidence_scope
    ∷ length batch.evidence_adjustment_type
    ∷ length batch.evidence_present
    ∷ length batch.evidence_flags
    ∷ []

unfoldable pub validate_evidence_batch : Batch → Run Error (Unit {0})
validate_evidence_batch batch = do
  let count = length batch.evidence_kinds
  check_lengths count (column_lengths batch)
  reject_if (not (length batch.evidence_ref_offsets == batch.rows + 1)) offsets_length
  previous ← check_offsets (length batch.evidence_refs) 0 batch.evidence_ref_offsets
  reject_if (not (previous == u32 (length batch.evidence_refs))) final_offset
  check_refs count batch.evidence_refs

pub data QualifierResult : Type 0 where
  satisfied unclear wrong : QualifierResult

-- Whether the qualifier mismatches, and the new value of `*unclear`.
unfoldable pub qualifier_mismatch : ℕ → Bool → ℕ → Bool → Bool × Bool
qualifier_mismatch have present want is_unclear =
    if want == 0
    then (false, is_unclear)
    else if not present
    then (false, true)
    else (not (have == want), is_unclear)

-- A qualifier: its column, its bit of `EvidencePresent`, and what the spec wants.
abbrev pub Qualifier : Type 0
Qualifier = List ℕ × ℕ × ℕ

abbrev pub qualifiers : Batch → EvidenceSpec → List Qualifier
qualifiers batch spec =
    (batch.evidence_status, present_status, spec.status)
    ∷ (batch.evidence_timing, present_timing, spec.timing)
    ∷ (batch.evidence_reviewer, present_reviewer, spec.reviewer)
    ∷ (batch.evidence_timestamp_state, present_timestamp_state, spec.timestamp_state)
    ∷ (batch.evidence_subject, present_subject, spec.subject)
    ∷ (batch.evidence_attestation_state, present_attestation_state, spec.attestation_state)
    ∷ (batch.evidence_scope, present_scope, spec.scope)
    ∷ (batch.evidence_adjustment_type, present_adjustment_type, spec.adjustment_type)
    ∷ []

-- The `||` chain: it stops at the first mismatch.
unfoldable pub classify_from : List ℕ → ℕ → Bool → List Qualifier → Run Error QualifierResult
unfolding qualifier_mismatch
classify_from present index is_unclear [] =
    ok (if is_unclear then QualifierResult.unclear else satisfied)
classify_from present index is_unclear ((column, bit, want) ∷ rest) = do
  have ← nth column index
  bits ← nth present index
  let (mismatch, now_unclear) = qualifier_mismatch have (has_bit bits bit) want is_unclear
  if mismatch then ok wrong else classify_from present index now_unclear rest

unfoldable pub classify_evidence_qualifiers : Batch → ℕ → EvidenceSpec → Run Error QualifierResult
unfolding classify_from
classify_evidence_qualifiers batch index spec =
    classify_from batch.evidence_present index false (qualifiers batch spec)

-- The six flags of the loop over a row's evidence.
pub record Seen : Type 0 where
  pub conflict : Bool
  pub stale : Bool
  pub revoked : Bool
  pub unclear : Bool
  pub satisfied : Bool
  pub wrong : Bool

abbrev pub nothing_seen : Seen
nothing_seen = record {
  conflict = false;
  stale = false;
  revoked = false;
  unclear = false;
  satisfied = false;
  wrong = false;
}

abbrev pub see_qualifiers : Seen → QualifierResult → Seen
see_qualifiers seen satisfied = record seen { satisfied = true }
see_qualifiers seen unclear = record seen { unclear = true }
see_qualifiers seen wrong = record seen { wrong = true }

unfoldable pub see_edge : Batch → EvidenceSpec → ℕ → Seen → Run Error Seen
unfolding classify_evidence_qualifiers
see_edge batch spec edge seen = do
  ref ← nth batch.evidence_refs edge
  if ref == 0 then ok seen else do
    kind ← nth batch.evidence_kinds (ref - 1)
    if not (kind == spec.kind) then ok seen else do
      flags ← nth batch.evidence_flags (ref - 1)
      if has_bit flags flag_conflict
          then ok (record seen { conflict = true })
          else if has_bit flags flag_stale
          then ok (record seen { stale = true })
          else if has_bit flags flag_revoked
          then ok (record seen { revoked = true })
          else (classify_evidence_qualifiers batch (ref - 1) spec >>= λ result.
              ok (see_qualifiers seen result))

-- The final `switch`: the reason and the planes that it sets.
unfoldable pub reduce_seen : Context → Plane → Plane → ℕ → Seen → Run Error (ℕ × Context)
unfolding set_positive set_negative
reduce_seen context positive negative row seen =
    if seen.conflict
    then (set_positive context positive row >>= λ c.
        set_negative c negative row >>= λ c'. ok (Reason.conflict, c'))
    else if seen.stale
    then ok (Reason.stale, context)
    else if seen.revoked
    then ok (Reason.invalid_evidence, context)
    else if seen.unclear
    then ok (Reason.unclear, context)
    else if seen.satisfied
    then (set_positive context positive row >>= λ c. ok (Reason.satisfied, c))
    else if seen.wrong
    then ok (Reason.invalid_evidence, context)
    else ok (Reason.missing, context)

unfoldable pub evidence_row :
    Batch → EvidenceSpec → Plane → Plane → ℕ → ℕ → Context → Run Error Context
unfolding see_edge reduce_seen set_reason
evidence_row batch spec positive negative instruction row context = do
  start ← nth batch.evidence_ref_offsets row
  end ← nth batch.evidence_ref_offsets (row + 1)
  seen ← for_range (end - start) start (see_edge batch spec) nothing_seen
  (reason, context') ← reduce_seen context positive negative row seen
  set_reason context' reason instruction row

unfoldable pub evaluate_evidence : Program → Batch → ℕ → ℕ → Context → Run Error Context
unfolding evidence_row
evaluate_evidence compiled batch instruction index context = do
  spec_index ← nth compiled.evidence_spec_indexes index
  -- An index of 0 reads `EvidenceSpecs[-1]`.
  spec ← if spec_index == 0 then Run.panic else nth compiled.evidence_specs (spec_index - 1)
  positive ← positive_plane context instruction
  negative ← negative_plane context instruction
  for_range batch.rows 0 (evidence_row batch spec positive negative instruction) context
