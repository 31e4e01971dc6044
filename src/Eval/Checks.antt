-- ===== src/Eval/Checks.antt =====
-- `validateEvidenceBatch` accepts the batches with well-shaped evidence, and no others.
use native.Mathlib.Numerals.{add-one}
use native.Mathlib.Nat.{mod-eq_of_lt}
use verifoxx.Base.{
  ℕ, zero, suc, ◌+◌, ◌^◌, ◌≤◌, ◌<◌, ◌≡◌, ◌↔◌, refl, sym, ◌∙◌, Bool, true, false, not, List, [], ◌∷◌,
  length, get_or, arith, ◌==◌, Run, ok, reject_if, le→ltb, eq→==, ==→eq, >>=-ok, reject_if-ok,
}
use verifoxx.Eval.Error.{Error}
use verifoxx.Eval.Batch.{Batch}
use verifoxx.Eval.Context.{u32}
use verifoxx.Eval.Evidence.{
  column_lengths, check_lengths, check_offsets, check_refs, validate_evidence_batch,
}
use verifoxx.Eval.Shape.{HasEvidence}

abbrev AllEqual : ℕ → List ℕ → Type 0
AllEqual n [] = Unit {0}
AllEqual n (len ∷ lens) = (len ≡ n) × AllEqual n lens

check_lengths_iff : (n : ℕ) (lens : List ℕ) → (check_lengths n lens ≡ ok tt) ↔ AllEqual n lens
unfolding check_lengths
check_lengths_iff n [] = (λ _. tt, λ _. refl)
check_lengths_iff n (len ∷ lens) = (
  λ h. ground (arith, (check_lengths_iff n lens).0),
  λ h. ground (arith, (check_lengths_iff n lens).1 (h.1)),
)

-- The offsets rise from `previous` and stay within the edges.
abbrev Rising : ℕ → ℕ → List ℕ → Type 0
Rising edges previous [] = Unit {0}
Rising edges previous (o ∷ os) = (previous ≤ o) × (o ≤ edges) × Rising edges o os

abbrev last_or : ℕ → List ℕ → ℕ
last_or previous [] = previous
last_or previous (o ∷ os) = last_or o os

check_offsets-Rising :
    (edges previous : ℕ) (os : List ℕ) {last : ℕ}
    → check_offsets edges previous os ≡ ok last
    → Rising edges previous os × (last ≡ last_or previous os)
unfolding check_offsets
check_offsets-Rising edges previous [] h = (tt, cc)
check_offsets-Rising edges previous (o ∷ os) {last} h =
    ground (arith, check_offsets-Rising edges o os {last = last})

Rising-check_offsets :
    (edges previous : ℕ) (os : List ℕ)
    → Rising edges previous os
    → check_offsets edges previous os ≡ ok (last_or previous os)
unfolding check_offsets
Rising-check_offsets edges previous [] h = refl
Rising-check_offsets edges previous (o ∷ os) (low, high, more) =
    rw (le→ltb o previous low, le→ltb edges o high) (Rising-check_offsets edges o os more)

Rising-step :
    (edges previous : ℕ) (os : List ℕ)
    → Rising edges previous os
    → (r : ℕ) → suc r < length os
    → get_or os r 0 ≤ get_or os (suc r) 0
Rising-step edges previous (o ∷ []) h r hr = absurd (omega arith)
Rising-step edges previous (o ∷ o' ∷ os) (a, b, c) zero hr = omega arith
Rising-step edges previous (o ∷ o' ∷ os) (a, b, c) (suc r) hr =
    Rising-step edges o (o' ∷ os) c r (omega arith)
Rising-step edges previous [] h r hr = absurd (omega arith)

Rising-bound :
    (edges previous : ℕ) (os : List ℕ)
    → Rising edges previous os
    → (r : ℕ) → r < length os
    → get_or os r 0 ≤ edges
Rising-bound edges previous [] h r hr = absurd (omega arith)
Rising-bound edges previous (o ∷ os) h zero hr = omega arith
Rising-bound edges previous (o ∷ os) h (suc r) hr = Rising-bound edges o os h.2 r (omega arith)

Rising-of :
    (edges previous : ℕ) (os : List ℕ)
    → (0 < length os → previous ≤ get_or os 0 0)
    → ((r : ℕ) → suc r < length os → get_or os r 0 ≤ get_or os (suc r) 0)
    → ((r : ℕ) → r < length os → get_or os r 0 ≤ edges)
    → Rising edges previous os
Rising-of edges previous [] first step bound = tt
Rising-of edges previous (o ∷ os) first step bound = (
  first (omega arith),
  bound 0 (omega arith),
  Rising-of edges o os (λ h. step 0 (omega arith)) (λ r h. step (suc r) (omega arith))
      (λ r h. bound (suc r) (omega arith)),
)

last_or-get :
    (previous : ℕ) (os : List ℕ) (r : ℕ) → length os ≡ suc r → last_or previous os ≡ get_or os r 0
last_or-get previous [] r e = absurd (omega arith)
last_or-get previous (o ∷ []) zero e = refl
last_or-get previous (o ∷ []) (suc r) e = absurd (omega arith)
last_or-get previous (o ∷ o' ∷ os) zero e = absurd (omega arith)
last_or-get previous (o ∷ o' ∷ os) (suc r) e = last_or-get o (o' ∷ os) r (omega arith)

check_refs-known :
    (count : ℕ) (refs : List ℕ)
    → check_refs count refs ≡ ok tt
    → (e : ℕ) → e < length refs
    → get_or refs e 0 ≤ count
unfolding check_refs
check_refs-known count [] h e inside = absurd (omega arith)
check_refs-known count (ref ∷ refs) h zero inside = ground arith
check_refs-known count (ref ∷ refs) h (suc e) inside =
    let rest : check_refs count refs ≡ ok tt = ground arith in
    check_refs-known count refs rest e (omega arith)

known-check_refs :
    (count : ℕ) (refs : List ℕ)
    → ((e : ℕ) → e < length refs → get_or refs e 0 ≤ count)
    → check_refs count refs ≡ ok tt
unfolding check_refs
known-check_refs count [] h = refl
known-check_refs count (ref ∷ refs) h =
    rw (le→ltb count ref (h 0 (omega arith)))
      (known-check_refs count refs λ e he. h (suc e) (omega arith))

module _ (batch : Batch) (small : length batch.evidence_refs < 2 ^ 32) where
  accepted : validate_evidence_batch batch ≡ ok tt → HasEvidence batch
  unfolding validate_evidence_batch
  accepted h =
      let count = length batch.evidence_kinds in
      let (_, lengths, h₁) = >>=-ok (check_lengths count (column_lengths batch)) _ h in
      let (_, offsets, h₂) = >>=-ok (reject_if _ _) _ h₁ in
      let (last, rise, h₃) = >>=-ok (check_offsets _ 0 batch.evidence_ref_offsets) _ h₂ in
      let (_, ends, known) = >>=-ok (reject_if _ _) _ h₃ in
      assemble ((check_lengths_iff count (column_lengths batch)).0 (unit-ok lengths))
        (not-false _ (reject_if-ok _ _ _ offsets))
        (check_offsets-Rising _ 0 batch.evidence_ref_offsets rise)
        (not-false _ (reject_if-ok _ _ _ ends)) (check_refs-known count batch.evidence_refs known)
    where
      unit-ok : {r : Run Error (Unit {0})} {u : Unit {0}} → r ≡ ok u → r ≡ ok tt
      unit-ok e = e

      not-false : (b : Bool) → not b ≡ false → b ≡ true
      not-false true h = refl
      not-false false h = cc

      assemble :
          AllEqual (length batch.evidence_kinds) (column_lengths batch)
          → (length batch.evidence_ref_offsets == batch.rows + 1) ≡ true
          → {last : ℕ}
          → Rising (length batch.evidence_refs) 0 batch.evidence_ref_offsets
            × (last ≡ last_or 0 batch.evidence_ref_offsets)
          → (last == u32 (length batch.evidence_refs)) ≡ true
          → ((e : ℕ)
              → e < length batch.evidence_refs
              → get_or batch.evidence_refs e 0 ≤ length batch.evidence_kinds)
          → HasEvidence batch
      assemble lengths offsets (rise, is_last) ends known =
          let long = ==→eq (length batch.evidence_ref_offsets) (batch.rows + 1) offsets in
          record {
            status_length = omega arith;
            timing_length = omega arith;
            reviewer_length = omega arith;
            timestamp_state_length = omega arith;
            subject_length = omega arith;
            attestation_state_length = omega arith;
            scope_length = omega arith;
            adjustment_type_length = omega arith;
            present_length = omega arith;
            flags_length = omega arith;
            offsets_length = long;
            offsets_rise = λ r hr.
                rw (add-one r) (Rising-step _ 0 batch.evidence_ref_offsets rise r (omega arith));
            offsets_end = λ r hr. Rising-bound _ 0 batch.evidence_ref_offsets rise r (omega arith);
            offsets_last =
                sym
                  (last_or-get 0 batch.evidence_ref_offsets batch.rows (long ∙ add-one batch.rows))
                ∙ sym is_last
                ∙ ==→eq _ (u32 (length batch.evidence_refs)) ends
                ∙ mod-eq_of_lt small;
            refs_known = known;
          }

  well_shaped : HasEvidence batch → validate_evidence_batch batch ≡ ok tt
  unfolding validate_evidence_batch
  well_shaped e =
      let count = length batch.evidence_kinds in
      rw
        (
          (check_lengths_iff count (column_lengths batch)).1 (omega arith),
          eq→== _ _ e.offsets_length,
          Rising-check_offsets (length batch.evidence_refs) 0 batch.evidence_ref_offsets (
              Rising-of _ 0 batch.evidence_ref_offsets (λ _. omega arith)
                (λ r hr. rw (← add-one r) (e.offsets_rise r (omega (arith, e.offsets_length))))
                (λ r hr. e.offsets_end r (omega (arith, e.offsets_length)))),
          eq→== (last_or 0 batch.evidence_ref_offsets) (u32 (length batch.evidence_refs)) (
              last_or-get 0 batch.evidence_ref_offsets batch.rows
                (e.offsets_length ∙ add-one batch.rows)
              ∙ e.offsets_last
              ∙ sym (mod-eq_of_lt small)),
        )
        (known-check_refs count batch.evidence_refs e.refs_known)

  -- For a batch with fewer than 2^32 evidence edges, validateEvidenceBatch accepts it exactly when
  -- the evidence columns are parallel, there is one offset more than rows, the offsets rise and
  -- stay within the edges, the last one is the number of edges, and every reference is at most the
  -- number of records.
  pub validate_evidence_batch-HasEvidence :
      (validate_evidence_batch batch ≡ ok tt) ↔ HasEvidence batch
  validate_evidence_batch-HasEvidence = (accepted, well_shaped)
