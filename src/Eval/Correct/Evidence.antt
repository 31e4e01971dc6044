-- ===== src/Eval/Correct/Evidence.antt =====
-- `evaluateEvidence` computes the evidence verdict on every row.
use verifoxx.Base.{
  ℕ, suc, ◌+◌, ◌-◌, ◌*◌, ◌≤◌, ◌<◌, ◌≡◌, refl, ap, ◌∙◌, Bool, true, false, not, ◌&&◌, ◌||◌, List, [],
  ◌∷◌, map, length, get_or, arith, ◌==◌, if◌then◌else◌, Run, ok, ◌>>=◌, nth-get_or, Returns,
  returns, Returns-bind, for_range, for_range-foldl, ne→==, eq→==,
}
use mathlib.Core.List.{foldl}
use native.Mathlib.Decide.{ℕ_discrete}
use verifoxx.Base.Bits.{has_bit}
use verifoxx.Schema.Reason
use verifoxx.Program.{Program, EvidenceSpec}
use verifoxx.Program.Opcode
use verifoxx.Program.Valid.{HasValidCode}
use verifoxx.Eval.Error.{Error}
use verifoxx.Eval.Batch.{Batch}
use verifoxx.Eval.Context.{Context, set_reason}
use verifoxx.Eval.Evidence.{
  satisfied, unclear, wrong, Qualifier, qualifiers, qualifier_mismatch, classify_from, Seen,
  nothing_seen, see_qualifiers, see_edge, reduce_seen, evidence_row, evaluate_evidence,
}
use verifoxx.Eval.Shape.{HasEvidence}
use verifoxx.Eval.Planes.{block}
use verifoxx.Eval.Verdicts.{
  Verdict, Table, put, Holds, cleared, positive_plane-block, negative_plane-block,
}
use verifoxx.Eval.RowSpec.{
  any, qualifier_class, EdgeClass, unrelated, conflicting, outdated, withdrawn, qualified,
  edge_class, is_conflicting, is_outdated, is_withdrawn, is_unclear, is_satisfied, is_wrong,
  reduce_classes, row_refs, evidence_verdict, spec_of, no_spec,
}
use verifoxx.Eval.Correct.Rows.{
  done, done-next, put_reason, put_positive, put_negative, fill_rows, start_row,
}

-- The columns of the qualifiers have the record.
abbrev Readable : ℕ → List Qualifier → Type 0
Readable index [] = Unit {0}
Readable index ((column, number, want) ∷ qs) = (index < length column) × Readable index qs

qualifier_mismatch-tests :
    (have : ℕ) (there : Bool) (want : ℕ) (u : Bool)
    → qualifier_mismatch have there want u
      ≡ (not (want == 0) && there && not (have == want), u || (not (want == 0) && not there))
unfolding qualifier_mismatch
qualifier_mismatch-tests have there want u = elim (ℕ_discrete want 0) [
  | yes e ↦ rw (eq→== want 0 e) (pair-false u)
  | no d ↦ rw (ne→== want 0 d) (pair-cases there (have == want) u)
]
  where
    pair-false : (b : Bool) → ◌≡◌ {A = Bool × Bool} (false, b) (false, b || false)
    pair-false true = refl
    pair-false false = refl

    pair-cases :
        (there same b : Bool)
        → ◌≡◌ {A = Bool × Bool}
            (if not there then (false, true) else (not same, b))
            (there && not same, b || not there)
    pair-cases true same true = refl
    pair-cases true same false = refl
    pair-cases false same true = refl
    pair-cases false same false = refl

classify_from-class :
    (present : List ℕ) (index : ℕ)
    → index < length present
    → (u : Bool) (qs : List Qualifier) → Readable index qs
    → classify_from present index u qs ≡ ok (qualifier_class present index u qs)
unfolding classify_from qualifier_class
classify_from-class present index inside u [] readable = ground arith
classify_from-class present index inside u ((column, number, want) ∷ qs) (here, readable) =
    rw (nth-get_or column index 0 here, nth-get_or present index 0 inside)
      (rw
        (qualifier_mismatch-tests (get_or column index 0) (has_bit (get_or present index 0) number)
          want u)
        (ground (
          arith,
          classify_from-class present index inside
              (u || (not (want == 0) && not (has_bit (get_or present index 0) number))) qs readable,
        )))

see_class : Seen → EdgeClass → Seen
see_class seen unrelated = seen
see_class seen conflicting = record seen { conflict = true }
see_class seen outdated = record seen { stale = true }
see_class seen withdrawn = record seen { revoked = true }
see_class seen (qualified result) = see_qualifiers seen result

-- The flags say whether there is an edge of each class.
abbrev flags_of : Seen → List EdgeClass → Seen
flags_of seen cs = record {
  conflict = seen.conflict || any is_conflicting cs;
  stale = seen.stale || any is_outdated cs;
  revoked = seen.revoked || any is_withdrawn cs;
  unclear = seen.unclear || any is_unclear cs;
  satisfied = seen.satisfied || any is_satisfied cs;
  wrong = seen.wrong || any is_wrong cs;
}

module _ (batch : Batch) (spec : EvidenceSpec) where
  see_ref : Seen → ℕ → Seen
  see_ref seen ref = see_class seen (edge_class batch spec ref)

see_classes-flags : (seen : Seen) (cs : List EdgeClass) → foldl see_class seen cs ≡ flags_of seen cs
unfolding see_class
see_classes-flags seen [] = ground arith
see_classes-flags seen (unrelated ∷ cs) = see_classes-flags seen cs
see_classes-flags seen (conflicting ∷ cs) = see_classes-flags _ cs ∙ (ground arith)
see_classes-flags seen (outdated ∷ cs) = see_classes-flags _ cs ∙ (ground arith)
see_classes-flags seen (withdrawn ∷ cs) = see_classes-flags _ cs ∙ (ground arith)
see_classes-flags seen (qualified satisfied ∷ cs) = see_classes-flags _ cs ∙ (ground arith)
see_classes-flags seen (qualified unclear ∷ cs) = see_classes-flags _ cs ∙ (ground arith)
see_classes-flags seen (qualified wrong ∷ cs) = see_classes-flags _ cs ∙ (ground arith)

foldl-map :
    (f : ℕ → EdgeClass) (seen : Seen) (refs : List ℕ)
    → foldl (λ s ref. see_class s (f ref)) seen refs ≡ foldl see_class seen (map f refs)
foldl-map f seen [] = refl
foldl-map f seen (ref ∷ refs) = foldl-map f (see_class seen (f ref)) refs

-- The verdict that the flags stand for.
reduce : Seen → Verdict
reduce seen =
    if seen.conflict
    then record { positive = true; negative = true; reason = Reason.conflict }
    else if seen.stale
    then record { positive = false; negative = false; reason = Reason.stale }
    else if seen.revoked
    then record { positive = false; negative = false; reason = Reason.invalid_evidence }
    else if seen.unclear
    then record { positive = false; negative = false; reason = Reason.unclear }
    else if seen.satisfied
    then record { positive = true; negative = false; reason = Reason.satisfied }
    else if seen.wrong
    then record { positive = false; negative = false; reason = Reason.invalid_evidence }
    else record { positive = false; negative = false; reason = Reason.missing }

reduce-classes : (cs : List EdgeClass) → reduce (flags_of nothing_seen cs) ≡ reduce_classes cs
unfolding reduce reduce_classes
reduce-classes cs = refl

module _ (batch : Batch) (evidence : HasEvidence batch) (spec : EvidenceSpec) where
  readable :
      (index : ℕ) → index < length batch.evidence_kinds → Readable index (qualifiers batch spec)
  readable index inside = omega (
    arith, evidence.status_length, evidence.timing_length, evidence.reviewer_length,
    evidence.timestamp_state_length, evidence.subject_length, evidence.attestation_state_length,
    evidence.scope_length, evidence.adjustment_type_length,
  )

  see_edge-class :
      (edge : ℕ)
      → edge < length batch.evidence_refs
      → (seen : Seen)
      → see_edge batch spec edge seen
        ≡ ok (see_ref batch spec seen (get_or batch.evidence_refs edge 0))
  unfolding see_ref see_edge see_class edge_class
  see_edge-class edge inside seen = elim (ℕ_discrete (get_or batch.evidence_refs edge 0) 0) [
    | yes missing ↦ rw (nth-get_or batch.evidence_refs edge 0 inside, missing)
    | no there ↦
        let index = get_or batch.evidence_refs edge 0 - 1 in
        let known : index < length batch.evidence_kinds =
          omega (arith, evidence.refs_known edge inside) in
        rw
          (
            nth-get_or batch.evidence_refs edge 0 inside,
            ne→== (get_or batch.evidence_refs edge 0) 0 there,
            nth-get_or batch.evidence_kinds index 0 known,
            nth-get_or batch.evidence_flags index 0 (omega (arith, evidence.flags_length)),
            classify_from-class batch.evidence_present index
                (omega (arith, evidence.present_length)) false (qualifiers batch spec)
                (readable index known),
          )
          (ground arith)
  ]

  -- The loop over a row's references finds the flags of their classes.
  scan-flags :
      (r : ℕ)
      → r < batch.rows
      → for_range
          (get_or batch.evidence_ref_offsets (r + 1) 0 - get_or batch.evidence_ref_offsets r 0)
          (get_or batch.evidence_ref_offsets r 0)
          (see_edge batch spec)
          nothing_seen
        ≡ ok (flags_of nothing_seen (map (edge_class batch spec) (row_refs batch r)))
  unfolding see_ref
  scan-flags r hr =
      for_range-foldl (see_edge batch spec) (see_ref batch spec) batch.evidence_refs see_edge-class
        _ _ nothing_seen
        (omega (arith, evidence.offsets_rise r hr, evidence.offsets_end (r + 1) (omega arith)))
      ∙ ap (λ (s : Seen). ok s)
          (foldl-map (edge_class batch spec) nothing_seen (row_refs batch r)
            ∙ see_classes-flags nothing_seen (map (edge_class batch spec) (row_refs batch r)))

module _ (n w rows : ℕ) (wide : rows ≤ w * 64) (i : ℕ) (hi : i < n) (r : ℕ) (hr : r < rows)
    (t : Table) where
  then_reason :
      (m : Run Error (ℕ × Context)) (v : Verdict) (p : ℕ)
      → p < 8
      → v.reason ≡ 0
      → Returns (λ a. (a.0 ≡ suc p) × Holds n w rows (put t i r v) a.1) m
      → Returns
          (Holds n w rows (put t i r (record v { reason = suc p })))
          (m >>= λ a. set_reason a.1 a.0 (suc i) r)
  then_reason m v p hp none_yet first =
      Returns-bind first
        λ a (e, h). rw e (put_reason n w rows wide i r hi hr t a.1 v p hp none_yet h)

  -- The final switch writes the verdict of the flags.
  switch-Holds :
      (context : Context) (conflict stale revoked unclear satisfied wrong : Bool)
      → Holds n w rows (put t i r cleared) context
      → Returns
          (Holds n w rows (
            put t i r (
              reduce (record {
                conflict = conflict;
                stale = stale;
                revoked = revoked;
                unclear = unclear;
                satisfied = satisfied;
                wrong = wrong;
              }))))
          (reduce_seen context (block w i) (block w i) r (record {
            conflict = conflict;
            stale = stale;
            revoked = revoked;
            unclear = unclear;
            satisfied = satisfied;
            wrong = wrong;
          })
            >>= λ result. set_reason result.1 result.0 (suc i) r)
  unfolding reduce_seen reduce
  switch-Holds context true _ _ _ _ _ holds =
      then_reason _ (record { positive = true; negative = true; reason = 0 }) 7 (omega arith) refl
        (Returns-bind (put_positive n w rows wide i r hi hr t context cleared holds) λ c h.
          Returns-bind (put_negative n w rows wide i r hi hr t c _ h) λ d k. returns (refl, k))
  switch-Holds context false true _ _ _ _ holds =
      put_reason n w rows wide i r hi hr t context cleared 4 (omega arith) refl holds
  switch-Holds context false false true _ _ _ holds =
      put_reason n w rows wide i r hi hr t context cleared 3 (omega arith) refl holds
  switch-Holds context false false false true _ _ holds =
      put_reason n w rows wide i r hi hr t context cleared 5 (omega arith) refl holds
  switch-Holds context false false false false true _ holds =
      then_reason _ (record { positive = true; negative = false; reason = 0 }) 0 (omega arith) refl
        (Returns-bind (put_positive n w rows wide i r hi hr t context cleared holds)
          λ c h. returns (refl, h))
  switch-Holds context false false false false false true holds =
      put_reason n w rows wide i r hi hr t context cleared 3 (omega arith) refl holds
  switch-Holds context false false false false false false holds =
      put_reason n w rows wide i r hi hr t context cleared 2 (omega arith) refl holds

module _ (p : Program) (code : HasValidCode p) (w : ℕ) (batch : Batch)
    (evidence : HasEvidence batch) (wide : batch.rows ≤ w * 64) (nonempty : 0 < w) (i : ℕ)
    (hi : i < length p.opcodes) (t : Table) (fresh : (r : ℕ) → t i r ≡ cleared) where
  evidence_row-Holds :
      (spec : EvidenceSpec) (r : ℕ)
      → r < batch.rows
      → (u : Table) → u i r ≡ cleared
      → (context : Context) → Holds (length p.opcodes) w batch.rows u context
      → Returns
          (Holds (length p.opcodes) w batch.rows (put u i r (evidence_verdict batch spec r)))
          (evidence_row batch spec (block w i) (block w i) (suc i) r context)
  unfolding evidence_row evidence_verdict
  evidence_row-Holds spec r hr u none_yet context holds =
      rw
        (
          nth-get_or batch.evidence_ref_offsets r 0 (omega (arith, evidence.offsets_length)),
          nth-get_or batch.evidence_ref_offsets (r + 1) 0 (omega (arith, evidence.offsets_length)),
          scan-flags batch evidence spec r hr,
          ← reduce-classes (map (edge_class batch spec) (row_refs batch r)),
        )
        (switch-Holds (length p.opcodes) w batch.rows wide i hi r hr u context _ _ _ _ _ _ (
          start_row (length p.opcodes) w batch.rows wide i r hi hr u context cleared none_yet
            holds))

  pub evaluate_evidence-Holds :
      (context : Context)
      → Holds (length p.opcodes) w batch.rows t context
      → get_or p.opcodes i 0 ≡ Opcode.evidence_matches
      → Returns
          (Holds
            (length p.opcodes)
            w
            batch.rows
            (done t i batch.rows (evidence_verdict batch (spec_of p i))))
          (evaluate_evidence p batch (suc i) i context)
  unfolding evaluate_evidence
  evaluate_evidence-Holds context holds matches =
      let (low, high) = (code.instruction i hi).spec_index matches in
      rw
        (
          nth-get_or p.evidence_spec_indexes i 0 (omega (arith, code.spec_indexes_length)),
          ne→== (get_or p.evidence_spec_indexes i 0) 0 (omega arith),
          nth-get_or p.evidence_specs (get_or p.evidence_spec_indexes i 0 - 1) no_spec
              (omega arith),
          positive_plane-block (length p.opcodes) w batch.rows wide context holds.0 nonempty i hi,
          negative_plane-block (length p.opcodes) w batch.rows wide context holds.0 nonempty i hi,
        )
        (fill_rows (length p.opcodes) w batch.rows wide i hi t
          (evidence_verdict batch (spec_of p i)) _
          (λ r c hr h.
            evidence_row-Holds (spec_of p i) r hr
              (done t i r (evidence_verdict batch (spec_of p i)))
              (done-next t i r (evidence_verdict batch (spec_of p i)) ∙ fresh r) c h)
          context holds)
