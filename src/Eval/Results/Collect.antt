-- ===== src/Eval/Results/Collect.antt =====
-- internal/eval/executor.go: how the evidence of a row is collected and written.
use mathlib.Core.Path.{subst}
use mathlib.Core.List.{append_assoc, append-nil}
use native.Mathlib.Nat.{mod-eq_of_lt}
use verifoxx.Base.{
  ℕ, suc, ◌+◌, ◌-◌, ◌^◌, ◌≤◌, ◌<◌, ◌≡◌, refl, sym, ap, ◌∙◌, ◌≢◌, List, [], ◌∷◌, ◌++◌, length,
  get_or, take, drop, length-append, ◌==◌, Bool-cases, inl, inr, ne→==, arith, ok, ◌>>=◌,
  nth-get_or, for_range_inv, Returns, returns, Returns-bind, Returns-mono,
}
use verifoxx.Schema.{is_valid_id}
use verifoxx.Program.{Program}
use verifoxx.Program.Valid.{HasValidTables}
use verifoxx.Eval.Error.{Error}
use verifoxx.ResultBatch.{store_item, ResultBatch, Slice, append_item}
use verifoxx.Eval.Batch.{Batch}
use verifoxx.Eval.Context.{u32}
use verifoxx.Eval.Resolve.{evidence_required_for_row, is_duplicate, collect_round, write_evidence}
use verifoxx.Eval.Results.Segments.{
  joined, Segmented, take-segment, open-Segmented, close-Segmented,
}
use verifoxx.Eval.Scalar.{is_in}
use verifoxx.Eval.Shape.{HasEvidence}
use verifoxx.Eval.Results.Evidence.{
  Each, IsNumber, any_requirement, is_required, add_ref, refs_from, row_refs, refs_from-length,
  requirements_require-any, is_duplicate-is_in,
}

module _ (p : Program) (tables : HasValidTables p) (batch : Batch) (evidence : HasEvidence batch)
    (rows row : ℕ) (inside : row < rows) (required : ℕ → List ℕ) (found : ℕ → List ℕ)
    (known : Each (IsNumber (length p.requirement_symbols)) (required row)) where
  segment-take :
      (offsets items : List ℕ)
      → Segmented rows (suc row) required offsets items
      → (take
            (get_or offsets (row + 1) 0 - get_or offsets row 0)
            (drop (get_or offsets row 0) items)
          ≡ required row)
        × (get_or offsets row 0 ≤ get_or offsets (row + 1) 0)
        × (get_or offsets (row + 1) 0 ≡ length items)
  segment-take offsets items h =
      let next : row + 1 ≡ suc row = omega arith in
      let start = h.offset row (omega arith) in
      let end = ap (λ (x : ℕ). get_or offsets x 0) next ∙ h.offset (suc row) (omega arith) in
      (
        rw (start, end, h.items_joined) (take-segment (joined required row) (required row)),
        omega (arith, start, end, length-append (joined required row) (required row)),
        end ∙ sym (ap length h.items_joined),
      )

  evidence_required-is_required :
      (dst : ResultBatch) (ref : ℕ)
      → 0 < ref
      → ref ≤ length batch.evidence_kinds
      → Segmented rows (suc row) required dst.requirement_offsets.items dst.requirement_ids.items
      → evidence_required_for_row p batch dst row ref ≡ ok (is_required p batch (required row) ref)
  unfolding evidence_required_for_row
  evidence_required-is_required dst ref positive below h =
      let kind = get_or batch.evidence_kinds (ref - 1) 0 in
      let offsets = dst.requirement_offsets.items in
      let (segment, rises, end) = segment-take offsets dst.requirement_ids.items h in
      let nonzero : ref ≢ 0 = λ e. omega arith in
      let all =
        requirements_require-any p tables kind dst
          (get_or offsets (row + 1) 0 - get_or offsets row 0) (get_or offsets row 0) (omega arith)
          (subst (Each (IsNumber (length p.requirement_symbols))) (sym segment) known) in
      let searched = all ∙ ap (λ (xs : List ℕ). ok (any_requirement p kind xs)) segment in
      rw (ne→== ref 0 nonzero, nth-get_or batch.evidence_kinds (ref - 1) 0 (omega arith))
        (elim (Bool-cases (is_valid_id kind)) [
          | inr none ↦ rw none refl
          | inl some ↦
              rw
                (
                  some,
                  nth-get_or offsets row 0 (omega (arith, h.size)),
                  nth-get_or offsets (row + 1) 0 (omega (arith, h.size)),
                )
                searched
        ])

  -- The round of an edge adds its reference as `add_ref` does.
  collect_round-add_ref :
      (dst : ResultBatch) (edge : ℕ) (refs : List ℕ)
      → edge < length batch.evidence_refs
      → Segmented rows (suc row) required dst.requirement_offsets.items dst.requirement_ids.items
      → Segmented rows row found dst.evidence_offsets.items (joined found row)
      → dst.evidence_refs.items ≡ joined found row ++ refs
      → length (joined found row ++ refs) < 2 ^ 32
      → Returns
          (λ dst'.
            (s : Slice) × (dst' ≡ record dst { evidence_refs = s })
            × (s.items
                ≡ joined found row
                  ++ add_ref p batch (required row) refs (get_or batch.evidence_refs edge 0)))
          (collect_round p batch row edge dst)
  unfolding collect_round
  collect_round-add_ref dst edge refs there h k is few =
      let ref = get_or batch.evidence_refs edge 0 in
      let bound = evidence.refs_known edge there in
      let first = k.offset row (omega arith) in
      let before = length-append (joined found row) refs in
      let exact : u32 (length dst.evidence_refs.items) ≡ length (joined found row ++ refs) =
        ap (λ (x : List ℕ). u32 (length x)) is ∙ mod-eq_of_lt few in
      let duplicate : is_duplicate dst.evidence_refs.items ref
            (length (joined found row ++ refs) - length (joined found row))
            (length (joined found row))
          ≡ ok (is_in refs ref) =
        ap
          (λ (xs : List ℕ).
            is_duplicate xs ref (length (joined found row ++ refs) - length (joined found row))
              (length (joined found row)))
          is
        ∙ is_duplicate-is_in (joined found row ++ refs) ref
            (length (joined found row ++ refs) - length (joined found row))
            (length (joined found row)) (omega arith)
        ∙ ap (λ (xs : List ℕ). ok (is_in xs ref)) (take-segment (joined found row) refs) in
      rw (nth-get_or batch.evidence_refs edge 0 there) (elim (Bool-cases (ref == 0)) [
        | inl missing ↦ rw missing (returns (dst.evidence_refs, refl, is))
        | inr named ↦
            let positive : 0 < ref = ground arith in
            rw (named, evidence_required-is_required dst ref positive bound h)
              (elim (Bool-cases (is_required p batch (required row) ref)) [
                | inr not_asked ↦ rw not_asked (returns (dst.evidence_refs, refl, is))
                | inl asked ↦
                    rw
                      (
                        asked,
                        nth-get_or dst.evidence_offsets.items row 0 (omega (arith, k.size)),
                        first,
                        exact,
                        duplicate,
                      )
                      (elim (Bool-cases (is_in refs ref)) [
                        | inl again ↦ rw again (returns (dst.evidence_refs, refl, is))
                        | inr new ↦ rw new (
                            returns (
                              append_item dst.evidence_refs ref,
                              refl,
                              ap (λ (xs : List ℕ). xs ++ ref ∷ []) is
                                  ∙ append_assoc (joined found row) refs (ref ∷ []),
                            ))
                      ])
              ])
      ])

  -- What the edges before `i` add.
  abbrev added_before : ℕ → List ℕ
  added_before i =
      refs_from p batch (required row) (get_or batch.evidence_ref_offsets row 0)
        (i - get_or batch.evidence_ref_offsets row 0)

  round :
      (dst : ResultBatch) (opened : Slice) (i : ℕ)
      → get_or batch.evidence_ref_offsets row 0 ≤ i
      → i < length batch.evidence_refs
      → Segmented rows (suc row) required dst.requirement_offsets.items dst.requirement_ids.items
      → Segmented rows row found opened.items dst.evidence_refs.items
      → length (joined found row ++ added_before i) < 2 ^ 32
      → (d : ResultBatch) (s : Slice)
      → d ≡ record dst { evidence_offsets = opened; evidence_refs = s }
      → s.items ≡ joined found row ++ added_before i
      → Returns
          (λ d'.
            (s' : Slice) × (d' ≡ record dst { evidence_offsets = opened; evidence_refs = s' })
            × (s'.items ≡ joined found row ++ added_before (suc i)))
          (collect_round p batch row i d)
  round dst opened i from there h k few d s is_d items =
      let start = get_or batch.evidence_ref_offsets row 0 in
      let next : suc i - start ≡ suc (i - start) = omega arith in
      let here : start + (i - start) ≡ i = omega arith in
      let k' = subst (Segmented rows row found opened.items) k.items_joined k in
      subst
        (λ (x : ResultBatch).
          Returns
            (λ d'.
              (s' : Slice) × (d' ≡ record dst { evidence_offsets = opened; evidence_refs = s' })
              × (s'.items ≡ joined found row ++ added_before (suc i)))
            (collect_round p batch row i x))
        (sym is_d)
        (Returns-mono
          (collect_round-add_ref (record dst { evidence_offsets = opened; evidence_refs = s }) i
            (added_before i) there h k' items few)
          λ d' (s', is', items'). (s', is', items' ∙ (rw (next, here) refl)))

  close :
      (dst : ResultBatch) (opened : Slice)
      → Segmented rows row found opened.items dst.evidence_refs.items
      → length (joined found (suc row)) < 2 ^ 32
      → (d : ResultBatch) (s : Slice)
      → d ≡ record dst { evidence_offsets = opened; evidence_refs = s }
      → s.items ≡ joined found row ++ found row
      → Returns {E = Error}
          (λ dst'.
            (o : Slice) × (s : Slice) × (dst'
              ≡ record dst { evidence_offsets = o; evidence_refs = s })
            × Segmented rows (suc row) found o.items s.items)
          (store_item d.evidence_offsets (row + 1) (u32 (length d.evidence_refs.items))
            >>= λ offsets. ok (record d { evidence_offsets = offsets }))
  close dst opened k few d s is_d items =
      let added = items ∙ ap (λ (xs : List ℕ). xs ++ found row) (sym k.items_joined) in
      subst
        (λ (x : ResultBatch).
          Returns
            (λ dst'.
              (o : Slice) × (s : Slice) × (dst'
                ≡ record dst { evidence_offsets = o; evidence_refs = s })
              × Segmented rows (suc row) found o.items s.items)
            (store_item {E = Error} x.evidence_offsets (row + 1)
                (u32 (length x.evidence_refs.items))
              >>= λ offsets. ok (record x { evidence_offsets = offsets })))
        (sym is_d)
        (Returns-bind
          (close-Segmented rows row inside found opened dst.evidence_refs.items s.items few added k)
          λ o h. returns (o, s, refl, h))

  -- The evidence of the row is written: its references in order, between the row's offsets.
  pub write_evidence-row_refs :
      (dst : ResultBatch)
      → Segmented rows (suc row) required dst.requirement_offsets.items dst.requirement_ids.items
      → Segmented rows row found dst.evidence_offsets.items dst.evidence_refs.items
      → row < batch.rows
      → length batch.evidence_refs < 2 ^ 32
      → length (joined found row) ≤ get_or batch.evidence_ref_offsets row 0
      → found row ≡ row_refs p batch (required row) row
      → Returns
          (λ dst'.
            (o : Slice) × (s : Slice) × (dst'
              ≡ record dst { evidence_offsets = o; evidence_refs = s })
            × Segmented rows (suc row) found o.items s.items)
          (write_evidence p batch row dst)
  unfolding write_evidence
  write_evidence-row_refs dst h k hr few short is =
      let start = get_or batch.evidence_ref_offsets row 0 in
      let end = get_or batch.evidence_ref_offsets (row + 1) 0 in
      let rises = evidence.offsets_rise row hr in
      let edges = evidence.offsets_end (row + 1) (omega arith) in
      let none : start - start ≡ 0 = omega arith in
      let all : start + (end - start) - start ≡ end - start = omega arith in
      let refl_end : joined found row ≡ joined found row ++ [] =
        sym (append-nil (joined found row)) in
      let added : ℕ → List ℕ = refs_from p batch (required row) start in
      Returns-bind
        (open-Segmented rows row inside found dst.evidence_offsets dst.evidence_refs.items
          (omega arith) k)
        λ opened k₁.
          rw
            (
              nth-get_or batch.evidence_ref_offsets row 0 (omega (arith, evidence.offsets_length)),
              nth-get_or batch.evidence_ref_offsets (row + 1) 0
                  (omega (arith, evidence.offsets_length)),
            )
            (Returns-bind
              (for_range_inv
                (λ (i : ℕ) (d : ResultBatch).
                  (s : Slice) × (d ≡ record dst { evidence_offsets = opened; evidence_refs = s })
                  × (s.items ≡ joined found row ++ added (i - start)))
                (collect_round p batch row) (end - start) start
                (record dst { evidence_offsets = opened })
                (λ i d from to (s, is_d, items).
                  round dst opened i from (omega arith) h k₁
                    (omega (
                      arith,
                      length-append (joined found row) (added (i - start)),
                      refs_from-length p batch (required row) start (i - start),
                    ))
                    d s is_d items)
                (dst.evidence_refs, refl, k₁.items_joined ∙ (rw none refl_end)))
              λ collected (s, is_c, items).
                close dst opened k₁
                  (omega (
                    arith,
                    length-append (joined found row) (found row),
                    refs_from-length p batch (required row) start (end - start),
                    ap length is,
                  ))
                  collected s is_c
                  (items
                    ∙ ap (λ (n : ℕ). joined found row ++ added n) all
                    ∙ ap (λ (xs : List ℕ). joined found row ++ xs) (sym is)))
