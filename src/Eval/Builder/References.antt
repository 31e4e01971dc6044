-- ===== src/Eval/Builder/References.antt =====
-- internal/eval/builder.go: the evidence references of the requests and their offsets.
use native.Mathlib.Decide.{ℕ_discrete, dec_lt}
use native.Mathlib.Nat.{mod-eq_of_lt}
use verifoxx.Base.{
  ℕ, zero, suc, ◌+◌, ◌-◌, ◌^◌, ◌≤◌, ◌<◌, ◌≡◌, refl, sym, ap, ◌∙◌, List, [], ◌∷◌, ◌++◌, length,
  get_or, set, arith, store-set, length-set, length-append, get_or-append_left, get_or-set_self,
  get_or-set_ne, Returns, returns, Returns-bind, Returns-mono,
}
use verifoxx.Base.Text.{Text}
use verifoxx.Eval.Batch.{Batch}
use verifoxx.Eval.Context.{u32}
use verifoxx.Eval.Builder.{record_number, place_refs, place_rows}
use verifoxx.Eval.Builder.Cells.{Fields, Filled, HasRecords}
use verifoxx.Input.{Request}

-- The references of all requests, in order.
abbrev pub all_refs : List Request → List Text
all_refs [] = []
all_refs (q ∷ requests) = q.evidence_ids ++ all_refs requests

-- The number of references before a request's.
abbrev pub refs_before : List Request → ℕ → ℕ
refs_before requests zero = 0
refs_before [] (suc r) = 0
refs_before (q ∷ requests) (suc r) = length q.evidence_ids + refs_before requests r

get_or-append_right :
    (xs ys : List Text) (i : ℕ)
    → length xs ≤ i
    → get_or (xs ++ ys) i [] ≡ get_or ys (i - length xs) []
get_or-append_right [] ys i h = ap (λ (k : ℕ). get_or ys k []) (omega arith)
get_or-append_right (x ∷ xs) ys zero h = absurd (omega arith)
get_or-append_right (x ∷ xs) ys (suc i) h =
    get_or-append_right xs ys i (omega arith) ∙ ap (λ (k : ℕ). get_or ys k []) (omega arith)

offsets_at :
    (os : List ℕ) (row edge : ℕ) (q : Request) (requests : List Request)
    → get_or os row 0 ≡ edge
    → ((r : ℕ)
        → r ≤ length requests
        → get_or os (suc row + r) 0 ≡ edge + length q.evidence_ids + refs_before requests r)
    → (r : ℕ) → r ≤ suc (length requests)
    → get_or os (row + r) 0 ≡ edge + refs_before (q ∷ requests) r
offsets_at os row edge q requests first rest zero below =
    let at : row + 0 ≡ row = omega arith in ap (λ (k : ℕ). get_or os k 0) at ∙ first ∙ (omega arith)
offsets_at os row edge q requests first rest (suc r) below =
    let at : row + suc r ≡ suc row + r = omega arith in
    ap (λ (k : ℕ). get_or os k 0) at ∙ rest r (omega arith) ∙ (omega arith)

module _ (ids : List (Text × ℕ)) where
  place_refs-set :
      (edge : ℕ) (refs : List Text) (cells : List ℕ)
      → edge + length refs ≤ length cells
      → Returns
          (λ cells'.
            (length cells' ≡ length cells)
            × ((e : ℕ)
                → edge ≤ e
                → e < edge + length refs
                → get_or cells' e 0 ≡ record_number (get_or refs (e - edge) []) ids)
            × ((e : ℕ) → e < edge → get_or cells' e 0 ≡ get_or cells e 0))
          (place_refs ids edge refs cells)
  unfolding place_refs
  place_refs-set edge [] cells fits =
      returns (refl, λ e from to. absurd (omega arith), λ e before. refl)
  place_refs-set edge (ref ∷ refs) cells fits =
      let number = record_number ref ids in
      let next = length-set cells edge number in
      rw (store-set cells edge number (omega arith)) (
        Returns-mono (place_refs-set (suc edge) refs (set cells edge number) (omega arith))
          λ cells' (long, placed, before). (
            long ∙ next,
            λ e from to. elim (ℕ_discrete edge e) [
              | yes here ↦
                  let zeroth : e - edge ≡ 0 = omega arith in
                  rw zeroth (
                    before e (omega arith)
                    ∙ ap (λ (k : ℕ). get_or (set cells edge number) k 0) (sym here)
                    ∙ get_or-set_self cells edge number 0 (omega arith))
              | no later ↦
                  let shift : e - edge ≡ suc (e - suc edge) = omega arith in
                  rw shift (placed e (omega arith) (omega arith))
            ],
            λ e low.
                before e (omega arith) ∙ get_or-set_ne cells edge e number 0 (λ h. omega arith),
          ))

  -- The offsets and the references after the rows from `row` on are placed.
  pub record Placed (row edge : ℕ) (requests : List Request) (b b' : Batch) : Type 0 where
    pub offsets :
        (r : ℕ)
        → r ≤ length requests
        → get_or b'.evidence_ref_offsets (row + r) 0 ≡ edge + refs_before requests r
    pub offsets_before :
        (r : ℕ) → r < row → get_or b'.evidence_ref_offsets r 0 ≡ get_or b.evidence_ref_offsets r 0
    pub refs :
        (e : ℕ)
        → edge ≤ e
        → e < edge + length (all_refs requests)
        → get_or b'.evidence_refs e 0 ≡ record_number (get_or (all_refs requests) (e - edge) []) ids
    pub refs_kept : (e : ℕ) → e < edge → get_or b'.evidence_refs e 0 ≡ get_or b.evidence_refs e 0

  module _ (rows w records edges : ℕ) (t : Fields) (few : edges < 2 ^ 32) where
    with_refs-Filled :
        (b : Batch) (offsets refs : List ℕ)
        → Filled rows w t b
        → Filled rows w t (record b { evidence_ref_offsets = offsets; evidence_refs = refs })
    with_refs-Filled b offsets refs h = record {
      rows_exact = h.rows_exact;
      words_exact = h.words_exact;
      values_length = h.values_length;
      present_length = h.present_length;
      valid_length = h.valid_length;
      masks_length = h.masks_length;
      value = h.value;
      present = h.present;
      valid = h.valid;
      issue = h.issue;
    }

    with_refs-HasRecords :
        (b : Batch) (os rs : List ℕ)
        → length os ≡ rows + 1
        → length rs ≡ edges
        → HasRecords rows records edges b
        → HasRecords rows records edges (record b { evidence_ref_offsets = os; evidence_refs = rs })
    with_refs-HasRecords b os rs l₁ l₂ k = record {
      kinds = k.kinds;
      status = k.status;
      timing = k.timing;
      reviewer = k.reviewer;
      timestamp_state = k.timestamp_state;
      subject = k.subject;
      attestation_state = k.attestation_state;
      scope = k.scope;
      adjustment_type = k.adjustment_type;
      present = k.present;
      flags = k.flags;
      offsets = l₁;
      refs = l₂;
    }

    pub place_rows-Placed :
        (row edge : ℕ) (requests : List Request) (b : Batch)
        → row + length requests ≡ rows
        → edge + length (all_refs requests) ≡ edges
        → Filled rows w t b
        → HasRecords rows records edges b
        → Returns
            (λ b'.
              Filled rows w t b' × HasRecords rows records edges b' × Placed row edge requests b b')
            (place_rows ids row edge requests b)
    unfolding place_rows
    place_rows-Placed row edge [] b end total h k =
        let exact : u32 edge ≡ edge = mod-eq_of_lt (omega arith) in
        let inside : row < length b.evidence_ref_offsets = omega (arith, k.offsets) in
        rw (store-set b.evidence_ref_offsets row (u32 edge) inside) (
          returns (
            with_refs-Filled b _ b.evidence_refs h,
            with_refs-HasRecords b _ b.evidence_refs
                (length-set b.evidence_ref_offsets row _ ∙ k.offsets) k.refs k,
            record {
              offsets = λ r below.
                  let at : row + r ≡ row = omega arith in
                  let none_left : r ≡ 0 = omega arith in
                  ap (λ (x : ℕ). get_or (set b.evidence_ref_offsets row (u32 edge)) x 0) at
                  ∙ get_or-set_self b.evidence_ref_offsets row (u32 edge) 0 inside
                  ∙ exact
                  ∙ (rw none_left (omega arith));
              offsets_before =
                  λ r before. get_or-set_ne b.evidence_ref_offsets row r _ 0 (λ e. omega arith);
              refs = λ e from to. absurd (omega arith);
              refs_kept = λ e low. refl;
            },
          ))
    place_rows-Placed row edge (q ∷ requests) b end total h k =
        let exact : u32 edge ≡ edge = mod-eq_of_lt (omega arith) in
        let both = length-append q.evidence_ids (all_refs requests) in
        let inside : row < length b.evidence_ref_offsets = omega (arith, k.offsets) in
        rw (store-set b.evidence_ref_offsets row (u32 edge) inside) (
          Returns-bind
            (place_refs-set edge q.evidence_ids b.evidence_refs (omega (arith, both, k.refs)))
            λ refs (long, placed, kept).
              let os = set b.evidence_ref_offsets row (u32 edge) in
              Returns-mono
                (place_rows-Placed (suc row) (edge + length q.evidence_ids) requests _ (omega arith)
                  (omega (arith, both)) (with_refs-Filled b os refs h)
                  (with_refs-HasRecords b os refs
                    (length-set b.evidence_ref_offsets row _ ∙ k.offsets) (long ∙ k.refs) k))
                λ b' (h', k', later). (
                  h',
                  k',
                  record {
                    offsets =
                        offsets_at b'.evidence_ref_offsets row edge q requests
                          (later.offsets_before row (omega arith)
                            ∙ get_or-set_self b.evidence_ref_offsets row (u32 edge) 0 inside
                            ∙ exact)
                          later.offsets;
                    offsets_before = λ r before.
                        later.offsets_before r (omega arith)
                        ∙ get_or-set_ne b.evidence_ref_offsets row r _ 0 (λ e. omega arith);
                    refs = λ e from to. elim (dec_lt e (edge + length q.evidence_ids)) [
                      | yes own ↦
                          later.refs_kept e own
                          ∙ placed e from own
                          ∙ ap (λ (x : Text). record_number x ids)
                              (sym (
                                get_or-append_left q.evidence_ids (all_refs requests) (e - edge) []
                                  (omega arith)))
                      | no others ↦
                          let shift : e - (edge + length q.evidence_ids)
                              ≡ e - edge - length q.evidence_ids =
                            omega arith in
                          later.refs e (omega arith) (omega (arith, both))
                          ∙ ap (λ (x : Text). record_number x ids)
                              (ap (λ (x : ℕ). get_or (all_refs requests) x []) shift
                                ∙ sym (
                                    get_or-append_right q.evidence_ids (all_refs requests)
                                      (e - edge) (omega arith)))
                    ];
                    refs_kept = λ e low. later.refs_kept e (omega arith) ∙ kept e low;
                  },
                ))
