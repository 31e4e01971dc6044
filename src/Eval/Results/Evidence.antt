-- ===== src/Eval/Results/Evidence.antt =====
-- internal/eval/executor.go: the evidence that a row's result names, beside a specification on lists.
use mathlib.Core.Path.{subst}
use verifoxx.Base.{
  ℕ, zero, suc, ◌+◌, ◌-◌, ◌≤◌, ◌<◌, ◌≡◌, refl, ◌≢◌, Bool, false, not, ◌&&◌, ◌||◌, List, [], ◌∷◌,
  ◌++◌, length, get_or, take, drop, drop-cons, length-append, ◌==◌, if◌then◌else◌, Bool-cases, inl,
  inr, ne→==, arith, ok, nth-get_or,
}
use verifoxx.Schema.{is_valid_id}
use verifoxx.Program.{Program}
use verifoxx.Program.Valid.{HasValidTables}
use verifoxx.ResultBatch.{ResultBatch}
use verifoxx.Eval.Batch.{Batch}
use verifoxx.Eval.Correct.Clauses.{
  clauses_of, kinds_of, requirement_clauses-of, clauses_of-known, clause_kinds-of,
}
use verifoxx.Eval.Resolve.{clauses_require, requirements_require, is_duplicate}
use verifoxx.Eval.Scalar.{is_in}

-- A predicate of every item.
abbrev pub Each : (ℕ → Type 0) → List ℕ → Type 0
Each P [] = Unit {0}
Each P (x ∷ xs) = P x × Each P xs

pub Each-get :
    (P : ℕ → Type 0) (xs : List ℕ) → ((j : ℕ) → j < length xs → P (get_or xs j 0)) → Each P xs
Each-get P [] h = tt
Each-get P (x ∷ xs) h = (h 0 (omega arith), Each-get P xs (λ j below. h (suc j) (omega arith)))

-- A number from 1 to `n`.
abbrev pub IsNumber : ℕ → ℕ → Type 0
IsNumber n id = (0 < id) × (id ≤ n)

abbrev pub any_clause : Program → ℕ → List ℕ → Bool
any_clause p kind [] = false
any_clause p kind (id ∷ ids) = is_in (kinds_of p id) kind || any_clause p kind ids

abbrev pub any_requirement : Program → ℕ → List ℕ → Bool
any_requirement p kind [] = false
any_requirement p kind (id ∷ ids) =
    any_clause p kind (clauses_of p (id - 1)) || any_requirement p kind ids

-- A clause of one of the requirements asks for the record's kind.
abbrev pub is_required : Program → Batch → List ℕ → ℕ → Bool
is_required p batch ids ref =
    is_valid_id (get_or batch.evidence_kinds (ref - 1) 0)
    && any_requirement p (get_or batch.evidence_kinds (ref - 1) 0) ids

-- A reference is added once, if its record is there and required.
abbrev pub add_ref : Program → Batch → List ℕ → List ℕ → ℕ → List ℕ
add_ref p batch ids refs ref =
    if ref == 0
    then refs
    else if not (is_required p batch ids ref)
    then refs
    else if is_in refs ref
    then refs
    else refs ++ ref ∷ []

-- What the first `n` edges from `start` on add.
abbrev pub refs_from : Program → Batch → List ℕ → ℕ → ℕ → List ℕ
refs_from p batch ids start zero = []
refs_from p batch ids start (suc n) =
    add_ref p batch ids (refs_from p batch ids start n) (get_or batch.evidence_refs (start + n) 0)

-- The references that the edges of a row add.
abbrev pub row_refs : Program → Batch → List ℕ → ℕ → List ℕ
row_refs p batch ids row =
    refs_from p batch ids (get_or batch.evidence_ref_offsets row 0)
      (get_or batch.evidence_ref_offsets (row + 1) 0 - get_or batch.evidence_ref_offsets row 0)

add_ref-length :
    (p : Program) (batch : Batch) (ids refs : List ℕ) (ref : ℕ)
    → length (add_ref p batch ids refs ref) ≤ suc (length refs)
add_ref-length p batch ids refs ref = elim (Bool-cases (ref == 0)) [
  | inl missing ↦ rw missing (omega arith)
  | inr named ↦ elim (Bool-cases (is_required p batch ids ref)) [
    | inr not_asked ↦ rw (named, not_asked) (omega arith)
    | inl asked ↦ elim (Bool-cases (is_in refs ref)) [
      | inl again ↦ rw (named, asked, again) (omega arith)
      | inr new ↦ rw (named, asked, new) (omega (arith, length-append refs (ref ∷ [])))
    ]
  ]
]

pub refs_from-length :
    (p : Program) (batch : Batch) (ids : List ℕ) (start n : ℕ)
    → length (refs_from p batch ids start n) ≤ n
refs_from-length p batch ids start zero = omega arith
refs_from-length p batch ids start (suc n) = omega (
  arith,
  refs_from-length p batch ids start n,
  add_ref-length p batch ids (refs_from p batch ids start n)
      (get_or batch.evidence_refs (start + n) 0),
)

module _ (p : Program) (tables : HasValidTables p) (kind : ℕ) where
  clauses_require-any :
      (ids : List ℕ)
      → Each (IsNumber (length p.clause_symbols)) ids
      → clauses_require p kind ids ≡ ok (any_clause p kind ids)
  unfolding clauses_require
  clauses_require-any [] known = refl
  clauses_require-any (id ∷ ids) ((positive, below), known) =
      elim (Bool-cases (is_in (kinds_of p id) kind)) [
        | inl found ↦ rw (clause_kinds-of p tables id positive below, found) refl
        | inr other ↦
            rw (clause_kinds-of p tables id positive below, other) (clauses_require-any ids known)
      ]

  pub requirements_require-any :
      (dst : ResultBatch) (n i : ℕ)
      → i + n ≤ length dst.requirement_ids.items
      → Each (IsNumber (length p.requirement_symbols)) (take n (drop i dst.requirement_ids.items))
      → requirements_require p dst kind n i
        ≡ ok (any_requirement p kind (take n (drop i dst.requirement_ids.items)))
  unfolding requirements_require
  requirements_require-any dst zero i fits known = refl
  requirements_require-any dst (suc n) i fits known =
      let items = dst.requirement_ids.items in
      let first = get_or items i 0 in
      let parts = drop-cons i items 0 (omega arith) in
      let (here, later) : IsNumber (length p.requirement_symbols) first
          × Each (IsNumber (length p.requirement_symbols)) (take n (drop (suc i) items)) =
        subst (λ (xs : List ℕ). Each (IsNumber (length p.requirement_symbols)) (take (suc n) xs))
          parts known in
      let inside : first - 1 < length p.requirement_symbols = omega (arith, here.0, here.1) in
      let nonzero : first ≢ 0 = λ e. omega (arith, here.0) in
      let own =
        clauses_require-any (clauses_of p (first - 1))
          (Each-get _ (clauses_of p (first - 1)) (clauses_of-known p tables (first - 1) inside)) in
      let rest = requirements_require-any dst n (suc i) (omega arith) later in
      elim (Bool-cases (any_clause p kind (clauses_of p (first - 1)))) [
        | inl found ↦
            rw
              (
                parts,
                nth-get_or items i 0 (omega arith),
                ne→== first 0 nonzero,
                requirement_clauses-of p tables (first - 1) inside,
                own,
                found,
              )
              refl
        | inr other ↦
            rw
              (
                parts,
                nth-get_or items i 0 (omega arith),
                ne→== first 0 nonzero,
                requirement_clauses-of p tables (first - 1) inside,
                own,
                other,
              )
              rest
      ]

same_either_way : (a b : ℕ) → (a == b) ≡ (b == a)
same_either_way a b = ground arith

pub is_duplicate-is_in :
    (refs : List ℕ) (ref n i : ℕ)
    → i + n ≤ length refs
    → is_duplicate refs ref n i ≡ ok (is_in (take n (drop i refs)) ref)
unfolding is_duplicate is_in
is_duplicate-is_in refs ref zero i fits = refl
is_duplicate-is_in refs ref (suc n) i fits =
    let have = get_or refs i 0 in
    let rest = is_duplicate-is_in refs ref n (suc i) (omega arith) in
    rw
      (
        drop-cons i refs 0 (omega arith),
        nth-get_or refs i 0 (omega arith),
        same_either_way ref have,
      )
      (elim (Bool-cases (have == ref)) [ inl found ↦ rw found refl | inr other ↦ rw other rest ])
