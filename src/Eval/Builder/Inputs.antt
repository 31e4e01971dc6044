-- ===== src/Eval/Builder/Inputs.antt =====
-- internal/eval/builder.go: the loops of `BuildInto` that check the requests and the evidence
-- records, beside what they accept.
use native.Mathlib.Nat.{mod-eq_of_lt}
use verifoxx.Base.{
  ℕ, suc, ◌+◌, ◌^◌, ◌≤◌, ◌<◌, ◌≡◌, refl, sym, ap, ◌∙◌, ◌≢◌, true, false, ◌||◌, List, [], ◌∷◌,
  length, length-append, ltb, ◌==◌, if◌then◌else◌, arith, ltb→le, ne→==, Bool-cases, inl, inr,
  Settles, settled, Settles-bind, Settles-mono, Settles-check,
}
use verifoxx.Base.Text.{Text, is_member, ◌=ₜ◌, =ₜ_iff, is_malformed}
use verifoxx.Eval.Context.{u32}
use verifoxx.Eval.Builder.{
  record_number, has_record, check_references, check_requests, check_records,
}
use verifoxx.Eval.Builder.References.{all_refs}
use verifoxx.Input.{Request, EvidenceInput}

-- The number of the record with an identifier, counted from `i + 1`, 0 if there is none.
abbrev pub number_from : ℕ → Text → List EvidenceInput → ℕ
number_from i ref [] = 0
number_from i ref (e ∷ records) =
    let later = number_from (suc i) ref records in if ref =ₜ e.id then suc i else later

pub number_from-bound :
    (i : ℕ) (ref : Text) (records : List EvidenceInput)
    → number_from i ref records ≤ i + length records
number_from-bound i ref [] = omega arith
number_from-bound i ref (e ∷ records) =
    let later = number_from-bound (suc i) ref records in
    elim (Bool-cases (ref =ₜ e.id)) [
      | inl here ↦ rw here (omega arith)
      | inr there ↦ rw there (omega arith)
    ]

true_or_false : ¬ (true ≡ false)
true_or_false h = cc

-- What the loop over the records, from the `i`-th on, adds to the numbers it has: the records that
-- follow have other identifiers than those seen, and each gets its number.
pub record Numbered (i : ℕ) (records : List EvidenceInput) (ids ids' : List (Text × ℕ))
    : Type 0 where
  pub number :
      (ref : Text)
      → record_number ref ids' ≡ (
          if number_from i ref records == 0
          then record_number ref ids
          else number_from i ref records)
  pub other : (ref : Text) → has_record ref ids ≡ true → number_from i ref records ≡ 0

Numbered-cons :
    (i : ℕ) (e : EvidenceInput) (records : List EvidenceInput) (ids ids' : List (Text × ℕ))
    → suc i < 2 ^ 32
    → has_record e.id ids ≡ false
    → Numbered (suc i) records ((e.id, u32 (i + 1)) ∷ ids) ids'
    → Numbered i (e ∷ records) ids ids'
unfolding record_number has_record
Numbered-cons i e records ids ids' few new h = record {
  number = λ ref.
      let exact : u32 (i + 1) ≡ suc i = mod-eq_of_lt (omega arith) ∙ (omega arith) in
      elim (Bool-cases (ref =ₜ e.id)) [
        | inl here ↦
            let seen : (ref =ₜ e.id || has_record ref ids) ≡ true = rw here refl in
            let last = h.other ref seen in
            let nonzero : suc i ≢ 0 = λ z. omega arith in
            let found = h.number ref in
            rw (here, ne→== (suc i) 0 nonzero) (found ∙ (rw (last, here) exact))
        | inr there ↦ let found = h.number ref in rw there (found ∙ (rw there refl))
      ];
  other = λ ref seen. elim (Bool-cases (ref =ₜ e.id)) [
    | inl here ↦
        let same = (=ₜ_iff ref e.id).0 here in
        absurd (true_or_false (sym seen ∙ ap (λ (x : Text). has_record x ids) same ∙ new))
    | inr there ↦
        let also : (ref =ₜ e.id || has_record ref ids) ≡ true = rw there seen in
        rw there (h.other ref also)
  ];
}

pub check_records-Settles :
    (i : ℕ) (records : List EvidenceInput) (ids : List (Text × ℕ))
    → i + length records < 2 ^ 32
    → Settles (Numbered i records ids) (check_records i records ids)
unfolding check_records
check_records-Settles i [] ids few =
    settled (record { number = λ ref. refl; other = λ ref seen. refl })
check_records-Settles i (e ∷ records) ids few = Settles-check (is_malformed e.id) _ _ λ well.
    Settles-check (has_record e.id ids) _ _ λ new.
      Settles-mono (check_records-Settles (suc i) records ((e.id, u32 (i + 1)) ∷ ids) (omega arith))
        λ ids'. Numbered-cons i e records ids ids' (omega arith) new

check_references-Settles :
    (i j : ℕ) (refs : List Text) → Settles (λ u. Unit {0}) (check_references i j refs)
unfolding check_references
check_references-Settles i j [] = settled tt
check_references-Settles i j (ref ∷ refs) =
    Settles-check (is_malformed ref) _ _ λ fine. check_references-Settles i (suc j) refs

pub check_requests-Settles :
    (max_edges i : ℕ) (requests : List Request) (seen : List Text) (edges : ℕ)
    → edges ≤ max_edges
    → Settles
        (λ n. (n ≡ edges + length (all_refs requests)) × (n ≤ max_edges))
        (check_requests max_edges i requests seen edges)
unfolding check_requests
check_requests-Settles max_edges i [] seen edges few = settled (omega arith, few)
check_requests-Settles max_edges i (q ∷ requests) seen edges few =
    Settles-check (is_malformed q.id) _ _ λ well. Settles-check (is_member q.id seen) _ _ λ new.
      Settles-check (ltb max_edges (edges + length q.evidence_ids)) _ _ λ fit.
        Settles-bind (check_references-Settles i 0 q.evidence_ids) λ u u'.
          Settles-mono
            (check_requests-Settles max_edges (suc i) requests (q.id ∷ seen)
              (edges + length q.evidence_ids)
              (ltb→le max_edges (edges + length q.evidence_ids) fit))
            λ n (total, few').
              (omega (arith, length-append q.evidence_ids (all_refs requests)), few')
