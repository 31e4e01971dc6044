-- ===== src/Ast/Clauses.antt =====
-- internal/ast/validate.go: the resolution and the remediations of a clause.
use mathlib.Core.Path.{subst}
use verifoxx.Base.{
  ℕ, ◌≤◌, ◌≡◌, refl, sym, ◌∙◌, ◌≢◌, ◌↔◌, ◌⊎◌, inl, inr, Bool, true, false, not, ◌&&◌, ◌||◌, some,
  List, [], ◌∷◌, length, ltb, ltb→le, Bool-cases, arith, Run, ok, err, >>=-ok, rejected,
  reject_if-ok,
}
use verifoxx.Base.Text.{Text, ◌=ₜ◌, =ₜ_iff, is_blank}
use verifoxx.Ast.{
  Clause, Remediation, outcome_approve, outcome_revise, remediation_add_evidence,
  remediation_set_field,
}
use verifoxx.Ast.Error.{Error}
use verifoxx.Ast.Validate.{
  is_empty, known_field, valid_outcome, validate_remediation, validate_added, validate_set,
  validate_remediations, resolution_states, validate_states, has_no_remediation,
  validate_clause_resolution, max_explanation_bytes, max_text_bytes,
}
use verifoxx.Ast.WellFormed.{is_empty-nil, known_field-some}
use verifoxx.Schema.{lookup_field, valid_field_value, valid_evidence_kind}

-- The remediation adds evidence of a known kind.
pub record AddsEvidence (r : Remediation) : Type 0 where
  pub action : r.action ≡ remediation_add_evidence
  pub not_blank : is_blank r.evidence_kind ≡ false
  pub known_kind : valid_evidence_kind r.evidence_kind ≡ true
  pub no_field : r.field ≡ []
  pub no_value : r.value ≡ []

-- The remediation sets a known field to one of its values.
pub record SetsField (r : Remediation) : Type 0 where
  pub action : r.action ≡ remediation_set_field
  pub field : ℕ
  pub known : lookup_field r.field ≡ some field
  pub not_blank : is_blank r.value ≡ false
  pub is_valid : valid_field_value field r.value ≡ true
  pub no_kind : r.evidence_kind ≡ []

abbrev pub IsRemediation : Remediation → Type 0
IsRemediation r = (length r.description ≤ max_text_bytes) × (AddsEvidence r ⊎ SetsField r)

abbrev pub EachRemediation : List Remediation → Type 0
EachRemediation [] = Unit {0}
EachRemediation (r ∷ rs) = IsRemediation r × EachRemediation rs

-- An outcome with its explanation, which only an approval may go without.
abbrev pub IsState : Text × Text → Type 0
IsState (outcome, explanation) =
    (valid_outcome outcome ≡ true)
    × (length explanation ≤ max_explanation_bytes)
    × ((outcome ≡ outcome_approve) ⊎ (is_blank explanation ≡ false))

abbrev pub EachState : List (Text × Text) → Type 0
EachState [] = Unit {0}
EachState (s ∷ states) = IsState s × EachState states

abbrev pub any_revise : List (Text × Text) → Bool
any_revise [] = false
any_revise ((outcome, explanation) ∷ states) = outcome =ₜ outcome_revise || any_revise states

-- Every state has its outcome, and the remediations are there exactly for a clause that can ask
-- for a revision.
pub record IsResolved (c : Clause) : Type 0 where
  pub states : EachState (resolution_states c)
  pub remedied : (any_revise (resolution_states c) ≡ true) ↔ (c.remediations ≢ [])
  pub remediations : EachRemediation c.remediations

refused : {e : Error} → ◌≡◌ {A = Run Error (Unit {0})} (err e) (ok tt) → ⊥
refused h = cc

validate_remediation-IsRemediation :
    (r : Remediation) → validate_remediation r ≡ ok tt → IsRemediation r
unfolding validate_remediation validate_added validate_set
validate_remediation-IsRemediation r h =
    let (short, h₁) = rejected (ltb max_text_bytes (length r.description)) _ _ h in
    let few = ltb→le max_text_bytes (length r.description) short in
    elim (Bool-cases (r.action =ₜ remediation_add_evidence)) [
      | inl adds ↦
          let h₂ = rw adds at h₁ in
          let (not_blank, h₃) = rejected (is_blank r.evidence_kind) _ _ h₂ in
          let (known, h₄) = rejected (not (valid_evidence_kind r.evidence_kind)) _ _ h₃ in
          let only = reject_if-ok (not (is_empty r.field) || not (is_empty r.value)) _ tt h₄ in
          (
            few,
            inl (record {
              action = (=ₜ_iff _ _).0 adds;
              not_blank = not_blank;
              known_kind = ground arith;
              no_field = is_empty-nil r.field (ground arith);
              no_value = is_empty-nil r.value (ground arith);
            }),
          )
      | inr other ↦ elim (Bool-cases (r.action =ₜ remediation_set_field)) [
        | inl sets ↦
            let (field, found, h₂) = >>=-ok (known_field r.field) _ (rw (other, sets) at h₁) in
            let (not_blank, h₃) = rejected (is_blank r.value) _ _ h₂ in
            let (fits, h₄) = rejected (not (valid_field_value field r.value)) _ _ h₃ in
            let only = reject_if-ok (not (is_empty r.evidence_kind)) _ tt h₄ in
            (
              few,
              inr (record {
                action = (=ₜ_iff _ _).0 sets;
                field = field;
                known = known_field-some r.field field found;
                not_blank = not_blank;
                is_valid = ground arith;
                no_kind = is_empty-nil r.evidence_kind only;
              }),
            )
        | inr unsupported ↦ absurd (refused (rw (other, unsupported) at h₁))
      ]
    ]

validate_remediations-EachRemediation :
    (rs : List Remediation) → validate_remediations rs ≡ ok tt → EachRemediation rs
unfolding validate_remediations
validate_remediations-EachRemediation [] h = tt
validate_remediations-EachRemediation (r ∷ rs) h =
    let (_, first, rest) = >>=-ok (validate_remediation r) _ h in
    (validate_remediation-IsRemediation r first, validate_remediations-EachRemediation rs rest)

approve_or_explained :
    (outcome explanation : Text)
    → (not (outcome =ₜ outcome_approve) && is_blank explanation) ≡ false
    → (outcome ≡ outcome_approve) ⊎ (is_blank explanation ≡ false)
approve_or_explained outcome explanation h = elim (Bool-cases (outcome =ₜ outcome_approve)) [
  | inl approves ↦ inl ((=ₜ_iff _ _).0 approves)
  | inr other ↦ inr (rw other at h)
]

or_nothing :
    (has_revise b : Bool)
    → ◌≡◌ {A = Run Error Bool} (ok has_revise) (ok b)
    → b ≡ (has_revise || false)
or_nothing has_revise b h = let same : has_revise ≡ b = cc in sym same ∙ (ground arith)

remedied_iff :
    (revises : Bool) (rs : List Remediation)
    → (revises && has_no_remediation rs) ≡ false
    → (not revises && not (has_no_remediation rs)) ≡ false
    → (revises ≡ true) ↔ (rs ≢ [])
unfolding has_no_remediation
remedied_iff true [] h k = cc
remedied_iff true (r ∷ rs) h k = (λ e. λ none. cc, λ there. refl)
remedied_iff false [] h k = (λ e. cc, λ there. absurd (there refl))
remedied_iff false (r ∷ rs) h k = cc

validate_states-EachState :
    (has_revise : Bool) (states : List (Text × Text)) (b : Bool)
    → validate_states has_revise states ≡ ok b
    → EachState states × (b ≡ (has_revise || any_revise states))
unfolding validate_states
validate_states-EachState has_revise [] b h = (tt, or_nothing has_revise b h)
validate_states-EachState has_revise ((outcome, explanation) ∷ states) b h =
    let (valid, h₁) = rejected (not (valid_outcome outcome)) _ _ h in
    let (short, h₂) = rejected (ltb max_explanation_bytes (length explanation)) _ _ h₁ in
    let (explained, h₃) =
      rejected (not (outcome =ₜ outcome_approve) && is_blank explanation) _ _ h₂ in
    let (each, revises) =
      validate_states-EachState (has_revise || outcome =ₜ outcome_revise) states b h₃ in
    (
      (
        (
          ground arith,
          ltb→le max_explanation_bytes (length explanation) short,
          approve_or_explained outcome explanation explained,
        ),
        each,
      ),
      revises ∙ (ground arith),
    )

pub validate_clause_resolution-IsResolved :
    (c : Clause) → validate_clause_resolution c ≡ ok tt → IsResolved c
unfolding validate_clause_resolution has_no_remediation
validate_clause_resolution-IsResolved c h =
    let (revises, first, h₁) = >>=-ok (validate_states false (resolution_states c)) _ h in
    let (each, is) = validate_states-EachState false (resolution_states c) revises first in
    let (has, h₂) = rejected (revises && has_no_remediation c.remediations) _ _ h₁ in
    let (needs, h₃) = rejected (not revises && not (has_no_remediation c.remediations)) _ _ h₂ in
    record {
      states = each;
      remedied =
          subst (λ (b : Bool). (b ≡ true) ↔ (c.remediations ≢ [])) is
            (remedied_iff revises c.remediations has needs);
      remediations = validate_remediations-EachRemediation c.remediations h₃;
    }
