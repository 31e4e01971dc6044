-- ===== src/Ast/WellFormed.antt =====
-- Expressions beside what `validateExpression` (internal/ast/validate.go) asks for: each operator with
-- exactly its own fields, within the depth and the node count.
use mathlib.Core.Path.{subst}
use Prim.Native.Nat.{max}
use verifoxx.Base.{
  ℕ, suc, ◌+◌, ◌≡◌, refl, sym, ap, ◌∙◌, ◌≢◌, ◌⊎◌, inl, inr, Bool, true, false, not, ◌&&◌, ◌||◌,
  Option, none, some, List, [], ◌∷◌, Option-cases, arith, Run, ok, err, >>=-ok, rejected,
  reject_if-ok,
}
use verifoxx.Base.Text.{Text, is_blank, is_member}
use verifoxx.Ast.{
  Expression, expression, Expressions, nil, cons, EvidencePredicate, no_evidence, operator_all,
  operator_equal, operator_in, operator_evidence_matches,
}
use verifoxx.Ast.Error.{Error}
use verifoxx.Ast.Validate.{
  is_empty, is_empty_list, is_leaf, is_no_evidence, known_field, validate_equal, validate_values,
  validate_in, validate_evidence, validate_all,
}
use verifoxx.Schema.{lookup_field, valid_field_value, valid_evidence_kind}

-- The nodes of an expression and its height, 1 for an expression without children.
unfoldable mutual
  pub node_count : Expression → ℕ
  node_count (expression op name value values children evidence) = suc (node_counts children)

  pub node_counts : Expressions → ℕ
  node_counts nil = 0
  node_counts (cons e es) = node_count e + node_counts es

unfoldable mutual
  pub height : Expression → ℕ
  height (expression op name value values children evidence) = suc (heights children)

  pub heights : Expressions → ℕ
  heights nil = 0
  heights (cons e es) = max (height e) (heights es)

-- Each value is not blank, is one of the field's, and differs from those before it.
abbrev pub IsValueSet : ℕ → List Text → List Text → Type 0
IsValueSet field seen [] = Unit {0}
IsValueSet field seen (value ∷ values) =
    (is_blank value ≡ false)
    × (is_member value seen ≡ false)
    × (valid_field_value field value ≡ true)
    × IsValueSet field (value ∷ seen) values

module _ (op name value : Text) (values : List Text) (children : Expressions)
    (evidence : EvidencePredicate) where
  pub record IsAll : Type 0 where
    pub operator : op ≡ operator_all
    pub has_children : children ≢ nil
    pub no_field : name ≡ []
    pub no_value : value ≡ []
    pub no_values : values ≡ []
    pub none : evidence ≡ no_evidence

  pub record IsEqual : Type 0 where
    pub operator : op ≡ operator_equal
    pub field : ℕ
    pub known : lookup_field name ≡ some field
    pub not_blank : is_blank value ≡ false
    pub is_valid : valid_field_value field value ≡ true
    pub no_values : values ≡ []
    pub no_children : children ≡ nil
    pub none : evidence ≡ no_evidence

  pub record IsIn : Type 0 where
    pub operator : op ≡ operator_in
    pub field : ℕ
    pub known : lookup_field name ≡ some field
    pub has_values : values ≢ []
    pub value_set : IsValueSet field [] values
    pub no_value : value ≡ []
    pub no_children : children ≡ nil
    pub none : evidence ≡ no_evidence

  pub record IsEvidence (allow_evidence : Bool) : Type 0 where
    pub operator : op ≡ operator_evidence_matches
    pub is_allowed : allow_evidence ≡ true
    pub not_blank : is_blank evidence.kind ≡ false
    pub known_kind : valid_evidence_kind evidence.kind ≡ true
    pub no_field : name ≡ []
    pub no_value : value ≡ []
    pub no_values : values ≡ []
    pub no_children : children ≡ nil

unfoldable mutual
  pub WellFormed : Bool → Expression → Type 0
  WellFormed allow_evidence (expression op name value values children evidence) =
      (IsAll op name value values children evidence × AllWellFormed allow_evidence children)
      ⊎ IsEqual op name value values children evidence
      ⊎ IsIn op name value values children evidence
      ⊎ IsEvidence op name value values children evidence allow_evidence

  pub AllWellFormed : Bool → Expressions → Type 0
  AllWellFormed allow_evidence nil = Unit {0}
  AllWellFormed allow_evidence (cons e es) =
      WellFormed allow_evidence e × AllWellFormed allow_evidence es

pub true_or_false : ¬ (true ≡ false)
true_or_false h = cc

pub is_empty-nil : (t : Text) → not (is_empty t) ≡ false → t ≡ []
unfolding is_empty
is_empty-nil [] h = refl
is_empty-nil (b ∷ t) h = cc

is_empty_list-nil : (vs : List Text) → not (is_empty_list vs) ≡ false → vs ≡ []
unfolding is_empty_list
is_empty_list-nil [] h = refl
is_empty_list-nil (v ∷ vs) h = cc

is_leaf-nil : (es : Expressions) → not (is_leaf es) ≡ false → es ≡ nil
unfolding is_leaf
is_leaf-nil nil h = refl
is_leaf-nil (cons e es) h = cc

empty_fields :
    (a b c d e f g i j : Text)
    → not (
        is_empty a
        && is_empty b
        && is_empty c
        && is_empty d
        && is_empty e
        && is_empty f
        && is_empty g
        && is_empty i
        && is_empty j)
      ≡ false
    → ◌≡◌ {A = EvidencePredicate}
        (record {
          kind = a;
          status = b;
          timing = c;
          reviewer = d;
          timestamp_state = e;
          subject = f;
          attestation_state = g;
          scope = i;
          adjustment_type = j;
        })
        no_evidence
unfolding is_empty
empty_fields [] [] [] [] [] [] [] [] [] h = refl
empty_fields (x ∷ xs) b c d e f g i j h = cc
empty_fields [] (x ∷ xs) c d e f g i j h = cc
empty_fields [] [] (x ∷ xs) d e f g i j h = cc
empty_fields [] [] [] (x ∷ xs) e f g i j h = cc
empty_fields [] [] [] [] (x ∷ xs) f g i j h = cc
empty_fields [] [] [] [] [] (x ∷ xs) g i j h = cc
empty_fields [] [] [] [] [] [] (x ∷ xs) i j h = cc
empty_fields [] [] [] [] [] [] [] (x ∷ xs) j h = cc
empty_fields [] [] [] [] [] [] [] [] (x ∷ xs) h = cc

no_evidence-none : (e : EvidencePredicate) → not (is_no_evidence e) ≡ false → e ≡ no_evidence
unfolding is_no_evidence
no_evidence-none e h =
    empty_fields e.kind e.status e.timing e.reviewer e.timestamp_state e.subject e.attestation_state
      e.scope e.adjustment_type h

abbrev known_or_error : Option ℕ → Run Error ℕ
known_or_error o = elim o [ none ↦ err Error.unknown_field | some field ↦ ok field ]

pub known_field-some :
    (name : Text) (field : ℕ) → known_field name ≡ ok field → lookup_field name ≡ some field
unfolding known_field
known_field-some name field h = elim (Option-cases (lookup_field name)) [
  | inl unknown ↦
      let wrong = subst (λ (o : Option ℕ). known_or_error o ≡ ok field) unknown h in absurd (cc)
  | inr (id, found) ↦
      let right = subst (λ (o : Option ℕ). known_or_error o ≡ ok field) found h in found ∙ (cc)
]

pub validate_equal-IsEqual :
    (name value : Text) (values : List Text) (children : Expressions) (evidence : EvidencePredicate)
    → validate_equal name value values children evidence ≡ ok tt
    → IsEqual operator_equal name value values children evidence
unfolding validate_equal
validate_equal-IsEqual name value values children evidence h =
    let (field, found, h₁) = >>=-ok (known_field name) _ h in
    let (not_blank, h₂) = rejected (is_blank value) _ _ h₁ in
    let (fits, h₃) = rejected (not (valid_field_value field value)) _ _ h₂ in
    let (single, h₄) = rejected (not (is_empty_list values)) _ _ h₃ in
    let only = reject_if-ok (not (is_leaf children) || not (is_no_evidence evidence)) _ tt h₄ in
    record {
      operator = refl;
      field = field;
      known = known_field-some name field found;
      not_blank = not_blank;
      is_valid = ground arith;
      no_values = is_empty_list-nil values single;
      no_children = is_leaf-nil children (ground arith);
      none = no_evidence-none evidence (ground arith);
    }

validate_values-IsValueSet :
    (field : ℕ) (seen values : List Text)
    → validate_values field seen values ≡ ok tt
    → IsValueSet field seen values
unfolding validate_values
validate_values-IsValueSet field seen [] h = tt
validate_values-IsValueSet field seen (value ∷ values) h =
    let (not_blank, h₁) = rejected (is_blank value) _ _ h in
    let (new, h₂) = rejected (is_member value seen) _ _ h₁ in
    let (fits, h₃) = rejected (not (valid_field_value field value)) _ _ h₂ in
    (not_blank, new, ground arith, validate_values-IsValueSet field (value ∷ seen) values h₃)

pub validate_in-IsIn :
    (name value : Text) (values : List Text) (children : Expressions) (evidence : EvidencePredicate)
    → validate_in name value values children evidence ≡ ok tt
    → IsIn operator_in name value values children evidence
unfolding validate_in is_empty_list
validate_in-IsIn name value values children evidence h =
    let (field, found, h₁) = >>=-ok (known_field name) _ h in
    let (some_value, h₂) = rejected (is_empty_list values) _ _ h₁ in
    let (only, h₃) =
      rejected (not (is_empty value) || not (is_leaf children) || not (is_no_evidence evidence)) _ _
        h₂ in
    record {
      operator = refl;
      field = field;
      known = known_field-some name field found;
      has_values = λ e. absurd (true_or_false (sym (ap is_empty_list e) ∙ some_value));
      value_set = validate_values-IsValueSet field [] values h₃;
      no_value = is_empty-nil value (ground arith);
      no_children = is_leaf-nil children (ground arith);
      none = no_evidence-none evidence (ground arith);
    }

pub validate_evidence-IsEvidence :
    (allow_evidence : Bool) (name value : Text) (values : List Text) (children : Expressions)
    (evidence : EvidencePredicate)
    → validate_evidence allow_evidence name value values children evidence ≡ ok tt
    → IsEvidence operator_evidence_matches name value values children evidence allow_evidence
unfolding validate_evidence
validate_evidence-IsEvidence allow_evidence name value values children evidence h =
    let (allowed, h₁) = rejected (not allow_evidence) _ _ h in
    let (not_blank, h₂) = rejected (is_blank evidence.kind) _ _ h₁ in
    let (known, h₃) = rejected (not (valid_evidence_kind evidence.kind)) _ _ h₂ in
    let only =
      reject_if-ok
        (not (is_empty name)
          || not (is_empty value)
          || not (is_empty_list values)
          || not (is_leaf children))
        _ tt h₃ in
    record {
      operator = refl;
      is_allowed = ground arith;
      not_blank = not_blank;
      known_kind = ground arith;
      no_field = is_empty-nil name (ground arith);
      no_value = is_empty-nil value (ground arith);
      no_values = is_empty_list-nil values (ground arith);
      no_children = is_leaf-nil children (ground arith);
    }

pub validate_all-IsAll :
    (name value : Text) (values : List Text) (children : Expressions) (evidence : EvidencePredicate)
    → validate_all name value values children evidence ≡ ok tt
    → IsAll operator_all name value values children evidence
unfolding validate_all is_leaf
validate_all-IsAll name value values children evidence h =
    let (inner, h₁) = rejected (is_leaf children) _ _ h in
    let only =
      reject_if-ok
        (not (is_empty name)
          || not (is_empty value)
          || not (is_empty_list values)
          || not (is_no_evidence evidence))
        _ tt h₁ in
    record {
      operator = refl;
      has_children = λ e. absurd (true_or_false (sym (ap is_leaf e) ∙ inner));
      no_field = is_empty-nil name (ground arith);
      no_value = is_empty-nil value (ground arith);
      no_values = is_empty_list-nil values (ground arith);
      none = no_evidence-none evidence (ground arith);
    }
