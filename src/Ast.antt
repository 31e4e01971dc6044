-- ===== src/Ast.antt =====
-- internal/ast: a policy as it is written (policy.go, expression.go). The operators, outcomes and
-- actions are strings, of which Validate accepts a few.
pub mod Error
pub mod Validate
pub mod WellFormed
pub mod Sound
pub mod Clauses
pub mod Policies
use verifoxx.Base.{ℕ, Bool, List, []}
use verifoxx.Base.Text.{Text, bytes}

abbrev pub operator_all : Text
operator_all = bytes "all"

abbrev pub operator_equal : Text
operator_equal = bytes "equal"

abbrev pub operator_in : Text
operator_in = bytes "in"

abbrev pub operator_evidence_matches : Text
operator_evidence_matches = bytes "evidence_matches"

pub record EvidencePredicate : Type 0 where
  pub kind : Text
  pub status : Text
  pub timing : Text
  pub reviewer : Text
  pub timestamp_state : Text
  pub subject : Text
  pub attestation_state : Text
  pub scope : Text
  pub adjustment_type : Text

-- `EvidencePredicate{}`
abbrev pub no_evidence : EvidencePredicate
no_evidence = record {
  kind = [];
  status = [];
  timing = [];
  reviewer = [];
  timestamp_state = [];
  subject = [];
  attestation_state = [];
  scope = [];
  adjustment_type = [];
}

-- An expression: its operator, field, value, values, children and evidence.
mutual
  pub data Expression : Type 0 where
    expression : Text → Text → Text → List Text → Expressions → EvidencePredicate → Expression

  pub data Expressions : Type 0 where
    nil : Expressions
    cons : Expression → Expressions → Expressions

abbrev pub outcome_approve : Text
outcome_approve = bytes "Approve"

abbrev pub outcome_reject : Text
outcome_reject = bytes "Reject"

abbrev pub outcome_revise : Text
outcome_revise = bytes "Revise"

abbrev pub outcome_escalate : Text
outcome_escalate = bytes "Escalate"

-- An outcome for each reason.
pub record Resolution : Type 0 where
  pub satisfied : Text
  pub refuted : Text
  pub missing : Text
  pub invalid : Text
  pub stale : Text
  pub unclear : Text
  pub unverifiable : Text
  pub conflict : Text

pub record Explanations : Type 0 where
  pub satisfied : Text
  pub refuted : Text
  pub missing : Text
  pub invalid : Text
  pub stale : Text
  pub unclear : Text
  pub unverifiable : Text
  pub conflict : Text

abbrev pub remediation_add_evidence : Text
remediation_add_evidence = bytes "add_evidence"

abbrev pub remediation_set_field : Text
remediation_set_field = bytes "set_field"

pub record Remediation : Type 0 where
  pub action : Text
  pub evidence_kind : Text
  pub description : Text
  pub field : Text
  pub value : Text

pub record Clause : Type 0 where
  pub id : Text
  pub assertion : Expression
  pub resolution : Resolution
  pub explanations : Explanations
  pub remediations : List Remediation

pub record Requirement : Type 0 where
  pub id : Text
  pub description : Text
  pub non_negotiable : Bool
  pub applicability : Expression
  pub clauses : List Clause

pub record Policy : Type 0 where
  pub name : Text
  pub version : Text
  pub requirements : List Requirement
