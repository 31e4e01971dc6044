-- ===== src/Ast/Policies.antt =====
-- internal/ast/validate.go: a whole policy.
use mathlib.Core.Path.{subst}
use verifoxx.Base.{
  ℕ, ◌+◌, ◌≤◌, ◌≡◌, sym, ap, ◌∙◌, ◌≢◌, Bool, true, false, List, [], ◌∷◌, ◌++◌, arith, ok, >>=-ok,
  rejected,
}
use verifoxx.Base.Text.{Text, trim_space, is_blank, is_member}
use verifoxx.Ast.{Policy, Requirement, Clause, Expression}
use verifoxx.Ast.Clauses.{IsResolved, validate_clause_resolution-IsResolved}
use verifoxx.Ast.Sound.{validate_expression-WellFormed}
use verifoxx.Ast.Validate.{
  Counted, is_empty, has_no_clause, has_no_requirement, validate_expression,
  validate_clause_resolution, validate_clauses, validate_requirements, validate,
  max_expression_depth, max_expression_nodes,
}
use verifoxx.Ast.WellFormed.{WellFormed, node_count, height, true_or_false}

-- An expression that is well formed and not too deep.
pub record IsExpression (allow_evidence : Bool) (e : Expression) : Type 0 where
  pub well_formed : WellFormed allow_evidence e
  pub shallow : height e ≤ max_expression_depth

pub record IsClause (c : Clause) : Type 0 where
  pub named : trim_space c.id ≢ []
  pub assertion : IsExpression true c.assertion
  pub resolved : IsResolved c

abbrev pub EachClause : List Clause → Type 0
EachClause [] = Unit {0}
EachClause (c ∷ clauses) = IsClause c × EachClause clauses

pub record IsRequirement (r : Requirement) : Type 0 where
  pub named : trim_space r.id ≢ []
  pub has_clauses : r.clauses ≢ []
  pub applicability : IsExpression false r.applicability
  pub clauses : EachClause r.clauses

abbrev pub EachRequirement : List Requirement → Type 0
EachRequirement [] = Unit {0}
EachRequirement (r ∷ requirements) = IsRequirement r × EachRequirement requirements

abbrev pub clause_nodes : List Clause → ℕ
clause_nodes [] = 0
clause_nodes (c ∷ clauses) = node_count c.assertion + clause_nodes clauses

-- The nodes of all expressions.
abbrev pub policy_nodes : List Requirement → ℕ
policy_nodes [] = 0
policy_nodes (r ∷ requirements) =
    node_count r.applicability + clause_nodes r.clauses + policy_nodes requirements

-- The identifiers without the spaces around them.
abbrev pub clause_names : List Clause → List Text
clause_names [] = []
clause_names (c ∷ clauses) = trim_space c.id ∷ clause_names clauses

abbrev pub all_clause_names : List Requirement → List Text
all_clause_names [] = []
all_clause_names (r ∷ requirements) = clause_names r.clauses ++ all_clause_names requirements

abbrev pub requirement_names : List Requirement → List Text
requirement_names [] = []
requirement_names (r ∷ requirements) = trim_space r.id ∷ requirement_names requirements

-- Texts that differ from those in a list and from one another.
abbrev pub AllNew : List Text → List Text → Type 0
AllNew seen [] = Unit {0}
AllNew seen (id ∷ ids) = (is_member id seen ≡ false) × AllNew (id ∷ seen) ids

-- The list after more texts are put in.
abbrev pushed : List Text → List Text → List Text
pushed [] seen = seen
pushed (id ∷ ids) seen = pushed ids (id ∷ seen)

AllNew-append :
    (seen xs ys : List Text) → AllNew seen xs → AllNew (pushed xs seen) ys → AllNew seen (xs ++ ys)
AllNew-append seen [] ys h k = k
AllNew-append seen (x ∷ xs) ys (new, h) k = (new, AllNew-append (x ∷ seen) xs ys h k)

pub record IsPolicy (p : Policy) : Type 0 where
  pub has_name : is_blank p.name ≡ false
  pub has_version : is_blank p.version ≡ false
  pub has_requirements : p.requirements ≢ []
  pub requirements : EachRequirement p.requirements
  pub few_nodes : policy_nodes p.requirements ≤ max_expression_nodes
  pub own_names : AllNew [] (requirement_names p.requirements)
  pub own_clause_names : AllNew [] (all_clause_names p.requirements)

not_empty : (t : Text) → is_empty t ≡ false → t ≢ []
unfolding is_empty
not_empty t h e = true_or_false (sym (ap is_empty e) ∙ h)

validate_clauses-EachClause :
    (s : Counted) (clauses : List Clause) (s' : Counted)
    → s.nodes ≤ max_expression_nodes
    → validate_clauses s clauses ≡ ok s'
    → EachClause clauses
      × AllNew s.clause_ids (clause_names clauses)
      × (s'.clause_ids ≡ pushed (clause_names clauses) s.clause_ids)
      × (s'.nodes ≡ s.nodes + clause_nodes clauses)
      × (s'.nodes ≤ max_expression_nodes)
unfolding validate_clauses
validate_clauses-EachClause s [] s' few h =
    let same : s ≡ s' = cc in
    let nodes = ap (λ (x : Counted). x.nodes) same in
    (tt, tt, sym (ap (λ (x : Counted). x.clause_ids) same), omega arith, omega arith)
validate_clauses-EachClause s (c ∷ clauses) s' few h =
    let (named, h₁) = rejected (is_empty (trim_space c.id)) _ _ h in
    let (new, h₂) = rejected (is_member (trim_space c.id) s.clause_ids) _ _ h₁ in
    let (nodes, checked, h₃) = >>=-ok (validate_expression 1 s.nodes true c.assertion) _ h₂ in
    let (well, (tall, count, bound)) =
      validate_expression-WellFormed 1 s.nodes true c.assertion nodes checked in
    let (_, resolves, h₄) = >>=-ok (validate_clause_resolution c) _ h₃ in
    let (each, fresh, ids, total, few') =
      validate_clauses-EachClause
        (record { clause_ids = trim_space c.id ∷ s.clause_ids; nodes = nodes }) clauses s' bound
        h₄ in
    (
      (
        record {
          named = not_empty (trim_space c.id) named;
          assertion = record { well_formed = well; shallow = omega arith };
          resolved = validate_clause_resolution-IsResolved c resolves;
        },
        each,
      ),
      (new, fresh),
      ids,
      omega arith,
      few',
    )

has_clauses : (clauses : List Clause) → has_no_clause clauses ≡ false → clauses ≢ []
unfolding has_no_clause
has_clauses clauses h e = true_or_false (sym (ap has_no_clause e) ∙ h)

validate_requirements-EachRequirement :
    (ids : List Text) (s : Counted) (requirements : List Requirement)
    → s.nodes ≤ max_expression_nodes
    → validate_requirements ids s requirements ≡ ok tt
    → EachRequirement requirements
      × AllNew ids (requirement_names requirements)
      × AllNew s.clause_ids (all_clause_names requirements)
      × (s.nodes + policy_nodes requirements ≤ max_expression_nodes)
unfolding validate_requirements
validate_requirements-EachRequirement ids s [] few h = (tt, tt, tt, omega arith)
validate_requirements-EachRequirement ids s (r ∷ requirements) few h =
    let (named, h₁) = rejected (is_empty (trim_space r.id)) _ _ h in
    let (new, h₂) = rejected (is_member (trim_space r.id) ids) _ _ h₁ in
    let (some_clause, h₃) = rejected (has_no_clause r.clauses) _ _ h₂ in
    let (nodes, checked, h₄) = >>=-ok (validate_expression 1 s.nodes false r.applicability) _ h₃ in
    let (well, (tall, count, bound)) =
      validate_expression-WellFormed 1 s.nodes false r.applicability nodes checked in
    let (counted, inner, h₅) =
      >>=-ok (validate_clauses (record s { nodes = nodes }) r.clauses) _ h₄ in
    let (each, fresh, pushed_ids, total, few') =
      validate_clauses-EachClause (record s { nodes = nodes }) r.clauses counted bound inner in
    let (rest, own, own_clauses, most) =
      validate_requirements-EachRequirement (trim_space r.id ∷ ids) counted requirements few' h₅ in
    (
      (
        record {
          named = not_empty (trim_space r.id) named;
          has_clauses = has_clauses r.clauses some_clause;
          applicability = record { well_formed = well; shallow = omega arith };
          clauses = each;
        },
        rest,
      ),
      (new, own),
      AllNew-append s.clause_ids (clause_names r.clauses) (all_clause_names requirements) fresh (
          subst (λ (seen : List Text). AllNew seen (all_clause_names requirements)) pushed_ids
            own_clauses),
      omega arith,
    )

has_requirement :
    (requirements : List Requirement) → has_no_requirement requirements ≡ false → requirements ≢ []
unfolding has_no_requirement
has_requirement requirements h e = true_or_false (sym (ap has_no_requirement e) ∙ h)

-- If Validate accepts a policy, then it has a name, a version and a requirement; every requirement
-- has an identifier, a clause and an applicability without evidence, and every clause an
-- identifier, an assertion and a resolution in order: each state has one of the four outcomes,
-- explained unless it approves, and remediations are there exactly if a state asks for a revision,
-- each of a known kind of evidence or field. The expressions have exactly their operators' parts,
-- with known fields and values, are at most 32 deep, and have at most 4096 nodes in all; and the
-- identifiers, without the spaces around them, differ among the requirements and among the clauses.
pub validate-IsPolicy : (p : Policy) → validate p ≡ ok tt → IsPolicy p
unfolding validate
validate-IsPolicy p h =
    let (has_name, h₁) = rejected (is_blank p.name) _ _ h in
    let (has_version, h₂) = rejected (is_blank p.version) _ _ h₁ in
    let (some_requirement, h₃) = rejected (has_no_requirement p.requirements) _ _ h₂ in
    let (each, own, own_clauses, few) =
      validate_requirements-EachRequirement [] (record { clause_ids = []; nodes = 0 })
        p.requirements (omega arith) h₃ in
    record {
      has_name = has_name;
      has_version = has_version;
      has_requirements = has_requirement p.requirements some_requirement;
      requirements = each;
      few_nodes = omega arith;
      own_names = own;
      own_clause_names = own_clauses;
    }
