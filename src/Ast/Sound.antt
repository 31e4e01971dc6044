-- ===== src/Ast/Sound.antt =====
-- internal/ast/validate.go: `validateExpression` over a whole expression.
use mathlib.Core.Path.{subst}
use verifoxx.Base.{
  ℕ, suc, ◌+◌, ◌≤◌, ◌≡◌, sym, ap, inl, inr, Bool, true, List, ltb, ltb→le, Bool-cases, arith, Run,
  ok, err, >>=-ok, rejected,
}
use verifoxx.Base.Text.{Text, ◌=ₜ◌, =ₜ_iff}
use verifoxx.Ast.{
  Expression, expression, Expressions, nil, cons, EvidencePredicate, operator_all, operator_equal,
  operator_in, operator_evidence_matches,
}
use verifoxx.Ast.Error.{Error}
use verifoxx.Ast.Validate.{
  validate_equal, validate_in, validate_evidence, validate_all, validate_operator,
  validate_expression, validate_children, max_expression_depth, max_expression_nodes,
}
use verifoxx.Ast.WellFormed.{
  WellFormed, AllWellFormed, IsAll, IsEqual, IsIn, IsEvidence, node_count, node_counts, height,
  heights, validate_equal-IsEqual, validate_in-IsIn, validate_evidence-IsEvidence,
  validate_all-IsAll,
}

refused : {m : ℕ} {e : Error} → ◌≡◌ {A = Run Error ℕ} (err e) (ok m) → ⊥
refused h = cc

module _ (allow_evidence : Bool) (op name value : Text) (values : List Text)
    (children : Expressions) (evidence : EvidencePredicate) (Q : ℕ → Type 0) (nodes m : ℕ)
    (rest : Run Error ℕ) (inner : rest ≡ ok m → AllWellFormed allow_evidence children × Q m)
    (leaf : children ≡ nil → Q nodes) where
  named : (op' : Text) → (op =ₜ op') ≡ true → op' ≡ op
  named op' h = sym ((=ₜ_iff op op').0 h)

  last : (n : ℕ) → ◌≡◌ {A = Run Error ℕ} (ok n) (ok m) → Q n → Q m
  last n h q = let same : n ≡ m = cc in subst Q same q

  validate_operator-WellFormed :
      validate_operator allow_evidence
          (expression op name value values children evidence)
          nodes
          rest
        ≡ ok m
      → WellFormed allow_evidence (expression op name value values children evidence) × Q m
  unfolding validate_operator WellFormed
  validate_operator-WellFormed h = elim (Bool-cases (op =ₜ operator_all)) [
    | inl is_all ↦
        let (_, checked, after) =
          >>=-ok (validate_all name value values children evidence) _ (rw is_all at h) in
        let (kids, q) = inner after in
        let shape = validate_all-IsAll name value values children evidence checked in
        (
          inl (
            subst (λ (o : Text). IsAll o name value values children evidence)
                (named operator_all is_all) shape,
            kids,
          ),
          q,
        )
    | inr not_all ↦ elim (Bool-cases (op =ₜ operator_equal)) [
      | inl is_equal ↦
          let (_, checked, after) =
            >>=-ok (validate_equal name value values children evidence) _
              (rw (not_all, is_equal) at h) in
          let shape = validate_equal-IsEqual name value values children evidence checked in
          (
            inr (
                inl (
                  subst (λ (o : Text). IsEqual o name value values children evidence)
                    (named operator_equal is_equal) shape)),
            last nodes after (leaf shape.no_children),
          )
      | inr not_equal ↦ elim (Bool-cases (op =ₜ operator_in)) [
        | inl is_in ↦
            let (_, checked, after) =
              >>=-ok (validate_in name value values children evidence) _
                (rw (not_all, not_equal, is_in) at h) in
            let shape = validate_in-IsIn name value values children evidence checked in
            (
              inr (
                  inr (
                    inl (
                      subst (λ (o : Text). IsIn o name value values children evidence)
                        (named operator_in is_in) shape))),
              last nodes after (leaf shape.no_children),
            )
        | inr not_in ↦ elim (Bool-cases (op =ₜ operator_evidence_matches)) [
          | inl is_evidence ↦
              let (_, checked, after) =
                >>=-ok (validate_evidence allow_evidence name value values children evidence) _
                  (rw (not_all, not_equal, not_in, is_evidence) at h) in
              let shape =
                validate_evidence-IsEvidence allow_evidence name value values children evidence
                  checked in
              (
                inr (
                    inr (
                      inr (
                        subst
                          (λ (o : Text).
                            IsEvidence o name value values children evidence allow_evidence)
                          (named operator_evidence_matches is_evidence) shape))),
                last nodes after (leaf shape.no_children),
              )
          | inr unsupported ↦
              let wrong = rw (not_all, not_equal, not_in, unsupported) at h in
              absurd (refused wrong)
        ]
      ]
    ]
  ]

-- What a checked part adds: it is as deep as the limit at most, and its nodes are counted.
abbrev Bounded : ℕ → ℕ → ℕ → ℕ → ℕ → Type 0
Bounded depth nodes tall count m =
    (depth + tall ≤ suc max_expression_depth) × (m ≡ nodes + count) × (m ≤ max_expression_nodes)

mutual
  unfolding validate_expression validate_children AllWellFormed node_count node_counts height
      heights

  pub validate_expression-WellFormed :
      (depth nodes : ℕ) (allow_evidence : Bool) (e : Expression) (m : ℕ)
      → validate_expression depth nodes allow_evidence e ≡ ok m
      → WellFormed allow_evidence e × Bounded depth nodes (height e) (node_count e) m
  validate_expression-WellFormed depth nodes allow_evidence
        (expression op name value values children evidence) m h =
      let (shallow, h₁) = rejected (ltb max_expression_depth depth) _ _ h in
      let (few, h₂) = rejected (ltb max_expression_nodes (suc nodes)) _ _ h₁ in
      let deep_enough = ltb→le max_expression_depth depth shallow in
      let few_nodes = ltb→le max_expression_nodes (suc nodes) few in
      validate_operator-WellFormed allow_evidence op name value values children evidence
        (Bounded depth nodes (suc (heights children)) (suc (node_counts children))) (suc nodes) m
        (validate_children (suc depth) (suc nodes) allow_evidence children)
        (λ inner.
          let (kids, (tall, count, bound)) =
            validate_children-WellFormed (suc depth) (suc nodes) allow_evidence children m
              (omega arith) (omega arith) inner in
          (kids, (omega arith, omega arith, bound)))
        (λ none.
          let flat : heights children ≡ 0 = ap heights none in
          let single : node_counts children ≡ 0 = ap node_counts none in
          (omega arith, omega arith, few_nodes))
        h₂

  pub validate_children-WellFormed :
      (depth nodes : ℕ) (allow_evidence : Bool) (es : Expressions) (m : ℕ)
      → depth ≤ suc max_expression_depth
      → nodes ≤ max_expression_nodes
      → validate_children depth nodes allow_evidence es ≡ ok m
      → AllWellFormed allow_evidence es × Bounded depth nodes (heights es) (node_counts es) m
  validate_children-WellFormed depth nodes allow_evidence nil m shallow few h =
      let same : nodes ≡ m = cc in (tt, (omega arith, omega arith, omega arith))
  validate_children-WellFormed depth nodes allow_evidence (cons e es) m shallow few h =
      let (n, first, rest) = >>=-ok (validate_expression depth nodes allow_evidence e) _ h in
      let (well, (tall, count, bound)) =
        validate_expression-WellFormed depth nodes allow_evidence e n first in
      let (wells, (talls, counts, bounds)) =
        validate_children-WellFormed depth n allow_evidence es m shallow bound rest in
      ((well, wells), (omega arith, omega arith, bounds))
