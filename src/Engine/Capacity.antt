-- ===== src/Engine/Capacity.antt =====
-- internal/engine/engine.go: the capacities of a session's results.
use native.Mathlib.Decide.{ℕ_discrete, dec_lt}
use native.Mathlib.Nat.{le-div_iff_mul-le, zero-mul, mul-zero}
use verifoxx.Base.{
  ℕ, ◌*◌, ◌/◌, ◌≤◌, ◌≡◌, sym, ap, ◌∙◌, ◌↔◌, some, eq→==, ne→==, lt→ltb, le→ltb, arith,
}
use verifoxx.Engine.{checked_product}
use verifoxx.Eval.Resolve.{max_int}

some_inj : (a b : ℕ) → some a ≡ some b → a ≡ b
some_inj a b h = cc

-- checkedProduct returns a number exactly if the product of its arguments is within an int, and the
-- number is then the product.
pub checked_product_iff :
    (left right n : ℕ)
    → (checked_product left right ≡ some n) ↔ ((left * right ≤ max_int) × (n ≡ left * right))
unfolding checked_product
checked_product_iff left right n = elim (ℕ_discrete left 0) [
  | yes no_left ↦
      let product : left * right ≡ 0 = ap (λ (x : ℕ). x * right) no_left ∙ zero-mul right in
      rw (eq→== left 0 no_left) (
        λ h. (omega arith, sym (some_inj 0 n h) ∙ sym product),
        λ (_, is). ap some (sym (is ∙ product)),
      )
  | no some_left ↦ elim (ℕ_discrete right 0) [
    | yes no_right ↦
        let product : left * right ≡ 0 = ap (λ (x : ℕ). left * x) no_right ∙ mul-zero left in
        rw (ne→== left 0 some_left, eq→== right 0 no_right)
          (
            λ h. (omega arith, sym (some_inj 0 n h) ∙ sym product),
            λ (_, is). ap some (sym (is ∙ product)),
          )
    | no some_right ↦
        let (fits, quotient) : (left ≤ max_int / right) ↔ (left * right ≤ max_int) =
          le-div_iff_mul-le (omega arith) in
        elim (dec_lt (max_int / right) left) [
          | yes large ↦
              rw
                (
                  ne→== left 0 some_left,
                  ne→== right 0 some_right,
                  lt→ltb (max_int / right) left large,
                )
                (λ h. cc, λ (small, is). absurd (omega (arith, quotient small, large)))
          | no small ↦
              let low : left ≤ max_int / right = omega arith in
              rw
                (
                  ne→== left 0 some_left,
                  ne→== right 0 some_right,
                  le→ltb (max_int / right) left low,
                )
                (λ h. (fits low, sym (some_inj (left * right) n h)), λ (_, is). ap some (sym is))
        ]
  ]
]
