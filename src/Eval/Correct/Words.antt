-- ===== src/Eval/Correct/Words.antt =====
-- `evaluateAll`, first half: the word loop and the tail mask combine the operands' planes.
use Prim.Native.Nat.{bit_and}
use mathlib.Core.Path.{ap₂}
use native.Mathlib.Decide.{ℕ_discrete}
use verifoxx.Base.{
  ℕ, ◌+◌, ◌-◌, ◌*◌, ◌/◌, ◌%◌, ◌≤◌, ◌<◌, ◌≡◌, sym, ap, ◌∙◌, Bool, Bool-cases, inl, inr, true, ◌&&◌,
  ◌||◌, List, [], ◌∷◌, map, length, get_or, set, arith, ◌==◌, if◌then◌else◌, ok, nth-get_or,
  store-set, length-set, get_or-set_self, get_or-set_ne, lt→ltb, Returns, returns, Returns-mono,
  ne→==, eq→==,
}
use verifoxx.Base.Bits.{has_bit, has_bit-and, has_bit-mask}
use verifoxx.Eval.Context.{tail_mask}
use verifoxx.Eval.Scalar.{plane_word, store_word, mask_last}
use verifoxx.Eval.Planes.{bit, block, cell_of, cell_bound, cell_inj}
use verifoxx.Eval.Verdicts.{Verdict, Table}
use verifoxx.Eval.RowSpec.{any, all}

-- Operands of instruction `i + 1` name earlier instructions.
abbrev pub Earlier : ℕ → List ℕ → Type 0
Earlier i [] = Unit {0}
Earlier i (op ∷ ops) = (0 < op) × (op ≤ i) × Earlier i ops

-- The word of block `b` that a bit of row `s` is in.
abbrev here : ℕ → ℕ → ℕ → ℕ → Bool
here b word c s = b == c && word == s / 64

module _ (w n : ℕ) (storage : List ℕ) (long : length storage ≡ n * w) (b word : ℕ) (hb : b < n)
    (hw : word < w) where
  inside : b * w + word < length storage
  inside = omega (arith, cell_bound w b n word hw hb)

  pub plane_word-cell : plane_word storage (block w b) word ≡ ok (get_or storage (b * w + word) 0)
  unfolding plane_word
  plane_word-cell = rw (lt→ltb _ _ hw, nth-get_or storage (b * w + word) 0 inside)

  set-bit :
      (value c s : ℕ)
      → s / 64 < w
      → bit w (set storage (b * w + word) value) c s
        ≡ (if here b word c s then has_bit value (s % 64) else bit w storage c s)
  unfolding bit
  set-bit value c s hs = elim (ℕ_discrete (b * w + word) (cell_of w c s)) [
    | yes e ↦
        let (blocks, words) = cell_inj w b c word (s / 64) hw hs e in
        rw (← e, get_or-set_self storage (b * w + word) value 0 inside) (ground arith)
    | no d ↦
        rw (get_or-set_ne storage (b * w + word) (cell_of w c s) value 0 d)
          (ground (arith, ap (λ (t : ℕ). t * w) {x = b} {y = c}))
  ]

  -- A word is replaced and the other bits stay.
  pub store_word-Returns :
      (value : ℕ)
      → Returns
          (λ storage'.
            (length storage' ≡ n * w)
            × ((c s : ℕ)
                → s / 64 < w
                → bit w storage' c s
                  ≡ (if here b word c s then has_bit value (s % 64) else bit w storage c s)))
          (store_word storage (block w b) word value)
  unfolding store_word
  store_word-Returns value =
      rw (lt→ltb _ _ hw, store-set storage (b * w + word) value inside)
        (returns (length-set storage _ _ ∙ long, λ c s hs. set-bit value c s hs))

module _ (w n rows : ℕ) (storage : List ℕ) (long : length storage ≡ n * w) (b : ℕ) (hb : b < n)
    (nonempty : 0 < w) (wide : rows ≤ w * 64) (tight : w * 64 < rows + 64) where
  mask-bit : (s : ℕ) → s < rows → s / 64 ≡ w - 1 → has_bit (tail_mask rows) (s % 64) ≡ true
  unfolding tail_mask
  mask-bit s hs last = elim (ℕ_discrete (rows % 64) 0) [
    | yes e ↦ rw (eq→== _ 0 e, has_bit-mask) (ground arith)
    | no d ↦ rw (ne→== _ 0 d, has_bit-mask) (ground arith)
  ]

  kept :
      (c s : ℕ)
      → s < rows
      → (if here b (w - 1) c s
          then has_bit (bit_and (get_or storage (b * w + (w - 1)) 0) (tail_mask rows)) (s % 64)
          else bit w storage c s)
        ≡ bit w storage c s
  unfolding bit
  kept c s hs = elim (Bool-cases (here b (w - 1) c s)) [
    | inl same ↦
        let at : (b ≡ c) × (w - 1 ≡ s / 64) = ground arith in
        let e : b * w + (w - 1) ≡ cell_of w c s = ap₂ (λ (x y : ℕ). x * w + y) (at.0) (at.1) in
        rw (same, has_bit-and, mask-bit s hs (sym (at.1)), ← e) (ground arith)
    | inr other ↦ rw other
  ]

  -- The tail mask keeps the bits of the rows.
  pub mask_last-Returns :
      Returns
        (λ storage'.
          (length storage' ≡ n * w)
          × ((c s : ℕ) → s < rows → bit w storage' c s ≡ bit w storage c s))
        (mask_last storage (block w b) (tail_mask rows))
  unfolding mask_last
  mask_last-Returns =
      rw (ne→== w 0 (omega arith), plane_word-cell w n storage long b (w - 1) hb (omega arith))
        (Returns-mono (store_word-Returns w n storage long b (w - 1) hb (omega arith) _)
          λ storage' (long', bits). (long', λ c s hs. bits c s (omega arith) ∙ kept c s hs))

pub word-bit :
    (w : ℕ) (storage : List ℕ) (b word r : ℕ)
    → r / 64 ≡ word
    → has_bit (get_or storage (b * w + word) 0) (r % 64) ≡ bit w storage b r
unfolding bit
word-bit w storage b word r e = rw (← e)

pub and_assoc : (a b c : Bool) → ((a && b) && c) ≡ (a && (b && c))
and_assoc a b c = ground arith

pub or_assoc : (a b c : Bool) → ((a || b) || c) ≡ (a || (b || c))
or_assoc a b c = ground arith

-- The verdicts of the operands on a row.
abbrev pub operand_verdicts : Table → List ℕ → ℕ → List Verdict
operand_verdicts t ops r = map (λ op. t (op - 1) r) ops

abbrev pub all_positive : Table → List ℕ → ℕ → Bool
all_positive t ops r = all (λ (v : Verdict). v.positive) (operand_verdicts t ops r)

abbrev pub any_negative : Table → List ℕ → ℕ → Bool
any_negative t ops r = any (λ (v : Verdict). v.negative) (operand_verdicts t ops r)
