-- ===== src/Eval/Planes.antt =====
-- The bits of a plane storage: bit `r` of block `b`, where a block is `w` words. What the writes of
-- context.go do to them.
use Prim.Native.Nat.{bit_or}
use verifoxx.Base.{
  ℕ, ◌+◌, ◌*◌, ◌/◌, ◌%◌, ◌^◌, ◌≤◌, ◌<◌, ◌≡◌, ap, ◌∙◌, ◌≢◌, Bool, ◌&&◌, ◌||◌, List, length, get_or,
  set, arith, ◌==◌, lt→ltb, ok, nth-get_or, store-set, length-set, get_or-set_self, get_or-set_ne,
  Returns, returns,
}
use native.Mathlib.Decide.{ℕ_discrete}
use verifoxx.Base.Bits.{has_bit, has_bit-or, has_bit-pow}
use verifoxx.Eval.Context.{Plane, set_row, has_row_in}

-- Where bit `r` of block `b` lies.
abbrev pub cell_of : ℕ → ℕ → ℕ → ℕ
cell_of w b r = b * w + r / 64

unfoldable pub bit : ℕ → List ℕ → ℕ → ℕ → Bool
bit w storage b r = has_bit (get_or storage (cell_of w b r) 0) (r % 64)

abbrev pub block : ℕ → ℕ → Plane
block w b = record { start = b * w; size = w }

pub cell_bound : (w b n x : ℕ) → x < w → b < n → b * w + x < n * w
cell_bound w b n x p q = grind arith

-- Two positions in blocks share a word only in the same block.
pub cell_inj : (w b c x y : ℕ) → x < w → y < w → b * w + x ≡ c * w + y → (b ≡ c) × (x ≡ y)
cell_inj w b c x y p q e =
    let not_below : ¬ (b < c) = λ h. omega (arith, cell_bound w b c x p h) in
    let not_above : ¬ (c < b) = λ h. omega (arith, cell_bound w c b y q h) in
    let same : b ≡ c = omega arith in (same, omega (arith, ap (λ (t : ℕ). t * w) same))

-- Two rows are the same when their words and their bits are.
row_inj : (r s : ℕ) → r / 64 ≡ s / 64 → r % 64 ≡ s % 64 → r ≡ s
row_inj r s p q = omega arith

abbrev pub same_bit : ℕ → ℕ → ℕ → ℕ → Bool
same_bit b r c s = b == c && r == s

module _ (w n : ℕ) (storage : List ℕ) (long : n * w ≤ length storage) where
  module _ (b c r s : ℕ) (hb : b < n) (hr : r / 64 < w) (hs : s / 64 < w) where
    -- A write in the word that the bit is read from, and in another word.
    bit-set_here :
        cell_of w b r ≡ cell_of w c s
        → bit w
            (set storage (cell_of w b r) (bit_or (get_or storage (cell_of w b r) 0) (2 ^ (r % 64))))
            c
            s
          ≡ (same_bit b r c s || bit w storage c s)
    unfolding bit
    bit-set_here e =
        let (blocks, words) = cell_inj w b c (r / 64) (s / 64) hr hs e in
        rw
          (
            ← e,
            get_or-set_self storage (cell_of w b r) _ 0
                (omega (arith, cell_bound w b n (r / 64) hr hb)),
            has_bit-or,
            has_bit-pow,
          )
          (ground (arith, row_inj r s))

    bit-set_elsewhere :
        cell_of w b r ≢ cell_of w c s
        → bit w
            (set storage (cell_of w b r) (bit_or (get_or storage (cell_of w b r) 0) (2 ^ (r % 64))))
            c
            s
          ≡ (same_bit b r c s || bit w storage c s)
    unfolding bit
    bit-set_elsewhere d =
        rw (get_or-set_ne storage (cell_of w b r) (cell_of w c s) _ 0 d)
          (ground (arith, ap (λ (t : ℕ). t * w) {x = b} {y = c}))

    -- `setRow` sets its bit and no other.
    pub bit-set :
        bit w
          (set storage (cell_of w b r) (bit_or (get_or storage (cell_of w b r) 0) (2 ^ (r % 64))))
          c
          s
        ≡ (same_bit b r c s || bit w storage c s)
    bit-set = elim (ℕ_discrete (cell_of w b r) (cell_of w c s)) [
      | yes e ↦ bit-set_here e
      | no d ↦ bit-set_elsewhere d
    ]

module _ (w n : ℕ) (storage : List ℕ) (long : length storage ≡ n * w) where
  -- On a store of n blocks of w words, setRow on the row r of the block b, with b < n and r within
  -- the block's words, returns, keeps the store's length, sets the bit of b and r, and changes no
  -- other bit.
  pub set_row-Returns :
      (b r : ℕ)
      → b < n
      → r / 64 < w
      → Returns
          (λ storage'.
            (length storage' ≡ n * w)
            × ((c s : ℕ)
                → s / 64 < w
                → bit w storage' c s ≡ (same_bit b r c s || bit w storage c s)))
          (set_row storage (block w b) r)
  unfolding set_row
  set_row-Returns b r hb hr =
      let inside : cell_of w b r < length storage =
        omega (arith, cell_bound w b n (r / 64) hr hb) in
      rw
        (
          lt→ltb _ _ hr,
          nth-get_or storage (cell_of w b r) 0 inside,
          store-set storage (cell_of w b r) _ inside,
        )
        (returns (
          length-set storage _ _ ∙ long,
          λ c s hs. bit-set w n storage (omega arith) b c r s hb hr hs,
        ))

  pub has_row_in-bit :
      (b r : ℕ) → b < n → r / 64 < w → has_row_in storage (block w b) r ≡ ok (bit w storage b r)
  unfolding has_row_in bit
  has_row_in-bit b r hb hr = rw (
    lt→ltb _ _ hr,
    nth-get_or storage (cell_of w b r) 0 (omega (arith, cell_bound w b n (r / 64) hr hb)),
  )
