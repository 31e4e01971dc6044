-- ===== src/Base/Bits.antt =====
-- Words read bit by bit. `has_bit w k` is the program's own test `w & (1 << k) != 0`, and the laws
-- say what `|`, `&`, a single bit, the full word and a low mask do to it at every width.
use Prim.Native.Nat.{min, max, digits, bitwise, bit_and, bit_or, bit_and-bitwise, bit_or-bitwise}
use native.Mathlib.Nat.{le_refl, pow-suc, one-le-pow}
use Prim.Native.Nat.{ℕ, zero, suc, ◌+◌, ◌-◌, ◌*◌, ◌/◌, ◌%◌, ◌^◌, ◌≤◌}
use mathlib.Core.Path.{◌≡◌, refl, ◌∙◌}
use mathlib.Core.Bool.{Bool, false, not, ◌&&◌, ◌||◌}
use native.Mathlib.Omega.{arith}
use verifoxx.Base.Tests.{ltb, ◌==◌}

-- Rounds past the number's own size change nothing.
module _ (past : ℕ → ℕ) (combine : ℕ → ℕ → ℕ) where
  spare_rounds :
      (x y : ℕ) (few many : ℕ)
      → x ≤ few
      → few ≤ many
      → digits past combine many x y ≡ digits past combine few x y
  spare_rounds zero y zero zero low high = refl
  spare_rounds zero y zero (suc many) low high = refl
  spare_rounds zero y (suc few) zero low high = absurd (omega arith)
  spare_rounds zero y (suc few) (suc many) low high = refl
  spare_rounds (suc x) y zero many low high = absurd (omega arith)
  spare_rounds (suc x) y (suc few) zero low high = absurd (omega arith)
  spare_rounds (suc x) y (suc few) (suc many) low high =
      rw (spare_rounds (suc x / 2) (y / 2) few many (omega arith) (omega arith))

  bitwise_step :
      (x y : ℕ)
      → bitwise past combine (suc x) y
        ≡ bitwise past combine (suc x / 2) (y / 2) * 2 + combine (suc x % 2) (y % 2)
  bitwise_step x y =
      omega (arith, spare_rounds (suc x / 2) (y / 2) (suc x / 2) x (omega arith) (omega arith))

-- The last digit and the halves of `|` and `&`.
or_halves : (x y : ℕ) → bit_or x y ≡ max (x % 2) (y % 2) + bit_or (x / 2) (y / 2) * 2
or_halves zero y = simp bit_or-bitwise (omega arith)
or_halves (suc x) y = simp bit_or-bitwise (omega (arith, bitwise_step (λ rest. rest) max x y))

and_halves : (x y : ℕ) → bit_and x y ≡ min (x % 2) (y % 2) + bit_and (x / 2) (y / 2) * 2
and_halves zero y = simp bit_and-bitwise (omega arith)
and_halves (suc x) y = simp bit_and-bitwise (omega (arith, bitwise_step (λ rest. 0) min x y))

-- `w & (uint64(1) << k) != 0`
pub has_bit : ℕ → ℕ → Bool
has_bit w k = not (bit_and w (2 ^ k) == 0)

-- The k-th binary digit.
digit : ℕ → ℕ → Bool
digit w zero = w % 2 == 1
digit w (suc k) = digit (w / 2) k

-- Nothing is shared with 0; on a bound for the halving.
shares_nothing : (bound x : ℕ) → x ≤ bound → bit_and x 0 ≡ 0
shares_nothing bound zero small = refl
shares_nothing zero (suc x) small = absurd (omega arith)
shares_nothing (suc bound) (suc x) small =
    let half : bit_and (suc x / 2) 0 ≡ 0 = shares_nothing bound (suc x / 2) (omega arith) in
    omega (arith, and_halves (suc x) 0)

has_bit-digit : (k w : ℕ) → has_bit w k ≡ digit w k
unfolding has_bit digit
has_bit-digit zero w = ground (arith, and_halves w 1, shares_nothing (w / 2) (w / 2) (le_refl _))
has_bit-digit (suc k) w =
    ground (arith, has_bit-digit k (w / 2), and_halves w (2 ^ suc k), pow-suc 2 k)

digit-or : (k a b : ℕ) → digit (bit_or a b) k ≡ digit a k || digit b k
unfolding digit
digit-or zero a b = ground (arith, or_halves a b)
digit-or (suc k) a b =
    let e : bit_or a b / 2 ≡ bit_or (a / 2) (b / 2) = omega (arith, or_halves a b) in
    rw e (digit-or k (a / 2) (b / 2))

digit-and : (k a b : ℕ) → digit (bit_and a b) k ≡ digit a k && digit b k
unfolding digit
digit-and zero a b = ground (arith, and_halves a b)
digit-and (suc k) a b =
    let e : bit_and a b / 2 ≡ bit_and (a / 2) (b / 2) = omega (arith, and_halves a b) in
    rw e (digit-and k (a / 2) (b / 2))

digit-zero : (k : ℕ) → digit 0 k ≡ false
unfolding digit
digit-zero zero = refl
digit-zero (suc k) = digit-zero k

digit-pow : (j k : ℕ) → digit (2 ^ j) k ≡ (j == k)
unfolding digit
digit-pow zero zero = refl
digit-pow zero (suc k) = digit-zero k ∙ (ground arith)
digit-pow (suc j) zero = ground (arith, pow-suc 2 j)
digit-pow (suc j) (suc k) =
    let e : 2 ^ suc j / 2 ≡ 2 ^ j = omega (arith, pow-suc 2 j) in
    rw e (digit-pow j k ∙ (ground arith))

digit-mask : (n k : ℕ) → digit (2 ^ n - 1) k ≡ ltb k n
unfolding digit
digit-mask zero k = digit-zero k ∙ (ground arith)
digit-mask (suc n) zero = ground (arith, pow-suc 2 n, one-le-pow n 2)
digit-mask (suc n) (suc k) =
    let e : (2 ^ suc n - 1) / 2 ≡ 2 ^ n - 1 = omega (arith, pow-suc 2 n, one-le-pow n 2) in
    rw e (digit-mask n k ∙ (ground arith))

pub has_bit-or : (a b k : ℕ) → has_bit (bit_or a b) k ≡ has_bit a k || has_bit b k
has_bit-or a b k = rw (has_bit-digit k, has_bit-digit k a, has_bit-digit k b) (digit-or k a b)

pub has_bit-and : (a b k : ℕ) → has_bit (bit_and a b) k ≡ has_bit a k && has_bit b k
has_bit-and a b k = rw (has_bit-digit k, has_bit-digit k a, has_bit-digit k b) (digit-and k a b)

pub has_bit-zero : (k : ℕ) → has_bit 0 k ≡ false
has_bit-zero k = has_bit-digit k 0 ∙ digit-zero k

pub has_bit-pow : (j k : ℕ) → has_bit (2 ^ j) k ≡ (j == k)
has_bit-pow j k = has_bit-digit k (2 ^ j) ∙ digit-pow j k

pub has_bit-mask : (n k : ℕ) → has_bit (2 ^ n - 1) k ≡ ltb k n
has_bit-mask n k = has_bit-digit k (2 ^ n - 1) ∙ digit-mask n k
