-- ===== src/Base/Fallible.antt =====
-- The outcome of a call: it returns a value, returns an error, or panics (an index or a slice
-- out of range). `Returns P r` says that `r` returned a value with `P`.
use Prim.Native.Nat.{ℕ, zero, suc, ◌+◌, ◌-◌, ◌≤◌, ◌<◌}
use mathlib.Core.Path.{◌≡◌, refl, sym, subst}
use mathlib.Core.Bool.{Bool, true, false, ◌&&◌}
use mathlib.Core.List.{List, [], ◌∷◌, foldl}
use native.Mathlib.Omega.{arith}
use verifoxx.Base.Tests.{leb, ltb, le→leb, lt→ltb, if◌then◌else◌}
use verifoxx.Base.Lists.{length, get_or, set, take, drop, drop-cons}

pub data Run {ℓ} (E : Type 0) (A : Type ℓ) : Type ℓ where
  ok : A → Run E A
  err : E → Run E A
  panic : Run E A

infixl 5 ◌>>=◌ ◌>>◌
abbrev pub ◌>>=◌ {ℓ κ} : {E : Type 0} {A : Type ℓ} {B : Type κ} → Run E A → (A → Run E B) → Run E B
ok a >>= f = f a
err e >>= f = err e
panic >>= f = panic

abbrev pub ◌>>◌ {κ} : {E : Type 0} {B : Type κ} → Run E (Unit {0}) → Run E B → Run E B
m >> k = m >>= λ _. k

-- `if bad { return err }`
abbrev pub reject_if : {E : Type 0} → Bool → E → Run E (Unit {0})
reject_if true e = err e
reject_if false e = ok tt

module _ {ℓ} {E : Type 0} {A : Type ℓ} where
  -- `xs[i]`
  unfoldable pub nth : List A → ℕ → Run E A
  nth [] i = panic
  nth (x ∷ xs) zero = ok x
  nth (x ∷ xs) (suc i) = nth xs i

  -- `xs[start:end]`
  unfoldable pub slice : List A → ℕ → ℕ → Run E (List A)
  slice xs start end =
      if leb start end && leb end (length xs)
      then ok (take (end - start) (drop start xs))
      else panic

  -- `xs[i] = v`
  unfoldable pub store : List A → ℕ → A → Run E (List A)
  store xs i v = if ltb i (length xs) then ok (set xs i v) else panic

  pub nth-get_or : (xs : List A) (i : ℕ) (d : A) → i < length xs → nth xs i ≡ ok (get_or xs i d)
  unfolding nth
  nth-get_or [] i d h = absurd (omega arith)
  nth-get_or (x ∷ xs) zero d h = refl
  nth-get_or (x ∷ xs) (suc i) d h = nth-get_or xs i d (omega arith)

  pub slice-take :
      (xs : List A) (start end : ℕ)
      → start ≤ end
      → end ≤ length xs
      → slice xs start end ≡ ok (take (end - start) (drop start xs))
  unfolding slice
  slice-take xs start end h k = rw (le→leb _ _ h, le→leb _ _ k)

  pub store-set : (xs : List A) (i : ℕ) (v : A) → i < length xs → store xs i v ≡ ok (set xs i v)
  unfolding store
  store-set xs i v h = rw (lt→ltb _ _ h)

-- `for i := lo; i < lo+n; i++ { body }`
unfoldable pub for_range {ℓ} : {E : Type 0} {S : Type ℓ} → ℕ → ℕ → (ℕ → S → Run E S) → S → Run E S
for_range zero lo body s = ok s
for_range (suc n) lo body s = body lo s >>= for_range n (suc lo) body

pub data Returns {ℓ κ} {E : Type 0} {A : Type ℓ} (P : A → Type κ) : Run E A → Type (ℓ ⊔ κ) where
  returns : {a : A} → P a → Returns P (ok a)

module _ {ℓ κ} {E : Type 0} {A : Type ℓ} where
  pub Returns-ok : {P : A → Type κ} {r : Run E A} (a : A) → r ≡ ok a → P a → Returns P r
  Returns-ok {P} a e h = subst (Returns P) (sym e) (returns h)

  pub Returns-value : {P : A → Type κ} {r : Run E A} → Returns P r → (a : A) × (r ≡ ok a) × P a
  Returns-value (returns {a = a} h) = (a, refl, h)

pub Returns-mono {ℓ κ μ} :
    {E : Type 0} {A : Type ℓ} {P : A → Type κ} {Q : A → Type μ} {r : Run E A}
    → Returns P r
    → ((a : A) → P a → Q a)
    → Returns Q r
Returns-mono (returns h) f = returns (f _ h)

pub Returns-bind {ℓ κ μ ν} :
    {E : Type 0} {A : Type ℓ} {B : Type κ} {P : A → Type μ} {Q : B → Type ν} {r : Run E A}
    {f : A → Run E B}
    → Returns P r
    → ((a : A) → P a → Returns Q (f a))
    → Returns Q (r >>= f)
Returns-bind (returns h) k = k _ h

-- The loop rule: an invariant `P i` that each round carries from `i` to `i + 1`.
pub for_range_inv {ℓ κ} :
    {E : Type 0} {S : Type ℓ} (P : ℕ → S → Type κ) (body : ℕ → S → Run E S) (n lo : ℕ) (s : S)
    → ((i : ℕ) (t : S) → lo ≤ i → i < lo + n → P i t → Returns (P (suc i)) (body i t))
    → P lo s
    → Returns (P (lo + n)) (for_range n lo body s)
unfolding for_range
for_range_inv P body zero lo s keep h = returns (subst (λ (k : ℕ). P k s) (omega arith) h)
for_range_inv P body (suc n) lo s keep h =
    Returns-bind (keep lo s (omega arith) (omega arith) h) λ t ht.
      Returns-mono
        (for_range_inv P body n (suc lo) t (λ i u p q. keep i u (omega arith) (omega arith)) ht)
        λ a p. subst (λ (k : ℕ). P k a) (omega arith) p

-- The loop rule from 0.
pub for_range_inv_zero {ℓ κ} :
    {E : Type 0} {S : Type ℓ} (P : ℕ → S → Type κ) (body : ℕ → S → Run E S) (n : ℕ) (s : S)
    → ((i : ℕ) (t : S) → i < n → P i t → Returns (P (suc i)) (body i t))
    → P 0 s
    → Returns (P n) (for_range n 0 body s)
for_range_inv_zero P body n s keep h =
    Returns-mono (for_range_inv P body n 0 s (λ i t low high p. keep i t (omega arith) p) h)
      λ a p. subst (λ (k : ℕ). P k a) (omega arith) p

-- A loop over the indices of a part of a list is a fold over that part.
pub for_range-foldl {κ} :
    {E : Type 0} {S : Type κ} (body : ℕ → S → Run E S) (step : S → ℕ → S) (xs : List ℕ)
    → ((i : ℕ) → i < length xs → (s : S) → body i s ≡ ok (step s (get_or xs i 0)))
    → (n lo : ℕ) (s : S) → lo + n ≤ length xs
    → for_range n lo body s ≡ ok (foldl step s (take n (drop lo xs)))
unfolding for_range
for_range-foldl body step xs round zero lo s fits = refl
for_range-foldl body step xs round (suc n) lo s fits =
    let inside : lo < length xs = omega arith in
    rw (drop-cons lo xs 0 inside, round lo inside s)
      (for_range-foldl body step xs round n (suc lo) (step s (get_or xs lo 0)) (omega arith))
