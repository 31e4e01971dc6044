-- ===== src/Base/Inversion.antt =====
-- What a run that returned says of its steps, and runs that end without a panic.
use Prim.Native.Nat.{ℕ, zero, suc, ◌+◌, ◌≤◌, ◌<◌}
use mathlib.Core.Path.{◌≡◌, refl, subst}
use mathlib.Core.Bool.{Bool, true, false}
use mathlib.Core.List.{List, [], ◌∷◌}
use native.Mathlib.Decide.{dec_lt}
use native.Mathlib.Omega.{arith}
use verifoxx.Base.Lists.{get_or, length}
use verifoxx.Base.Tests.{if◌then◌else◌}
use verifoxx.Base.Fallible.{Run, ok, err, panic, ◌>>=◌, reject_if, nth, for_range, Returns, returns}

-- What a chain of steps that returned says of each.
pub >>=-ok {ℓ κ} :
    {E : Type 0} {A : Type ℓ} {B : Type κ} (m : Run E A) (f : A → Run E B) {b : B}
    → (m >>= f) ≡ ok b
    → (a : A) × (m ≡ ok a) × (f a ≡ ok b)
>>=-ok (ok a) f h = (a, refl, h)
>>=-ok (err e) f h = cc
>>=-ok panic f h = cc

pub reject_if-ok :
    {E : Type 0} (bad : Bool) (e : E) (u : Unit {0}) → reject_if bad e ≡ ok u → bad ≡ false
reject_if-ok true e u h = cc
reject_if-ok false e u h = refl

-- A check that passed, followed by the rest.
pub rejected {ℓ} :
    {E : Type 0} {B : Type ℓ} (bad : Bool) (e : E) (k : Unit {0} → Run E B) {b : B}
    → (reject_if bad e >>= k) ≡ ok b
    → (bad ≡ false) × (k tt ≡ ok b)
rejected true e k h = cc
rejected false e k h = (refl, h)

-- A read that returned, followed by the rest.
pub read {ℓ κ} :
    {E : Type 0} {A : Type ℓ} {B : Type κ} (xs : List A) (i : ℕ) (d : A) (k : A → Run E B) {b : B}
    → (nth xs i >>= k) ≡ ok b
    → (k (get_or xs i d) ≡ ok b)
unfolding nth
read [] i d k h = cc
read (x ∷ xs) zero d k h = h
read (x ∷ xs) (suc i) d k h = read xs i d k h

-- A loop of checks that returned passed each of them.
pub each_round :
    {E : Type 0} (body : ℕ → Unit {0} → Run E (Unit {0})) (n lo : ℕ)
    → for_range n lo body tt ≡ ok tt
    → (i : ℕ) → lo ≤ i
    → i < lo + n
    → body i tt ≡ ok tt
unfolding for_range
each_round body zero lo h i low high = absurd (omega arith)
each_round body (suc n) lo h i low high =
    let (_, first, rest) = >>=-ok (body lo tt) (for_range n (suc lo) body) h in
    elim (dec_lt lo i) [
      | yes later ↦ each_round body n (suc lo) rest i later (omega arith)
      | no now ↦ subst (λ (k : ℕ). body k tt ≡ ok tt) (omega arith) first
    ]

-- What holds after a loop that returned, from what each round that returns keeps.
pub for_range_ok_inv {ℓ κ} :
    {E : Type 0} {S : Type ℓ} (P : ℕ → S → Type κ) (body : ℕ → S → Run E S) (n lo : ℕ) (s t : S)
    → ((i : ℕ) (u v : S) → i < lo + n → P i u → body i u ≡ ok v → P (suc i) v)
    → P lo s
    → for_range n lo body s ≡ ok t
    → P (lo + n) t
unfolding for_range
for_range_ok_inv P body zero lo s t keep h e =
    let same : s ≡ t = cc in
    subst (λ u. P (lo + 0) u) same (subst (λ (k : ℕ). P k s) (omega arith) h)
for_range_ok_inv P body (suc n) lo s t keep h e =
    let (u, first, rest) = >>=-ok (body lo s) (for_range n (suc lo) body) e in
    subst (λ (k : ℕ). P k t) (omega arith)
      (for_range_ok_inv P body n (suc lo) u t (λ i v w p. keep i v w (omega arith))
        (keep lo s u (omega arith) h first) rest)

-- The same from 0.
pub for_range_ok_inv_zero {ℓ κ} :
    {E : Type 0} {S : Type ℓ} (P : ℕ → S → Type κ) (body : ℕ → S → Run E S) (n : ℕ) (s t : S)
    → ((i : ℕ) (u v : S) → i < n → P i u → body i u ≡ ok v → P (suc i) v)
    → P 0 s
    → for_range n 0 body s ≡ ok t
    → P n t
for_range_ok_inv_zero P body n s t keep h e =
    subst (λ (k : ℕ). P k t) (omega arith)
      (for_range_ok_inv P body n 0 s t (λ i u v inside. keep i u v (omega arith)) h e)

-- A run that returns a value with `P` or an error: it does not panic.
pub data Settles {ℓ κ} {E : Type 0} {A : Type ℓ} (P : A → Type κ) : Run E A → Type (ℓ ⊔ κ) where
  settled : {a : A} → P a → Settles P (ok a)
  failed : {e : E} → Settles P (err e)

pub Returns-Settles {ℓ κ} :
    {E : Type 0} {A : Type ℓ} {P : A → Type κ} {r : Run E A} → Returns P r → Settles P r
Returns-Settles (returns h) = settled h

pub Settles-mono {ℓ κ μ} :
    {E : Type 0} {A : Type ℓ} {P : A → Type κ} {Q : A → Type μ} {r : Run E A}
    → Settles P r
    → ((a : A) → P a → Q a)
    → Settles Q r
Settles-mono (settled h) f = settled (f _ h)
Settles-mono failed f = failed

pub Settles-bind {ℓ κ μ ν} :
    {E : Type 0} {A : Type ℓ} {B : Type κ} {P : A → Type μ} {Q : B → Type ν} {r : Run E A}
    {f : A → Run E B}
    → Settles P r
    → ((a : A) → P a → Settles Q (f a))
    → Settles Q (r >>= f)
Settles-bind (settled h) k = k _ h
Settles-bind failed k = failed

-- A check, and the rest where it passes.
pub Settles-check {κ ν} :
    {E : Type 0} {B : Type κ} {Q : B → Type ν} (bad : Bool) (e : E) (k : Unit {0} → Run E B)
    → (bad ≡ false → Settles Q (k tt))
    → Settles Q (reject_if bad e >>= k)
Settles-check true e k rest = failed
Settles-check false e k rest = rest refl

-- A run that, if it returns a value, returns one with `P`.
pub data IfOk {ℓ κ} {E : Type 0} {A : Type ℓ} (P : A → Type κ) : Run E A → Type (ℓ ⊔ κ) where
  returned : {a : A} → P a → IfOk P (ok a)
  errs : {e : E} → IfOk P (err e)
  panics : IfOk P panic

pub IfOk-bind {ℓ κ μ ν} :
    {E : Type 0} {A : Type ℓ} {B : Type κ} {P : A → Type μ} {Q : B → Type ν} {r : Run E A}
    {f : A → Run E B}
    → IfOk P r
    → ((a : A) → P a → IfOk Q (f a))
    → IfOk Q (r >>= f)
IfOk-bind (returned h) k = k _ h
IfOk-bind errs k = errs
IfOk-bind panics k = panics

-- A step of which nothing is known but what it returned.
pub IfOk-then {ℓ κ ν} :
    {E : Type 0} {A : Type ℓ} {B : Type κ} {Q : B → Type ν} (r : Run E A) (f : A → Run E B)
    → ((a : A) → r ≡ ok a → IfOk Q (f a))
    → IfOk Q (r >>= f)
IfOk-then (ok a) f k = k a refl
IfOk-then (err e) f k = errs
IfOk-then panic f k = panics

-- A read that returned was in range.
pub nth-inside {ℓ} :
    {E : Type 0} {A : Type ℓ} (xs : List A) (i : ℕ) (a : A)
    → nth {E = E} xs i ≡ ok a
    → i < length xs
unfolding nth
nth-inside [] i a h = cc
nth-inside (x ∷ xs) zero a h = omega arith
nth-inside {E = E} (x ∷ xs) (suc i) a h = omega (arith, nth-inside {E = E} xs i a h)

module _ {ℓ κ} {E : Type 0} {A : Type ℓ} {P : A → Type κ} where
  pub IfOk-ok : {r : Run E A} {a : A} → IfOk P r → r ≡ ok a → P a
  IfOk-ok {a = b} (returned {a = a} h) e = let same : a ≡ b = cc in subst P same h
  IfOk-ok errs e = cc
  IfOk-ok panics e = cc

  pub IfOk-if : (b : Bool) (x y : Run E A) → IfOk P x → IfOk P y → IfOk P (if b then x else y)
  IfOk-if true x y h k = h
  IfOk-if false x y h k = k

  pub IfOk-for_range :
      (body : ℕ → A → Run E A)
      → ((i : ℕ) (s : A) → P s → IfOk P (body i s))
      → (n lo : ℕ) (s : A) → P s
      → IfOk P (for_range n lo body s)
  unfolding for_range
  IfOk-for_range body keep zero lo s h = returned h
  IfOk-for_range body keep (suc n) lo s h =
      IfOk-bind (keep lo s h) λ t k. IfOk-for_range body keep n (suc lo) t k

-- The value of a run that returns, else the default.
abbrev pub value_or {ℓ} : {E : Type 0} {A : Type ℓ} → Run E A → A → A
value_or (ok a) d = a
value_or (err e) d = d
value_or panic d = d

pub Returns-value_or {ℓ κ} :
    {E : Type 0} {A : Type ℓ} {P : A → Type κ} {r : Run E A} (d : A)
    → Returns P r
    → (r ≡ ok (value_or r d)) × P (value_or r d)
Returns-value_or d (returns h) = (refl, h)
