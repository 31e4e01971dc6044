-- ===== src/Eval/Results/Segments.antt =====
-- The columns of a result batch while its rows are written in order: one value for each row, or a
-- list of values for each row, one after another, with the rows' offsets.
use native.Mathlib.Decide.{ℕ_discrete}
use native.Mathlib.Nat.{mod-eq_of_lt}
use verifoxx.Base.{
  ℕ, zero, suc, ◌+◌, ◌-◌, ◌^◌, ◌≤◌, ◌<◌, ◌≡◌, refl, sym, ap, ◌∙◌, List, [], ◌∷◌, ◌++◌, length,
  get_or, set, take, drop, replicate, length-append, length-set, length-replicate, get_or-replicate,
  get_or-set_self, get_or-set_ne, store-set, arith, ok, Returns, returns,
}
use verifoxx.ResultBatch.{Slice, store_item}
use verifoxx.Eval.Context.{u32}
use verifoxx.Eval.Error.{Error}

-- The lists of the rows before `k`, one after another.
abbrev pub joined : (ℕ → List ℕ) → ℕ → List ℕ
joined seg zero = []
joined seg (suc k) = joined seg k ++ seg k

-- A column of `rows` values, of which the first `k` are written.
pub record Shows (rows k : ℕ) (f : ℕ → ℕ) (items : List ℕ) : Type 0 where
  pub size : length items ≡ rows
  pub written : (r : ℕ) → r < k → get_or items r 0 ≡ f r
  pub blank : (r : ℕ) → k ≤ r → get_or items r 0 ≡ 0

-- Offsets and values of which the first `k` rows are written.
pub record Segmented (rows k : ℕ) (seg : ℕ → List ℕ) (offsets items : List ℕ) : Type 0 where
  pub size : length offsets ≡ rows + 1
  pub items_joined : items ≡ joined seg k
  pub offset : (r : ℕ) → r ≤ k → get_or offsets r 0 ≡ length (joined seg r)

pub Shows-zeros : (rows : ℕ) (f : ℕ → ℕ) → Shows rows 0 f (replicate rows 0)
Shows-zeros rows f = record {
  size = length-replicate rows 0;
  written = λ r before. absurd (omega arith);
  blank = λ r from. get_or-replicate rows r 0;
}

pub Segmented-zeros :
    (rows : ℕ) (seg : ℕ → List ℕ) → Segmented rows 0 seg (replicate (rows + 1) 0) []
Segmented-zeros rows seg = record {
  size = length-replicate (rows + 1) 0;
  items_joined = refl;
  offset = λ r below.
      let none_yet : r ≡ 0 = omega arith in
      get_or-replicate (rows + 1) r 0 ∙ ap (λ (x : ℕ). length (joined seg x)) (sym none_yet);
}

store_item-set :
    (s : Slice) (i v : ℕ)
    → i < length s.items
    → store_item {E = Error} s i v ≡ ok (record s { items = set s.items i v })
store_item-set s i v h = rw (store-set s.items i v h) refl

module _ (rows k : ℕ) (inside : k < rows) where
  pub write-Shows :
      (f : ℕ → ℕ) (s : Slice) (v : ℕ)
      → v ≡ f k
      → Shows rows k f s.items
      → Returns (λ (s' : Slice). Shows rows (suc k) f s'.items) (store_item {E = Error} s k v)
  write-Shows f s v is h =
      let there : k < length s.items = omega (arith, h.size) in
      rw (store_item-set s k v there) (
        returns (record {
          size = length-set s.items k v ∙ h.size;
          written = λ r before. elim (ℕ_discrete k r) [
            | yes now ↦
                ap (λ (x : ℕ). get_or (set s.items k v) x 0) (sym now)
                ∙ get_or-set_self s.items k v 0 there
                ∙ is
                ∙ ap f now
            | no other ↦ get_or-set_ne s.items k r v 0 other ∙ h.written r (omega arith)
          ];
          blank =
              λ r from. get_or-set_ne s.items k r v 0 (λ e. omega arith) ∙ h.blank r (omega arith);
        }))

  pub skip-Shows :
      (f : ℕ → ℕ) (items : List ℕ) → f k ≡ 0 → Shows rows k f items → Shows rows (suc k) f items
  skip-Shows f items is h = record {
    size = h.size;
    written = λ r before. elim (ℕ_discrete k r) [
      | yes now ↦ h.blank r (omega arith) ∙ sym is ∙ ap f now
      | no other ↦ h.written r (omega arith)
    ];
    blank = λ r from. h.blank r (omega arith);
  }

  module _ (seg : ℕ → List ℕ) where
    -- The row's offset is written: it is there already, or 0.
    pub open-Segmented :
        (s : Slice) (items : List ℕ)
        → length (joined seg k) < 2 ^ 32
        → Segmented rows k seg s.items items
        → Returns
            (λ (s' : Slice). Segmented rows k seg s'.items items)
            (store_item {E = Error} s k (u32 (length items)))
    open-Segmented s items few h =
        let there : k < length s.items = omega (arith, h.size) in
        let exact : u32 (length items) ≡ length (joined seg k) =
          ap (λ (x : List ℕ). u32 (length x)) h.items_joined ∙ mod-eq_of_lt few in
        rw (store_item-set s k (u32 (length items)) there) (
          returns (record {
            size = length-set s.items k _ ∙ h.size;
            items_joined = h.items_joined;
            offset = λ r below. elim (ℕ_discrete k r) [
              | yes now ↦
                  ap (λ (x : ℕ). get_or (set s.items k (u32 (length items))) x 0) (sym now)
                  ∙ get_or-set_self s.items k _ 0 there
                  ∙ exact
                  ∙ ap (λ (x : ℕ). length (joined seg x)) now
              | no other ↦ get_or-set_ne s.items k r _ 0 other ∙ h.offset r below
            ];
          }))

    -- The next row's offset is written, after the row's values.
    pub close-Segmented :
        (s : Slice) (items items' : List ℕ)
        → length (joined seg (suc k)) < 2 ^ 32
        → items' ≡ items ++ seg k
        → Segmented rows k seg s.items items
        → Returns
            (λ (s' : Slice). Segmented rows (suc k) seg s'.items items')
            (store_item {E = Error} s (k + 1) (u32 (length items')))
    close-Segmented s items items' few added h =
        let there : k + 1 < length s.items = omega (arith, h.size) in
        let grown : items' ≡ joined seg (suc k) =
          added ∙ ap (λ (x : List ℕ). x ++ seg k) h.items_joined in
        let exact : u32 (length items') ≡ length (joined seg (suc k)) =
          ap (λ (x : List ℕ). u32 (length x)) grown ∙ mod-eq_of_lt few in
        let next : k + 1 ≡ suc k = omega arith in
        rw (store_item-set s (k + 1) (u32 (length items')) there) (
          returns (record {
            size = length-set s.items (k + 1) _ ∙ h.size;
            items_joined = grown;
            offset = λ r below. elim (ℕ_discrete (k + 1) r) [
              | yes now ↦
                  ap (λ (x : ℕ). get_or (set s.items (k + 1) (u32 (length items'))) x 0) (sym now)
                  ∙ get_or-set_self s.items (k + 1) _ 0 there
                  ∙ exact
                  ∙ ap (λ (x : ℕ). length (joined seg x)) (sym next ∙ now)
              | no other ↦ get_or-set_ne s.items (k + 1) r _ 0 other ∙ h.offset r (omega arith)
            ];
          }))

-- The lists before a row are bounded by what bounds each.
pub joined-bound :
    (seg : ℕ → List ℕ) (bound : ℕ → ℕ) (k : ℕ)
    → ((r : ℕ) → r < k → bound r + length (seg r) ≤ bound (suc r))
    → length (joined seg k) ≤ bound k
joined-bound seg bound zero each = omega arith
joined-bound seg bound (suc k) each = omega (
  arith,
  joined-bound seg bound k (λ r below. each r (omega arith)),
  each k (omega arith),
  length-append (joined seg k) (seg k),
)

-- The list of a row lies between its offsets.
pub take-segment :
    (xs ys : List ℕ) → take (length (xs ++ ys) - length xs) (drop (length xs) (xs ++ ys)) ≡ ys
take-segment [] ys = take-all ys _ (omega arith)
  where
    take-all : (zs : List ℕ) (n : ℕ) → n ≡ length zs → take n zs ≡ zs
    take-all [] zero e = refl
    take-all [] (suc n) e = refl
    take-all (z ∷ zs) zero e = absurd (omega arith)
    take-all (z ∷ zs) (suc n) e = ap (λ (x : List ℕ). z ∷ x) (take-all zs n (omega arith))
take-segment (x ∷ xs) ys =
    let shift : suc (length (xs ++ ys)) - suc (length xs) ≡ length (xs ++ ys) - length xs =
      omega arith in
    rw shift (take-segment xs ys)
