-- ===== src/Compile/Interning.antt =====
-- internal/compile/interner.go: what interning a value does to the identifiers.
use mathlib.Core.Path.{subst}
use native.Mathlib.Decide.{dec_lt}
use native.Mathlib.Nat.{mod-eq_of_lt}
use verifoxx.Base.{
  ℕ, suc, ◌+◌, ◌-◌, ◌^◌, ◌<◌, ◌≡◌, refl, sym, ap, ◌∙◌, ◌≢◌, false, Option, none, some, [], ◌∷◌,
  ◌++◌, length, length-append, get_or, get_or-append_left, get_or-append_length, if◌then◌else◌,
  Bool-cases, Option-cases, inl, inr, arith,
}
use verifoxx.Base.Text.{Text, ◌=ₜ◌, =ₜ_iff}
use verifoxx.Compile.Interner.{Interner, find_id, assign, intern}
use verifoxx.Eval.Context.{u32}
use verifoxx.Compile.Symbols.{Interned}

-- What interning a value does: the value has the identifier, and the others keep theirs.
pub record Interns (interner : Interner) (v : Text) (id : ℕ) (interner' : Interner) : Type 0 where
  pub interned : Interned interner'
  pub own : find_id v interner'.ids ≡ some id
  pub kept :
      (w : Text) (other : ℕ)
      → find_id w interner.ids ≡ some other
      → find_id w interner'.ids ≡ some other

some_inj : (a b : ℕ) → some a ≡ some b → a ≡ b
some_inj a b h = cc

module _ (interner : Interner) (h : Interned interner) (v : Text) (some_byte : v ≢ [])
    (few : length interner.values + 1 < 2 ^ 32) (new : find_id v interner.ids ≡ none) where
  abbrev next : ℕ
  next = length interner.values + 1

  abbrev grown : Interner
  grown = record { ids = (v, next) ∷ interner.ids; values = interner.values ++ v ∷ [] }

  other_text : (w : Text) (id : ℕ) → find_id w interner.ids ≡ some id → (w =ₜ v) ≡ false
  other_text w id found = elim (Bool-cases (w =ₜ v)) [
    | inr other ↦ other
    | inl same ↦
        let clash = ap (λ (x : Text). find_id x interner.ids) ((=ₜ_iff w v).0 same) ∙ new in
        absurd (none_some (sym found ∙ clash))
  ]
    where
      none_some : {id : ℕ} → some id ≡ none → ⊥
      none_some e = cc

  old_at :
      (j : ℕ) → j < length interner.values → get_or grown.values j [] ≡ get_or interner.values j []
  old_at j inside = get_or-append_left interner.values (v ∷ []) j [] inside

  last_at : (j : ℕ) → j ≡ length interner.values → get_or grown.values j [] ≡ v
  last_at j at =
      ap (λ (x : ℕ). get_or grown.values x []) at ∙ get_or-append_length interner.values v []

  grown-Interns : Interns interner v next grown
  unfolding find_id
  grown-Interns = record {
    interned = record {
      known = λ w id found. elim (Bool-cases (w =ₜ v)) [
        | inl same ↦
            let is : next ≡ id = some_inj next id (rw same at found) in
            (
              omega arith,
              omega (arith, length-append interner.values (v ∷ [])),
              last_at (id - 1) (omega arith) ∙ sym ((=ₜ_iff w v).0 same),
            )
        | inr other ↦
            let (positive, below, value) = h.known w id (rw other at found) in
            (
              positive,
              omega (arith, length-append interner.values (v ∷ [])),
              old_at (id - 1) (omega arith) ∙ value,
            )
      ];
      listed = λ j inside. elim (dec_lt j (length interner.values)) [
        | yes old ↦
            let other = other_text (get_or interner.values j []) (suc j) (h.listed j old) in
            subst
              (λ (x : Text). (if x =ₜ v then some next else find_id x interner.ids) ≡ some (suc j))
              (sym (old_at j old)) (rw other (h.listed j old))
        | no end ↦
            let at : j ≡ length interner.values =
              omega (arith, length-append interner.values (v ∷ [])) in
            let number : next ≡ suc j = omega arith in
            rw (last_at j at, (=ₜ_iff v v).1 refl) (ap some number)
      ];
      filled = λ j inside. elim (dec_lt j (length interner.values)) [
        | yes old ↦ λ empty. h.filled j old (sym (old_at j old) ∙ empty)
        | no end ↦ λ empty.
            let at : j ≡ length interner.values =
              omega (arith, length-append interner.values (v ∷ [])) in
            some_byte (sym (last_at j at) ∙ empty)
      ];
    };
    own = rw ((=ₜ_iff v v).1 refl) refl;
    kept = λ w other found. rw (other_text w other found) found;
  }

-- Interning a value that is not empty, while there are fewer than 2^32 - 1 values, keeps the
-- interner in order and every identifier given before, and from then on the value has the
-- identifier that is returned.
pub intern-Interns :
    (interner : Interner) (v : Text)
    → Interned interner
    → v ≢ []
    → length interner.values + 1 < 2 ^ 32
    → Interns interner v ((intern interner v).0) ((intern interner v).1)
unfolding intern assign
intern-Interns interner [] h some_byte few = absurd (some_byte refl)
intern-Interns interner (b ∷ t) h some_byte few =
    elim (Option-cases (find_id (b ∷ t) interner.ids)) [
      | inl new ↦
          let exact : u32 (length interner.values + 1) ≡ length interner.values + 1 =
            mod-eq_of_lt few in
          subst Assigned (sym new) (rw exact (grown-Interns interner h (b ∷ t) some_byte few new))
      | inr (id, found) ↦
          subst Assigned (sym found)
            (record { interned = h; own = found; kept = λ w other was. was })
    ]
  where
    Assigned : Option ℕ → Type 0
    Assigned o =
        Interns interner (b ∷ t) ((assign interner (b ∷ t) o).0) ((assign interner (b ∷ t) o).1)
