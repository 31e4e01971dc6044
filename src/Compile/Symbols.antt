-- ===== src/Compile/Symbols.antt =====
-- internal/compile/interner.go beside the program's symbol lookup.
use mathlib.Core.Path.{subst}
use mathlib.Core.List.{append_assoc, append-nil}
use native.Mathlib.Nat.{mod-eq_of_lt}
use verifoxx.Base.{
  ℕ, zero, suc, ◌+◌, ◌-◌, ◌^◌, ◌≤◌, ◌<◌, ◌≡◌, refl, sym, ap, ◌∙◌, ◌≢◌, Option, none, some, List, [],
  ◌∷◌, ◌++◌, length, length-append, get_or, take, drop, Option-cases, inl, inr, arith, ok,
  Returns-value,
}
use verifoxx.Base.Text.{Text}
use verifoxx.Compile.Interner.{Interner, new_interner, find_id, freeze_values, freeze}
use verifoxx.Eval.Context.{u32}
use verifoxx.Program.{Program, lookup_symbol, symbol}
use verifoxx.Program.Lookup.{symbol-take, ends_at, EndsInside, FirstNamed, lookup_symbol-symbol}

-- The bytes of the values, one after another.
abbrev pub concat : List Text → Text
concat [] = []
concat (v ∷ vs) = v ++ concat vs

freeze_values-text :
    (vs : List Text) (text : Text) → (freeze_values vs text).text ≡ text ++ concat vs
unfolding freeze_values
freeze_values-text [] text = sym (append-nil text)
freeze_values-text (v ∷ vs) text =
    freeze_values-text vs (text ++ v) ∙ append_assoc text v (concat vs)

freeze_values-lengths :
    (vs : List Text) (text : Text)
    → (length (freeze_values vs text).starts ≡ length vs)
      × (length (freeze_values vs text).lengths ≡ length vs)
unfolding freeze_values
freeze_values-lengths [] text = (refl, refl)
freeze_values-lengths (v ∷ vs) text =
    let (starts, lengths) = freeze_values-lengths vs (text ++ v) in (ap suc starts, ap suc lengths)

middle : (xs ys zs : Text) → take (length ys) (drop (length xs) (xs ++ (ys ++ zs))) ≡ ys
middle [] ys zs = front ys
  where
    front : (l : Text) → take (length l) (l ++ zs) ≡ l
    front [] = refl
    front (x ∷ l) = ap (λ (t : Text). x ∷ t) (front l)
middle (x ∷ xs) ys zs = middle xs ys zs

-- Each entry ends inside the text and has its value's bytes.
freeze_values-entry :
    (vs : List Text) (text : Text)
    → length text + length (concat vs) < 2 ^ 32
    → (j : ℕ) → j < length vs
    → (get_or (freeze_values vs text).starts j 0 + get_or (freeze_values vs text).lengths j 0
        ≤ length (freeze_values vs text).text)
      × (take
            (get_or (freeze_values vs text).lengths j 0)
            (drop (get_or (freeze_values vs text).starts j 0) (freeze_values vs text).text)
          ≡ get_or vs j [])
unfolding freeze_values
freeze_values-entry [] text few j inside = absurd (omega arith)
freeze_values-entry (v ∷ vs) text few zero inside =
    let start : u32 (length text) ≡ length text = mod-eq_of_lt (omega arith) in
    let len : u32 (length v) ≡ length v =
      mod-eq_of_lt (omega (arith, length-append v (concat vs))) in
    let whole = freeze_values-text vs (text ++ v) ∙ append_assoc text v (concat vs) in
    (
      omega (
        arith,
        start,
        len,
        ap length whole,
        length-append text (v ++ concat vs),
        length-append v (concat vs),
      ),
      rw (start, len, whole) (middle text v (concat vs)),
    )
freeze_values-entry (v ∷ vs) text few (suc j) inside =
    freeze_values-entry vs (text ++ v)
      (omega (arith, length-append text v, length-append v (concat vs))) j (omega arith)

-- The identifiers are the places of the values, each of which stands there once and is not empty.
pub record Interned (interner : Interner) : Type 0 where
  pub known :
      (v : Text) (id : ℕ)
      → find_id v interner.ids ≡ some id
      → (0 < id) × (id ≤ length interner.values) × (get_or interner.values (id - 1) [] ≡ v)
  pub listed :
      (j : ℕ)
      → j < length interner.values
      → find_id (get_or interner.values j []) interner.ids ≡ some (suc j)
  pub filled : (j : ℕ) → j < length interner.values → get_or interner.values j [] ≢ []

pub new_interner-Interned : Interned new_interner
unfolding find_id
new_interner-Interned = record {
  known = λ v id h. cc;
  listed = λ j inside. absurd (omega arith);
  filled = λ j inside. absurd (omega arith);
}

module _ (interner : Interner) (h : Interned interner) (p : Program)
    (few : length interner.values < 2 ^ 32) (short : length (concat interner.values) < 2 ^ 32) where
  same_lengths :
      length (freeze interner p).symbol_starts ≡ length (freeze interner p).symbol_lengths
  unfolding freeze
  same_lengths =
      let (starts, lengths) = freeze_values-lengths interner.values [] in starts ∙ sym lengths

  entries : length (freeze interner p).symbol_starts ≡ length interner.values
  unfolding freeze
  entries = (freeze_values-lengths interner.values []).0

  entry_ends : (j : ℕ) → j < length interner.values → EndsInside (freeze interner p) (suc j)
  unfolding freeze
  entry_ends j inside =
      ends_at (freeze interner p) [] same_lengths j
        ((freeze_values-entry interner.values [] (omega arith) j inside).0)

  freeze-symbol :
      (j : ℕ)
      → j < length interner.values
      → symbol (freeze interner p) (suc j) ≡ get_or interner.values j []
  unfolding freeze
  freeze-symbol j inside =
      symbol-take (freeze interner p) [] same_lengths j (omega (arith, entries))
        (entry_ends j inside)
      ∙ (freeze_values-entry interner.values [] (omega arith) j inside).1

  found_id :
      (v : Text)
      → v ≢ []
      → (o : Option ℕ) → FirstNamed (freeze interner p) v o
      → o ≡ find_id v interner.ids
  found_id v some_byte (some n) (positive, below, names, first) =
      let at : suc (n - 1) ≡ n = omega arith in
      let inside : n - 1 < length interner.values = omega (arith, entries) in
      let value : get_or interner.values (n - 1) [] ≡ v =
        sym (freeze-symbol (n - 1) inside) ∙ ap (symbol (freeze interner p)) at ∙ names in
      sym (
        ap (λ (x : Text). find_id x interner.ids) (sym value)
        ∙ h.listed (n - 1) inside
        ∙ ap some at)
  found_id v some_byte none missing = elim (Option-cases (find_id v interner.ids)) [
    | inl unknown ↦ sym unknown
    | inr (id, found) ↦
        let (positive, below, value) = h.known v id found in
        let at : suc (id - 1) ≡ id = omega arith in
        let named : symbol (freeze interner p) id ≡ v =
          ap (symbol (freeze interner p)) (sym at) ∙ freeze-symbol (id - 1) (omega arith) ∙ value in
        let ends : EndsInside (freeze interner p) id =
          subst (EndsInside (freeze interner p)) at (entry_ends (id - 1) (omega arith)) in
        absurd (missing id positive (omega (arith, entries)) ends named)
  ]

  -- For an interner in order, with fewer than 2^32 values and fewer than 2^32 bytes in them, any
  -- program that its symbols are frozen into, and a value that is not empty: LookupSymbol finds
  -- exactly the identifier that interning gave the value, and none if it was not interned.
  pub freeze-lookup_symbol :
      {E : Type 0} (v : Text)
      → v ≢ []
      → lookup_symbol {E = E} (freeze interner p) v ≡ ok (find_id v interner.ids)
  freeze-lookup_symbol v some_byte =
      let (o, ran, first) =
        Returns-value
          (lookup_symbol-symbol (freeze interner p) v same_lengths (omega (arith, few, entries))) in
      ran ∙ ap ok (found_id v some_byte o first)
