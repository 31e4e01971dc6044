-- ===== src/Program/Lookup.antt =====
-- internal/program/program.go: LookupSymbol beside Symbol.
use mathlib.Core.Path.{subst}
use native.Mathlib.Nat.{mod-eq_of_lt}
use verifoxx.Base.{
  ℕ, zero, suc, ◌+◌, ◌-◌, ◌%◌, ◌^◌, ◌≤◌, ◌<◌, ◌≡◌, refl, sym, ap, ◌∙◌, ◌≢◌, Bool, true, false, not,
  ◌||◌, Option, none, some, List, [], ◌∷◌, length, get_or, take, drop, ltb, ◌==◌, if◌then◌else◌,
  arith, ne→==, eq→==, le→ltb, length-take, length-drop, Bool-cases, inl, inr, ok, Returns, returns,
  Returns-mono, Returns-value,
}
use verifoxx.Base.Text.{Text, ◌=ₜ◌, =ₜ_iff}
use verifoxx.Program.{Program, lookup_from, lookup_symbol, symbol}

-- The entry of the table has the text of the value.
abbrev matches : Text → Text → ℕ → ℕ → Bool
matches text value start len =
    if not (len == length value) || ltb (length text) (start + len)
    then false
    else take len (drop start text) =ₜ value

abbrev matches_at : Text → Text → List ℕ → List ℕ → ℕ → Bool
matches_at text value starts lengths j = matches text value (get_or starts j 0) (get_or lengths j 0)

-- The first match of a part of the table that comes after `i` entries.
abbrev FirstMatch : Text → Text → ℕ → List ℕ → List ℕ → Option ℕ → Type 0
FirstMatch text value i starts lengths none =
    (j : ℕ) → j < length starts → matches_at text value starts lengths j ≡ false
FirstMatch text value i starts lengths (some n) =
    (j : ℕ) × (n ≡ suc (i + j) % 2 ^ 32)
    × (j < length starts)
    × (matches_at text value starts lengths j ≡ true)
    × ((k : ℕ) → k < j → matches_at text value starts lengths k ≡ false)

sum_zero : (i : ℕ) → i ≡ i + 0
sum_zero i = omega arith

sum_suc : (i j : ℕ) → suc i + j ≡ i + suc j
sum_suc i j = omega arith

later_match :
    (text value : Text) (i start len : ℕ) (starts lengths : List ℕ) (o : Option ℕ)
    → matches text value start len ≡ false
    → FirstMatch text value (suc i) starts lengths o
    → FirstMatch text value i (start ∷ starts) (len ∷ lengths) o
later_match text value i start len starts lengths none differs h = λ j.
    elim j
      as (λ (k : ℕ).
        k < length (start ∷ starts)
        → matches_at text value (start ∷ starts) (len ∷ lengths) k ≡ false) [
          | zero ↦ λ below. differs
          | suc j ↦ λ below. h j (omega arith)
        ]
later_match text value i start len starts lengths (some n) differs (j, at, inside, matched, first) =
    (
      suc j,
      at ∙ ap (λ (k : ℕ). suc k % 2 ^ 32) (sum_suc i j),
      omega arith,
      matched,
      λ k.
          elim k
            as (λ (k : ℕ).
              k < suc j → matches_at text value (start ∷ starts) (len ∷ lengths) k ≡ false) [
                | zero ↦ λ below. differs
                | suc k ↦ λ below. first k (omega arith)
              ],
    )

lookup_from-FirstMatch :
    {E : Type 0} (text value : Text) (i : ℕ) (starts lengths : List ℕ)
    → length starts ≡ length lengths
    → Returns {E = E}
        (FirstMatch text value i starts lengths)
        (lookup_from text value i starts lengths)
unfolding lookup_from
lookup_from-FirstMatch text value i [] lengths same = returns (λ j below. absurd (omega arith))
lookup_from-FirstMatch text value i (start ∷ starts) [] same = absurd (omega arith)
lookup_from-FirstMatch text value i (start ∷ starts) (len ∷ lengths) same =
    let shorter : length starts ≡ length lengths = omega arith in
    elim (Bool-cases (not (len == length value) || ltb (length text) (start + len))) [
      | inl off ↦ rw off (
          Returns-mono (lookup_from-FirstMatch text value (suc i) starts lengths shorter)
            λ o. later_match text value i start len starts lengths o (rw off refl))
      | inr fits ↦ elim (Bool-cases (take len (drop start text) =ₜ value)) [
        | inl same_text ↦
            rw (fits, same_text)
              (returns (
                0,
                ap (λ (k : ℕ). suc k % 2 ^ 32) (sum_zero i),
                omega arith,
                rw (fits, same_text) refl,
                λ k below. absurd (omega arith),
              ))
        | inr other ↦
            rw (fits, other)
              (Returns-mono (lookup_from-FirstMatch text value (suc i) starts lengths shorter)
                λ o. later_match text value i start len starts lengths o (rw (fits, other) refl))
      ]
    ]

-- The entry of an identifier ends inside the text.
abbrev pub EndsInside : Program → ℕ → Type 0
EndsInside p id =
    get_or p.symbol_starts (id - 1) 0 + get_or p.symbol_lengths (id - 1) 0 ≤ length p.symbol_text

-- The first identifier whose text is the value, if there is one.
abbrev pub FirstNamed : Program → Text → Option ℕ → Type 0
FirstNamed p value none =
    (id : ℕ) → 0 < id → id ≤ length p.symbol_starts → EndsInside p id → symbol p id ≢ value
FirstNamed p value (some n) =
    (0 < n)
    × (n ≤ length p.symbol_starts)
    × (symbol p n ≡ value)
    × ((id : ℕ) → 0 < id → id < n → EndsInside p id → symbol p id ≢ value)

guarded :
    (off there : Bool) → (if off then false else there) ≡ true → (off ≡ false) × (there ≡ true)
guarded true there h = cc
guarded false there h = (refl, h)

module _ (p : Program) (value : Text)
    (same : length p.symbol_starts ≡ length p.symbol_lengths) where
  pub ends_at :
      (j : ℕ)
      → get_or p.symbol_starts j 0 + get_or p.symbol_lengths j 0 ≤ length p.symbol_text
      → EndsInside p (suc j)
  ends_at j fits =
      let at : j ≡ suc j - 1 = omega arith in
      subst
        (λ (k : ℕ). get_or p.symbol_starts k 0 + get_or p.symbol_lengths k 0 ≤ length p.symbol_text)
        at fits

  pub symbol-take :
      (j : ℕ)
      → j < length p.symbol_starts
      → EndsInside p (suc j)
      → symbol p (suc j)
        ≡ take (get_or p.symbol_lengths j 0) (drop (get_or p.symbol_starts j 0) p.symbol_text)
  unfolding symbol
  symbol-take j inside ends =
      let at : suc j - 1 ≡ j = omega arith in
      let start = get_or p.symbol_starts j 0 in
      let len = get_or p.symbol_lengths j 0 in
      let fits : start + len ≤ length p.symbol_text =
        subst
          (λ (k : ℕ).
            get_or p.symbol_starts k 0 + get_or p.symbol_lengths k 0 ≤ length p.symbol_text)
          at ends in
      let ordered : start ≤ start + len = omega arith in
      let whole : start + len - start ≡ len = omega arith in
      let nonzero : suc j ≢ 0 = λ e. omega arith in
      rw
        (
          at,
          ne→== (suc j) 0 nonzero,
          le→ltb (length p.symbol_starts) (suc j) (omega arith),
          eq→== (length p.symbol_starts) (length p.symbol_lengths) same,
          le→ltb (start + len) start ordered,
          le→ltb (length p.symbol_text) (start + len) fits,
          whole,
        )
        refl

  match-symbol :
      (j : ℕ)
      → j < length p.symbol_starts
      → matches_at p.symbol_text value p.symbol_starts p.symbol_lengths j ≡ true
      → symbol p (suc j) ≡ value
  match-symbol j inside matched =
      let start = get_or p.symbol_starts j 0 in
      let len = get_or p.symbol_lengths j 0 in
      let (fits, text_is) =
        guarded (not (len == length value) || ltb (length p.symbol_text) (start + len)) _ matched in
      let ends : start + len ≤ length p.symbol_text = ground arith in
      symbol-take j inside (ends_at j ends) ∙ (=ₜ_iff _ value).0 text_is

  mismatch-symbol :
      (j : ℕ)
      → j < length p.symbol_starts
      → EndsInside p (suc j)
      → matches_at p.symbol_text value p.symbol_starts p.symbol_lengths j ≡ false
      → symbol p (suc j) ≢ value
  mismatch-symbol j inside ends differs named =
      let at : suc j - 1 ≡ j = omega arith in
      let start = get_or p.symbol_starts j 0 in
      let len = get_or p.symbol_lengths j 0 in
      let fits : start + len ≤ length p.symbol_text =
        subst
          (λ (k : ℕ).
            get_or p.symbol_starts k 0 + get_or p.symbol_lengths k 0 ≤ length p.symbol_text)
          at ends in
      let entry : take len (drop start p.symbol_text) ≡ value =
        sym (symbol-take j inside ends) ∙ named in
      let long : len ≡ length value = omega (
        arith,
        length-take len (drop start p.symbol_text),
        length-drop start p.symbol_text,
        ap length entry,
      ) in
      let there = (=ₜ_iff _ value).1 entry in
      let matched : matches_at p.symbol_text value p.symbol_starts p.symbol_lengths j ≡ true =
        rw (eq→== len (length value) long, le→ltb (length p.symbol_text) (start + len) fits)
          there in
      cc

  mismatch_id :
      (id : ℕ)
      → 0 < id
      → id ≤ length p.symbol_starts
      → EndsInside p id
      → matches_at p.symbol_text value p.symbol_starts p.symbol_lengths (id - 1) ≡ false
      → symbol p id ≢ value
  mismatch_id id positive inside ends differs =
      let at : suc (id - 1) ≡ id = omega arith in
      subst (λ (k : ℕ). symbol p k ≢ value) at
        (mismatch-symbol (id - 1) (omega arith) (subst (EndsInside p) (sym at) ends) differs)

  first_named :
      length p.symbol_starts < 2 ^ 32
      → (o : Option ℕ) → FirstMatch p.symbol_text value 0 p.symbol_starts p.symbol_lengths o
      → FirstNamed p value o
  first_named few none h =
      λ id positive inside ends. mismatch_id id positive inside ends (h (id - 1) (omega arith))
  first_named few (some n) (j, at, inside, matched, first) =
      let exact : suc (0 + j) % 2 ^ 32 ≡ suc (0 + j) = mod-eq_of_lt (omega (arith, few, inside)) in
      let is : n ≡ suc j = at ∙ exact ∙ (omega arith) in
      rw is (
        omega arith,
        omega arith,
        match-symbol j inside matched,
        λ id positive before ends.
            mismatch_id id positive (omega arith) ends (first (id - 1) (omega arith)),
      )

  -- On a program whose symbol columns have one length, below 2^32, LookupSymbol returns (it does not index out
  -- of range). An identifier that it returns is in the table and Symbol of it is the value looked
  -- up, and no earlier identifier whose entry ends inside the text has that text; if it returns
  -- none, then no identifier whose entry ends inside the text does.
  pub lookup_symbol-symbol :
      {E : Type 0}
      → length p.symbol_starts < 2 ^ 32
      → Returns {E = E} (FirstNamed p value) (lookup_symbol p value)
  unfolding lookup_symbol
  lookup_symbol-symbol few =
      Returns-mono
        (lookup_from-FirstMatch p.symbol_text value 0 p.symbol_starts p.symbol_lengths same)
        (first_named few)

-- It returns whatever the number of symbols, for a caller that goes on with the number.
pub looked_up :
    {E : Type 0} (p : Program)
    → length p.symbol_starts ≡ length p.symbol_lengths
    → (value : Text) → (o : Option ℕ) × (lookup_symbol {E = E} p value ≡ ok o)
unfolding lookup_symbol
looked_up p same value =
    let (o, found, _) =
      Returns-value
        (lookup_from-FirstMatch p.symbol_text value 0 p.symbol_starts p.symbol_lengths same) in
    (o, found)
