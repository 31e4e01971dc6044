-- ===== src/Compile/Interner.antt =====
-- internal/compile/interner.go. The map of the identifiers is an association list.
use verifoxx.Base.{ℕ, ◌+◌, Option, none, some, List, [], ◌∷◌, ◌++◌, length, if◌then◌else◌}
use verifoxx.Base.Text.{Text, ◌=ₜ◌}
use verifoxx.Eval.Context.{u32}
use verifoxx.Program.{Program}

pub record Interner : Type 0 where
  pub ids : List (Text × ℕ)
  pub values : List Text

abbrev pub new_interner : Interner
new_interner = record { ids = []; values = [] }

-- `in.ids[value]`
unfoldable pub find_id : Text → List (Text × ℕ) → Option ℕ
find_id value [] = none
find_id value ((other, id) ∷ ids) =
    let rest = find_id value ids in if value =ₜ other then some id else rest

-- The identifier of a value that is not empty, given what the map has for it.
unfoldable pub assign : Interner → Text → Option ℕ → ℕ × Interner
assign interner value (some id) = (id, interner)
assign interner value none =
    let id = u32 (length interner.values + 1) in
    (id, record { ids = (value, id) ∷ interner.ids; values = interner.values ++ value ∷ [] })

-- The identifier of a value, and the interner with it.
unfoldable pub intern : Interner → Text → ℕ × Interner
intern interner [] = (0, interner)
intern interner (b ∷ t) = assign interner (b ∷ t) (find_id (b ∷ t) interner.ids)

-- The symbol columns and the text, while they are written.
pub record Frozen : Type 0 where
  pub starts : List ℕ
  pub lengths : List ℕ
  pub text : Text

-- The loop of `freeze`, after the text of the values before.
unfoldable pub freeze_values : List Text → Text → Frozen
freeze_values [] text = record { starts = []; lengths = []; text = text }
freeze_values (value ∷ values) text =
    let rest = freeze_values values (text ++ value) in
    record {
      starts = u32 (length text) ∷ rest.starts;
      lengths = u32 (length value) ∷ rest.lengths;
      text = rest.text;
    }

unfoldable pub freeze : Interner → Program → Program
freeze interner dst =
    let frozen = freeze_values interner.values [] in
    record dst {
      symbol_starts = frozen.starts;
      symbol_lengths = frozen.lengths;
      symbol_text = frozen.text;
    }
