-- ===== src/Tests/Symbols.antt =====
-- The text `x` interned, and its table in the policy.
use verifoxx.Base.{◌≡◌, ◌≢◌, refl, arith, [], ◌∷◌, ok}
use verifoxx.Base.Text.{bytes}
use verifoxx.Compile.Interner.{Interner, new_interner, find_id, assign, intern, freeze}
use verifoxx.Compile.Symbols.{Interned, new_interner-Interned, freeze-lookup_symbol}
use verifoxx.Compile.Interning.{Interns, intern-Interns}
use verifoxx.Program.{lookup_symbol}
use verifoxx.Tests.Policy.{policy}

x_filled : bytes "x" ≢ []
x_filled h = cc

intern-Interns_example :
    Interns new_interner
      (bytes "x")
      ((intern new_interner (bytes "x")).0)
      ((intern new_interner (bytes "x")).1)
intern-Interns_example =
    intern-Interns new_interner (bytes "x") new_interner-Interned x_filled (omega arith)

abbrev one_text : Interner
one_text = record { ids = (bytes "x", 1) ∷ []; values = bytes "x" ∷ [] }

one_text-intern : (intern new_interner (bytes "x")).1 ≡ one_text
unfolding intern assign find_id
one_text-intern = refl

one_text-Interned : Interned one_text
unfolding intern assign find_id
one_text-Interned =
    (intern-Interns new_interner (bytes "x") new_interner-Interned x_filled (omega arith)).interned

freeze-lookup_symbol_example :
    lookup_symbol {E = Unit {0}} (freeze one_text policy) (bytes "x")
    ≡ ok (find_id (bytes "x") one_text.ids)
freeze-lookup_symbol_example =
    freeze-lookup_symbol one_text one_text-Interned policy (omega arith) (omega arith) (bytes "x")
      x_filled
