-- ===== src/Base/Text.antt =====
-- Go strings: sequences of bytes. `==` on strings, and `strings.TrimSpace`, which drops the runes
-- of the Unicode White_Space property from both ends of the UTF-8 bytes.
use Prim.Native.Nat.{ℕ, zero, suc}
use Prim.Native.Char.{code}
use Prim.Native.String.{String}
use mathlib.Core.Path.{◌≡◌, refl}
use mathlib.Core.Logic.{◌↔◌}
use mathlib.Core.Bool.{Bool, true, false, ◌&&◌, ◌||◌}
use mathlib.Core.List.{List, [], ◌∷◌, reverse}
use native.Mathlib.Omega.{arith}
use verifoxx.Base.Tests.{leb, ◌==◌, if◌then◌else◌}
use verifoxx.Base.Lists.{length, drop}

abbrev pub Text : Type 0
Text = List ℕ

-- The bytes of an ASCII literal.
abbrev pub bytes : String → Text
bytes String.[] = []
bytes (String.◌∷◌ c s) = code c ∷ bytes s

infix 50 ◌=ₜ◌
unfoldable pub ◌=ₜ◌ : Text → Text → Bool
[] =ₜ [] = true
[] =ₜ (b ∷ t) = false
(a ∷ s) =ₜ [] = false
(a ∷ s) =ₜ (b ∷ t) = a == b && s =ₜ t

pub =ₜ_iff : (s t : Text) → ((s =ₜ t) ≡ true) ↔ (s ≡ t)
unfolding ◌=ₜ◌
=ₜ_iff [] [] = (λ _. refl, λ _. refl)
=ₜ_iff [] (b ∷ t) = (λ h. cc, λ h. cc)
=ₜ_iff (a ∷ s) [] = (λ h. cc, λ h. cc)
=ₜ_iff (a ∷ s) (b ∷ t) = (λ h. ground (arith, =ₜ_iff s t), λ h. ground (arith, =ₜ_iff s t))

pub =ₜ_refl : (s : Text) → (s =ₜ s) ≡ true
=ₜ_refl s = (=ₜ_iff s s).1 refl

-- White_Space runes of two bytes: U+0085, U+00A0.
two_byte_space : ℕ → ℕ → Bool
two_byte_space a b = a == 0xC2 && (b == 0x85 || b == 0xA0)

-- Of three: U+1680, U+2000 to U+200A, U+2028, U+2029, U+202F, U+205F, U+3000.
three_byte_space : ℕ → ℕ → ℕ → Bool
three_byte_space a b c =
    (a == 0xE1 && b == 0x9A && c == 0x80)
    || (a == 0xE2
        && b == 0x80
        && ((leb 0x80 c && leb c 0x8A) || c == 0xA8 || c == 0xA9 || c == 0xAF))
    || (a == 0xE2 && b == 0x81 && c == 0x9F)
    || (a == 0xE3 && b == 0x80 && c == 0x80)

-- Of one: tab, newline, vertical tab, form feed, carriage return, space.
ascii_space : ℕ → Bool
ascii_space a = (leb 9 a && leb a 13) || a == 32

-- How many bytes the White_Space rune at the front takes, 0 if there is none.
space_at_front : Text → ℕ
unfolding ascii_space two_byte_space three_byte_space
space_at_front [] = 0
space_at_front (a ∷ []) = if ascii_space a then 1 else 0
space_at_front (a ∷ b ∷ []) = if ascii_space a then 1 else if two_byte_space a b then 2 else 0
space_at_front (a ∷ b ∷ c ∷ s) =
    if ascii_space a
    then 1
    else if two_byte_space a b
    then 2
    else if three_byte_space a b c
    then 3
    else 0

-- The same over the reversed bytes.
space_at_back : Text → ℕ
unfolding ascii_space two_byte_space three_byte_space
space_at_back [] = 0
space_at_back (a ∷ []) = if ascii_space a then 1 else 0
space_at_back (a ∷ b ∷ []) = if ascii_space a then 1 else if two_byte_space b a then 2 else 0
space_at_back (a ∷ b ∷ c ∷ s) =
    if ascii_space a
    then 1
    else if two_byte_space b a
    then 2
    else if three_byte_space c b a
    then 3
    else 0

-- A rune has a byte at least, so as many rounds as there are bytes are enough.
trim_by : ℕ → (Text → ℕ) → Text → Text
trim_by zero space s = s
trim_by (suc n) space s =
    let rest = trim_by n space (drop (space s) s) in if space s == 0 then s else rest

-- `strings.TrimSpace`
unfoldable pub trim_space : Text → Text
unfolding trim_by space_at_front space_at_back
trim_space s =
    let t = trim_by (length s) space_at_front s in
    reverse (trim_by (length t) space_at_back (reverse t))

-- `strings.TrimSpace(s) == ""`
unfoldable pub is_blank : Text → Bool
unfolding trim_space ◌=ₜ◌
is_blank s = trim_space s =ₜ []

pub is_blank-empty : is_blank [] ≡ true
unfolding is_blank
is_blank-empty = refl

-- `strings.TrimSpace(id) == "" || strings.TrimSpace(id) != id`
unfoldable pub is_malformed : Text → Bool
unfolding is_blank
is_malformed s = is_blank s || mathlib.Core.Bool.not (trim_space s =ₜ s)

-- A set of strings, as the list of those that were put into it.
unfoldable pub is_member : Text → List Text → Bool
is_member id [] = false
is_member id (other ∷ ids) = id =ₜ other || is_member id ids
