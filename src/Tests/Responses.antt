-- ===== src/Tests/Responses.antt =====
-- A message whose last character has two bytes, and a response in two writes.
use verifoxx.Base.{
  ◌+◌, ◌≤◌, ◌≡◌, refl, ◌↔◌, arith, Bool, true, List, [], ◌∷◌, ◌++◌, length, ltb, if◌then◌else◌, ok,
  Returns,
}
use verifoxx.Base.Text.{Text}
use verifoxx.Framed.Limits.{
  Truncated, truncate_utf8-Truncated, write_all, joined_bytes, write_all_iff,
}
use verifoxx.Framed.Response.{BoundedBuffer, BufferError, truncate_utf8}

-- Texts of characters of one and of two bytes.
abbrev is_short_text : Text → Bool
is_short_text [] = true
is_short_text (a ∷ []) = ltb a 128
is_short_text (a ∷ b ∷ t) =
    let one = is_short_text (b ∷ t) in let two = is_short_text t in if ltb a 128 then one else two

truncate_utf8-Truncated_example :
    Returns {E = BufferError}
      (Truncated is_short_text (97 ∷ 195 ∷ 169 ∷ []) 2)
      (truncate_utf8 is_short_text (97 ∷ 195 ∷ 169 ∷ []) 2)
truncate_utf8-Truncated_example = truncate_utf8-Truncated is_short_text refl (97 ∷ 195 ∷ 169 ∷ []) 2

abbrev small_buffer : BoundedBuffer
small_buffer = record { content = 1 ∷ []; limit = 4 }

abbrev two_writes : List Text
two_writes = (2 ∷ 3 ∷ []) ∷ (4 ∷ []) ∷ []

write_all_iff_example :
    (write_all small_buffer two_writes
      ≡ ok (record small_buffer { content = (1 ∷ []) ++ joined_bytes two_writes }))
    ↔ ((1 + length (joined_bytes two_writes) ≤ 4)
        × ((record small_buffer { content = (1 ∷ []) ++ joined_bytes two_writes })
            ≡ (record small_buffer { content = (1 ∷ []) ++ joined_bytes two_writes })))
write_all_iff_example =
    write_all_iff small_buffer two_writes
      (record small_buffer { content = (1 ∷ []) ++ joined_bytes two_writes }) (omega arith)
