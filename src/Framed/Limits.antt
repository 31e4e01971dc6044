-- ===== src/Framed/Limits.antt =====
-- internal/adapters/framed/json.go: the limits of a response and of an error's message.
use native.Mathlib.Decide.{ℕ_discrete, dec_lt}
use mathlib.Core.List.{append_assoc, append-nil}
use verifoxx.Base.{
  ℕ, zero, suc, ◌+◌, ◌≤◌, ◌<◌, ◌≡◌, refl, sym, ap, ◌∙◌, ◌↔◌, ◌⊎◌, Bool, true, false, List, [], ◌∷◌,
  ◌++◌, length, length-append, length-take, take, Bool-cases, inl, inr, le→leb, lt→leb, le→ltb,
  lt→ltb, arith, Run, ok, err, ◌>>=◌, Returns, returns, Returns-mono,
}
use verifoxx.Base.Text.{Text}
use verifoxx.Framed.Response.{BoundedBuffer, BufferError, write_buffer, shrink, truncate_utf8}

-- The longest valid prefix of at most `n` bytes.
pub record LongestValid (valid_string : Text → Bool) (n : ℕ) (value t : Text) : Type 0 where
  pub size : ℕ
  pub within : size ≤ n
  pub prefix : t ≡ take size value
  pub is_valid : valid_string t ≡ true
  pub longest : (k : ℕ) → size < k → k ≤ n → valid_string (take k value) ≡ false

shrink-LongestValid :
    {E : Type 0} (valid_string : Text → Bool)
    → valid_string [] ≡ true
    → (n : ℕ) (value : Text)
    → Returns {E = E} (LongestValid valid_string n value) (shrink valid_string n value)
unfolding shrink
shrink-LongestValid valid_string empty zero value = rw empty (
    returns (record {
      size = 0;
      within = omega arith;
      prefix = refl;
      is_valid = empty;
      longest = λ k above below. absurd (omega arith);
    }))
shrink-LongestValid {E = E} valid_string empty (suc n) value =
    elim (Bool-cases (valid_string (take (suc n) value))) [
      | inl fine ↦ rw fine (
          returns (record {
            size = suc n;
            within = omega arith;
            prefix = refl;
            is_valid = fine;
            longest = λ k above below. absurd (omega arith);
          }))
      | inr cut ↦ rw cut (
          Returns-mono (shrink-LongestValid {E = E} valid_string empty n value) λ t h. record {
            size = h.size;
            within = omega (arith, h.within);
            prefix = h.prefix;
            is_valid = h.is_valid;
            longest = λ k above below. elim (ℕ_discrete k (suc n)) [
              | yes at ↦ ap (λ (x : ℕ). valid_string (take x value)) at ∙ cut
              | no other ↦ h.longest k above (omega arith)
            ];
          })
    ]

-- A message within the limit is kept, and of a longer one the longest valid prefix within it.
abbrev pub Truncated : (Text → Bool) → Text → ℕ → Text → Type 0
Truncated valid_string value limit t =
    (length t ≤ limit)
    × (((length value ≤ limit) × (t ≡ value))
        ⊎ ((limit < length value) × LongestValid valid_string limit value t))

-- If the empty string is valid, truncateUTF8 ends with a string of at most `limit` bytes, without an
-- index out of range: the value itself if it is no longer, else the longest prefix of at most
-- `limit` bytes that is valid.
pub truncate_utf8-Truncated :
    {E : Type 0} (valid_string : Text → Bool)
    → valid_string [] ≡ true
    → (value : Text) (limit : ℕ)
    → Returns {E = E} (Truncated valid_string value limit) (truncate_utf8 valid_string value limit)
unfolding truncate_utf8
truncate_utf8-Truncated {E = E} valid_string empty value limit =
    elim (dec_lt limit (length value)) [
      | no short ↦
          rw (le→leb (length value) limit (omega arith))
            (returns (omega arith, inl (omega arith, refl)))
      | yes long ↦ rw (lt→leb (length value) limit long) (
          Returns-mono (shrink-LongestValid {E = E} valid_string empty limit value) λ t h.
            (omega (arith, ap length h.prefix, length-take h.size value, h.within), inr (long, h)))
    ]

-- Several writes in a row.
abbrev pub write_all : BoundedBuffer → List Text → Run BufferError BoundedBuffer
write_all buffer [] = ok buffer
write_all buffer (src ∷ srcs) = write_buffer buffer src >>= λ next. write_all next srcs

abbrev pub joined_bytes : List Text → Text
joined_bytes [] = []
joined_bytes (src ∷ srcs) = src ++ joined_bytes srcs

ok_inj : {E : Type 0} {A : Type 0} (a b : A) → ◌≡◌ {A = Run E A} (ok a) (ok b) → a ≡ b
ok_inj a b h = cc

no_buffer : {A : Type 0} {e : BufferError} {b : A} → ◌≡◌ {A = Run BufferError A} (err e) (ok b) → ⊥
no_buffer h = cc

-- On a buffer that is within its limit, writes in a row succeed exactly if all their bytes fit, and
-- the buffer then holds its content and those bytes in order, with the same limit.
pub write_all_iff :
    (buffer : BoundedBuffer) (srcs : List Text) (b : BoundedBuffer)
    → length buffer.content ≤ buffer.limit
    → (write_all buffer srcs ≡ ok b) ↔ (
        (length buffer.content + length (joined_bytes srcs) ≤ buffer.limit)
        × (b ≡ record buffer { content = buffer.content ++ joined_bytes srcs }))
unfolding write_buffer
write_all_iff buffer [] b within =
    let same : record buffer { content = buffer.content ++ [] } ≡ buffer =
      ap (λ (t : Text). record buffer { content = t }) (append-nil buffer.content) in
    (
      λ h. (omega arith, sym (ok_inj {E = BufferError} buffer b h) ∙ sym same),
      λ (fits, is). ap ok (sym (is ∙ same)),
    )
write_all_iff buffer (src ∷ srcs) b within =
    let total = length-append src (joined_bytes srcs) in
    let next = length-append buffer.content src in
    let assoc = append_assoc buffer.content src (joined_bytes srcs) in
    elim (dec_lt buffer.limit (length buffer.content + length src)) [
      | yes over ↦
          rw (lt→ltb buffer.limit (length buffer.content + length src) over)
            (λ h. absurd (no_buffer h), λ (fits, is). absurd (omega (arith, total)))
      | no fit ↦
          let rest =
            write_all_iff (record buffer { content = buffer.content ++ src }) srcs b
              (omega (arith, next)) in
          let low : length buffer.content + length src ≤ buffer.limit = omega arith in
          rw (le→ltb buffer.limit (length buffer.content + length src) low) (
            λ h.
                let (fits, is) = rest.0 h in
                (
                  omega (arith, total, next),
                  is ∙ ap (λ (t : Text). record buffer { content = t }) assoc,
                ),
            λ (fits, is). rest.1 (
              omega (arith, total, next),
              is ∙ ap (λ (t : Text). record buffer { content = t }) (sym assoc),
            ),
          )
    ]
