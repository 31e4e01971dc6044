-- ===== src/Framed/RoundTrip.antt =====
-- internal/adapters/framed/codec.go: a frame's bytes, and reading them.
use mathlib.Core.Path.{subst}
use verifoxx.Base.{
  ℕ, zero, suc, ◌+◌, ◌*◌, ◌/◌, ◌%◌, ◌^◌, ◌≤◌, ◌<◌, ◌≡◌, refl, ap, some, [], ◌∷◌, ◌++◌, length,
  get_or, take, drop, arith, length-take, rejected, ltb→le, ◌∙◌, ltb, le→ltb, ok, length-append,
}
use verifoxx.Base.Text.{Text}
use verifoxx.Framed.Codec.{
  max_input_payload, be_uint32, put_uint32, read_payload, read_frame, Frame,
}

-- The bytes of a frame: the length in four bytes, most significant first, then the payload.
unfoldable pub frame : Text → Text
frame payload = put_uint32 (length payload) ++ payload

be_uint32-put_uint32 :
    (n : ℕ)
    → n < 2 ^ 32
    → be_uint32 (n / 16777216 % 256) (n / 65536 % 256) (n / 256 % 256) (n % 256) ≡ n
unfolding be_uint32
be_uint32-put_uint32 n h = omega arith

take-append : (xs ys : Text) → take (length xs) (xs ++ ys) ≡ xs
take-append [] ys = refl
take-append (x ∷ xs) ys = ap (λ (t : Text). x ∷ t) (take-append xs ys)

drop-append : (xs ys : Text) → drop (length xs) (xs ++ ys) ≡ ys
drop-append [] ys = refl
drop-append (x ∷ xs) ys = drop-append xs ys

-- A payload of at most 16 MiB, put behind its length in four bytes and followed by anything, is
-- read back by FrameReader.Read, and what followed is left.
pub read_frame-frame :
    (payload rest : Text)
    → length payload ≤ max_input_payload
    → read_frame (frame payload ++ rest) ≡ ok (some (record { payload = payload; rest = rest }))
unfolding read_frame frame put_uint32 read_payload
read_frame-frame payload rest h = rw (
  be_uint32-put_uint32 (length payload) (omega arith),
  le→ltb max_input_payload (length payload) h,
  length-append payload rest,
  le→ltb (length payload + length rest) (length payload) (omega arith),
  take-append payload rest,
  drop-append payload rest,
)

pub take-drop : (n : ℕ) (xs : Text) → xs ≡ take n xs ++ drop n xs
take-drop zero xs = refl
take-drop (suc n) [] = refl
take-drop (suc n) (x ∷ xs) = ap (λ (t : Text). x ∷ t) (take-drop n xs)

put_uint32-be_uint32 :
    (a b c d : ℕ)
    → a < 256
    → b < 256
    → c < 256
    → d < 256
    → put_uint32 (be_uint32 a b c d) ≡ a ∷ b ∷ c ∷ d ∷ []
unfolding put_uint32 be_uint32
put_uint32-be_uint32 a b c d ha hb hc hd =
    let n = ((a * 256 + b) * 256 + c) * 256 + d in
    let ea : n / 16777216 % 256 ≡ a = omega arith in
    let eb : n / 65536 % 256 ≡ b = omega arith in
    let ec : n / 256 % 256 ≡ c = omega arith in
    let ed : n % 256 ≡ d = omega arith in rw (ea, eb, ec, ed)

-- A frame that was read, put in front of what is left, is the source.
abbrev pub Reads : Text → Frame → Type 0
Reads source f = (source ≡ frame f.payload ++ f.rest) × (length f.payload ≤ max_input_payload)

read_payload-Reads :
    (a b c d : ℕ) (source : Text) (f : Frame)
    → a < 256
    → b < 256
    → c < 256
    → d < 256
    → read_payload (be_uint32 a b c d) source ≡ ok (some f)
    → Reads (a ∷ b ∷ c ∷ d ∷ source) f
unfolding read_payload frame
read_payload-Reads a b c d source f ha hb hc hd h =
    let size = be_uint32 a b c d in
    let (fits, h₁) = rejected (ltb max_input_payload size) _ _ h in
    let (enough, h₂) = rejected (ltb (length source) size) _ _ h₁ in
    let short : size ≤ length source = ltb→le _ _ enough in
    let read : length (take size source) ≡ size = length-take size source ∙ omega arith in
    let same : record { payload = take size source; rest = drop size source } ≡ f = cc in
    subst (λ (g : Frame). Reads (a ∷ b ∷ c ∷ d ∷ source) g) same
      (
        rw (read, put_uint32-be_uint32 a b c d ha hb hc hd)
            (ap (λ (t : Text). a ∷ b ∷ c ∷ d ∷ t) (take-drop size source)),
        rw (read) (ltb→le _ _ fits),
      )

-- If FrameReader.Read returns a frame from a source of bytes, then the source is the four bytes of
-- the payload's length, the payload and what is left, and the payload has at most 16 MiB.
pub read_frame-Reads :
    (source : Text) (f : Frame)
    → ((i : ℕ) → i < length source → get_or source i 0 < 256)
    → read_frame source ≡ ok (some f)
    → Reads source f
unfolding read_frame
read_frame-Reads [] f is_byte h = cc
read_frame-Reads (a ∷ []) f is_byte h = cc
read_frame-Reads (a ∷ b ∷ []) f is_byte h = cc
read_frame-Reads (a ∷ b ∷ c ∷ []) f is_byte h = cc
read_frame-Reads (a ∷ b ∷ c ∷ d ∷ source) f is_byte h =
    read_payload-Reads a b c d source f (is_byte 0 (omega arith)) (is_byte 1 (omega arith))
      (is_byte 2 (omega arith)) (is_byte 3 (omega arith)) h
