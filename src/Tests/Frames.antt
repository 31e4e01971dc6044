-- ===== src/Tests/Frames.antt =====
-- Frames of two and three bytes.
use verifoxx.Base.{
  ℕ, ◌≡◌, refl, ◌≤◌, ◌<◌, arith, [], ◌∷◌, ◌++◌, length, take, get_or, some, ok, false,
}
use verifoxx.Base.Text.{Text}
use verifoxx.Framed.Codec.{Frame, Written, Sent, read_frame, be_uint32, read_payload, write_frame}
use verifoxx.Framed.RoundTrip.{frame, Reads, read_frame-frame, read_frame-Reads}
use verifoxx.Framed.Writing.{Reached, write_frame-Reached}

read_frame-frame_example :
    read_frame (frame (1 ∷ 2 ∷ []) ++ 9 ∷ [])
    ≡ ok (some (record { payload = 1 ∷ 2 ∷ []; rest = 9 ∷ [] }))
read_frame-frame_example = read_frame-frame (1 ∷ 2 ∷ []) (9 ∷ []) (omega arith)

abbrev stream : Text
stream = 0 ∷ 0 ∷ 0 ∷ 1 ∷ 200 ∷ 0 ∷ []

abbrev first : Frame
first = record { payload = 200 ∷ []; rest = 0 ∷ [] }

stream-first : read_frame stream ≡ ok (some first)
unfolding read_frame be_uint32 read_payload
stream-first = refl

stream-bytes : (i : ℕ) → i < length stream → get_or stream i 0 < 256
stream-bytes i h = ground arith

read_frame-Reads_example : Reads stream first
read_frame-Reads_example = read_frame-Reads stream first stream-bytes stream-first

-- A destination that takes three bytes at a time.
abbrev by_three : Text → Text → Written Text
by_three log payload = record {
  count = some (length (take 3 payload));
  failed = false;
  destination = log ++ take 3 payload;
}

by_three-appends :
    (log payload : Text)
    → (n : ℕ) × (n ≤ length payload)
      × ((by_three log payload).count ≡ some n)
      × ((by_three log payload).destination ≡ log ++ take n payload)
by_three-appends log [] = (0, omega arith, refl, refl)
by_three-appends log (a ∷ []) = (1, omega arith, refl, refl)
by_three-appends log (a ∷ b ∷ []) = (2, omega arith, refl, refl)
by_three-appends log (a ∷ b ∷ c ∷ payload) = (3, omega arith, refl, refl)

write_frame-Reached_example :
    (s : Sent Text) × (write_frame by_three [] (1 ∷ 2 ∷ []) ≡ some s)
    × Reached [] (frame (1 ∷ 2 ∷ [])) s.error s.destination
write_frame-Reached_example =
    write_frame-Reached by_three (λ log. log) by_three-appends [] (1 ∷ 2 ∷ []) (omega arith)
