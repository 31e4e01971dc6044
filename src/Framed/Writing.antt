-- ===== src/Framed/Writing.antt =====
-- internal/adapters/framed/codec.go: the bytes of a frame at its destination.
use verifoxx.Base.{
  ℕ, zero, suc, ◌%◌, ◌^◌, ◌≤◌, ◌≡◌, ◌≢◌, ◌⊎◌, inl, inr, refl, sym, ap, ◌∙◌, false, Option, none,
  some, [], ◌∷◌, ◌++◌, length, take, drop, arith, ◌==◌, Bool-cases, le→ltb, length-drop,
  Option-cases,
}
use verifoxx.Base.Text.{Text}
use verifoxx.Framed.Codec.{
  max_output_payload, put_uint32, Written, Sent, WriteError, write_from, write_full, write_payload,
  write_frame,
}
use verifoxx.Framed.RoundTrip.{frame, take-drop}

-- The bytes that reached the destination after `before`: the payload from its front on, and all of
-- it unless there is an error.
abbrev pub Reached : Text → Text → Option WriteError → Text → Type 0
Reached before payload error after =
    (sent : Text) × (unsent : Text) × (payload ≡ sent ++ unsent)
    × (after ≡ before ++ sent)
    × ((unsent ≡ []) ⊎ (error ≢ none))

++_assoc : (xs ys zs : Text) → (xs ++ ys) ++ zs ≡ xs ++ (ys ++ zs)
++_assoc [] ys zs = refl
++_assoc (x ∷ xs) ys zs = ap (λ (t : Text). x ∷ t) (++_assoc xs ys zs)

++_nil : (xs : Text) → xs ++ [] ≡ xs
++_nil [] = refl
++_nil (x ∷ xs) = ap (λ (t : Text). x ∷ t) (++_nil xs)

length-drop-fits :
    (n : ℕ) (xs : Text) {fuel : ℕ}
    → (n == 0) ≡ false
    → length xs ≤ suc fuel
    → length (drop n xs) ≤ fuel
length-drop-fits n xs moved h = rw (length-drop n xs) (ground arith)

-- `io.Writer`: a count that is in range is the number of bytes, from the front, that reached the
-- destination, and bytes reach it in no other way.
module _ {D : Type 0} (write : D → Text → Written D) (log : D → Text)
    (appends : (d : D) (payload : Text)
      → (n : ℕ) × (n ≤ length payload)
        × ((write d payload).count ≡ some n)
        × (log (write d payload).destination ≡ log d ++ take n payload)) where
  pub write_from-Reached :
      (fuel : ℕ) (d : D) (payload : Text)
      → length payload ≤ fuel
      → (s : Sent D) × (write_from write fuel d payload ≡ some s)
        × Reached (log d) payload s.error (log s.destination)
  unfolding write_from
  write_from-Reached fuel d [] h = (
    record { error = none; destination = d },
    refl,
    ([], [], refl, sym (++_nil (log d)), inl refl),
  )
  write_from-Reached zero d (b ∷ payload) h = absurd (omega arith)
  write_from-Reached (suc fuel) d (b ∷ payload) h =
      let all = b ∷ payload in
      let w = write d all in
      let (n, fits, count, reached) = appends d all in
      elim (Bool-cases w.failed) [
        | inl failed ↦ (
          record { error = some WriteError.destination_error; destination = w.destination },
          rw (count, write_from, le→ltb (length all) n fits, failed),
          (take n all, drop n all, take-drop n all, reached, inr λ e. cc),
        )
        | inr going ↦ elim (Bool-cases (n == 0)) [
          | inl stuck ↦ (
            record { error = some WriteError.short_write; destination = w.destination },
            rw (count, write_from, le→ltb (length all) n fits, going, stuck),
            (take n all, drop n all, take-drop n all, reached, inr λ e. cc),
          )
          | inr moved ↦
              let left : length (drop n all) ≤ fuel = length-drop-fits n all moved h in
              let (s, e, (sent, unsent, cut, after, done)) =
                write_from-Reached fuel w.destination (drop n all) left in
              (
                s,
                rw (count, write_from, le→ltb (length all) n fits, going, moved) e,
                (
                  take n all ++ sent,
                  unsent,
                  take-drop n all
                      ∙ ap (λ (t : Text). take n all ++ t) cut
                      ∙ sym (++_assoc (take n all) sent unsent),
                  after ∙ ap (λ (t : Text). t ++ sent) reached ∙ ++_assoc (log d) (take n all) sent,
                  done,
                ),
              )
        ]
      ]

  write_full-Reached :
      (d : D) (payload : Text)
      → (s : Sent D) × (write_full write d payload ≡ some s)
        × Reached (log d) payload s.error (log s.destination)
  unfolding write_full
  write_full-Reached d payload = write_from-Reached (length payload) d payload (omega arith)

  -- For a destination whose every Write returns a count within the bytes handed over, that many of
  -- which reach it from the front, and for a payload of at most 64 MiB: FrameWriter.Write ends,
  -- the bytes that reached the destination are a part of the frame from its front, and they are
  -- all of it unless an error is returned.
  pub write_frame-Reached :
      (d : D) (payload : Text)
      → length payload ≤ max_output_payload
      → (s : Sent D) × (write_frame write d payload ≡ some s)
        × Reached (log d) (frame payload) s.error (log s.destination)
  unfolding write_frame write_payload frame
  write_frame-Reached d payload h =
      let header = put_uint32 (length payload) in
      let (s, e, (sent, unsent, cut, after, done)) = write_full-Reached d header in
      let small : length payload % 2 ^ 32 ≡ length payload = omega arith in
      let start = le→ltb max_output_payload (length payload) h in
      elim (Option-cases s.error) [
        | inr (x, failed) ↦ (
          s,
          rw (start, small, e, write_payload, failed),
          (
            sent,
            unsent ++ payload,
            ap (λ (t : Text). t ++ payload) cut ∙ ++_assoc sent unsent payload,
            after,
            inr λ none'. cc,
          ),
        )
        | inl sent_all ↦
            let (s', e', (sent', unsent', cut', after', done')) =
              write_full-Reached s.destination payload in
            let gone : unsent ≡ [] = elim done [
              | inl none_left ↦ none_left
              | inr failed ↦ absurd (failed sent_all)
            ] in
            let front : header ≡ sent = cut ∙ ap (λ (t : Text). sent ++ t) gone ∙ ++_nil sent in
            (
              s',
              rw (start, small, e, write_payload, sent_all) e',
              (
                header ++ sent',
                unsent',
                ap (λ (t : Text). header ++ t) cut' ∙ sym (++_assoc header sent' unsent'),
                after'
                    ∙ ap (λ (t : Text). t ++ sent') after
                    ∙ ap (λ (t : Text). (log d ++ t) ++ sent') (sym front)
                    ∙ ++_assoc (log d) header sent',
                done',
              ),
            )
      ]
