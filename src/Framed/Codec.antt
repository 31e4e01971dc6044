-- ===== src/Framed/Codec.antt =====
-- internal/adapters/framed/codec.go. A source is the list of the bytes not read yet; a destination
-- is any `io.Writer`, given by what one `Write` does.
use verifoxx.Base.{
  ℕ, zero, suc, ◌+◌, ◌*◌, ◌/◌, ◌%◌, ◌^◌, Bool, Option, none, some, [], ◌∷◌, length, take, drop, ltb,
  ◌==◌, if◌then◌else◌, Run, ok, err, ◌>>=◌, reject_if,
}
use verifoxx.Base.Text.{Text}

abbrev pub max_input_payload : ℕ
max_input_payload = 16777216

abbrev pub max_output_payload : ℕ
max_output_payload = 67108864

pub data ReadError : Type 0 where
  header_truncated : ReadError
  payload_too_long : ReadError
  payload_truncated : ReadError

pub record Frame : Type 0 where
  pub payload : Text
  pub rest : Text

-- `binary.BigEndian.Uint32`
unfoldable pub be_uint32 : ℕ → ℕ → ℕ → ℕ → ℕ
be_uint32 a b c d = ((a * 256 + b) * 256 + c) * 256 + d

-- `binary.BigEndian.PutUint32`
unfoldable pub put_uint32 : ℕ → Text
put_uint32 n = n / 16777216 % 256 ∷ n / 65536 % 256 ∷ n / 256 % 256 ∷ n % 256 ∷ []

-- `FrameReader.Read` after the header.
unfoldable pub read_payload : ℕ → Text → Run ReadError (Option Frame)
read_payload size source = do
  _ ← reject_if (ltb max_input_payload size) ReadError.payload_too_long
  _ ← reject_if (ltb (length source) size) ReadError.payload_truncated
  ok (some (record { payload = take size source; rest = drop size source }))

-- `FrameReader.Read`: no frame at the end of the source.
unfoldable pub read_frame : Text → Run ReadError (Option Frame)
unfolding be_uint32 read_payload
read_frame [] = ok none
read_frame (a ∷ b ∷ c ∷ d ∷ source) = read_payload (be_uint32 a b c d) source
read_frame source = err ReadError.header_truncated

-- What one `Write` returns: the count (none if it is negative), whether there is an error, and the
-- destination after it.
pub record Written (D : Type 0) : Type 0 where
  pub count : Option ℕ
  pub failed : Bool
  pub destination : D

pub data WriteError : Type 0 where
  frame_too_long : WriteError
  invalid_count : WriteError
  destination_error : WriteError
  short_write : WriteError

pub record Sent (D : Type 0) : Type 0 where
  pub error : Option WriteError
  pub destination : D

module _ {D : Type 0} (write : D → Text → Written D) where
  -- `writeFull`, on fuel; none if the fuel does not do. `writeFull` in the source hands an empty
  -- payload to no `Write`.
  unfoldable pub write_from : ℕ → D → Text → Option (Sent D)
  write_from fuel d [] = some (record { error = none; destination = d })
  write_from zero d (b ∷ payload) = none
  write_from (suc fuel) d (b ∷ payload) =
      let w = write d (b ∷ payload) in
      elim w.count [
        | none ↦
            some (record { error = some WriteError.invalid_count; destination = w.destination })
        | some n ↦
            let rest = write_from fuel w.destination (drop n (b ∷ payload)) in
            if ltb (length (b ∷ payload)) n
            then some
                (record { error = some WriteError.invalid_count; destination = w.destination })
            else if w.failed
            then some
                (record { error = some WriteError.destination_error; destination = w.destination })
            else if n == 0
            then some (record { error = some WriteError.short_write; destination = w.destination })
            else rest
      ]

  unfoldable pub write_full : D → Text → Option (Sent D)
  unfolding write_from
  write_full d payload = write_from (length payload) d payload

  -- `FrameWriter.Write` after the header: the payload, unless the header failed.
  unfoldable pub write_payload : Text → Sent D → Option (Sent D)
  write_payload payload header = elim header.error [
    | none ↦ write_full header.destination payload
    | some e ↦ some header
  ]

  -- `FrameWriter.Write`
  unfoldable pub write_frame : D → Text → Option (Sent D)
  write_frame d payload =
      if ltb max_output_payload (length payload)
      then some (record { error = some WriteError.frame_too_long; destination = d })
      else elim (write_full d (put_uint32 (length payload % 2 ^ 32))) [
        | none ↦ none
        | some header ↦ write_payload payload header
      ]
