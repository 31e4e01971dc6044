-- ===== src/Framed/Response.antt =====
-- internal/adapters/framed/json.go: how a response is kept within its limits. `utf8.ValidString` is the
-- parameter `valid_string`.
use verifoxx.Base.{
  ℕ, zero, suc, ◌+◌, Bool, [], ◌++◌, length, take, ltb, leb, ◌==◌, ◌||◌, if◌then◌else◌, Run, ok,
  err, panic,
}
use verifoxx.Base.Text.{Text}
use verifoxx.Framed.Codec.{max_output_payload}

abbrev pub max_error_message_bytes : ℕ
max_error_message_bytes = 1024

pub record BoundedBuffer : Type 0 where
  pub content : Text
  pub limit : ℕ

pub data BufferError : Type 0 where
  exceeds_limit : ℕ → BufferError

-- The buffer of `NewJSONCodec`; 0 stands for any limit that is not positive.
unfoldable pub new_buffer : ℕ → BoundedBuffer
new_buffer max_response_bytes =
    if max_response_bytes == 0 || ltb max_output_payload max_response_bytes
    then record { content = []; limit = max_output_payload }
    else record { content = []; limit = max_response_bytes }

abbrev pub reset_buffer : BoundedBuffer → BoundedBuffer
reset_buffer buffer = record buffer { content = [] }

-- `len(src) > buffer.limit-len(buffer.data)`, without the difference, which may be negative.
unfoldable pub write_buffer : BoundedBuffer → Text → Run BufferError BoundedBuffer
write_buffer buffer src =
    if ltb buffer.limit (length buffer.content + length src)
    then err (BufferError.exceeds_limit buffer.limit)
    else ok (record buffer { content = buffer.content ++ src })

-- The loop of `truncateUTF8` from the first `n` bytes on: the empty string has no shorter one.
unfoldable pub shrink : {E : Type 0} → (Text → Bool) → ℕ → Text → Run E Text
shrink valid_string zero value = if valid_string [] then ok [] else panic
shrink valid_string (suc n) value =
    let rest = shrink valid_string n value in
    if valid_string (take (suc n) value) then ok (take (suc n) value) else rest

unfoldable pub truncate_utf8 : {E : Type 0} → (Text → Bool) → Text → ℕ → Run E Text
truncate_utf8 valid_string value limit =
    if leb (length value) limit then ok value else shrink valid_string limit value
