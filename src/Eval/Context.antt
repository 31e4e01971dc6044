-- ===== src/Eval/Context.antt =====
-- internal/eval/truth.go and context.go: the bitplanes of one evaluation. A plane of the source
-- is a slice that aliases its storage, so the model passes the storage and where the plane lies.
use Prim.Native.Nat.{bit_or}
use verifoxx.Base.{
  ℕ, ◌+◌, ◌-◌, ◌*◌, ◌/◌, ◌%◌, ◌^◌, Bool, not, ◌||◌, List, length, replicate, ltb, leb, ◌==◌,
  if◌then◌else◌, Run, ok, panic, ◌>>=◌, nth, store,
}
use verifoxx.Base.Bits.{has_bit}
use verifoxx.Schema.{is_valid_id}
use verifoxx.Schema.Reason
use verifoxx.Program.{Program}
use verifoxx.Eval.Error.{Error}

pub record Context : Type 0 where
  pub positive : List ℕ
  pub negative : List ℕ
  pub reasons : List ℕ
  pub rows : ℕ
  pub words : ℕ
  pub instructions : ℕ

-- Where a plane lies in its storage. `nil` has no cells.
pub record Plane : Type 0 where
  pub start : ℕ
  pub size : ℕ

abbrev pub nil_plane : Plane
nil_plane = record { start = 0; size = 0 }

-- uint32
abbrev pub u32 : ℕ → ℕ
u32 n = n % 2 ^ 32

-- `plane[row>>6] |= uint64(1) << (row & 63)`
unfoldable pub set_row : List ℕ → Plane → ℕ → Run Error (List ℕ)
set_row storage plane row =
    if ltb (row / 64) plane.size
    then (nth storage (plane.start + row / 64) >>= λ cell.
        store storage (plane.start + row / 64) (bit_or cell (2 ^ (row % 64))))
    else panic

-- `plane[row>>6]&(uint64(1)<<(row&63)) != 0`, of a plane in a storage.
unfoldable pub has_row_in : List ℕ → Plane → ℕ → Run Error Bool
has_row_in storage plane row =
    if ltb (row / 64) plane.size
    then (nth storage (plane.start + row / 64) >>= λ cell. ok (has_bit cell (row % 64)))
    else panic

-- The same of a plane that is only read.
unfoldable pub has_row : List ℕ → ℕ → Run Error Bool
has_row plane row = do cell ← nth plane (row / 64); ok (has_bit cell (row % 64))

unfoldable pub tail_mask : ℕ → ℕ
tail_mask rows = if rows % 64 == 0 then 2 ^ 64 - 1 else 2 ^ (rows % 64) - 1

-- `resizeClear`: a fresh or a reused slice, `length` zeros either way.
abbrev pub resize_clear : ℕ → List ℕ
resize_clear n = replicate n 0

-- `(rows + 63) / 64`, in uint32.
abbrev pub word_count : ℕ → ℕ
word_count rows = u32 (rows + 63) / 64

unfoldable pub ensure : Program → ℕ → Context
ensure compiled rows =
    let words = word_count rows in
    let instructions = u32 (length compiled.opcodes) in
    record {
      positive = resize_clear (words * instructions);
      negative = resize_clear (words * instructions);
      reasons = resize_clear (Reason.count * words * instructions);
      rows = rows;
      words = words;
      instructions = instructions;
    }

-- `storage[start : start+Words]`, a panic past the end.
unfoldable pub plane_of : Context → List ℕ → ℕ → Run Error Plane
plane_of context storage start =
    if leb (start + context.words) (length storage)
    then ok (record { start = start; size = context.words })
    else panic

unfoldable pub instruction_plane : Context → List ℕ → ℕ → Run Error Plane
unfolding plane_of
instruction_plane context storage instruction =
    if not (is_valid_id instruction) || ltb context.instructions instruction || context.words == 0
    then ok nil_plane
    else plane_of context storage ((instruction - 1) * context.words)

unfoldable pub positive_plane : Context → ℕ → Run Error Plane
unfolding instruction_plane
positive_plane context instruction = instruction_plane context context.positive instruction

unfoldable pub negative_plane : Context → ℕ → Run Error Plane
unfolding instruction_plane
negative_plane context instruction = instruction_plane context context.negative instruction

unfoldable pub reason_plane : Context → ℕ → ℕ → Run Error Plane
unfolding plane_of
reason_plane context reason instruction =
    if not (is_valid_id reason)
      || ltb Reason.count reason
      || not (is_valid_id instruction)
      || ltb context.instructions instruction
      || context.words == 0
    then ok nil_plane
    else plane_of context context.reasons
        (((reason - 1) * context.instructions + instruction - 1) * context.words)

-- `setRow` on a positive and on a negative plane.
unfoldable pub set_positive : Context → Plane → ℕ → Run Error Context
unfolding set_row
set_positive context plane row = do
  storage ← set_row context.positive plane row
  ok (record context { positive = storage })

unfoldable pub set_negative : Context → Plane → ℕ → Run Error Context
unfolding set_row
set_negative context plane row = do
  storage ← set_row context.negative plane row
  ok (record context { negative = storage })

unfoldable pub set_reason : Context → ℕ → ℕ → ℕ → Run Error Context
unfolding set_row reason_plane
set_reason context reason instruction row = do
  plane ← reason_plane context reason instruction
  storage ← set_row context.reasons plane row
  ok (record context { reasons = storage })
