-- ===== src/Schema/Field.antt =====
-- internal/schema/fields.go, the FieldID constants.
use verifoxx.Base.{ℕ}

abbrev pub requester : ℕ
requester = 1

abbrev pub trust_level : ℕ
trust_level = 2

abbrev pub action : ℕ
action = 3

abbrev pub output_kind : ℕ
output_kind = 4

abbrev pub dataset : ℕ
dataset = 5

abbrev pub environment : ℕ
environment = 6

abbrev pub usage_limit : ℕ
usage_limit = 7

-- `FieldCount`, one more than the last field.
abbrev pub count : ℕ
count = 8
