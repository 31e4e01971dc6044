-- ===== src/Program/Opcode.antt =====
-- internal/program/opcode.go. 0 is `OpInvalid`.
use verifoxx.Base.{ℕ, Bool, ◌&&◌, leb}

abbrev pub equal : ℕ
equal = 1

abbrev pub in_set : ℕ
in_set = 2

abbrev pub evidence_matches : ℕ
evidence_matches = 3

abbrev pub all : ℕ
all = 4

-- `Opcode.Valid`
abbrev pub is_valid : ℕ → Bool
is_valid op = leb equal op && leb op all
