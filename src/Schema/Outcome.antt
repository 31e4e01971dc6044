-- ===== src/Schema/Outcome.antt =====
-- internal/schema/states.go, the OutcomeID constants. 0 is `OutcomeInvalid`.
use verifoxx.Base.{ℕ}

abbrev pub approve : ℕ
approve = 1

abbrev pub reject : ℕ
reject = 2

abbrev pub revise : ℕ
revise = 3

abbrev pub escalate : ℕ
escalate = 4

abbrev pub count : ℕ
count = 4
