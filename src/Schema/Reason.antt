-- ===== src/Schema/Reason.antt =====
-- internal/schema/states.go, the ReasonID constants. 0 is `ReasonInvalid`.
use verifoxx.Base.{ℕ}

abbrev pub satisfied : ℕ
satisfied = 1

abbrev pub refuted : ℕ
refuted = 2

abbrev pub missing : ℕ
missing = 3

abbrev pub invalid_evidence : ℕ
invalid_evidence = 4

abbrev pub stale : ℕ
stale = 5

abbrev pub unclear : ℕ
unclear = 6

abbrev pub unverifiable : ℕ
unverifiable = 7

abbrev pub conflict : ℕ
conflict = 8

abbrev pub count : ℕ
count = 8
