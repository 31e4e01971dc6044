-- ===== src/ResultBatch.antt =====
-- internal/result/batch.go: the caller-owned numeric results. A slice is its items and its
-- capacity: what lies past the items is never read, since `clear` follows each reslice.
pub mod Capacity
use verifoxx.Base.{
  ℕ, suc, ◌+◌, Bool, ◌≡◌, List, [], ◌∷◌, ◌++◌, length, replicate, ltb, leb, if◌then◌else◌, Run, ok,
  err, panic, ◌>>=◌, ◌>>◌, store,
}
use Prim.Native.Nat.{max}

pub record Slice : Type 0 where
  pub items : List ℕ
  pub cap : ℕ

-- A fresh `var batch result.Batch` holds nil slices.
abbrev pub nil_slice : Slice
nil_slice = record { items = []; cap = 0 }

-- `DriverKind`
abbrev pub driver_none : ℕ
driver_none = 0

abbrev pub driver_clause : ℕ
driver_clause = 1

abbrev pub driver_semantic : ℕ
driver_semantic = 2

abbrev pub driver_missing_reference : ℕ
driver_missing_reference = 3

abbrev pub driver_no_applicable_requirement : ℕ
driver_no_applicable_requirement = 4

pub record ResultBatch : Type 0 where
  pub outcome_ids : Slice
  pub driver_kinds : Slice
  pub driver_requirement_ids : Slice
  pub driver_clause_ids : Slice
  pub driver_reason_ids : Slice
  pub driver_field_ids : Slice
  pub driver_evidence_edge_ids : Slice
  pub issue_ids : Slice
  pub requirement_offsets : Slice
  pub requirement_ids : Slice
  pub evidence_offsets : Slice
  pub evidence_refs : Slice
  pub remediation_offsets : Slice
  pub remediation_ids : Slice

-- `CapacityError`, without the column's name: what the column has and what it needs.
pub record CapacityError : Type 0 where
  pub column : ℕ
  pub have : ℕ
  pub need : ℕ

-- `slice[:length]` and `clear`: a panic past the capacity.
unfoldable pub reset_length : {E : Type 0} → Slice → ℕ → Run E Slice
reset_length s n = if ltb s.cap n then panic else ok (record { items = replicate n 0; cap = s.cap })

unfoldable pub ensure_length : {E : Type 0} → Slice → ℕ → Run E Slice
unfolding reset_length
ensure_length s n =
    if ltb s.cap n then ok (record { items = replicate n 0; cap = n }) else reset_length s n

unfoldable pub ensure_empty_capacity : Slice → ℕ → Slice
ensure_empty_capacity s n =
    if ltb s.cap n then record { items = []; cap = n } else record s { items = [] }

-- `append(slice, v)`: past the capacity the runtime picks a larger one, here the least.
abbrev pub append_item : Slice → ℕ → Slice
append_item s v = record { items = s.items ++ v ∷ []; cap = max s.cap (suc (length s.items)) }

-- `slice[i] = v`
abbrev pub store_item : {E : Type 0} → Slice → ℕ → ℕ → Run E Slice
store_item s i v = store s.items i v >>= λ items. ok (record s { items = items })

unfoldable pub ensure : {E : Type 0} → ResultBatch → ℕ → ℕ → ℕ → ℕ → Run E ResultBatch
unfolding ensure_length ensure_empty_capacity
ensure batch rows requirement_capacity evidence_capacity remediation_capacity = do
  outcome_ids ← ensure_length batch.outcome_ids rows
  driver_kinds ← ensure_length batch.driver_kinds rows
  driver_requirement_ids ← ensure_length batch.driver_requirement_ids rows
  driver_clause_ids ← ensure_length batch.driver_clause_ids rows
  driver_reason_ids ← ensure_length batch.driver_reason_ids rows
  driver_field_ids ← ensure_length batch.driver_field_ids rows
  driver_evidence_edge_ids ← ensure_length batch.driver_evidence_edge_ids rows
  issue_ids ← ensure_length batch.issue_ids rows
  requirement_offsets ← ensure_length batch.requirement_offsets (rows + 1)
  evidence_offsets ← ensure_length batch.evidence_offsets (rows + 1)
  remediation_offsets ← ensure_length batch.remediation_offsets (rows + 1)
  ok (record {
    outcome_ids = outcome_ids;
    driver_kinds = driver_kinds;
    driver_requirement_ids = driver_requirement_ids;
    driver_clause_ids = driver_clause_ids;
    driver_reason_ids = driver_reason_ids;
    driver_field_ids = driver_field_ids;
    driver_evidence_edge_ids = driver_evidence_edge_ids;
    issue_ids = issue_ids;
    requirement_offsets = requirement_offsets;
    requirement_ids = ensure_empty_capacity batch.requirement_ids requirement_capacity;
    evidence_offsets = evidence_offsets;
    evidence_refs = ensure_empty_capacity batch.evidence_refs evidence_capacity;
    remediation_offsets = remediation_offsets;
    remediation_ids = ensure_empty_capacity batch.remediation_ids remediation_capacity;
  })

unfoldable pub check_columns : ℕ → List (Slice × ℕ) → Run CapacityError (Unit {0})
check_columns column [] = ok tt
check_columns column ((s, need) ∷ columns) =
    if ltb s.cap need
    then err (record { column = column; have = s.cap; need = need })
    else check_columns (suc column) columns

-- The columns in the order of `CheckCapacity`, with what each needs.
abbrev pub columns : ResultBatch → ℕ → ℕ → ℕ → ℕ → List (Slice × ℕ)
columns batch rows requirement_capacity evidence_capacity remediation_capacity =
    (batch.outcome_ids, rows)
    ∷ (batch.driver_kinds, rows)
    ∷ (batch.driver_requirement_ids, rows)
    ∷ (batch.driver_clause_ids, rows)
    ∷ (batch.driver_reason_ids, rows)
    ∷ (batch.driver_field_ids, rows)
    ∷ (batch.driver_evidence_edge_ids, rows)
    ∷ (batch.issue_ids, rows)
    ∷ (batch.requirement_offsets, rows + 1)
    ∷ (batch.evidence_offsets, rows + 1)
    ∷ (batch.remediation_offsets, rows + 1)
    ∷ (batch.requirement_ids, requirement_capacity)
    ∷ (batch.evidence_refs, evidence_capacity)
    ∷ (batch.remediation_ids, remediation_capacity)
    ∷ []

unfoldable pub check_capacity : ResultBatch → ℕ → ℕ → ℕ → ℕ → Run CapacityError (Unit {0})
check_capacity batch rows requirement_capacity evidence_capacity remediation_capacity =
    check_columns 0 (columns batch rows requirement_capacity evidence_capacity remediation_capacity)

unfoldable pub reset : {E : Type 0} → ResultBatch → ℕ → Run E ResultBatch
unfolding reset_length
reset batch rows = do
  outcome_ids ← reset_length batch.outcome_ids rows
  driver_kinds ← reset_length batch.driver_kinds rows
  driver_requirement_ids ← reset_length batch.driver_requirement_ids rows
  driver_clause_ids ← reset_length batch.driver_clause_ids rows
  driver_reason_ids ← reset_length batch.driver_reason_ids rows
  driver_field_ids ← reset_length batch.driver_field_ids rows
  driver_evidence_edge_ids ← reset_length batch.driver_evidence_edge_ids rows
  issue_ids ← reset_length batch.issue_ids rows
  requirement_offsets ← reset_length batch.requirement_offsets (rows + 1)
  evidence_offsets ← reset_length batch.evidence_offsets (rows + 1)
  remediation_offsets ← reset_length batch.remediation_offsets (rows + 1)
  ok (record {
    outcome_ids = outcome_ids;
    driver_kinds = driver_kinds;
    driver_requirement_ids = driver_requirement_ids;
    driver_clause_ids = driver_clause_ids;
    driver_reason_ids = driver_reason_ids;
    driver_field_ids = driver_field_ids;
    driver_evidence_edge_ids = driver_evidence_edge_ids;
    issue_ids = issue_ids;
    requirement_offsets = requirement_offsets;
    requirement_ids = record { items = []; cap = batch.requirement_ids.cap };
    evidence_offsets = evidence_offsets;
    evidence_refs = record { items = []; cap = batch.evidence_refs.cap };
    remediation_offsets = remediation_offsets;
    remediation_ids = record { items = []; cap = batch.remediation_ids.cap };
  })
