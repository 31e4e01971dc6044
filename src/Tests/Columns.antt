-- ===== src/Tests/Columns.antt =====
-- A result batch that an evaluation used, made ready for the next.
use verifoxx.Base.{ℕ, ◌≡◌, refl, ◌↔◌, [], ◌∷◌, ok, Returns}
use verifoxx.ResultBatch.{
  Slice, ResultBatch, CapacityError, ensure, check_columns, check_capacity, reset,
}
use verifoxx.ResultBatch.Capacity.{
  IsReady, HasRoom, ensure-IsReady, check_capacity-HasRoom, reset-IsReady,
}

abbrev used : ℕ → Slice
used cap = record { items = 7 ∷ []; cap = cap }

-- A batch that an evaluation of one row used.
abbrev pub used_batch : ResultBatch
used_batch = record {
  outcome_ids = used 1;
  driver_kinds = used 2;
  driver_requirement_ids = used 1;
  driver_clause_ids = used 1;
  driver_reason_ids = used 1;
  driver_field_ids = used 1;
  driver_evidence_edge_ids = used 1;
  issue_ids = used 1;
  requirement_offsets = used 2;
  requirement_ids = used 1;
  evidence_offsets = used 2;
  evidence_refs = used 1;
  remediation_offsets = used 2;
  remediation_ids = used 1;
}

ensure-IsReady_example : Returns {E = CapacityError} (IsReady 2 4 3 1) (ensure used_batch 2 4 3 1)
ensure-IsReady_example = ensure-IsReady used_batch 2 4 3 1

-- The batch has room for one row and one result of each kind.
check_capacity-HasRoom_example :
    (check_capacity used_batch 1 1 1 1 ≡ ok tt) ↔ HasRoom 1 1 1 1 used_batch
check_capacity-HasRoom_example = check_capacity-HasRoom used_batch 1 1 1 1

used_batch-accepted : check_capacity used_batch 1 1 1 1 ≡ ok tt
unfolding check_capacity check_columns
used_batch-accepted = refl

reset-IsReady_example : Returns {E = CapacityError} (IsReady 1 1 1 1) (reset used_batch 1)
reset-IsReady_example = reset-IsReady used_batch 1 1 1 1 used_batch-accepted
