-- ===== src/Eval/Correct/Clauses.antt =====
-- internal/eval/executor.go: the clauses of a requirement and the evidence kinds of a clause, read from
-- the tables of a program.
use verifoxx.Base.{
  ℕ, ◌+◌, ◌-◌, ◌≤◌, ◌<◌, ◌≡◌, List, arith, ok, length, get_or, take, drop, slice-take, nth-get_or,
  ne→==, get_or-take, get_or-drop, length-take,
}
use verifoxx.Program.{Program}
use verifoxx.Program.Valid.{HasValidTables}
use verifoxx.Eval.Executor.{requirement_clauses}
use verifoxx.Eval.Resolve.{clause_kinds}

abbrev pub clauses_of : Program → ℕ → List ℕ
clauses_of p index =
    take
      (get_or p.requirement_clause_starts index 0
        + get_or p.requirement_clause_counts index 0
        - get_or p.requirement_clause_starts index 0)
      (drop (get_or p.requirement_clause_starts index 0) p.requirement_clause_ids)

abbrev pub kinds_of : Program → ℕ → List ℕ
kinds_of p id =
    take
      (get_or p.clause_evidence_kind_starts (id - 1) 0
        + get_or p.clause_evidence_kind_counts (id - 1) 0
        - get_or p.clause_evidence_kind_starts (id - 1) 0)
      (drop (get_or p.clause_evidence_kind_starts (id - 1) 0) p.clause_evidence_kinds)

module _ (p : Program) (tables : HasValidTables p) where
  pub requirement_clauses-of :
      (index : ℕ)
      → index < length p.requirement_symbols
      → requirement_clauses p index ≡ ok (clauses_of p index)
  unfolding requirement_clauses
  requirement_clauses-of index inside =
      let valid = tables.requirement index inside in
      rw (
        nth-get_or p.requirement_clause_starts index 0
            (omega (arith, tables.requirement_starts_length)),
        nth-get_or p.requirement_clause_counts index 0
            (omega (arith, tables.requirement_counts_length)),
        slice-take p.requirement_clause_ids (get_or p.requirement_clause_starts index 0)
            (get_or p.requirement_clause_starts index 0
              + get_or p.requirement_clause_counts index 0)
            (omega arith) valid.clause_range,
      )

  pub clauses_of-known :
      (index : ℕ)
      → index < length p.requirement_symbols
      → (j : ℕ) → j < length (clauses_of p index)
      → (0 < get_or (clauses_of p index) j 0)
        × (get_or (clauses_of p index) j 0 ≤ length p.clause_symbols)
  clauses_of-known index inside j below =
      let start = get_or p.requirement_clause_starts index 0 in
      let count = get_or p.requirement_clause_counts index 0 in
      let short : j < count =
        omega (arith, length-take (start + count - start) (drop start p.requirement_clause_ids)) in
      rw
        (
          get_or-take (start + count - start) j (drop start p.requirement_clause_ids) 0
              (omega arith),
          get_or-drop start j p.requirement_clause_ids 0,
        )
        ((tables.requirement index inside).clause_ids j short)

  pub clause_kinds-of :
      (id : ℕ) → 0 < id → id ≤ length p.clause_symbols → clause_kinds p id ≡ ok (kinds_of p id)
  unfolding clause_kinds
  clause_kinds-of id positive known =
      let valid = tables.clause (id - 1) (omega arith) in
      rw (
        ne→== id 0 (omega arith),
        nth-get_or p.clause_evidence_kind_starts (id - 1) 0
            (omega (arith, tables.kind_starts_length)),
        nth-get_or p.clause_evidence_kind_counts (id - 1) 0
            (omega (arith, tables.kind_counts_length)),
        slice-take p.clause_evidence_kinds (get_or p.clause_evidence_kind_starts (id - 1) 0)
            (get_or p.clause_evidence_kind_starts (id - 1) 0
              + get_or p.clause_evidence_kind_counts (id - 1) 0)
            (omega arith) valid.kind_range,
      )
