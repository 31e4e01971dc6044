-- ===== src/Eval/Results/Batch.antt =====
-- internal/eval/executor.go: `EvaluateInto` as a whole, from the columns of a batch to the results.
use mathlib.Core.Path.{subst}
use native.Mathlib.Nat.{mod-eq_of_lt, suc-mul, mul-le-mul_right}
use verifoxx.Base.{
  ℕ, zero, suc, ◌+◌, ◌-◌, ◌*◌, ◌/◌, ◌%◌, ◌^◌, ◌≤◌, ◌<◌, ◌≡◌, refl, sym, ap, ◌∙◌, Bool, List, [],
  ◌∷◌, ◌++◌, length, length-append, get_or, le→ltb, Bool-cases, inl, inr, arith, ok,
  for_range_inv_zero, Returns, returns, Returns-bind, value_or, Returns-value_or, IfOk-ok,
}
use verifoxx.Eval.Batch.{Batch}
use verifoxx.Eval.Context.{Context, ensure, word_count}
use verifoxx.Eval.Correct.Instructions.{evaluate_instructions-verdicts}
use verifoxx.Eval.Correct.Cause.{applies, applicable_ids}
use verifoxx.Eval.Correct.Resolution.{Resolves, resolve_winner-Resolves}
use verifoxx.Eval.Executor.{Applied, resolve_winner}
use verifoxx.Eval.Resolve.{lift_capacity, resolve_row, evaluate_into, max_int}
use verifoxx.Eval.Results.Evidence.{Each, IsNumber, row_refs, refs_from-length}
use verifoxx.Eval.Results.Remediations.{
  remediations_of, remediations_of-length, resolve_winner-NamesClause,
}
use verifoxx.Eval.Results.Row.{ShowsWinners, ListsOf, resolve_row-written}
use verifoxx.Eval.Results.Segments.{joined, joined-bound, Shows-zeros, Segmented-zeros}
use verifoxx.Eval.RowSpec.{verdicts}
use verifoxx.Eval.Shape.{HasColumns, HasEvidence}
use verifoxx.Eval.Verdicts.{Holds}
use verifoxx.Program.{Program}
use verifoxx.Program.Valid.{HasValidCode, HasValidTables}
use verifoxx.ResultBatch.{ResultBatch}
use verifoxx.ResultBatch.Capacity.{IsReady, reset-IsReady, check_capacity-IsReady}

abbrev no_winner : Applied
no_winner = record {
  winner = record {
    outcome = 0;
    kind = 0;
    requirement = 0;
    clause = 0;
    reason = 0;
    field = 0;
    edge = 0;
    rank = 0;
  };
  requirement_ids = [];
}

-- What the search finds for a row.
abbrev found : Program → Context → Batch → ℕ → Applied
found p context batch r = value_or (resolve_winner p context batch r) no_winner

Each-snoc : (P : ℕ → Type 0) (xs : List ℕ) (x : ℕ) → Each P xs → P x → Each P (xs ++ x ∷ [])
Each-snoc P [] x h k = (k, tt)
Each-snoc P (y ∷ xs) x (h, hs) k = (h, Each-snoc P xs x hs k)

applicable_ids-known : (f : ℕ → Bool) (n k : ℕ) → k ≤ n → Each (IsNumber n) (applicable_ids f k)
unfolding applicable_ids
applicable_ids-known f n zero h = tt
applicable_ids-known f n (suc k) h =
    let rest = applicable_ids-known f n k (omega arith) in
    elim (Bool-cases (f k)) [
      | inl here ↦
          rw here
            (Each-snoc (IsNumber n) (applicable_ids f k) (k + 1) rest (omega arith, omega arith))
      | inr other ↦ rw other rest
    ]

applicable_ids-length : (f : ℕ → Bool) (k : ℕ) → length (applicable_ids f k) ≤ k
unfolding applicable_ids
applicable_ids-length f zero = omega arith
applicable_ids-length f (suc k) =
    let rest = applicable_ids-length f k in
    elim (Bool-cases (f k)) [
      | inl here ↦ rw here (omega (arith, length-append (applicable_ids f k) ((k + 1) ∷ []), rest))
      | inr other ↦ rw other (omega (arith, rest))
    ]

-- Lists of at most `m` items each, for fewer than `n` rows.
few_joined :
    (seg : ℕ → List ℕ) (m n : ℕ)
    → n * m < 2 ^ 32
    → ((r : ℕ) → r < n → length (seg r) ≤ m)
    → (k : ℕ) → k ≤ n
    → length (joined seg k) < 2 ^ 32
few_joined seg m n few each k below =
    let bound =
      joined-bound seg (λ r. r * m) k
        (λ r inside. omega (arith, each r (omega arith), suc-mul r m)) in
    omega (arith, bound, mul-le-mul_right m below)

-- The results of a batch: for each row a winner and the applicable requirements as the row-by-row
-- specification has them, and the columns that show them.
pub record Evaluated (p : Program) (batch : Batch) (dst : ResultBatch) : Type 0 where
  pub applied : ℕ → Applied
  pub resolves :
      (r : ℕ)
      → r < batch.rows
      → Resolves p batch (verdicts p batch (length p.opcodes)) r (applied r)
  pub winners : ShowsWinners batch.rows batch.rows applied dst
  pub lists : ListsOf p batch batch.rows batch.rows applied dst

module _ (p : Program) (code : HasValidCode p) (tables : HasValidTables p) (batch : Batch)
    (columns : HasColumns (word_count batch.rows) batch) (evidence : HasEvidence batch)
    (fits : batch.rows + 63 < 2 ^ 32) (few_edges : length batch.evidence_refs < 2 ^ 32)
    (numbered : length p.requirement_symbols < 2 ^ 16)
    (few_requirements : batch.rows * length p.requirement_symbols < 2 ^ 32)
    (few_remediations : batch.rows * length p.clause_remediation_ids < 2 ^ 32) where
  module _ (context : Context)
      (holds : Holds
        (length p.opcodes)
        (word_count batch.rows)
        batch.rows
        (verdicts p batch (length p.opcodes))
        context) where
    abbrev a : ℕ → Applied
    a r = found p context batch r

    words_exact : word_count batch.rows ≡ (batch.rows + 63) / 64
    words_exact = ap (λ (x : ℕ). x / 64) (mod-eq_of_lt fits)

    resolved :
        (r : ℕ)
        → r < batch.rows
        → (resolve_winner p context batch r ≡ ok (a r))
          × Resolves p batch (verdicts p batch (length p.opcodes)) r (a r)
    resolved r inside = Returns-value_or no_winner (
        resolve_winner-Resolves p tables batch (word_count batch.rows) columns evidence
          (omega (arith, words_exact)) (omega (arith, words_exact)) context
          (verdicts p batch (length p.opcodes)) holds r inside numbered)

    applied_ids :
        (r : ℕ)
        → r < batch.rows
        → (a r).requirement_ids
          ≡ applicable_ids
              (applies p (verdicts p batch (length p.opcodes)) r)
              (length p.requirement_symbols)
    applied_ids r inside =
        (resolved r inside).1.ids
        ∙ ap (applicable_ids (applies p (verdicts p batch (length p.opcodes)) r))
            tables.requirement_roots_length

    early_refs :
        (k : ℕ)
        → k ≤ batch.rows
        → length (joined (λ r. row_refs p batch (a r).requirement_ids r) k)
          ≤ get_or batch.evidence_ref_offsets k 0
    early_refs k below =
        joined-bound (λ r. row_refs p batch (a r).requirement_ids r)
          (λ r. get_or batch.evidence_ref_offsets r 0) k
          λ r inside.
            let next : r + 1 ≡ suc r = omega arith in
            let at = ap (λ (x : ℕ). get_or batch.evidence_ref_offsets x 0) next in
            let start = get_or batch.evidence_ref_offsets r 0 in
            omega (
              arith,
              evidence.offsets_rise r (omega arith),
              at,
              refs_from-length p batch (a r).requirement_ids start
                  (get_or batch.evidence_ref_offsets (r + 1) 0 - start),
            )

    abbrev Written : ℕ → ResultBatch → Type 0
    Written k dst = ShowsWinners batch.rows k a dst × ListsOf p batch batch.rows k a dst

    next_row :
        (k : ℕ) (dst : ResultBatch)
        → k < batch.rows
        → Written k dst
        → Returns (Written (suc k)) (resolve_row p context batch k dst)
    next_row k dst inside (shown, lists) =
        let (found_k, resolves) = resolved k inside in
        resolve_row-written p batch batch.rows k inside a tables evidence refl few_edges
          (few_joined (λ r. (a r).requirement_ids) (length p.requirement_symbols) batch.rows
            few_requirements
            (λ r below. omega (
              arith,
              ap length (applied_ids r below),
              applicable_ids-length (applies p (verdicts p batch (length p.opcodes)) r)
                  (length p.requirement_symbols),
            ))
            (suc k) (omega arith))
          (few_joined (λ r. remediations_of p (a r).winner) (length p.clause_remediation_ids)
            batch.rows few_remediations (λ r _. remediations_of-length p (a r).winner) (suc k)
            (omega arith))
          (early_refs k (omega arith)) context found_k
          (IfOk-ok (resolve_winner-NamesClause p context batch k) found_k)
          (subst (Each (IsNumber (length p.requirement_symbols))) (sym (applied_ids k inside)) (
            applicable_ids-known (applies p (verdicts p batch (length p.opcodes)) k)
              (length p.requirement_symbols) (length p.requirement_symbols) (omega arith)))
          dst shown lists

  ready-Written :
      (a : ℕ → Applied) (requirements edges remediations : ℕ) (dst : ResultBatch)
      → IsReady batch.rows requirements edges remediations dst
      → ShowsWinners batch.rows 0 a dst × ListsOf p batch batch.rows 0 a dst
  ready-Written a requirements edges remediations dst h = (
    record {
      outcome = rw h.outcome_ids.zeros (Shows-zeros batch.rows _);
      kind = rw h.driver_kinds.zeros (Shows-zeros batch.rows _);
      requirement = rw h.driver_requirement_ids.zeros (Shows-zeros batch.rows _);
      clause = rw h.driver_clause_ids.zeros (Shows-zeros batch.rows _);
      reason = rw h.driver_reason_ids.zeros (Shows-zeros batch.rows _);
      field = rw h.driver_field_ids.zeros (Shows-zeros batch.rows _);
      edge = rw h.driver_evidence_edge_ids.zeros (Shows-zeros batch.rows _);
      issue = rw h.issue_ids.zeros (Shows-zeros batch.rows _);
    },
    record {
      requirements =
          rw (h.requirement_offsets.zeros, h.requirement_ids.empty) (Segmented-zeros batch.rows _);
      evidence =
          rw (h.evidence_offsets.zeros, h.evidence_refs.empty) (Segmented-zeros batch.rows _);
      remediations =
          rw (h.remediation_offsets.zeros, h.remediation_ids.empty) (Segmented-zeros batch.rows _);
    },
  )

  -- For a program whose code and tables are valid, with fewer than 2^32 instructions and 2^16
  -- requirements, and a batch of the declared shape with valid evidence, of rows with rows + 63 <
  -- 2^32, fewer than 2^32 edges, rows times requirements and rows times remediation references below 2^32 and rows times
  -- remediations within an int: EvaluateInto, on the context that Ensure makes for the rows and a
  -- result batch that is ready for them, returns without an error or a panic. The result columns
  -- show for every row a winner and applicable requirements as the specification of the search
  -- (Resolves) has them on the row-by-row verdicts, and between each row's offsets stand exactly
  -- its applicable requirements, its required evidence references, each once in order, and the
  -- remediations of its winner's clause, where that clause asks for a revision.
  pub evaluate_into-Evaluated :
      length p.opcodes < 2 ^ 32
      → batch.rows * length p.remediations ≤ max_int
      → (dst : ResultBatch)
      → IsReady batch.rows
          (batch.rows * length p.requirement_symbols)
          (length batch.evidence_refs)
          (batch.rows * length p.remediations)
          dst
      → Returns
          (λ (result : Context × ResultBatch). Evaluated p batch (result.1))
          (evaluate_into p (ensure p batch.rows) batch dst)
  unfolding evaluate_into lift_capacity
  evaluate_into-Evaluated few few_catalogue dst ready =
      let required = batch.rows * length p.requirement_symbols in
      let remediations = batch.rows * length p.remediations in
      let exact : required % 2 ^ 64 ≡ required = mod-eq_of_lt (omega arith) in
      let exact' : remediations % 2 ^ 64 ≡ remediations = mod-eq_of_lt (omega arith) in
      rw
        (
          exact,
          exact',
          le→ltb max_int required (omega arith),
          le→ltb max_int remediations few_catalogue,
          check_capacity-IsReady dst batch.rows required (length batch.evidence_refs) remediations
              ready,
        )
        (Returns-bind
          (evaluate_instructions-verdicts p code few batch columns evidence fits few_edges)
          λ context holds.
            Returns-bind
              (reset-IsReady dst batch.rows required (length batch.evidence_refs) remediations (
                check_capacity-IsReady dst batch.rows required (length batch.evidence_refs)
                  remediations ready))
              λ empty clean.
                Returns-bind
                  (for_range_inv_zero (Written context holds) (resolve_row p context batch)
                    batch.rows empty (λ k d inside h. next_row context holds k d inside h)
                    (ready-Written (found p context batch) required (length batch.evidence_refs)
                      remediations empty clean))
                  λ resolved_dst (shown, lists). returns (record {
                    applied = found p context batch;
                    resolves = λ r inside. (resolved context holds r inside).1;
                    winners = shown;
                    lists = lists;
                  }))
