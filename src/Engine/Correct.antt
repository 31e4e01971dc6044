-- ===== src/Engine/Correct.antt =====
-- internal/engine/engine.go: `Session.Evaluate` as a whole.
use mathlib.Core.Path.{subst}
use native.Mathlib.Nat.{mod-eq_of_lt, mul-le-mul_right}
use verifoxx.Base.{
  ℕ, ◌+◌, ◌*◌, ◌/◌, ◌^◌, ◌≤◌, ◌<◌, ◌≡◌, refl, sym, ap, ◌∙◌, some, List, length, arith, Run, ok, err,
  panic, ◌>>=◌, Returns, Returns-value, Settles, settled, failed,
}
use verifoxx.Engine.{
  Session, new_session, new_validated, evaluate, evaluate_with, evaluate_built, lift_input,
  lift_evaluation, or_error,
}
use verifoxx.Engine.Capacity.{checked_product_iff}
use verifoxx.Engine.Error.{Error, input}
use verifoxx.Eval.Batch.{Batch}
use verifoxx.Eval.Builder.{Limits, build_into}
use verifoxx.Eval.Builder.Error as BuildError
use verifoxx.Eval.Builder.Correct.{Built, Fits32, Within, plane_words, build_into-Built}
use verifoxx.Eval.Context.{Context, word_count}
use verifoxx.Eval.Context
use verifoxx.Eval.Results.Batch.{Evaluated, evaluate_into-Evaluated}
use verifoxx.Eval.Resolve.{max_int, evaluate_into}
use verifoxx.Eval.Shape.{HasColumns}
use verifoxx.Input.{Request, EvidenceInput}
use verifoxx.Program.{Program}
use verifoxx.Program.Validate.{validate}
use verifoxx.Program.Validate.Sound.{validate-HasValidCode, validate-symbol_columns}
use verifoxx.Program.Validate.SoundTables.{validate-HasValidTables}
use verifoxx.ResultBatch.{ResultBatch}
use verifoxx.ResultBatch.Capacity.{IsReady, ensure-IsReady}

-- The sizes that a program and the limits of an engine may have.
pub record Sized (p : Program) (limits : Limits) : Type 0 where
  pub instructions : length p.opcodes < 2 ^ 32
  pub limits_32 : Fits32 limits
  pub rows : limits.max_rows + 63 < 2 ^ 32
  pub numbers : length p.requirement_symbols < 2 ^ 16
  pub requirements : limits.max_rows * length p.requirement_symbols < 2 ^ 32
  pub remediation_ids : limits.max_rows * length p.clause_remediation_ids < 2 ^ 32
  pub remediations : limits.max_rows * length p.remediations ≤ max_int

-- The session belongs to the engine of a program and its limits.
pub record Serves (p : Program) (limits : Limits) (session : Session) : Type 0 where
  pub engine : session.engine ≡ some (record { compiled = p; limits = limits })
  pub builder : session.builder ≡ record { program = some p; limits = limits }

-- What a call of `Evaluate` ends with: the builder's error in the inputs, if there is one, and else a
-- session of the same engine that holds the batch of the inputs and its results.
pub data Answers (p : Program) (limits : Limits) (requests : List Request)
    (records : List EvidenceInput) : Run Error Session → Type 0 where
  refused :
      {e : BuildError.Error}
      → build_into (record { program = some p; limits = limits }) requests records ≡ err e
      → Answers p limits requests records (err (input e))
  answered :
      {s : Session}
      → Serves p limits s
      → build_into (record { program = some p; limits = limits }) requests records ≡ ok (s.batch)
      → Within limits requests records
      → Built p requests records s.batch
      → Evaluated p s.batch s.numeric
      → Answers p limits requests records (ok s)

module _ (p : Program) (accepted : validate p ≡ ok tt) (limits : Limits) (sized : Sized p limits)
    (requests : List Request) (records : List EvidenceInput) where
  -- The results of a batch that the builder built.
  evaluated :
      (b : Batch)
      → Within limits requests records
      → Built p requests records b
      → (dst : ResultBatch)
      → IsReady b.rows
          (b.rows * length p.requirement_symbols)
          (length b.evidence_refs)
          (b.rows * length p.remediations)
          dst
      → Returns
          (λ (result : Context × ResultBatch). Evaluated p b (result.1))
          (evaluate_into p (Context.ensure p b.rows) b dst)
  evaluated b (few, _, few_edges) h dst ready =
      let exact = h.cells.rows_exact in
      let words : word_count b.rows ≡ plane_words requests =
        ap (λ (x : ℕ). x / 64)
          (mod-eq_of_lt (omega (arith, sized.rows, exact)) ∙ ap (λ (x : ℕ). x + 63) exact) in
      let below : b.rows ≤ limits.max_rows = omega arith in
      evaluate_into-Evaluated p (validate-HasValidCode p accepted)
        (validate-HasValidTables p accepted) b
        (subst (λ (w : ℕ). HasColumns w b) (sym words) h.columns) h.evidence
        (omega (arith, sized.rows)) (omega (arith, h.refs_length, sized.limits_32.2)) sized.numbers
        (omega (arith, mul-le-mul_right (length p.requirement_symbols) below, sized.requirements))
        (omega
          (arith, mul-le-mul_right (length p.clause_remediation_ids) below, sized.remediation_ids))
        sized.instructions
        (omega (arith, mul-le-mul_right (length p.remediations) below, sized.remediations)) dst
        ready

  evaluate_built-Answers :
      (session : Session) (b : Batch)
      → Serves p limits session
      → build_into (record { program = some p; limits = limits }) requests records ≡ ok b
      → Within limits requests records
      → Built p requests records b
      → Answers p limits requests records
          (evaluate_built session (record { compiled = p; limits = limits }) (length requests) b)
  unfolding evaluate_built or_error lift_evaluation
  evaluate_built-Answers session b own built within h =
      let rows = length requests in
      let exact = h.cells.rows_exact in
      let required = length p.requirement_symbols in
      let catalogue = length p.remediations in
      let fits : rows * required ≤ max_int =
        omega (arith, mul-le-mul_right required within.0, sized.requirements) in
      let fits' : rows * catalogue ≤ max_int =
        omega (arith, mul-le-mul_right catalogue within.0, sized.remediations) in
      let (numeric, ensured, ready) = Returns-value (
        ensure-IsReady {E = Error} session.numeric b.rows (rows * required) (length b.evidence_refs)
          (rows * catalogue)) in
      let ready' : IsReady b.rows (b.rows * required) (length b.evidence_refs) (b.rows * catalogue)
          numeric =
        subst
          (λ (n : ℕ).
            IsReady b.rows (n * required) (length b.evidence_refs) (n * catalogue) numeric)
          (sym exact) ready in
      let (result, ran, results) = Returns-value (evaluated b within h numeric ready') in
      rw
        (
          (checked_product_iff rows required (rows * required)).1 (fits, refl),
          (checked_product_iff rows catalogue (rows * catalogue)).1 (fits', refl),
          ensured,
          ran,
        )
        (answered (record { engine = own.engine; builder = own.builder }) built within h results)

  lift_input-Answers :
      (session : Session) (r : Run BuildError.Error Batch)
      → build_into (record { program = some p; limits = limits }) requests records ≡ r
      → Serves p limits session
      → Settles (λ b. Within limits requests records × Built p requests records b) r
      → Answers p limits requests records (
          lift_input r
          >>= evaluate_built session (record { compiled = p; limits = limits }) (length requests))
  unfolding lift_input
  lift_input-Answers session (ok b) built own (settled (within, h)) =
      evaluate_built-Answers session b own built within h
  lift_input-Answers session (err e) built own failed = refused built
  lift_input-Answers session panic built own h = elim h [ ]

  -- For a program that Validate accepts, with fewer than 2^16 requirements and 2^32 instructions,
  -- and limits that keep the rows and the results within 32 bits (Sized), on any session of that
  -- engine, whatever its last batch, context and results: Evaluate, up to the numeric results,
  -- never panics. It ends with the builder's error in the inputs, exactly if BuildInto has one;
  -- else it returns, the inputs are within the limits, and the session is still of that engine and
  -- holds the batch that BuildInto makes of the requests and the evidence records (Built), and the
  -- results of that batch for every row (Evaluated).
  pub evaluate-Answers :
      (session : Session)
      → Serves p limits session
      → Answers p limits requests records (evaluate session requests records)
  unfolding evaluate evaluate_with
  evaluate-Answers session own =
      rw (own.engine, own.builder)
        (lift_input-Answers
          (record session {
            engine = some (record { compiled = p; limits = limits });
            builder = record { program = some p; limits = limits };
          })
          _ refl (record { engine = refl; builder = refl })
          (build_into-Built p limits requests records (validate-symbol_columns p accepted)
            sized.limits_32))

-- A new session of an engine belongs to it.
pub new_session-Serves :
    (p : Program) (limits : Limits) → Serves p limits (new_session (some (new_validated p limits)))
unfolding new_session
new_session-Serves p limits = record { engine = refl; builder = refl }
