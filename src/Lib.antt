-- ===== src/Lib.antt =====
-- A model of verifoxx, a decision engine: it compiles a policy to numeric tables, evaluates the
-- tables over a batch of requests on bitplanes, and resolves one outcome for each request.
--
-- Parts, in the order in which data passes through them:
-- * Schema (internal/schema): the identifiers of fields, reasons and outcomes and the tables that
--   name them: `lookup_field` is LookupField, `field_name` FieldName.
-- * Ast (internal/ast): a policy as it is written (policy.go, expression.go) and Ast/Validate, which is
--   validate.go; WellFormed, Clauses and Policies say what it asks for.
-- * Compile (internal/compile): Compile/Interner is interner.go; Symbols and Interning relate it to the
--   program's symbol lookup.
-- * Program (internal/program): the compiled tables (program.go), the symbol lookup (lookup.go), the
--   opcodes (opcode.go). Program/Validate is validate.go: `validate` is Program.Validate, split into
--   Code (instructions and symbols) and Tables (requirements, clauses and catalogues).
--   Program/Lookup is about the symbols; Program/Valid says what the evaluator and
--   the executor need of a program, and Sound and
--   SoundTables under Program/Validate relate `validate` to it.
-- * Eval (internal/eval): Batch is batch.go, Context is context.go and truth.go, Evidence is
--   evidence.go, Scalar is scalar.go with `evaluate_instructions` for EvaluateInstructions, Executor
--   and Resolve are executor.go with `resolve_row` for resolveRow and `evaluate_into` for
--   EvaluateInto. Eval/RowSpec is the specification: the verdict of an instruction on one row, with
--   no plane and no word. Eval/Planes, Eval/Verdicts and Eval/Correct relate the two; Reasons,
--   Cause, Winner, Requirements and Resolution there are about the executor's search.
--   Eval/Builder is builder.go, with `build_into` for BuildInto: Columns has the writes of the
--   fields and of the evidence, Inputs the checks of the inputs, Cells, Rows, Records and References
--   the columns beside tables of the inputs. Eval/Results is about what resolveRow writes.
-- * Input (internal/input/types.go): the decoded requests and evidence records.
-- * Engine (internal/engine/engine.go): an engine's sessions, with `evaluate` for Session.Evaluate
--   up to the numeric results; it builds the batch, makes the context and the result batch ready
--   and runs the executor.
-- * ResultBatch (internal/result/batch.go): the result columns that the executor fills.
-- * Framed (internal/adapters/framed): the length-prefixed frames around requests and results
--   (codec.go), and Framed/Response with the bounded buffer and the truncation of json.go.
-- Base holds what the parts share, Tests the theorems at concrete inputs.
--
-- How the code is read. A Go call is a `Run`: it returns a value, returns an error or panics, and an
-- index or a slice out of range panics, so a theorem with `Returns` also says that no index is out of
-- range. An error is a constructor, without its message's text. A slice is a list of its items; the
-- result columns keep their capacity too (`Slice`), and a growing `append` takes the least capacity.
-- A plane is a part of its store, by its first word and its length, so planes of a store share it as
-- Go's slices do. An integer of 16, 32 or 64 bits is a number with its wrap-around written out where
-- the code can reach it (`u16`, `u32`); an `int` has 64 bits. A string is the list of its bytes.
--
-- Bounds: a batch has rows with rows + 63 < 2^32, since Ensure adds 63 in 32 bits, and fewer than
-- 2^32 edges, instructions and symbols, which are numbered in 32 bits. The requirements are numbered
-- in 16 bits, from 1, and Validate does not bound them, so there are fewer than 2^16. The offsets of the results have 32
-- bits as well, so rows times requirements stays below 2^32 (the default limit of 2^20 rows keeps it
-- there up to 4095 requirements). Fuel: a frame's write is on as much
-- fuel as there are bytes, and each round that goes on takes one at least; trimming is on as much
-- fuel as there are bytes.
--
-- Taken from outside: the destination of a frame is any io.Writer, a parameter, with its documented
-- contract as a hypothesis; a frame's source is an in-memory reader. `utf8.ValidString` is a parameter
-- too.
--
-- Not modelled: the compiler of policies (internal/compile/compiler.go), the output that a
-- session writes from its results (internal/adapters/jsonio/output.go), the JSON codecs
-- (internal/adapters), the command line and the make menu (cmd): input and output, or left for an
-- extension. Destinations are values, so the checks for a nil destination have no counterpart.
pub mod Base
pub mod Schema
pub mod Program
pub mod ResultBatch
pub mod Input
pub mod Ast
pub mod Compile
pub mod Eval
pub mod Engine
pub mod Framed
pub mod Tests
