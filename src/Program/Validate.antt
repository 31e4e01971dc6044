-- ===== src/Program/Validate.antt =====
-- internal/program/validate.go: `Program.Validate`.
pub mod Error
pub mod Code
pub mod Tables
pub mod Sound
pub mod SoundTables
use verifoxx.Base.{Run, ◌>>=◌, ◌>>◌}
use verifoxx.Program.{Program}
use Code.{validate_code}
use Tables.{validate_requirements_and_clauses, validate_catalogues}

unfoldable pub validate : Program → Run Error.Error (Unit {0})
validate p = do _ ← validate_code p; _ ← validate_requirements_and_clauses p; validate_catalogues p
