-- ===== src/Schema.antt =====
-- internal/schema: the identifiers of fields, reasons and outcomes, and the tables that name them
-- (fields.go, states.go, ids.go). An identifier is a number with 0 for "invalid".
pub mod Field
pub mod Reason
pub mod Outcome
pub mod Names
use verifoxx.Base.{ℕ, Bool, true, false, not, ◌&&◌, ◌||◌, Option, none, some, ◌==◌, if◌then◌else◌}
use verifoxx.Base.Text.{Text, bytes, ◌=ₜ◌, trim_space}
use Field.{requester, trust_level, action, output_kind, dataset, environment, usage_limit}

-- `ID.Valid()`, the same test for every identifier type.
abbrev pub is_valid_id : ℕ → Bool
is_valid_id id = not (id == 0)

unfoldable pub lookup_field : Text → Option ℕ
lookup_field name =
    if name =ₜ bytes "requester"
    then some requester
    else if name =ₜ bytes "trust_level"
    then some trust_level
    else if name =ₜ bytes "action"
    then some action
    else if name =ₜ bytes "output_kind"
    then some output_kind
    else if name =ₜ bytes "dataset"
    then some dataset
    else if name =ₜ bytes "environment"
    then some environment
    else if name =ₜ bytes "usage_limit"
    then some usage_limit
    else none

unfoldable pub field_name : ℕ → Text
field_name id =
    if id == requester
    then bytes "requester"
    else if id == trust_level
    then bytes "trust_level"
    else if id == action
    then bytes "action"
    else if id == output_kind
    then bytes "output_kind"
    else if id == dataset
    then bytes "dataset"
    else if id == environment
    then bytes "environment"
    else if id == usage_limit
    then bytes "usage_limit"
    else bytes ""

unfoldable pub valid_field_value : ℕ → Text → Bool
valid_field_value field value =
    if field == requester
    then not (value =ₜ bytes "") && trim_space value =ₜ value
    else if field == trust_level
    then value =ₜ bytes "external" || value =ₜ bytes "trusted_internal"
    else if field == action
    then value =ₜ bytes "aggregate_analysis" || value =ₜ bytes "row_level_export"
    else if field == output_kind
    then value =ₜ bytes "aggregate_counts" || value =ₜ bytes "individual_records"
    else if field == dataset
    then value =ₜ bytes "protected_dataset"
    else if field == environment
    then value =ₜ bytes "local_approved_env" || value =ₜ bytes "unverified_remote_env"
    else if field == usage_limit
    then value =ₜ bytes "standard" || value =ₜ bytes "above_standard_limit"
    else false

unfoldable pub valid_evidence_kind : Text → Bool
valid_evidence_kind kind =
    kind =ₜ bytes "approval_record"
    || kind =ₜ bytes "execution_environment_attestation"
    || kind =ₜ bytes "usage_limit_adjustment"
