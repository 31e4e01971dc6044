-- ===== src/Program.antt =====
-- internal/program: the compiled numeric program (program.go, opcode.go, lookup.go). A column is a
-- list; an identifier is a number with 0 for "none".
pub mod Lookup
pub mod Opcode
pub mod Valid
pub mod Validate
use verifoxx.Base.{
  ℕ, suc, ◌+◌, ◌-◌, ◌%◌, ◌^◌, Bool, true, false, not, ◌&&◌, ◌||◌, Option, none, some, List, [], ◌∷◌,
  length, get_or, take, drop, ltb, leb, ◌==◌, if◌then◌else◌, Run, ok, panic,
}
use verifoxx.Base.Text.{Text, ◌=ₜ◌}
use verifoxx.Schema.{is_valid_id}

pub record EvidenceSpec : Type 0 where
  pub kind : ℕ
  pub status : ℕ
  pub timing : ℕ
  pub reviewer : ℕ
  pub timestamp_state : ℕ
  pub subject : ℕ
  pub attestation_state : ℕ
  pub scope : ℕ
  pub adjustment_type : ℕ

-- `RemediationAction`: 0 is invalid.
abbrev pub add_evidence : ℕ
add_evidence = 1

abbrev pub set_field : ℕ
set_field = 2

pub record RemediationSpec : Type 0 where
  pub action : ℕ
  pub evidence_kind : ℕ
  pub description : ℕ
  pub field : ℕ
  pub value : ℕ

pub record Program : Type 0 where
  pub name : Text
  pub version : Text
  pub opcodes : List ℕ
  pub fields : List ℕ
  pub values : List ℕ
  pub operand_starts : List ℕ
  pub operand_counts : List ℕ
  pub operands : List ℕ
  pub set_starts : List ℕ
  pub set_counts : List ℕ
  pub set_values : List ℕ
  pub evidence_spec_indexes : List ℕ
  pub evidence_specs : List EvidenceSpec
  pub evidence_kind_symbols : List ℕ
  pub requirement_symbols : List ℕ
  pub requirement_applicability_roots : List ℕ
  pub requirement_clause_starts : List ℕ
  pub requirement_clause_counts : List ℕ
  pub requirement_clause_ids : List ℕ
  pub clause_symbols : List ℕ
  pub clause_assertion_roots : List ℕ
  pub clause_resolution_outcome_ids : List ℕ
  pub clause_explanation_ids : List ℕ
  pub clause_remediation_starts : List ℕ
  pub clause_remediation_counts : List ℕ
  pub clause_remediation_ids : List ℕ
  pub clause_evidence_kind_starts : List ℕ
  pub clause_evidence_kind_counts : List ℕ
  pub clause_evidence_kinds : List ℕ
  pub remediations : List RemediationSpec
  pub explanation_symbols : List ℕ
  pub outcome_precedence : List ℕ
  pub symbol_text : Text
  pub symbol_starts : List ℕ
  pub symbol_lengths : List ℕ

-- The loop of `LookupSymbol` over the entries from the `i`-th on. A start with no length is an
-- index out of range.
unfoldable pub lookup_from : {E : Type 0} → Text → Text → ℕ → List ℕ → List ℕ → Run E (Option ℕ)
lookup_from text value i [] lengths = ok none
lookup_from text value i (start ∷ starts) [] = panic
lookup_from text value i (start ∷ starts) (len ∷ lengths) =
    let rest = lookup_from text value (suc i) starts lengths in
    if not (len == length value) || ltb (length text) (start + len)
    then rest
    else if take len (drop start text) =ₜ value
    then ok (some (suc i % 2 ^ 32))
    else rest

unfoldable pub lookup_symbol : {E : Type 0} → Program → Text → Run E (Option ℕ)
unfolding lookup_from
lookup_symbol p value = lookup_from p.symbol_text value 0 p.symbol_starts p.symbol_lengths

unfoldable pub symbol : Program → ℕ → Text
symbol p id =
    if not (is_valid_id id)
      || ltb (length p.symbol_starts) id
      || not (length p.symbol_starts == length p.symbol_lengths)
    then []
    else let start = get_or p.symbol_starts (id - 1) 0 in
      let end = start + get_or p.symbol_lengths (id - 1) 0 in
      if ltb end start || ltb (length p.symbol_text) end
      then []
      else take (end - start) (drop start p.symbol_text)
