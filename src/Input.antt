-- ===== src/Input.antt =====
-- internal/input/types.go: the decoded requests and evidence records.
use verifoxx.Base.{List}
use verifoxx.Base.Text.{Text}

pub record Request : Type 0 where
  pub id : Text
  pub requester : Text
  pub trust_level : Text
  pub action : Text
  pub output_kind : Text
  pub dataset : Text
  pub environment : Text
  pub usage_limit : Text
  pub evidence_ids : List Text

pub record EvidenceInput : Type 0 where
  pub id : Text
  pub kind : Text
  pub status : Text
  pub timing : Text
  pub reviewer : Text
  pub reviewer_state : Text
  pub timestamp_state : Text
  pub subject : Text
  pub attestation_state : Text
  pub scope : Text
  pub adjustment_type : Text
