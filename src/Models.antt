-- ===== src/Models.antt =====
-- db/models.py, and the results of the model stages that a row keeps. Columns that are always written
-- together are kept as one optional value. The JSON copies of log lines, samples and cluster state
-- are left out.
use llopster.Base.{ℕ, Option, List, Bool, Text}
use llopster.Base.Int.{ℤ}
use llopster.Alerts.Payload.{RawAlert}
use llopster.Messages.{Status, Message}

-- agent/triage.py
pub record TriageDecision : Type 0 where
  pub proceed : Bool
  pub confidence : ℕ
  pub reasoning : Text
  pub model : Text
  pub input_tokens : ℕ
  pub output_tokens : ℕ
  pub cache_read_tokens : ℕ
  pub cache_creation_tokens : ℕ

-- agent/investigator.py
pub record Investigation : Type 0 where
  pub root_cause : Text
  pub affected_files : List Text
  pub confidence : ℕ
  pub reasoning : Text
  pub response_text : Text
  pub model : Text
  pub input_tokens : ℕ
  pub output_tokens : ℕ
  pub cache_read_tokens : ℕ
  pub cache_creation_tokens : ℕ

-- agent/patch_generator.py
pub record PatchProposal : Type 0 where
  pub text : Text
  pub model : Text
  pub input_tokens : ℕ
  pub output_tokens : ℕ
  pub cache_read_tokens : ℕ
  pub cache_creation_tokens : ℕ
  pub confidence : ℕ
  pub confidence_reason : Text
  pub used_narrowed_context : Bool
  pub file_count : ℕ

-- What `record_collected_context` writes.
pub record ContextColumns : Type 0 where
  pub logql_used : Option Text
  pub promql_used : Option Text
  pub lookback_minutes : ℤ
  pub log_line_count : ℕ
  pub metric_sample_count : ℕ
  pub collection_errors : List Text

-- What `record_llm_response` writes.
pub record LlmColumns : Type 0 where
  pub proposal : PatchProposal
  pub latency_ms : ℕ
  pub parsed_root_cause : Option Text
  pub parsed_diff : Text

pub record OperatorLabel : Type 0 where
  pub label : Text
  pub note : Option Text
  pub labeled_at : ℕ
  pub labeled_by : Option Text

pub record Run : Type 0 where
  pub id : Text
  pub fingerprint : Text
  pub dedup_key : Text
  pub created_at : ℕ
  pub alertname : Text
  pub service : Text
  pub severity : Text
  pub status : Text
  -- the alerts of the stored payload
  pub alert_payload : List RawAlert
  pub trigger_source : Text
  pub context : Option ContextColumns
  pub triage : Option TriageDecision
  pub investigation : Option (Investigation × ℕ)
  pub llm : Option LlmColumns
  pub pr_opened : Bool
  pub pr_url : Option Text
  pub pr_number : Option ℕ
  pub pr_branch : Option Text
  pub pr_skip_reason : Option Message
  pub pr_status : Option Text
  pub pr_merged_at : Option ℕ
  pub slack_notified : Bool
  pub slack_skip_reason : Option Message
  pub operator_label : Option OperatorLabel
  pub processing_status : Status
  pub error_message : Option Message

pub record Db : Type 0 where
  pub runs : List Run
  pub settings : List (Text × Text)
